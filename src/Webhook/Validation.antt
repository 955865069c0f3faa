-- ===== src/Webhook/Validation.antt =====
-- api/v1alpha1/directoryservice_webhook.go: what is admitted.
use mathlib.Core.Path.{subst}
use ds_operator.Prelude.{
  ℤ, pos, ◌≤ℤ◌, Option, some, none, ◌≡◌, ◌↔◌, ◌⊎◌, inl, inr, refl, sym, ap, ◌∙◌, arith, ok, err,
  message, ltb_ℤ, Bool-cases, true, false, if◌then◌else◌, ok-ne-err,
}
use ds_operator.Api.Types.{DirectoryService}
use ds_operator.Webhook.{default, validate_create, validate_replicas, or_one}

above : (r : ℤ) → ltb_ℤ (pos 6) r ≡ true → r ≤ℤ pos 6 → ⊥
above r h low = ground arith

below : (r : ℤ) → ltb_ℤ (pos 6) r ≡ false → r ≤ℤ pos 6
below r h = ground arith

some-injective : {a b : ℤ} → ◌≡◌ {A = Option ℤ} (some a) (some b) → a ≡ b
some-injective h = cc

validate_replicas-or_one :
    (o : Option ℤ)
    → (validate_replicas (or_one o) ≡ ok tt)
      ↔ ((o ≡ none) ⊎ ((r : ℤ) × (o ≡ some r) × (r ≤ℤ pos 6)))
validate_replicas-or_one none = (λ h. inl refl, λ h. refl)
validate_replicas-or_one (some r) = elim (Bool-cases (ltb_ℤ (pos 6) r)) [
  | inl over ↦ (
    λ h. absurd (
        ok-ne-err
          (sym (ap (λ b. if b then err (message "must not exceed 6") else ok tt) over) ∙ h)),
    λ h. elim h [
      | inl e ↦ cc
      | inr (x, e, low) ↦
          absurd (above r over (subst (λ y. y ≤ℤ pos 6) (some-injective (sym e)) low))
    ],
  )
  | inr low ↦ (
    λ h. inr (r, refl, below r low),
    λ h. ap (λ b. if b then err (message "must not exceed 6") else ok tt) low,
  )
]

-- After the defaults, a directory service is admitted exactly when it gave no number of replicas or
-- one of at most 6.
pub validate_create-default :
    (ds : DirectoryService)
    → (validate_create (default ds) ≡ ok tt)
      ↔ ((ds.spec.replicas ≡ none) ⊎ ((r : ℤ) × (ds.spec.replicas ≡ some r) × (r ≤ℤ pos 6)))
unfolding validate_create default
validate_create-default ds = validate_replicas-or_one ds.spec.replicas
