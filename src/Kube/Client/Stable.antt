-- ===== src/Kube/Client/Stable.antt =====
-- Operations that find things as they would leave them.
use mathlib.Core.Path.{subst₂}
use ds_operator.Prelude.{◌≡◌, ◌≢◌, refl, sym, ap, ◌∙◌, ◌⊎◌, inl, inr, ok, Ends, ok-injective}
use ds_operator.Kube.Meta.{Key, Key-cases}
use ds_operator.Kube.Objects.{Kind, Kind-discrete, Obj, object_key, with_status_self}
use ds_operator.Kube.Client.{Client, Mutate}
use ds_operator.Kube.Client.Laws.{OnlyAt, IsLawful}

module _ {W : Type 0} (api : Client W) where
  -- No object of any kind is another than before.
  pub record Unchanged (w w' : W) : Type 0 where
    pub at : (k : Kind) (key : Key) → api.get k key w' ≡ api.get k key w

  pub Unchanged-refl : (w : W) → Unchanged w w
  Unchanged-refl w = record { at = λ k key. refl }

  pub Unchanged-trans : {w w' w'' : W} → Unchanged w w' → Unchanged w' w'' → Unchanged w w''
  Unchanged-trans p q = record { at = λ k key. q.at k key ∙ p.at k key }

  -- Whether another kind is this one.
  abbrev pub Apart : Kind → Type 0
  Apart k = (k' : Kind) → (k ≡ k') ⊎ (k ≢ k')

  pub Apart-kind : (k : Kind) → Apart k
  Apart-kind k k' = elim (Kind-discrete k k') [ yes p ↦ inl p | no n ↦ inr (λ e. absurd (n e)) ]

  Unchanged-OnlyAt :
      (k : Kind) (key : Key) {w w' : W}
      → Apart k
      → OnlyAt api k key w w'
      → api.get k key w' ≡ api.get k key w
      → Unchanged w w'
  Unchanged-OnlyAt k key {w} {w'} apart only self = record {
    at = λ k' key'. elim (apart k') [
      | inr n ↦ only k' key' (λ e e'. n e)
      | inl e ↦ elim (Key-cases key key') [
        | inr n ↦ only k' key' (λ e e'. n e')
        | inl e' ↦ subst₂ (λ k key. api.get k key w' ≡ api.get k key w) e e' self
      ]
    ];
  }

  module _ (law : IsLawful api) (k : Kind) (apart : Apart k) (X : Type 0) (o s : Obj k) (x : X)
      (f : Mutate W X k) (w : W) (there : api.get k (object_key k o) w ≡ ok s)
      (same : f w s ≡ ok (s, x)) where
    there' : api.get k (object_key k s) w ≡ ok s
    there' = ap (λ key. api.get k key w) (law.get_named k _ w s there) ∙ there

    -- CreateOrUpdate of an object that the callback leaves as it is changes nothing.
    pub create_or_update-Unchanged :
        Ends
          (api.create_or_update k X o f)
          w
          (λ r w'. (r ≡ (s, x)) × Unchanged w w')
          (λ e w'. Unchanged w w')
    create_or_update-Unchanged = elim (law.present k X o s f w there) [
      | inr (y, run, result) ↦
          Ends.returns (s, y) w result
            (ok-injective {A = Obj k × X} (sym run ∙ same), Unchanged-refl w)
      | inl result ↦ elim (law.update_outcome k s s w there') [
        | inl (e, refused) ↦ Ends.fails e w (result ∙ rw (same, refused)) (Unchanged-refl w)
        | inr u ↦
            let back = u.content ∙ with_status_self k s in
            Ends.returns (u.object, x) u.after (result ∙ rw (same, u.returns))
              (
                ap (λ t. (t, x)) back,
                Unchanged-OnlyAt k (object_key k s) apart u.elsewhere
                    (u.stored ∙ ap (λ t. ok t) back ∙ sym there'),
              )
      ]
    ]
