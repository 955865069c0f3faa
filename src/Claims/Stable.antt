-- ===== src/Claims/Stable.antt =====
-- controllers/pvc.go, reconcilePVC, where the claims are there.
use ds_operator.Prelude.{
  ℕ, zero, suc, ◌+◌, ◌<◌, pos, ◌≡◌, refl, ap, ◌∙◌, inl, inr, some, Ends, Ends-bind, Ends_mono,
  Ends_at, arith, pure, ◌≤◌,
}
use ds_operator.Kube.Volumes.{PersistentVolumeClaim}
use ds_operator.Kube.Objects.{Kind}
use ds_operator.Kube.Client.{Client}
use ds_operator.Kube.Client.Laws.{IsLawful}
use ds_operator.Kube.Client.Stable.{
  Unchanged, Unchanged-refl, Unchanged-trans, Apart, create_or_update-Unchanged,
}
use ds_operator.Api.Types.{DirectoryService}
use ds_operator.Claims.{
  empty_claim, claim_name, mutate_claim, reconcile_claim, reconcile_claims, claims_for,
  reconcile_pvc,
}
use ds_operator.Claims.Loop.{HasClaim, claim_key}

module _ {W : Type 0} (api : Client W) (law : IsLawful api) (ds : DirectoryService) where
  claim-Apart : Apart api Kind.claim
  claim-Apart Kind.claim = inl refl
  claim-Apart _ = inr (λ e. cc)

  HasClaim-Unchanged :
      (j : ℕ) (w w' : W) → Unchanged api w w' → HasClaim api ds j w → HasClaim api ds j w'
  HasClaim-Unchanged j w w' same (o, g) = (o, same.at Kind.claim (claim_key api ds j) ∙ g)

  reconcile_claim-Unchanged :
      (i : ℕ) (w : W)
      → HasClaim api ds i w
      → Ends (reconcile_claim api ds i) w (λ _ w'. Unchanged api w w') (λ _ w'. Unchanged api w w')
  unfolding reconcile_claim mutate_claim
  reconcile_claim-Unchanged i w (o, g) =
      let time = law.get_created Kind.claim (claim_key api ds i) w o g in
      Ends-bind
        (api.create_or_update Kind.claim (Unit {0})
          (empty_claim (claim_name api ds i) ds.meta.namespace) (mutate_claim api ds))
        (λ ((pvc, x) : PersistentVolumeClaim × Unit {0}). pure x) w
        (create_or_update-Unchanged api law Kind.claim claim-Apart (Unit {0})
          (empty_claim (claim_name api ds i) ds.meta.namespace) o tt (mutate_claim api ds) w g
          (ground arith))
        (λ r w' (e, same). Ends.returns r.1 w' refl same)

  reconcile_claims-Unchanged :
      (n i : ℕ) (w : W)
      → ((j : ℕ) → i ≤ j → j < i + n → HasClaim api ds j w)
      → Ends
          (reconcile_claims api ds n i)
          w
          (λ _ w'. Unchanged api w w')
          (λ _ w'. Unchanged api w w')
  unfolding reconcile_claims
  reconcile_claims-Unchanged zero i w has = Ends.returns tt w refl (Unchanged-refl api w)
  reconcile_claims-Unchanged (suc n) i w has =
      Ends-bind (reconcile_claim api ds i) (λ x. reconcile_claims api ds n (i + 1)) w
        (reconcile_claim-Unchanged i w (has i (omega arith) (omega arith)))
        (λ x w' p.
          Ends_mono (λ y w'' q. Unchanged-trans api p q) (λ e w'' q. Unchanged-trans api p q)
            (reconcile_claims-Unchanged n (i + 1) w'
              (λ j h h'. HasClaim-Unchanged j w w' p (has j (omega arith) (omega arith)))))

  pub reconcile_pvc-Unchanged :
      (n : ℕ) (w : W)
      → ds.spec.replicas ≡ some (pos n)
      → ((j : ℕ) → j < n → HasClaim api ds j w)
      → Ends (reconcile_pvc api ds) w (λ _ w'. Unchanged api w w') (λ _ w'. Unchanged api w w')
  unfolding reconcile_pvc claims_for
  reconcile_pvc-Unchanged n w replicas has =
      Ends_at (ap (λ r. claims_for api ds r w) replicas)
        (reconcile_claims-Unchanged n 0 w (λ j h h'. has j (omega arith)))
