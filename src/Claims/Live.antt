-- ===== src/Claims/Live.antt =====
-- controllers/pvc.go, reconcilePVC, where the server refuses nothing without a reason.
use ds_operator.Prelude.{ℕ, zero, suc, ◌+◌, ℤ, pos, negsuc, Option, some, none, arith, pure}
use ds_operator.Kube.Objects.{Kind, Obj}
use ds_operator.Kube.Volumes.{PersistentVolumeClaim}
use ds_operator.Kube.Client.{Client}
use ds_operator.Kube.Client.Laws.{IsLawful}
use ds_operator.Kube.Client.Live.{
  Lively, Lively-bind, Lively-pure, Accepting, Passes, Obliging, create_or_update-Lively,
}
use ds_operator.Api.Types.{DirectoryService}
use ds_operator.Claims.{
  empty_claim, claim_name, mutate_claim, reconcile_claim, reconcile_claims, claims_for,
  reconcile_pvc,
}

module _ {W : Type 0} (Open : W → Type 0) (Admits : (k : Kind) → W → Obj k → Type 0)
    (api : Client W) (law : IsLawful api) (accepting : Accepting Open Admits api)
    (ds : DirectoryService)
    (passes : (i : ℕ)
      → Passes Open Admits api Kind.claim
          (Unit {0})
          (empty_claim (claim_name api ds i) ds.meta.namespace)
          (mutate_claim api ds)) where
  mutate_claim-Obliging :
      (i : ℕ)
      → Obliging Open Admits api Kind.claim
          (Unit {0})
          (empty_claim (claim_name api ds i) ds.meta.namespace)
          (mutate_claim api ds)
  unfolding mutate_claim
  mutate_claim-Obliging i = record {
    passes = passes i;
    fine = λ w s e h. ground arith;
    names = λ w n x h. ground arith;
    keeps = λ w s n x t h. (ground arith, ground arith);
  }

  reconcile_claim-Lively : (i : ℕ) → Lively Open (reconcile_claim api ds i)
  unfolding reconcile_claim
  reconcile_claim-Lively i =
      Lively-bind Open
        (api.create_or_update Kind.claim (Unit {0})
          (empty_claim (claim_name api ds i) ds.meta.namespace) (mutate_claim api ds))
        (λ ((pvc, x) : PersistentVolumeClaim × Unit {0}). pure x)
        (create_or_update-Lively Open Admits api Kind.claim (Unit {0})
          (empty_claim (claim_name api ds i) ds.meta.namespace) (mutate_claim api ds) law accepting
          (mutate_claim-Obliging i))
        (λ r. Lively-pure Open r.1)

  reconcile_claims-Lively : (rounds i : ℕ) → Lively Open (reconcile_claims api ds rounds i)
  unfolding reconcile_claims
  reconcile_claims-Lively zero i = Lively-pure Open tt
  reconcile_claims-Lively (suc rounds) i =
      Lively-bind Open (reconcile_claim api ds i) (λ x. reconcile_claims api ds rounds (i + 1))
        (reconcile_claim-Lively i) (λ x. reconcile_claims-Lively rounds (i + 1))

  claims_for-Lively : (replicas : Option ℤ) → Lively Open (claims_for api ds replicas)
  unfolding claims_for
  claims_for-Lively none w o = ((λ e h. cc), o)
  claims_for-Lively (some (negsuc n)) w o = Lively-pure Open tt w o
  claims_for-Lively (some (pos n)) w o = reconcile_claims-Lively n 0 w o

  pub reconcile_pvc-Lively : Lively Open (reconcile_pvc api ds)
  unfolding reconcile_pvc
  reconcile_pvc-Lively = claims_for-Lively ds.spec.replicas
