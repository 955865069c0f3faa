-- ===== src/Reconcile/Live.antt =====
-- controllers/directoryservice_controller.go: the pods are prepared where the server refuses
-- nothing.
use ds_operator.Prelude.{String, ℕ, Bool, ◌>>=◌}
use ds_operator.Kube.Objects.{Kind, Obj}
use ds_operator.Kube.Client.{Client}
use ds_operator.Kube.Client.Laws.{IsLawful}
use ds_operator.Kube.Client.Live.{Lively, Lively-bind, Accepting, Passes}
use ds_operator.Ldap.{Directory}
use ds_operator.Api.Types.{DirectoryService, DirectoryPasswords, secret_name_for_dn}
use ds_operator.Claims.{reconcile_pvc, empty_claim, claim_name, mutate_claim}
use ds_operator.Claims.Live.{reconcile_pvc-Lively}
use ds_operator.Secrets.{reconcile_secrets, empty_secret, mutate_secret}
use ds_operator.Secrets.Live.{reconcile_secrets-Lively}
use ds_operator.StatefulSets.{reconcile_sts, empty_stateful_set, mutate_stateful_set}
use ds_operator.StatefulSets.Live.{reconcile_sts-Lively}
use ds_operator.Reconcile.{prepare_pods}

module _ {W : Type 0} (Open : W → Type 0) (Admits : (k : Kind) → W → Obj k → Type 0)
    (api : Client W) (dir : Directory W) (dev_mode debug : Bool) (draw : W → ℕ → ℕ → ℕ)
    (law : IsLawful api) (accepting : Accepting Open Admits api) (ds : DirectoryService)
    (claims : (i : ℕ)
      → Passes Open Admits api Kind.claim
          (Unit {0})
          (empty_claim (claim_name api ds i) ds.meta.namespace)
          (mutate_claim api ds))
    (secrets : (dn : String) (account : DirectoryPasswords)
      → Passes Open Admits api Kind.secret
          (Unit {0})
          (empty_secret (secret_name_for_dn ds dn) ds.meta.namespace)
          (mutate_secret api draw ds account))
    (set : Passes Open Admits api Kind.stateful_set Bool
      (empty_stateful_set ds)
      (mutate_stateful_set api debug ds ds.meta.name)) where
  pub prepare_pods-Lively : Lively Open (prepare_pods api dir dev_mode debug draw ds)
  unfolding prepare_pods
  prepare_pods-Lively =
      Lively-bind Open (reconcile_pvc api ds)
        (λ x. reconcile_secrets api draw ds >>= (λ y. reconcile_sts api debug ds ds.meta.name))
        (reconcile_pvc-Lively Open Admits api law accepting ds claims)
        (λ x.
          Lively-bind Open (reconcile_secrets api draw ds)
            (λ y. reconcile_sts api debug ds ds.meta.name)
            (reconcile_secrets-Lively Open Admits api law accepting draw ds secrets)
            (λ y. reconcile_sts-Lively Open Admits api law accepting debug ds ds.meta.name set))
