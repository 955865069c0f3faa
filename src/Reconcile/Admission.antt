-- ===== src/Reconcile/Admission.antt =====
-- controllers/directoryservice_controller.go: the objects that Reconcile writes, as the API server's
-- validation has to let them through.
use ds_operator.Prelude.{ℕ, ℤ, Bool, String, Option, Dict}
use ds_operator.Kube.Objects.{Kind, Obj}
use ds_operator.Kube.Client.{Client}
use ds_operator.Kube.Client.Live.{Passes}
use ds_operator.Api.Types.{
  DirectoryService, DirectoryServiceStatus, DirectoryPasswords, DirectoryProxyStatus,
  secret_name_for_dn,
}
use ds_operator.Claims.{empty_claim, claim_name, mutate_claim}
use ds_operator.Secrets.{empty_secret, mutate_secret}
use ds_operator.StatefulSets.{empty_stateful_set, mutate_stateful_set}
use ds_operator.Proxies.{empty_deployment, mutate_deployment}
use ds_operator.Services.{empty_service, mutate_service}
use ds_operator.Snapshots.{empty_snapshot, snapshot_name, mutate_snapshot}
use ds_operator.Reconcile.Reach.{Like}
use ds_operator.Reconcile.Storing.{own}

module _ {W : Type 0} (Open : W → Type 0) (Admits : (k : Kind) → W → Obj k → Type 0)
    (api : Client W) (debug : Bool) (draw : W → ℕ → ℕ → ℕ) (now : ℤ) (ds : DirectoryService) where
  -- The validation `Admits` lets through, in the worlds that are open, what the callbacks make of
  -- blank and of stored objects for `ds`, and `ds` itself with any status and annotations.
  pub record Admitted : Type 0 where
    pub claims :
        (i : ℕ)
        → Passes Open Admits api Kind.claim
            (Unit {0})
            (empty_claim (claim_name api ds i) ds.meta.namespace)
            (mutate_claim api ds)
    pub secrets :
        (dn : String) (account : DirectoryPasswords)
        → Passes Open Admits api Kind.secret
            (Unit {0})
            (empty_secret (secret_name_for_dn ds dn) ds.meta.namespace)
            (mutate_secret api draw ds account)
    pub set :
        Passes Open Admits api Kind.stateful_set Bool
          (empty_stateful_set ds)
          (mutate_stateful_set api debug ds ds.meta.name)
    pub deployment :
        (ds' : DirectoryService)
        → Like ds ds'
        → Passes Open Admits api Kind.deployment DirectoryProxyStatus
            (empty_deployment ds')
            (mutate_deployment api ds')
    pub service :
        (ds' : DirectoryService)
        → Like ds ds'
        → Passes Open Admits api Kind.service
            (Unit {0})
            (empty_service ds.meta.name ds'.meta.namespace)
            (mutate_service api ds')
    pub snapshot :
        (ds' : DirectoryService)
        → Like ds ds'
        → Passes Open Admits api Kind.snapshot
            (Unit {0})
            (empty_snapshot (snapshot_name now ds') ds'.meta.namespace)
            (mutate_snapshot api now ds')
    pub itself :
        (st : DirectoryServiceStatus) (a : Option (Dict String)) (w : W)
        → Open w
        → Admits Kind.directory_service w (own ds st a)
