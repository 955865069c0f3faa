-- ===== src/Reconcile/Reach.antt =====
-- controllers/directoryservice_controller.go: the objects that a reconcile is about.
use ds_operator.Prelude.{◌≡◌, ◌⊎◌}
use ds_operator.Kube.Meta.{Key, key_of}
use ds_operator.Kube.Objects.{Kind}
use ds_operator.Api.Types.{DirectoryService}
use ds_operator.Services.{proxy_name}

-- The objects that belong to a directory service, as far as its reconciler goes: all claims, secrets
-- and snapshots, and the others by their names.
abbrev pub Reach : DirectoryService → Kind → Key → Type 0
Reach ds Kind.claim key = Unit
Reach ds Kind.secret key = Unit
Reach ds Kind.snapshot key = Unit
Reach ds Kind.stateful_set key = key_of ds.meta ≡ key
Reach ds Kind.service key = key_of ds.meta ≡ key
Reach ds Kind.directory_service key = key_of ds.meta ≡ key
Reach ds Kind.deployment key = record { namespace = ds.meta.namespace; name = proxy_name ds } ≡ key
Reach ds Kind.job key = ⊥
Reach ds Kind.directory_backup key = ⊥
Reach ds Kind.directory_restore key = ⊥

-- Of these, the ones of some kinds.
abbrev pub ReachOf : (Kind → Type 0) → DirectoryService → Kind → Key → Type 0
ReachOf K ds k key = K k × Reach ds k key

abbrev pub IsPods : Kind → Type 0
IsPods k = (k ≡ Kind.claim) ⊎ (k ≡ Kind.secret) ⊎ (k ≡ Kind.stateful_set)

abbrev pub IsDeployment : Kind → Type 0
IsDeployment k = k ≡ Kind.deployment

abbrev pub IsService : Kind → Type 0
IsService k = k ≡ Kind.service

abbrev pub IsSnapshots : Kind → Type 0
IsSnapshots k = (k ≡ Kind.snapshot) ⊎ (k ≡ Kind.directory_service)

-- `ds` is `s` but for its status.
abbrev pub Like : DirectoryService → DirectoryService → Type 0
Like s ds = ds ≡ record s { status = ds.status }
