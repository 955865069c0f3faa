-- ===== src/Kube/Objects.antt =====
-- The kinds of objects that the operator handles, with the parts that the API server treats apart:
-- the metadata, and the status, which a plain update leaves alone.
use mathlib.Core.Path.{◌≡◌, refl}
use ds_operator.Kube.Meta.{ObjectMeta, Key, key_of}
use ds_operator.Kube.Volumes.{PersistentVolumeClaim, VolumeSnapshot}
use ds_operator.Kube.Workloads.{StatefulSet, Deployment, Job, Service, Secret}
use ds_operator.Api.Types.{DirectoryService, DirectoryBackup, DirectoryRestore}

pub data Kind : Type 0 where
  claim secret stateful_set deployment service snapshot job : Kind
  directory_service directory_backup directory_restore : Kind

abbrev pub Obj : Kind → Type 0
Obj Kind.claim = PersistentVolumeClaim
Obj Kind.secret = Secret
Obj Kind.stateful_set = StatefulSet
Obj Kind.deployment = Deployment
Obj Kind.service = Service
Obj Kind.snapshot = VolumeSnapshot
Obj Kind.job = Job
Obj Kind.directory_service = DirectoryService
Obj Kind.directory_backup = DirectoryBackup
Obj Kind.directory_restore = DirectoryRestore

abbrev pub meta_of : (k : Kind) → Obj k → ObjectMeta
meta_of Kind.claim o = o.meta
meta_of Kind.secret o = o.meta
meta_of Kind.stateful_set o = o.meta
meta_of Kind.deployment o = o.meta
meta_of Kind.service o = o.meta
meta_of Kind.snapshot o = o.meta
meta_of Kind.job o = o.meta
meta_of Kind.directory_service o = o.meta
meta_of Kind.directory_backup o = o.meta
meta_of Kind.directory_restore o = o.meta

abbrev pub with_meta : (k : Kind) → ObjectMeta → Obj k → Obj k
with_meta Kind.claim m o = record o { meta = m }
with_meta Kind.secret m o = record o { meta = m }
with_meta Kind.stateful_set m o = record o { meta = m }
with_meta Kind.deployment m o = record o { meta = m }
with_meta Kind.service m o = record o { meta = m }
with_meta Kind.snapshot m o = record o { meta = m }
with_meta Kind.job m o = record o { meta = m }
with_meta Kind.directory_service m o = record o { meta = m }
with_meta Kind.directory_backup m o = record o { meta = m }
with_meta Kind.directory_restore m o = record o { meta = m }

-- `o` with the status of `s`.
abbrev pub with_status : (k : Kind) → (s o : Obj k) → Obj k
with_status Kind.claim s o = o
with_status Kind.secret s o = o
with_status Kind.stateful_set s o = record o { current_replicas = s.current_replicas }
with_status Kind.deployment s o = record o {
  ready_replicas = s.ready_replicas;
  status_replicas = s.status_replicas;
}
with_status Kind.service s o = o
with_status Kind.snapshot s o = o
with_status Kind.job s o = record o { status = s.status }
with_status Kind.directory_service s o = record o { status = s.status }
with_status Kind.directory_backup s o = record o { status = s.status }
with_status Kind.directory_restore s o = record o { status = s.status }

abbrev pub object_key : (k : Kind) → Obj k → Key
object_key k o = key_of (meta_of k o)

pub meta_of-with_meta : (k : Kind) (m : ObjectMeta) (o : Obj k) → meta_of k (with_meta k m o) ≡ m
meta_of-with_meta Kind.claim m o = refl
meta_of-with_meta Kind.secret m o = refl
meta_of-with_meta Kind.stateful_set m o = refl
meta_of-with_meta Kind.deployment m o = refl
meta_of-with_meta Kind.service m o = refl
meta_of-with_meta Kind.snapshot m o = refl
meta_of-with_meta Kind.job m o = refl
meta_of-with_meta Kind.directory_service m o = refl
meta_of-with_meta Kind.directory_backup m o = refl
meta_of-with_meta Kind.directory_restore m o = refl

pub meta_of-with_status : (k : Kind) (s o : Obj k) → meta_of k (with_status k s o) ≡ meta_of k o
meta_of-with_status Kind.claim s o = refl
meta_of-with_status Kind.secret s o = refl
meta_of-with_status Kind.stateful_set s o = refl
meta_of-with_status Kind.deployment s o = refl
meta_of-with_status Kind.service s o = refl
meta_of-with_status Kind.snapshot s o = refl
meta_of-with_status Kind.job s o = refl
meta_of-with_status Kind.directory_service s o = refl
meta_of-with_status Kind.directory_backup s o = refl
meta_of-with_status Kind.directory_restore s o = refl

pub with_status_self : (k : Kind) (o : Obj k) → with_status k o o ≡ o
with_status_self Kind.claim o = refl
with_status_self Kind.secret o = refl
with_status_self Kind.stateful_set o = refl
with_status_self Kind.deployment o = refl
with_status_self Kind.service o = refl
with_status_self Kind.snapshot o = refl
with_status_self Kind.job o = refl
with_status_self Kind.directory_service o = refl
with_status_self Kind.directory_backup o = refl
with_status_self Kind.directory_restore o = refl

pub Kind-discrete : Discrete Kind
Kind-discrete = hlevel
