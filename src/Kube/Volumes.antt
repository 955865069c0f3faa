-- ===== src/Kube/Volumes.antt =====
-- Persistent volume claims and volume snapshots.
use ds_operator.Prelude.{String, Option, List}
use ds_operator.Kube.Meta.{ObjectMeta}
use ds_operator.Kube.Pods.{Resources}

-- v1.TypedLocalObjectReference
pub record DataSource : Type 0 where
  pub kind : String
  pub name : String
  pub api_group : Option String

-- v1.PersistentVolumeClaimSpec
pub record ClaimSpec : Type 0 where
  pub access_modes : List String
  pub storage_class_name : Option String
  pub resources : Resources
  pub data_source : Option DataSource

pub record PersistentVolumeClaim : Type 0 where
  pub meta : ObjectMeta
  pub spec : ClaimSpec

-- snapshot.VolumeSnapshotSpec
pub record SnapshotSpec : Type 0 where
  pub class_name : Option String
  pub claim_name : Option String

pub record VolumeSnapshot : Type 0 where
  pub meta : ObjectMeta
  pub spec : SnapshotSpec
