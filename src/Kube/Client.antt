-- ===== src/Kube/Client.antt =====
-- client.Client and controllerutil of controller-runtime, which the operator calls: an interface
-- over an unknown world `W`, and what the operator relies on. A world holds the API server's
-- objects, the directory server, and whatever else is outside the operator.
pub mod Laws
pub mod Apply
pub mod Keep
pub mod Steps
pub mod Tend
pub mod Branches
pub mod Frames
pub mod Live
pub mod Stable
use ds_operator.Prelude.{String, Bool, Option, List, Dict, Result, Error, Action, ◌⊎◌}
use ds_operator.Kube.Meta.{Key, ObjectMeta}
use ds_operator.Kube.Volumes.{VolumeSnapshot}
use ds_operator.Kube.Objects.{Kind, Obj}

-- The MutateFn of `CreateOrUpdate`: it may read the world. Beside the object it returns what it
-- assigns to variables of its caller.
abbrev pub Mutate : Type 0 → Type 0 → Kind → Type 0
Mutate W X k = W → Obj k → Result (Obj k × X)

pub record Client (W : Type 0) : Type 1 where
  pub get : (k : Kind) → Key → W → Result (Obj k)
  -- client.Create, client.Update, client.Status().Update: the object as the server returns it
  pub create : (k : Kind) → Obj k → Action W (Obj k)
  pub update : (k : Kind) → Obj k → Action W (Obj k)
  pub update_status : (k : Kind) → Obj k → Action W (Obj k)
  pub delete : (k : Kind) → Obj k → Action W (Unit {0})
  -- client.List of the snapshots of a namespace with the given labels
  pub list_snapshots : String → Dict String → W → Error ⊎ List VolumeSnapshot
  pub create_or_update : (k : Kind) (X : Type 0) → Obj k → Mutate W X k → Action W (Obj k × X)
  -- record.EventRecorder: reason and message
  pub record_event : String → String → W → W
  -- controllerutil.SetControllerReference and SetOwnerReference: owner kind and metadata, object
  pub set_controller_reference : String → ObjectMeta → ObjectMeta → Result ObjectMeta
  pub set_owner_reference : String → ObjectMeta → ObjectMeta → Result ObjectMeta
