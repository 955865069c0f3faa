-- ===== src/Settings.antt =====
-- controllers/directoryservice_controller.go: the constants, and what the components do alike.
pub mod Ownership
pub mod Removal
pub mod Live
use ds_operator.Prelude.{
  ℕ, Bool, List, [], ◌∷◌, Option, some, none, if◌then◌else◌, ◌==◌, ◌&&◌, String, Result, ok, err,
  panic,
}
use ds_operator.Kube.Meta.{ObjectMeta, OwnerReference}
use ds_operator.Api.Types.{DirectoryService, group_version}

abbrev pub forge_rock_user : ℕ
forge_rock_user = 11111

abbrev pub root_group : ℕ
root_group = 0

abbrev pub ds_data_path : String
ds_data_path = "/opt/opendj/data"

abbrev pub master_key_path : String
master_key_path = "/var/run/secrets/ds-master-keypair"

abbrev pub ssl_key_path : String
ssl_key_path = "/var/run/secrets/ds-ssl-keypair"

abbrev pub truststore_key_path : String
truststore_key_path = "/var/run/secrets/truststore"

-- `_ = controllerutil.SetControllerReference(…)`: its error is dropped, and the object stays.
unfoldable pub owned : Result ObjectMeta → ObjectMeta → Result ObjectMeta
owned (ok m') m = ok m'
owned (err e) m = ok m
owned panic m = panic

-- metav1.GetControllerOf: the first owner that is a controller; `none` is its nil.
unfoldable pub controller_of : List OwnerReference → Option OwnerReference
controller_of [] = none
controller_of (o ∷ os) = if o.is_controller then some o else controller_of os

-- `owner.APIVersion == GroupVersion.String() && owner.UID == ds.GetUID()`
unfoldable pub is_ours : DirectoryService → OwnerReference → Bool
is_ours ds owner = owner.api_version == group_version && owner.uid == ds.meta.uid
