-- ===== src/Api/Types.antt =====
-- api/v1alpha1/directoryservice_types.go, directorybackup_types.go, directoryrestore_types.go.
-- An int32 or int64 is a ℤ in its range.
use ds_operator.Prelude.{ℕ, ℤ, String, Bool, Option, none, some, List, Dict, lookup, false}
use ds_operator.Kube.Meta.{ObjectMeta}
use ds_operator.Kube.Pods.{Resources, EnvVar, EnvFromSource}
use ds_operator.Kube.Volumes.{ClaimSpec}

pub record DirectorySecrets : Type 0 where
  pub master_secret_name : String
  pub ssl_secret_name : String
  pub truststore_secret_name : String

-- The empty text is the absent ScriptConfigMapName, a nil slice the empty list.
pub record DirectoryPodTemplate : Type 0 where
  pub image : String
  pub image_pull_policy : String
  pub image_pull_secrets : List String
  pub resources : Resources
  pub certificates : DirectorySecrets
  pub volume_claim_spec : ClaimSpec
  pub script_config_map_name : String
  pub init_env_from : List EnvFromSource
  pub env : List EnvVar
  pub env_from : List EnvFromSource
  pub volume_snapshot_class_name : String
  pub service_account_name : String

pub record DirectorySnapshotSpec : Type 0 where
  pub enabled : Bool
  pub period_minutes : ℤ
  pub snapshots_retained : ℤ
  pub directory_instance : ℤ

pub record DirectoryPasswords : Type 0 where
  pub secret_name : String
  pub key : String
  pub create : Bool

pub record DirectoryProxy : Type 0 where
  pub enabled : Bool
  pub image : String
  pub replicas : ℤ
  pub primary_group_id : String
  pub resources : Resources

pub record DirectoryServiceSpec : Type 0 where
  pub labels : Option (Dict String)
  pub pod_template : DirectoryPodTemplate
  pub replicas : Option ℤ
  pub passwords : Dict DirectoryPasswords
  pub snapshots : DirectorySnapshotSpec
  pub proxy : DirectoryProxy

pub record DirectoryProxyStatus : Type 0 where
  pub replicas : ℤ
  pub ready_replicas : ℤ
  pub server_message : String

-- SnapshotStatus is its only field, LastSnapshotTimeStamp; the operator never sets Active.
pub record DirectoryServiceStatus : Type 0 where
  pub current_replicas : Option ℤ
  pub server_message : String
  pub proxy_status : DirectoryProxyStatus
  pub last_snapshot_timestamp : ℤ

pub record DirectoryService : Type 0 where
  pub kind : String
  pub meta : ObjectMeta
  pub spec : DirectoryServiceSpec
  pub status : DirectoryServiceStatus

-- BackupStatus and DirectoryRestoreStatus
pub record JobTimes : Type 0 where
  pub start_timestamp : Option ℕ
  pub completion_timestamp : Option ℕ

pub record DirectoryBackup : Type 0 where
  pub kind : String
  pub meta : ObjectMeta
  pub pod_template : DirectoryPodTemplate
  pub claim_to_backup : String
  pub status : JobTimes

pub record DirectoryRestore : Type 0 where
  pub kind : String
  pub meta : ObjectMeta
  pub pod_template : DirectoryPodTemplate
  pub source_pvc_name : String
  pub status : JobTimes

-- What Go reads from a map at a key that is not there: the zero value.
abbrev no_passwords : DirectoryPasswords
no_passwords = record { secret_name = ""; key = ""; create = false }

or_zero : Option DirectoryPasswords → DirectoryPasswords
or_zero none = no_passwords
or_zero (some p) = p

-- `ds.Spec.Passwords[dn]`
unfoldable pub account_of : DirectoryService → String → DirectoryPasswords
unfolding lookup or_zero
account_of ds dn = or_zero (lookup dn ds.spec.passwords)

-- SecretNameForDN looks up the secret name for the given dn.
unfoldable pub secret_name_for_dn : DirectoryService → String → String
unfolding account_of
secret_name_for_dn ds path_ref = (account_of ds path_ref).secret_name

abbrev pub group_version : String
group_version = "directory.forgerock.io/v1alpha1"
