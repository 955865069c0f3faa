-- ===== src/Webhook.antt =====
-- api/v1alpha1/directoryservice_webhook.go: defaults and validation.
pub mod Validation
use ds_operator.Prelude.{
  ℤ, pos, Option, some, none, Error, Result, ok, err, panic, message, ltb_ℤ, if◌then◌else◌,
}
use ds_operator.Api.Types.{DirectoryService}

abbrev pub or_one : Option ℤ → Option ℤ
or_one none = some (pos 1)
or_one (some r) = some r

-- Default
unfoldable pub default : DirectoryService → DirectoryService
default ds = record ds { spec = record ds.spec { replicas = or_one ds.spec.replicas } }

-- A nil `Replicas` is dereferenced.
abbrev pub validate_replicas : Option ℤ → Result (Unit {0})
validate_replicas none = panic
validate_replicas (some r) = if ltb_ℤ (pos 6) r then err (message "must not exceed 6") else ok tt

-- ValidateCreate
unfoldable pub validate_create : DirectoryService → Result (Unit {0})
validate_create ds = validate_replicas ds.spec.replicas

-- ValidateUpdate and ValidateDelete accept everything.
abbrev pub validate_update : (old new : DirectoryService) → Result (Unit {0})
validate_update old new = ok tt

abbrev pub validate_delete : DirectoryService → Result (Unit {0})
validate_delete ds = ok tt
