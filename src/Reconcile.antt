-- ===== src/Reconcile.antt =====
-- controllers/directoryservice_controller.go: Reconcile, which calls the components in turn.
pub mod Pods
pub mod Stored
pub mod Serving
pub mod Reach
pub mod Frames
pub mod Ending
pub mod Preparing
pub mod Outcome
pub mod Live
pub mod Stable
pub mod Histories
pub mod Storing
pub mod Dialling
pub mod Returns
pub mod Admission
pub mod Calm
use ds_operator.Prelude.{
  ℕ, ℤ, String, ◌<>◌, Bool, Option, some, none, Error, Result, ok, err, panic, message,
  if◌then◌else◌, Action, pure, raise, lift, try_else, ◌>>=◌,
}
use ds_operator.Kube.Meta.{Key}
use ds_operator.Kube.Workloads.{Secret, Service}
use ds_operator.Kube.Objects.{Kind}
use ds_operator.Kube.Client.{Client}
use ds_operator.Api.Types.{DirectoryService, account_of}
use ds_operator.Claims.{reconcile_pvc}
use ds_operator.Secrets.{reconcile_secrets}
use ds_operator.StatefulSets.{reconcile_sts}
use ds_operator.Proxies.{reconcile_proxy}
use ds_operator.Services.{reconcile_service}
use ds_operator.Snapshots.{reconcile_snapshots}
use ds_operator.Ldap.{Directory, DsConnection, connect, close_connection, closing}
use ds_operator.Passwords.{update_passwords, read_key}
use ds_operator.Runs.{found_or_zero}

-- The address of the first pod; a port that is forwarded where the operator runs outside.
abbrev pub ldap_url : Bool → Service → String
ldap_url dev_mode svc =
    if dev_mode
    then "ldaps://localhost:1636"
    else "ldaps://" <> svc.meta.name <> "-0." <> svc.meta.name <> "." <> svc.meta.namespace
      <> ".svc:1636"

module _ {W : Type 0} (api : Client W) (dir : Directory W) (dev_mode debug : Bool)
    (draw : W → ℕ → ℕ → ℕ) where
  unfoldable pub get_admin_ldap_connection :
      DirectoryService → Service → Action W (DsConnection dir)
  get_admin_ldap_connection ds svc =
      let account = account_of ds "uid=admin" in
      try_else
        (λ w. (
          api.get Kind.secret (record { namespace = ds.meta.namespace; name = account.secret_name })
              w,
          w,
        ))
        (λ secret.
          lift (read_key account.key (ok secret))
          >>= connect dir (ldap_url dev_mode svc) "uid=admin")
        (λ e. raise (message "Can't find the admin ldap secret"))

  -- The claims are made before the stateful set, whose template they match.
  unfoldable pub prepare_pods : DirectoryService → Action W DirectoryService
  prepare_pods ds = do
    x ← reconcile_pvc api ds
    y ← reconcile_secrets api draw ds
    reconcile_sts api debug ds ds.meta.name

  -- After the passwords: the object, for its annotations, and its status. The result is the time
  -- after which to come back, in seconds.
  unfoldable pub store_service : DirectoryService → Action W ℕ
  store_service ds = do
    ds' ← api.update Kind.directory_service ds
    ds'' ← api.update_status Kind.directory_service ds'
    pure 60

  -- An error of updatePasswords is not returned.
  unfoldable pub with_directory : ℤ → DirectoryService → DsConnection dir → Action W ℕ
  with_directory now ds conn w =
      let done = try_else (update_passwords api dir ds conn now) store_service (λ e. pure 60) w in
      closing dir (close_connection dir conn) done.0 done.1

  -- Where the server cannot be reached the call ends without an error.
  unfoldable pub reconcile_service_found : ℤ → ℤ → Option DirectoryService → Action W ℕ
  reconcile_service_found now later none = pure 0
  reconcile_service_found now later (some ds) = do
    ds1 ← prepare_pods ds
    ds2 ← reconcile_proxy api ds1
    svc ← reconcile_service api ds2 ds.meta.name
    ds3 ← reconcile_snapshots api now ds2
    try_else (get_admin_ldap_connection ds3 svc) (with_directory later ds3) (λ e. pure 90)

  -- `now` and `later` are the two readings of the clock.
  unfoldable pub reconcile : Key → ℤ → ℤ → Action W ℕ
  reconcile key now later = do
    ds ← λ w. found_or_zero (api.get Kind.directory_service key w) w
    reconcile_service_found now later ds
