-- ===== src/Passwords.antt =====
-- controllers/passwords.go: the passwords of the service accounts, kept as their secrets say.
pub mod Numbers
pub mod Schedule
pub mod Annotations
pub mod Account
pub mod Accounts
pub mod Outcome
pub mod Live
use ds_operator.Prelude.{
  ℕ, ℤ, pos, ◌-ℤ◌, ltb_ℤ, wrap64, String, ◌==◌, Bool, true, false, ◌||◌, Option, some, none, [],
  ◌∷◌, Dict, lookup, insert, Error, Result, ok, err, panic, if◌then◌else◌, decimal_ℤ, Action, pure,
  crash, lift, try_else, ◌>>=◌,
}
use ds_operator.Kube.Meta.{Key, ObjectMeta}
use ds_operator.Kube.Workloads.{Secret}
use ds_operator.Kube.Objects.{Kind}
use ds_operator.Kube.Client.{Client}
use ds_operator.Api.Types.{DirectoryService, DirectoryPasswords, secret_name_for_dn}
use ds_operator.Services.{or_empty}
use ds_operator.Secrets.{look_in}
use ds_operator.Ldap.{Directory, DsConnection, bind_password, update_password}
use ds_operator.Passwords.Numbers.{parse_int}

abbrev pub password_check_time_seconds : ℤ
password_check_time_seconds = pos 300

abbrev pub last_password_check : String
last_password_check = "directory.forgerock.io/last-password-check"

abbrev pub password_updated_status : String
password_updated_status = "password-updated-status"

-- A time that cannot be parsed is 0.
abbrev pub or_epoch : Option ℤ → ℤ
or_epoch none = pos 0
or_epoch (some t) = t

-- Whether the last check, as the annotation tells it, is less than five minutes old.
unfoldable pub too_soon : ℤ → String → Bool
too_soon now last_time =
    if last_time == ""
    then false
    else ltb_ℤ (wrap64 (now -ℤ or_epoch (parse_int last_time))) password_check_time_seconds

-- These accounts are managed by the image of the directory server.
abbrev pub is_internal : String → Bool
is_internal dn = dn == "uid=admin" || dn == "uid=monitor"

-- `annotations[…] = …`: a nil map is a panic.
unfoldable pub note_check : ℤ → DirectoryService → Option (Dict String) → Result DirectoryService
note_check now ds none = panic
note_check now ds (some a) = ok (record ds {
  meta = record ds.meta {
    annotations =
        some
          (insert last_password_check (decimal_ℤ now) (insert password_updated_status "updated" a));
  };
})

unfoldable pub read_key : String → Result Secret → Result String
read_key key (ok secret) = ok (or_empty (look_in secret.payload key))
read_key key (err e) = err e
read_key key panic = panic

module _ {W : Type 0} (api : Client W) (dir : Directory W) (ds : DirectoryService)
    (conn : DsConnection dir) where
  -- A key that is not in the secret reads as the empty text.
  unfoldable pub lookup_secret : String → String → String → Action W String
  lookup_secret namespace name key w =
      (read_key key (api.get Kind.secret (record { namespace = namespace; name = name }) w), w)

  -- The password is changed where the directory does not accept it.
  unfoldable pub check_password : String → DirectoryPasswords → Action W (Unit {0})
  check_password dn account = do
    pw ← lookup_secret ds.meta.namespace (secret_name_for_dn ds dn) account.key
    try_else (bind_password dir conn dn pw) (λ x. pure tt) (λ e. update_password dir conn dn pw)

  -- `for key, account := range ds.Spec.Passwords`
  unfoldable pub check_passwords : Dict DirectoryPasswords → Action W (Unit {0})
  check_passwords [] = pure tt
  check_passwords ((dn, account) ∷ accounts) = do
    x ← if is_internal dn then pure tt else check_password dn account
    check_passwords accounts

  -- The result is `ds` with the annotations that it has afterwards.
  unfoldable pub update_passwords : ℤ → Action W DirectoryService
  update_passwords now =
      if too_soon now (or_empty (look_in ds.meta.annotations last_password_check))
      then pure ds
      else check_passwords ds.spec.passwords >>= (λ x. lift (note_check now ds ds.meta.annotations))
