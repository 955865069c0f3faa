-- ===== src/Passwords/Live.antt =====
-- controllers/passwords.go: no panic where the directory server can be reached and the directory
-- service has annotations.
use ds_operator.Prelude.{
  ℤ, String, Bool, true, false, Option, some, none, [], ◌∷◌, Dict, panic, ok-ne-panic, ◌≢◌, refl,
  lift, pure, try_else, ◌>>=◌, if◌then◌else◌,
}
use ds_operator.Kube.Objects.{Kind}
use ds_operator.Kube.Client.{Client}
use ds_operator.Kube.Client.Laws
use ds_operator.Api.Types.{DirectoryService, DirectoryPasswords, secret_name_for_dn}
use ds_operator.Services.{or_empty}
use ds_operator.Secrets.{look_in}
use ds_operator.Ldap.{Directory, DsConnection, bind_password, update_password}
use ds_operator.Ldap.Laws.{View, IsLawful}
use ds_operator.Ldap.Live.{IsApart, Reached}
use ds_operator.Ldap.Calm.{
  Calm, Calm-bind, Calm-try, Calm-pure, Calm-lift, bind_password-Calm, update_password-Calm,
}
use ds_operator.Passwords.Account.{read_key-ne-panic}
use ds_operator.Passwords.{
  is_internal, lookup_secret, check_password, check_passwords, too_soon, note_check,
  last_password_check, update_passwords,
}

note_check-ne-panic :
    (now : ℤ) (ds : DirectoryService) (a : Option (Dict String))
    → a ≢ none
    → note_check now ds a ≢ panic
unfolding note_check
note_check-ne-panic now ds none has h = has refl
note_check-ne-panic now ds (some d) has h = ok-ne-panic h

module _ {W : Type 0} (Open : W → Type 0) (api : Client W) (dir : Directory W) (view : View W)
    (law : Laws.IsLawful api) (lawful : IsLawful api dir view) (apart : IsApart Open dir)
    (reached : Reached Open dir) (ds : DirectoryService) (conn : DsConnection dir) where
  lookup_secret-Calm :
      (namespace name key : String) → Calm Open (lookup_secret api dir ds conn namespace name key)
  unfolding lookup_secret
  lookup_secret-Calm namespace name key w o = (
    read_key-ne-panic api dir ds conn view law lawful key _
        (law.get_no_panic Kind.secret (record { namespace = namespace; name = name }) w),
    o,
  )

  check_password-Calm :
      (dn : String) (account : DirectoryPasswords)
      → Calm Open (check_password api dir ds conn dn account)
  unfolding check_password
  check_password-Calm dn account =
      Calm-bind Open
        (lookup_secret api dir ds conn ds.meta.namespace (secret_name_for_dn ds dn) account.key)
        (λ pw.
          try_else (bind_password dir conn dn pw) (λ x. pure tt)
            (λ e. update_password dir conn dn pw))
        (lookup_secret-Calm ds.meta.namespace (secret_name_for_dn ds dn) account.key)
        (λ pw.
          Calm-try Open (bind_password dir conn dn pw) (λ x. pure tt)
            (λ e. update_password dir conn dn pw)
            (bind_password-Calm Open dir apart api view lawful reached conn dn pw)
            (λ x. Calm-pure Open tt)
            (λ e. update_password-Calm Open dir apart api view lawful reached conn dn pw))

  if_internal-Calm :
      (internal : Bool) (dn : String) (account : DirectoryPasswords)
      → Calm Open (if internal then pure tt else check_password api dir ds conn dn account)
  if_internal-Calm true dn account = Calm-pure Open tt
  if_internal-Calm false dn account = check_password-Calm dn account

  check_passwords-Calm :
      (accounts : Dict DirectoryPasswords) → Calm Open (check_passwords api dir ds conn accounts)
  unfolding check_passwords
  check_passwords-Calm [] = Calm-pure Open tt
  check_passwords-Calm ((dn, account) ∷ accounts) =
      Calm-bind Open (if is_internal dn then pure tt else check_password api dir ds conn dn account)
        (λ x. check_passwords api dir ds conn accounts)
        (if_internal-Calm (is_internal dn) dn account) (λ x. check_passwords-Calm accounts)

  module _ (has : ds.meta.annotations ≢ none) where
    if_soon-Calm :
        (soon : Bool) (now : ℤ)
        → Calm Open {A = DirectoryService} (
            if soon
            then pure ds
            else check_passwords api dir ds conn ds.spec.passwords
              >>= (λ x. lift (note_check now ds ds.meta.annotations)))
    if_soon-Calm true now = Calm-pure Open ds
    if_soon-Calm false now =
        Calm-bind Open (check_passwords api dir ds conn ds.spec.passwords)
          (λ x. lift (note_check now ds ds.meta.annotations))
          (check_passwords-Calm ds.spec.passwords)
          (λ x.
            Calm-lift Open (note_check now ds ds.meta.annotations)
              (note_check-ne-panic now ds ds.meta.annotations has))

    pub update_passwords-Calm : (now : ℤ) → Calm Open (update_passwords api dir ds conn now)
    unfolding update_passwords
    update_passwords-Calm now =
        if_soon-Calm (too_soon now (or_empty (look_in ds.meta.annotations last_password_check))) now
