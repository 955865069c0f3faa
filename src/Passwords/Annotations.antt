-- ===== src/Passwords/Annotations.antt =====
-- controllers/passwords.go: the annotations that updatePasswords writes.
use ds_operator.Prelude.{
  ℤ, none, ◌≡◌, ◌≢◌, sym, ap, ◌∙◌, Result, ok, err, panic, lift, continue, ok-ne-panic, ok-ne-err,
  pure, ◌>>=◌, if◌then◌else◌, false,
}
use ds_operator.Kube.Client.{Client}
use ds_operator.Api.Types.{DirectoryService}
use ds_operator.Services.{or_empty}
use ds_operator.Secrets.{look_in}
use ds_operator.Ldap.{Directory, DsConnection}
use ds_operator.Passwords.{
  update_passwords, check_passwords, too_soon, note_check, last_password_check,
}

module _ {W : Type 0} (api : Client W) (dir : Directory W) (ds : DirectoryService)
    (conn : DsConnection dir) where
  never_ok :
      (now : ℤ) (r : Result (Unit {0})) (w : W) (ds' : DirectoryService)
      → (continue r (λ x. lift {W = W} (note_check now ds none)) w).0 ≢ ok ds'
  unfolding note_check
  never_ok now (ok x) w ds' h = ok-ne-panic (sym h)
  never_ok now (err e) w ds' h = ok-ne-err h
  never_ok now panic w ds' h = ok-ne-panic (sym h)

  -- Without annotations updatePasswords never returns a directory service, even if every password
  -- has been checked: the map of annotations is nil.
  pub update_passwords_unannotated :
      (now : ℤ) (w : W) (ds' : DirectoryService)
      → ds.meta.annotations ≡ none
      → (update_passwords api dir ds conn now w).0 ≢ ok ds'
  unfolding update_passwords too_soon
  update_passwords_unannotated now w ds' bare h =
      let checked = check_passwords api dir ds conn ds.spec.passwords w in
      let soon : too_soon now (or_empty (look_in ds.meta.annotations last_password_check)) ≡ false =
        ap (λ a. too_soon now (or_empty (look_in a last_password_check))) bare in
      never_ok now checked.0 checked.1 ds' (
        ap (λ a. (continue checked.0 (λ x. lift {W = W} (note_check now ds a)) checked.1).0)
          (sym bare)
        ∙ ap
            (λ b.
              ((if b
                  then pure ds
                  else check_passwords api dir ds conn ds.spec.passwords
                    >>= (λ x. lift (note_check now ds ds.meta.annotations)))
                w).0)
            (sym soon)
        ∙ h)
