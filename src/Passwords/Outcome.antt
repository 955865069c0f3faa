-- ===== src/Passwords/Outcome.antt =====
-- controllers/passwords.go: what updatePasswords does to the directory and to the annotations.
use ds_operator.Prelude.{
  ℤ, decimal_ℤ, String, ◌==◌, true, false, none, some, Option, ◌≡◌, refl, ap, ◌∙◌, ◌⊎◌, inl, inr,
  Dict, lookup, insert, lookup-insert, NodupKeys, ok, lift, if◌then◌else◌, ◌>>=◌, Finishes,
  Finishes-bind, Finishes_mono, Finishes_at, Bool-cases,
}
use ds_operator.Kube.Client.{Client}
use ds_operator.Kube.Client.Laws
use ds_operator.Api.Types.{DirectoryService}
use ds_operator.Services.{or_empty}
use ds_operator.Secrets.{look_in}
use ds_operator.Ldap.{Directory, DsConnection}
use ds_operator.Ldap.Laws.{View, NilClose, IsLawful}
use ds_operator.Passwords.{
  update_passwords, check_passwords, too_soon, note_check, last_password_check,
  password_updated_status,
}
use ds_operator.Passwords.Accounts.{Synced, Partly, Blamed, check_passwords-Finishes}

-- `ds'` is `ds` with the time of the check and the status among its annotations.
pub record Noted (now : ℤ) (ds ds' : DirectoryService) : Type 0 where
  pub old : Dict String
  pub new : Dict String
  pub had : ds.meta.annotations ≡ some old
  pub same : ds' ≡ record ds { meta = record ds.meta { annotations = some new } }
  pub entry :
      (key : String)
      → lookup key new ≡ (
          if last_password_check == key
          then some (decimal_ℤ now)
          else if password_updated_status == key
          then some "updated"
          else lookup key old)

note_check-Noted :
    (now : ℤ) (ds : DirectoryService) (old : Dict String)
    → ds.meta.annotations ≡ some old
    → (ds' : DirectoryService) × (note_check now ds (some old) ≡ ok ds') × Noted now ds ds'
unfolding note_check
note_check-Noted now ds old had = (
  _,
  refl,
  record {
    old = old;
    new = _;
    had = had;
    same = refl;
    entry = λ key.
        rw
          (
            lookup-insert last_password_check key (decimal_ℤ now)
                (insert password_updated_status "updated" old),
            lookup-insert password_updated_status key "updated" old,
          )
          refl;
  },
)

module _ {W : Type 0} (api : Client W) (dir : Directory W) (ds : DirectoryService)
    (conn : DsConnection dir) (view : View W) where
  abbrev pub last_check : String
  last_check = or_empty (look_in ds.meta.annotations last_password_check)

  -- Too soon after the last check, and nothing was done; or all passwords are as they should be,
  -- and the check was noted.
  abbrev pub Checked : ℤ → W → DirectoryService → W → Type 0
  Checked now w ds' w' =
      ((too_soon now last_check ≡ true) × (ds' ≡ ds) × (w' ≡ w))
      ⊎ ((too_soon now last_check ≡ false)
          × Synced api dir ds conn view ds.spec.passwords w w'
          × Noted now ds ds')

  module _ (law : Laws.IsLawful api) (lawful : IsLawful api dir view) (now : ℤ) (w : W)
      (u : NodupKeys ds.spec.passwords) where
    noting :
        (w' : W) (a : Option (Dict String))
        → too_soon now last_check ≡ false
        → Synced api dir ds conn view ds.spec.passwords w w'
        → ds.meta.annotations ≡ a
        → Finishes
            (lift (note_check now ds ds.meta.annotations))
            w'
            (Checked now w)
            (λ e w'. ⊥)
            (λ w'.
              Partly api dir ds conn view ds.spec.passwords w w' × (ds.meta.annotations ≡ none))
    unfolding note_check
    noting w' none late s h =
        Finishes.panics w' (ap (λ a. (note_check now ds a, w')) h) (s.moved, h)
    noting w' (some old) late s h =
        let (ds', run, n) = note_check-Noted now ds old h in
        Finishes.returns ds' w' (ap (λ a. (note_check now ds a, w')) h ∙ ap (λ r. (r, w')) run)
          (inr (late, s, n))

    -- updatePasswords either skips its check, since the last one is too recent, or looks at every
    -- account that is not internal. If it returns then, the directory accepts for each of these the
    -- password in its secret, unless that is empty, and the annotations tell the time of the check.
    -- It fails only since a secret cannot be read or since the directory refuses a password, and
    -- panics only where there are no annotations or where a close on the nil connection panics. In
    -- every case no other password and no object has changed, and no connection is left open.
    pub update_passwords-Checked :
        Finishes
          (update_passwords api dir ds conn now)
          w
          (Checked now w)
          (λ e w'.
            Partly api dir ds conn view ds.spec.passwords w w'
            × Blamed api dir ds conn view ds.spec.passwords w e)
          (λ w'.
            Partly api dir ds conn view ds.spec.passwords w w'
            × ((ds.meta.annotations ≡ none) ⊎ NilClose api dir view))
    unfolding update_passwords
    update_passwords-Checked = elim (Bool-cases (too_soon now last_check)) [
      | inl soon ↦ Finishes.returns ds w (rw soon refl) (inl (soon, refl, refl))
      | inr late ↦
          Finishes_at
            (check_passwords api dir ds conn ds.spec.passwords
              >>= (λ x. lift (note_check now ds ds.meta.annotations)))
            w (rw late refl)
            (Finishes-bind (check_passwords api dir ds conn ds.spec.passwords) w _
              (check_passwords-Finishes api dir ds conn view law lawful ds.spec.passwords w u)
              (λ x w' s.
                Finishes_mono (λ ds' v c. c) (λ e v c. absurd c) (λ v (p, n). (p, inl n))
                  (noting w' ds.meta.annotations late s refl))
              (λ e w' b. b) (λ w' (p, n). (p, inr n)))
    ]
