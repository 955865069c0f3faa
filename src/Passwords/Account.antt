-- ===== src/Passwords/Account.antt =====
-- controllers/passwords.go: what the loop of updatePasswords does for one account.
use ds_operator.Prelude.{
  String, some, ◌≡◌, ◌≢◌, refl, ◌∙◌, ◌⊎◌, inl, inr, Error, Result, ok, err, panic, pure,
  ok-ne-panic, try_else, Ends, Finishes, Finishes-try, Finishes_mono, Finishes_at,
}
use ds_operator.Kube.Workloads.{Secret}
use ds_operator.Kube.Objects.{Kind}
use ds_operator.Kube.Client.{Client}
use ds_operator.Kube.Client.Laws
use ds_operator.Api.Types.{DirectoryService, DirectoryPasswords, secret_name_for_dn}
use ds_operator.Ldap.{Directory, DsConnection, bind_password, update_password}
use ds_operator.Ldap.Laws.{View, Moved, Nobody, NilClose, IsLawful, Moved-trans, Moved-refl}
use ds_operator.Ldap.Closing.{bind_password-Finishes}
use ds_operator.Passwords.{check_password, lookup_secret, read_key}

module _ {W : Type 0} (api : Client W) (dir : Directory W) (ds : DirectoryService)
    (conn : DsConnection dir) (view : View W) where
  -- The password that the account is to have, as its secret says.
  abbrev pub desired : String → DirectoryPasswords → W → Result String
  desired dn account w =
      (lookup_secret api dir ds conn ds.meta.namespace (secret_name_for_dn ds dn) account.key w).0

  -- In `w'` the directory accepts the password that the account was to have in `w`.
  abbrev pub Accepts : String → DirectoryPasswords → W → W → Type 0
  Accepts dn account w w' =
      (password : String) × (desired dn account w ≡ ok password)
      × (password ≢ "" → view.password_of dn w' ≡ some password)

  -- Why an account could not be kept: its secret cannot be read, or the directory refuses the
  -- password.
  abbrev pub Because : String → DirectoryPasswords → W → Error → Type 0
  Because dn account w e =
      (desired dn account w ≡ err e)
      ⊎ ((password : String) × (desired dn account w ≡ ok password)
          × (at : W) × (after : W) × (update_password dir conn dn password at ≡ (err e, after)))

  module _ (law : Laws.IsLawful api) (lawful : IsLawful api dir view) where
    pub read_key-ne-panic : (key : String) (r : Result Secret) → r ≢ panic → read_key key r ≢ panic
    unfolding read_key
    read_key-ne-panic key (ok s) n h = ok-ne-panic h
    read_key-ne-panic key (err e) n h = cc
    read_key-ne-panic key panic n h = n refl

    change :
        (dn password : String) (w : W)
        → Finishes
            (update_password dir conn dn password)
            w
            (λ x w'.
              Moved api dir view (λ d. d ≡ dn) w w'
              × (password ≢ "" → view.password_of dn w' ≡ some password))
            (λ e w'.
              Moved api dir view Nobody w w'
              × (update_password dir conn dn password w ≡ (err e, w')))
            (λ w'. ⊥)
    unfolding update_password
    change dn password w = elim (lawful.modify_outcome conn.ldap dn password w) [
      | Ends.returns x w' e p ↦ Finishes.returns x w' e p
      | Ends.fails x w' e q ↦ Finishes.fails x w' e (q, e)
    ]

    module _ (dn : String) (account : DirectoryPasswords) (w : W) where
      with_password :
          (password : String)
          → desired dn account w ≡ ok password
          → Finishes
              (try_else
                (bind_password dir conn dn password)
                (λ x. pure tt)
                (λ e. update_password dir conn dn password))
              w
              (λ x w'. Moved api dir view (λ d. d ≡ dn) w w' × Accepts dn account w w')
              (λ e w'. Moved api dir view Nobody w w' × Because dn account w e)
              (λ w'. Moved api dir view Nobody w w' × NilClose api dir view)
      with_password password read =
          Finishes-try (bind_password dir conn dn password) w (λ x. pure tt)
            (λ e. update_password dir conn dn password)
            (bind_password-Finishes api dir view lawful conn dn password w)
            (λ x w' (m, p). Finishes.returns tt w' refl (
              Moved-trans api dir view (λ d t. absurd t) (λ d t. absurd t) m
                  (Moved-refl api dir view w'),
              (password, read, (λ n. m.others dn (λ t. t) ∙ p)),
            ))
            (λ e w1 m.
              Finishes_mono
                (λ x w' (n, p).
                  (Moved-trans api dir view (λ d t. absurd t) (λ d t. t) m n, (password, read, p)))
                (λ x w' (n, h). (
                  Moved-trans api dir view (λ d t. t) (λ d t. t) m n,
                  inr (password, read, w1, w', h),
                ))
                (λ w' r. absurd r) (change dn password w1))
            (λ w' r. r)

      pub check_password-Finishes :
          Finishes
            (check_password api dir ds conn dn account)
            w
            (λ x w'. Moved api dir view (λ d. d ≡ dn) w w' × Accepts dn account w w')
            (λ e w'. Moved api dir view Nobody w w' × Because dn account w e)
            (λ w'. Moved api dir view Nobody w w' × NilClose api dir view)
      unfolding check_password lookup_secret
      check_password-Finishes = by_secret (desired dn account w) refl
        where
          by_secret :
              (r : Result String)
              → desired dn account w ≡ r
              → Finishes
                  (check_password api dir ds conn dn account)
                  w
                  (λ x w'. Moved api dir view (λ d. d ≡ dn) w w' × Accepts dn account w w')
                  (λ e w'. Moved api dir view Nobody w w' × Because dn account w e)
                  (λ w'. Moved api dir view Nobody w w' × NilClose api dir view)
          by_secret (ok password) h = Finishes_at _ w (rw h refl) (with_password password h)
          by_secret (err e) h = Finishes.fails e w (rw h refl) (Moved-refl api dir view w, inl h)
          by_secret panic h =
              absurd (read_key-ne-panic account.key _ (law.get_no_panic Kind.secret _ w) h)
