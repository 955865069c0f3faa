-- ===== src/Passwords/Accounts.antt =====
-- controllers/passwords.go: the loop of updatePasswords over the accounts.
use mathlib.Core.Path.{subst, subst₂}
use ds_operator.Prelude.{
  Option, ◌>>=◌, String, true, false, ◌==◌, eq_iff, eq_refl, none, some, ◌≡◌, ◌≢◌, refl, sym, ap,
  ◌∙◌, ◌⊎◌, inl, inr, [], ◌∷◌, Dict, lookup, NodupKeys, Error, arith, Finishes, Finishes-bind,
  Finishes_mono, Finishes_at, Bool-cases,
}
use ds_operator.Kube.Objects.{Kind}
use ds_operator.Kube.Client.{Client}
use ds_operator.Kube.Client.Laws
use ds_operator.Api.Types.{DirectoryService, DirectoryPasswords}
use ds_operator.Ldap.{Directory, DsConnection}
use ds_operator.Ldap.Laws.{View, Moved, Nobody, NilClose, IsLawful, Moved-trans, Moved-refl}
use ds_operator.Passwords.{check_passwords, check_password, is_internal, read_key, lookup_secret}
use ds_operator.Passwords.Account.{desired, Accepts, Because, check_password-Finishes}

-- The account is one of `accounts`, and the operator manages it.
abbrev pub Managed : Dict DirectoryPasswords → String → DirectoryPasswords → Type 0
Managed accounts dn account = (lookup dn accounts ≡ some account) × (is_internal dn ≡ false)

some-ne-none : {a : DirectoryPasswords} → ◌≡◌ {A = Option DirectoryPasswords} (some a) none → ⊥
some-ne-none h = cc

true-ne-false : true ≡ false → ⊥
true-ne-false h = cc

module _ (dn : String) (account : DirectoryPasswords) (accounts : Dict DirectoryPasswords) where
  Managed-head : is_internal dn ≡ false → Managed ((dn, account) ∷ accounts) dn account
  unfolding lookup
  Managed-head out = (rw (eq_refl dn) refl, out)

  Managed-tail :
      (d : String) (x : DirectoryPasswords)
      → lookup dn accounts ≡ none
      → Managed accounts d x
      → Managed ((dn, account) ∷ accounts) d x
  unfolding lookup
  Managed-tail d x fresh m = (ground (arith, eq_iff dn d, m.0, fresh), m.1)

  Managed-cases :
      (d : String) (x : DirectoryPasswords)
      → Managed ((dn, account) ∷ accounts) d x
      → ((dn ≡ d) × (account ≡ x)) ⊎ ((dn ≢ d) × Managed accounts d x)
  unfolding lookup
  Managed-cases d x m = elim (Bool-cases (dn == d)) [
    | inl e ↦ inl ((eq_iff dn d).0 e, ground (arith, m.0, e))
    | inr e ↦ inr ((λ p. ground (arith, eq_iff dn d, p, e)), (ground (arith, m.0, e), m.1))
  ]

module _ {W : Type 0} (api : Client W) (dir : Directory W) (ds : DirectoryService)
    (conn : DsConnection dir) (view : View W) where
  -- The directory accepts the passwords of the managed accounts, and nothing else has changed.
  pub record Synced (accounts : Dict DirectoryPasswords) (w w' : W) : Type 0 where
    pub moved : Moved api dir view (λ dn. (a : DirectoryPasswords) × Managed accounts dn a) w w'
    pub accepts :
        (dn : String) (account : DirectoryPasswords)
        → Managed accounts dn account
        → Accepts api dir ds conn view dn account w w'

  -- On the way to an error or a panic only passwords of managed accounts have changed.
  abbrev pub Partly : Dict DirectoryPasswords → W → W → Type 0
  Partly accounts w w' =
      Moved api dir view (λ dn. (a : DirectoryPasswords) × Managed accounts dn a) w w'

  abbrev pub Blamed : Dict DirectoryPasswords → W → Error → Type 0
  Blamed accounts w e =
      (dn : String) × (account : DirectoryPasswords) × Managed accounts dn account
      × Because api dir ds conn view dn account w e

  desired_same :
      {T : String → Type 0} {w w' : W} (dn : String) (account : DirectoryPasswords)
      → Moved api dir view T w w'
      → desired api dir ds conn view dn account w' ≡ desired api dir ds conn view dn account w
  unfolding lookup_secret
  desired_same dn account m = ap (read_key account.key) (m.objects Kind.secret _)

  Accepts-from :
      {T : String → Type 0} {w w1 w' : W} (dn : String) (account : DirectoryPasswords)
      → Moved api dir view T w w1
      → Accepts api dir ds conn view dn account w1 w'
      → Accepts api dir ds conn view dn account w w'
  Accepts-from dn account m (pw, h, a) = (pw, sym (desired_same dn account m) ∙ h, a)

  Because-from :
      {T : String → Type 0} {w w1 : W} (dn : String) (account : DirectoryPasswords) (e : Error)
      → Moved api dir view T w w1
      → Because api dir ds conn view dn account w1 e
      → Because api dir ds conn view dn account w e
  Because-from dn account e m (inl h) = inl (sym (desired_same dn account m) ∙ h)
  Because-from dn account e m (inr (pw, h, v, v', r)) =
      inr (pw, sym (desired_same dn account m) ∙ h, v, v', r)

  module _ (law : Laws.IsLawful api) (lawful : IsLawful api dir view) where
    abbrev Good : Dict DirectoryPasswords → W → Type 0
    Good accounts w =
        Finishes (check_passwords api dir ds conn accounts) w (λ x w'. Synced accounts w w')
          (λ e w'. Partly accounts w w' × Blamed accounts w e)
          (λ w'. Partly accounts w w' × NilClose api dir view)

    module _ (dn : String) (account : DirectoryPasswords) (accounts : Dict DirectoryPasswords)
        (fresh : lookup dn accounts ≡ none) (w : W) where
      abbrev all : Dict DirectoryPasswords
      all = (dn, account) ∷ accounts

      widen :
          (d : String)
          → (a : DirectoryPasswords) × Managed accounts d a
          → (a : DirectoryPasswords) × Managed all d a
      widen d (a, m) = (a, Managed-tail dn account accounts d a fresh m)

      wider : {w w' : W} → Partly accounts w w' → Partly all w w'
      wider {w} m = Moved-trans api dir view widen widen (Moved-refl api dir view w) m

      onto : {w w1 w' : W} → Partly all w w1 → Partly accounts w1 w' → Partly all w w'
      onto m n = Moved-trans api dir view (λ d t. t) widen m n

      calm : {w w' : W} → Moved api dir view Nobody w w' → Partly all w w'
      calm {w} m =
          Moved-trans api dir view (λ d t. t) (λ d t. absurd t) (Moved-refl api dir view w) m

      headed :
          {w w' : W}
          → is_internal dn ≡ false
          → Moved api dir view (λ d. d ≡ dn) w w'
          → Partly all w w'
      headed {w} e m =
          Moved-trans api dir view (λ d t. t)
            (λ d p. (
              account,
              subst (λ d. Managed all d account) (sym p) (Managed-head dn account accounts e),
            ))
            (Moved-refl api dir view w) m

      blame_wider :
          (w1 : W) (x : Error)
          → ((d : String) (a : DirectoryPasswords)
              → Because api dir ds conn view d a w1 x
              → Because api dir ds conn view d a w x)
          → Blamed accounts w1 x
          → Blamed all w x
      blame_wider w1 x f (d, a, m, b) =
          (d, a, Managed-tail dn account accounts d a fresh m, f d a b)

      internal_ne :
          (d : String) (a : DirectoryPasswords)
          → is_internal dn ≡ true
          → dn ≡ d
          → is_internal d ≡ false
          → ⊥
      internal_ne d a e p f = true-ne-false (sym e ∙ ap is_internal p ∙ f)

      -- The first account is internal, and is passed over.
      past_internal : is_internal dn ≡ true → Good accounts w → Good all w
      unfolding check_passwords
      past_internal e g = Finishes_at (check_passwords api dir ds conn accounts) w (rw e refl) (
          Finishes_mono
            (λ x w' y. record {
              moved = wider y.moved;
              accepts = λ d a m. elim (Managed-cases dn account accounts d a m) [
                | inl (p, q) ↦ absurd (internal_ne d a e p m.1)
                | inr (n, m') ↦ y.accepts d a m'
              ];
            })
            (λ x w' (m, b). (wider m, blame_wider w x (λ d a y. y) b)) (λ w' (m, n). (wider m, n))
            g)

      -- The first account is kept, and then the others.
      past_managed : is_internal dn ≡ false → ((w1 : W) → Good accounts w1) → Good all w
      unfolding check_passwords
      past_managed e g =
          Finishes_at
            (check_password api dir ds conn dn account
              >>= (λ x. check_passwords api dir ds conn accounts))
            w (rw e refl)
            (Finishes-bind (check_password api dir ds conn dn account) w
              (λ x. check_passwords api dir ds conn accounts)
              (check_password-Finishes api dir ds conn view law lawful dn account w)
              (λ x w1 (m, y).
                Finishes_mono
                  (λ x w' z. record {
                    moved = onto (headed e m) z.moved;
                    accepts = λ d a k. elim (Managed-cases dn account accounts d a k) [
                      | inl (p, q) ↦
                          subst₂ (λ d a. Accepts api dir ds conn view d a w w') p q
                            (
                              y.0,
                              y.1,
                              λ n.
                                  z.moved.others dn (λ t. some-ne-none (sym t.1.0 ∙ fresh)) ∙ y.2 n,
                            )
                      | inr (n, k') ↦ Accepts-from d a m (z.accepts d a k')
                    ];
                  })
                  (λ x w' (n, b).
                    (onto (headed e m) n, blame_wider w1 x (λ d a. Because-from d a x m) b))
                  (λ w' (n, c). (onto (headed e m) n, c)) (g w1))
              (λ x w' (m, b). (calm m, (dn, account, Managed-head dn account accounts e, b)))
              (λ w' (m, c). (calm m, c)))

    pub check_passwords-Finishes :
        (accounts : Dict DirectoryPasswords) (w : W) → NodupKeys accounts → Good accounts w
    unfolding check_passwords lookup
    check_passwords-Finishes [] w u = Finishes.returns tt w refl (record {
      moved = Moved-refl api dir view w;
      accepts = λ dn account m. absurd (some-ne-none (sym m.0));
    })
    check_passwords-Finishes ((dn, account) ∷ accounts) w (fresh, u) =
        elim (Bool-cases (is_internal dn)) [
          | inl e ↦
              past_internal dn account accounts fresh w e (check_passwords-Finishes accounts w u)
          | inr e ↦
              past_managed dn account accounts fresh w e
                (λ w1. check_passwords-Finishes accounts w1 u)
        ]
