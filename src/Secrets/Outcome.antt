-- ===== src/Secrets/Outcome.antt =====
-- controllers/secrets.go, reconcileSecrets.
use mathlib.Core.Path.{subst}
use ds_operator.Prelude.{
  ℕ, ◌<◌, String, Bool, true, false, Bool-cases, if◌then◌else◌, ◌≡◌, refl, sym, ap, ◌∙◌, inl, inr,
  [], ◌∷◌, Dict, Result, ok, err, not_found, panic, wrap, ok-injective, ok-ne-err, Ends, Ends-try,
  Ends-bind, Ends_mono, Ends_at, pure, raise, none, some, Action, handle, continue,
}
use ds_operator.Kube.Meta.{Key-cases}
use ds_operator.Kube.Workloads.{Secret}
use ds_operator.Kube.Objects.{Kind}
use ds_operator.Kube.Client.{Client}
use ds_operator.Kube.Client.Laws.{IsLawful, create_branch}
use ds_operator.Kube.Client.Apply.{Applied, create_or_update-ends}
use ds_operator.Kube.Client.Keep.{OnlyAt-OnlyKind}
use ds_operator.Api.Types.{DirectoryService, DirectoryPasswords, secret_name_for_dn}
use ds_operator.Secrets.{
  empty_secret, labelled, assign_key, mutate_secret, reconcile_secret, reconcile_accounts,
  reconcile_secrets,
}
use ds_operator.Secrets.Filling.{Filled}
use ds_operator.Secrets.Keep.{
  Keeps, Keeps-refl, Keeps-trans, HasPassword, HasPassword-Keeps, Writable, Writable-Keeps,
  secret_key, mutate_there, mutate-Sound, blank, rand_password-text,
}

true-ne-false : ◌≡◌ {A = Bool} true false → ⊥
true-ne-false h = cc

module _ {W : Type 0} (api : Client W) (draw : W → ℕ → ℕ → ℕ) (ds : DirectoryService)
    (law : IsLawful api) (below : (w : W) (m j : ℕ) → 0 < m → draw w m j < m) where
  module _ (dn : String) (account : DirectoryPasswords) (w w' : W)
      (ready : Writable api (secret_key api ds dn) w) (r : Secret × Unit {0})
      (a : Applied api Kind.secret
        (Unit {0})
        (blank api draw ds law below dn account w ready)
        (mutate_secret api draw ds account)
        w
        r
        w') where
    -- What is stored is what the callback makes of the secret that was there.
    applied-Filled :
        (s : Secret) (d : Dict String)
        → api.get Kind.secret (secret_key api ds dn) w ≡ ok s
        → s.payload ≡ some d
        → Filled account.key d s r.0
    applied-Filled s d g e = elim a.how [
      | inl c ↦ absurd (ok-ne-err (sym c.was_absent ∙ g))
      | inr u ↦
          let (m, run, filled) = mutate_there api draw ds law below dn account w ready s d g e in
          let old = ok-injective (sym u.was_present ∙ g) in
          let made =
            ok-injective {A = Secret × Unit {0}}
              (sym u.mutated ∙ ap (mutate_secret api draw ds account w) old ∙ run) in
          subst (λ t. Filled account.key d s t) (sym (u.content ∙ ap (λ (t, y). t) made)) filled
    ]

    applied-Keeps : Keeps api w w'
    applied-Keeps = record {
      secrets = λ key s d g e. elim (Key-cases (secret_key api ds dn) key) [
        | inl same ↦
            let filled = applied-Filled s d (ap (λ k. api.get Kind.secret k w) same ∙ g) e in
            (r.0, ap (λ k. api.get Kind.secret k w') (sym same) ∙ a.stored, filled.holds)
        | inr other ↦ (
          s,
          a.elsewhere Kind.secret key (λ p q. other q) ∙ g,
          record { entries = d; payload = e; more = λ k v h. h },
        )
      ];
      only = OnlyAt-OnlyKind api Kind.secret (secret_key api ds dn) w w' a.elsewhere;
    }

    applied-HasPassword : HasPassword api (secret_key api ds dn) account.key w'
    applied-HasPassword =
        let filled = applied-Filled ready.secret ready.entries ready.there ready.payload in
        record {
          secret = r.0;
          there = a.stored;
          entries = filled.holds.entries;
          payload = filled.holds.payload;
          password = filled.password;
          found = filled.has_key;
        }

  reconcile_secret-ends :
      (dn : String) (account : DirectoryPasswords) (w : W)
      → Writable api (secret_key api ds dn) w
      → Ends
          (reconcile_secret api draw ds dn account)
          w
          (λ _ w'. Keeps api w w' × HasPassword api (secret_key api ds dn) account.key w')
          (λ _ w'. w' ≡ w)
  unfolding reconcile_secret
  reconcile_secret-ends dn account w ready =
      Ends-try
        (api.create_or_update Kind.secret (Unit {0})
          (blank api draw ds law below dn account w ready) (mutate_secret api draw ds account))
        (λ r. pure tt) (λ e. raise (wrap "unable to CreateOrUpdate Secret" e)) w
        (create_or_update-ends api Kind.secret (Unit {0})
          (blank api draw ds law below dn account w ready) (mutate_secret api draw ds account) law w
          (mutate-Sound api draw ds law below dn account w ready))
        (λ r w' a.
          Ends.returns tt w' refl (
            applied-Keeps dn account w w' ready r a,
            applied-HasPassword dn account w w' ready r a,
          ))
        (λ e w' same. Ends.fails (wrap "unable to CreateOrUpdate Secret" e) w' refl same)

  -- All of the accounts that the operator is to make, and what is so of each.
  abbrev pub Each : (String → DirectoryPasswords → Type 0) → Dict DirectoryPasswords → Type 0
  Each P [] = Unit
  Each P ((dn, account) ∷ accounts) = (account.create ≡ true → P dn account) × Each P accounts

  pub Each-map :
      (P Q : String → DirectoryPasswords → Type 0) (accounts : Dict DirectoryPasswords)
      → ((dn : String) (account : DirectoryPasswords) → P dn account → Q dn account)
      → Each P accounts
      → Each Q accounts
  Each-map P Q [] f e = tt
  Each-map P Q ((dn, account) ∷ accounts) f (p, e) =
      (λ c. f dn account (p c), Each-map P Q accounts f e)

  abbrev pub Ready : Dict DirectoryPasswords → W → Type 0
  Ready accounts w = Each (λ dn account. Writable api (secret_key api ds dn) w) accounts

  abbrev pub Done : Dict DirectoryPasswords → W → Type 0
  Done accounts w =
      Each (λ dn account. HasPassword api (secret_key api ds dn) account.key w) accounts

  -- One round of the loop.
  abbrev round : String → DirectoryPasswords → Action W (Unit {0})
  round dn account = if account.create then reconcile_secret api draw ds dn account else pure tt

  round-ends :
      (dn : String) (account : DirectoryPasswords) (w : W)
      → (account.create ≡ true → Writable api (secret_key api ds dn) w)
      → Ends
          (round dn account)
          w
          (λ _ w'.
            Keeps api w w'
            × (account.create ≡ true → HasPassword api (secret_key api ds dn) account.key w'))
          (λ _ w'. w' ≡ w)
  round-ends dn account w ready = elim (Bool-cases account.create) [
    | inl c ↦
        Ends_at (ap (λ b. (if b then reconcile_secret api draw ds dn account else pure tt) w) c) (
          Ends_mono (λ x w' (k, h). (k, λ c. h)) (λ e w' same. same)
            (reconcile_secret-ends dn account w (ready c)))
    | inr c ↦
        Ends.returns tt w
          (ap (λ b. (if b then reconcile_secret api draw ds dn account else pure tt) w) c)
          (Keeps-refl api w, λ c'. absurd (true-ne-false (sym c' ∙ c)))
  ]

  reconcile_accounts-ends :
      (accounts : Dict DirectoryPasswords) (w : W)
      → Ready accounts w
      → Ends
          (reconcile_accounts api draw ds accounts)
          w
          (λ _ w'. Keeps api w w' × Done accounts w')
          (λ _ w'. Keeps api w w')
  unfolding reconcile_accounts
  reconcile_accounts-ends [] w ready = Ends.returns tt w refl (Keeps-refl api w, tt)
  reconcile_accounts-ends ((dn, account) ∷ accounts) w (now, later) =
      Ends-bind (round dn account) (λ x. reconcile_accounts api draw ds accounts) w
        (Ends_mono (λ x w' p. p) (λ e w' same. rw same (Keeps-refl api w))
          (round-ends dn account w now))
        (λ x w' (k, has).
          Ends_mono
            (λ y w'' (k', done). (
              Keeps-trans api k k',
              (
                λ c. HasPassword-Keeps api (secret_key api ds dn) account.key w' w'' (has c) k',
                done,
              ),
            ))
            (λ e w'' k'. Keeps-trans api k k')
            (reconcile_accounts-ends accounts w' (
              Each-map (λ dn account. Writable api (secret_key api ds dn) w)
                (λ dn account. Writable api (secret_key api ds dn) w') accounts
                (λ dn account h. Writable-Keeps api (secret_key api ds dn) w w' h k) later)))

  abbrev new_secret : String → Secret
  new_secret dn = empty_secret (secret_name_for_dn ds dn) ds.meta.namespace

  -- reconcileSecrets, where the secret of each account that it is to make exists already with a map
  -- of passwords, does not panic. No entry of a secret is removed or replaced, and nothing but
  -- secrets changes, even on an error. If it returns, every such account has a password.
  pub reconcile_secrets-Keeps :
      (w : W)
      → Ready ds.spec.passwords w
      → Ends
          (reconcile_secrets api draw ds)
          w
          (λ _ w'. Keeps api w w' × Done ds.spec.passwords w')
          (λ _ w'. Keeps api w w')
  unfolding reconcile_secrets
  reconcile_secrets-Keeps w ready = reconcile_accounts-ends ds.spec.passwords w ready

  -- Where the secret of the first account, one to be made, is not there, reconcileSecrets panics:
  -- the map of a new secret is nil.
  pub reconcile_secrets_new :
      (dn : String) (account : DirectoryPasswords) (accounts : Dict DirectoryPasswords) (w : W)
      → ds.spec.passwords ≡ (dn, account) ∷ accounts
      → account.create ≡ true
      → api.get Kind.secret (secret_key api ds dn) w ≡ err not_found
      → (reconcile_secrets api draw ds w).0 ≡ panic
  unfolding reconcile_secrets reconcile_accounts reconcile_secret mutate_secret
  reconcile_secrets_new dn account accounts w first create absent =
      let made : mutate_secret api draw ds account w (new_secret dn) ≡ panic =
        ap (λ p. assign_key (labelled api draw ds (new_secret dn)) account.key p none)
          (rand_password-text (draw w) 24 0 (below w)).1 in
      let stop =
        law.absent Kind.secret (Unit {0}) (new_secret dn) (mutate_secret api draw ds account) w
          absent
        ∙ ap (λ r. create_branch api Kind.secret r w) made in
      let secret_stop : reconcile_secret api draw ds dn account w ≡ (panic, w) =
        ap
          (λ ((r, v) : Result (Secret × Unit {0}) × W).
            handle r (λ r. pure tt) (λ e. raise (wrap "unable to CreateOrUpdate Secret" e)) v)
          stop in
      let round_stop : round dn account w ≡ (panic, w) =
        ap (λ b. (if b then reconcile_secret api draw ds dn account else pure tt) w) create
        ∙ secret_stop in
      ap (λ l. (reconcile_accounts api draw ds l w).0) first
      ∙ ap
          (λ ((r, v) : Result (Unit {0}) × W).
            (continue r (λ x. reconcile_accounts api draw ds accounts) v).0)
          round_stop
