-- ===== src/Secrets/Live.antt =====
-- controllers/secrets.go, reconcileSecrets, where the server refuses nothing without a reason.
use ds_operator.Prelude.{
  length, ℕ, zero, suc, ◌<◌, ◌≡◌, refl, ap, ◌∙◌, sym, String, Bool, true, false, Option, some, none,
  [], ◌∷◌, Dict, Error, Result, ok, err, panic, arith, pure, raise, wrap, if◌then◌else◌,
  ok-injective, ok-ne-err, get_elem?,
}
use ds_operator.Kube.Meta.{key_of}
use ds_operator.Kube.Workloads.{Secret}
use ds_operator.Kube.Objects.{Kind, Obj}
use ds_operator.Kube.Client.{Client}
use ds_operator.Kube.Client.Laws.{IsLawful}
use ds_operator.Kube.Client.Live.{
  Lively, Lively-bind, Lively-try, Lively-pure, Accepting, Passes, Obliging,
  create_or_update-Lively,
}
use ds_operator.Api.Types.{DirectoryService, DirectoryPasswords, secret_name_for_dn}
use ds_operator.Secrets.{
  empty_secret, rand_password, with_letter, letters, fill_in, assign_key, look_in, labelled,
  mutate_secret, reconcile_secret, reconcile_accounts, reconcile_secrets,
}

with_letter-fine :
    (l : Option String) (r : Result String) (e : Error)
    → ((x : Error) → r ≡ err x → ⊥)
    → with_letter l r ≡ err e
    → ⊥
unfolding with_letter
with_letter-fine none r e h g = cc
with_letter-fine (some l) (ok s) e h g = ok-ne-err (sym g)
with_letter-fine (some l) (err x) e h g = h x refl
with_letter-fine (some l) panic e h g = cc

-- Making a password panics or returns one.
rand_password-fine : (draw : ℕ → ℕ → ℕ) (n i : ℕ) (e : Error) → rand_password draw n i ≡ err e → ⊥
unfolding rand_password
rand_password-fine draw zero i e h = ok-ne-err (sym h)
rand_password-fine draw (suc n) i e h =
    with_letter-fine (get_elem? letters (draw (length letters) i)) (rand_password draw n (suc i)) e
      (λ x g. rand_password-fine draw n (suc i) x g) h

assign_key-fine :
    (s : Secret) (key : String) (r : Result String) (d : Option (Dict String)) (e : Error)
    → ((x : Error) → r ≡ err x → ⊥)
    → assign_key s key r d ≡ err e
    → ⊥
assign_key-fine s key (ok p) (some d) e h g = ok-ne-err (sym g)
assign_key-fine s key (ok p) none e h g = cc
assign_key-fine s key (err x) d e h g = h x refl
assign_key-fine s key panic d e h g = cc

fill_in-fine :
    (s : Secret) (key : String) (r : Result String) (v : Option String) (e : Error)
    → ((x : Error) → r ≡ err x → ⊥)
    → fill_in s key r v ≡ err e
    → ⊥
fill_in-fine s key r (some v) e h g = ok-ne-err (sym g)
fill_in-fine s key r none e h g = assign_key-fine s key r s.payload e h g

assign_key-meta :
    (s : Secret) (key : String) (r : Result String) (d : Option (Dict String)) (n : Secret)
    (x : Unit {0})
    → assign_key s key r d ≡ ok (n, x)
    → n.meta ≡ s.meta
assign_key-meta s key (ok p) (some d) n x g =
    ap (λ ((m, _) : Secret × Unit {0}). m.meta) (sym (ok-injective g))
assign_key-meta s key (ok p) none n x g = absurd cc
assign_key-meta s key (err e) d n x g = absurd (ok-ne-err g)
assign_key-meta s key panic d n x g = absurd cc

fill_in-meta :
    (s : Secret) (key : String) (r : Result String) (v : Option String) (n : Secret) (x : Unit {0})
    → fill_in s key r v ≡ ok (n, x)
    → n.meta ≡ s.meta
fill_in-meta s key r (some v) n x g =
    ap (λ ((m, _) : Secret × Unit {0}). m.meta) (sym (ok-injective g))
fill_in-meta s key r none n x g = assign_key-meta s key r s.payload n x g

module _ {W : Type 0} (Open : W → Type 0) (Admits : (k : Kind) → W → Obj k → Type 0)
    (api : Client W) (law : IsLawful api) (accepting : Accepting Open Admits api)
    (draw : W → ℕ → ℕ → ℕ) (ds : DirectoryService)
    (passes : (dn : String) (account : DirectoryPasswords)
      → Passes Open Admits api Kind.secret
          (Unit {0})
          (empty_secret (secret_name_for_dn ds dn) ds.meta.namespace)
          (mutate_secret api draw ds account)) where
  labelled-stored : (s : Secret) → 0 < s.meta.creation_timestamp → labelled api draw ds s ≡ s
  labelled-stored s h = ground arith

  mutate_secret-Obliging :
      (dn : String) (account : DirectoryPasswords)
      → Obliging Open Admits api Kind.secret
          (Unit {0})
          (empty_secret (secret_name_for_dn ds dn) ds.meta.namespace)
          (mutate_secret api draw ds account)
  unfolding mutate_secret
  mutate_secret-Obliging dn account = record {
    passes = passes dn account;
    fine = λ w s e h.
        let s' = labelled api draw ds s in
        fill_in-fine s' account.key (rand_password (draw w) 24 0) (look_in s'.payload account.key) e
          (λ x g. rand_password-fine (draw w) 24 0 x g) h;
    names = λ w n x h.
        let s' = labelled api draw ds (empty_secret (secret_name_for_dn ds dn) ds.meta.namespace) in
        ap key_of (
          fill_in-meta s' account.key (rand_password (draw w) 24 0) (look_in s'.payload account.key)
            n x h);
    keeps = λ w s n x t h.
        let s' = labelled api draw ds s in
        let same =
          fill_in-meta s' account.key (rand_password (draw w) 24 0) (look_in s'.payload account.key)
            n x h
          ∙ ap (λ y. y.meta) (labelled-stored s t) in
        (ap key_of same, rw same t);
  }

  reconcile_secret-Lively :
      (dn : String) (account : DirectoryPasswords)
      → Lively Open (reconcile_secret api draw ds dn account)
  unfolding reconcile_secret
  reconcile_secret-Lively dn account =
      Lively-try Open
        (api.create_or_update Kind.secret (Unit {0})
          (empty_secret (secret_name_for_dn ds dn) ds.meta.namespace)
          (mutate_secret api draw ds account))
        (λ r. pure tt) (λ e. raise (wrap "unable to CreateOrUpdate Secret" e))
        (create_or_update-Lively Open Admits api Kind.secret (Unit {0})
          (empty_secret (secret_name_for_dn ds dn) ds.meta.namespace)
          (mutate_secret api draw ds account) law accepting (mutate_secret-Obliging dn account))
        (λ r. Lively-pure Open tt)

  if_asked-Lively :
      (asked : Bool) (dn : String) (account : DirectoryPasswords)
      → Lively Open (if asked then reconcile_secret api draw ds dn account else pure tt)
  if_asked-Lively true dn account = reconcile_secret-Lively dn account
  if_asked-Lively false dn account = Lively-pure Open tt

  reconcile_accounts-Lively :
      (accounts : Dict DirectoryPasswords) → Lively Open (reconcile_accounts api draw ds accounts)
  unfolding reconcile_accounts
  reconcile_accounts-Lively [] = Lively-pure Open tt
  reconcile_accounts-Lively ((dn, account) ∷ accounts) =
      Lively-bind Open (if account.create then reconcile_secret api draw ds dn account else pure tt)
        (λ x. reconcile_accounts api draw ds accounts) (if_asked-Lively account.create dn account)
        (λ x. reconcile_accounts-Lively accounts)

  pub reconcile_secrets-Lively : Lively Open (reconcile_secrets api draw ds)
  unfolding reconcile_secrets
  reconcile_secrets-Lively = reconcile_accounts-Lively ds.spec.passwords
