-- ===== src/Secrets.antt =====
-- controllers/secrets.go: the passwords of the service accounts that the operator makes.
pub mod Filling
pub mod Keep
pub mod Outcome
pub mod Live
pub mod Stable
use ds_operator.Prelude.{
  length, ℕ, zero, suc, String, ◌<>◌, Bool, Option, some, none, List, [], ◌∷◌, Dict, lookup, insert,
  Error, Result, ok, err, panic, ltb, if◌then◌else◌, get_elem?, Action, pure, raise, try_else,
  ◌>>=◌, wrap,
}
use ds_operator.Kube.Meta.{ObjectMeta, named}
use ds_operator.Kube.Workloads.{Secret}
use ds_operator.Kube.Objects.{Kind}
use ds_operator.Kube.Client.{Client, Mutate}
use ds_operator.Api.Types.{DirectoryService, DirectoryPasswords, secret_name_for_dn}
use ds_operator.Labels.{create_labels}

abbrev pub letters : List String
letters =
    "a" ∷ "b" ∷ "c" ∷ "d" ∷ "e" ∷ "f" ∷ "g" ∷ "h" ∷ "i" ∷ "j" ∷ "k" ∷ "l" ∷ "m" ∷ "n" ∷ "o" ∷ "p"
    ∷ "q" ∷ "r" ∷ "s" ∷ "t" ∷ "u" ∷ "v" ∷ "w" ∷ "x" ∷ "y" ∷ "z" ∷ "A" ∷ "B" ∷ "C" ∷ "D" ∷ "E" ∷ "F"
    ∷ "G" ∷ "H" ∷ "I" ∷ "J" ∷ "K" ∷ "L" ∷ "M" ∷ "N" ∷ "O" ∷ "P" ∷ "Q" ∷ "R" ∷ "S" ∷ "T" ∷ "U" ∷ "V"
    ∷ "W" ∷ "X" ∷ "Y" ∷ "Z" ∷ "0" ∷ "1" ∷ "2" ∷ "3" ∷ "4" ∷ "5" ∷ "6" ∷ "7" ∷ "8" ∷ "9" ∷ "!" ∷ "$"
    ∷ "^" ∷ "#" ∷ "(" ∷ ")" ∷ "-" ∷ "+" ∷ "<" ∷ ">" ∷ []

-- An index past the end is a panic.
with_letter : Option String → Result String → Result String
with_letter none rest = panic
with_letter (some l) (ok rest) = ok (l <> rest)
with_letter (some l) (err e) = err e
with_letter (some l) panic = panic

-- `draw m i` is the result of the i-th call, `rand.Intn(m)`; this makes the letters from the i-th
-- on.
unfoldable pub rand_password : (ℕ → ℕ → ℕ) → ℕ → ℕ → Result String
unfolding with_letter
rand_password draw zero i = ok ""
rand_password draw (suc n) i =
    let rest = rand_password draw n (suc i) in
    with_letter (get_elem? letters (draw (length letters) i)) rest

abbrev pub empty_secret : String → String → Secret
empty_secret name namespace = record { meta = named name namespace; payload = none }

-- `secret.Data[key] = password`: a nil map is a panic.
abbrev pub assign_key :
    Secret → String → Result String → Option (Dict String) → Result (Secret × Unit {0})
assign_key s key (ok password) (some d) =
    ok (record s { payload = some (insert key password d) }, tt)
assign_key s key (ok password) none = panic
assign_key s key (err e) d = err e
assign_key s key panic d = panic

abbrev pub look_in : Option (Dict String) → String → Option String
look_in none key = none
look_in (some d) key = lookup key d

-- `if _, ok := secret.Data[key]; !ok`
abbrev pub fill_in : Secret → String → Result String → Option String → Result (Secret × Unit {0})
fill_in s key password (some v) = ok (s, tt)
fill_in s key password none = assign_key s key password s.payload

module _ {W : Type 0} (api : Client W) (draw : W → ℕ → ℕ → ℕ) (ds : DirectoryService) where
  -- A secret that is not there yet is labelled.
  abbrev pub labelled : Secret → Secret
  labelled s = if ltb 0 s.meta.creation_timestamp then s else record s {
    meta = record s.meta { labels = some (create_labels ds.meta.name ds.kind none) };
  }

  unfoldable pub mutate_secret : DirectoryPasswords → Mutate W (Unit {0}) Kind.secret
  mutate_secret account w secret =
      let s = labelled secret in
      fill_in s account.key (rand_password (draw w) 24 0) (look_in s.payload account.key)

  unfoldable pub reconcile_secret : String → DirectoryPasswords → Action W (Unit {0})
  reconcile_secret dn account =
      try_else
        (api.create_or_update Kind.secret (Unit {0})
          (empty_secret (secret_name_for_dn ds dn) ds.meta.namespace) (mutate_secret account))
        (λ r. pure tt) (λ e. raise (wrap "unable to CreateOrUpdate Secret" e))

  -- `for dn, accountSecret := range ds.Spec.Passwords`
  unfoldable pub reconcile_accounts : Dict DirectoryPasswords → Action W (Unit {0})
  reconcile_accounts [] = pure tt
  reconcile_accounts ((dn, account) ∷ accounts) = do
    x ← if account.create then reconcile_secret dn account else pure tt
    reconcile_accounts accounts

  unfoldable pub reconcile_secrets : Action W (Unit {0})
  reconcile_secrets = reconcile_accounts ds.spec.passwords
