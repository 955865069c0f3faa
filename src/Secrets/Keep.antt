-- ===== src/Secrets/Keep.antt =====
-- controllers/secrets.go: no password that is in a secret is replaced.
use mathlib.Core.List.{Memᴰ}
use ds_operator.Prelude.{
  ◌<>◌, ◌+◌, All, ℕ, zero, suc, ◌<◌, String, Bool-cases, ltb, arith, ◌≡◌, refl, sym, ap, ◌∙◌, inl,
  inr, some, [], ◌∷◌, List, Dict, lookup, length, get_elem?, ok, ok-injective, ok-ne-err,
  ok-ne-panic,
}
use ds_operator.Kube.Meta.{Key, key_of}
use ds_operator.Kube.Workloads.{Secret}
use ds_operator.Kube.Objects.{Kind}
use ds_operator.Kube.Client.{Client}
use ds_operator.Kube.Client.Laws.{IsLawful}
use ds_operator.Kube.Client.Apply.{Sound}
use ds_operator.Kube.Client.Keep.{OnlyKind, OnlyKind-refl, OnlyKind-trans}
use ds_operator.Api.Types.{DirectoryService, DirectoryPasswords, secret_name_for_dn}
use ds_operator.Secrets.Filling.{
  Holds, Holds-refl, Holds-trans, Filled, fill_in-Filled, fill_in-key,
}
use ds_operator.Secrets.{
  letters, with_letter, rand_password, empty_secret, labelled, fill_in, look_in, mutate_secret,
}

get_elem?-Memᴰ :
    {A : Type 0} (l : List A) (i : ℕ) → i < length l → (x : A) × (get_elem? l i ≡ some x) × Memᴰ x l
get_elem?-Memᴰ [] i h = absurd (omega arith)
get_elem?-Memᴰ (x ∷ l) zero h = (x, refl, Memᴰ.head refl)
get_elem?-Memᴰ (x ∷ l) (suc i) h =
    let (y, g, mem) = get_elem?-Memᴰ l i (omega arith) in (y, g, Memᴰ.tail mem)

-- Letters in a row.
abbrev pub spelled : List String → String
spelled [] = ""
spelled (l ∷ ls) = l <> spelled ls

-- What a password of `n` letters is made of: the letters that the draws from the i-th on pick.
pub record Picked (draw : ℕ → ℕ → ℕ) (n i : ℕ) (picks : List String) : Type 0 where
  pub count : length picks ≡ n
  pub known : All (λ l. Memᴰ l letters) picks
  pub drawn :
      (j : ℕ) → j < n → get_elem? picks j ≡ get_elem? letters (draw (length letters) (i + j))

drawn-after :
    (draw : ℕ → ℕ → ℕ) (n i : ℕ) (l : String) (rest : List String)
    → get_elem? letters (draw (length letters) i) ≡ some l
    → Picked draw n (suc i) rest
    → (j : ℕ) → j < suc n
    → get_elem? (l ∷ rest) j ≡ get_elem? letters (draw (length letters) (i + j))
drawn-after draw n i l rest g picked zero low =
    sym g ∙ ap (λ k. get_elem? letters (draw (length letters) k)) (omega arith)
drawn-after draw n i l rest g picked (suc j) low =
    picked.drawn j (omega arith)
    ∙ ap (λ k. get_elem? letters (draw (length letters) k)) (omega arith)

-- randPassword, where `rand.Intn(m)` is below `m`, does not panic: its result is spelled by `n` of
-- the letters, each the one that its draw among all the letters picks.
pub rand_password-ok :
    (draw : ℕ → ℕ → ℕ) (n i : ℕ)
    → ((m j : ℕ) → 0 < m → draw m j < m)
    → (picks : List String) × Picked draw n i picks × (rand_password draw n i ≡ ok (spelled picks))
unfolding rand_password with_letter
rand_password-ok draw zero i h =
    ([], record { count = refl; known = tt; drawn = λ j low. absurd (omega arith) }, refl)
rand_password-ok draw (suc n) i h =
    let (rest, picked, e) = rand_password-ok draw n (suc i) h in
    let drawing = draw (length letters) i in
    let (l, g, mem) = get_elem?-Memᴰ letters drawing (h (length letters) i (omega arith)) in
    (
      l ∷ rest,
      record {
        count = ap suc picked.count;
        known = (mem, picked.known);
        drawn = λ j low. drawn-after draw n i l rest g picked j low;
      },
      ap (with_letter (get_elem? letters drawing)) e
          ∙ ap (λ x. with_letter x (ok (spelled rest))) g,
    )

pub rand_password-text :
    (draw : ℕ → ℕ → ℕ) (n i : ℕ)
    → ((m j : ℕ) → 0 < m → draw m j < m)
    → (text : String) × (rand_password draw n i ≡ ok text)
rand_password-text draw n i h =
    let (picks, picked, e) = rand_password-ok draw n i h in (spelled picks, e)

module _ {W : Type 0} (api : Client W) where
  -- Every secret with a map is still there with all its entries, and nothing but secrets changed.
  pub record Keeps (w w' : W) : Type 0 where
    pub secrets :
        (key : Key) (s : Secret) (d : Dict String)
        → api.get Kind.secret key w ≡ ok s
        → s.payload ≡ some d
        → (t : Secret) × (api.get Kind.secret key w' ≡ ok t) × Holds d t
    pub only : OnlyKind api Kind.secret w w'

  pub Keeps-refl : (w : W) → Keeps w w
  Keeps-refl w = record {
    secrets = λ key s d g e. (s, g, Holds-refl d s e);
    only = OnlyKind-refl api Kind.secret w;
  }

  pub Keeps-trans : {w w' w'' : W} → Keeps w w' → Keeps w' w'' → Keeps w w''
  Keeps-trans p q = record {
    secrets = λ key s d g e.
        let (t, g', held) = p.secrets key s d g e in
        let (u, g'', held') = q.secrets key t held.entries g' held.payload in
        (u, g'', Holds-trans d t u held held');
    only = OnlyKind-trans api p.only q.only;
  }

  -- The account's secret is there, with a map, and with a password under the account's key.
  abbrev pub secret_key : DirectoryService → String → Key
  secret_key ds dn = record { namespace = ds.meta.namespace; name = secret_name_for_dn ds dn }

  pub record HasPassword (key : Key) (field : String) (w : W) : Type 0 where
    pub secret : Secret
    pub there : api.get Kind.secret key w ≡ ok secret
    pub entries : Dict String
    pub payload : secret.payload ≡ some entries
    pub password : String
    pub found : lookup field entries ≡ some password

  pub HasPassword-Keeps :
      (key : Key) (field : String) (w w' : W)
      → HasPassword key field w
      → Keeps w w'
      → HasPassword key field w'
  HasPassword-Keeps key field w w' h k =
      let (t, g, held) = k.secrets key h.secret h.entries h.there h.payload in
      record {
        secret = t;
        there = g;
        entries = held.entries;
        payload = held.payload;
        password = h.password;
        found = held.more field h.password h.found;
      }

  -- The secret is there and has a map.
  pub record Writable (key : Key) (w : W) : Type 0 where
    pub secret : Secret
    pub there : api.get Kind.secret key w ≡ ok secret
    pub entries : Dict String
    pub payload : secret.payload ≡ some entries

  pub Writable-Keeps : (key : Key) (w w' : W) → Writable key w → Keeps w w' → Writable key w'
  Writable-Keeps key w w' h k =
      let (t, g, held) = k.secrets key h.secret h.entries h.there h.payload in
      record { secret = t; there = g; entries = held.entries; payload = held.payload }

  module _ (draw : W → ℕ → ℕ → ℕ) (ds : DirectoryService) (law : IsLawful api)
      (below : (w : W) (m j : ℕ) → 0 < m → draw w m j < m) where
    module _ (dn : String) (account : DirectoryPasswords) (w : W)
        (ready : Writable (secret_key ds dn) w) where
      abbrev pub blank : Secret
      blank = empty_secret (secret_name_for_dn ds dn) ds.meta.namespace

      pub mutate_there :
          (s : Secret) (d : Dict String)
          → api.get Kind.secret (secret_key ds dn) w ≡ ok s
          → s.payload ≡ some d
          → (m : Secret) × (mutate_secret api draw ds account w s ≡ ok (m, tt))
            × Filled account.key d s m
      unfolding mutate_secret
      mutate_there s d g e =
          let created = law.get_created Kind.secret (secret_key ds dn) w s g in
          let same : labelled api draw ds s ≡ s = ground arith in
          let (pw, made) = rand_password-text (draw w) 24 0 (below w) in
          let (m, run, filled) = fill_in-Filled s account.key pw d e in
          (
            m,
            ap
                  (λ t.
                    fill_in t account.key (rand_password (draw w) 24 0)
                      (look_in t.payload account.key))
                  same
                ∙ ap (λ r. fill_in s account.key r (look_in s.payload account.key)) made
                ∙ run,
            filled,
          )

      mutate-keeps_key :
          (s n : Secret) (x : Unit {0})
          → mutate_secret api draw ds account w s ≡ ok (n, x)
          → key_of n.meta ≡ key_of s.meta
      unfolding mutate_secret
      mutate-keeps_key s n x h =
          fill_in-key (labelled api draw ds s) n x account.key (rand_password (draw w) 24 0)
            (look_in (labelled api draw ds s).payload account.key) h
          ∙ labelled-key s
        where
          labelled-key : (s : Secret) → key_of (labelled api draw ds s).meta ≡ key_of s.meta
          labelled-key s = elim (Bool-cases (ltb 0 s.meta.creation_timestamp)) [
            | inl e ↦ rw e refl
            | inr e ↦ rw e refl
          ]

      pub mutate-Sound :
          Sound api Kind.secret (Unit {0}) blank (mutate_secret api draw ds account) w
      mutate-Sound = record {
        no_panic = λ s which h. elim which [
          | inl (e, a) ↦ ok-ne-err (sym a ∙ ready.there)
          | inr g ↦
              let same = ok-injective (sym ready.there ∙ g) in
              let (m, run, filled) =
                mutate_there s ready.entries g (ap (λ t. t.payload) (sym same) ∙ ready.payload) in
              ok-ne-panic (sym run ∙ h)
        ];
        keeps_key = λ s n x same h. mutate-keeps_key s n x h ∙ same;
      }
