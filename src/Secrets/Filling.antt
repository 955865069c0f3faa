-- ===== src/Secrets/Filling.antt =====
-- controllers/secrets.go: what the callback of reconcileSecrets does to a secret with a map.
use ds_operator.Prelude.{
  String, Option-cases, eq_iff, arith, ◌≡◌, refl, sym, ap, ◌∙◌, inl, inr, Option, some, none, Dict,
  lookup, insert, lookup-insert, Result, ok, err, panic, ok-injective, ok-ne-err, ok-ne-panic,
}
use ds_operator.Kube.Meta.{key_of}
use ds_operator.Kube.Workloads.{Secret}
use ds_operator.Secrets.{assign_key, fill_in, look_in}

none-ne-some : {v : String} → ◌≡◌ {A = Option String} none (some v) → ⊥
none-ne-some h = cc

-- A secret with a map of passwords, and every entry of `d` in it.
pub record Holds (d : Dict String) (s : Secret) : Type 0 where
  pub entries : Dict String
  pub payload : s.payload ≡ some entries
  pub more : (k v : String) → lookup k d ≡ some v → lookup k entries ≡ some v

pub Holds-refl : (d : Dict String) (s : Secret) → s.payload ≡ some d → Holds d s
Holds-refl d s e = record { entries = d; payload = e; more = λ k v h. h }

pub Holds-trans : (d : Dict String) (s t : Secret) (p : Holds d s) → Holds p.entries t → Holds d t
Holds-trans d s t p q = record {
  entries = q.entries;
  payload = q.payload;
  more = λ k v h. q.more k v (p.more k v h);
}

insert-Holds :
    (s : Secret) (key pw : String) (d : Dict String)
    → lookup key d ≡ none
    → Holds d (record s { payload = some (insert key pw d) })
insert-Holds s key pw d fresh = record {
  entries = insert key pw d;
  payload = refl;
  more = λ k v h. ground (arith, lookup-insert key k pw d, eq_iff key k, kept_fresh k v h);
}
  where
    kept_fresh : (k v : String) → lookup k d ≡ some v → key ≡ k → ⊥
    kept_fresh k v h e = absurd (none-ne-some (sym fresh ∙ ap (λ y. lookup y d) e ∙ h))

-- What the callback makes of a secret with a map: a secret that has the key, and all that was there.
pub record Filled (key : String) (d : Dict String) (s m : Secret) : Type 0 where
  pub meta : m.meta ≡ s.meta
  pub holds : Holds d m
  pub password : String
  pub has_key : lookup key holds.entries ≡ some password

pub fill_in-Filled :
    (s : Secret) (key pw : String) (d : Dict String)
    → s.payload ≡ some d
    → (m : Secret) × (fill_in s key (ok pw) (look_in s.payload key) ≡ ok (m, tt)) × Filled key d s m
fill_in-Filled s key pw d e = elim (Option-cases (lookup key d)) [
  | inl fresh ↦ (
    record s { payload = some (insert key pw d) },
    ap (fill_in s key (ok pw)) (ap (λ y. look_in y key) e ∙ fresh)
        ∙ ap (assign_key s key (ok pw)) e,
    record {
      meta = refl;
      holds = insert-Holds s key pw d fresh;
      password = pw;
      has_key = ground (arith, lookup-insert key key pw d, eq_iff key key);
    },
  )
  | inr (v, there) ↦ (
    s,
    ap (fill_in s key (ok pw)) (ap (λ y. look_in y key) e ∙ there),
    record {
      meta = refl;
      holds = record { entries = d; payload = e; more = λ k v h. h };
      password = v;
      has_key = there;
    },
  )
]

assign_key-key :
    (s n : Secret) (x : Unit {0}) (key : String) (password : Result String)
    (d : Option (Dict String))
    → assign_key s key password d ≡ ok (n, x)
    → key_of n.meta ≡ key_of s.meta
assign_key-key s n x key (ok pw) (some d) h =
    ap (λ (t, y). key_of t.meta) (ok-injective {A = Secret × Unit {0}} (sym h))
assign_key-key s n x key (ok pw) none h = absurd (ok-ne-panic (sym h))
assign_key-key s n x key (err e) d h = absurd (ok-ne-err h)
assign_key-key s n x key panic d h = absurd (ok-ne-panic (sym h))

pub fill_in-key :
    (s n : Secret) (x : Unit {0}) (key : String) (password : Result String) (found : Option String)
    → fill_in s key password found ≡ ok (n, x)
    → key_of n.meta ≡ key_of s.meta
fill_in-key s n x key password (some v) h =
    ap (λ (t, y). key_of t.meta) (ok-injective {A = Secret × Unit {0}} (sym h))
fill_in-key s n x key password none h = assign_key-key s n x key password s.payload h
