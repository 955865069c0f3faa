-- ===== src/Kube/Memory/Lawful/Reads.antt =====
-- Kube/Memory: what a read returns after a write.
use ds_operator.Prelude.{
  ◌<◌, true, Option, some, none, List, ◌≡◌, ◌≢◌, refl, sym, inl, inr, arith, Bool-cases, ok, err,
  panic, not_found,
}
use ds_operator.Kube.Meta.{Key}
use ds_operator.Kube.Objects.{Kind, Obj, meta_of, object_key}
use ds_operator.Kube.Client.Laws.{Differ, OnlyAt}
use ds_operator.Kube.Memory.{Server, memory, get, listed, is_stored, note_name}
use ds_operator.Kube.Memory.Tables.{cell, put, same_key, same_key_iff, cell-put_ne}

pub get-inv :
    (k : Kind) (key : Key) (w : Server) (o : Obj k)
    → get k key w ≡ ok o
    → (cell k key w.cells ≡ some o) × (listed k key w.names ≡ true) × (is_stored k key o ≡ true)
unfolding get
get-inv k key w o h = ground arith

pub get-eq_ok :
    (k : Kind) (key : Key) (o : Obj k) (w : Server)
    → cell k key w.cells ≡ some o
    → listed k key w.names ≡ true
    → is_stored k key o ≡ true
    → get k key w ≡ ok o
unfolding get
get-eq_ok k key o w c l s = rw (c, l, s)

pub get-eq_err :
    (k : Kind) (key : Key) (w : Server) → cell k key w.cells ≡ none → get k key w ≡ err not_found
unfolding get
get-eq_err k key w c = rw c

pub get-eq_get :
    (k : Kind) (key : Key) (w w' : Server)
    → cell k key w'.cells ≡ cell k key w.cells
    → listed k key w'.names ≡ listed k key w.names
    → get k key w' ≡ get k key w
unfolding get
get-eq_get k key w w' c l = rw (c, l)

pub listed-note_name_self :
    (k : Kind) (key : Key) (names : List Key) → listed k key (note_name k key names) ≡ true
unfolding listed note_name
listed-note_name_self Kind.snapshot key names = rw ((same_key_iff key key).1 refl)
listed-note_name_self _ key names = refl

pub listed-note_name_ne :
    (k k' : Kind) (key key' : Key) (names : List Key)
    → Differ k key k' key'
    → listed k' key' (note_name k key names) ≡ listed k' key' names
unfolding listed note_name
listed-note_name_ne Kind.snapshot Kind.snapshot key key' names d =
    elim (Bool-cases (same_key key' key)) [
      | inl e ↦ absurd (d refl (sym ((same_key_iff key' key).0 e)))
      | inr e ↦ rw e
    ]
listed-note_name_ne _ _ key key' names d = refl

pub get-no_panic : (k : Kind) (key : Key) (w : Server) → get k key w ≢ panic
unfolding get
get-no_panic k key w h = ground arith

pub is_stored_inv :
    (k : Kind) (key : Key) (o : Obj k)
    → is_stored k key o ≡ true
    → (same_key (object_key k o) key ≡ true) × (0 < (meta_of k o).creation_timestamp)
unfolding is_stored
is_stored_inv k key o h = ground arith

pub is_stored_self :
    (k : Kind) (key : Key) (o : Obj k)
    → object_key k o ≡ key
    → 0 < (meta_of k o).creation_timestamp
    → is_stored k key o ≡ true
unfolding is_stored
is_stored_self k key o e h = rw ((same_key_iff (object_key k o) key).1 e) (ground arith)

-- A written object is read back, and all else is as it was.
module _ (k : Kind) (key : Key) (v : Option (Obj k)) (w w' : Server)
    (cells : w'.cells ≡ put k key v w.cells) where
  pub get_elsewhere :
      ((k' : Kind) (key' : Key)
        → Differ k key k' key'
        → listed k' key' w'.names ≡ listed k' key' w.names)
      → OnlyAt memory k key w w'
  unfolding memory
  get_elsewhere names k' key' d =
      get-eq_get k' key' w w' (rw cells (cell-put_ne k k' key key' v w.cells d)) (names k' key' d)

pub get_named :
    (k : Kind) (key : Key) (w : Server) (o : Obj k) → get k key w ≡ ok o → object_key k o ≡ key
get_named k key w o h =
    (same_key_iff (object_key k o) key).0 (is_stored_inv k key o (get-inv k key w o h).2).0

pub get_created :
    (k : Kind) (key : Key) (w : Server) (o : Obj k)
    → get k key w ≡ ok o
    → 0 < (meta_of k o).creation_timestamp
get_created k key w o h = (is_stored_inv k key o (get-inv k key w o h).2).1
