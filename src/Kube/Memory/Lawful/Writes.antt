-- ===== src/Kube/Memory/Lawful/Writes.antt =====
-- Kube/Memory: how each write ends.
use ds_operator.Prelude.{
  suc, some, none, ◌≡◌, ◌≢◌, refl, ap, ◌⊎◌, inl, inr, arith, Bool-cases, Error, ok, err, not_found,
  external, message, wrap, decimal,
}
use ds_operator.Kube.Meta.{ObjectMeta, key_of}
use ds_operator.Kube.Objects.{Kind, Obj, meta_of, with_meta, object_key, meta_of-with_meta}
use ds_operator.Kube.Client.{Mutate}
use ds_operator.Kube.Client.Laws.{
  FreshFrom, OnlyAt, Accepted, Refused, create_branch, update_branch,
}
use ds_operator.Kube.Memory.{
  Server, memory, get, create, replace, delete, write, is_stored, note_name, create_or_update,
}
use ds_operator.Kube.Memory.Tables.{cell-put_self}
use ds_operator.Kube.Memory.Lawful.Reads.{
  get-inv, get-eq_ok, get-eq_err, listed-note_name_self, listed-note_name_ne, is_stored_self,
  get_elsewhere,
}

pub create_outcome :
    (k : Kind) (o : Obj k) (w : Server)
    → Refused memory (create k o) w
      ⊎ Accepted memory k (object_key k o) (create k o) w (FreshFrom k o)
unfolding create memory
create_outcome k o w = elim (Bool-cases (w.refuses k)) [
  | inl e ↦ inl (external "refused", rw e)
  | inr e ↦
      let m : ObjectMeta = record (meta_of k o) {
        creation_timestamp = suc w.clock;
        uid = decimal w.clock;
      } in
      let key = object_key k o in
      let o' = with_meta k m o in
      let w' : Server = record (write k key (some o') w) {
        names = note_name k key w.names;
        clock = suc w.clock;
      } in
      let km : meta_of k o' ≡ m = meta_of-with_meta k m o in
      inr (record {
        object = o';
        after = w';
        returns = rw e;
        stored =
            get-eq_ok k key o' w' (cell-put_self k key (some o') w.cells)
              (listed-note_name_self k key w.names)
              (is_stored_self k key o' (ap key_of km) (rw km (omega arith)));
        elsewhere =
            get_elsewhere k key (some o') w w' refl
              (λ k' key' d. listed-note_name_ne k k' key key' w.names d);
        content = record {
          time = suc w.clock;
          uid = decimal w.clock;
          created = omega arith;
          content = refl;
        };
      })
]

pub replace_outcome :
    (k : Kind) (merge : Obj k → Obj k) (o s : Obj k) (w : Server)
    → get k (object_key k o) w ≡ ok s
    → Refused memory (replace k merge o) w
      ⊎ Accepted memory k (object_key k o) (replace k merge o) w (λ o'. o' ≡ merge s)
unfolding replace memory
replace_outcome k merge o s w h = elim (Bool-cases (w.refuses k)) [
  | inl e ↦ inl (external "refused", rw (h, e))
  | inr e ↦ elim (Bool-cases (is_stored k (object_key k o) (merge s))) [
    | inr n ↦ inl (external "invalid", rw (h, e, n))
    | inl y ↦
        let key = object_key k o in
        let w' : Server = write k key (some (merge s)) w in
        inr (record {
          object = merge s;
          after = w';
          returns = rw (h, e, y);
          stored =
              get-eq_ok k key (merge s) w' (cell-put_self k key (some (merge s)) w.cells)
                ((get-inv k key w s h).1) y;
          elsewhere = get_elsewhere k key (some (merge s)) w w' refl (λ k' key' d. refl);
          content = refl;
        })
  ]
]

pub delete_outcome :
    (k : Kind) (o : Obj k) (w : Server)
    → Refused memory (delete k o) w
      ⊎ ((w' : Server) × (delete k o w ≡ (ok tt, w'))
          × (get k (object_key k o) w' ≡ err not_found)
          × OnlyAt memory k (object_key k o) w w')
unfolding delete memory
delete_outcome k o w = elim (Bool-cases (w.refuses k)) [
  | inl e ↦ inl (external "refused", rw e)
  | inr e ↦
      let key = object_key k o in
      let w' : Server = write k key none w in
      inr (
        w',
        rw e,
        get-eq_err k key w' (cell-put_self k key none w.cells),
        get_elsewhere k key none w w' refl (λ k' key' d. refl),
      )
]

module _ (k : Kind) (X : Type 0) (o s : Obj k) (f : Mutate Server X k) (w : Server) where
  pub absent :
      get k (object_key k o) w ≡ err not_found
      → create_or_update k X o f w ≡ create_branch memory k (f w o) w
  unfolding create_or_update memory
  absent h = rw h

  pub present :
      get k (object_key k o) w ≡ ok s
      → create_or_update k X o f w ≡ update_branch memory k (f w s) w
  unfolding create_or_update memory
  present h = rw h

pub unreadable :
    (k : Kind) (X : Type 0) (o : Obj k) (f : Mutate Server X k) (w : Server) (e : Error)
    → get k (object_key k o) w ≡ err e
    → e ≢ not_found
    → create_or_update k X o f w ≡ (err e, w)
unfolding create_or_update
unreadable k X o f w not_found h n = absurd (n refl)
unreadable k X o f w (external m) h n = rw h
unreadable k X o f w (message m) h n = rw h
unreadable k X o f w (wrap m e) h n = rw h
