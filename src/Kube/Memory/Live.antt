-- ===== src/Kube/Memory/Live.antt =====
-- The server in memory accepts every write while there is no kind that it refuses.
use ds_operator.Prelude.{
  ◌∙◌, ◌≡◌, ap, sym, Bool, true, false, Option, some, none, Error, ok, err, not_found, ok-ne-err,
  if◌then◌else◌, Result,
}
use ds_operator.Kube.Meta.{Key, key_of}
use ds_operator.Kube.Objects.{Kind, Obj, object_key, with_status, meta_of-with_status}
use ds_operator.Kube.Client.Live.{LivelyAt, Accepting}
use ds_operator.Kube.Memory.{
  Server, memory, found, get, create, delete, replace, replace_found, is_stored, write,
}
use ds_operator.Kube.Memory.Lawful.Reads.{is_stored_self, get_named, get_created}

-- It refuses no kind of object, and the directory server beside it can be dialled.
abbrev pub Up : Server → Type 0
Up w = ((k : Kind) → w.refuses k ≡ false) × (w.reachable ≡ true)

err-injective : {A : Type 0} (x y : Error) → ◌≡◌ {A = Result A} (err x) (err y) → x ≡ y
err-injective x y h = cc

kept_or_absent :
    (k : Kind) (o : Obj k) (b : Bool) (e : Error)
    → ◌≡◌ {A = Result (Obj k)} (if b then ok o else err not_found) (err e)
    → e ≡ not_found
kept_or_absent k o true e h = absurd (ok-ne-err (sym h))
kept_or_absent k o false e h = sym (err-injective not_found e h)

found-absent :
    (k : Kind) (key : Key) (o : Option (Obj k)) (b : Bool) (e : Error)
    → found k key o b ≡ err e
    → e ≡ not_found
unfolding found
found-absent k key none b e h = sym (err-injective not_found e h)
found-absent k key (some o) b e h = kept_or_absent k o _ e h

module _ (w : Server) (up : Up w) where
  create-LivelyAt : (k : Kind) (o : Obj k) → LivelyAt Up (create k o w)
  unfolding create write
  create-LivelyAt k o = rw (up.0 k) ((λ e h. ok-ne-err (sym h)), up)

  replace-LivelyAt :
      (k : Kind) (merge : Obj k → Obj k) (o s : Obj k)
      → get k (object_key k o) w ≡ ok s
      → is_stored k (object_key k o) (merge s) ≡ true
      → LivelyAt Up (replace k merge o w)
  unfolding replace replace_found write
  replace-LivelyAt k merge o s g stored = rw (g, up.0 k, stored) ((λ e h. ok-ne-err (sym h)), up)

  delete-LivelyAt : (k : Kind) (o : Obj k) → LivelyAt Up (delete k o w)
  unfolding delete write
  delete-LivelyAt k o = rw (up.0 k) ((λ e h. ok-ne-err (sym h)), up)

pub memory-Accepting : Accepting Up (λ k w o. Unit {0}) memory
unfolding memory get
memory-Accepting = record {
  reads = λ k key w e up h. found-absent k key _ _ e h;
  creates = λ k o w up absent fine. create-LivelyAt w up k o;
  updates = λ k o s w up g time fine.
      replace-LivelyAt w up k (λ t. with_status k t o) o s g
        (is_stored_self k (object_key k o) (with_status k s o)
          (ap key_of (meta_of-with_status k s o)) (rw (meta_of-with_status k s o) time));
  updates_status = λ k o s w up g fine.
      replace-LivelyAt w up k (λ t. with_status k o t) o s g
        (is_stored_self k (object_key k o) (with_status k o s)
          (ap key_of (meta_of-with_status k o s) ∙ get_named k (object_key k o) w s g)
          (rw (meta_of-with_status k o s) (get_created k (object_key k o) w s g)));
  deletes = λ k o s w up there. delete-LivelyAt w up k o;
  after_delete = λ k o w up. (delete-LivelyAt w up k o).1;
  lists = λ ns labels w e up h. cc;
  events = λ reason text w up. up;
}
