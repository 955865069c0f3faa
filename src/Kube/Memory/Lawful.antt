-- ===== src/Kube/Memory/Lawful.antt =====
-- The client in memory meets the laws.
pub mod Reads
mod Writes
mod Select
use mathlib.Core.List.{Memᴰ}
use mathlib.Core.Logic.Or
use ds_operator.Prelude.{
  zero, suc, ◌<◌, String, Bool, true, false, Option, some, none, List, [], ◌∷◌, Dict, ◌≡◌, ◌≢◌,
  refl, sym, ap, ◌∙◌, ◌↔◌, ◌⊎◌, inl, inr, arith, eq_iff, ◌==◌, ◌&&◌, ◌||◌, ltb, if◌then◌else◌,
  Bool-cases, Result, Error, ok, err, panic, not_found, external, message, wrap, matches, decimal,
}
use ds_operator.Kube.Meta.{Key, ObjectMeta, key_of}
use ds_operator.Kube.Volumes.{VolumeSnapshot}
use ds_operator.Kube.Objects.{
  Kind, Obj, meta_of, with_meta, with_status, object_key, meta_of-with_meta, meta_of-with_status,
}
use ds_operator.Kube.Client.{Client, Mutate}
use ds_operator.Kube.Client.Laws.{
  entries, Differ, FreshFrom, OnlyAt, Accepted, Refused, IsLawful, create_branch, update_branch,
}
use ds_operator.Kube.Memory.{
  Server, memory, get, create, replace, delete, select, wanted, add_found, write, listed, is_stored,
  note_name, finish, create_or_update, own,
}
use ds_operator.Kube.Memory.Tables.{
  cell, put, same_key, same_key_iff, contains_key, cell-put_self, cell-put_ne,
}
use ds_operator.Kube.Memory.Lawful.Reads.{
  get-inv, get-eq_ok, get-eq_err, get-eq_get, listed-note_name_self, listed-note_name_ne,
  get-no_panic, is_stored_inv, is_stored_self, get_elsewhere, get_named, get_created,
}
use ds_operator.Kube.Memory.Lawful.Writes.{
  create_outcome, replace_outcome, delete_outcome, absent, present, unreadable,
}
use ds_operator.Kube.Memory.Lawful.Select.{
  Distinct-select, mem-add_found_if, mem-add_found, add_found-mem, add_found-mem_self, mem-select,
  select-mem, wanted_iff, list_iff,
}

inr-injective : {A B : Type 0} (a b : B) → ◌≡◌ {A = A ⊎ B} (inr a) (inr b) → a ≡ b
inr-injective a b h = cc

module _ (controller : Bool) (kind : String) (owner m : ObjectMeta) where
  own_lem :
      (m' : ObjectMeta)
      → own controller kind owner m ≡ ok m'
      → m' ≡ record m { owner_references = m'.owner_references }
  unfolding own
  own_lem m' h = ground arith

  own-no_panic : own controller kind owner m ≢ panic
  unfolding own
  own-no_panic h = cc

-- The client in memory meets the laws.
pub memory-IsLawful : IsLawful memory
unfolding memory
memory-IsLawful = record {
  get_no_panic = get-no_panic;
  get_named = get_named;
  get_created = get_created;
  create_outcome = create_outcome;
  update_outcome = λ k o s w h. replace_outcome k (λ t. with_status k t o) o s w h;
  update_status_outcome = λ k o s w h. replace_outcome k (λ t. with_status k o t) o s w h;
  delete_outcome = delete_outcome;
  list_iff = λ ns labels w l h s. rw (← inr-injective {A = Error} _ _ h) (list_iff ns labels w s);
  list_distinct = λ ns labels w l h.
      rw (← inr-injective {A = Error} _ _ h) (Distinct-select ns labels w w.names);
  get-record_event =
      λ reason text k key w. get-eq_get k key w (memory.record_event reason text w) refl refl;
  absent = λ k X o f w h. absent k X o o f w h;
  present = λ k X o s f w h. inl (present k X o s f w h);
  unreadable = unreadable;
  controller_reference = λ kind owner m m' h. own_lem true kind owner m m' h;
  owner_reference = λ kind owner m m' h. own_lem false kind owner m m' h;
  reference_no_panic =
      λ kind owner m. (own-no_panic true kind owner m, own-no_panic false kind owner m);
}
