-- ===== src/Kube/Memory.antt =====
-- An API server kept in memory: a client that meets the laws, for examples. Writes to the kinds in
-- `refuses` fail.
pub mod Tables
pub mod Lawful
pub mod Beside
pub mod Live
use ds_operator.Prelude.{
  ℕ, suc, String, Bool, true, false, Option, some, none, List, [], ◌∷◌, Dict, if◌then◌else◌, ◌&&◌,
  ltb, Result, Error, Action, ok, err, panic, not_found, external, matches, decimal, inr, ◌==◌,
  ◌>>=◌, lift,
}
use ds_operator.Kube.Meta.{Key, ObjectMeta, OwnerReference, key_of}
use ds_operator.Kube.Volumes.{VolumeSnapshot}
use ds_operator.Kube.Objects.{Kind, Obj, meta_of, with_meta, with_status, object_key}
use ds_operator.Kube.Client.{Client, Mutate}
use ds_operator.Kube.Client.Laws.{entries}
use ds_operator.Kube.Memory.Tables.{Cells, cell, put, same_key, contains_key}

pub record Server : Type 0 where
  pub cells : Cells
  -- the keys at which there may be a snapshot, for lists
  pub names : List Key
  pub clock : ℕ
  pub events : List (String × String)
  pub refuses : Kind → Bool
  -- the directory server beside it: passwords, open connections, and whether it can be reached
  pub directory : Dict String
  pub connections : ℕ
  pub reachable : Bool

unfoldable pub listed : Kind → Key → List Key → Bool
unfolding contains_key
listed Kind.snapshot key names = contains_key key names
listed _ key names = true

unfoldable pub is_stored : (k : Kind) → Key → Obj k → Bool
unfolding same_key
is_stored k key o = same_key (object_key k o) key && ltb 0 (meta_of k o).creation_timestamp

found : (k : Kind) → Key → Option (Obj k) → Bool → Result (Obj k)
found k key none b = err not_found
found k key (some o) b = if b && is_stored k key o then ok o else err not_found

unfoldable pub get : (k : Kind) → Key → Server → Result (Obj k)
unfolding found
get k key w = found k key (cell k key w.cells) (listed k key w.names)

unfoldable pub note_name : Kind → Key → List Key → List Key
note_name Kind.snapshot key names = key ∷ names
note_name _ key names = names

unfoldable pub write : (k : Kind) → Key → Option (Obj k) → Server → Server
write k key o w = record w { cells = put k key o w.cells }

unfoldable pub create : (k : Kind) → Obj k → Action Server (Obj k)
unfolding note_name
create k o w =
    let key = object_key k o in
    let m = record (meta_of k o) { creation_timestamp = suc w.clock; uid = decimal w.clock } in
    let o' = with_meta k m o in
    if w.refuses k then (err (external "refused"), w) else (
      ok o',
      record (write k key (some o') w) { names = note_name k key w.names; clock = suc w.clock },
    )

-- The server refuses an object that is not there, and one that claims to be uncreated.
replace_found : (k : Kind) → Result (Obj k) → (Obj k → Obj k) → Obj k → Action Server (Obj k)
replace_found k (err e) merge o w = (err e, w)
replace_found k panic merge o w = (panic, w)
replace_found k (ok s) merge o w =
    if w.refuses k
    then (err (external "refused"), w)
    else if is_stored k (object_key k o) (merge s)
    then (ok (merge s), write k (object_key k o) (some (merge s)) w)
    else (err (external "invalid"), w)

unfoldable pub replace : (k : Kind) → (Obj k → Obj k) → Obj k → Action Server (Obj k)
unfolding replace_found
replace k merge o w = replace_found k (get k (object_key k o) w) merge o w

unfoldable pub delete : (k : Kind) → Obj k → Action Server (Unit {0})
delete k o w =
    if w.refuses k then (err (external "refused"), w) else (ok tt, write k (object_key k o) none w)

-- The snapshots under the given keys that are in the namespace and have the labels.
unfoldable pub wanted : String → Dict String → VolumeSnapshot → Bool
unfolding matches
wanted ns labels s = s.meta.namespace == ns && matches labels (entries s.meta.labels)

unfoldable pub add_found :
    (VolumeSnapshot → Bool) → Result VolumeSnapshot → List VolumeSnapshot → List VolumeSnapshot
add_found test (ok s) rest = if test s then s ∷ rest else rest
add_found test _ rest = rest

unfoldable pub select : String → Dict String → List Key → Server → List VolumeSnapshot
select ns labels [] w = []
select ns labels (key ∷ names) w =
    let rest = select ns labels names w in
    if contains_key key names
    then rest
    else add_found (wanted ns labels) (get Kind.snapshot key w) rest

finish :
    (k : Kind) {X : Type 0}
    → Result (Obj k × X)
    → (Obj k → Action Server (Obj k))
    → Action Server (Obj k × X)
finish k r act = do (o, x) ← lift r; o' ← act o; λ w. (ok (o', x), w)

-- Objects are always written back, changed or not.
apply_found :
    (k : Kind) (X : Type 0) → Result (Obj k) → Obj k → Mutate Server X k → Action Server (Obj k × X)
unfolding finish
apply_found k X (ok s) o f w = finish k (f w s) (λ o'. replace k (λ t. with_status k t o') o') w
apply_found k X panic o f w = (panic, w)
apply_found k X (err not_found) o f w = finish k (f w o) (create k) w
apply_found k X (err e) o f w = (err e, w)

unfoldable pub create_or_update :
    (k : Kind) (X : Type 0) → Obj k → Mutate Server X k → Action Server (Obj k × X)
unfolding apply_found
create_or_update k X o f w = apply_found k X (get k (object_key k o) w) o f w

unfoldable pub own : Bool → String → ObjectMeta → ObjectMeta → Result ObjectMeta
own controller kind owner m =
    let r : OwnerReference = record {
      api_version = "directory.forgerock.io/v1alpha1";
      kind = kind;
      name = owner.name;
      uid = owner.uid;
      is_controller = controller;
    } in
    ok (record m { owner_references = r ∷ [] })

unfoldable pub memory : Client Server
unfolding get create replace delete select create_or_update own write put cell listed is_stored
    decimal matches
memory = record {
  get = get;
  create = create;
  update = λ k o. replace k (λ s. with_status k s o) o;
  update_status = λ k o. replace k (λ s. with_status k o s) o;
  delete = delete;
  list_snapshots = λ ns labels w. inr (select ns labels w.names w);
  record_event = λ reason text w. record w { events = (reason, text) ∷ w.events };
  create_or_update = create_or_update;
  set_controller_reference = own true;
  set_owner_reference = own false;
}

-- The same, for runs: naming it unfolds the whole server.
unfoldable pub running : Client Server
unfolding memory get create replace delete select create_or_update own write put cell listed
    is_stored decimal matches
running = memory
