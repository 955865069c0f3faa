-- ===== src/Kube/Client/Laws.antt =====
-- What the operator relies on of the client, as documented by controller-runtime and Kubernetes.
-- Every call may fail at any time. A call that fails has changed nothing; replies that get lost,
-- stale caches and other writers between two calls of one reconcile are left out.
use mathlib.Core.List.{Memᴰ}
use ds_operator.Prelude.{
  ℕ, ◌<◌, String, true, Option, some, none, List, [], Dict, ◌≡◌, ◌≢◌, ◌↔◌, ◌⊎◌, inr, All, ◌∷◌,
  Result, Error, Action, ok, err, panic, not_found, lift, ◌>>=◌, matches,
}
use ds_operator.Kube.Meta.{Key, ObjectMeta, key_of}
use ds_operator.Kube.Volumes.{VolumeSnapshot}
use ds_operator.Kube.Objects.{Kind, Obj, meta_of, with_meta, with_status, object_key}
use ds_operator.Kube.Client.{Client, Mutate}

-- A map of labels or annotations as it is read: a nil map has no keys.
abbrev pub entries : Option (Dict String) → Dict String
entries (some d) = d
entries none = []

-- Two objects of the cluster, told apart by kind, namespace and name.
abbrev pub Differ : Kind → Key → Kind → Key → Type 0
Differ k key k' key' = k ≡ k' → key ≡ key' → ⊥

-- No two entries of a list of snapshots are one object.
abbrev pub Distinct : List VolumeSnapshot → Type 0
Distinct [] = Unit
Distinct (s ∷ l) = All (λ t. key_of s.meta ≢ key_of t.meta) l × Distinct l

-- `o` as the server stores a new object: it has a time and a uid of the server's.
pub record FreshFrom (k : Kind) (o o' : Obj k) : Type 0 where
  pub time : ℕ
  pub uid : String
  pub created : 0 < time
  pub content : o' ≡ with_meta k (record (meta_of k o) { creation_timestamp = time; uid = uid }) o

module _ {W : Type 0} (api : Client W) where
  -- Nothing but the object of that kind and key is another than before.
  abbrev pub OnlyAt : Kind → Key → W → W → Type 0
  OnlyAt k key w w' =
      (k' : Kind) (key' : Key) → Differ k key k' key' → api.get k' key' w' ≡ api.get k' key' w

  -- How CreateOrUpdate ends where there is no such object, and where there is one.
  abbrev pub create_branch : (k : Kind) {X : Type 0} → Result (Obj k × X) → Action W (Obj k × X)
  create_branch k r = do (o, x) ← lift r; o' ← api.create k o; λ w. (ok (o', x), w)

  abbrev pub update_branch : (k : Kind) {X : Type 0} → Result (Obj k × X) → Action W (Obj k × X)
  update_branch k r = do (o, x) ← lift r; o' ← api.update k o; λ w. (ok (o', x), w)

  pub record Accepted (k : Kind) (key : Key) (m : Action W (Obj k)) (w : W) (P : Obj k → Type 0)
      : Type 0 where
    pub object : Obj k
    pub after : W
    pub returns : m w ≡ (ok object, after)
    pub stored : api.get k key after ≡ ok object
    pub elsewhere : OnlyAt k key w after
    pub content : P object

  abbrev pub Refused : {A : Type 0} → Action W A → W → Type 0
  Refused m w = (e : Error) × (m w ≡ (err e, w))

  pub record IsLawful : Type 1 where
    pub get_no_panic : (k : Kind) (key : Key) (w : W) → api.get k key w ≢ panic
    pub get_named :
        (k : Kind) (key : Key) (w : W) (o : Obj k) → api.get k key w ≡ ok o → object_key k o ≡ key
    -- a stored object has been created at some time: `CreationTimestamp.IsZero` is false of it
    pub get_created :
        (k : Kind) (key : Key) (w : W) (o : Obj k)
        → api.get k key w ≡ ok o
        → 0 < (meta_of k o).creation_timestamp
    pub create_outcome :
        (k : Kind) (o : Obj k) (w : W)
        → Refused (api.create k o) w
          ⊎ Accepted k (object_key k o) (api.create k o) w (FreshFrom k o)
    pub update_outcome :
        (k : Kind) (o s : Obj k) (w : W)
        → api.get k (object_key k o) w ≡ ok s
        → Refused (api.update k o) w
          ⊎ Accepted k (object_key k o) (api.update k o) w (λ o'. o' ≡ with_status k s o)
    pub update_status_outcome :
        (k : Kind) (o s : Obj k) (w : W)
        → api.get k (object_key k o) w ≡ ok s
        → Refused (api.update_status k o) w
          ⊎ Accepted k (object_key k o) (api.update_status k o) w (λ o'. o' ≡ with_status k o s)
    pub delete_outcome :
        (k : Kind) (o : Obj k) (w : W)
        → Refused (api.delete k o) w
          ⊎ ((w' : W) × (api.delete k o w ≡ (ok tt, w'))
              × (api.get k (object_key k o) w' ≡ err not_found)
              × OnlyAt k (object_key k o) w w')
    pub list_iff :
        (ns : String) (labels : Dict String) (w : W) (l : List VolumeSnapshot)
        → api.list_snapshots ns labels w ≡ inr l
        → (s : VolumeSnapshot)
        → Memᴰ s l ↔ (
            (s.meta.namespace ≡ ns)
            × (matches labels (entries s.meta.labels) ≡ true)
            × (api.get Kind.snapshot (key_of s.meta) w ≡ ok s))
    pub list_distinct :
        (ns : String) (labels : Dict String) (w : W) (l : List VolumeSnapshot)
        → api.list_snapshots ns labels w ≡ inr l
        → Distinct l
    -- events are no objects of these kinds
    pub get-record_event :
        (reason text : String) (k : Kind) (key : Key) (w : W)
        → api.get k key (api.record_event reason text w) ≡ api.get k key w
    -- CreateOrUpdate: get, then mutate and create, or mutate and update what differs
    pub absent :
        (k : Kind) (X : Type 0) (o : Obj k) (f : Mutate W X k) (w : W)
        → api.get k (object_key k o) w ≡ err not_found
        → api.create_or_update k X o f w ≡ create_branch k (f w o) w
    pub present :
        (k : Kind) (X : Type 0) (o s : Obj k) (f : Mutate W X k) (w : W)
        → api.get k (object_key k o) w ≡ ok s
        → (api.create_or_update k X o f w ≡ update_branch k (f w s) w)
          ⊎ ((x : X) × (f w s ≡ ok (s, x)) × (api.create_or_update k X o f w ≡ (ok (s, x), w)))
    pub unreadable :
        (k : Kind) (X : Type 0) (o : Obj k) (f : Mutate W X k) (w : W) (e : Error)
        → api.get k (object_key k o) w ≡ err e
        → e ≢ not_found
        → api.create_or_update k X o f w ≡ (err e, w)
    -- an owner reference is all that these set, and they do not panic
    pub controller_reference :
        (kind : String) (owner m m' : ObjectMeta)
        → api.set_controller_reference kind owner m ≡ ok m'
        → m' ≡ record m { owner_references = m'.owner_references }
    pub owner_reference :
        (kind : String) (owner m m' : ObjectMeta)
        → api.set_owner_reference kind owner m ≡ ok m'
        → m' ≡ record m { owner_references = m'.owner_references }
    pub reference_no_panic :
        (kind : String) (owner m : ObjectMeta)
        → (api.set_controller_reference kind owner m ≢ panic)
          × (api.set_owner_reference kind owner m ≢ panic)
