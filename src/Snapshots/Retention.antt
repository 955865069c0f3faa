-- ===== src/Snapshots/Retention.antt =====
-- controllers/snapshots.go: how many snapshots are retained, and which.
use mathlib.Core.List.{Memᴰ}
use ds_operator.Prelude.{
  ℕ, zero, suc, ◌-◌, ◌≤◌, ◌<◌, ℤ, pos, negsuc, ◌-ℤ◌, ◌≡◌, ◌≢◌, refl, ap, ◌∙◌, ◌⊎◌, inl, inr, Error,
  panic, List, [], ◌∷◌, All, arith, take, drop, length, length-drop, Ends, Ends_mono, Ends_at, none,
}
use ds_operator.Kube.Meta.{key_of}
use ds_operator.Kube.Volumes.{VolumeSnapshot}
use ds_operator.Kube.Client.{Client}
use ds_operator.Kube.Client.Laws.{IsLawful, Distinct}
use ds_operator.Api.Types.{DirectoryService}
use ds_operator.Labels.{create_labels}
use ds_operator.Snapshots.Listing.{get_snapshot_list, sorted_reply}
use ds_operator.Snapshots.Sorting.{age, IsAscending, sort_by_time, sort_by_time-IsAscending}
use ds_operator.Snapshots.Sorting.Members.{
  All-at, mem-sort_by_time, length-sort_by_time, Distinct-sort_by_time,
}
use ds_operator.Snapshots.Pruning.{Deleted, prune-ends, purge-ends, snapshot_at}
use ds_operator.Snapshots.{prune, prune_listed, prune_snapshots, num_to_delete, rounds}

mem-take : {x : VolumeSnapshot} (n : ℕ) (l : List VolumeSnapshot) → Memᴰ x (take n l) → Memᴰ x l
mem-take zero l m = elim m [ ]
mem-take (suc n) [] m = elim m [ ]
mem-take (suc n) (y ∷ l) m = elim m [
  | Memᴰ.head e ↦ Memᴰ.head e
  | Memᴰ.tail m' ↦ Memᴰ.tail (mem-take n l m')
]

mem-drop : {x : VolumeSnapshot} (n : ℕ) (l : List VolumeSnapshot) → Memᴰ x (drop n l) → Memᴰ x l
mem-drop zero l m = m
mem-drop (suc n) [] m = elim m [ ]
mem-drop (suc n) (y ∷ l) m = Memᴰ.tail (mem-drop n l m)

mem-split :
    {x : VolumeSnapshot} (n : ℕ) (l : List VolumeSnapshot)
    → Memᴰ x l
    → Memᴰ x (take n l) ⊎ Memᴰ x (drop n l)
mem-split zero l m = inr m
mem-split (suc n) [] m = elim m [ ]
mem-split (suc n) (y ∷ l) m = elim m [
  | Memᴰ.head e ↦ inl (Memᴰ.head e)
  | Memᴰ.tail m' ↦ elim (mem-split n l m') [ inl a ↦ inl (Memᴰ.tail a) | inr b ↦ inr b ]
]

-- In a sorted list what comes first is no younger.
split_older :
    (n : ℕ) (l : List VolumeSnapshot)
    → IsAscending l
    → (s t : VolumeSnapshot) → Memᴰ s (take n l)
    → Memᴰ t (drop n l)
    → age s ≤ age t
split_older zero l h s t m k = elim m [ ]
split_older (suc n) [] h s t m k = elim m [ ]
split_older (suc n) (y ∷ l) h s t m k = elim m [
  | Memᴰ.head e ↦ rw e (All-at (λ u. age y ≤ age u) l h.0 (mem-drop n l k))
  | Memᴰ.tail m' ↦ split_older n l h.1 s t m' k
]

length-take : (n : ℕ) (l : List VolumeSnapshot) → n ≤ length l → length (take n l) ≡ n
length-take zero l h = refl
length-take (suc n) [] h = omega arith
length-take (suc n) (x ∷ l) h = omega (arith, length-take n l (omega arith))

-- A key of the second part is none of the first part.
split_apart :
    (n : ℕ) (l : List VolumeSnapshot)
    → Distinct l
    → (t : VolumeSnapshot) → Memᴰ t (drop n l)
    → All (λ s. key_of s.meta ≢ key_of t.meta) (take n l)
split_apart zero l d t k = tt
split_apart (suc n) [] d t k = tt
split_apart (suc n) (y ∷ l) d t k =
    (All-at (λ u. key_of y.meta ≢ key_of u.meta) l d.0 (mem-drop n l k), split_apart n l d.1 t k)

module _ {W : Type 0} (api : Client W) (ds : DirectoryService) where
  -- The snapshots with the operator's labels that the server lists.
  abbrev pub listing : W → Error ⊎ List VolumeSnapshot
  listing w = api.list_snapshots ds.meta.namespace (create_labels ds.meta.name ds.kind none) w

  -- The snapshots `l` that were listed in `w` are split: the oldest are deleted so that `r` remain,
  -- and the others are kept.
  pub record Pruned (r : ℕ) (l : List VolumeSnapshot) (w w' : W) : Type 0 where
    pub gone : List VolumeSnapshot
    pub kept : List VolumeSnapshot
    pub all : (s : VolumeSnapshot) → Memᴰ s l → Memᴰ s gone ⊎ Memᴰ s kept
    pub gone_listed : (s : VolumeSnapshot) → Memᴰ s gone → Memᴰ s l
    pub kept_listed : (s : VolumeSnapshot) → Memᴰ s kept → Memᴰ s l
    pub number : length gone ≡ length l - r
    pub number_kept : length kept ≤ r
    pub oldest : (s t : VolumeSnapshot) → Memᴰ s gone → Memᴰ t kept → age s ≤ age t
    pub deleted : Deleted api gone w w'
    pub stays :
        (t : VolumeSnapshot)
        → Memᴰ t kept
        → snapshot_at api (key_of t.meta) w' ≡ snapshot_at api (key_of t.meta) w

  num_to_delete_pos :
      (r : ℕ) (l : List VolumeSnapshot) (x : ℤ)
      → x ≡ pos r
      → rounds (pos (length l) -ℤ x) ≡ length l - r
  unfolding rounds ◌-ℤ◌
  num_to_delete_pos r l x e = rw e (ground arith)

  num_to_delete_negative :
      (m : ℕ) (l : List VolumeSnapshot) (x : ℤ)
      → x ≡ negsuc m
      → length l < rounds (pos (length l) -ℤ x)
  unfolding rounds ◌-ℤ◌
  num_to_delete_negative m l x e = rw e (ground arith)

  Pruned-intro :
      (r : ℕ) (l : List VolumeSnapshot) (w w' : W)
      → Distinct l
      → Deleted api (take (length l - r) (sort_by_time l)) w w'
      → Pruned r l w w'
  Pruned-intro r l w w' d del =
      let n = length l - r in
      let s = sort_by_time l in
      let same = length-sort_by_time l in
      record {
        gone = take n s;
        kept = drop n s;
        all = λ x m. mem-split n s ((mem-sort_by_time x l).1 m);
        gone_listed = λ x m. (mem-sort_by_time x l).0 (mem-take n s m);
        kept_listed = λ x m. (mem-sort_by_time x l).0 (mem-drop n s m);
        number = length-take n s (omega (arith, same));
        number_kept = omega (arith, same, length-drop n s);
        oldest = split_older n s (sort_by_time-IsAscending l);
        deleted = del;
        stays =
            λ t m. del.elsewhere (key_of t.meta) (split_apart n s (Distinct-sort_by_time l d) t m);
      }

  module _ (law : IsLawful api) where
    listed_ends :
        (r : ℕ) (w : W) (reply : Error ⊎ List VolumeSnapshot)
        → ds.spec.snapshots.snapshots_retained ≡ pos r
        → listing w ≡ reply
        → Ends
            (prune_listed api ds (sorted_reply reply))
            w
            (λ _ w'. (l : List VolumeSnapshot) × (listing w ≡ inr l) × Pruned r l w w')
            (λ e w'. (listing w ≡ inl e) × (w' ≡ w))
    unfolding prune_listed sorted_reply num_to_delete
    listed_ends r w (inl e) retained h = Ends.fails e w refl (h, refl)
    listed_ends r w (inr l) retained h =
        let s = sort_by_time l in
        let distinct = law.list_distinct _ _ w l h in
        let count = num_to_delete_pos r s ds.spec.snapshots.snapshots_retained retained in
        let same = ap (λ x. x - r) (length-sort_by_time l) in
        Ends_at (ap (λ n. prune api n s w) (count ∙ same)) (
          Ends_mono (λ x w' d. (l, h, Pruned-intro r l w w' distinct d)) (λ e w' q. absurd q)
            (prune-ends api law (length l - r) s w (omega (arith, length-sort_by_time l))
              (Distinct-sort_by_time l distinct)))

    -- The pruning loop, with a number `r` of snapshots to retain that is not negative, does not
    -- panic. If the list of snapshots cannot be read it fails with that error and does nothing.
    -- Otherwise it returns, and of the listed snapshots it has deleted the oldest, as many as
    -- there are above `r` (each is gone, or its delete was refused and it is as it was), has kept
    -- the others, at most `r` of them and none older than a deleted one, and has touched nothing
    -- else.
    pub prune_snapshots-Pruned :
        (r : ℕ) (w : W)
        → ds.spec.snapshots.snapshots_retained ≡ pos r
        → Ends
            (prune_snapshots api ds)
            w
            (λ _ w'. (l : List VolumeSnapshot) × (listing w ≡ inr l) × Pruned r l w w')
            (λ e w'. (listing w ≡ inl e) × (w' ≡ w))
    unfolding prune_snapshots get_snapshot_list
    prune_snapshots-Pruned r w retained = Ends_at refl (listed_ends r w (listing w) retained refl)

    past_the_end :
        (m : ℕ) (items : List VolumeSnapshot) (w : W)
        → length items < m
        → Distinct items
        → (prune api m items w).0 ≡ panic
    unfolding prune
    past_the_end zero items w h d = absurd (omega arith)
    past_the_end (suc m) [] w h d = refl
    past_the_end (suc m) (s ∷ items) w h d = elim (purge-ends api law s w) [
      | Ends.returns x w' e p ↦ rw e (past_the_end m items w' (omega arith) d.1)
      | Ends.fails e w' h' q ↦ absurd q
    ]

    -- With a negative number to retain the loop runs past the end of the list, and panics, whenever
    -- the list of snapshots can be read.
    pub prune_snapshots_negative :
        (m : ℕ) (w : W) (l : List VolumeSnapshot)
        → ds.spec.snapshots.snapshots_retained ≡ negsuc m
        → listing w ≡ inr l
        → (prune_snapshots api ds w).0 ≡ panic
    unfolding prune_snapshots get_snapshot_list prune_listed sorted_reply num_to_delete
    prune_snapshots_negative m w l retained h =
        let s = sort_by_time l in
        rw h (
          past_the_end (num_to_delete s ds) s w
            (num_to_delete_negative m s ds.spec.snapshots.snapshots_retained retained)
            (Distinct-sort_by_time l (law.list_distinct _ _ w l h)))
