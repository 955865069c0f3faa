-- ===== src/Snapshots/Sorting.antt =====
-- sort.Slice by the creation time, as `getSnapshotList` calls it: oldest first.
-- The insertion sort here keeps the order of equal times; Go's need not on long lists.
pub mod Members
use mathlib.Core.List.{Memᴰ}
use ds_operator.Prelude.{
  ℕ, ◌≤◌, Bool, true, false, ◌≡◌, refl, ◌⊎◌, inl, inr, Option, some, none, List, [], ◌∷◌, ltb,
  if◌then◌else◌, All, arith, length, Bool-cases, get_last?,
}
use ds_operator.Kube.Volumes.{VolumeSnapshot}

abbrev pub age : VolumeSnapshot → ℕ
age s = s.meta.creation_timestamp

insert_by_time : VolumeSnapshot → List VolumeSnapshot → List VolumeSnapshot
insert_by_time s [] = s ∷ []
insert_by_time s (t ∷ l) = if ltb (age s) (age t) then s ∷ t ∷ l else t ∷ insert_by_time s l

sort_from : List VolumeSnapshot → List VolumeSnapshot → List VolumeSnapshot
unfolding insert_by_time
sort_from sorted [] = sorted
sort_from sorted (s ∷ l) = sort_from (insert_by_time s sorted) l

unfoldable pub sort_by_time : List VolumeSnapshot → List VolumeSnapshot
unfolding sort_from
sort_by_time = sort_from []

abbrev pub IsAscending : List VolumeSnapshot → Type 0
IsAscending [] = Unit
IsAscending (s ∷ l) = All (λ t. age s ≤ age t) l × IsAscending l

All-insert_by_time :
    (P : VolumeSnapshot → Type 0) (s : VolumeSnapshot) (l : List VolumeSnapshot)
    → P s
    → All P l
    → All P (insert_by_time s l)
unfolding insert_by_time
All-insert_by_time P s [] p h = (p, tt)
All-insert_by_time P s (t ∷ l) p h = elim (Bool-cases (ltb (age s) (age t))) [
  | inl e ↦ rw e (p, h)
  | inr e ↦ rw e (h.0, All-insert_by_time P s l p h.1)
]

All-mono :
    (P Q : VolumeSnapshot → Type 0)
    → ((t : VolumeSnapshot) → P t → Q t)
    → (l : List VolumeSnapshot) → All P l
    → All Q l
All-mono P Q f [] h = tt
All-mono P Q f (t ∷ l) h = (f t h.0, All-mono P Q f l h.1)

insert_by_time-IsAscending :
    (s : VolumeSnapshot) (l : List VolumeSnapshot)
    → IsAscending l
    → IsAscending (insert_by_time s l)
unfolding insert_by_time
insert_by_time-IsAscending s [] h = (tt, tt)
insert_by_time-IsAscending s (t ∷ l) h = elim (Bool-cases (ltb (age s) (age t))) [
  | inl e ↦ rw e (
    (ground arith, All-mono (λ u. age t ≤ age u) (λ u. age s ≤ age u) (λ u p. ground arith) l h.0),
    h,
  )
  | inr e ↦ rw e (
    All-insert_by_time (λ u. age t ≤ age u) s l (ground arith) h.0,
    insert_by_time-IsAscending s l h.1,
  )
]

sort_from-IsAscending :
    (sorted l : List VolumeSnapshot) → IsAscending sorted → IsAscending (sort_from sorted l)
unfolding sort_from
sort_from-IsAscending sorted [] h = h
sort_from-IsAscending sorted (s ∷ l) h =
    sort_from-IsAscending (insert_by_time s sorted) l (insert_by_time-IsAscending s sorted h)

pub sort_by_time-IsAscending : (l : List VolumeSnapshot) → IsAscending (sort_by_time l)
unfolding sort_by_time
sort_by_time-IsAscending l = sort_from-IsAscending [] l tt
