-- ===== src/Snapshots/Sorting/Members.antt =====
-- The sorted list of snapshots holds the same snapshots.
use mathlib.Core.List.{Memᴰ}
use mathlib.Core.Option.{some-injective}
use ds_operator.Prelude.{
  suc, ◌+◌, ◌≤◌, ◌≡◌, ◌≢◌, refl, sym, ◌⊎◌, inl, inr, ◌↔◌, some, none, List, [], ◌∷◌, ltb, All,
  arith, length, Bool-cases, get_last?,
}
use ds_operator.Kube.Meta.{key_of}
use ds_operator.Kube.Volumes.{VolumeSnapshot}
use ds_operator.Kube.Client.Laws.{Distinct}
use ds_operator.Snapshots.Sorting.{
  age, insert_by_time, sort_from, sort_by_time, IsAscending, All-insert_by_time,
}

module _ (x : VolumeSnapshot) where
  mem-insert_by_time :
      (s : VolumeSnapshot) (l : List VolumeSnapshot) → Memᴰ x (insert_by_time s l) ↔ Memᴰ x (s ∷ l)
  unfolding insert_by_time
  mem-insert_by_time s [] = (λ h. h, λ h. h)
  mem-insert_by_time s (t ∷ l) = elim (Bool-cases (ltb (age s) (age t))) [
    | inl e ↦ rw e (λ h. h, λ h. h)
    | inr e ↦ rw e (to (mem-insert_by_time s l).0, from (mem-insert_by_time s l).1)
  ]
    where
      to :
          (Memᴰ x (insert_by_time s l) → Memᴰ x (s ∷ l))
          → Memᴰ x (t ∷ insert_by_time s l)
          → Memᴰ x (s ∷ t ∷ l)
      to ih (Memᴰ.head p) = Memᴰ.tail (Memᴰ.head p)
      to ih (Memᴰ.tail m) = past (ih m)
        where
          past : Memᴰ x (s ∷ l) → Memᴰ x (s ∷ t ∷ l)
          past (Memᴰ.head p) = Memᴰ.head p
          past (Memᴰ.tail m) = Memᴰ.tail (Memᴰ.tail m)

      from :
          (Memᴰ x (s ∷ l) → Memᴰ x (insert_by_time s l))
          → Memᴰ x (s ∷ t ∷ l)
          → Memᴰ x (t ∷ insert_by_time s l)
      from ih (Memᴰ.head p) = Memᴰ.tail (ih (Memᴰ.head p))
      from ih (Memᴰ.tail (Memᴰ.head p)) = Memᴰ.head p
      from ih (Memᴰ.tail (Memᴰ.tail m)) = Memᴰ.tail (ih (Memᴰ.tail m))

  before :
      (s : VolumeSnapshot) (sorted l : List VolumeSnapshot)
      → Memᴰ x (s ∷ sorted) ⊎ Memᴰ x l
      → Memᴰ x sorted ⊎ Memᴰ x (s ∷ l)
  before s sorted l (inl (Memᴰ.head p)) = inr (Memᴰ.head p)
  before s sorted l (inl (Memᴰ.tail m)) = inl m
  before s sorted l (inr m) = inr (Memᴰ.tail m)

  after :
      (s : VolumeSnapshot) (sorted l : List VolumeSnapshot)
      → Memᴰ x sorted ⊎ Memᴰ x (s ∷ l)
      → Memᴰ x (s ∷ sorted) ⊎ Memᴰ x l
  after s sorted l (inl m) = inl (Memᴰ.tail m)
  after s sorted l (inr (Memᴰ.head p)) = inl (Memᴰ.head p)
  after s sorted l (inr (Memᴰ.tail m)) = inr m

  mem-sort_from :
      (sorted l : List VolumeSnapshot) → Memᴰ x (sort_from sorted l) ↔ (Memᴰ x sorted ⊎ Memᴰ x l)
  unfolding sort_from
  mem-sort_from sorted [] = (λ h. inl h, λ h. elim h [ inl m ↦ m | inr m ↦ elim m [ ] ])
  mem-sort_from sorted (s ∷ l) =
      let (f, g) = mem-sort_from (insert_by_time s sorted) l in
      let (f', g') = mem-insert_by_time s sorted in
      (
        λ h. before s sorted l (elim (f h) [ inl m ↦ inl (f' m) | inr m ↦ inr m ]),
        λ h. g (elim (after s sorted l h) [ inl m ↦ inl (g' m) | inr m ↦ inr m ]),
      )

  pub mem-sort_by_time : (l : List VolumeSnapshot) → Memᴰ x (sort_by_time l) ↔ Memᴰ x l
  unfolding sort_by_time
  mem-sort_by_time l =
      let (f, g) = mem-sort_from [] l in
      (λ h. elim (f h) [ inl m ↦ elim m [ ] | inr m ↦ m ], λ m. g (inr m))

length-insert_by_time :
    (s : VolumeSnapshot) (l : List VolumeSnapshot) → length (insert_by_time s l) ≡ suc (length l)
unfolding insert_by_time
length-insert_by_time s [] = refl
length-insert_by_time s (t ∷ l) = ground (arith, length-insert_by_time s l)

length-sort_from :
    (sorted l : List VolumeSnapshot) → length (sort_from sorted l) ≡ length sorted + length l
unfolding sort_from
length-sort_from sorted [] = omega arith
length-sort_from sorted (s ∷ l) =
    omega (arith, length-sort_from (insert_by_time s sorted) l, length-insert_by_time s sorted)

pub length-sort_by_time : (l : List VolumeSnapshot) → length (sort_by_time l) ≡ length l
unfolding sort_by_time
length-sort_by_time l = omega (arith, length-sort_from [] l)

Distinct-insert_by_time :
    (s : VolumeSnapshot) (l : List VolumeSnapshot)
    → All (λ t. key_of s.meta ≢ key_of t.meta) l
    → Distinct l
    → Distinct (insert_by_time s l)
unfolding insert_by_time
Distinct-insert_by_time s [] fresh d = (tt, tt)
Distinct-insert_by_time s (t ∷ l) fresh d = elim (Bool-cases (ltb (age s) (age t))) [
  | inl e ↦ rw e (fresh, d)
  | inr e ↦ rw e (
    All-insert_by_time (λ u. key_of t.meta ≢ key_of u.meta) s l (λ p. fresh.0 (sym p)) d.0,
    Distinct-insert_by_time s l fresh.1 d.1,
  )
]

Distinct-sort_from :
    (sorted l : List VolumeSnapshot)
    → All (λ t. All (λ u. key_of t.meta ≢ key_of u.meta) sorted) l
    → Distinct sorted
    → Distinct l
    → Distinct (sort_from sorted l)
unfolding sort_from
Distinct-sort_from sorted [] fresh d e = d
Distinct-sort_from sorted (s ∷ l) fresh d e =
    Distinct-sort_from (insert_by_time s sorted) l (spread l fresh.1 e.0)
      (Distinct-insert_by_time s sorted fresh.0 d) e.1
  where
    spread :
        (r : List VolumeSnapshot)
        → All (λ t. All (λ u. key_of t.meta ≢ key_of u.meta) sorted) r
        → All (λ t. key_of s.meta ≢ key_of t.meta) r
        → All (λ t. All (λ u. key_of t.meta ≢ key_of u.meta) (insert_by_time s sorted)) r
    spread [] f n = tt
    spread (t ∷ r) f n = (
      All-insert_by_time (λ u. key_of t.meta ≢ key_of u.meta) s sorted (λ p. n.0 (sym p)) f.0,
      spread r f.1 n.1,
    )

All-of_nil :
    (l : List VolumeSnapshot)
    → All (λ t. All {A = VolumeSnapshot} (λ u. key_of t.meta ≢ key_of u.meta) []) l
All-of_nil [] = tt
All-of_nil (s ∷ l) = (tt, All-of_nil l)

pub Distinct-sort_by_time : (l : List VolumeSnapshot) → Distinct l → Distinct (sort_by_time l)
unfolding sort_by_time
Distinct-sort_by_time l d = Distinct-sort_from [] l (All-of_nil l) tt d

pub All-at :
    (P : VolumeSnapshot → Type 0) {s : VolumeSnapshot} (l : List VolumeSnapshot)
    → All P l
    → Memᴰ s l
    → P s
All-at P [] h m = elim m [ ]
All-at P (x ∷ l) h (Memᴰ.head p) = rw p h.0
All-at P (x ∷ l) h (Memᴰ.tail m) = All-at P l h.1 m

-- The last of an ascending list is one of it, and none is younger.
pub get_last?-IsAscending :
    (l : List VolumeSnapshot) (s : VolumeSnapshot)
    → IsAscending l
    → get_last? l ≡ some s
    → Memᴰ s l × ((t : VolumeSnapshot) → Memᴰ t l → age t ≤ age s)
get_last?-IsAscending [] s a h = cc
get_last?-IsAscending (x ∷ []) s a h = (Memᴰ.head (sym (some-injective x s h)), only)
  where
    only : (t : VolumeSnapshot) → Memᴰ t (x ∷ []) → age t ≤ age s
    only t (Memᴰ.head p) = rw (p, some-injective x s h) (omega arith)
    only t (Memᴰ.tail m) = elim m [ ]
get_last?-IsAscending (x ∷ y ∷ l) s a h =
    let (m, f) = get_last?-IsAscending (y ∷ l) s a.1 h in (Memᴰ.tail m, older m f)
  where
    older :
        Memᴰ s (y ∷ l)
        → ((t : VolumeSnapshot) → Memᴰ t (y ∷ l) → age t ≤ age s)
        → (t : VolumeSnapshot) → Memᴰ t (x ∷ y ∷ l)
        → age t ≤ age s
    older m f t (Memᴰ.head p) = rw p (All-at (λ u. age x ≤ age u) (y ∷ l) a.0 m)
    older m f t (Memᴰ.tail m') = f t m'

pub get_last?-eq_none :
    (l : List VolumeSnapshot) (s : VolumeSnapshot) → get_last? l ≡ none → Memᴰ s l → ⊥
get_last?-eq_none [] s h m = elim m [ ]
get_last?-eq_none (x ∷ []) s h m = cc
get_last?-eq_none (x ∷ y ∷ l) s h m = get_last?-eq_none (y ∷ l) y h (Memᴰ.head refl)
