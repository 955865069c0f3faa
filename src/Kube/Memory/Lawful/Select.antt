-- ===== src/Kube/Memory/Lawful/Select.antt =====
-- Kube/Memory: the snapshots that are listed.
use mathlib.Core.List.{Memᴰ}
use ds_operator.Prelude.{
  String, Bool, true, false, List, [], ◌∷◌, Dict, ◌≡◌, refl, sym, ap, ◌↔◌, ◌⊎◌, inl, inr, arith,
  eq_iff, if◌then◌else◌, Bool-cases, Result, ok, err, panic, matches, All, ◌||◌, ◌≢◌,
}
use ds_operator.Kube.Meta.{Key, key_of}
use ds_operator.Kube.Volumes.{VolumeSnapshot}
use ds_operator.Kube.Objects.{Kind}
use ds_operator.Kube.Client.Laws.{Distinct, entries}
use ds_operator.Kube.Memory.{Server, get, select, wanted, add_found, listed}
use ds_operator.Kube.Memory.Tables.{same_key, same_key_iff, contains_key}
use ds_operator.Kube.Memory.Lawful.Reads.{get-inv, get_named}

module _ (test : VolumeSnapshot → Bool) (s : VolumeSnapshot) where
  pub mem-add_found_if :
      (t : VolumeSnapshot) (rest : List VolumeSnapshot) (b : Bool)
      → test t ≡ b
      → Memᴰ s (if b then t ∷ rest else rest)
      → ((ok t ≡ ok s) × (test s ≡ true)) ⊎ Memᴰ s rest
  mem-add_found_if t rest true e (Memᴰ.head p) = inl (ap ok (sym p), rw p e)
  mem-add_found_if t rest true e (Memᴰ.tail h) = inr h
  mem-add_found_if t rest false e h = inr h

  pub mem-add_found :
      (r : Result VolumeSnapshot) (rest : List VolumeSnapshot)
      → Memᴰ s (add_found test r rest)
      → ((r ≡ ok s) × (test s ≡ true)) ⊎ Memᴰ s rest
  unfolding add_found
  mem-add_found (ok t) rest h = mem-add_found_if t rest (test t) refl h
  mem-add_found (err e) rest h = inr h
  mem-add_found panic rest h = inr h

  pub add_found-mem :
      (r : Result VolumeSnapshot) (rest : List VolumeSnapshot)
      → Memᴰ s rest
      → Memᴰ s (add_found test r rest)
  unfolding add_found
  add_found-mem (ok t) rest h = elim (Bool-cases (test t)) [
    | inl e ↦ rw e (Memᴰ.tail h)
    | inr e ↦ rw e h
  ]
  add_found-mem (err e) rest h = h
  add_found-mem panic rest h = h

  pub add_found-mem_self :
      (r : Result VolumeSnapshot) (rest : List VolumeSnapshot)
      → r ≡ ok s
      → test s ≡ true
      → Memᴰ s (add_found test r rest)
  unfolding add_found
  add_found-mem_self r rest e t = rw (e, t) (Memᴰ.head refl)

-- A key that is found again under its equal.
contains_later :
    (a key : Key) (names : List Key)
    → contains_key key names ≡ true
    → (same_key a key || contains_key a names) ≡ true
    → contains_key a names ≡ true
contains_later a key names later c = elim (Bool-cases (same_key a key)) [
  | inl same ↦ rw ((same_key_iff a key).0 same) later
  | inr other ↦ rw other at c
]

or_right : (a b : Bool) → b ≡ true → (a || b) ≡ true
or_right true b h = refl
or_right false b h = h

not_both : (b : Bool) → b ≡ false → b ≡ true → ⊥
not_both b p q = cc

mem-if :
    {s : VolumeSnapshot} (b : Bool) (xs ys : List VolumeSnapshot)
    → Memᴰ s (if b then xs else ys)
    → Memᴰ s xs ⊎ Memᴰ s ys
mem-if true xs ys h = inl h
mem-if false xs ys h = inr h

module _ (ns : String) (labels : Dict String) (w : Server) (s : VolumeSnapshot) where
  pub mem-select :
      (names : List Key)
      → Memᴰ s (select ns labels names w)
      → (wanted ns labels s ≡ true) × (get Kind.snapshot (key_of s.meta) w ≡ ok s)
  unfolding select
  mem-select [] h = elim h [ ]
  mem-select (key ∷ names) h = elim (mem-if (contains_key key names) _ _ h) [
    | inl m ↦ mem-select names m
    | inr m ↦
        elim (mem-add_found (wanted ns labels) s (get Kind.snapshot key w)
          (select ns labels names w) m) [
            | inl (e, t) ↦ (t, rw (get_named Kind.snapshot key w s e) e)
            | inr m' ↦ mem-select names m'
          ]
  ]

  module _ (t : wanted ns labels s ≡ true) (e : get Kind.snapshot (key_of s.meta) w ≡ ok s) where
    -- The step at a key that is not listed again later.
    select_last :
        (key : Key) (rest : List VolumeSnapshot) (b : Bool)
        → same_key (key_of s.meta) key ≡ b
        → (b ≡ false → Memᴰ s rest)
        → Memᴰ s (add_found (wanted ns labels) (get Kind.snapshot key w) rest)
    select_last key rest true same h =
        add_found-mem_self (wanted ns labels) s (get Kind.snapshot key w) rest
          (rw ((same_key_iff (key_of s.meta) key).0 same) at e) t
    select_last key rest false same h =
        add_found-mem (wanted ns labels) s (get Kind.snapshot key w) rest (h refl)

    pub select-mem :
        (names : List Key)
        → contains_key (key_of s.meta) names ≡ true
        → Memᴰ s (select ns labels names w)
    unfolding select contains_key
    select-mem [] c = cc
    select-mem (key ∷ names) c = elim (Bool-cases (contains_key key names)) [
      | inl later ↦ rw later (select-mem names (contains_later (key_of s.meta) key names later c))
      | inr last ↦ rw last (
          select_last key (select ns labels names w) (same_key (key_of s.meta) key) refl
            (λ other. select-mem names (rw other at c)))
    ]

-- A list of snapshots that are read under their keys has each key once.
module _ (ns : String) (labels : Dict String) (w : Server) where
  absent_key :
      (key : Key) (names : List Key) (l : List VolumeSnapshot)
      → ((s : VolumeSnapshot) → Memᴰ s l → contains_key (key_of s.meta) names ≡ true)
      → contains_key key names ≡ false
      → All (λ s. key ≢ key_of s.meta) l
  absent_key key names [] h n = tt
  absent_key key names (s ∷ l) h n = (
    λ p. not_both (contains_key key names) n (rw p (h s (Memᴰ.head refl))),
    absent_key key names l (λ t m. h t (Memᴰ.tail m)) n,
  )

  -- What is listed stands under one of the keys.
  select-listed :
      (s : VolumeSnapshot) (names : List Key)
      → Memᴰ s (select ns labels names w)
      → contains_key (key_of s.meta) names ≡ true
  unfolding select contains_key
  select-listed s [] h = elim h [ ]
  select-listed s (key ∷ names) h = elim (mem-if (contains_key key names) _ _ h) [
    | inl m ↦ or_right (same_key (key_of s.meta) key) _ (select-listed s names m)
    | inr m ↦
        elim (mem-add_found (wanted ns labels) s (get Kind.snapshot key w)
          (select ns labels names w) m) [
            | inl (e, t) ↦
                rw ((same_key_iff (key_of s.meta) key).1 (get_named Kind.snapshot key w s e))
            | inr m' ↦ or_right (same_key (key_of s.meta) key) _ (select-listed s names m')
          ]
  ]

  Distinct-add_found :
      (key : Key) (r : Result VolumeSnapshot) (rest : List VolumeSnapshot)
      → ((s : VolumeSnapshot) → r ≡ ok s → key_of s.meta ≡ key)
      → All (λ t. key ≢ key_of t.meta) rest
      → Distinct rest
      → Distinct (add_found (wanted ns labels) r rest)
  unfolding add_found
  Distinct-add_found key (ok s) rest named fresh d = elim (Bool-cases (wanted ns labels s)) [
    | inl e ↦ rw e (rw (named s refl) fresh, d)
    | inr e ↦ rw e d
  ]
  Distinct-add_found key (err e) rest named fresh d = d
  Distinct-add_found key panic rest named fresh d = d

  pub Distinct-select : (names : List Key) → Distinct (select ns labels names w)
  unfolding select
  Distinct-select [] = tt
  Distinct-select (key ∷ names) = elim (Bool-cases (contains_key key names)) [
    | inl later ↦ rw later (Distinct-select names)
    | inr last ↦ rw last (
        Distinct-add_found key (get Kind.snapshot key w) (select ns labels names w)
          (λ s e. get_named Kind.snapshot key w s e)
          (absent_key key names (select ns labels names w) (λ s m. select-listed s names m) last)
          (Distinct-select names))
  ]

pub wanted_iff :
    (ns : String) (labels : Dict String) (s : VolumeSnapshot)
    → (wanted ns labels s ≡ true)
      ↔ ((s.meta.namespace ≡ ns) × (matches labels (entries s.meta.labels) ≡ true))
unfolding wanted
wanted_iff ns labels s = ground (arith, eq_iff s.meta.namespace ns)

pub list_iff :
    (ns : String) (labels : Dict String) (w : Server) (s : VolumeSnapshot)
    → Memᴰ s (select ns labels w.names w) ↔ (
        (s.meta.namespace ≡ ns)
        × (matches labels (entries s.meta.labels) ≡ true)
        × (get Kind.snapshot (key_of s.meta) w ≡ ok s))
unfolding listed
list_iff ns labels w s = (
  λ h.
      let (t, e) = mem-select ns labels w s w.names h in
      let (n, m) = (wanted_iff ns labels s).0 t in (n, m, e),
  λ h.
      select-mem ns labels w s ((wanted_iff ns labels s).1 (h.0, h.1)) h.2 w.names
        (get-inv Kind.snapshot (key_of s.meta) w s h.2).1,
)
