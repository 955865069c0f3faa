-- ===== src/Prelude/Maps.antt =====
-- A Go map with text keys, as an association list. The order of the entries is the order in which
-- a `range` loop happens to meet them.
use Prim.Native.String.{String}
use mathlib.Core.Path.{◌≡◌, refl}
use mathlib.Core.Bool.{Bool, true, false, ◌&&◌}
use mathlib.Core.Option.{Option, none, some}
use mathlib.Core.List.{List, [], ◌∷◌}
use native.Mathlib.Omega.{arith}
use text.Mathlib.TextEquality.{eq_iff}
use ds_operator.Prelude.Tests.{if◌then◌else◌}
use ds_operator.Prelude.Text.{◌==◌}

abbrev pub Dict {ℓ} : Type ℓ → Type ℓ
Dict V = List (String × V)

module _ {ℓ} {V : Type ℓ} where
  unfoldable pub lookup : String → Dict V → Option V
  lookup key [] = none
  lookup key ((name, value) ∷ rest) = if name == key then some value else lookup key rest

  -- `m[key] = value`
  unfoldable pub insert : String → V → Dict V → Dict V
  insert key value [] = (key, value) ∷ []
  insert key value ((name, old) ∷ rest) =
      if name == key then (key, value) ∷ rest else (name, old) ∷ insert key value rest

  -- `for k, v := range source { target[k] = v }`
  unfoldable pub insert_all : Dict V → Dict V → Dict V
  unfolding insert
  insert_all target [] = target
  insert_all target ((k, v) ∷ source) = insert_all (insert k v target) source

  -- A real map holds a key once.
  abbrev pub NodupKeys : Dict V → Type ℓ
  NodupKeys [] = Unit
  NodupKeys ((k, v) ∷ m) = (lookup k m ≡ none) × NodupKeys m

  pub lookup-insert :
      (key other : String) (value : V) (m : Dict V)
      → lookup other (insert key value m) ≡ (if key == other then some value else lookup other m)
  unfolding lookup insert
  lookup-insert key other value [] = refl
  lookup-insert key other value ((name, old) ∷ rest) =
      let later = lookup-insert key other value rest in
      ground (arith, later, eq_iff name key, eq_iff key other, eq_iff name other)

  -- The value of a key in `source`, and otherwise in `target`.
  abbrev pub or_else : Option V → Option V → Option V
  or_else (some v) o = some v
  or_else none o = o

  -- The entries of `source` win.
  pub lookup-insert_all :
      (j : String) (target source : Dict V)
      → NodupKeys source
      → lookup j (insert_all target source) ≡ or_else (lookup j source) (lookup j target)
  unfolding lookup insert_all
  lookup-insert_all j target [] u = refl
  lookup-insert_all j target ((k, v) ∷ source) (fresh, u) = ground (
    arith,
    lookup-insert_all j (insert k v target) source u,
    lookup-insert k j v target,
    eq_iff k j,
  )

-- Every entry of `selector` is in `labels`: how Kubernetes matches a label selector.
unfoldable pub agrees : String → Option String → Bool
agrees v none = false
agrees v (some w) = v == w

unfoldable pub matches : Dict String → Dict String → Bool
unfolding lookup agrees
matches [] labels = true
matches ((k, v) ∷ selector) labels = agrees v (lookup k labels) && matches selector labels
