-- ===== src/Prelude/Actions.antt =====
-- Go calls with an error result. What was written before an error stays written, so the world comes
-- back beside it. A panic (a nil map that is written, a nil pointer that is read, an index out of
-- range) ends the whole call.
use Prim.Native.String.{String}

-- An `error` value: the API's NotFound, any other error of the outside, a message of the program,
-- and `errors.Wrap`.
pub data Error : Type 0 where
  not_found : Error
  external : String → Error
  message : String → Error
  wrap : String → Error → Error

pub data Result {ℓ} (A : Type ℓ) : Type ℓ where
  ok : A → Result A
  err : Error → Result A
  panic : Result A

abbrev pub Action : Type 0 → Type 0 → Type 0
Action W A = W → Result A × W

module _ {W A : Type 0} where
  abbrev pub pure : A → Action W A
  pure a w = (ok a, w)

  abbrev pub raise : Error → Action W A
  raise e w = (err e, w)

  abbrev pub crash : Action W A
  crash w = (panic, w)

  abbrev pub lift : Result A → Action W A
  lift r w = (r, w)

module _ {W A B : Type 0} where
  abbrev pub continue : Result A → (A → Action W B) → Action W B
  continue (ok a) f w = f a w
  continue (err e) f w = (err e, w)
  continue panic f w = (panic, w)

  infixl 5 ◌>>=◌
  abbrev pub ◌>>=◌ : Action W A → (A → Action W B) → Action W B
  ◌>>=◌ m f w = continue (m w).0 f (m w).1

-- What a call does with an `error` result that it does not pass on.
module _ {W A B : Type 0} where
  abbrev pub handle : Result A → (A → Action W B) → (Error → Action W B) → Action W B
  handle (ok a) f g w = f a w
  handle (err e) f g w = g e w
  handle panic f g w = (panic, w)

  abbrev pub try_else : Action W A → (A → Action W B) → (Error → Action W B) → Action W B
  try_else m f g w = handle (m w).0 f g (m w).1

-- A call whose error is logged and forgotten.
abbrev pub ignore : {W A : Type 0} → Action W A → Action W (Unit {0})
ignore m = try_else m (λ _. pure tt) (λ _. pure tt)
