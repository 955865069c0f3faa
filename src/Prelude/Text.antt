-- ===== src/Prelude/Text.antt =====
-- Texts: their comparison, and `%d` of `fmt.Sprintf`, which is also `strconv.Itoa` and `FormatInt`.
use Prim.Native.Nat.{ℕ, zero, suc, ◌/◌, ◌%◌}
use Prim.Native.String.{String, ◌++◌}
use mathlib.Core.Path.{◌≡◌, refl}
use mathlib.Core.Bool.{Bool}
use ds_operator.Prelude.Tests.{ltb, if◌then◌else◌}
use mathlib.Core.List.{List, [], ◌∷◌}
use mathlib.Core.Option.{Option, some, none}
use ds_operator.Prelude.Lists.{get_elem?}
use ds_operator.Prelude.Int.{ℤ, pos, negsuc}
use text.Mathlib.Text

infix 50 ◌==◌
abbrev pub ◌==◌ : String → String → Bool
s == t = Text.◌==◌ s t

abbrev digit_names : List String
digit_names = "0" ∷ "1" ∷ "2" ∷ "3" ∷ "4" ∷ "5" ∷ "6" ∷ "7" ∷ "8" ∷ "9" ∷ []

name_of : Option String → String
name_of none = ""
name_of (some d) = d

unfoldable pub digit : ℕ → String
unfolding name_of
digit n = name_of (get_elem? digit_names n)

-- The first argument bounds the number of digits.
unfoldable pub digits : ℕ → ℕ → String
unfolding digit
digits zero n = ""
digits (suc f) n =
    let rest = digits f (n / 10) in if ltb n 10 then digit n else rest ++ digit (n % 10)

unfoldable pub decimal : ℕ → String
unfolding digits
decimal n = digits (suc n) n

unfoldable pub decimal_ℤ : ℤ → String
unfolding decimal
decimal_ℤ (pos n) = decimal n
decimal_ℤ (negsuc n) = "-" ++ decimal (suc n)

decimal_runs : decimal_ℤ (pos 1_700_000_059) ≡ "1700000059"
unfolding decimal_ℤ
decimal_runs = refl
