-- ===== src/Passwords/Numbers.antt =====
-- strconv.ParseInt(s, 10, 64), as controllers/passwords.go calls it: `none` is its error.
pub mod RoundTrip
use Prim.Native.Char.{code}
use ds_operator.Prelude.{
  ℕ, ◌+◌, ◌*◌, ◌-◌, ℤ, pos, negsuc, String, Bool, ◌&&◌, Option, some, none, List, [], ◌∷◌,
  if◌then◌else◌, ltb, leb, ◌≡◌, refl,
}

-- The code points of a text.
abbrev pub codes : String → List ℕ
codes String.[] = []
codes (String.◌∷◌ c s) = code c ∷ codes s

unfoldable pub is_digit : ℕ → Bool
is_digit c = leb 48 c && leb c 57

-- The number of a sequence of digits, after what has been read.
parse_digits : ℕ → List ℕ → Option ℕ
unfolding is_digit
parse_digits acc [] = some acc
parse_digits acc (c ∷ cs) =
    let rest = parse_digits (10 * acc + (c - 48)) cs in if is_digit c then rest else none

-- At least one digit.
parse_unsigned : List ℕ → Option ℕ
unfolding parse_digits
parse_unsigned [] = none
parse_unsigned (c ∷ cs) = parse_digits 0 (c ∷ cs)

positive : Option ℕ → Option ℤ
positive none = none
positive (some n) = if ltb n 0x8000_0000_0000_0000 then some (pos n) else none

negative : Option ℕ → Option ℤ
negative none = none
negative (some n) =
    if ltb 0x8000_0000_0000_0000 n
    then none
    else if ltb 0 n
    then some (negsuc (n - 1))
    else some (pos 0)

-- A sign is read off first: 43 is `+` and 45 is `-`.
parse_signed : List ℕ → Option ℤ
unfolding parse_unsigned positive negative
parse_signed [] = none
parse_signed (c ∷ cs) =
    if leb c 43 && leb 43 c
    then positive (parse_unsigned cs)
    else if leb c 45 && leb 45 c
    then negative (parse_unsigned cs)
    else positive (parse_unsigned (c ∷ cs))

unfoldable pub parse_int : String → Option ℤ
unfolding parse_signed
parse_int s = parse_signed (codes s)

parse_int_runs :
    (parse_int "1700000059" ≡ some (pos 1_700_000_059)) × (parse_int "-12" ≡ some (negsuc 11))
unfolding parse_int
parse_int_runs = (refl, refl)
