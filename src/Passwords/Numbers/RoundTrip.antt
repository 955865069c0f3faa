-- ===== src/Passwords/Numbers/RoundTrip.antt =====
-- controllers/passwords.go: strconv.ParseInt reads what strconv.FormatInt has written.
use Prim.Native.Char.{code}
use Prim.Native.Nat.{◌/◌, ◌%◌}
use text.Mathlib.TextLemmas.{nil-append, cons-append}
use ds_operator.Prelude.{
  ℕ, zero, suc, ◌+◌, ◌*◌, ◌-◌, ◌<◌, ◌≤◌, pos, String, ◌<>◌, false, Bool-cases, inl, inr, ltb, leb,
  ◌&&◌, Option, some, none, List, [], ◌∷◌, ◌++◌, ◌≡◌, refl, sym, ap, ◌∙◌, arith, digit, digits,
  decimal, decimal_ℤ,
}
use ds_operator.Passwords.Numbers.{
  codes, is_digit, parse_digits, parse_unsigned, parse_signed, parse_int, positive,
}

pub codes-append : (s t : String) → codes (s <> t) ≡ codes s ++ codes t
codes-append String.[] t = ap codes (nil-append t)
codes-append (String.◌∷◌ c s) t =
    ap codes (cons-append c s t) ∙ ap (λ l. code c ∷ l) (codes-append s t)

go_on : Option ℕ → List ℕ → Option ℕ
go_on none cs = none
go_on (some a) cs = parse_digits a cs

parse_digits-append :
    (acc : ℕ) (xs ys : List ℕ) → parse_digits acc (xs ++ ys) ≡ go_on (parse_digits acc xs) ys
unfolding parse_digits go_on
parse_digits-append acc [] ys = refl
parse_digits-append acc (c ∷ xs) ys = elim (Bool-cases (is_digit c)) [
  | inl e ↦ rw e (parse_digits-append (10 * acc + (c - 48)) xs ys)
  | inr e ↦ rw e refl
]

pub codes-digit : (n : ℕ) → n < 10 → codes (digit n) ≡ (48 + n) ∷ []
unfolding digit
codes-digit zero h = refl
codes-digit (suc zero) h = refl
codes-digit (suc (suc zero)) h = refl
codes-digit (suc (suc (suc zero))) h = refl
codes-digit (suc (suc (suc (suc zero)))) h = refl
codes-digit (suc (suc (suc (suc (suc zero))))) h = refl
codes-digit (suc (suc (suc (suc (suc (suc zero)))))) h = refl
codes-digit (suc (suc (suc (suc (suc (suc (suc zero))))))) h = refl
codes-digit (suc (suc (suc (suc (suc (suc (suc (suc zero)))))))) h = refl
codes-digit (suc (suc (suc (suc (suc (suc (suc (suc (suc zero))))))))) h = refl
codes-digit (suc (suc (suc (suc (suc (suc (suc (suc (suc (suc n)))))))))) h = absurd (omega arith)

parse_digit : (acc n : ℕ) → n < 10 → parse_digits acc ((48 + n) ∷ []) ≡ some (10 * acc + n)
unfolding parse_digits is_digit
parse_digit acc n h = ground arith

continue_with : (a d : ℕ) → d < 10 → go_on (some a) ((48 + d) ∷ []) ≡ some (10 * a + d)
unfolding go_on
continue_with a d h = parse_digit a d h

-- The text of a number: not empty, and read as the number.
record Reads (n : ℕ) (l : List ℕ) : Type 0 where
  first : ℕ
  others : List ℕ
  shape : l ≡ first ∷ others
  value : parse_digits 0 l ≡ some n

Reads-digits : (f n : ℕ) → n < f → Reads n (codes (digits f n))
unfolding digits
Reads-digits zero n h = absurd (omega arith)
Reads-digits (suc f) n h = elim (Bool-cases (ltb n 10)) [
  | inl e ↦ rw e (small n (ground arith))
  | inr e ↦ rw e (large n (digits f (n / 10)) (Reads-digits f (n / 10) (ground arith)))
]
  where
    small : (n : ℕ) → n < 10 → Reads n (codes (digit n))
    small n h = record {
      first = 48 + n;
      others = [];
      shape = codes-digit n h;
      value =
          ap (parse_digits 0) (codes-digit n h)
          ∙ parse_digit 0 n h
          ∙ ap (λ x. some x) (omega arith);
    }

    large : (n : ℕ) (s : String) → Reads (n / 10) (codes s) → Reads n (codes (s <> digit (n % 10)))
    large n s r =
        let low : n % 10 < 10 = ground arith in
        let split : codes (s <> digit (n % 10)) ≡ codes s ++ ((48 + n % 10) ∷ []) =
          codes-append s (digit (n % 10)) ∙ ap (λ l. codes s ++ l) (codes-digit (n % 10) low) in
        record {
          first = r.first;
          others = r.others ++ ((48 + n % 10) ∷ []);
          shape = split ∙ ap (λ l. l ++ ((48 + n % 10) ∷ [])) r.shape;
          value =
              ap (parse_digits 0) split
              ∙ parse_digits-append 0 (codes s) ((48 + n % 10) ∷ [])
              ∙ ap (λ o. go_on o ((48 + n % 10) ∷ [])) r.value
              ∙ continue_with (n / 10) (n % 10) low
              ∙ ap (λ x. some x) (ground arith);
        }

digit_first : (c : ℕ) (cs : List ℕ) (n : ℕ) → parse_digits 0 (c ∷ cs) ≡ some n → 48 ≤ c
unfolding parse_digits is_digit
digit_first c cs n h = ground arith

same_tests : (c : ℕ) → 48 ≤ c → ((leb c 43 && leb 43 c) ≡ false) × ((leb c 45 && leb 45 c) ≡ false)
same_tests c h = (ground arith, ground arith)

-- A digit is no sign.
unsigned :
    (c : ℕ) (cs : List ℕ) (n : ℕ)
    → parse_digits 0 (c ∷ cs) ≡ some n
    → parse_signed (c ∷ cs) ≡ positive (some n)
unfolding parse_signed parse_unsigned
unsigned c cs n h =
    let (plus, minus) = same_tests c (digit_first c cs n h) in rw (plus, minus) (ap positive h)

-- ParseInt reads the decimal text of a number below 2^63 as that number.
pub parse_int-decimal_ℤ :
    (n : ℕ) → n < 0x8000_0000_0000_0000 → parse_int (decimal_ℤ (pos n)) ≡ some (pos n)
unfolding parse_int decimal_ℤ decimal positive
parse_int-decimal_ℤ n h =
    let r = Reads-digits (suc n) n (omega arith) in
    ap parse_signed r.shape
    ∙ unsigned r.first r.others n (ap (parse_digits 0) (sym r.shape) ∙ r.value)
    ∙ ground arith
