-- ===== src/Ldap/Times.antt =====
-- pkg/ldap/client.go, directoryTime2Time and time2DirectoryTimeString: time.Parse and Format with the
-- layout 20060102150500, that is year, month, day, hour, second, and the literal 00.
pub mod RoundTrip
use ds_operator.Prelude.{
  ℕ, zero, suc, ◌+◌, ◌*◌, ◌-◌, ◌/◌, ◌%◌, ◌^◌, String, ◌<>◌, Bool, true, false, ◌&&◌, ◌||◌, not,
  Option, some, none, List, [], ◌∷◌, ltb, leb, if◌then◌else◌, digit, decimal, Result, ok, err,
  message, Error, ◌≡◌, refl, length,
}
use ds_operator.Passwords.Numbers.{codes, is_digit}

-- A time of UTC.
pub record Time : Type 0 where
  pub year : ℕ
  pub month : ℕ
  pub day : ℕ
  pub hour : ℕ
  pub minute : ℕ
  pub second : ℕ
  pub nanosecond : ℕ

-- Numbers are padded with zeros to the width of their place.
unfoldable pub two : ℕ → String
two n = if ltb n 100 then digit (n / 10) <> digit (n % 10) else decimal n

unfoldable pub four : ℕ → String
four n =
    if ltb n 10000
    then digit (n / 1000) <> (digit (n / 100 % 10) <> (digit (n / 10 % 10) <> digit (n % 10)))
    else decimal n

unfoldable pub time2_directory_time_string : Time → String
time2_directory_time_string t =
    four t.year <> (two t.month <> (two t.day <> (two t.hour <> (two t.second <> "00"))))

-- A reader takes a number off the front of the codes.
abbrev pub Reader : Type 0
Reader = List ℕ → Option (ℕ × List ℕ)

value : ℕ → ℕ
value c = c - 48

unfoldable pub read_two : Reader
unfolding is_digit value
read_two [] = none
read_two (a ∷ []) = none
read_two (a ∷ b ∷ rest) =
    if is_digit a && is_digit b then some (10 * value a + value b, rest) else none

-- The hour may have one digit only.
unfoldable pub read_hour : Reader
unfolding is_digit value
read_hour [] = none
read_hour (a ∷ []) = if is_digit a then some (value a, []) else none
read_hour (a ∷ b ∷ rest) =
    if is_digit a
    then if is_digit b then some (10 * value a + value b, rest) else some (value a, b ∷ rest)
    else none

unfoldable pub read_four : Reader
unfolding is_digit value
read_four (a ∷ b ∷ c ∷ d ∷ rest) =
    if is_digit a && (is_digit b && (is_digit c && is_digit d))
    then some (1000 * value a + (100 * value b + (10 * value c + value d)), rest)
    else none
read_four l = none

-- The digits at the front, and the rest.
unfoldable pub span_digits : List ℕ → List ℕ × List ℕ
unfolding is_digit
span_digits [] = ([], [])
span_digits (c ∷ l) =
    let (ds, rest) = span_digits l in if is_digit c then (c ∷ ds, rest) else ([], c ∷ l)

-- The nanoseconds of the digits of a fraction: at most nine count.
unfoldable pub nanoseconds : ℕ → List ℕ → ℕ
unfolding value
nanoseconds zero l = 0
nanoseconds (suc places) [] = 0
nanoseconds (suc places) (c ∷ l) = value c * 10 ^ places + nanoseconds places l

-- A fraction after the seconds is read although the layout has none.
unfoldable pub read_fraction : Reader
unfolding is_digit span_digits nanoseconds
read_fraction (p ∷ c ∷ rest) =
    let (ds, rest') = span_digits (c ∷ rest) in
    if (leb p 46 && leb 46 p || leb p 44 && leb 44 p) && is_digit c
    then some (nanoseconds 9 ds, rest')
    else some (0, p ∷ c ∷ rest)
read_fraction l = some (0, l)

abbrev pub is_leap : ℕ → Bool
is_leap y = leb (y % 4) 0 && (not (leb (y % 100) 0) || leb (y % 400) 0)

unfoldable pub days_in : ℕ → ℕ → ℕ
days_in month year =
    if leb month 2 && leb 2 month
    then if is_leap year then 29 else 28
    else if (leb month 4 && leb 4 month)
        || ((leb month 6 && leb 6 month)
            || ((leb month 9 && leb 9 month) || (leb month 11 && leb 11 month)))
    then 30
    else 31

-- One error stands for all that time.Parse tells apart.
abbrev pub bad_time : Result Time
bad_time = err (message "cannot parse time")

-- `f` on what has been read, if it is in the range.
abbrev pub reading : Option (ℕ × List ℕ) → (ℕ → Bool) → (ℕ → List ℕ → Result Time) → Result Time
reading none fine f = bad_time
reading (some (n, rest)) fine f = if fine n then f n rest else bad_time

abbrev pub anything : ℕ → Bool
anything n = true

-- The literal zeros, and nothing after them.
unfoldable pub at_end : List ℕ → Bool
at_end (a ∷ b ∷ []) = (leb a 48 && leb 48 a) && (leb b 48 && leb 48 b)
at_end l = false

unfoldable pub parse_time : List ℕ → Result Time
parse_time l = reading (read_four l) anything (λ year l1.
    reading (read_two l1) (λ m. ltb 0 m && leb m 12)
      (λ month l2. reading (read_two l2) anything (λ day l3.
        reading (read_hour l3) (λ h. ltb h 24)
          (λ hour l4.
            reading (read_two l4) (λ s. ltb s 60)
              (λ second l5. reading (read_fraction l5) anything (λ nanosecond l6.
                if at_end l6 && (ltb 0 day && leb day (days_in month year))
                then ok (record {
                  year = year;
                  month = month;
                  day = day;
                  hour = hour;
                  minute = 0;
                  second = second;
                  nanosecond = nanosecond;
                })
                else bad_time))))))

unfoldable pub directory_time2_time : String → Result Time
unfolding parse_time
directory_time2_time s = parse_time (codes s)

written :
    time2_directory_time_string (record {
      year = 2023;
      month = 7;
      day = 9;
      hour = 14;
      minute = 35;
      second = 6;
      nanosecond = 8;
    })
    ≡ "20230709140600"
unfolding time2_directory_time_string two four digit
written = refl

read_back :
    directory_time2_time "20230709140600"
    ≡ ok (record {
      year = 2023;
      month = 7;
      day = 9;
      hour = 14;
      minute = 0;
      second = 6;
      nanosecond = 0;
    })
unfolding directory_time2_time read_two read_four read_hour read_fraction at_end days_in
read_back = refl
