-- ===== src/Ldap/Times/RoundTrip.antt =====
-- pkg/ldap/client.go: a time that is written and read back.
use ds_operator.Prelude.{
  ℕ, ◌+◌, ◌/◌, ◌%◌, ◌<◌, ◌≤◌, String, ◌<>◌, true, some, List, [], ◌∷◌, ◌++◌, ◌≡◌, refl, ap, ◌∙◌,
  arith, digit, ok, leb, ltb, ◌&&◌,
}
use ds_operator.Passwords.Numbers.{codes}
use ds_operator.Passwords.Numbers.RoundTrip.{codes-append, codes-digit}
use ds_operator.Ldap.Times.{
  Time, two, four, time2_directory_time_string, directory_time2_time, parse_time, read_two,
  read_hour, read_four, read_fraction, at_end, days_in,
}

-- The codes of a number of two digits, and of four, before others.
abbrev twos : ℕ → List ℕ → List ℕ
twos n l = (48 + n / 10) ∷ (48 + n % 10) ∷ l

abbrev fours : ℕ → List ℕ → List ℕ
fours n l = (48 + n / 1000) ∷ (48 + n / 100 % 10) ∷ (48 + n / 10 % 10) ∷ (48 + n % 10) ∷ l

codes-digit_before : (d : ℕ) (s : String) → d < 10 → codes (digit d <> s) ≡ (48 + d) ∷ codes s
codes-digit_before d s h = codes-append (digit d) s ∙ ap (λ l. l ++ codes s) (codes-digit d h)

two_small : (n : ℕ) → n < 100 → two n ≡ digit (n / 10) <> digit (n % 10)
unfolding two
two_small n h = ground arith

four_small :
    (n : ℕ)
    → n < 10000
    → four n ≡ digit (n / 1000) <> (digit (n / 100 % 10) <> (digit (n / 10 % 10) <> digit (n % 10)))
unfolding four
four_small n h = ground arith

codes-two : (n : ℕ) (s : String) → n < 100 → codes (two n <> s) ≡ twos n (codes s)
codes-two n s h =
    let one = codes-digit_before (n / 10) (digit (n % 10)) (omega arith) in
    let last = codes-digit (n % 10) (omega arith) in
    ap (λ x. codes (x <> s)) (two_small n h)
    ∙ codes-append (digit (n / 10) <> digit (n % 10)) s
    ∙ ap (λ l. l ++ codes s) (one ∙ ap (λ l. (48 + n / 10) ∷ l) last)

codes-four : (n : ℕ) (s : String) → n < 10000 → codes (four n <> s) ≡ fours n (codes s)
codes-four n s h =
    let third = digit (n / 10 % 10) <> digit (n % 10) in
    let second = digit (n / 100 % 10) <> third in
    let first = codes-digit_before (n / 1000) second (omega arith) in
    let next = codes-digit_before (n / 100 % 10) third (omega arith) in
    let then' = codes-digit_before (n / 10 % 10) (digit (n % 10)) (omega arith) in
    let last = codes-digit (n % 10) (omega arith) in
    ap (λ x. codes (x <> s)) (four_small n h)
    ∙ codes-append (digit (n / 1000) <> second) s
    ∙ ap (λ l. l ++ codes s)
        (first
          ∙ ap (λ l. (48 + n / 1000) ∷ l)
              (next
                ∙ ap (λ l. (48 + n / 100 % 10) ∷ l)
                    (then' ∙ ap (λ l. (48 + n / 10 % 10) ∷ l) last)))

read_two_lem : (n : ℕ) (l : List ℕ) → n < 100 → read_two (twos n l) ≡ some (n, l)
unfolding read_two
read_two_lem n l h = ground arith

read_hour_lem : (n : ℕ) (l : List ℕ) → n < 100 → read_hour (twos n l) ≡ some (n, l)
unfolding read_hour
read_hour_lem n l h = ground arith

read_four_lem : (n : ℕ) (l : List ℕ) → n < 10000 → read_four (fours n l) ≡ some (n, l)
unfolding read_four
read_four_lem n l h = ground arith

-- The time is one of the calendar, in a year of four digits.
pub record IsCivil (t : Time) : Type 0 where
  pub year : t.year < 10000
  pub month_first : 0 < t.month
  pub month_last : t.month ≤ 12
  pub day_first : 0 < t.day
  pub day_last : t.day ≤ days_in t.month t.year
  pub hour : t.hour < 24
  pub second : t.second < 60

days_in-le : (month year : ℕ) → days_in month year ≤ 31
unfolding days_in
days_in-le month year = ground arith

module _ (t : Time) (c : IsCivil t) where
  abbrev from_second : List ℕ
  from_second = twos t.second (48 ∷ 48 ∷ [])

  abbrev from_hour : List ℕ
  from_hour = twos t.hour from_second

  abbrev from_day : List ℕ
  from_day = twos t.day from_hour

  abbrev from_month : List ℕ
  from_month = twos t.month from_day

  abbrev layout : List ℕ
  layout = fours t.year from_month

  day_small : t.day < 100
  day_small = omega (arith, c.day_last, days_in-le t.month t.year)

  month_small : t.month < 100
  month_small = omega (arith, c.month_last)

  codes-written : codes (time2_directory_time_string t) ≡ layout
  unfolding time2_directory_time_string
  codes-written =
      codes-four t.year _ c.year
      ∙ ap (fours t.year) (
          codes-two t.month _ month_small
          ∙ ap (twos t.month) (
              codes-two t.day _ day_small
              ∙ ap (twos t.day) (
                  codes-two t.hour _ (omega (arith, c.hour))
                  ∙ ap (twos t.hour) (codes-two t.second "00" (omega (arith, c.second))))))

  parse-layout : parse_time layout ≡ ok (record t { minute = 0; nanosecond = 0 })
  unfolding parse_time read_fraction at_end
  parse-layout =
      let month : (ltb 0 t.month && leb t.month 12) ≡ true =
        ground (arith, c.month_first, c.month_last) in
      let day : (ltb 0 t.day && leb t.day (days_in t.month t.year)) ≡ true =
        ground (arith, c.day_first, c.day_last) in
      let hour : ltb t.hour 24 ≡ true = ground (arith, c.hour) in
      let second : ltb t.second 60 ≡ true = ground (arith, c.second) in
      rw
        (
          read_four_lem t.year from_month c.year,
          read_two_lem t.month from_day month_small,
          month,
          read_two_lem t.day from_hour day_small,
          read_hour_lem t.hour from_second (omega (arith, c.hour)),
          hour,
          read_two_lem t.second (48 ∷ 48 ∷ []) (omega (arith, c.second)),
          second,
          day,
        )
        refl

  -- A time of the calendar with a year of four digits that is written and read back loses its
  -- minutes (and the fraction of its seconds, as the layout has none): they are 0 in the result.
  pub directory_time2_time-time2_directory_time_string :
      directory_time2_time (time2_directory_time_string t)
      ≡ ok (record t { minute = 0; nanosecond = 0 })
  unfolding directory_time2_time
  directory_time2_time-time2_directory_time_string = ap parse_time codes-written ∙ parse-layout
