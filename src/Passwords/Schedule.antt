-- ===== src/Passwords/Schedule.antt =====
-- controllers/passwords.go: how often the passwords are checked.
use ds_operator.Prelude.{
  ℕ, ◌+◌, ◌<◌, ℤ, pos, ◌-ℤ◌, wrap64, ltb_ℤ, ltb, String, ◌==◌, false, Bool-cases, inl, inr, ◌≡◌,
  sym, ap, ◌∙◌, arith, eq_iff, decimal_ℤ, Option, some, none,
}
use ds_operator.Passwords.{too_soon, password_check_time_seconds}
use ds_operator.Passwords.Numbers.{parse_int}
use ds_operator.Passwords.Numbers.RoundTrip.{parse_int-decimal_ℤ}

elapsed :
    (now last : ℕ)
    → now < 0x8000_0000_0000_0000
    → last < 0x8000_0000_0000_0000
    → ltb_ℤ (wrap64 (pos now -ℤ pos last)) password_check_time_seconds ≡ ltb now (last + 300)
unfolding wrap64 ◌-ℤ◌
elapsed now last h h' = ground arith

none-ne-some : {t : ℤ} → ◌≡◌ {A = Option ℤ} none (some t) → ⊥
none-ne-some h = cc

not_empty : (s : String) (t : ℤ) → parse_int s ≡ some t → (s == "") ≡ false
unfolding parse_int
not_empty s t h = elim (Bool-cases (s == "")) [
  | inl e ↦ absurd (none-ne-some (ap parse_int (sym ((eq_iff s "").0 e)) ∙ h))
  | inr e ↦ e
]

-- After a check has been noted at the time `last`, updatePasswords skips the next one exactly as
-- long as less than 300 seconds have passed, for times below 2^63.
pub too_soon-decimal_ℤ :
    (now last : ℕ)
    → now < 0x8000_0000_0000_0000
    → last < 0x8000_0000_0000_0000
    → too_soon (pos now) (decimal_ℤ (pos last)) ≡ ltb now (last + 300)
unfolding too_soon
too_soon-decimal_ℤ now last h h' =
    let read = parse_int-decimal_ℤ last h' in
    rw (not_empty (decimal_ℤ (pos last)) (pos last) read, read) (elapsed now last h h')
