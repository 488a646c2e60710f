-- ===== src/Utils/Dates.antt =====
-- What `pretty_timestamp_utc` of src/utils.rs prints, by a calendar that counts the days.
use hprof_slurp.Prelude.{
  ℕ, zero, suc, ◌+◌, ◌*◌, ◌/◌, ◌%◌, ◌<◌, ◌≤◌, ◌≡◌, refl, ap, ◌∙◌, [], ◌∷◌, ◌++◌, arith, Bool, false,
}
use native.Mathlib.Decide.{dec_lt}
use hprof_slurp.Nom.{Bytes}
use hprof_slurp.Text.{is_continuation}
use hprof_slurp.Text.Digits.{decimal, decimal-one_digit, decimal-two_digits}
use hprof_slurp.Text.Padding.{zero_padded}
use hprof_slurp.Utils.Civil.{civil_from_days}
use hprof_slurp.Utils.Civil.Months.{month_length}
use hprof_slurp.Utils.Civil.Calendar.{is_leap, next_day, civil_from_days-suc}
use hprof_slurp.Utils.Timestamp.{two_digits, pretty_timestamp_utc}

-- The date of a day, by as many steps from the first of January 1970.
abbrev pub date_of : ℕ → ℕ × ℕ × ℕ
date_of zero = (1970, 1, 1)
date_of (suc days) = next_day (date_of days)

civil_from_days-date_of : (days : ℕ) → civil_from_days days ≡ date_of days
civil_from_days-date_of zero = (civil_from_days-suc 0).0
civil_from_days-date_of (suc days) =
    (civil_from_days-suc days).1 ∙ ap next_day (civil_from_days-date_of days)

-- A month and a day have two digits at most.
abbrev InCalendar : ℕ × ℕ × ℕ → Type 0
InCalendar (year, month, day) = (month ≤ 12) × (day ≤ 31)

month_length-le : (leap : Bool) (month : ℕ) → month_length leap month ≤ 31
month_length-le leap month = ground arith

next_day-InCalendar : (t : ℕ × ℕ × ℕ) → InCalendar t → InCalendar (next_day t)
next_day-InCalendar (year, month, day) (m, d) =
    let longest = month_length-le (is_leap year) month in
    (ground (arith, longest), ground (arith, longest))

date_of-InCalendar : (days : ℕ) → InCalendar (date_of days)
date_of-InCalendar zero = (omega arith, omega arith)
date_of-InCalendar (suc days) = next_day-InCalendar (date_of days) (date_of-InCalendar days)

-- The tens and the ones.
abbrev pub pair : ℕ → Bytes
pair n = (b'0' + n / 10) ∷ (b'0' + n % 10) ∷ []

digit-is_character : (d : ℕ) → d < 10 → is_continuation (b'0' + d) ≡ false
digit-is_character d h = ground arith

two_digits-pair : (n : ℕ) → n < 100 → two_digits n ≡ pair n
two_digits-pair n h = elim (dec_lt n 10) [
  | yes l ↦
      let tens : n / 10 ≡ 0 = omega arith in
      let ones : n % 10 ≡ n = omega arith in
      rw (decimal-one_digit n l, digit-is_character n l, tens, ones) refl
  | no ge ↦
      rw
        (
          decimal-two_digits n (omega (arith, ge)) h,
          digit-is_character (n / 10) (omega arith),
          digit-is_character (n % 10) (omega arith),
        )
        refl
]

-- `2020-12-17 08:04:33 UTC`: the year in four digits at least, all else in two.
abbrev pub utc_text : ℕ × ℕ × ℕ → ℕ → ℕ → ℕ → Bytes
utc_text (year, month, day) hours minutes seconds =
    zero_padded 4 (decimal year)
    ++ (b'-'
        ∷ (pair month
            ++ (b'-'
                ∷ (pair day
                    ++ (b' '
                        ∷ (pair hours
                            ++ (b':'
                                ∷ (pair minutes
                                    ++ (b':'
                                        ∷ (pair seconds ++ b' ' ∷ b'U' ∷ b'T' ∷ b'C' ∷ []))))))))))

-- The milliseconds that a time of day, in range, on a day is from the start of 1970 on are printed as
-- the date of that day, which the calendar reaches in as many steps from the first of January 1970,
-- and as the hours, minutes and seconds of that time.
pub pretty_timestamp_utc_lem :
    (days hours minutes seconds millis : ℕ)
    → hours < 24
    → minutes < 60
    → seconds < 60
    → millis < 1000
    → pretty_timestamp_utc ((((days * 24 + hours) * 60 + minutes) * 60 + seconds) * 1000 + millis)
      ≡ utc_text (date_of days) hours minutes seconds
unfolding pretty_timestamp_utc
pretty_timestamp_utc_lem days hours minutes seconds millis hh hm hs hl =
    let t = (((days * 24 + hours) * 60 + minutes) * 60 + seconds) * 1000 + millis in
    let day_is : t / 1000 / 86400 ≡ days = omega arith in
    let hour_is : t / 1000 % 86400 / 3600 ≡ hours = omega arith in
    let minute_is : t / 1000 % 86400 % 3600 / 60 ≡ minutes = omega arith in
    let second_is : t / 1000 % 86400 % 60 ≡ seconds = omega arith in
    let (m, d) = date_of-InCalendar days in
    rw
      (
        day_is,
        hour_is,
        minute_is,
        second_is,
        civil_from_days-date_of days,
        two_digits-pair (date_of days).1 (omega (arith, m)),
        two_digits-pair (date_of days).2 (omega (arith, d)),
        two_digits-pair hours (omega arith),
        two_digits-pair minutes (omega arith),
        two_digits-pair seconds (omega arith),
      )
      refl
