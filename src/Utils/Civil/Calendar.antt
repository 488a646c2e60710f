-- ===== src/Utils/Civil/Calendar.antt =====
-- The days of `civil_from_days` of src/utils.rs follow one another as those of the Gregorian calendar.
use hprof_slurp.Prelude.{
  ◌&&◌, ◌||◌, ℕ, suc, ◌+◌, ◌-◌, ◌*◌, ◌/◌, ◌%◌, ◌<◌, ◌≤◌, ◌≡◌, refl, sym, ap, ◌∙◌, Bool, true, not,
  ltb, ◌==◌, if◌then◌else◌, arith,
}
use native.Mathlib.Decide.{dec_lt}
use hprof_slurp.Utils.Civil.{year_of_era, days_before, civil_from_days}
use hprof_slurp.Utils.Civil.Years.{
  days_until, days_until-lt, last_until, LiesIn, year_of_era-LiesIn, LiesIn-year_of_era,
}
use hprof_slurp.Utils.Civil.Months.{
  month_and_day, month_length, year_length, next_in, dated, last_day, next_in-month_and_day,
}

pub is_leap : ℕ → Bool
is_leap year = year % 4 == 0 && (year % 400 == 0 || not (year % 100 == 0))

-- The day after a day, given by its year, month and day.
abbrev pub next_day : ℕ × ℕ × ℕ → ℕ × ℕ × ℕ
next_day (y, m, d) =
    if ltb d (month_length (is_leap y) m)
    then (y, m, d + 1)
    else if ltb m 12
    then (y, m + 1, 1)
    else (y + 1, 1, 1)

abbrev in_year : ℕ → ℕ × ℕ × ℕ → ℕ × ℕ × ℕ
in_year year (later, month, day) = (year + later, month, day)

civil_of : (year doy : ℕ) → ℕ × ℕ × ℕ
civil_of year doy = in_year year (month_and_day doy)

-- The source's form of it.
civil_of_lem :
    (year doy : ℕ)
    → (let mp = (5 * doy + 2) / 153 in
        let day = doy - (153 * mp + 2) / 5 + 1 in
        if ltb mp 10 then (year, mp + 3, day) else (year + 1, mp - 9, day))
      ≡ civil_of year doy
unfolding civil_of
civil_of_lem year doy = ground arith

days_until-le : (y : ℕ) → y < 400 → days_until y ≤ 146097
days_until-le y h = ground arith

first : civil_from_days 0 ≡ (1970, 1, 1)
unfolding civil_from_days
first = refl

civil_from_days_lem :
    (days era doe y : ℕ)
    → days + 719468 ≡ era * 146097 + doe
    → LiesIn doe y
    → civil_from_days days ≡ civil_of (y + era * 400) (doe - days_before y)
unfolding civil_from_days
civil_from_days_lem days era doe y e l =
    let ends = days_until-le y l.in_era in
    let era_is : (days + 719468) / 146097 ≡ era = omega (arith, l, ends) in
    let doe_is : (days + 719468) % 146097 ≡ doe = omega (arith, l, ends) in
    rw (era_is, doe_is, LiesIn-year_of_era doe y l)
      (civil_of_lem (y + era * 400) (doe - days_before y))

next_day-in_year :
    (year : ℕ) (t : ℕ × ℕ × ℕ)
    → dated t ≡ true
    → next_day (in_year year t) ≡ in_year year (next_in (is_leap (year + 1)) t)
next_day-in_year year (later, m, d) h =
    let same = λ (e : later ≡ 1). ap (λ n. is_leap (year + n)) e in ground (arith, same)

length_of_year :
    (y era : ℕ) → y < 400 → days_until y ≡ days_before y + year_length (is_leap (y + era * 400 + 1))
unfolding is_leap
length_of_year y era h = ground arith

next_day-civil_of :
    (year doy : ℕ)
    → suc doy < year_length (is_leap (year + 1))
    → next_day (civil_of year doy) ≡ civil_of year (suc doy)
unfolding civil_of
next_day-civil_of year doy h =
    let (next, at) = next_in-month_and_day (is_leap (year + 1)) doy h in
    next_day-in_year year (month_and_day doy) at ∙ ap (in_year year) next

next_day-civil_of_last :
    (year doy : ℕ)
    → suc doy ≡ year_length (is_leap (year + 1))
    → next_day (civil_of year doy) ≡ civil_of (year + 1) 0
unfolding civil_of
next_day-civil_of_last year doy h =
    let e : doy ≡ year_length (is_leap (year + 1)) - 1 = omega (arith, h) in
    let (next, at) = last_day (is_leap (year + 1)) in
    ap (λ k. next_day (in_year year (month_and_day k))) e
    ∙ next_day-in_year year (month_and_day (year_length (is_leap (year + 1)) - 1)) at
    ∙ ap (in_year year) next
    ∙ ap (λ (y : ℕ). (y, 3, 1)) (omega arith)

year_length_pos : (leap : Bool) → 0 < year_length leap
year_length_pos leap = ground arith

civil_of-eq : (a b c d : ℕ) → a ≡ b → c ≡ d → civil_of a c ≡ civil_of b d
civil_of-eq a b c d p q = rw (p, q) refl

module _ (days era doe y : ℕ) (e : days + 719468 ≡ era * 146097 + doe) (l : LiesIn doe y) where
  abbrev year : ℕ
  year = y + era * 400

  abbrev doy : ℕ
  doy = doe - days_before y

  length : days_until y ≡ days_before y + year_length (is_leap (year + 1))
  length = length_of_year y era l.in_era

  within_year : suc doe < days_until y → civil_from_days (suc days) ≡ next_day (civil_of year doy)
  within_year h =
      civil_from_days_lem (suc days) era (suc doe) y (omega (arith, e))
        (record { in_era = l.in_era; from = omega (arith, l); until = h })
      ∙ civil_of-eq year year (suc doe - days_before y) (suc doy) refl (omega (arith, l))
      ∙ sym (next_day-civil_of year doy (omega (arith, l, h, length)))

  ends_year :
      suc doe ≡ days_until y
      → civil_from_days (suc days) ≡ civil_of (year + 1) 0
      → civil_from_days (suc days) ≡ next_day (civil_of year doy)
  ends_year h next = next ∙ sym (next_day-civil_of_last year doy (omega (arith, l, h, length)))

  next_year : suc doe ≡ days_until y → y < 399 → civil_from_days (suc days) ≡ civil_of (year + 1) 0
  next_year h lt =
      let starts = days_until-lt y lt in
      let later = length_of_year (suc y) era (omega arith) in
      let positive = year_length_pos (is_leap (suc y + era * 400 + 1)) in
      civil_from_days_lem (suc days) era (suc doe) (suc y) (omega (arith, e)) (record {
        in_era = omega arith;
        from = omega (arith, h, starts);
        until = omega (arith, h, starts, later, positive);
      })
      ∙ civil_of-eq _ (year + 1) _ 0 (omega arith) (omega (arith, h, starts))

  next_era : suc doe ≡ days_until y → y ≡ 399 → civil_from_days (suc days) ≡ civil_of (year + 1) 0
  next_era h last =
      let whole = last_until y last in
      civil_from_days_lem (suc days) (suc era) 0 0 (omega (arith, e, h, whole))
        (record { in_era = omega arith; from = omega arith; until = omega arith })
      ∙ civil_of-eq _ (year + 1) _ 0 (omega (arith, last)) refl

  follows : civil_from_days (suc days) ≡ next_day (civil_of year doy)
  follows = elim (dec_lt (suc doe) (days_until y)) [
    | yes h ↦ within_year h
    | no ge ↦
        let h : suc doe ≡ days_until y = omega (arith, ge, l) in
        elim (dec_lt y 399) [
          | yes lt ↦ ends_year h (next_year h lt)
          | no last ↦ ends_year h (next_era h (omega (arith, last, l)))
        ]
  ]

-- `civil_from_days` begins with the first of January 1970, and each further day is the calendar's
-- next one: a year has twelve months of the lengths of the Gregorian calendar, with its leap years.
pub civil_from_days-suc :
    (days : ℕ)
    → (civil_from_days 0 ≡ (1970, 1, 1))
      × (civil_from_days (suc days) ≡ next_day (civil_from_days days))
civil_from_days-suc days =
    let z = days + 719468 in
    let l = year_of_era-LiesIn (z % 146097) (omega arith) in
    let split : z ≡ z / 146097 * 146097 + z % 146097 = omega arith in
    (
      first,
      follows days (z / 146097) (z % 146097) (year_of_era (z % 146097)) split l
          ∙ ap next_day (
              sym (
                civil_from_days_lem days (z / 146097) (z % 146097) (year_of_era (z % 146097)) split
                  l)),
    )
