-- ===== src/Utils/Civil/Months.antt =====
-- The months of a year that begins with March, against the lengths of the months.
use hprof_slurp.Prelude.{
  ℕ, suc, ◌+◌, ◌-◌, ◌*◌, ◌/◌, ◌%◌, ◌<◌, ◌≡◌, refl, Bool, true, false, ◌&&◌, ◌||◌, not, ltb, ◌==◌,
  if◌then◌else◌, arith,
}
use hprof_slurp.Utils.Tables.{holds_from, holds_at}

-- What day `doy` of such a year is: whether it is in the next calendar year (0 or 1), its month, and
-- its day.
abbrev pub month_and_day : ℕ → ℕ × ℕ × ℕ
month_and_day doy =
    let mp = (5 * doy + 2) / 153 in
    let day = doy - (153 * mp + 2) / 5 + 1 in
    if ltb mp 10 then (0, mp + 3, day) else (1, mp - 9, day)

-- Months of 31 and of 30 days take turns, and August begins anew.
abbrev pub month_length : Bool → ℕ → ℕ
month_length leap m = if m == 2 then 28 + (if leap then 1 else 0) else 30 + (m + m / 8) % 2

abbrev pub year_length : Bool → ℕ
year_length leap = if leap then 366 else 365

abbrev pub next_in : Bool → ℕ × ℕ × ℕ → ℕ × ℕ × ℕ
next_in leap (later, m, d) =
    if ltb d (month_length leap m)
    then (later, m, d + 1)
    else if ltb m 12
    then (later, m + 1, 1)
    else (later + 1, 1, 1)

abbrev same : ℕ × ℕ × ℕ → ℕ × ℕ × ℕ → Bool
same (a, b, c) (x, y, z) = a == x && b == y && c == z

same_sound : (s t : ℕ × ℕ × ℕ) → same s t ≡ true → s ≡ t
same_sound (a, b, c) (x, y, z) h = ground arith

-- The year in progress: 0 only from March on.
abbrev pub dated : ℕ × ℕ × ℕ → Bool
dated (later, m, d) = (later == 0 && not (ltb m 3)) || (later == 1 && ltb m 3)

table :
    (leap : Bool)
    → holds_from
        (λ doy.
          same (next_in leap (month_and_day doy)) (month_and_day (suc doy))
          && dated (month_and_day doy))
        0
        (year_length leap - 1)
      ≡ true
unfolding holds_from
table true = refl
table false = refl

-- The last day of February is followed by the first of March.
pub last_day :
    (leap : Bool)
    → (next_in leap (month_and_day (year_length leap - 1)) ≡ (1, 3, 1))
      × (dated (month_and_day (year_length leap - 1)) ≡ true)
last_day true = (refl, refl)
last_day false = (refl, refl)

both : (p q : Bool) → (p && q) ≡ true → (p ≡ true) × (q ≡ true)
both true true h = (refl, refl)
both true false h = cc
both false q h = cc

-- On every other day of the year the next day is the calendar's.
pub next_in-month_and_day :
    (leap : Bool) (doy : ℕ)
    → suc doy < year_length leap
    → (next_in leap (month_and_day doy) ≡ month_and_day (suc doy))
      × (dated (month_and_day doy) ≡ true)
next_in-month_and_day leap doy h =
    let (next, at) = both _ _ (holds_at _ _ (table leap) doy (omega arith)) in
    (same_sound _ _ next, at)
