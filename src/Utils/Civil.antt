-- ===== src/Utils/Civil.antt =====
-- `civil_from_days` of src/utils.rs.
pub mod Years
pub mod Months
pub mod Calendar
use hprof_slurp.Prelude.{ℕ, ◌+◌, ◌-◌, ◌*◌, ◌/◌, ◌%◌, ltb, if◌then◌else◌}

-- The year of the era that holds the day `doe`, and the days of the era before that year.
unfoldable pub year_of_era : ℕ → ℕ
year_of_era doe = (doe - doe / 1460 + doe / 36524 - doe / 146096) / 365

abbrev pub days_before : ℕ → ℕ
days_before yoe = 365 * yoe + yoe / 4 - yoe / 100

unfoldable pub civil_from_days : ℕ → ℕ × ℕ × ℕ
unfolding year_of_era
civil_from_days days =
    let z = days + 719468 in
    let era = z / 146097 in
    let doe = z % 146097 in
    let yoe = year_of_era doe in
    let doy = doe - days_before yoe in
    let mp = (5 * doy + 2) / 153 in
    let day = doy - (153 * mp + 2) / 5 + 1 in
    let year = yoe + era * 400 in if ltb mp 10 then (year, mp + 3, day) else (year + 1, mp - 9, day)
