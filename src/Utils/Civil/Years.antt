-- ===== src/Utils/Civil/Years.antt =====
-- The years of an era: `year_of_era` of src/utils.rs finds the year that a day lies in.
use native.Mathlib.Nat.{le_refl, le_trans}
use native.Mathlib.Decide.{le_ind, dec_lt}
use hprof_slurp.Prelude.{
  ℕ, zero, suc, ◌+◌, ◌-◌, ◌<◌, ◌≤◌, ◌≡◌, refl, ◌&&◌, true, ◌==◌, if◌then◌else◌, arith,
}
use hprof_slurp.Utils.Tables.{holds_from, holds_at}
use hprof_slurp.Utils.Civil.{year_of_era, days_before}

-- The last year of an era has a day that the formula does not count.
abbrev pub days_until : ℕ → ℕ
days_until yoe = if yoe == 399 then 146097 else days_before (yoe + 1)

table :
    holds_from (λ y. year_of_era (days_before y) == y && year_of_era (days_until y - 1) == y) 0 400
    ≡ true
unfolding holds_from year_of_era
table = refl

step : (d : ℕ) → year_of_era d ≤ year_of_era (suc d)
unfolding year_of_era
step d = omega arith

mono : (d e : ℕ) → d ≤ e → year_of_era d ≤ year_of_era e
mono d = le_ind (λ e. year_of_era d ≤ year_of_era e) (le_refl _) (λ e le ih. le_trans ih (step e))

in_table :
    (y : ℕ) → y < 400 → (year_of_era (days_before y) ≡ y) × (year_of_era (days_until y - 1) ≡ y)
in_table y h = let checked = holds_at 400 _ table y h in ground arith

-- A day lies in the year that is found for it, and each day of a year finds it.
pub record LiesIn (doe yoe : ℕ) : Type 0 where
  pub in_era : yoe < 400
  pub from : days_before yoe ≤ doe
  pub until : doe < days_until yoe

last_year : year_of_era 146096 ≡ 399
unfolding year_of_era
last_year = refl

pub days_until-lt : (y : ℕ) → y < 399 → days_until y ≡ days_before (suc y)
days_until-lt y h = ground arith

before_year : (doe y : ℕ) → y < 400 → doe < days_before y → year_of_era doe < y
before_year doe zero h lt = absurd (omega arith)
before_year doe (suc y) h lt =
    let ends = days_until-lt y (omega arith) in
    let found = (in_table y (omega arith)).1 in
    omega (arith, found, mono doe (days_until y - 1) (omega (arith, ends)))

after_year : (doe y : ℕ) → y < 399 → days_until y ≤ doe → y < year_of_era doe
after_year doe y h le =
    let ends = days_until-lt y h in
    let found = (in_table (suc y) (omega arith)).0 in
    omega (arith, found, mono (days_before (suc y)) doe (omega (arith, ends)))

in_era : (doe : ℕ) → doe < 146097 → year_of_era doe < 400
in_era doe h = omega (arith, mono doe 146096 (omega arith), last_year)

from : (doe : ℕ) → doe < 146097 → days_before (year_of_era doe) ≤ doe
from doe h = elim (dec_lt doe (days_before (year_of_era doe))) [
  | yes lt ↦ absurd (omega (arith, before_year doe (year_of_era doe) (in_era doe h) lt))
  | no ge ↦ omega (arith, ge)
]

pub last_until : (y : ℕ) → y ≡ 399 → days_until y ≡ 146097
last_until y e = ground arith

until : (doe : ℕ) → doe < 146097 → doe < days_until (year_of_era doe)
until doe h = elim (dec_lt doe (days_until (year_of_era doe))) [
  | yes lt ↦ lt
  | no ge ↦ elim (dec_lt (year_of_era doe) 399) [
    | yes lt ↦ absurd (omega (arith, after_year doe (year_of_era doe) lt (omega (arith, ge))))
    | no last ↦
        let e = last_until (year_of_era doe) (omega (arith, last, in_era doe h)) in omega (arith, e)
  ]
]

pub year_of_era-LiesIn : (doe : ℕ) → doe < 146097 → LiesIn doe (year_of_era doe)
year_of_era-LiesIn doe h = record { in_era = in_era doe h; from = from doe h; until = until doe h }

pub LiesIn-year_of_era : (doe yoe : ℕ) → LiesIn doe yoe → year_of_era doe ≡ yoe
LiesIn-year_of_era doe yoe l =
    let (first, final) = in_table yoe l.in_era in
    omega (
      arith,
      first,
      final,
      mono (days_before yoe) doe l.from,
      mono doe (days_until yoe - 1) (omega (arith, l)),
    )
