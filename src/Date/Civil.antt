-- ===== src/Date/Civil.antt =====
-- The date that `pa_gmtime` in src/types/pa_vdate.C finds for a day, against the days of the calendar.
use parser.Prelude.{
  ℕ, ◌+◌, ◌*◌, ◌/◌, ◌%◌, ◌<◌, ◌≤◌, ◌≡◌, ◌≢◌, ◌⊎◌, inl, inr, ◌∙◌, refl, ap, Bool, true, false, ◌&&◌,
  ltb, leb, ◌==◌, if◌then◌else◌, get_or, arith,
}
use parser.Date.{era_year, year_day, days_in_month}
use parser.Date.Era.{era_day, year_day_lem, civil_month, civil_day, month_start}
use parser.Date.Years.{gregorian, days_up_to, next_year}

-- A day from 1 March of the year -400 on.
module _ (day : ℕ) where
  abbrev pub era : ℕ
  era = day / 146097

  abbrev pub march_year : ℕ
  march_year = era_year (day % 146097)

  abbrev pub march_day : ℕ
  march_day = year_day (day % 146097) march_year

  abbrev pub civil_year : ℕ
  civil_year = march_year + 400 * era + (if leb (civil_month march_day) 1 then 1 else 0)

  abbrev pub day_of_leap : ℕ
  day_of_leap = if ltb 1 (civil_month march_day) && gregorian civil_year then 1 else 0

repeats : (y k : ℕ) → gregorian (y + 400 * k) ≡ gregorian y
repeats y k =
    let four : (y + 400 * k) % 4 ≡ y % 4 = omega arith in
    let hundred : (y + 400 * k) % 100 ≡ y % 100 = omega arith in
    let all : (y + 400 * k) % 400 ≡ y % 400 = omega arith in rw (four, hundred, all)

pub le_or_lt : (a b : ℕ) → (a ≤ b) ⊎ (b < a)
le_or_lt a b = omega arith

whole_eras : (y k : ℕ) → days_up_to (y + 400 * k) ≡ days_up_to y + 146097 * k
unfolding days_up_to
whole_eras y k = omega arith

from_march : (y : ℕ) → y < 400 → 365 * y + y / 4 + 366 ≡ days_up_to (y + 1) + y / 100
unfolding days_up_to
from_march y h = omega arith

-- January and February belong to the year after the one that began in March.
pub late_date :
    (day : ℕ)
    → 306 ≤ march_day day
    → (civil_year day ≡ march_year day + 1 + 400 * era day) × (day_of_leap day ≡ 0)
late_date day late =
    let d = year_day_lem (march_day day) (era_day (day % 146097) (omega arith)).day_below in
    let (month, start) = d.late late in (ground arith, ground arith)

pub early_date :
    (day : ℕ)
    → march_day day < 306
    → (civil_year day ≡ march_year day + 400 * era day)
      × (day_of_leap day ≡ (if gregorian (march_year day) then 1 else 0))
early_date day early =
    let d = year_day_lem (march_day day) (era_day (day % 146097) (omega arith)).day_below in
    let (month, start) = d.early early in
    let year : civil_year day ≡ march_year day + 400 * era day = ground arith in
    let same : gregorian (civil_year day) ≡ gregorian (march_year day) =
      rw (year, repeats (march_year day) (era day)) in
    (year, ground arith)

extra : (b : Bool) (n : ℕ) → 365 + (if b then 1 else 0) + n ≡ (if b then 366 else 365) + n
extra true n = refl
extra false n = refl

-- The sums of the two cases, with all that is not linear as a number.
module _ (y four hundred d e k day leap start mday here next : ℕ)
    (low : 365 * y + four + 366 ≡ next + hundred) (whole : 365 * y + four + d ≡ e + hundred)
    (split : day ≡ 146097 * k + e) where
  sum_late :
      leap ≡ 0
      → start + mday + 305 ≡ d
      → here ≡ next + 146097 * k
      → leap + start + mday + here ≡ day + 61
  sum_late hl hs hn = omega arith

  sum_early :
      (l this : ℕ)
      → leap ≡ l
      → start + mday ≡ d + 60
      → here ≡ this + 146097 * k
      → 365 + l + this ≡ next
      → leap + start + mday + here ≡ day + 61
  sum_early l this hl hs hn step = omega arith

-- The number of the day by its date.
pub date_lem :
    (day : ℕ)
    → day_of_leap day
        + month_start (march_day day)
        + civil_day (march_day day)
        + days_up_to (civil_year day)
      ≡ day + 61
date_lem day =
    let e = era_day (day % 146097) (omega arith) in
    let d = year_day_lem (march_day day) e.day_below in
    let low = from_march (march_year day) e.year_below in
    let step = next_year (march_year day) in
    elim (le_or_lt 306 (march_day day)) [
      | inl late ↦
          let (year, leap) = late_date day late in
          let (month, start) = d.late late in
          let here = ap days_up_to year ∙ whole_eras (march_year day + 1) (era day) in
          sum_late _ _ _ _ _ _ _ _ _ _ _ _ low e.whole (omega arith) leap start here
      | inr early ↦
          let (year, leap) = early_date day early in
          let (month, start) = d.early early in
          let here = ap days_up_to year ∙ whole_eras (march_year day) (era day) in
          sum_early _ _ _ _ _ _ _ _ _ _ _ _ low e.whole (omega arith) _ _ leap start here
            (extra _ _ ∙ step)
    ]

leap_after : (y : ℕ) → y % 4 ≡ 3 → (y % 100 ≡ 99 → y % 400 ≡ 399) → gregorian (y + 1) ≡ true
leap_after y four hundred = ground arith

eq_or_ne : (a b : ℕ) → (a ≡ b) ⊎ (a ≢ b)
eq_or_ne a b = omega arith

fits_leap :
    (mon mday length : ℕ) (leap : Bool)
    → mon ≡ 1
    → mday ≡ 29
    → leap ≡ true
    → mday ≤ (if (mon == 1) && leap then 29 else length)
fits_leap mon mday length leap h k l = ground arith

fits_other :
    (mon mday d length : ℕ) (leap : Bool)
    → d ≢ 365
    → (mon ≡ 1 → length ≤ 29)
    → mday ≤ length + (if d == 365 then 1 else 0)
    → mday ≤ (if (mon == 1) && leap then 29 else length)
fits_other mon mday d length leap h feb k = ground arith

short : 28 ≤ 29
short = omega arith

february : (mon : ℕ) → mon ≡ 1 → get_or days_in_month mon 0 ≤ 29
february mon h = rw h short

-- The day of the month is one that the month has.
pub day-fits-month :
    (day : ℕ)
    → civil_day (march_day day) ≤ (
        if (civil_month (march_day day) == 1) && gregorian (civil_year day)
        then 29
        else get_or days_in_month (civil_month (march_day day)) 0)
day-fits-month day =
    let e = era_day (day % 146097) (omega arith) in
    let d = year_day_lem (march_day day) e.day_below in
    elim (eq_or_ne (march_day day) 365) [
      | inl last ↦
          let (month, mday) = d.leap_day last in
          let (four, hundred) = e.last_day (omega arith) in
          let (year, _) = late_date day (omega arith) in
          let leap : gregorian (civil_year day) ≡ true =
            ap gregorian year
            ∙ repeats (march_year day + 1) (era day)
            ∙ leap_after (march_year day) four hundred in
          fits_leap _ _ _ _ month mday leap
      | inr other ↦ fits_other _ _ _ _ _ other (february _) d.day_fits
    ]

pub civil_year_bound : (day : ℕ) → civil_year day ≤ 400 * (day / 146097) + 400
civil_year_bound day =
    let e = era_day (day % 146097) (omega arith) in let below = e.year_below in ground arith
