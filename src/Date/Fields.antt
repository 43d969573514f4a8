-- ===== src/Date/Fields.antt =====
-- The fields that `pa_gmtime` in src/types/pa_vdate.C fills, and a structure whose fields are in range.
use parser.Prelude.{
  ℕ, ◌+◌, ◌*◌, ◌/◌, ◌%◌, ◌<◌, ◌≤◌, ◌≡◌, ◌&&◌, ltb, ◌==◌, if◌then◌else◌, get_or, arith,
}
use parser.Prelude.Int.{ℤ, pos, pos_part, neg_part, ◌+ℤ◌, ◌-ℤ◌, ◌*ℤ◌, +ℤ_parts, -ℤ_parts}
use parser.Date.{Tm, pa_gmtime, split_days, era_of, days_in_month, days_before_month}
use parser.Date.Era.{era_day, year_day_lem, civil_month, civil_day}
use parser.Date.Years.{IsYear, gregorian, days_up_to}
use parser.Date.Days.{IsTime, split_days_lem, era_of_lem, era_day_lem, scale_parts}
use parser.Date.Civil.{march_day, civil_year, day-fits-month}

-- The date and the time of day that a structure holds; the year is one from -400 on.
pub record Civil : Type 0 where
  pub year : ℕ
  pub month : ℕ
  pub day : ℕ
  pub hour : ℕ
  pub minute : ℕ
  pub second : ℕ

abbrev pub month_length : ℕ → ℕ → ℕ
month_length year month =
    if (month == 1) && gregorian year then 29 else get_or days_in_month month 0

-- Every field is in the range that the calendar gives it.
pub record IsDate (c : Civil) : Type 0 where
  pub month_below : c.month < 12
  pub day_above : 1 ≤ c.day
  pub day_fits : c.day ≤ month_length c.year c.month
  pub hour_below : c.hour < 24
  pub minute_below : c.minute < 60
  pub second_below : c.second < 60

pub record Holds (t : Tm) (c : Civil) : Type 0 where
  pub year : IsYear t.tm_year c.year
  pub month : t.tm_mon ≡ pos c.month
  pub day : t.tm_mday ≡ pos c.day
  pub hour : t.tm_hour ≡ pos c.hour
  pub minute : t.tm_min ≡ pos c.minute
  pub second : t.tm_sec ≡ pos c.second

-- The day from 1 March of the year -400 on which a date falls, and the second of the day.
abbrev pub IsDayOf : Civil → ℕ → Type 0
IsDayOf c day =
    (if ltb 1 c.month && gregorian c.year then 1 else 0)
      + get_or days_before_month c.month 0
      + c.day
      + days_up_to c.year
    ≡ day + 61

abbrev pub second_of_day : Civil → ℕ
second_of_day c = c.second + 60 * c.minute + 3600 * c.hour

-- The date of a second of a day.
abbrev pub civil_of : ℕ → ℕ → Civil
civil_of day s = record {
  year = civil_year day;
  month = civil_month (march_day day);
  day = civil_day (march_day day);
  hour = s / 3600;
  minute = s % 3600 / 60;
  second = s % 3600 % 60;
}

pub civil_of-IsDate : (day s : ℕ) → s < 86400 → IsDate (civil_of day s)
civil_of-IsDate day s h =
    let d = year_day_lem (march_day day) (era_day (day % 146097) (omega arith)).day_below in
    record {
      month_below = d.month_below;
      day_above = d.day_above;
      day_fits = day-fits-month day;
      hour_below = omega arith;
      minute_below = omega arith;
      second_below = omega arith;
    }

sum-IsYear :
    (y j k : ℕ) (e : ℤ)
    → pos_part e + 1 ≡ neg_part e + k
    → IsYear (pos y +ℤ e *ℤ pos 400 +ℤ pos j -ℤ pos 1900) (y + 400 * k + j)
sum-IsYear y j k e h =
    let product = scale_parts e 400 in
    let first = +ℤ_parts (pos y) (e *ℤ pos 400) in
    let second = +ℤ_parts (pos y +ℤ e *ℤ pos 400) (pos j) in
    let last = -ℤ_parts (pos y +ℤ e *ℤ pos 400 +ℤ pos j) (pos 1900) in omega arith

pub pa_gmtime-Holds : (t : ℤ) (day s : ℕ) → IsTime t day s → Holds (pa_gmtime t) (civil_of day s)
unfolding pa_gmtime
pa_gmtime-Holds t day s h =
    let (a, b) = split_days_lem t day s h in
    let e = era_day_lem (split_days t).0 day a in
    let k = era_of_lem (split_days t).0 day a in
    record {
      year = rw e (sum-IsYear _ _ _ (era_of (split_days t).0) k);
      month = rw e;
      day = rw e;
      hour = rw b;
      minute = rw b;
      second = rw b;
    }
