-- ===== src/Date/WeekBefore.antt =====
-- `VDate::CalcWeek` of src/types/pa_vdate.C for the first days of January that belong to the last week of the
-- year before, which it finds by a day of that week.
use parser.Prelude.{
  ℕ, zero, suc, ◌+◌, ◌-◌, ◌%◌, ◌<◌, ◌≤◌, ◌≡◌, refl, ap, ◌∙◌, Bool, ◌||◌, if◌then◌else◌, if_cases,
  get_or, arith,
}
use parser.Prelude.Int.{
  ℤ, pos, negsuc, pos_part, neg_part, ◌+ℤ◌, ◌-ℤ◌, ltb_ℤ, +ℤ_parts, -ℤ_parts, eq_of_parts,
}
use parser.Date.{Tm, fit_days, validate_structure, time_of, pa_mktime, day_of_year}
use parser.Date.Years.{IsYear, gregorian, days_up_to}
use parser.Date.Fields.{Civil, IsDate, Holds}
use parser.Date.RoundTrip.{carry_small, day_of_year_lem}
use parser.Date.Carry.{one_part}
use parser.Date.YearDay.{time_of-tm_yday}
use parser.Date.Week.{YearWeek, first_thurs, week_diff, calc_week}
use parser.Date.WeekYear.{IsIsoWeek, table, first, length_of_year, year_index, week_from_lem}

-- A day of December.
december :
    (k : ℕ) (a : ℤ)
    → k < 3
    → fit_days (record { mday = negsuc k; mon = 0; year = a })
      ≡ record { mday = pos (30 - k); mon = 11; year = a -ℤ pos 1 }
unfolding fit_days ◌+ℤ◌
december zero a h = refl
december (suc zero) a h = refl
december (suc (suc zero)) a h = refl
december (suc (suc (suc k))) a h = absurd (omega arith)

time_of-tm_year : (t : Tm) → (time_of t).1.tm_year ≡ t.tm_year
unfolding time_of
time_of-tm_year t =
    if_cases (λ (r : ℤ × Tm). r.1.tm_year ≡ t.tm_year)
      (ltb_ℤ (pos 10000) t.tm_year || ltb_ℤ t.tm_year (negsuc 9999)) (λ _. refl) (λ _. refl)

-- What `validate_structure` makes of a day before the first of January.
module _ (t : Tm) (c : Civil) (k : ℕ) (h : Holds t c) (d : IsDate c) (first_month : c.month ≡ 0)
    (low : k < 3) where
  abbrev back_day : Tm
  back_day = record t { tm_mday = negsuc k }

  validate_december :
      validate_structure back_day
      ≡ record back_day { tm_mday = pos (30 - k); tm_mon = pos 11; tm_year = t.tm_year -ℤ pos 1 }
  unfolding validate_structure
  validate_december =
      let sec = carry_small 60 c.second t.tm_sec t.tm_min h.second d.second_below in
      let min = carry_small 60 c.minute t.tm_min t.tm_hour h.minute d.minute_below in
      let hour = carry_small 24 c.hour t.tm_hour (negsuc k) h.hour d.hour_below in
      let mon = carry_small 12 c.month t.tm_mon t.tm_year h.month d.month_below in
      let none_before = ap pos_part h.month ∙ first_month in
      rw (sec, min, hour, mon, none_before, december k t.tm_year low)

  pub year_december : (pa_mktime back_day).1.tm_year ≡ t.tm_year -ℤ pos 1
  unfolding pa_mktime
  year_december =
      time_of-tm_year (validate_structure back_day) ∙ ap (λ (v : Tm). v.tm_year) validate_december

  pub yday_december :
      (pa_mktime back_day).1.tm_yday ≡ day_of_year (t.tm_year -ℤ pos 1) 11 (pos (30 - k))
  unfolding pa_mktime
  yday_december =
      time_of-tm_yday (validate_structure back_day)
      ∙ ap (λ (v : Tm). day_of_year v.tm_year (pos_part v.tm_mon) v.tm_mday) validate_december

pub leap_bit : Bool → ℕ
leap_bit leap = if leap then 1 else 0

pub length-leap_bit : (y : ℕ) → length_of_year y ≡ 365 + leap_bit (gregorian y)
unfolding leap_bit
length-leap_bit y = ground arith

pub day_of_december :
    (a : ℤ) (y k : ℕ)
    → IsYear a y
    → k < 3
    → day_of_year a 11 (pos (30 - k)) ≡ pos (363 - k + leap_bit (gregorian y))
unfolding leap_bit
day_of_december a y k h low =
    let sum = day_of_year_lem a y 11 (30 - k) h in eq_of_parts _ _ (omega arith)

pub week_diff_lem :
    (t : Tm) (y yday : ℕ)
    → IsYear t.tm_year y
    → 400 ≤ y
    → t.tm_yday ≡ pos yday
    → pos_part (week_diff t) + first y ≡ neg_part (week_diff t) + yday + 4
unfolding week_diff
week_diff_lem t y yday h low e =
    let index = ap (λ n. get_or first_thurs (n % 28) 0) (year_index t.tm_year y h low) in
    let sum = +ℤ_parts (pos yday) (pos 4) in
    let diff = -ℤ_parts (pos yday +ℤ pos 4) (pos (first y)) in rw (e, index) (omega arith)

-- Another day of the same week.
pub same_week :
    (n m t : ℕ) (w : YearWeek)
    → t % 7 ≡ 5
    → (n ≤ t + 3) × (t ≤ n + 3)
    → (m ≤ t + 3) × (t ≤ m + 3)
    → IsIsoWeek m w
    → IsIsoWeek n w
same_week n m t w is_thursday (a, b) (c, d) i =
    let e = i.is_thursday in
    let f = i.near_before in
    let g = i.near_after in
    let same : i.thursday ≡ t = omega arith in
    record {
      thursday = i.thursday;
      iso_year = i.iso_year;
      is_thursday = i.is_thursday;
      near_before = omega arith;
      near_after = omega arith;
      same_year = i.same_year;
      year_begun = i.year_begun;
      in_year = i.in_year;
      number_low = i.number_low;
      number_high = i.number_high;
    }

-- The end of a year, asked for once.
pub end_of_year :
    (u : Tm) (z yday : ℕ) (normalize : Tm → Tm)
    → IsYear u.tm_year z
    → 2301 ≤ z
    → z ≤ 2500
    → u.tm_yday ≡ pos yday
    → 361 ≤ yday
    → yday < length_of_year z
    → IsIsoWeek (days_up_to z + yday) (calc_week 0 normalize u)
unfolding calc_week
end_of_year u z yday normalize h low high e late inside =
    let t = table z low high in
    let below = t.below in
    let diff = week_diff_lem u z yday h (omega arith) e in
    let side = one_part (week_diff u) in
    week_from_lem u.tm_year z (pos_part (week_diff u)) yday h t (omega arith) (omega arith) inside
