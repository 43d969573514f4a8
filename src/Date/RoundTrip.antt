-- ===== src/Date/RoundTrip.antt =====
-- `pa_mktime` in src/types/pa_vdate.C against the calendar, and as the inverse of `pa_gmtime`.
use parser.Prelude.{
  ℕ, suc, ◌+◌, ◌-◌, ◌*◌, ◌/◌, ◌%◌, ◌<◌, ◌≤◌, ◌≡◌, refl, sym, subst, ap, ap₂, ◌⊎◌, Bool-cases, ◌∙◌,
  Bool, true, false, ◌&&◌, ◌||◌, ltb, ◌==◌, if◌then◌else◌, get_or, arith,
}
use parser.Prelude.Int.{
  ℤ, pos, negsuc, pos_part, neg_part, ◌+ℤ◌, ◌-ℤ◌, ◌*ℤ◌, ltb_ℤ, +ℤ_parts, eq_of_parts, if_less, ◌≤ℤ◌,
}
use parser.Date.{
  Tm, MonthDay, get_month_days, days_before_month, days_in_year, carry, days_up, fit_days,
  validate_structure, day_of_year, other_years, pa_gmtime, pa_mktime, time_of,
}
use parser.Date.Years.{IsYear, gregorian, is_leap-gregorian, other_years_lem}
use parser.Date.Days.{IsTime, scale_parts}
use parser.Date.Civil.{civil_year, civil_year_bound, date_lem}
use parser.Date.Fields.{
  Civil, IsDate, Holds, IsDayOf, second_of_day, month_length, civil_of, civil_of-IsDate,
  pa_gmtime-Holds,
}

pub carry_small :
    (base n : ℕ) (low high : ℤ) → low ≡ pos n → n < base → carry base low high ≡ (low, high)
unfolding carry
carry_small base n low high e h = ground arith

pub get_month_days_lem :
    (a : ℤ) (y month : ℕ) → IsYear a y → get_month_days a month ≡ month_length y month
unfolding get_month_days
get_month_days_lem a y month h = rw (is_leap-gregorian a y h)

days_up_small :
    (rounds : ℕ) (d : MonthDay)
    → d.mday ≤ℤ pos (get_month_days d.year d.mon)
    → days_up (suc rounds) d ≡ d
unfolding days_up
days_up_small rounds d h =
    if_less (λ (r : MonthDay). r ≡ d) (pos (get_month_days d.year d.mon)) d.mday
      (λ more. absurd (omega arith)) (λ most. refl)

fit_days_small :
    (d : MonthDay) (day : ℕ)
    → d.mday ≡ pos (suc day)
    → suc day ≤ get_month_days d.year d.mon
    → fit_days d ≡ d
unfolding fit_days
fit_days_small d day e h =
    let up = ap pos_part e in
    let down = ap neg_part e in
    if_less (λ (r : MonthDay). r ≡ d) (pos 0) d.mday
      (λ more. rw up (days_up_small day d (omega arith))) (λ most. absurd (omega arith))

-- A structure whose fields are in range is left as it is.
pub validate_structure_lem : (t : Tm) (c : Civil) → Holds t c → IsDate c → validate_structure t ≡ t
unfolding validate_structure
validate_structure_lem t c h d =
    let sec = carry_small 60 c.second t.tm_sec t.tm_min h.second d.second_below in
    let min = carry_small 60 c.minute t.tm_min t.tm_hour h.minute d.minute_below in
    let hour = carry_small 24 c.hour t.tm_hour t.tm_mday h.hour d.hour_below in
    let mon = carry_small 12 c.month t.tm_mon t.tm_year h.month d.month_below in
    let month = ap pos_part h.month in
    let length =
      ap (get_month_days t.tm_year) month ∙ get_month_days_lem t.tm_year c.year c.month h.year in
    let low = d.day_above in
    let high = d.day_fits in
    let fit =
      fit_days_small (record { mday = t.tm_mday; mon = pos_part t.tm_mon; year = t.tm_year })
        (c.day - 1) (h.day ∙ ap pos {x = c.day} {y = suc (c.day - 1)} (omega arith))
        (omega arith) in
    rw (sec, min, hour, mon, fit) (ap (λ m. record t { tm_mon = m }) (ap pos month ∙ sym h.month))

sum_day :
    (day before month : ℕ) (leap : Bool)
    → (leap ≡ true) ⊎ (leap ≡ false)
    → pos_part (
          pos day
          -ℤ pos 1
          +ℤ pos before
          +ℤ pos (if ltb 1 month && ((if leap then 366 else 365) == 366) then 1 else 0))
        + 1
      ≡ neg_part (
          pos day
          -ℤ pos 1
          +ℤ pos before
          +ℤ pos (if ltb 1 month && ((if leap then 366 else 365) == 366) then 1 else 0))
        + day
        + before
        + (if ltb 1 month && leap then 1 else 0)
unfolding ◌+ℤ◌ ◌-ℤ◌
sum_day day before month leap cases = ground arith

sum_time :
    (s m h : ℕ) (days : ℤ)
    → pos_part (pos s +ℤ pos m *ℤ pos 60 +ℤ pos h *ℤ pos 3600 +ℤ days *ℤ pos 86400)
        + 86400 * neg_part days
      ≡ neg_part (pos s +ℤ pos m *ℤ pos 60 +ℤ pos h *ℤ pos 3600 +ℤ days *ℤ pos 86400)
        + 86400 * pos_part days
        + (s + 60 * m + 3600 * h)
sum_time s m h days =
    let minutes = scale_parts (pos m) 60 in
    let hours = scale_parts (pos h) 3600 in
    let seconds = scale_parts days 86400 in
    let first = +ℤ_parts (pos s) (pos m *ℤ pos 60) in
    let second = +ℤ_parts (pos s +ℤ pos m *ℤ pos 60) (pos h *ℤ pos 3600) in
    let third = +ℤ_parts (pos s +ℤ pos m *ℤ pos 60 +ℤ pos h *ℤ pos 3600) (days *ℤ pos 86400) in
    omega arith

pub day_of_year_lem :
    (a : ℤ) (y month day : ℕ)
    → IsYear a y
    → pos_part (day_of_year a month (pos day)) + 1
      ≡ neg_part (day_of_year a month (pos day))
        + day
        + get_or days_before_month month 0
        + (if ltb 1 month && gregorian y then 1 else 0)
unfolding day_of_year days_in_year
day_of_year_lem a y month day h =
    rw (is_leap-gregorian a y h) (sum_day day _ _ _ (Bool-cases (gregorian y)))

pub time_of_lem :
    (t : Tm) (c : Civil) (day : ℕ)
    → Holds t c
    → IsDayOf c day
    → c.year ≤ 12300
    → IsDate c
    → IsTime (time_of t).0 day (second_of_day c)
unfolding time_of
time_of_lem t c day h e low d =
    let mon = ap pos_part h.month in
    let goal = λ (r : ℤ × Tm). IsTime r.0 day (second_of_day c) in
    let test = ltb_ℤ (pos 10000) t.tm_year || ltb_ℤ t.tm_year (negsuc 9999) in
    let in_range : test ≡ false = ground arith in
    let yday = day_of_year t.tm_year (pos_part t.tm_mon) t.tm_mday in
    let days = other_years t.tm_year yday in
    let same = ap₂ (day_of_year t.tm_year) mon h.day in
    let up = ap pos_part same in
    let down = ap neg_part same in
    let yday_parts = day_of_year_lem t.tm_year c.year c.month c.day h.year in
    let day_parts = other_years_lem t.tm_year c.year yday h.year in
    let sum = sum_time c.second c.minute c.hour days in
    rw (in_range, h.second, h.minute, h.hour) (omega arith, omega arith)

-- The time of a structure whose fields are in range, in years that are accepted.
pub pa_mktime_lem :
    (t : Tm) (c : Civil) (day : ℕ)
    → Holds t c
    → IsDate c
    → IsDayOf c day
    → c.year ≤ 12300
    → IsTime (pa_mktime t).0 day (second_of_day c)
unfolding pa_mktime
pa_mktime_lem t c day h d e low =
    subst (λ (v : Tm). IsTime (time_of v).0 day (second_of_day c))
      (sym (validate_structure_lem t c h d)) (time_of_lem t c day h e low d)

pub same_time : (t u : ℤ) (day s : ℕ) → IsTime t day s → IsTime u day s → t ≡ u
same_time t u day s (h, _) (k, _) = eq_of_parts t u (omega arith)

pub second_of_day-civil_of : (day s : ℕ) → second_of_day (civil_of day s) ≡ s
second_of_day-civil_of day s = omega arith

-- For the second s of a day from 1 March of the year -400 on, `pa_gmtime` fills in the date of that day in
-- the Gregorian calendar and the time s of the day: each field is in its range, and the date's days from
-- 1 January of the year -400, by the leap years and the lengths of the months before it, are the day's.
pub pa_gmtime_lem :
    (t : ℤ) (day s : ℕ)
    → IsTime t day s
    → (c : Civil) × Holds (pa_gmtime t) c × IsDate c × IsDayOf c day × (second_of_day c ≡ s)
pa_gmtime_lem t day s h = (
  civil_of day s,
  pa_gmtime-Holds t day s h,
  civil_of-IsDate day s h.1,
  date_lem day,
  second_of_day-civil_of day s,
)

pub time_again :
    (tm : Tm) (t : ℤ) (day s : ℕ)
    → Holds tm (civil_of day s)
    → IsTime t day s
    → civil_year day ≤ 12300
    → (pa_mktime tm).0 ≡ t
time_again tm t day s holds h low =
    let k =
      pa_mktime_lem tm (civil_of day s) day holds (civil_of-IsDate day s h.1) (date_lem day) low in
    same_time _ t day s (subst (IsTime _ day) (second_of_day-civil_of day s) k) h

allowed_year : (n : ℕ) → n ≤ 328187203199 → civil_year (n / 86400) ≤ 12300
allowed_year n h = let b = civil_year_bound (n / 86400) in omega arith

-- A time from 1 March of the year -400 up to `MAX_DATE` that `pa_gmtime` takes apart is the time that
-- `pa_mktime` makes of the structure.
pub pa_mktime-pa_gmtime :
    (t : ℤ) → neg_part t ≤ 74784816000 → pos_part t ≤ 253402387199 → (pa_mktime (pa_gmtime t)).0 ≡ t
pa_mktime-pa_gmtime t low high =
    let n = pos_part t + 74784816000 - neg_part t in
    let h : IsTime t (n / 86400) (n % 86400) = (omega arith, omega arith) in
    time_again (pa_gmtime t) t (n / 86400) (n % 86400) (pa_gmtime-Holds t _ _ h) h
      (allowed_year n (omega arith))
