-- ===== src/Date.antt =====
-- The calendar of src/types/pa_vdate.C: `pa_gmtime` and `pa_mktime` in the build without PA_DATE64, where a
-- time is a double; a whole number of seconds, which is exact in it, is an integer here.
pub mod Parse
pub mod Object
pub mod SqlText
pub mod SqlNumbers
pub mod SqlRoundTrip
pub mod Validate
pub mod Reread
pub mod Week
pub mod WeekYear
pub mod WeekBefore
pub mod WeekIso
pub mod Era
pub mod Years
pub mod Days
pub mod Civil
pub mod Fields
pub mod RoundTrip
pub mod YearDay
pub mod Carry
pub mod Months
pub mod Fit
pub mod Normal
pub mod Overflow
use parser.Prelude.{
  ℕ, zero, suc, ◌+◌, ◌-◌, ◌*◌, ◌/◌, ◌%◌, Bool, true, false, not, ◌&&◌, ◌||◌, List, [], ◌∷◌, ltb,
  leb, ◌==◌, if◌then◌else◌, get_or,
}
use parser.Prelude.Int.{ℤ, pos, negsuc, pos_part, neg_part, sub_ℕ, ◌+ℤ◌, ◌-ℤ◌, ◌*ℤ◌, ltb_ℤ}

-- Division and remainder of C, which go towards zero.
unfoldable pub quot : ℤ → ℕ → ℤ
quot (pos n) d = pos (n / d)
quot (negsuc n) d = sub_ℕ 0 ((n + 1) / d)

unfoldable pub rem : ℤ → ℕ → ℤ
rem (pos n) d = pos (n % d)
rem (negsuc n) d = sub_ℕ 0 ((n + 1) % d)

-- A remainder of C that is made positive.
unfoldable pub positive_rem : ℤ → ℕ → ℤ
unfolding rem
positive_rem a d = let r = rem a d in if ltb_ℤ r (pos 0) then r +ℤ pos d else r

abbrev pub abs_value : ℤ → ℕ
abs_value a = pos_part a + neg_part a

pub record Tm : Type 0 where
  pub tm_sec : ℤ
  pub tm_min : ℤ
  pub tm_hour : ℤ
  pub tm_mday : ℤ
  pub tm_mon : ℤ
  pub tm_year : ℤ
  pub tm_wday : ℤ
  pub tm_yday : ℤ
  pub tm_isdst : ℤ

-- `IS_LEAP` of a year from 1900 on.
unfoldable pub is_leap : ℤ → Bool
is_leap y =
    (abs_value y % 4 == 0)
    && (not (abs_value y % 100 == 0) || (abs_value (y +ℤ pos 1900) % 400 == 0))

abbrev pub days_in_month : List ℕ
days_in_month = 31 ∷ 28 ∷ 31 ∷ 30 ∷ 31 ∷ 30 ∷ 31 ∷ 31 ∷ 30 ∷ 31 ∷ 30 ∷ 31 ∷ []

abbrev pub days_before_month : List ℕ
days_before_month = 0 ∷ 31 ∷ 59 ∷ 90 ∷ 120 ∷ 151 ∷ 181 ∷ 212 ∷ 243 ∷ 273 ∷ 304 ∷ 334 ∷ []

unfoldable pub get_month_days : ℤ → ℕ → ℕ
unfolding is_leap
get_month_days year month =
    if (month == 1) && is_leap year then 29 else get_or days_in_month month 0

unfoldable pub days_in_year : ℤ → ℕ
unfolding is_leap
days_in_year y = if is_leap y then 366 else 365

-- The days from 1 March of the year 0 and the seconds of the day.
unfoldable pub split_days : ℤ → ℤ × ℕ
unfolding quot
split_days time =
    let days = quot time 86400 in
    let left = time -ℤ days *ℤ pos 86400 in
    if ltb_ℤ left (pos 0)
    then (days +ℤ pos 719468 -ℤ pos 1, pos_part (left +ℤ pos 86400))
    else (days +ℤ pos 719468, pos_part left)

unfoldable pub era_of : ℤ → ℤ
unfolding quot
era_of days = quot (if ltb_ℤ days (pos 0) then days -ℤ pos 146096 else days) 146097

-- The year in the era of 400 years that begins in March, and the day in that year.
unfoldable pub era_year : ℕ → ℕ
era_year e = (e - e / 1460 + e / 36524 - e / 146096) / 365

unfoldable pub year_day : ℕ → ℕ → ℕ
year_day e y = e - (365 * y + y / 4 - y / 100)

-- The month from March, and its number from January.
unfoldable pub march_month : ℕ → ℕ
march_month d = (5 * d + 2) / 153

unfoldable pub month_day : ℕ → ℕ → ℕ
month_day d m = d - (153 * m + 2) / 5 + 1

unfoldable pub from_january : ℕ → ℕ
from_january m = if ltb m 10 then m + 2 else m - 10

unfoldable pub gm_yday : ℕ → ℕ → ℕ
unfolding is_leap
gm_yday y d = if leb 306 d then d - 306 else d + 31 + 28 + (if is_leap (pos y) then 1 else 0)

unfoldable pub pa_gmtime : ℤ → Tm
unfolding split_days positive_rem era_of era_year year_day march_month month_day from_january
    gm_yday
pa_gmtime lcltime =
    let (days, left) = split_days lcltime in
    let era = era_of days in
    let e = pos_part (days -ℤ era *ℤ pos 146097) in
    let y = era_year e in
    let d = year_day e y in
    let m = march_month d in
    let month = from_january m in
    let year = pos y +ℤ era *ℤ pos 400 +ℤ pos (if leb month 1 then 1 else 0) in
    record {
      tm_sec = pos (left % 3600 % 60);
      tm_min = pos (left % 3600 / 60);
      tm_hour = pos (left / 3600);
      tm_mday = pos (month_day d m);
      tm_mon = pos month;
      tm_year = year -ℤ pos 1900;
      tm_wday = positive_rem (pos 3 +ℤ days) 7;
      tm_yday = pos (gm_yday y d);
      tm_isdst = pos 0;
    }

-- `if(low < 0 || low > base-1)` and what follows it, for seconds, minutes, hours and months.
unfoldable pub carry : ℕ → ℤ → ℤ → ℤ × ℤ
unfolding quot rem
carry base low high =
    let r = rem low base in
    if ltb_ℤ low (pos 0) || ltb_ℤ (pos (base - 1)) low
    then (if ltb_ℤ r (pos 0)
        then (r +ℤ pos base, high +ℤ quot low base -ℤ pos 1)
        else (r, high +ℤ quot low base))
    else (low, high)

-- A month of a year with a day that may lie outside.
pub record MonthDay : Type 0 where
  pub mday : ℤ
  pub mon : ℕ
  pub year : ℤ

unfoldable pub month_before : MonthDay → MonthDay
month_before d =
    if d.mon == 0
    then record { mday = d.mday; mon = 11; year = d.year -ℤ pos 1 }
    else record { mday = d.mday; mon = d.mon - 1; year = d.year }

unfoldable pub month_after : MonthDay → MonthDay
month_after d =
    if d.mon + 1 == 12
    then record { mday = d.mday; mon = 0; year = d.year +ℤ pos 1 }
    else record { mday = d.mday; mon = d.mon + 1; year = d.year }

-- The two loops; `days_in_feb` is that of the year, as the source keeps it.
unfoldable pub days_down : ℕ → MonthDay → MonthDay
unfolding month_before get_month_days
days_down zero d = d
days_down (suc rounds) d =
    let b = month_before d in
    let rest = days_down rounds (record b { mday = b.mday +ℤ pos (get_month_days b.year b.mon) }) in
    if ltb_ℤ (pos 0) d.mday then d else rest

unfoldable pub days_up : ℕ → MonthDay → MonthDay
unfolding month_after get_month_days
days_up zero d = d
days_up (suc rounds) d =
    let length = get_month_days d.year d.mon in
    let rest = days_up rounds (month_after (record d { mday = d.mday -ℤ pos length })) in
    if ltb_ℤ (pos length) d.mday then rest else d

-- A round takes a day at least.
unfoldable pub fit_days : MonthDay → MonthDay
unfolding days_down days_up
fit_days d =
    if ltb_ℤ (pos 0) d.mday then days_up (pos_part d.mday) d else days_down (neg_part d.mday + 1) d

unfoldable pub validate_structure : Tm → Tm
unfolding carry fit_days
validate_structure t =
    let (sec, min) = carry 60 t.tm_sec t.tm_min in
    let (min', hour) = carry 60 min t.tm_hour in
    let (hour', mday) = carry 24 hour t.tm_mday in
    let (mon, year) = carry 12 t.tm_mon t.tm_year in
    let d = fit_days (record { mday = mday; mon = pos_part mon; year = year }) in
    record t {
      tm_sec = sec;
      tm_min = min';
      tm_hour = hour';
      tm_mday = d.mday;
      tm_mon = pos d.mon;
      tm_year = d.year;
    }

-- The days of some years from a year on, and of some years down from it.
unfoldable pub years_up : ℕ → ℤ → ℤ → ℤ
unfolding days_in_year
years_up zero year days = days
years_up (suc rounds) year days = years_up rounds (year +ℤ pos 1) (days +ℤ pos (days_in_year year))

unfoldable pub years_down : ℕ → ℤ → ℤ → ℤ
unfolding days_in_year
years_down zero year days = days -ℤ pos (days_in_year year)
years_down (suc rounds) year days =
    years_down rounds (year -ℤ pos 1) (days -ℤ pos (days_in_year year))

unfoldable pub other_years : ℤ → ℤ → ℤ
unfolding years_up years_down
other_years year days =
    if ltb_ℤ (pos 70) year
    then years_up (pos_part (year -ℤ pos 70)) (pos 70) days
    else if ltb_ℤ year (pos 70)
    then years_down (pos_part (pos 69 -ℤ year)) (pos 69) days
    else days

-- The day of the year of a month and a day.
unfoldable pub day_of_year : ℤ → ℕ → ℤ → ℤ
unfolding days_in_year
day_of_year year mon mday =
    mday
    -ℤ pos 1
    +ℤ pos (get_or days_before_month mon 0)
    +ℤ pos (if ltb 1 mon && (days_in_year year == 366) then 1 else 0)

-- What is returned, with the new structure, for one whose fields are in range.
unfoldable pub time_of : Tm → ℤ × Tm
unfolding other_years day_of_year positive_rem
time_of t =
    let yday = day_of_year t.tm_year (pos_part t.tm_mon) t.tm_mday in
    let days = other_years t.tm_year yday in
    let seconds = t.tm_sec +ℤ t.tm_min *ℤ pos 60 +ℤ t.tm_hour *ℤ pos 3600 in
    if ltb_ℤ (pos 10000) t.tm_year || ltb_ℤ t.tm_year (negsuc 9999)
    then (negsuc 0, record t { tm_yday = yday })
    else (
      seconds +ℤ days *ℤ pos 86400,
      record t { tm_yday = yday; tm_wday = positive_rem (days +ℤ pos 4) 7 },
    )

unfoldable pub pa_mktime : Tm → ℤ × Tm
unfolding validate_structure time_of
pa_mktime tim_p = time_of (validate_structure tim_p)
