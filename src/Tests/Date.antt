-- ===== src/Tests/Date.antt =====
-- Runs of the calendar, and its theorems at concrete times.
use parser.Prelude.{
  ℕ, ◌+◌, ◌/◌, ◌%◌, ◌<◌, ◌≤◌, ◌≡◌, refl, ap, inr, true, false, codes, Option, none, some, List,
  arith,
}
use parser.Prelude.Int.{ℤ, pos, negsuc, pos_part, ◌+ℤ◌, ◌-ℤ◌}
use parser.Prelude.Result.{ok, err}
use parser.Number.{skip_spaces, pa_atoi, pa_ato_any}
use parser.Date.Week.{calc_week, week_diff, week_from}
use parser.Date.WeekYear.{IsIsoWeek}
use parser.Date.WeekIso.{IsYearDate, calc_week_lem}
use parser.Date.Years.{days_up_to}
use parser.Date.Parse.{
  must_be_number, invalid_timezone, cstr_to_time_t, skip_number, digits_of_number, end_number,
  skip_sign, skip_digits, has_delim, date_and_time, iso_time, skip_if, zone_at, with_zone,
  numeric_tz, number_of, number_or, to_year, set_clock,
}
use parser.Date.Object.{
  validate, restore_zero, in_force, zone_mktime, VDate, hour_field, put_field, put_element,
  RangeError, set_time, set_tm, get_sql_string, sql_string_datetime, date_text, time_text,
  print_int,
}
use parser.Date.SqlRoundTrip.{IsPrintable, cstr_to_time_t-get_sql_string}
use parser.Date.Reread.{set_tm-set_time}
use parser.Date.{Tm, pa_gmtime, pa_mktime, validate_structure}
use parser.Date.Fields.{pa_gmtime-Holds, Civil, Holds, IsDate, IsDayOf, second_of_day}
use parser.Date.Validate.{pa_mktime-Holds}
use parser.Date.RoundTrip.{pa_mktime_lem, pa_gmtime_lem, pa_mktime-pa_gmtime}
use parser.Date.YearDay.{missing, added, tm_yday_lem}
use parser.Date.Months.{first_day}

-- 1 January 1970 was a Thursday.
epoch : pa_gmtime (pos 0) ≡ record {
  tm_sec = pos 0;
  tm_min = pos 0;
  tm_hour = pos 0;
  tm_mday = pos 1;
  tm_mon = pos 0;
  tm_year = pos 70;
  tm_wday = pos 4;
  tm_yday = pos 0;
  tm_isdst = pos 0;
}
unfolding pa_gmtime ◌+ℤ◌ ◌-ℤ◌ parser.Prelude.Int.◌*ℤ◌
epoch = refl

-- 1 March 2100: `tm_yday` is 59 in a year that is no leap year, and `pa_gmtime` says 60.
day_too_late : (pa_gmtime (pos 4107542400)).tm_yday ≡ pos 60
unfolding pa_gmtime ◌+ℤ◌ ◌-ℤ◌ parser.Prelude.Int.◌*ℤ◌
day_too_late = refl

-- 12 June 1998, 25:61:-1, and the 0th of March 1900.
abbrev overflown : Tm
overflown = record {
  tm_sec = negsuc 0;
  tm_min = pos 61;
  tm_hour = pos 25;
  tm_mday = pos 12;
  tm_mon = pos 5;
  tm_year = pos 98;
  tm_wday = pos 0;
  tm_yday = pos 0;
  tm_isdst = pos 0;
}

overflown_fits :
    validate_structure overflown
    ≡ record overflown { tm_sec = pos 59; tm_min = pos 0; tm_hour = pos 2; tm_mday = pos 13 }
unfolding validate_structure ◌+ℤ◌ ◌-ℤ◌
overflown_fits = refl

pa_gmtime_lem_example :
    (c : Civil) × Holds (pa_gmtime (pos 951782400)) c
    × IsDate c
    × IsDayOf c 876581
    × (second_of_day c ≡ 0)
pa_gmtime_lem_example = pa_gmtime_lem (pos 951782400) 876581 0 (refl, omega arith)

pa_mktime-pa_gmtime_example : (pa_mktime (pa_gmtime (negsuc 86400))).0 ≡ negsuc 86400
pa_mktime-pa_gmtime_example = pa_mktime-pa_gmtime (negsuc 86400) (omega arith) (omega arith)

tm_yday_lem_example :
    (pa_gmtime (pos 4107542400)).tm_yday +ℤ pos (missing 913106)
    ≡ (pa_mktime (pa_gmtime (pos 4107542400))).1.tm_yday +ℤ pos (added 913106)
tm_yday_lem_example = tm_yday_lem (pos 4107542400) 913106 0 (refl, omega arith)

abbrev june : ℕ
june = first_day 2398 5

-- 3000 days before 12 June 1998.
abbrev long_before : Tm
long_before = record overflown { tm_mday = negsuc 2987 }

-- The texts of the source's comment, and what is refused.
abbrev now : Tm
now = pa_gmtime (pos 0)

iso_text :
    cstr_to_time_t now true (some (codes "2002-04-25T18:14:00.45+01:00"))
    ≡ ok (
      record {
        tm_sec = pos 0;
        tm_min = pos 14;
        tm_hour = pos 18;
        tm_mday = pos 25;
        tm_mon = pos 3;
        tm_year = pos 102;
        tm_wday = pos 0;
        tm_yday = pos 0;
        tm_isdst = negsuc 0;
      },
      some (codes "SUB-01:00"),
    )
unfolding cstr_to_time_t skip_number digits_of_number end_number skip_sign skip_digits skip_spaces
    has_delim date_and_time iso_time skip_if zone_at with_zone numeric_tz number_of number_or
    to_year set_clock pa_atoi pa_ato_any ◌-ℤ◌
iso_text = refl

no_digit : cstr_to_time_t now true (some (codes "2002-x")) ≡ err must_be_number
unfolding cstr_to_time_t skip_number digits_of_number end_number skip_sign skip_digits skip_spaces
    has_delim date_and_time
no_digit = refl

bad_zone : cstr_to_time_t now true (some (codes "2002-04-25T18:14+1x")) ≡ err invalid_timezone
unfolding cstr_to_time_t skip_number digits_of_number end_number skip_sign skip_digits skip_spaces
    has_delim date_and_time iso_time skip_if zone_at with_zone numeric_tz
bad_zone = refl

abbrev evening : VDate
evening = record {
  ftime = pos 0;
  ftm = record {
    tm_sec = pos 7;
    tm_min = pos 5;
    tm_hour = pos 23;
    tm_mday = pos 29;
    tm_mon = pos 1;
    tm_year = pos 100;
    tm_wday = pos 2;
    tm_yday = pos 59;
    tm_isdst = pos 0;
  };
  ftz_cstr = none;
}

evening_text : get_sql_string sql_string_datetime evening ≡ codes "2000-02-29 23:05:07"
unfolding get_sql_string date_text time_text print_int ◌+ℤ◌
evening_text = refl

evening-IsPrintable : IsPrintable evening.ftm
unfolding ◌+ℤ◌
evening-IsPrintable = record {
  y = 2000;
  mo = 2;
  da = 29;
  h = 23;
  mi = 5;
  s = 7;
  is_year = (refl, omega arith);
  is_month = (refl, omega arith);
  is_day = (refl, omega arith);
  is_hour = (refl, omega arith);
  is_minute = (refl, omega arith);
  is_second = (refl, omega arith);
}

cstr_to_time_t-get_sql_string_example :
    cstr_to_time_t now true (some (get_sql_string sql_string_datetime evening))
    ≡ ok (record evening.ftm { tm_wday = pos 0; tm_yday = pos 0; tm_isdst = negsuc 0 }, none)
cstr_to_time_t-get_sql_string_example =
    cstr_to_time_t-get_sql_string now true evening evening-IsPrintable

-- A C library that knows UTC only.
abbrev localtime : Option (List ℕ) → ℤ → Tm
localtime z t = pa_gmtime t

abbrev mktime : Option (List ℕ) → Tm → ℤ × Tm
mktime z t = pa_mktime t

abbrev gmt_offset : Option (List ℕ) → ℤ
gmt_offset z = pos 0

set_tm-set_time_example :
    (u : VDate) × (v : VDate) × (tm : Tm) × (set_time none localtime mktime gmt_offset
        (pos 951865507)
        evening
      ≡ (u, none))
    × (cstr_to_time_t now false (some (get_sql_string sql_string_datetime u)) ≡ ok (tm, none))
    × (set_tm none localtime mktime gmt_offset tm u ≡ (v, none))
    × (v.ftime ≡ pos 951865507)
set_tm-set_time_example =
    set_tm-set_time none localtime mktime gmt_offset (λ z. refl)
      (λ z t day s _ _ h. pa_gmtime-Holds t day s h)
      (λ z t c day h. inr (pa_mktime_lem t c day h.holds h.date h.day_of (omega (arith, h.up_to))))
      (λ z t c day h. pa_mktime-Holds t c h.holds h.date) now false evening (pos 951865507)
      (omega arith) (omega arith) (λ e. omega (arith, ap pos_part e))

abbrev morning : Tm
morning = record evening.ftm { tm_hour = pos 5 }

morning_time : (pa_mktime morning).0 ≡ pos 951800707
unfolding pa_mktime ◌+ℤ◌ ◌-ℤ◌ parser.Prelude.Int.◌*ℤ◌
morning_time = refl

abbrev at_five : VDate × Option RangeError
at_five = put_element none localtime mktime gmt_offset hour_field (pos 5) evening

at_five_time : at_five.0.ftime ≡ pos 951800707
unfolding put_element put_field set_tm zone_mktime validate restore_zero in_force pa_mktime ◌+ℤ◌
    ◌-ℤ◌ parser.Prelude.Int.◌*ℤ◌
at_five_time = refl

-- 1 January 2000 lies in the last week of 1999.
abbrev new_year : Tm
new_year = record {
  tm_sec = pos 0;
  tm_min = pos 0;
  tm_hour = pos 0;
  tm_mday = pos 1;
  tm_mon = pos 0;
  tm_year = pos 100;
  tm_wday = pos 6;
  tm_yday = pos 0;
  tm_isdst = pos 0;
}

abbrev normalized : Tm → Tm
normalized t = (pa_mktime t).1

new_year_week : calc_week 1 normalized new_year ≡ record { week_year = pos 99; week = 52 }
unfolding calc_week week_diff week_from pa_mktime ◌+ℤ◌ ◌-ℤ◌
new_year_week = refl

-- Sunday 9 January 2101 is in the first week of that year.
past_the_table :
    calc_week 1 normalized
      (record new_year { tm_mday = pos 9; tm_year = pos 201; tm_wday = pos 0; tm_yday = pos 8 })
    ≡ record { week_year = pos 201; week = 2 }
unfolding calc_week week_diff week_from ◌+ℤ◌ ◌-ℤ◌
past_the_table = refl

abbrev first_of_2000 : Civil
first_of_2000 = record { year = 2400; month = 0; day = 1; hour = 0; minute = 0; second = 0 }

new_year-IsYearDate : IsYearDate new_year first_of_2000 0
unfolding first_day days_up_to parser.Date.Months.start_of
new_year-IsYearDate = record {
  holds = record {
    year = refl;
    month = refl;
    day = refl;
    hour = refl;
    minute = refl;
    second = refl;
  };
  date = record {
    month_below = omega arith;
    day_above = omega arith;
    day_fits = omega arith;
    hour_below = omega arith;
    minute_below = omega arith;
    second_below = omega arith;
  };
  day_of_year = refl;
  same_yday = refl;
}

calc_week_lem_example : IsIsoWeek (days_up_to 2400 + 0) (calc_week 1 normalized new_year)
calc_week_lem_example =
    calc_week_lem normalized (λ t. refl) (λ t. refl) new_year first_of_2000 0 new_year-IsYearDate
      (omega arith) (omega arith)
