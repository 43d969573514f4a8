-- ===== src/Date/Reread.antt =====
-- A date that is set, printed, read and set again, in UTC: `set_time`, `get_sql_string` and `set_tm` of
-- src/types/pa_vdate.C with `cstr_to_time_t` of src/classes/date.C.
use parser.Prelude.{
  ℕ, ◌+◌, ◌-◌, ◌/◌, ◌%◌, ◌≤◌, ◌≡◌, ◌≢◌, ◌⊎◌, inl, inr, refl, ap, sym, subst, ◌∙◌, Bool, false, ◌||◌,
  Option, none, some, List, if_cases, arith,
}
use parser.Prelude.Int.{ℤ, pos, negsuc, pos_part, neg_part, ◌+ℤ◌, ◌-ℤ◌, ltb_ℤ}
use parser.Prelude.Result.{ok}
use parser.Date.{Tm, pa_gmtime, pa_mktime}
use parser.Date.Days.{IsTime}
use parser.Date.Fields.{
  IsDayOf, second_of_day, Civil, IsDate, Holds, civil_of, civil_of-IsDate, pa_gmtime-Holds,
}
use parser.Date.RoundTrip.{pa_mktime_lem, same_time, second_of_day-civil_of}
use parser.Date.Civil.{date_lem}
use parser.Date.Parse.{cstr_to_time_t}
use parser.Date.Object.{
  VDate, Field, put_field, put_element, set_changed, RangeError, eq_ℤ, in_force, pa_localtime,
  zone_mktime, set_time, set_tm, get_sql_string, sql_string_datetime,
}
use parser.Date.Validate.{
  year_range, printable, validate_lem, same_fields, plus_nothing, minus_nothing, ne_eq_ℤ,
  pa_mktime-Holds, within_dates,
}
use parser.Date.SqlRoundTrip.{cstr_to_time_t-get_sql_string}

-- A structure that `mktime` is asked for: it is not known whether summer time is in force, and every field
-- is in the range of a date of the years 0 to 9999, the one on the day counted from 1 March of the year -400.
pub record IsAsked (t : Tm) (c : Civil) (day : ℕ) : Type 0 where
  pub isdst : t.tm_isdst ≡ negsuc 0
  pub holds : Holds t c
  pub date : IsDate c
  pub day_of : IsDayOf c day
  pub from : 400 ≤ c.year
  pub up_to : c.year ≤ 10399

-- What is not the answer -1 is the second.
found :
    (r : ℤ) (day s : ℕ)
    → eq_ℤ r (negsuc 0) ≡ false
    → (r ≡ negsuc 0) ⊎ IsTime r day s
    → IsTime r day s
found r day s ne (inl e) = let same = subst (λ a. eq_ℤ a (negsuc 0) ≡ false) e ne in ground arith
found r day s ne (inr h) = h

-- In UTC there is no offset, and `localtime`, which is called for times of 31 bits, finds the date of the
-- calendar. `mktime` answers -1 or the second of the date, and keeps a date whose fields are in range.
module _ (default_tz : Option (List ℕ)) (localtime : Option (List ℕ) → ℤ → Tm)
    (mktime : Option (List ℕ) → Tm → ℤ × Tm) (gmt_offset : Option (List ℕ) → ℤ)
    (no_offset : (z : Option (List ℕ)) → gmt_offset z ≡ pos 0)
    (localtime-Holds : (z : Option (List ℕ)) (t : ℤ) (day s : ℕ)
      → neg_part t ≡ 0
      → pos_part t ≤ 2147483647
      → IsTime t day s
      → Holds (localtime z t) (civil_of day s))
    (mktime_lem : (z : Option (List ℕ)) (t : Tm) (c : Civil) (day : ℕ)
      → IsAsked t c day
      → ((mktime z t).0 ≡ negsuc 0) ⊎ IsTime (mktime z t).0 day (second_of_day c))
    (mktime-Holds : (z : Option (List ℕ)) (t : Tm) (c : Civil) (day : ℕ)
      → IsAsked t c day
      → Holds (mktime z t).1 c) where
  pa_localtime-Holds :
      (tz : Option (List ℕ)) (t : ℤ) (day s : ℕ)
      → IsTime t day s
      → Holds (pa_localtime default_tz localtime mktime gmt_offset tz t) (civil_of day s)
  unfolding pa_localtime
  pa_localtime-Holds tz t day s h =
      let z = in_force default_tz localtime mktime gmt_offset tz in
      if_cases (λ (r : Tm). Holds r (civil_of day s)) (ltb_ℤ t (pos 0) || ltb_ℤ (pos 2147483647) t)
        {x = pa_gmtime (t +ℤ gmt_offset z)} {y = localtime z t}
        (λ _.
          subst (λ (u : ℤ). Holds (pa_gmtime u) (civil_of day s))
            (sym (plus_nothing t (gmt_offset z) (no_offset z))) (pa_gmtime-Holds t day s h))
        (λ (e : (ltb_ℤ t (pos 0) || ltb_ℤ (pos 2147483647) t) ≡ false).
          localtime-Holds z t day s (ground arith) (ground arith) h)

  zone_mktime_lem :
      (tz : Option (List ℕ)) (t : Tm) (c : Civil) (day : ℕ)
      → IsAsked t c day
      → IsTime (zone_mktime default_tz localtime mktime gmt_offset tz t).0 day (second_of_day c)
  unfolding zone_mktime
  zone_mktime_lem tz t c day h =
      let z = in_force default_tz localtime mktime gmt_offset tz in
      let kept = mktime-Holds z t c day h in
      let up_to = h.up_to in
      if_cases (λ (r : ℤ × Tm). IsTime r.0 day (second_of_day c)) (eq_ℤ (mktime z t).0 (negsuc 0))
        {x = ((pa_mktime (mktime z t).1).0 -ℤ gmt_offset z, (pa_mktime (mktime z t).1).1)}
        {y = mktime z t}
        (λ _.
          rw (minus_nothing (pa_mktime (mktime z t).1).0 (gmt_offset z) (no_offset z))
            (pa_mktime_lem (mktime z t).1 c day kept h.date h.day_of (omega arith)))
        (λ (ne : eq_ℤ (mktime z t).0 (negsuc 0) ≡ false).
          found (mktime z t).0 day (second_of_day c) ne (mktime_lem z t c day h))

  zone_mktime-Holds :
      (tz : Option (List ℕ)) (t : Tm) (c : Civil) (day : ℕ)
      → IsAsked t c day
      → Holds (zone_mktime default_tz localtime mktime gmt_offset tz t).1 c
  unfolding zone_mktime
  zone_mktime-Holds tz t c day h =
      let z = in_force default_tz localtime mktime gmt_offset tz in
      let kept = mktime-Holds z t c day h in
      if_cases (λ (r : ℤ × Tm). Holds r.1 c) (eq_ℤ (mktime z t).0 (negsuc 0))
        {x = ((pa_mktime (mktime z t).1).0 -ℤ gmt_offset z, (pa_mktime (mktime z t).1).1)}
        {y = mktime z t} (λ _. pa_mktime-Holds (mktime z t).1 c kept h.date) (λ _. kept)

  set_time_lem :
      (t : ℤ) (d : VDate) (day s : ℕ)
      → IsTime t day s
      → t ≢ negsuc 0
      → (146037 ≤ day) × (day ≤ 3798461)
      → set_time default_tz localtime mktime gmt_offset t d ≡ (
        record d {
          ftime = t;
          ftm = pa_localtime default_tz localtime mktime gmt_offset d.ftz_cstr t;
        },
        none,
      )
  unfolding set_time
  set_time_lem t d day s h ne (low, high) =
      let (above, below) = within_dates t day s h (low, high) in
      rw (ne_eq_ℤ t (negsuc 0) ne, above, below)
        (validate_lem
          (record d {
            ftime = t;
            ftm = pa_localtime default_tz localtime mktime gmt_offset d.ftz_cstr t;
          })
          (civil_of day s) (pa_localtime-Holds d.ftz_cstr t day s h) (year_range day low high))

  set_tm_lem :
      (tm : Tm) (d : VDate) (c : Civil) (day : ℕ) (t : ℤ)
      → IsAsked tm c day
      → IsTime t day (second_of_day c)
      → t ≢ negsuc 0
      → (t' : Tm) × Holds t' c
        × (set_tm default_tz localtime mktime gmt_offset tm d
            ≡ (record d { ftime = t; ftm = t' }, none))
  unfolding set_tm
  set_tm_lem tm d c day t h e ne =
      let time = same_time _ t day _ (zone_mktime_lem d.ftz_cstr tm c day h) e in
      let t' = (zone_mktime default_tz localtime mktime gmt_offset d.ftz_cstr tm).1 in
      let kept = zone_mktime-Holds d.ftz_cstr tm c day h in
      (
        t',
        kept,
        rw (time, ne_eq_ℤ t (negsuc 0) ne)
            (validate_lem (record d { ftime = t; ftm = t' }) c kept (h.from, h.up_to)),
      )

  -- Every second of the years 0 to 9999 but the one before 1 January 1970 can be set, and the text that is
  -- printed for it is read as a structure that sets the same second again. This is in UTC: no offset is in
  -- force, `localtime` finds the date of the Gregorian calendar for times from 0 to 2^31 - 1, and for the
  -- dates of these years, where it is not said whether summer time is in force, `mktime` finds the second or
  -- answers -1, and in both cases keeps the date.
  pub set_tm-set_time :
      (now : Tm) (zone : Bool) (d : VDate) (t : ℤ)
      → neg_part t ≤ 62167219200
      → pos_part t ≤ 253402300799
      → t ≢ negsuc 0
      → (u : VDate) × (v : VDate) × (tm : Tm) × (set_time default_tz localtime mktime gmt_offset t d
          ≡ (u, none))
        × (cstr_to_time_t now zone (some (get_sql_string sql_string_datetime u)) ≡ ok (tm, none))
        × (set_tm default_tz localtime mktime gmt_offset tm u ≡ (v, none))
        × (v.ftime ≡ t)
  set_tm-set_time now zone d t low high ne =
      let n = pos_part t + 74784816000 - neg_part t in
      let h : IsTime t (n / 86400) (n % 86400) = (omega arith, omega arith) in
      let c = civil_of (n / 86400) (n % 86400) in
      let date = civil_of-IsDate (n / 86400) (n % 86400) h.1 in
      let days : (146037 ≤ n / 86400) × (n / 86400 ≤ 3798461) = (omega arith, omega arith) in
      let years = year_range (n / 86400) days.0 days.1 in
      let ftm = pa_localtime default_tz localtime mktime gmt_offset d.ftz_cstr t in
      let holds = pa_localtime-Holds d.ftz_cstr t (n / 86400) (n % 86400) h in
      let u = record d { ftime = t; ftm = ftm } in
      let tm = record ftm { tm_wday = pos 0; tm_yday = pos 0; tm_isdst = negsuc 0 } in
      let second = second_of_day-civil_of (n / 86400) (n % 86400) in
      let time = subst (IsTime t (n / 86400)) (sym second) h in
      let asked : IsAsked tm c (n / 86400) = record {
        isdst = refl;
        holds = same_fields ftm c holds;
        date = date;
        day_of = date_lem (n / 86400);
        from = years.0;
        up_to = years.1;
      } in
      let (t', _, set) = set_tm_lem tm u c (n / 86400) t asked time ne in
      (
        u,
        record u { ftm = t' },
        tm,
        set_time_lem t d (n / 86400) (n % 86400) h ne days,
        cstr_to_time_t-get_sql_string now zone u (printable ftm c holds date years),
        set,
        refl,
      )

  -- A field that is written gives the date with the new field, if that is one of the years 0 to 9999 whose
  -- fields are in range: its date and time are those of the changed structure, and its time is the second of
  -- that date. The time is not to be the second before 1 January 1970, and all this is in UTC.
  pub put_element_lem :
      (f : Field) (v : ℤ) (d : VDate) (tm : Tm) (c : Civil) (day : ℕ) (t : ℤ)
      → put_field f v d.ftm ≡ ok tm
      → IsAsked tm c day
      → IsTime t day (second_of_day c)
      → t ≢ negsuc 0
      → ((put_element default_tz localtime mktime gmt_offset f v d).1 ≡ none)
        × ((put_element default_tz localtime mktime gmt_offset f v d).0.ftime ≡ t)
        × Holds (put_element default_tz localtime mktime gmt_offset f v d).0.ftm c
  unfolding put_element
  put_element_lem f v d tm c day t e asked time ne =
      let (t', kept, set) = set_tm_lem tm d c day t asked time ne in
      subst (λ (r : VDate × Option RangeError). (r.1 ≡ none) × (r.0.ftime ≡ t) × Holds r.0.ftm c)
        (sym (ap (set_changed default_tz localtime mktime gmt_offset d) e ∙ set)) (refl, refl, kept)
