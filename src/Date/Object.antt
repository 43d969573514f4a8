-- ===== src/Date/Object.antt =====
-- The value of type date, class VDate of src/types/pa_vdate.C and pa_vdate.h. The C library is behind the
-- arguments `localtime`, `mktime` and `gmt_offset`, which take the name of the time zone that is in force.
use parser.Prelude.{
  ℕ, zero, suc, ◌+◌, ◌-◌, ◌/◌, ◌%◌, Bool, false, ◌&&◌, ◌||◌, Option, none, some, List, [], ◌∷◌,
  ◌++◌, ltb, ◌==◌, if◌then◌else◌, take, get_or, codes,
}
use parser.Prelude.Int.{ℤ, pos, negsuc, pos_part, ◌+ℤ◌, ◌-ℤ◌, ltb_ℤ}
use parser.Prelude.Result.{Result, ok, err}
use parser.Date.{Tm, pa_gmtime, pa_mktime}

pub record VDate : Type 0 where
  pub ftime : ℤ
  pub ftm : Tm
  pub ftz_cstr : Option (List ℕ)

-- The exceptions: of the type date.range, and for a field that cannot be written.
pub data RangeError : Type 0 where
  invalid_datetime time_out_of_range year_out_of_range field_not_found : RangeError

abbrev pub zero_date : ℤ
zero_date = negsuc 62170070399

abbrev pub max_date : ℤ
max_date = pos 253402387199

abbrev pub eq_ℤ : ℤ → ℤ → Bool
eq_ℤ (pos a) (pos b) = a == b
eq_ℤ (negsuc a) (negsuc b) = a == b
eq_ℤ _ _ = false

-- The date of `'0000-00-00'`.
unfoldable pub restore_zero : Tm → Tm
restore_zero t =
    if eq_ℤ t.tm_year (negsuc 1900) && (eq_ℤ t.tm_mon (pos 10) && eq_ℤ t.tm_mday (pos 30))
    then record t { tm_year = negsuc 1899; tm_mon = negsuc 0; tm_mday = pos 0 }
    else t

-- A method returns the object that it leaves, with what it throws.
unfoldable pub validate : VDate → VDate × Option RangeError
unfolding restore_zero
validate d =
    let t = restore_zero d.ftm in
    if ltb_ℤ (t.tm_year +ℤ pos 1900) (pos 0) || ltb_ℤ (pos 9999) (t.tm_year +ℤ pos 1900)
    then (record d { ftm = t }, some year_out_of_range)
    else (record d { ftm = t }, none)

unfoldable pub set_tz : List ℕ → VDate → VDate
set_tz [] d = record d { ftz_cstr = none }
set_tz (c ∷ cs) d = record d { ftz_cstr = some (c ∷ cs) }

-- The time zone in force is that of the date, or the default one.
module _ (default_tz : Option (List ℕ)) (localtime : Option (List ℕ) → ℤ → Tm)
    (mktime : Option (List ℕ) → Tm → ℤ × Tm) (gmt_offset : Option (List ℕ) → ℤ) where
  unfoldable pub in_force : Option (List ℕ) → Option (List ℕ)
  in_force none = default_tz
  in_force (some tz) = some tz

  unfoldable pub pa_localtime : Option (List ℕ) → ℤ → Tm
  unfolding in_force
  pa_localtime tz atime =
      if ltb_ℤ atime (pos 0) || ltb_ℤ (pos 2147483647) atime
      then pa_gmtime (atime +ℤ gmt_offset (in_force tz))
      else localtime (in_force tz) atime

  -- The library's mktime answers -1 for what it cannot represent.
  unfoldable pub zone_mktime : Option (List ℕ) → Tm → ℤ × Tm
  unfolding in_force
  zone_mktime tz tm_in =
      let (result, t) = mktime (in_force tz) tm_in in
      let (time, u) = pa_mktime t in
      if eq_ℤ result (negsuc 0) then (time -ℤ gmt_offset (in_force tz), u) else (result, t)

  unfoldable pub set_time : ℤ → VDate → VDate × Option RangeError
  set_time atime d =
      if eq_ℤ atime (negsuc 0)
      then (d, some invalid_datetime)
      else if ltb_ℤ atime zero_date || ltb_ℤ max_date atime
      then (d, some time_out_of_range)
      else validate (record d { ftime = atime; ftm = pa_localtime d.ftz_cstr atime })

  unfoldable pub set_tm : Tm → VDate → VDate × Option RangeError
  set_tm tm_in d =
      let (atime, t) = zone_mktime d.ftz_cstr tm_in in
      if eq_ℤ atime (negsuc 0)
      then (d, some invalid_datetime)
      else validate (record d { ftime = atime; ftm = t })

-- `%.Nd` prints N digits at least.
abbrev pub digit_count : ℕ → ℕ → ℕ
digit_count zero n = 1
digit_count (suc rounds) n = if ltb n 10 then 1 else suc (digit_count rounds (n / 10))

abbrev pub pad_digits : ℕ → ℕ → List ℕ → List ℕ
pad_digits zero n acc = acc
pad_digits (suc k) n acc = pad_digits k (n / 10) ((n % 10 + b'0') ∷ acc)

abbrev pub at_least : ℕ → ℕ → ℕ
at_least width count = if ltb count width then width else count

-- An `int` has ten digits at most.
unfoldable pub print_int : ℕ → ℤ → List ℕ
print_int width (pos n) = pad_digits (at_least width (digit_count 9 n)) n []
print_int width (negsuc n) = b'-' ∷ pad_digits (at_least width (digit_count 9 (n + 1))) (n + 1) []

-- `pa_snprintf` writes what fits in front of the final zero.
abbrev pub snprintf : ℕ → List ℕ → List ℕ
snprintf size text = take (size - 1) text

unfoldable pub date_text : Tm → List ℕ
unfolding print_int
date_text t =
    print_int 4 (t.tm_year +ℤ pos 1900)
    ++ (b'-' ∷ print_int 2 (t.tm_mon +ℤ pos 1) ++ (b'-' ∷ print_int 2 t.tm_mday))

unfoldable pub time_text : Tm → List ℕ
unfolding print_int
time_text t =
    print_int 2 t.tm_hour ++ (b':' ∷ print_int 2 t.tm_min ++ (b':' ∷ print_int 2 t.tm_sec))

pub data SqlStringType : Type 0 where
  sql_string_datetime sql_string_date sql_string_time : SqlStringType

unfoldable pub get_sql_string : SqlStringType → VDate → List ℕ
unfolding date_text time_text
get_sql_string sql_string_datetime d = snprintf 20 (date_text d.ftm ++ (32 ∷ time_text d.ftm))
get_sql_string sql_string_date d = snprintf 11 (date_text d.ftm)
get_sql_string sql_string_time d = snprintf 9 (time_text d.ftm)

abbrev pub month_names : List (List ℕ)
month_names =
    codes "Jan"
    ∷ codes "Feb"
    ∷ codes "Mar"
    ∷ codes "Apr"
    ∷ codes "May"
    ∷ codes "Jun"
    ∷ codes "Jul"
    ∷ codes "Aug"
    ∷ codes "Sep"
    ∷ codes "Oct"
    ∷ codes "Nov"
    ∷ codes "Dec"
    ∷ []

abbrev pub days : List (List ℕ)
days =
    codes "Sun"
    ∷ codes "Mon"
    ∷ codes "Tue"
    ∷ codes "Wed"
    ∷ codes "Thu"
    ∷ codes "Fri"
    ∷ codes "Sat"
    ∷ []

unfoldable pub get_gmt_string : VDate → List ℕ
unfolding print_int time_text
get_gmt_string d =
    let gtm = pa_gmtime d.ftime in
    snprintf 30 (
      get_or days (pos_part gtm.tm_wday) []
      ++ (codes ", "
          ++ (print_int 2 gtm.tm_mday
              ++ (32 ∷ get_or month_names (pos_part gtm.tm_mon) []
                  ++ (32 ∷ print_int 4 (gtm.tm_year +ℤ pos 1900)
                      ++ (32 ∷ time_text gtm ++ codes " GMT"))))))

-- The fields that are read and written by name, but for the week.
pub data Field : Type 0 where
  year_field month_field day_field hour_field minute_field second_field : Field
  weekday_field yearday_field daylightsaving_field : Field

unfoldable pub get_field : Field → Tm → ℤ
get_field year_field t = pos 1900 +ℤ t.tm_year
get_field month_field t = pos 1 +ℤ t.tm_mon
get_field day_field t = t.tm_mday
get_field hour_field t = t.tm_hour
get_field minute_field t = t.tm_min
get_field second_field t = t.tm_sec
get_field weekday_field t = t.tm_wday
get_field yearday_field t = t.tm_yday
get_field daylightsaving_field t = t.tm_isdst

unfoldable pub put_field : Field → ℤ → Tm → Result RangeError Tm
put_field year_field v t =
    if ltb_ℤ v (pos 0) || ltb_ℤ (pos 9999) v
    then err year_out_of_range
    else ok (record t { tm_year = v -ℤ pos 1900 })
put_field month_field v t = ok (record t { tm_mon = v -ℤ pos 1 })
put_field day_field v t = ok (record t { tm_mday = v })
put_field hour_field v t = ok (record t { tm_hour = v })
put_field minute_field v t = ok (record t { tm_min = v })
put_field second_field v t = ok (record t { tm_sec = v })
put_field _ v t = err field_not_found

module _ (default_tz : Option (List ℕ)) (localtime : Option (List ℕ) → ℤ → Tm)
    (mktime : Option (List ℕ) → Tm → ℤ × Tm) (gmt_offset : Option (List ℕ) → ℤ) where
  abbrev pub set_changed : VDate → Result RangeError Tm → VDate × Option RangeError
  set_changed d (ok t) = set_tm default_tz localtime mktime gmt_offset t d
  set_changed d (err e) = (d, some e)

  unfoldable pub put_element : Field → ℤ → VDate → VDate × Option RangeError
  put_element f v d = set_changed d (put_field f v d.ftm)
