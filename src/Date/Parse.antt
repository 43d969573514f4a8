-- ===== src/Date/Parse.antt =====
-- `cstr_to_time_t` of src/classes/date.C with its helpers: the text of a date is the list of its bytes, a
-- null pointer is `none`, and a number whose end is overwritten by a zero is the bytes in front of it.
use parser.Prelude.{
  ℕ, suc, ◌-◌, Bool, true, false, not, ◌&&◌, ◌||◌, Option, none, some, List, [], ◌∷◌, ◌++◌, leb,
  ◌==◌, if◌then◌else◌, length, take, codes,
}
use parser.Prelude.Int.{ℤ, pos, negsuc, ◌-ℤ◌, ltb_ℤ}
use parser.Prelude.Result.{Result, ok, err, ◌>>=◌}
use parser.Number.{NumberError, skip_spaces, pa_atoi}
use parser.Date.{Tm}

-- The exceptions, by their messages.
pub data DateError : Type 0 where
  empty_string number_expected must_be_number : DateError
  invalid_character invalid_timezone_character delimiter_expected : ℕ → DateError
  empty_timezone invalid_timezone year_out_of_range : DateError
  number_format : NumberError → DateError

abbrev pub is_digit : ℕ → Bool
is_digit c = leb b'0' c && leb c b'9'

unfoldable pub skip_sign : List ℕ → List ℕ
skip_sign [] = []
skip_sign (c ∷ cs) = if (c == b'-') || (c == b'+') then cs else c ∷ cs

unfoldable pub skip_digits : List ℕ → List ℕ
skip_digits [] = []
skip_digits (c ∷ cs) = if is_digit c then skip_digits cs else c ∷ cs

unfoldable pub has_delim : List ℕ → ℕ → Bool
has_delim [] c = false
has_delim (x ∷ xs) c = (x == c) || has_delim xs c

unfoldable pub same_text : List ℕ → List ℕ → Bool
same_text [] [] = true
same_text (x ∷ xs) (y ∷ ys) = (x == y) && same_text xs ys
same_text _ _ = false

-- A number that was skipped, with what follows its delimiter; the delimiter is 0 at the end of the text.
pub record Skipped : Type 0 where
  pub number : Option (List ℕ)
  pub rest : Option (List ℕ)
  pub delim : ℕ

unfoldable pub skip_number_throw : ℕ → List ℕ → DateError
unfolding same_text
skip_number_throw c [] = invalid_character c
skip_number_throw c (v ∷ valid) =
    if same_text (v ∷ valid) (codes "+-Z")
    then invalid_timezone_character c
    else delimiter_expected c

-- Behind the digits and what white space is skipped.
unfoldable pub end_number : List ℕ → List ℕ → List ℕ → Result DateError Skipped
end_number string valid [] = ok (record { number = some string; rest = none; delim = 0 })
end_number string valid (c ∷ cs) =
    if has_delim valid c
    then ok (record {
      number = some (take (length string - suc (length cs)) string);
      rest = some cs;
      delim = c;
    })
    else err (skip_number_throw c valid)

-- Behind the sign.
unfoldable pub digits_of_number : List ℕ → List ℕ → List ℕ → Result DateError Skipped
digits_of_number string valid [] = err number_expected
digits_of_number string valid (c ∷ cs) =
    if is_digit c
    then end_number string valid
        (if has_delim valid 32 then skip_digits cs else skip_spaces (skip_digits cs))
    else err must_be_number

unfoldable pub skip_number : Option (List ℕ) → List ℕ → Result DateError Skipped
skip_number none valid = ok (record { number = none; rest = none; delim = 0 })
skip_number (some string) valid = digits_of_number string valid (skip_sign (skip_spaces string))

abbrev pub unless_empty : List ℕ → Option (List ℕ)
unless_empty [] = none
unless_empty (c ∷ cs) = some (c ∷ cs)

unfoldable pub skip_writespace : Option (List ℕ) → Option (List ℕ)
skip_writespace none = none
skip_writespace (some str) = unless_empty (skip_spaces str)

-- A digit that must stand there, and one that may.
abbrev pub one_digit : List ℕ → Option (ℕ × List ℕ)
one_digit [] = none
one_digit (c ∷ cs) = if is_digit c then some (c, cs) else none

abbrev pub one_more : List ℕ → List ℕ × List ℕ
one_more [] = ([], [])
one_more (c ∷ cs) = if is_digit c then (c ∷ [], cs) else ([], c ∷ cs)

-- Nothing but white space may follow.
unfoldable pub nothing_more : List ℕ → List ℕ → Option (List ℕ)
nothing_more buf tz = if leb 1 (length (skip_spaces tz)) then none else some buf

unfoldable pub minutes_behind_colon : List ℕ → Option (ℕ × List ℕ) → Option (List ℕ)
unfolding nothing_more
minutes_behind_colon buf none = none
minutes_behind_colon buf (some (m, tz)) =
    let (more, rest) = one_more tz in nothing_more (buf ++ (m ∷ more)) rest

unfoldable pub second_digit : List ℕ → ℕ → Option (ℕ × List ℕ) → Option (List ℕ)
unfolding nothing_more
second_digit buf m none = none
second_digit buf m (some (n, rest)) = nothing_more (buf ++ (m ∷ n ∷ [])) rest

-- The minutes in the forms HH:mm and HHmm.
unfoldable pub zone_minutes : List ℕ → List ℕ → Option (List ℕ)
unfolding nothing_more minutes_behind_colon second_digit
zone_minutes buf [] = nothing_more buf []
zone_minutes buf (c ∷ cs) =
    if c == b':'
    then minutes_behind_colon (buf ++ (b':' ∷ [])) (one_digit cs)
    else if is_digit c
    then second_digit (buf ++ (b':' ∷ [])) c (one_digit cs)
    else nothing_more buf (c ∷ cs)

unfoldable pub zone_hours : List ℕ → Option (ℕ × List ℕ) → Option (List ℕ)
unfolding zone_minutes
zone_hours buf none = none
zone_hours buf (some (h, tz)) =
    let (more, rest) = one_more tz in zone_minutes (buf ++ (h ∷ more)) rest

unfoldable pub numeric_tz : ℕ → List ℕ → Option (List ℕ)
unfolding zone_hours
numeric_tz prefix tz =
    zone_hours (if prefix == b'+' then codes "SUB-" else codes "SUB+") (one_digit tz)

unfoldable pub to_year : ℤ → Result DateError ℤ
to_year iyear =
    if ltb_ℤ iyear (pos 0) || ltb_ℤ (pos 9999) iyear
    then err year_out_of_range
    else ok (iyear -ℤ pos 1900)

unfoldable pub number_of : Option (List ℕ) → Result DateError ℤ
number_of none = ok (pos 0)
number_of (some str) = elim (pa_atoi (some str) 10) [ ok n ↦ ok n | err e ↦ err (number_format e) ]

-- The number of a text that may be left out.
unfoldable pub number_or : Option (List ℕ) → ℤ → ℤ → Result DateError ℤ
number_or none less missing = ok missing
number_or (some str) less missing = number_of (some str) >>= λ n. ok (n -ℤ less)

-- The texts of the parts of a date, and the time zone of its end.
pub record Parts : Type 0 where
  pub hour : Option (List ℕ)
  pub min : Option (List ℕ)
  pub sec : Option (List ℕ)
  pub tz : Option (List ℕ)

-- `SQL date format`, also of the time alone behind its hours.
unfoldable pub sql_minutes : Option (List ℕ) → Option (List ℕ) → Result DateError Parts
sql_minutes hour cur = skip_number cur (codes ":") >>= λ min.
    skip_number min.rest (codes ".") >>= λ sec. skip_number sec.rest [] >>= λ msec.
    ok (record { hour = hour; min = min.number; sec = sec.number; tz = none })

unfoldable pub sql_time : Option (List ℕ) → Result DateError Parts
sql_time cur =
    skip_number (skip_writespace cur) (codes ":") >>= λ hour. sql_minutes hour.number hour.rest

-- The time zone at the end of an `ISO date format`.
unfoldable pub zone_at : ℕ → Option (List ℕ) → Option (List ℕ)
zone_at delim none = if delim == b'Z' then some (codes "UTC") else none
zone_at delim (some cur) =
    if delim == b'Z'
    then elim (skip_writespace (some cur)) [ none ↦ some (codes "UTC") | some rest ↦ none ]
    else numeric_tz delim cur

unfoldable pub with_zone : Parts → ℕ → Option (List ℕ) → Result DateError Parts
with_zone p delim (some tz) = ok (record p { tz = some tz })
with_zone p delim none = err (if delim == 0 then empty_timezone else invalid_timezone)

unfoldable pub skip_if : Bool → Skipped → List ℕ → Result DateError Skipped
skip_if true s valid = skip_number s.rest valid
skip_if false s valid = ok (record s { number = none })

unfoldable pub iso_time : Option (List ℕ) → Result DateError Parts
iso_time cur = skip_number cur (codes ":") >>= λ hour.
    skip_number hour.rest (codes ":+-Z") >>= λ min.
    skip_if (min.delim == b':') min (codes ".+-Z") >>= λ sec.
    skip_if (sec.delim == b'.') sec (codes "+-Z") >>= λ msec.
    with_zone (record { hour = hour.number; min = min.number; sec = sec.number; tz = none })
      msec.delim (zone_at msec.delim msec.rest)

unfoldable pub set_clock : Parts → ℤ → ℤ → ℤ → Result DateError (Tm × Option (List ℕ))
set_clock p year mon mday = number_of p.hour >>= λ hour. number_of p.min >>= λ min.
    number_of p.sec >>= λ sec. ok (
      record {
        tm_sec = sec;
        tm_min = min;
        tm_hour = hour;
        tm_mday = mday;
        tm_mon = mon;
        tm_year = year;
        tm_wday = pos 0;
        tm_yday = pos 0;
        tm_isdst = negsuc 0;
      },
      p.tz,
    )

-- `year present`; a time zone is read if the caller wants one.
unfoldable pub date_and_time : Bool → Skipped → Result DateError (Tm × Option (List ℕ))
date_and_time zone year =
    skip_number year.rest (if year.delim == b':' then codes ":" else codes "-") >>= λ month.
    skip_number month.rest (if zone then codes " \tT" else codes " \t") >>= λ mday.
    (if mday.delim == b'T' then iso_time mday.rest else sql_time mday.rest) >>= λ p.
    number_of year.number >>= λ y. to_year y >>= λ tm_year.
    number_or month.number (pos 1) (pos 0) >>= λ tm_mon.
    number_or mday.number (pos 0) (pos 1) >>= λ tm_mday. set_clock p tm_year tm_mon tm_mday

unfoldable pub time_only : Tm → Skipped → Result DateError (Tm × Option (List ℕ))
time_only now hour =
    sql_minutes hour.number hour.rest >>= λ p. set_clock p now.tm_year now.tm_mon now.tm_mday

abbrev pub text_length : Option (List ℕ) → ℕ
text_length none = 0
text_length (some text) = length text

-- `now` is what localtime says of the present.
unfoldable pub cstr_to_time_t :
    Tm → Bool → Option (List ℕ) → Result DateError (Tm × Option (List ℕ))
cstr_to_time_t now zone none = err empty_string
cstr_to_time_t now zone (some []) = err empty_string
cstr_to_time_t now zone (some (c ∷ cs)) = skip_number (some (c ∷ cs)) (codes "-:") >>= λ year.
    if not (year.delim == b':') || leb 4 (text_length year.number)
    then date_and_time zone year
    else time_only now year
