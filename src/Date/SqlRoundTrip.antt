-- ===== src/Date/SqlRoundTrip.antt =====
-- A date printed by `get_sql_string` of src/types/pa_vdate.C is read back by `cstr_to_time_t` of
-- src/classes/date.C.
use parser.Prelude.{
  ℕ, ◌+◌, ◌/◌, ◌%◌, ◌<◌, ◌≡◌, refl, ap, sym, ◌∙◌, Bool, true, false, Option, none, some, List, [],
  ◌∷◌, ◌++◌, if◌then◌else◌, codes, arith,
}
use parser.Prelude.Int.{ℤ, pos, negsuc, ◌+ℤ◌, ◌-ℤ◌, -ℤ_parts, +ℤ_cancel, eq_of_parts}
use parser.Prelude.Result.{ok}
use parser.Number.{is_space, skip_spaces}
use parser.Date.{Tm}
use parser.Date.Parse.{
  is_digit, has_delim, skip_number, skip_writespace, number_or, to_year, sql_minutes, sql_time,
  set_clock, date_and_time, cstr_to_time_t,
}
use parser.Date.Object.{VDate, get_sql_string, sql_string_datetime, date_text, time_text}
use parser.Date.SqlNumbers.{two, four, two_digits, four_digits, number_of-two, number_of-four}
use parser.Date.SqlText.{print_two, print_four, skip_number-delim, skip_number_last}

-- The text of a date, with its parts as numbers.
abbrev clock : ℕ → ℕ → ℕ → List ℕ
clock h mi s = two h ++ (b':' ∷ two mi ++ (b':' ∷ two s))

abbrev sql_text : ℕ → ℕ → ℕ → ℕ → ℕ → ℕ → List ℕ
sql_text y mo da h mi s = four y ++ (b'-' ∷ two mo ++ (b'-' ∷ two da ++ (32 ∷ clock h mi s)))

two-skip :
    (n c : ℕ) (rest valid : List ℕ)
    → is_digit c ≡ false
    → has_delim valid c ≡ true
    → (if has_delim valid 32 then c ∷ rest else skip_spaces (c ∷ rest)) ≡ c ∷ rest
    → skip_number (some (two n ++ (c ∷ rest))) valid
      ≡ ok (record { number = some (two n); rest = some rest; delim = c })
two-skip n c rest valid h v stays =
    skip_number-delim (n / 10 % 10 + 48) _ c rest valid (two_digits n) h v stays

colon_lem :
    (n : ℕ) (rest : List ℕ)
    → skip_number (some (two n ++ (b':' ∷ rest))) (codes ":")
      ≡ ok (record { number = some (two n); rest = some rest; delim = b':' })
unfolding has_delim skip_spaces
colon_lem n rest = two-skip n b':' rest (codes ":") refl refl refl

dash_lem :
    (n : ℕ) (rest : List ℕ)
    → skip_number (some (two n ++ (b'-' ∷ rest))) (codes "-")
      ≡ ok (record { number = some (two n); rest = some rest; delim = b'-' })
unfolding has_delim skip_spaces
dash_lem n rest = two-skip n b'-' rest (codes "-") refl refl refl

space_lem :
    (zone : Bool) (n : ℕ) (rest : List ℕ)
    → skip_number (some (two n ++ (32 ∷ rest))) (if zone then codes " \tT" else codes " \t")
      ≡ ok (record { number = some (two n); rest = some rest; delim = 32 })
unfolding has_delim skip_spaces
space_lem true n rest = two-skip n 32 rest (codes " \tT") refl refl refl
space_lem false n rest = two-skip n 32 rest (codes " \t") refl refl refl

year_lem :
    (n : ℕ) (rest : List ℕ)
    → skip_number (some (four n ++ (b'-' ∷ rest))) (codes "-:")
      ≡ ok (record { number = some (four n); rest = some rest; delim = b'-' })
unfolding has_delim skip_spaces
year_lem n rest =
    skip_number-delim (n / 10 / 10 / 10 % 10 + 48) _ b'-' rest (codes "-:") (four_digits n) refl
      refl refl

skip_nothing :
    (valid : List ℕ)
    → skip_number none valid ≡ ok (record { number = none; rest = none; delim = 0 })
unfolding skip_number
skip_nothing valid = refl

sql_minutes_lem :
    (hour : Option (List ℕ)) (mi s : ℕ)
    → sql_minutes hour (some (two mi ++ (b':' ∷ two s)))
      ≡ ok (record { hour = hour; min = some (two mi); sec = some (two s); tz = none })
unfolding sql_minutes
sql_minutes_lem hour mi s = rw (
  colon_lem mi (two s),
  skip_number_last (s / 10 % 10 + 48) ((s % 10 + 48) ∷ []) (codes ".") (two_digits s),
  skip_nothing [],
)

no_space : (n : ℕ) (rest : List ℕ) → skip_writespace (some (two n ++ rest)) ≡ some (two n ++ rest)
unfolding skip_writespace skip_spaces
no_space n rest = let space : is_space (n / 10 % 10 + 48) ≡ false = ground arith in rw space

sql_time_lem :
    (h mi s : ℕ)
    → sql_time (some (clock h mi s))
      ≡ ok (record { hour = some (two h); min = some (two mi); sec = some (two s); tz = none })
unfolding sql_time
sql_time_lem h mi s = rw (
  no_space h (b':' ∷ two mi ++ (b':' ∷ two s)),
  colon_lem h (two mi ++ (b':' ∷ two s)),
  sql_minutes_lem (some (two h)) mi s,
)

to_year_lem : (y : ℕ) → y < 10000 → to_year (pos y) ≡ ok (pos y -ℤ pos 1900)
unfolding to_year
to_year_lem y h = ground arith

number_or-two :
    (n : ℕ) (less missing : ℤ)
    → n < 100
    → number_or (some (two n)) less missing ≡ ok (pos n -ℤ less)
unfolding number_or
number_or-two n less missing h = rw (number_of-two n h)

-- The structure of a date and a time of day.
abbrev read_tm : ℤ → ℤ → ℤ → ℕ → ℕ → ℕ → Tm
read_tm year mon mday h mi s = record {
  tm_sec = pos s;
  tm_min = pos mi;
  tm_hour = pos h;
  tm_mday = mday;
  tm_mon = mon;
  tm_year = year;
  tm_wday = pos 0;
  tm_yday = pos 0;
  tm_isdst = negsuc 0;
}

set_clock_lem :
    (year mon mday : ℤ) (h mi s : ℕ)
    → h < 100
    → mi < 100
    → s < 100
    → set_clock
        (record { hour = some (two h); min = some (two mi); sec = some (two s); tz = none })
        year
        mon
        mday
      ≡ ok (read_tm year mon mday h mi s, none)
unfolding set_clock
set_clock_lem year mon mday h mi s a b c =
    rw (number_of-two h a, number_of-two mi b, number_of-two s c)

module _ (y mo da h mi s : ℕ) (hy : y < 10000) (hmo : mo < 100) (hda : da < 100) (hh : h < 100)
    (hmi : mi < 100) (hs : s < 100) where
  date_and_time_lem :
      (zone : Bool)
      → date_and_time zone (record {
        number = some (four y);
        rest = some (two mo ++ (b'-' ∷ two da ++ (32 ∷ clock h mi s)));
        delim = b'-';
      })
        ≡ ok (read_tm (pos y -ℤ pos 1900) (pos mo -ℤ pos 1) (pos da -ℤ pos 0) h mi s, none)
  unfolding date_and_time
  date_and_time_lem zone =
      rw
        (
          dash_lem mo (two da ++ (32 ∷ clock h mi s)),
          space_lem zone da (clock h mi s),
          sql_time_lem h mi s,
          number_of-four y hy,
          to_year_lem y hy,
          number_or-two mo (pos 1) (pos 0) hmo,
          number_or-two da (pos 0) (pos 1) hda,
        )
        (set_clock_lem _ _ _ h mi s hh hmi hs)

  cstr_lem :
      (now : Tm) (zone : Bool)
      → cstr_to_time_t now zone (some (sql_text y mo da h mi s))
        ≡ ok (read_tm (pos y -ℤ pos 1900) (pos mo -ℤ pos 1) (pos da -ℤ pos 0) h mi s, none)
  unfolding cstr_to_time_t
  cstr_lem now zone =
      rw (year_lem y (two mo ++ (b'-' ∷ two da ++ (32 ∷ clock h mi s)))) (date_and_time_lem zone)

-- The fields fit the four and two digits of the text.
pub record IsPrintable (t : Tm) : Type 0 where
  pub y : ℕ
  pub mo : ℕ
  pub da : ℕ
  pub h : ℕ
  pub mi : ℕ
  pub s : ℕ
  pub is_year : (t.tm_year +ℤ pos 1900 ≡ pos y) × (y < 10000)
  pub is_month : (t.tm_mon +ℤ pos 1 ≡ pos mo) × (mo < 100)
  pub is_day : (t.tm_mday ≡ pos da) × (da < 100)
  pub is_hour : (t.tm_hour ≡ pos h) × (h < 100)
  pub is_minute : (t.tm_min ≡ pos mi) × (mi < 100)
  pub is_second : (t.tm_sec ≡ pos s) × (s < 100)

date_text_lem :
    (t : Tm) (p : IsPrintable t) → date_text t ≡ four p.y ++ (b'-' ∷ two p.mo ++ (b'-' ∷ two p.da))
unfolding date_text
date_text_lem t p = rw (
  p.is_year.0,
  p.is_month.0,
  p.is_day.0,
  print_four p.y p.is_year.1,
  print_two p.mo p.is_month.1,
  print_two p.da p.is_day.1,
)

time_text_lem : (t : Tm) (p : IsPrintable t) → time_text t ≡ clock p.h p.mi p.s
unfolding time_text
time_text_lem t p = rw (
  p.is_hour.0,
  p.is_minute.0,
  p.is_second.0,
  print_two p.h p.is_hour.1,
  print_two p.mi p.is_minute.1,
  print_two p.s p.is_second.1,
)

get_sql_string_lem :
    (d : VDate) (p : IsPrintable d.ftm)
    → get_sql_string sql_string_datetime d ≡ sql_text p.y p.mo p.da p.h p.mi p.s
unfolding get_sql_string
get_sql_string_lem d p = rw (date_text_lem d.ftm p, time_text_lem d.ftm p)

back : (a : ℤ) (n k : ℕ) → a +ℤ pos n ≡ pos k → pos k -ℤ pos n ≡ a
back a n k h = ap (λ v. v -ℤ pos n) (sym h) ∙ +ℤ_cancel a (pos n)

less_nothing : (a : ℤ) (k : ℕ) → a ≡ pos k → pos k -ℤ pos 0 ≡ a
less_nothing a k h = let e = -ℤ_parts (pos k) (pos 0) in eq_of_parts _ _ (omega arith) ∙ sym h

-- The text that `get_sql_string` prints for a date and time whose fields fit four and two digits is read by
-- `cstr_to_time_t` as the same year, month, day, hour, minute and second, whatever the present time is and
-- whether or not a time zone is looked for; none is found, and the weekday, the day of the year and
-- the daylight saving are left to be found.
pub cstr_to_time_t-get_sql_string :
    (now : Tm) (zone : Bool) (d : VDate)
    → IsPrintable d.ftm
    → cstr_to_time_t now zone (some (get_sql_string sql_string_datetime d))
      ≡ ok (record d.ftm { tm_wday = pos 0; tm_yday = pos 0; tm_isdst = negsuc 0 }, none)
cstr_to_time_t-get_sql_string now zone d p =
    ap (λ text. cstr_to_time_t now zone (some text)) (get_sql_string_lem d p)
    ∙ cstr_lem p.y p.mo p.da p.h p.mi p.s p.is_year.1 p.is_month.1 p.is_day.1 p.is_hour.1
        p.is_minute.1 p.is_second.1 now zone
    ∙ rw (
      back d.ftm.tm_year 1900 p.y p.is_year.0,
      back d.ftm.tm_mon 1 p.mo p.is_month.0,
      less_nothing d.ftm.tm_mday p.da p.is_day.0,
      p.is_hour.0,
      p.is_minute.0,
      p.is_second.0,
    )
