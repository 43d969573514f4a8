-- ===== src/Date/Normal.antt =====
-- `validate_structure` and `pa_mktime` in src/types/pa_vdate.C for a structure whose fields may lie out of range.
use parser.Prelude.{ℕ, ◌+◌, ◌*◌, ◌<◌, ◌≡◌}
use parser.Prelude.Int.{ℤ, pos_part, neg_part}
use parser.Date.{Tm, MonthDay, carry}
use parser.Date.Fields.{Civil, second_of_day}
use parser.Date.Months.{first_day}

-- The year, from -400 on, and the month that the fields for them stand for together.
abbrev pub IsMonthOf : Tm → ℕ → ℕ → Type 0
IsMonthOf t y m =
    (12 * pos_part t.tm_year + pos_part t.tm_mon + 27600
      ≡ 12 * neg_part t.tm_year + neg_part t.tm_mon + 12 * y + m)
    × (m < 12)

-- The seconds that the other fields stand for: those that count forward, and those that count back.
abbrev pub forward : Tm → ℕ
forward t =
    pos_part t.tm_sec
    + 60 * pos_part t.tm_min
    + 3600 * pos_part t.tm_hour
    + 86400 * pos_part t.tm_mday

abbrev pub backward : Tm → ℕ
backward t =
    neg_part t.tm_sec
    + 60 * neg_part t.tm_min
    + 3600 * neg_part t.tm_hour
    + 86400 * neg_part t.tm_mday

-- A date is the instant that the fields of t stand for, in the month m of the year y.
abbrev pub IsInstant : Tm → ℕ → ℕ → Civil → Type 0
IsInstant t y m c =
    86400 * (first_day c.year c.month + c.day) + second_of_day c + backward t
    ≡ 86400 * first_day y m + forward t

-- The structure that a carry of each field and a fitted day give.
module _ (t : Tm) (y m : ℕ) (h : IsMonthOf t y m) where
  abbrev pub mins : ℤ × ℤ
  mins = carry 60 (carry 60 t.tm_sec t.tm_min).1 t.tm_hour

  abbrev pub hours : ℤ × ℤ
  hours = carry 24 mins.1 t.tm_mday

  abbrev pub months : ℤ × ℤ
  months = carry 12 t.tm_mon t.tm_year

  abbrev pub carried_day : MonthDay
  carried_day = record { mday = hours.1; mon = pos_part months.0; year = months.1 }
