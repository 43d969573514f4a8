-- ===== src/Date/Week.antt =====
-- The week of the year in src/types/pa_vdate.C, `VDate::CalcWeek` with its two tables. `normalize` is
-- `pa_mktime` without a time zone, which uses the C library.
use parser.Prelude.{ℕ, zero, suc, ◌+◌, ◌/◌, ◌%◌, ◌&&◌, List, [], ◌∷◌, ltb, if◌then◌else◌, get_or}
use parser.Prelude.Int.{ℤ, pos, pos_part, ◌+ℤ◌, ◌-ℤ◌, ltb_ℤ}
use parser.Date.{Tm}

pub record YearWeek : Type 0 where
  pub week_year : ℤ
  pub week : ℕ

abbrev pub year_weeks : List ℕ
year_weeks =
    52 ∷ 52 ∷ 52 ∷ 52 ∷ 53 ∷ 52 ∷ 52 ∷ 52 ∷ 52 ∷ 52 ∷ 53 ∷ 52 ∷ 52 ∷ 52 ∷ 52 ∷ 52 ∷ 53 ∷ 52 ∷ 52
    ∷ 52 ∷ 52 ∷ 53 ∷ 52 ∷ 52 ∷ 52 ∷ 52 ∷ 52 ∷ 53 ∷ []

abbrev pub first_thurs : List ℕ
first_thurs =
    7 ∷ 5 ∷ 4 ∷ 3 ∷ 2 ∷ 7 ∷ 6 ∷ 5 ∷ 4 ∷ 2 ∷ 1 ∷ 7 ∷ 6 ∷ 4 ∷ 3 ∷ 2 ∷ 1 ∷ 6 ∷ 5 ∷ 4 ∷ 3 ∷ 1 ∷ 7 ∷ 6
    ∷ 5 ∷ 3 ∷ 2 ∷ 1 ∷ []

abbrev pub cycle : ℤ → ℕ
cycle year = pos_part (year +ℤ pos 1900) % 28

unfoldable pub iso_week_count : ℤ → ℕ
iso_week_count year = get_or year_weeks (cycle year) 0

-- `diff`; the table is unsigned, and the wrap-around cancels out.
unfoldable pub week_diff : Tm → ℤ
week_diff t = t.tm_yday +ℤ pos 4 -ℤ pos (get_or first_thurs (cycle t.tm_year) 0)

unfoldable pub week_from : ℤ → ℕ → YearWeek
unfolding iso_week_count
week_from year diff =
    if ltb 52 (1 + diff / 7) && ltb (iso_week_count year) (1 + diff / 7)
    then record { week_year = year +ℤ pos 1; week = 1 }
    else record { week_year = year; week = 1 + diff / 7 }

-- The call of itself is made for a day of the last week of the year before, and makes none.
unfoldable pub calc_week : ℕ → (Tm → Tm) → Tm → YearWeek
calc_week zero normalize t = week_from t.tm_year (pos_part (week_diff t))
calc_week (suc depth) normalize t =
    let again = calc_week depth normalize (normalize (record t { tm_mday = week_diff t })) in
    if ltb_ℤ (week_diff t) (pos 0) then again else week_from t.tm_year (pos_part (week_diff t))
