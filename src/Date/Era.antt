-- ===== src/Date/Era.antt =====
-- The days of an era of 400 years in src/types/pa_vdate.C: their years, which begin in March, and months.
use parser.Prelude.{
  ℕ, ◌+◌, ◌*◌, ◌/◌, ◌%◌, ◌<◌, ◌≤◌, ◌≡◌, refl, Bool, true, ◌&&◌, leb, ltb, ◌==◌, get_or,
  if◌then◌else◌, arith,
}
use parser.Prelude.Bits.{all_below, all_below_sound}
use parser.Date.{
  era_year, year_day, march_month, month_day, from_january, days_before_month, days_in_month,
}

-- A day of an era is a day of a year that it finds.
pub record IsEraDay (e : ℕ) : Type 0 where
  pub year_below : era_year e < 400
  pub whole : 365 * era_year e + era_year e / 4 + year_day e (era_year e) ≡ e + era_year e / 100
  pub day_below : year_day e (era_year e) < 366
  pub last_day :
      365 ≤ year_day e (era_year e)
      → (era_year e % 4 ≡ 3) × ((era_year e % 100 ≡ 99) → (era_year e % 400 ≡ 399))

pub era_day : (e : ℕ) → e < 146097 → IsEraDay e
unfolding era_year year_day
era_day e h = record {
  year_below = omega arith;
  whole = omega arith;
  day_below = omega arith;
  last_day = λ l. (omega arith, λ k. omega arith);
}

-- The month and the day of a day of the year, by the table of the months.
test_day : ℕ → Bool
test_day d =
    let m = march_month d in
    let mon = from_january m in
    let before = get_or days_before_month mon 0 + month_day d m in
    ltb mon 12
    && leb 1 (month_day d m)
    && leb (month_day d m) (get_or days_in_month mon 0 + (if d == 365 then 1 else 0))
    && (if leb 306 d then ltb mon 2 && (before + 305 == d) else ltb 1 mon && (before == d + 60))
    && (if d == 365 then (mon == 1) && (month_day d m == 29) else true)

test_days : all_below 366 test_day ≡ true
unfolding all_below test_day march_month from_january month_day
test_days = refl

-- The month of a day of the year that begins in March, from January, and the day before it in the year.
abbrev pub civil_month : ℕ → ℕ
civil_month d = from_january (march_month d)

abbrev pub month_start : ℕ → ℕ
month_start d = get_or days_before_month (civil_month d) 0

abbrev pub civil_day : ℕ → ℕ
civil_day d = month_day d (march_month d)

pub record IsYearDay (d : ℕ) : Type 0 where
  pub month_below : civil_month d < 12
  pub day_above : 1 ≤ civil_day d
  pub day_fits : civil_day d ≤ get_or days_in_month (civil_month d) 0 + (if d == 365 then 1 else 0)
  pub late : 306 ≤ d → (civil_month d < 2) × (month_start d + civil_day d + 305 ≡ d)
  pub early : d < 306 → (1 < civil_month d) × (month_start d + civil_day d ≡ d + 60)
  pub leap_day : d ≡ 365 → (civil_month d ≡ 1) × (civil_day d ≡ 29)

pub year_day_lem : (d : ℕ) → d < 366 → IsYearDay d
unfolding test_day
year_day_lem d h =
    let t = all_below_sound 366 test_day d test_days h in
    record {
      month_below = ground arith;
      day_above = ground arith;
      day_fits = ground arith;
      late = λ l. (ground arith, ground arith);
      early = λ l. (ground arith, ground arith);
      leap_day = λ l. (ground arith, ground arith);
    }
