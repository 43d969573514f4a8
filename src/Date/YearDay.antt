-- ===== src/Date/YearDay.antt =====
-- The two computations of `tm_yday` in src/types/pa_vdate.C: that of `pa_gmtime`, which asks for the leap year
-- by the year of the era, and that of `pa_mktime`.
use parser.Prelude.{
  ℕ, ◌+◌, ◌-◌, ◌%◌, ◌<◌, ◌≤◌, ◌≡◌, inl, inr, refl, sym, ap, ap₂, subst, ◌∙◌, Bool, ◌&&◌, ltb, ◌==◌,
  if◌then◌else◌, if_cases, arith,
}
use parser.Prelude.Int.{ℤ, pos, pos_part, ◌+ℤ◌, +ℤ_parts, eq_of_parts}
use parser.Date.{Tm, is_leap, gm_yday, day_of_year, time_of, pa_gmtime, pa_mktime, split_days}
use parser.Date.Era.{era_day, year_day_lem, civil_month, civil_day, month_start}
use parser.Date.Years.{gregorian}
use parser.Date.Days.{IsTime, split_days_lem, era_day_lem}
use parser.Date.Civil.{
  march_year, march_day, civil_year, day_of_leap, late_date, early_date, le_or_lt,
}
use parser.Date.Fields.{Civil, IsDate, Holds, civil_of, civil_of-IsDate, pa_gmtime-Holds}
use parser.Date.RoundTrip.{validate_structure_lem, day_of_year_lem}

-- The error of the first: a day is missing in a year that 400 divides, and one is added 100 years later.
abbrev pub missing : ℕ → ℕ
missing day = if ltb 1 (civil_month (march_day day)) && (civil_year day % 400 == 0) then 1 else 0

abbrev pub added : ℕ → ℕ
added day = if ltb 1 (civil_month (march_day day)) && (civil_year day % 400 == 100) then 1 else 0

era_leap :
    (y : ℕ)
    → y < 400
    → if◌then◌else◌ {A = ℕ} (is_leap (pos y)) 1 0 + (if y % 400 == 0 then 1 else 0)
      ≡ (if gregorian y then 1 else 0) + (if y % 400 == 100 then 1 else 0)
unfolding is_leap ◌+ℤ◌
era_leap y h = ground arith

gm_yday_late : (y d : ℕ) → 306 ≤ d → gm_yday y d ≡ d - 306
unfolding gm_yday
gm_yday_late y d h = ground arith

gm_yday_early : (y d : ℕ) → d < 306 → gm_yday y d ≡ d + 59 + (if is_leap (pos y) then 1 else 0)
unfolding gm_yday
gm_yday_early y d h = ground arith

before_march : (month : ℕ) (b : Bool) → month < 2 → if◌then◌else◌ {A = ℕ} (ltb 1 month && b) 1 0 ≡ 0
before_march month b h = ground arith

after_march :
    (month : ℕ) (b : Bool)
    → 1 < month
    → if◌then◌else◌ {A = ℕ} (ltb 1 month && b) 1 0 ≡ (if b then 1 else 0)
after_march month b h = ground arith

gm_yday_lem :
    (day : ℕ)
    → gm_yday (march_year day) (march_day day) + missing day + 1
      ≡ day_of_leap day + month_start (march_day day) + civil_day (march_day day) + added day
unfolding gm_yday
gm_yday_lem day =
    let e = era_day (day % 146097) (omega arith) in
    let d = year_day_lem (march_day day) e.day_below in
    elim (le_or_lt 306 (march_day day)) [
      | inl late ↦
          let (month, start) = d.late late in
          let (_, leap) = late_date day late in
          let value = gm_yday_late (march_year day) (march_day day) late in
          let zero_missing = before_march _ (civil_year day % 400 == 0) month in
          let zero_added = before_march _ (civil_year day % 400 == 100) month in omega arith
      | inr early ↦
          let (month, start) = d.early early in
          let (year, leap) = early_date day early in
          let below = e.year_below in
          let error = era_leap (march_year day) e.year_below in
          let value = gm_yday_early (march_year day) (march_day day) early in
          let rest : civil_year day % 400 ≡ march_year day % 400 = rw year (omega arith) in
          let one_missing =
            after_march _ (civil_year day % 400 == 0) month
            ∙ ap (λ (r : ℕ). if◌then◌else◌ {A = ℕ} (r == 0) 1 0) rest in
          let one_added =
            after_march _ (civil_year day % 400 == 100) month
            ∙ ap (λ (r : ℕ). if◌then◌else◌ {A = ℕ} (r == 100) 1 0) rest in
          omega arith
    ]

-- The field that `pa_mktime` fills.
pub time_of-tm_yday :
    (t : Tm) → (time_of t).1.tm_yday ≡ day_of_year t.tm_year (pos_part t.tm_mon) t.tm_mday
unfolding time_of
time_of-tm_yday t =
    if_cases (λ (r : ℤ × Tm). r.1.tm_yday ≡ day_of_year t.tm_year (pos_part t.tm_mon) t.tm_mday) _
      (λ _. refl) (λ _. refl)

mktime_yday :
    (t : Tm) (c : Civil)
    → Holds t c
    → IsDate c
    → (pa_mktime t).1.tm_yday ≡ day_of_year t.tm_year c.month (pos c.day)
unfolding pa_mktime
mktime_yday t c h d =
    subst (λ (v : Tm). (time_of v).1.tm_yday ≡ day_of_year t.tm_year c.month (pos c.day))
      (sym (validate_structure_lem t c h d))
      (time_of-tm_yday t ∙ ap₂ (day_of_year t.tm_year) (ap pos_part h.month) h.day)

gmtime_yday :
    (t : ℤ) (day s : ℕ)
    → IsTime t day s
    → (pa_gmtime t).tm_yday ≡ pos (gm_yday (march_year day) (march_day day))
unfolding pa_gmtime
gmtime_yday t day s h =
    let (a, b) = split_days_lem t day s h in let e = era_day_lem (split_days t).0 day a in rw e

-- The day of the year that `pa_gmtime` fills in is the one that `pa_mktime` finds for the same structure,
-- except from March on in the years that 400 divides, where it is one less, and in the years 100 later,
-- where it is one more. The years are counted from -400.
pub tm_yday_lem :
    (t : ℤ) (day s : ℕ)
    → IsTime t day s
    → (pa_gmtime t).tm_yday +ℤ pos (missing day)
      ≡ (pa_mktime (pa_gmtime t)).1.tm_yday +ℤ pos (added day)
tm_yday_lem t day s h =
    let holds = pa_gmtime-Holds t day s h in
    let here = gmtime_yday t day s h in
    let there = mktime_yday (pa_gmtime t) (civil_of day s) holds (civil_of-IsDate day s h.1) in
    let sum = gm_yday_lem day in
    let parts =
      day_of_year_lem (pa_gmtime t).tm_year (civil_year day) (civil_month (march_day day))
        (civil_day (march_day day)) holds.year in
    let found =
      day_of_year (pa_gmtime t).tm_year (civil_month (march_day day))
        (pos (civil_day (march_day day))) in
    let left = +ℤ_parts (pos (gm_yday (march_year day) (march_day day))) (pos (missing day)) in
    let right = +ℤ_parts found (pos (added day)) in
    ap (λ v. v +ℤ pos (missing day)) here
    ∙ eq_of_parts (pos (gm_yday (march_year day) (march_day day)) +ℤ pos (missing day))
        (found +ℤ pos (added day)) (omega arith)
    ∙ sym (ap (λ v. v +ℤ pos (added day)) there)
