-- ===== src/Date/Years.antt =====
-- The years of src/types/pa_vdate.C, which count from 1900, against the years of the calendar.
use parser.Prelude.{
  ℕ, zero, suc, ◌+◌, ◌-◌, ◌*◌, ◌/◌, ◌%◌, ◌≤◌, ◌≡◌, refl, ap, Bool, not, ◌&&◌, ◌||◌, ◌==◌,
  if◌then◌else◌, arith,
}
use parser.Prelude.Int.{ℤ, pos, negsuc, pos_part, neg_part, ◌+ℤ◌, ◌-ℤ◌, if_less, +ℤ_parts, -ℤ_parts}
use parser.Date.{is_leap, days_in_year, years_up, years_down, other_years}

-- The year a from 1900 on is the year y - 400 of the calendar. What is counted from the year -400 is
-- a natural number for all times that are allowed, and the calendar repeats after 400 years.
abbrev pub IsYear : ℤ → ℕ → Type 0
IsYear a y = pos_part a + 2300 ≡ y + neg_part a

-- The Gregorian rule, and the days from 1 January of the year -400 up to a year.
abbrev pub gregorian : ℕ → Bool
gregorian y = (y % 4 == 0) && (not (y % 100 == 0) || (y % 400 == 0))

unfoldable pub days_up_to : ℕ → ℕ
days_up_to y = 365 * y + (y + 3) / 4 + (y + 399) / 400 - (y + 99) / 100

pub is_leap-gregorian : (a : ℤ) (y : ℕ) → IsYear a y → is_leap a ≡ gregorian y
unfolding is_leap ◌+ℤ◌
is_leap-gregorian (pos n) y h = ground arith
is_leap-gregorian (negsuc n) y h = ground arith

-- One more year adds a quarter of a day, less a hundredth, more a four hundredth.
leap_days : ℕ → ℕ → ℕ
leap_days k y = if y % suc k == 0 then 1 else 0

next_4 : (y : ℕ) → (y + 1 + 3) / 4 ≡ (y + 3) / 4 + leap_days 3 y
unfolding leap_days
next_4 y = ground arith

next_100 : (y : ℕ) → (y + 1 + 99) / 100 ≡ (y + 99) / 100 + leap_days 99 y
unfolding leap_days
next_100 y = ground arith

next_400 : (y : ℕ) → (y + 1 + 399) / 400 ≡ (y + 399) / 400 + leap_days 399 y
unfolding leap_days
next_400 y = ground arith

leap_year :
    (y : ℕ)
    → (if gregorian y then 366 else 365) + leap_days 99 y ≡ 365 + leap_days 3 y + leap_days 399 y
unfolding leap_days
leap_year y = ground arith

hundreds : (y : ℕ) → (y + 99) / 100 ≤ (y + 3) / 4
hundreds y = omega arith

sum_days :
    (length y a b c a' b' c' d e f : ℕ)
    → a' ≡ a + d
    → b' ≡ b + e
    → c' ≡ c + f
    → length + f ≡ 365 + d + e
    → c ≤ a
    → c' ≤ a'
    → length + (365 * y + a + b - c) ≡ 365 * (y + 1) + a' + b' - c'
sum_days length y a b c a' b' c' d e f ha hb hc hl h h' = omega arith

pub next_year : (y : ℕ) → (if gregorian y then 366 else 365) + days_up_to y ≡ days_up_to (y + 1)
unfolding days_up_to
next_year y =
    sum_days _ y _ _ _ _ _ _ _ _ _ (next_4 y) (next_400 y) (next_100 y) (leap_year y) (hundreds y)
      (hundreds (y + 1))

pub days_in_year_lem :
    (a : ℤ) (y : ℕ) → IsYear a y → days_in_year a + days_up_to y ≡ days_up_to (y + 1)
unfolding days_in_year
days_in_year_lem a y h = rw (is_leap-gregorian a y h, next_year y)

pub years_up_lem :
    (n : ℕ) (a : ℤ) (y z : ℕ) (days : ℤ)
    → IsYear a y
    → y + n ≡ z
    → pos_part (years_up n a days) + neg_part days + days_up_to y
      ≡ neg_part (years_up n a days) + pos_part days + days_up_to z
unfolding years_up
years_up_lem zero a y z days h e =
    let same = ap days_up_to {x = y} {y = z} (omega arith) in omega arith
years_up_lem (suc rounds) a y z days h e =
    let next = +ℤ_parts a (pos 1) in
    let sum = +ℤ_parts days (pos (days_in_year a)) in
    let year = days_in_year_lem a y h in
    let rest =
      years_up_lem rounds (a +ℤ pos 1) (y + 1) z (days +ℤ pos (days_in_year a)) (omega arith)
        (omega arith) in
    omega arith

pub years_down_lem :
    (n : ℕ) (a : ℤ) (y z : ℕ) (days : ℤ)
    → IsYear a z
    → y + n ≡ z
    → pos_part (years_down n a days) + neg_part days + days_up_to (z + 1)
      ≡ neg_part (years_down n a days) + pos_part days + days_up_to y
unfolding years_down
years_down_lem zero a y z days h e =
    let same = ap days_up_to {x = y} {y = z} (omega arith) in
    let diff = -ℤ_parts days (pos (days_in_year a)) in
    let year = days_in_year_lem a z h in omega arith
years_down_lem (suc rounds) a y z days h e =
    let next = -ℤ_parts a (pos 1) in
    let diff = -ℤ_parts days (pos (days_in_year a)) in
    let year = days_in_year_lem a z h in
    let same = ap days_up_to {x = z - 1 + 1} {y = z} (omega arith) in
    let rest =
      years_down_lem rounds (a -ℤ pos 1) y (z - 1) (days -ℤ pos (days_in_year a)) (omega arith)
        (omega arith) in
    omega arith

start_1970 : days_up_to 2370 ≡ 865625
unfolding days_up_to
start_1970 = refl

-- The two loops of `pa_mktime` count the days from 1 January 1970, the day 865625, to the year.
pub other_years_lem :
    (a : ℤ) (y : ℕ) (days : ℤ)
    → IsYear a y
    → pos_part (other_years a days) + neg_part days + 865625
      ≡ neg_part (other_years a days) + pos_part days + days_up_to y
unfolding other_years
other_years_lem a y days h =
    let over = -ℤ_parts a (pos 70) in
    let under = -ℤ_parts (pos 69) a in
    let start = start_1970 in
    let goal =
      λ (r : ℤ). pos_part r + neg_part days + 865625 ≡ neg_part r + pos_part days + days_up_to y in
    if_less goal (pos 70) a
      (λ more.
        let up =
          years_up_lem (pos_part (a -ℤ pos 70)) (pos 70) 2370 y days (omega arith) (ground arith) in
        omega arith)
      (λ most.
        if_less goal a (pos 70)
          (λ less.
            let down =
              years_down_lem (pos_part (pos 69 -ℤ a)) (pos 69) y 2369 days (omega arith)
                (ground arith) in
            omega arith)
          (λ least. let same = ap days_up_to {x = y} {y = 2370} (omega arith) in omega arith))
