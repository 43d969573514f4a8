-- ===== src/Date/WeekYear.antt =====
-- The week that `VDate::CalcWeek` of src/types/pa_vdate.C finds against the rule of ISO 8601.
use parser.Prelude.{
  ℕ, ◌+◌, ◌-◌, ◌*◌, ◌/◌, ◌%◌, ◌<◌, ◌≤◌, ◌≡◌, inl, inr, refl, subst, Bool, true, false, ◌&&◌, ltb,
  leb, ◌==◌, if◌then◌else◌, if_cases, get_or, arith,
}
use parser.Prelude.Bits.{all_below, all_below_sound}
use parser.Prelude.Int.{ℤ, pos, pos_part, ◌+ℤ◌, +ℤ_parts, whole_part}
use parser.Date.Years.{IsYear, gregorian, days_up_to, next_year}
use parser.Date.Civil.{le_or_lt}
use parser.Date.Week.{YearWeek, first_thurs, year_weeks, iso_week_count, week_from}

-- A week belongs to the year of its Thursday, and is the one of that number in it. The day n, counted from
-- 1 January of the year -400, lies in the week if it is three days from the Thursday at most.
pub record IsIsoWeek (n : ℕ) (w : YearWeek) : Type 0 where
  pub thursday : ℕ
  pub iso_year : ℕ
  pub is_thursday : thursday % 7 ≡ 5
  pub near_before : n ≤ thursday + 3
  pub near_after : thursday ≤ n + 3
  pub same_year : IsYear w.week_year iso_year
  pub year_begun : days_up_to iso_year ≤ thursday
  pub in_year : thursday < days_up_to (iso_year + 1)
  pub number_low : days_up_to iso_year + 7 * w.week ≤ thursday + 7
  pub number_high : thursday < days_up_to iso_year + 7 * w.week

-- The tables are right for the years 1901 to 2100.
abbrev pub first : ℕ → ℕ
first y = get_or first_thurs ((y - 400) % 28) 0

abbrev weeks : ℕ → ℕ
weeks y = get_or year_weeks ((y - 400) % 28) 0

abbrev pub length_of_year : ℕ → ℕ
length_of_year y = if gregorian y then 366 else 365

table_test : ℕ → Bool
table_test k =
    let y = k + 2301 in
    leb 1 (first y)
    && leb (first y) 7
    && ((days_up_to y + first y) % 7 == 6)
    && (if leb (first y + 364) (length_of_year y) then weeks y == 53 else weeks y == 52)

table_tests : all_below 200 table_test ≡ true
unfolding all_below table_test days_up_to
table_tests = refl

pub record IsTable (y : ℕ) : Type 0 where
  pub above : 1 ≤ first y
  pub below : first y ≤ 7
  pub first_thursday : (days_up_to y + first y) % 7 ≡ 6
  pub long_year : first y + 364 ≤ length_of_year y → weeks y ≡ 53
  pub short_year : length_of_year y < first y + 364 → weeks y ≡ 52

table_lem : (k : ℕ) → k < 200 → IsTable (k + 2301)
unfolding table_test
table_lem k h =
    let t = all_below_sound 200 table_test k table_tests h in
    record {
      above = ground arith;
      below = ground arith;
      first_thursday = ground arith;
      long_year = λ l. ground arith;
      short_year = λ l. ground arith;
    }

pub table : (y : ℕ) → 2301 ≤ y → y ≤ 2500 → IsTable y
table y low high =
    subst IsTable {x = y - 2301 + 2301} {y = y} (omega arith) (table_lem (y - 2301) (omega arith))

length_cases : (y : ℕ) → (365 ≤ length_of_year y) × (length_of_year y ≤ 366)
length_cases y = (ground arith, ground arith)

pub year_index : (a : ℤ) (y : ℕ) → IsYear a y → 400 ≤ y → pos_part (a +ℤ pos 1900) ≡ y - 400
year_index a y h low =
    let sum = +ℤ_parts a (pos 1900) in whole_part (a +ℤ pos 1900) (y - 400) (omega arith)

iso_week_count_lem : (a : ℤ) (y : ℕ) → IsYear a y → 400 ≤ y → iso_week_count a ≡ weeks y
unfolding iso_week_count
iso_week_count_lem a y h low = rw (year_index a y h low)

-- From the first Thursday on, by whole weeks.
module _ (a : ℤ) (y diff yday : ℕ) (h : IsYear a y) (t : IsTable y) (low : 400 ≤ y)
    (here : diff + first y ≡ yday + 4) (inside : yday < length_of_year y) where
  this_year :
      7 * (diff / 7) + first y ≤ length_of_year y
      → IsIsoWeek (days_up_to y + yday) (record { week_year = a; week = 1 + diff / 7 })
  this_year fits =
      let above = t.above in
      let below = t.below in
      let first_thursday = t.first_thursday in
      let next = next_year y in
      record {
        thursday = days_up_to y + first y - 1 + 7 * (diff / 7);
        iso_year = y;
        is_thursday = omega arith;
        near_before = omega arith;
        near_after = omega arith;
        same_year = h;
        year_begun = omega arith;
        in_year = omega arith;
        number_low = omega arith;
        number_high = omega arith;
      }

  next_first :
      length_of_year y < 7 * (diff / 7) + first y
      → IsIsoWeek (days_up_to y + yday) (record { week_year = a +ℤ pos 1; week = 1 })
  next_first over =
      let above = t.above in
      let below = t.below in
      let first_thursday = t.first_thursday in
      let next = next_year y in
      let after = next_year (y + 1) in
      let (short, long) = length_cases y in
      let (short', long') = length_cases (y + 1) in
      let sum = +ℤ_parts a (pos 1) in
      record {
        thursday = days_up_to y + first y - 1 + 7 * (diff / 7);
        iso_year = y + 1;
        is_thursday = omega arith;
        near_before = omega arith;
        near_after = omega arith;
        same_year = omega arith;
        year_begun = omega arith;
        in_year = omega arith;
        number_low = omega arith;
        number_high = omega arith;
      }

  last_week :
      (ltb 52 (1 + diff / 7) && ltb (iso_week_count a) (1 + diff / 7)) ≡ true
      → length_of_year y < 7 * (diff / 7) + first y
  last_week over =
      let (short, long) = length_cases y in
      let count = iso_week_count_lem a y h low in
      let above = t.above in
      let many : 52 < 1 + diff / 7 = ground arith in
      let more : iso_week_count a < 1 + diff / 7 = ground arith in
      elim (le_or_lt (first y + 364) (length_of_year y)) [
        | inl wide ↦ let all = t.long_year wide in absurd (omega arith)
        | inr narrow ↦ omega arith
      ]

  other_week :
      (ltb 52 (1 + diff / 7) && ltb (iso_week_count a) (1 + diff / 7)) ≡ false
      → 7 * (diff / 7) + first y ≤ length_of_year y
  other_week fits =
      let (short, long) = length_cases y in
      let count = iso_week_count_lem a y h low in
      let above = t.above in
      let below = t.below in
      elim (le_or_lt (first y + 364) (length_of_year y)) [
        | inl wide ↦ omega arith
        | inr narrow ↦
            let few = t.short_year narrow in
            let low_week : diff / 7 ≤ 51 = ground arith in omega arith
      ]

  pub week_from_lem : IsIsoWeek (days_up_to y + yday) (week_from a diff)
  unfolding week_from
  week_from_lem =
      if_cases (IsIsoWeek (days_up_to y + yday))
        (ltb 52 (1 + diff / 7) && ltb (iso_week_count a) (1 + diff / 7))
        (λ (over : (ltb 52 (1 + diff / 7) && ltb (iso_week_count a) (1 + diff / 7)) ≡ true).
          next_first (last_week over))
        (λ (fits : (ltb 52 (1 + diff / 7) && ltb (iso_week_count a) (1 + diff / 7)) ≡ false).
          this_year (other_week fits))
