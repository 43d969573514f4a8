-- ===== src/Date/Months.antt =====
-- The months of src/types/pa_vdate.C one after another, and the two loops that fit a day into its month.
use parser.Prelude.{
  ℕ, zero, suc, ◌+◌, ◌-◌, ◌<◌, ◌≤◌, ◌≡◌, inl, inr, ◌||◌, refl, ap, ap₂, sym, ◌∙◌, Bool, true, false,
  ◌&&◌, ltb, leb, ◌==◌, ==_iff, if◌then◌else◌, if_cases, get_or, arith,
}
use parser.Prelude.Bits.{all_below, all_below_sound}
use parser.Prelude.Int.{pos, pos_part, neg_part, ◌≤ℤ◌, +ℤ_parts, -ℤ_parts}
use parser.Date.{MonthDay, days_in_month, days_before_month, month_before, month_after}
use parser.Date.Years.{IsYear, gregorian, days_up_to, next_year}
use parser.Date.Civil.{le_or_lt}
use parser.Date.Fields.{month_length}

length_of : Bool → ℕ → ℕ
length_of leap month = if (month == 1) && leap then 29 else get_or days_in_month month 0

unfoldable pub start_of : Bool → ℕ → ℕ
start_of leap month = get_or days_before_month month 0 + (if ltb 1 month && leap then 1 else 0)

-- The days from 1 January of the year -400 up to a month.
unfoldable pub first_day : ℕ → ℕ → ℕ
first_day y month = days_up_to y + start_of (gregorian y) month

month_table :
    all_below 11 (λ m.
      (start_of true (m + 1) == start_of true m + length_of true m)
      && (start_of false (m + 1) == start_of false m + length_of false m))
    ≡ true
unfolding all_below start_of length_of
month_table = refl

length_table : all_below 12 (λ m. leb 28 (length_of true m) && leb 28 (length_of false m)) ≡ true
unfolding all_below length_of
length_table = refl

next_start :
    (leap : Bool) (m : ℕ) → m < 11 → start_of leap (m + 1) ≡ start_of leap m + length_of leap m
next_start true m h = let t = all_below_sound 11 _ m month_table h in ground arith
next_start false m h = let t = all_below_sound 11 _ m month_table h in ground arith

long_month : (leap : Bool) (m : ℕ) → m < 12 → 28 ≤ length_of leap m
long_month true m h = let t = all_below_sound 12 _ m length_table h in ground arith
long_month false m h = let t = all_below_sound 12 _ m length_table h in ground arith

pub month_length_bound : (y m : ℕ) → m < 12 → 28 ≤ month_length y m
unfolding length_of
month_length_bound y m h = long_month (gregorian y) m h

add_left : (a b c l : ℕ) → b ≡ c + l → a + b ≡ a + c + l
add_left a b c l h = omega arith

-- A month of a year begins after the one before it, also over the turn of the year.
pub next_month : (y m : ℕ) → m < 11 → first_day y (m + 1) ≡ first_day y m + month_length y m
unfolding first_day length_of
next_month y m h = add_left (days_up_to y) _ _ _ (next_start (gregorian y) m h)

turn_of_year :
    (leap : Bool) (a b : ℕ)
    → (if leap then 366 else 365) + a ≡ b
    → b + start_of leap 0 ≡ a + start_of leap 11 + length_of leap 11
unfolding start_of length_of
turn_of_year true a b h = omega arith
turn_of_year false a b h = omega arith

january : (leap other : Bool) → start_of leap 0 ≡ start_of other 0
unfolding start_of
january leap other = refl

pub next_january : (y : ℕ) → first_day (y + 1) 0 ≡ first_day y 11 + month_length y 11
unfolding first_day length_of
next_january y =
    ap (λ r. days_up_to (y + 1) + r) (january (gregorian (y + 1)) (gregorian y))
    ∙ turn_of_year (gregorian y) _ _ (next_year y)

-- The month d, of the year y, and the one that is found for it, of the year z: the day is fitted into the
-- month and the days from 1 January of the year -400 are the same.
pub record IsFitted (d r : MonthDay) (y : ℕ) : Type 0 where
  pub fitted_year : ℕ
  pub same_year : IsYear r.year fitted_year
  pub month_below : r.mon < 12
  pub day_above : pos 1 ≤ℤ r.mday
  pub day_fits : r.mday ≤ℤ pos (month_length fitted_year r.mon)
  pub same_day :
      first_day fitted_year r.mon + pos_part r.mday + neg_part d.mday
      ≡ first_day y d.mon + pos_part d.mday + neg_part r.mday

-- Of the same month, the next one or the one before.
pub month_after_lem :
    (d : MonthDay) (y : ℕ)
    → IsYear d.year y
    → d.mon < 12
    → (z : ℕ) × IsYear (month_after d).year z
      × ((month_after d).mon < 12)
      × ((month_after d).mday ≡ d.mday)
      × (first_day z (month_after d).mon ≡ first_day y d.mon + month_length y d.mon)
unfolding month_after
month_after_lem d y h low =
    if_cases
      (λ (r : MonthDay).
        (z : ℕ) × IsYear r.year z
        × (r.mon < 12)
        × (r.mday ≡ d.mday)
        × (first_day z r.mon ≡ first_day y d.mon + month_length y d.mon))
      (d.mon + 1 == 12)
      (λ (last : (d.mon + 1 == 12) ≡ true).
        let e = (==_iff _ _).0 last in
        let parts = +ℤ_parts d.year (pos 1) in
        let month : d.mon ≡ 11 = omega arith in
        (
          y + 1,
          omega arith,
          omega arith,
          refl,
          next_january y ∙ sym (ap (λ m. first_day y m + month_length y m) month),
        ))
      (λ (early : (d.mon + 1 == 12) ≡ false).
        (y, h, ground arith, refl, next_month y d.mon (ground arith)))

-- The days are counted from 1 January of the year -400.
first_day-start : first_day 0 0 ≡ 0
unfolding first_day start_of days_up_to
first_day-start = refl

positive_year : (y m : ℕ) → m ≡ 0 → 1 ≤ first_day y m → 1 ≤ y
positive_year zero m e h = let start = ap (first_day 0) e ∙ first_day-start in absurd (omega arith)
positive_year (suc y) m e h = omega arith

pub month_before_lem :
    (d : MonthDay) (y : ℕ)
    → IsYear d.year y
    → d.mon < 12
    → 1 ≤ first_day y d.mon
    → (z : ℕ) × IsYear (month_before d).year z
      × ((month_before d).mon < 12)
      × ((month_before d).mday ≡ d.mday)
      × (first_day z (month_before d).mon + month_length z (month_before d).mon ≡ first_day y d.mon)
unfolding month_before
month_before_lem d y h low above =
    if_cases
      (λ (r : MonthDay).
        (z : ℕ) × IsYear r.year z
        × (r.mon < 12)
        × (r.mday ≡ d.mday)
        × (first_day z r.mon + month_length z r.mon ≡ first_day y d.mon))
      (d.mon == 0)
      (λ (first : (d.mon == 0) ≡ true).
        let e = (==_iff _ _).0 first in
        let parts = -ℤ_parts d.year (pos 1) in
        let from = positive_year y d.mon e above in
        (
          y - 1,
          omega arith,
          omega arith,
          refl,
          sym (next_january (y - 1)) ∙ ap₂ first_day {x = y - 1 + 1} {y = y} (omega arith) (sym e),
        ))
      (λ (later : (d.mon == 0) ≡ false). (
        y,
        h,
        omega arith,
        refl,
        sym (next_month y (d.mon - 1) (omega arith))
            ∙ ap (first_day y) {x = d.mon - 1 + 1} (ground arith),
      ))

-- Every month ends within its year, and each but the first begins after January.
end_table :
    all_below 12 (λ m.
      leb (start_of true m + length_of true m) 366
      && leb (start_of false m + length_of false m) 365
      && ((m == 0) || (leb 31 (start_of true m) && leb 31 (start_of false m))))
    ≡ true
unfolding all_below start_of length_of
end_table = refl

month_end :
    (leap : Bool) (m : ℕ)
    → m < 12
    → start_of leap m + length_of leap m ≤ (if leap then 366 else 365)
month_end true m h = let t = all_below_sound 12 _ m end_table h in ground arith
month_end false m h = let t = all_below_sound 12 _ m end_table h in ground arith

later_month : (leap : Bool) (m : ℕ) → m < 12 → 1 ≤ m → 31 ≤ start_of leap m
later_month true m h l = let t = all_below_sound 12 _ m end_table h in ground arith
later_month false m h l = let t = all_below_sound 12 _ m end_table h in ground arith

pub first_day-month_length :
    (y m : ℕ) → m < 12 → first_day y m + month_length y m ≤ days_up_to (y + 1)
unfolding first_day length_of
first_day-month_length y m h = sum_end _ _ _ _ _ (month_end (gregorian y) m h) (next_year y)
  where
    sum_end : (d s l n e : ℕ) → s + l ≤ n → n + d ≡ e → d + s + l ≤ e
    sum_end d s l n e low same = omega arith

pub first_day-january : (y m : ℕ) → m < 12 → first_day y m < days_up_to y + 31 → m ≡ 0
unfolding first_day
first_day-january y m h low = elim (le_or_lt 1 m) [
  | inl later ↦ let s = later_month (gregorian y) m h later in absurd (omega arith)
  | inr none_before ↦ omega arith
]
