-- ===== src/Date/Validate.antt =====
-- The range check of src/types/pa_vdate.C, and what keeps the fields of a date through `pa_mktime`.
use parser.Prelude.{
  ℕ, ◌+◌, ◌-◌, ◌*◌, ◌/◌, ◌%◌, ◌<◌, ◌≤◌, ◌≡◌, ◌≢◌, inl, inr, refl, ap, sym, subst, ◌∙◌, true, false,
  ◌||◌, none, if_cases, Bool-cases, leb, ==_iff, get_or, arith,
}
use parser.Prelude.Bits.{all_below, all_below_sound}
use parser.Prelude.Int.{
  ℤ, pos, negsuc, pos_part, neg_part, ◌+ℤ◌, ◌-ℤ◌, ltb_ℤ, +ℤ_parts, -ℤ_parts, eq_of_parts,
}
use parser.Date.{Tm, days_in_month, time_of, pa_mktime}
use parser.Date.Era.{era_day}
use parser.Date.Days.{IsTime}
use parser.Date.Civil.{march_day, civil_year, late_date, early_date, le_or_lt}
use parser.Date.Fields.{Civil, IsDate, Holds}
use parser.Date.RoundTrip.{validate_structure_lem}
use parser.Date.Object.{VDate, eq_ℤ, zero_date, max_date, restore_zero, validate}
use parser.Date.SqlRoundTrip.{IsPrintable}

module _ (y d e k day : ℕ) (whole : 365 * y + y / 4 + d ≡ e + y / 100) (below : d < 366)
    (year_below : y < 400) (split : day ≡ 146097 * k + e) (rest : e < 146097) (low : 146037 ≤ day)
    (high : day ≤ 3798461) where
  late_range : 306 ≤ d → (400 ≤ y + 1 + 400 * k) × (y + 1 + 400 * k ≤ 10399)
  late_range late = (omega arith, omega arith)

  early_range : d < 306 → (400 ≤ y + 400 * k) × (y + 400 * k ≤ 10399)
  early_range early = (omega arith, omega arith)

-- The days of the years from 0 to 9999.
pub year_range :
    (day : ℕ) → 146037 ≤ day → day ≤ 3798461 → (400 ≤ civil_year day) × (civil_year day ≤ 10399)
year_range day low high =
    let e = era_day (day % 146097) (omega arith) in
    let within = λ (year : ℕ). (400 ≤ year) × (year ≤ 10399) in
    elim (le_or_lt 306 (march_day day)) [
      | inl late ↦ subst within (sym (late_date day late).0) (
          late_range _ _ _ _ day e.whole e.day_below e.year_below (omega arith) (omega arith) low
            high late)
      | inr early ↦ subst within (sym (early_date day early).0) (
          early_range _ _ _ _ day e.whole e.day_below e.year_below (omega arith) (omega arith) low
            high early)
    ]

month_table : all_below 12 (λ m. leb (get_or days_in_month m 0) 31) ≡ true
unfolding all_below
month_table = refl

month_days_bound : (c : Civil) → IsDate c → c.day < 100
month_days_bound c d =
    let fits = d.day_fits in
    let short = all_below_sound 12 _ c.month month_table d.month_below in ground arith

pub printable :
    (t : Tm) (c : Civil) → Holds t c → IsDate c → (400 ≤ c.year) × (c.year ≤ 10399) → IsPrintable t
printable t c h d (low, high) =
    let year = +ℤ_parts t.tm_year (pos 1900) in
    let month = +ℤ_parts (pos c.month) (pos 1) in
    let from = h.year in
    let hour = d.hour_below in
    let minute = d.minute_below in
    let second = d.second_below in
    let mon = d.month_below in
    record {
      y = c.year - 400;
      mo = c.month + 1;
      da = c.day;
      h = c.hour;
      mi = c.minute;
      s = c.second;
      is_year =
          (eq_of_parts (t.tm_year +ℤ pos 1900) (pos (c.year - 400)) (omega arith), omega arith);
      is_month = (
        ap (λ m. m +ℤ pos 1) h.month
            ∙ eq_of_parts (pos c.month +ℤ pos 1) (pos (c.month + 1)) (omega arith),
        omega arith,
      );
      is_day = (h.day, month_days_bound c d);
      is_hour = (h.hour, omega arith);
      is_minute = (h.minute, omega arith);
      is_second = (h.second, omega arith);
    }

not_before : (a : ℤ) → ltb_ℤ (a +ℤ pos 1900) (pos 0) ≡ false → eq_ℤ a (negsuc 1900) ≡ false
unfolding ◌+ℤ◌
not_before (pos n) h = refl
not_before (negsuc n) h = ground arith

in_years :
    (a : ℤ) (y : ℕ)
    → pos_part a + 2300 ≡ y + neg_part a
    → 400 ≤ y
    → y ≤ 10399
    → (ltb_ℤ (a +ℤ pos 1900) (pos 0) ≡ false) × (ltb_ℤ (pos 9999) (a +ℤ pos 1900) ≡ false)
in_years a y h low high = let sum = +ℤ_parts a (pos 1900) in (ground arith, ground arith)

pub validate_lem :
    (d : VDate) (c : Civil)
    → Holds d.ftm c
    → (400 ≤ c.year) × (c.year ≤ 10399)
    → validate d ≡ (d, none)
unfolding validate restore_zero
validate_lem d c h (low, high) =
    let (above, below) = in_years d.ftm.tm_year c.year h.year low high in
    rw (not_before d.ftm.tm_year above, above, below)

pub same_fields :
    (t : Tm) (c : Civil)
    → Holds t c
    → Holds (record t { tm_wday = pos 0; tm_yday = pos 0; tm_isdst = negsuc 0 }) c
same_fields t c h = record {
  year = h.year;
  month = h.month;
  day = h.day;
  hour = h.hour;
  minute = h.minute;
  second = h.second;
}

pub plus_nothing : (a b : ℤ) → b ≡ pos 0 → a +ℤ b ≡ a
plus_nothing a b h =
    let sum = +ℤ_parts a b in
    let up = ap pos_part h in let down = ap neg_part h in eq_of_parts (a +ℤ b) a (omega arith)

pub minus_nothing : (a b : ℤ) → b ≡ pos 0 → a -ℤ b ≡ a
minus_nothing a b h =
    let diff = -ℤ_parts a b in
    let up = ap pos_part h in let down = ap neg_part h in eq_of_parts (a -ℤ b) a (omega arith)

eq_ℤ-eq : (a b : ℤ) → eq_ℤ a b ≡ true → a ≡ b
eq_ℤ-eq (pos a) (pos b) h = ap pos ((==_iff a b).0 h)
eq_ℤ-eq (pos a) (negsuc b) h = ground arith
eq_ℤ-eq (negsuc a) (pos b) h = ground arith
eq_ℤ-eq (negsuc a) (negsuc b) h = ap negsuc ((==_iff a b).0 h)

pub ne_eq_ℤ : (a b : ℤ) → a ≢ b → eq_ℤ a b ≡ false
ne_eq_ℤ a b h = elim (Bool-cases (eq_ℤ a b)) [ inl e ↦ absurd (h (eq_ℤ-eq a b e)) | inr e ↦ e ]

time_of-Holds : (t : Tm) (c : Civil) → Holds t c → Holds (time_of t).1 c
unfolding time_of
time_of-Holds t c h =
    let same : (yday wday : ℤ) → Holds (record t { tm_yday = yday; tm_wday = wday }) c =
      λ yday wday. record {
        year = h.year;
        month = h.month;
        day = h.day;
        hour = h.hour;
        minute = h.minute;
        second = h.second;
      } in
    if_cases (λ (r : ℤ × Tm). Holds r.1 c)
      (ltb_ℤ (pos 10000) t.tm_year || ltb_ℤ t.tm_year (negsuc 9999)) (λ _. same _ _) (λ _. same _ _)

pub pa_mktime-Holds : (t : Tm) (c : Civil) → Holds t c → IsDate c → Holds (pa_mktime t).1 c
unfolding pa_mktime
pa_mktime-Holds t c h d =
    subst (λ (v : Tm). Holds (time_of v).1 c) (sym (validate_structure_lem t c h d))
      (time_of-Holds t c h)

pub within_dates :
    (t : ℤ) (day s : ℕ)
    → IsTime t day s
    → (146037 ≤ day) × (day ≤ 3798461)
    → (ltb_ℤ t zero_date ≡ false) × (ltb_ℤ max_date t ≡ false)
within_dates t day s (h, below) (low, high) = (ground arith, ground arith)
