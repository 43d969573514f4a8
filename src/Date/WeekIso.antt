-- ===== src/Date/WeekIso.antt =====
-- `VDate::CalcWeek` of src/types/pa_vdate.C finds the week of ISO 8601.
use parser.Prelude.{ℕ, suc, ◌+◌, ◌-◌, ◌≤◌, ◌≡◌, ap, sym, ◌∙◌, subst, arith}
use parser.Prelude.Int.{ℤ, pos, negsuc, pos_part, neg_part, ◌-ℤ◌, -ℤ_parts, if_less, eq_of_parts}
use parser.Date.{Tm, pa_mktime}
use parser.Date.Years.{IsYear, gregorian, days_up_to, next_year}
use parser.Date.Fields.{Civil, IsDate, Holds}
use parser.Date.Carry.{one_part}
use parser.Date.Months.{first_day, first_day-month_length, first_day-january}
use parser.Date.Week.{week_diff, calc_week}
use parser.Date.WeekYear.{IsIsoWeek, table, first, week_from_lem}
use parser.Date.WeekBefore.{
  year_december, yday_december, leap_bit, length-leap_bit, day_of_december, week_diff_lem,
  same_week, end_of_year,
}

-- The date, with the number of its day in the year from 0 on, as `tm_yday` has it.
pub record IsYearDate (t : Tm) (c : Civil) (yday : ℕ) : Type 0 where
  pub holds : Holds t c
  pub date : IsDate c
  pub day_of_year : days_up_to c.year + yday + 1 ≡ first_day c.year c.month + c.day
  pub same_yday : t.tm_yday ≡ pos yday

module _ (normalize : Tm → Tm)
    (normalize-year : (t : Tm) → (normalize t).tm_year ≡ (pa_mktime t).1.tm_year)
    (normalize-yday : (t : Tm) → (normalize t).tm_yday ≡ (pa_mktime t).1.tm_yday) where
  week_before :
      (t : Tm) (c : Civil) (yday k : ℕ)
      → IsYearDate t c yday
      → 2302 ≤ c.year
      → c.year ≤ 2500
      → yday + 5 + k ≡ first c.year
      → c.month ≡ 0
      → IsIsoWeek
          (days_up_to c.year + yday)
          (calc_week 0 normalize (normalize (record t { tm_mday = negsuc k })))
  week_before t c yday k p low high behind january =
      let tab = table c.year (omega arith) high in
      let few = tab.below in
      let thursday = tab.first_thursday in
      let u = record t { tm_mday = negsuc k } in
      let less = -ℤ_parts t.tm_year (pos 1) in
      let h = p.holds in
      let from = h.year in
      let z : IsYear (t.tm_year -ℤ pos 1) (c.year - 1) = omega arith in
      let year = normalize-year u ∙ year_december t c k p.holds p.date january (omega arith) in
      let yday_same =
        normalize-yday u
        ∙ yday_december t c k p.holds p.date january (omega arith)
        ∙ day_of_december (t.tm_year -ℤ pos 1) (c.year - 1) k z (omega arith) in
      let long = length-leap_bit (c.year - 1) in
      let end = next_year (c.year - 1) in
      let again = ap days_up_to {x = c.year - 1 + 1} {y = c.year} (omega arith) in
      same_week _ (days_up_to (c.year - 1) + (363 - k + leap_bit (gregorian (c.year - 1))))
        (days_up_to c.year + first c.year - 8) _ (omega arith) (omega arith, omega arith)
        (omega arith, omega arith)
        (end_of_year (normalize u) (c.year - 1) _ normalize
          (subst (λ (a : ℤ). IsYear a (c.year - 1)) (sym year) z) (omega arith) (omega arith)
          yday_same (omega arith) (omega arith))

  negative : (a : ℤ) (n : ℕ) → pos_part a + suc n ≡ neg_part a → a ≡ negsuc n
  negative a n h = eq_of_parts _ _ (omega arith)

  -- In the years 1902 to 2100 `CalcWeek` finds the week of ISO 8601 in which the day of a date lies: the week
  -- belongs to the year of its Thursday, and its number counts the Thursdays of that year. The structure
  -- is to hold a date with the right `tm_yday`, and the normalisation by the C library is to find the
  -- year and the day of the year that `pa_mktime` finds.
  pub calc_week_lem :
      (t : Tm) (c : Civil) (yday : ℕ)
      → IsYearDate t c yday
      → 2302 ≤ c.year
      → c.year ≤ 2500
      → IsIsoWeek (days_up_to c.year + yday) (calc_week 1 normalize t)
  unfolding calc_week
  calc_week_lem t c yday p low high =
      let h = p.holds in
      let from = h.year in
      let d = p.date in
      let fits = d.day_fits in
      let one = d.day_above in
      let day = p.day_of_year in
      let tab = table c.year (omega arith) high in
      let few = tab.below in
      let diff = week_diff_lem t c.year yday from (omega arith) p.same_yday in
      let side = one_part (week_diff t) in
      let length = first_day-month_length c.year c.month d.month_below in
      let next = next_year c.year in
      if_less (IsIsoWeek (days_up_to c.year + yday)) (week_diff t) (pos 0)
        (λ before.
          let k = neg_part (week_diff t) - 1 in
          let january = first_day-january c.year c.month d.month_below (omega arith) in
          subst
            (λ (a : ℤ).
              IsIsoWeek (days_up_to c.year + yday)
                (calc_week 0 normalize (normalize (record t { tm_mday = a }))))
            (sym (negative (week_diff t) k (omega arith)))
            (week_before t c yday k p low high (omega arith) january))
        (λ behind.
          week_from_lem t.tm_year c.year (pos_part (week_diff t)) yday from tab (omega arith)
            (omega arith) (omega arith))
