-- ===== src/Date/Fit.antt =====
-- The two loops of `validate_structure` in src/types/pa_vdate.C, which fit a day into a month.
use parser.Prelude.{ℕ, zero, suc, ◌+◌, ◌<◌, ◌≡◌, refl, ap, arith}
use parser.Prelude.Int.{pos, pos_part, neg_part, ◌≤ℤ◌, ◌+ℤ◌, ◌-ℤ◌, +ℤ_parts, -ℤ_parts, if_less}
use parser.Date.{MonthDay, get_month_days, month_before, month_after, days_up, days_down, fit_days}
use parser.Date.Years.{IsYear}
use parser.Date.Fields.{month_length}
use parser.Date.RoundTrip.{get_month_days_lem}
use parser.Date.Months.{first_day, month_length_bound, IsFitted, month_after_lem, month_before_lem}

fitted :
    (d : MonthDay) (y : ℕ)
    → IsYear d.year y
    → d.mon < 12
    → pos 1 ≤ℤ d.mday
    → d.mday ≤ℤ pos (month_length y d.mon)
    → IsFitted d d y
fitted d y h low above fits = record {
  fitted_year = y;
  same_year = h;
  month_below = low;
  day_above = above;
  day_fits = fits;
  same_day = refl;
}

-- What is fitted for the same day of another month is fitted.
refit :
    (d d' r : MonthDay) (y z : ℕ)
    → first_day z d'.mon + pos_part d'.mday + neg_part d.mday
      ≡ first_day y d.mon + pos_part d.mday + neg_part d'.mday
    → IsFitted d' r z
    → IsFitted d r y
refit d d' r y z same f =
    let day = f.same_day in
    record {
      fitted_year = f.fitted_year;
      same_year = f.same_year;
      month_below = f.month_below;
      day_above = f.day_above;
      day_fits = f.day_fits;
      same_day = omega arith;
    }

-- Each round takes 28 days at least.
days_up_lem :
    (rounds : ℕ) (d : MonthDay) (y : ℕ)
    → IsYear d.year y
    → d.mon < 12
    → pos 1 ≤ℤ d.mday
    → d.mday ≤ℤ pos rounds
    → IsFitted d (days_up rounds d) y
unfolding days_up
days_up_lem zero d y h low above enough = absurd (omega arith)
days_up_lem (suc rounds) d y h low above enough =
    let length = get_month_days_lem d.year y d.mon h in
    let long = month_length_bound y d.mon low in
    let shorter = record d { mday = d.mday -ℤ pos (get_month_days d.year d.mon) } in
    let (z, year, below, same, first) = month_after_lem shorter y h low in
    let parts = -ℤ_parts d.mday (pos (get_month_days d.year d.mon)) in
    let up = ap pos_part same in
    let down = ap neg_part same in
    if_less (λ (r : MonthDay). IsFitted d r y) (pos (get_month_days d.year d.mon)) d.mday
      (λ more.
        refit d (month_after shorter) _ y z (omega arith)
          (days_up_lem rounds (month_after shorter) z year below (omega arith) (omega arith)))
      (λ most. fitted d y h low above (omega arith))

-- Each round adds a day at least; the day is counted from 1 January of the year -400 on.
days_down_lem :
    (rounds : ℕ) (d : MonthDay) (y : ℕ)
    → IsYear d.year y
    → d.mon < 12
    → d.mday ≤ℤ pos (month_length y d.mon)
    → pos 1 ≤ℤ d.mday +ℤ pos rounds
    → neg_part d.mday < first_day y d.mon + pos_part d.mday
    → IsFitted d (days_down rounds d) y
unfolding days_down
days_down_lem zero d y h low fits enough long =
    let parts = +ℤ_parts d.mday (pos 0) in fitted d y h low (omega arith) fits
days_down_lem (suc rounds) d y h low fits enough long =
    if_less (λ (r : MonthDay). IsFitted d r y) (pos 0) d.mday
      (λ positive. fitted d y h low (omega arith) fits)
      (λ negative.
        let b = month_before d in
        let (z, year, below, same, first) = month_before_lem d y h low (omega arith) in
        let length = get_month_days_lem b.year z b.mon year in
        let some_days = month_length_bound z b.mon below in
        let longer = record b { mday = b.mday +ℤ pos (get_month_days b.year b.mon) } in
        let parts = +ℤ_parts b.mday (pos (get_month_days b.year b.mon)) in
        let before = +ℤ_parts d.mday (pos (suc rounds)) in
        let after = +ℤ_parts longer.mday (pos rounds) in
        let up = ap pos_part same in
        let down = ap neg_part same in
        refit d longer _ y z (omega arith)
          (days_down_lem rounds longer z year below (omega arith) (omega arith) (omega arith)))

pub fit_days_lem :
    (d : MonthDay) (y : ℕ)
    → IsYear d.year y
    → d.mon < 12
    → neg_part d.mday < first_day y d.mon + pos_part d.mday
    → IsFitted d (fit_days d) y
unfolding fit_days
fit_days_lem d y h low early =
    let long = month_length_bound y d.mon low in
    let parts = +ℤ_parts d.mday (pos (neg_part d.mday + 1)) in
    if_less (λ (r : MonthDay). IsFitted d r y) (pos 0) d.mday
      (λ positive. days_up_lem (pos_part d.mday) d y h low (omega arith) (omega arith))
      (λ negative. days_down_lem (neg_part d.mday + 1) d y h low (omega arith) (omega arith) early)
