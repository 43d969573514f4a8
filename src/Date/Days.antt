-- ===== src/Date/Days.antt =====
-- The first steps of `pa_gmtime` in src/types/pa_vdate.C: from a time to its day, the day's era and the day
-- in the era. The days are counted from 1 March of the year -400, the era before that of the source.
use parser.Prelude.{ℕ, ◌+◌, ◌*◌, ◌/◌, ◌%◌, ◌<◌, ◌≡◌, refl, arith}
use parser.Prelude.Int.{
  ℤ, pos, negsuc, pos_part, neg_part, ◌+ℤ◌, ◌-ℤ◌, ◌*ℤ◌, if_less, +ℤ_parts, -ℤ_parts, whole_part,
}
use parser.Date.{quot, split_days, era_of}

pub scale_parts :
    (a : ℤ) (n : ℕ)
    → pos_part (a *ℤ pos n) + neg_part a * n ≡ neg_part (a *ℤ pos n) + pos_part a * n
unfolding ◌*ℤ◌
scale_parts (pos m) n = ground arith
scale_parts (negsuc m) n = ground arith

-- The time t is the second s of the day.
abbrev pub IsTime : ℤ → ℕ → ℕ → Type 0
IsTime t day s = (pos_part t + 86400 * 865565 ≡ neg_part t + 86400 * day + s) × (s < 86400)

-- The day of the source is that many days from 1 March of the year 0 on.
abbrev pub IsDay : ℤ → ℕ → Type 0
IsDay a day = pos_part a + 146097 ≡ neg_part a + day

quot_parts :
    (a : ℤ)
    → pos_part (quot a 86400) ≡ pos_part a / 86400 × (neg_part (quot a 86400) ≡ neg_part a / 86400)
unfolding quot
quot_parts (pos n) = (refl, omega arith)
quot_parts (negsuc n) = (ground arith, ground arith)

pub split_days_lem :
    (t : ℤ) (day s : ℕ) → IsTime t day s → IsDay (split_days t).0 day × ((split_days t).1 ≡ s)
unfolding split_days
split_days_lem t day s (h, low) =
    let (up, down) = quot_parts t in
    let left = t -ℤ quot t 86400 *ℤ pos 86400 in
    let product = scale_parts (quot t 86400) 86400 in
    let diff = -ℤ_parts t (quot t 86400 *ℤ pos 86400) in
    let again = +ℤ_parts left (pos 86400) in
    let shifted = +ℤ_parts (quot t 86400) (pos 719468) in
    let earlier = -ℤ_parts (quot t 86400 +ℤ pos 719468) (pos 1) in
    if_less (λ (r : ℤ × ℕ). IsDay r.0 day × (r.1 ≡ s)) left (pos 0)
      (λ sign. (omega arith, whole_part (left +ℤ pos 86400) s (omega arith)))
      (λ sign. (omega arith, whole_part left s (omega arith)))

pub era_of_lem :
    (a : ℤ) (day : ℕ) → IsDay a day → pos_part (era_of a) + 1 ≡ neg_part (era_of a) + day / 146097
unfolding era_of quot ◌-ℤ◌
era_of_lem (pos n) day h = ground arith
era_of_lem (negsuc n) day h = ground arith

pub era_day_lem :
    (a : ℤ) (day : ℕ) → IsDay a day → pos_part (a -ℤ era_of a *ℤ pos 146097) ≡ day % 146097
era_day_lem a day h =
    let era = era_of_lem a day h in
    let product = scale_parts (era_of a) 146097 in
    let diff = -ℤ_parts a (era_of a *ℤ pos 146097) in
    whole_part (a -ℤ era_of a *ℤ pos 146097) (day % 146097) (omega arith)
