-- ===== src/Date/Overflow.antt =====
-- The carries of `validate_structure` in src/types/pa_vdate.C as numbers of the type int.
use parser.Prelude.{ℕ, ◌≤◌, arith}
use parser.Prelude.Int.{ℤ, pos_part, neg_part}
use parser.Date.{Tm, carry}
use parser.Date.Carry.{IsCarry, one_part, carry_60, carry_24, carry_12}

abbrev pub IsInt : ℤ → Type 0
IsInt a = (pos_part a ≤ 2147483647) × (neg_part a ≤ 2147483648)

-- From -2^30 to 2^30.
abbrev pub IsSmall : ℤ → Type 0
IsSmall a = (pos_part a ≤ 1073741824) × (neg_part a ≤ 1073741824)

-- Each field of a structure that is carried is small.
pub record HasSmallFields (t : Tm) : Type 0 where
  pub sec : IsSmall t.tm_sec
  pub min : IsSmall t.tm_min
  pub hour : IsSmall t.tm_hour
  pub mday : IsSmall t.tm_mday
  pub mon : IsSmall t.tm_mon
  pub year : IsSmall t.tm_year

-- The fields with what is carried up to them.
pub record CarriesFit (t : Tm) : Type 0 where
  pub minutes : IsInt (carry 60 t.tm_sec t.tm_min).1
  pub hours : IsInt (carry 60 (carry 60 t.tm_sec t.tm_min).1 t.tm_hour).1
  pub days : IsInt (carry 24 (carry 60 (carry 60 t.tm_sec t.tm_min).1 t.tm_hour).1 t.tm_mday).1
  pub years : IsInt (carry 12 t.tm_mon t.tm_year).1

-- What is carried to a small field from any int leaves it an int.
abbrev KeepsInt : ℕ → Type 0
KeepsInt base =
    (low high : ℤ) (r : ℤ × ℤ) → IsCarry base low high r → IsInt low → IsSmall high → IsInt r.1

keeps_60 : KeepsInt 60
keeps_60 low high r (n, e, below, sum) h small =
    let side = one_part r.1 in (omega arith, omega arith)

keeps_24 : KeepsInt 24
keeps_24 low high r (n, e, below, sum) h small =
    let side = one_part r.1 in (omega arith, omega arith)

keeps_12 : KeepsInt 12
keeps_12 low high r (n, e, below, sum) h small =
    let side = one_part r.1 in (omega arith, omega arith)

small-IsInt : (a : ℤ) → IsSmall a → IsInt a
small-IsInt a (up, down) = (omega arith, omega arith)

pub fields-CarriesFit : (t : Tm) → HasSmallFields t → CarriesFit t
fields-CarriesFit t h =
    let sec = carry_60 t.tm_sec t.tm_min in
    let minutes = keeps_60 _ _ _ sec (small-IsInt _ h.sec) h.min in
    let min = carry_60 (carry 60 t.tm_sec t.tm_min).1 t.tm_hour in
    let hours = keeps_60 _ _ _ min minutes h.hour in
    let hour = carry_24 (carry 60 (carry 60 t.tm_sec t.tm_min).1 t.tm_hour).1 t.tm_mday in
    let mon = carry_12 t.tm_mon t.tm_year in
    record {
      minutes = minutes;
      hours = hours;
      days = keeps_24 _ _ _ hour hours h.mday;
      years = keeps_12 _ _ _ mon (small-IsInt _ h.mon) h.year;
    }
