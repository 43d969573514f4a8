-- ===== src/Date/Carry.antt =====
-- The carries of `validate_structure` in src/types/pa_vdate.C, in bases 60, 24 and 12.
use parser.Prelude.{
  ℕ, suc, ◌⊎◌, ap, ◌+◌, ◌-◌, ◌*◌, ◌/◌, ◌%◌, ◌<◌, ◌≤◌, ◌≡◌, refl, true, false, if_cases, ◌||◌, arith,
}
use parser.Prelude.Int.{
  ℤ, pos, negsuc, pos_part, neg_part, ltb_ℤ, ◌+ℤ◌, +ℤ_parts, -ℤ_parts, if_less, eq_of_parts,
}
use parser.Date.{carry, quot, rem}

-- The pair is the digit and what is carried up: their value is that of the pair before.
abbrev pub IsCarry : ℕ → ℤ → ℤ → ℤ × ℤ → Type 0
IsCarry base low high r =
    (n : ℕ) × (r.0 ≡ pos n)
    × (n < base)
    × (base * pos_part r.1 + n + base * neg_part high + neg_part low
        ≡ base * neg_part r.1 + base * pos_part high + pos_part low)

-- Quotient and remainder of C in parts.
pub quot_parts :
    (base : ℕ) (a : ℤ)
    → (pos_part (quot a (suc base)) ≡ pos_part a / suc base)
      × (neg_part (quot a (suc base)) ≡ neg_part a / suc base)
unfolding quot
quot_parts base (pos n) = (refl, ground arith)
quot_parts base (negsuc n) = (ground arith, ground arith)

pub rem_parts :
    (base : ℕ) (a : ℤ)
    → (pos_part (rem a (suc base)) ≡ pos_part a % suc base)
      × (neg_part (rem a (suc base)) ≡ neg_part a % suc base)
unfolding rem
rem_parts base (pos n) = (refl, ground arith)
rem_parts base (negsuc n) = (ground arith, ground arith)

pub one_part : (a : ℤ) → (pos_part a ≡ 0) ⊎ (neg_part a ≡ 0)
one_part a = ground arith

in_range :
    (base : ℕ) (a : ℤ)
    → (ltb_ℤ a (pos 0) || ltb_ℤ (pos (base - 1)) a) ≡ false
    → (a ≡ pos (pos_part a)) × (pos_part a ≤ base - 1)
in_range base a h = (ground arith, ground arith)

pub carry_60 : (low high : ℤ) → IsCarry 60 low high (carry 60 low high)
unfolding carry
carry_60 low high =
    let (up, down) = quot_parts 59 low in
    let (more, less) = rem_parts 59 low in
    let side = one_part low in
    let sum = +ℤ_parts high (quot low 60) in
    let before = -ℤ_parts (high +ℤ quot low 60) (pos 1) in
    let again = +ℤ_parts (rem low 60) (pos 60) in
    if_cases (IsCarry 60 low high) (ltb_ℤ low (pos 0) || ltb_ℤ (pos 59) low)
      (λ (out : (ltb_ℤ low (pos 0) || ltb_ℤ (pos 59) low) ≡ true).
        if_less (IsCarry 60 low high) (rem low 60) (pos 0)
          (λ below.
            (60 - neg_part low % 60, eq_of_parts _ _ (omega arith), omega arith, omega arith))
          (λ above. (pos_part low % 60, eq_of_parts _ _ (omega arith), omega arith, omega arith)))
      (λ (low_in : (ltb_ℤ low (pos 0) || ltb_ℤ (pos 59) low) ≡ false).
        let (e, below) = in_range 60 low low_in in
        let zero = ap neg_part e in (pos_part low, e, omega arith, omega arith))

pub carry_24 : (low high : ℤ) → IsCarry 24 low high (carry 24 low high)
unfolding carry
carry_24 low high =
    let (up, down) = quot_parts 23 low in
    let (more, less) = rem_parts 23 low in
    let side = one_part low in
    let sum = +ℤ_parts high (quot low 24) in
    let before = -ℤ_parts (high +ℤ quot low 24) (pos 1) in
    let again = +ℤ_parts (rem low 24) (pos 24) in
    if_cases (IsCarry 24 low high) (ltb_ℤ low (pos 0) || ltb_ℤ (pos 23) low)
      (λ (out : (ltb_ℤ low (pos 0) || ltb_ℤ (pos 23) low) ≡ true).
        if_less (IsCarry 24 low high) (rem low 24) (pos 0)
          (λ below.
            (24 - neg_part low % 24, eq_of_parts _ _ (omega arith), omega arith, omega arith))
          (λ above. (pos_part low % 24, eq_of_parts _ _ (omega arith), omega arith, omega arith)))
      (λ (low_in : (ltb_ℤ low (pos 0) || ltb_ℤ (pos 23) low) ≡ false).
        let (e, below) = in_range 24 low low_in in
        let zero = ap neg_part e in (pos_part low, e, omega arith, omega arith))

pub carry_12 : (low high : ℤ) → IsCarry 12 low high (carry 12 low high)
unfolding carry
carry_12 low high =
    let (up, down) = quot_parts 11 low in
    let (more, less) = rem_parts 11 low in
    let side = one_part low in
    let sum = +ℤ_parts high (quot low 12) in
    let before = -ℤ_parts (high +ℤ quot low 12) (pos 1) in
    let again = +ℤ_parts (rem low 12) (pos 12) in
    if_cases (IsCarry 12 low high) (ltb_ℤ low (pos 0) || ltb_ℤ (pos 11) low)
      (λ (out : (ltb_ℤ low (pos 0) || ltb_ℤ (pos 11) low) ≡ true).
        if_less (IsCarry 12 low high) (rem low 12) (pos 0)
          (λ below.
            (12 - neg_part low % 12, eq_of_parts _ _ (omega arith), omega arith, omega arith))
          (λ above. (pos_part low % 12, eq_of_parts _ _ (omega arith), omega arith, omega arith)))
      (λ (low_in : (ltb_ℤ low (pos 0) || ltb_ℤ (pos 11) low) ≡ false).
        let (e, below) = in_range 12 low low_in in
        let zero = ap neg_part e in (pos_part low, e, omega arith, omega arith))
