-- ===== src/Number/Range.antt =====
-- What `pa_ato_any`, `pa_atoi` and `pa_atowi` of src/main/pa_int.C return is in range, whatever the text.
use parser.Prelude.{
  ℕ, zero, suc, ◌+◌, ◌*◌, ◌%◌, ◌^◌, ◌≤◌, ◌<◌, ◌||◌, Option, none, some, List, [], ◌∷◌, ltb, leb,
  ◌==◌, if◌then◌else◌, if_cases, arith,
}
use native.Mathlib.Nat.{mod-eq_of_lt}
use parser.Prelude.Int.{ℤ, pos_part, neg_part}
use parser.Prelude.Result.{Result, ok, err}
use parser.Number.{
  NumberError, out_of_range, skip_spaces, skip_prefix, digit_of, overflows, digits, finish,
  ato_text, pa_ato_any, as_positive, as_negative, no_number, ato_signed, pa_atoi, pa_atowi, int_max,
  wint_max, starts_with, all_spaces,
}
use parser.Number.Value.{fits_le}

-- A result, if there is one, is at most the maximum.
abbrev pub AtMost : ℕ → Result NumberError ℕ → Type 0
AtMost max (ok n) = n ≤ max
AtMost max (err e) = Unit

abbrev StartsAtMost : ℕ → Result NumberError (ℕ × List ℕ) → Type 0
StartsAtMost max (ok (n, rest)) = n ≤ max
StartsAtMost max (err e) = Unit

module _ (modulus base max : ℕ) (one : 1 ≤ base) (wide : max < modulus) where
  digits-StartsAtMost :
      (r : ℕ) (cs : List ℕ) → r ≤ max → StartsAtMost max (digits modulus base max r cs)
  unfolding digits
  digits-StartsAtMost r [] low = low
  digits-StartsAtMost r (c ∷ cs) low =
      by_digit (digit_of c) (λ d small next. digits-StartsAtMost ((r * base + d) % modulus) cs next)
    where
      by_digit :
          (o : Option ℕ)
          → ((d : ℕ)
              → d < base
              → (r * base + d) % modulus ≤ max
              → StartsAtMost max (digits modulus base max ((r * base + d) % modulus) cs))
          → StartsAtMost max (elim o [
            | none ↦ ok (r, c ∷ cs)
            | some digit ↦
                let rest = digits modulus base max ((r * base + digit) % modulus) cs in
                if leb base digit
                then ok (r, c ∷ cs)
                else if overflows max base r digit
                then err out_of_range
                else rest
          ])
      by_digit none ih = low
      by_digit (some d) ih =
          if_cases (StartsAtMost max) (leb base d) (λ _. low)
            λ small.
              if_cases (StartsAtMost max) (overflows max base r d) (λ _. tt)
                λ fits.
                  let less : d < base = ground arith in
                  let next = fits_le max base r d one fits less in
                  let narrow =
                    mod-eq_of_lt {n = r * base + d} {m = modulus} (omega (arith, next)) in
                  ih d less (omega (arith, narrow, next))

finish-AtMost :
    (max : ℕ) (r : Result NumberError (ℕ × List ℕ)) → StartsAtMost max r → AtMost max (finish r)
unfolding finish
finish-AtMost max (ok (n, rest)) h = if_cases (AtMost max) (all_spaces rest) (λ _. h) (λ _. tt)
finish-AtMost max (err e) h = tt

-- Whatever the text and the base, `pa_ato_any` returns at most the maximum that it is given.
pub pa_ato_any-AtMost :
    (modulus base max : ℕ) (str : List ℕ)
    → max < modulus
    → AtMost max (pa_ato_any modulus str base max)
unfolding pa_ato_any
pa_ato_any-AtMost modulus base max str wide = by_prefix (skip_prefix base (skip_spaces str))
  where
    by_prefix : (t : ℕ × List ℕ) → AtMost max (ato_text modulus max t)
    by_prefix (b, text) =
        if_cases (AtMost max) (ltb b 2 || ltb 16 b) (λ _. tt)
          λ legal.
            if_cases (AtMost max) (starts_with b'-' text) (λ _. tt)
              λ _.
                finish-AtMost max _
                  (digits-StartsAtMost modulus b max (ground arith) wide 0 text (omega arith))

-- A signed result, if there is one, is in the range of the type.
abbrev pub InRange : ℕ → ℕ → Result NumberError ℤ → Type 0
InRange min_abs max (ok i) = (pos_part i ≤ max) × (neg_part i ≤ min_abs)
InRange min_abs max (err e) = Unit

as_positive-InRange :
    (min_abs max : ℕ) (r : Result NumberError ℕ)
    → AtMost max r
    → InRange min_abs max (as_positive r)
unfolding as_positive
as_positive-InRange min_abs max (ok n) h = (h, omega arith)
as_positive-InRange min_abs max (err e) h = tt

as_negative-InRange :
    (min_abs max : ℕ) (r : Result NumberError ℕ)
    → AtMost min_abs r
    → InRange min_abs max (as_negative r)
unfolding as_negative
as_negative-InRange min_abs max (ok zero) h = (omega arith, omega arith)
as_negative-InRange min_abs max (ok (suc n)) h = (omega arith, h)
as_negative-InRange min_abs max (err e) h = tt

ato_signed-InRange :
    (modulus min_abs max base : ℕ) (str : List ℕ)
    → max < modulus
    → min_abs < modulus
    → InRange min_abs max (ato_signed modulus min_abs max base str)
unfolding ato_signed
ato_signed-InRange modulus min_abs max base [] h g = (omega arith, omega arith)
ato_signed-InRange modulus min_abs max base (c ∷ cs) h g =
    let positive =
      λ (t : List ℕ). as_positive-InRange min_abs max _ (pa_ato_any-AtMost modulus base max t h) in
    if_cases (InRange min_abs max) (c == b'-')
      (λ _.
        if_cases (InRange min_abs max) (no_number cs) (λ _. tt)
          (λ _. as_negative-InRange min_abs max _ (pa_ato_any-AtMost modulus base min_abs cs g)))
      (λ _.
        if_cases (InRange min_abs max) (c == b'+')
          (λ _. if_cases (InRange min_abs max) (no_number cs) (λ _. tt) (λ _. positive cs))
          (λ _. positive (c ∷ cs)))

-- Whatever the text and the base, what `pa_atoi` returns is an `int`, and what `pa_atowi` returns is an
-- integer that a double holds exactly.
pub pa_atoi-pa_atowi-InRange :
    (str : List ℕ) (base : ℕ)
    → InRange (int_max + 1) int_max (pa_atoi (some str) base)
      × InRange wint_max wint_max (pa_atowi (some str) base)
unfolding pa_atoi pa_atowi
pa_atoi-pa_atowi-InRange str base = (
  ato_signed-InRange (2 ^ 32) (int_max + 1) int_max base (skip_spaces str) (omega arith)
      (omega arith),
  ato_signed-InRange (2 ^ 64) wint_max wint_max base (skip_spaces str) (omega arith) (omega arith),
)
