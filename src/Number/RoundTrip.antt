-- ===== src/Number/RoundTrip.antt =====
-- Integers that `pa_itoa` of src/main/pa_int.C prints and `pa_atoi` reads, and the range of what is read.
use parser.Prelude.{
  ℕ, zero, suc, ◌+◌, ◌*◌, ◌/◌, ◌%◌, ◌^◌, ◌≤◌, ◌<◌, ◌≡◌, refl, sym, ap, ◌∙◌, true, false, some, List,
  [], ◌∷◌, ltb, leb, ◌==◌, Bool-cases, inl, inr, length, arith, All, append-nil,
}
use parser.Prelude.Int.{ℤ, pos, negsuc, pos_part, neg_part}
use parser.Prelude.Result.{ok}
use parser.Number.{
  skip_spaces, digit_of, itoa_digits, add_sign, magnitude, max_number, pa_itoa, pa_ato_any, minus,
  as_positive, as_negative, no_number, ato_signed, pa_atoi, int_max, all_spaces,
}
use parser.Number.Value.{IsDigit, value, digit-is_space, digit-minus, pa_ato_any-value}

-- The text that is printed: digits, at most `k` of them before `acc`, with the value of the number.
record Prints (k n : ℕ) (acc xs : List ℕ) : Type 0 where
  pub digits : All (IsDigit 10) xs
  pub same : value 10 0 xs ≡ value 10 n acc
  pub fits : length xs ≤ k + length acc
  pub some_text : 1 ≤ length xs

digit-IsDigit : (d : ℕ) → d < 10 → IsDigit 10 (d + b'0')
unfolding digit_of
digit-IsDigit d h = (d, ground arith, h)

digit-of-add : (d : ℕ) → d < 10 → digit_of (d + b'0') ≡ some d
unfolding digit_of
digit-of-add d h = ground arith

value-cons :
    (r d : ℕ) (cs : List ℕ) → d < 10 → value 10 r ((d + b'0') ∷ cs) ≡ value 10 (r * 10 + d) cs
unfolding value
value-cons r d cs h = rw (digit-of-add d h) refl

itoa_digits-Prints :
    (room k n : ℕ) (acc : List ℕ)
    → n < 10 ^ k
    → k ≤ room
    → All (IsDigit 10) acc
    → 1 ≤ k
    → (xs : List ℕ) × (itoa_digits room n acc ≡ some xs) × Prints k n acc xs
unfolding itoa_digits
itoa_digits-Prints room zero n acc low le all h = absurd (omega arith)
itoa_digits-Prints zero (suc k) n acc low le all h = absurd (omega arith)
itoa_digits-Prints (suc room) (suc k) n acc low le all h =
    let d = n % 10 in
    let next = (d + b'0') ∷ acc in
    let digit = digit-IsDigit d (omega arith) in
    elim (Bool-cases (n / 10 == 0)) [
      | inl last ↦ (
        next,
        rw last refl,
        record {
          digits = (digit, all);
          same = value-cons 0 d acc (omega arith) ∙ ap (λ r. value 10 r acc) (ground arith);
          fits = omega arith;
          some_text = omega arith;
        },
      )
      | inr more ↦
          let (xs, run, p) =
            itoa_digits-Prints room k (n / 10) next (omega arith) (omega arith) (digit, all)
              (ground arith) in
          (
            xs,
            rw more run,
            record {
              digits = p.digits;
              same =
                  p.same
                  ∙ value-cons (n / 10) d acc (omega arith)
                  ∙ ap (λ r. value 10 r acc) (omega arith);
              fits = omega (arith, p.fits);
              some_text = p.some_text;
            },
          )
    ]

-- The values of an `int`.
abbrev pub IsInt : ℤ → Type 0
IsInt i = (pos_part i ≤ int_max) × (neg_part i ≤ int_max + 1)

-- Digits that stand alone.
digits_alone :
    (modulus max : ℕ) (ds : List ℕ)
    → max < modulus
    → All (IsDigit 10) ds
    → value 10 0 ds ≤ max
    → pa_ato_any modulus ds 10 max ≡ ok (value 10 0 ds)
digits_alone modulus max ds wide all low =
    let e =
      pa_ato_any-value modulus 10 max [] ds [] (omega arith) (omega arith) wide nothing all
        nothing in
    let fits : leb (value 10 0 ds) max ≡ true = ground arith in
    ap (λ t. pa_ato_any modulus t 10 max) (sym (append-nil ds)) ∙ e ∙ rw fits refl
  where
    nothing : all_spaces [] ≡ true
    nothing = unfold all_spaces in refl

digits-no_number : (ds : List ℕ) → All (IsDigit 10) ds → 1 ≤ length ds → no_number ds ≡ false
digits-no_number [] all h = absurd (omega arith)
digits-no_number (d ∷ ds) (digit, all) h = digit-is_space 10 d digit

digits-skip_spaces : (ds : List ℕ) → All (IsDigit 10) ds → skip_spaces ds ≡ ds
unfolding skip_spaces
digits-skip_spaces [] all = refl
digits-skip_spaces (d ∷ ds) (digit, all) = rw (digit-is_space 10 d digit) refl

digit-plus : (c : ℕ) → IsDigit 10 c → (c == b'+') ≡ false
unfolding digit_of
digit-plus c (d, e, _) = ground arith

-- Behind the white space, digits are read as a number, and so is a minus with digits behind it.
ato_signed-digits :
    (modulus min_abs max : ℕ) (ds : List ℕ)
    → max < modulus
    → All (IsDigit 10) ds
    → 1 ≤ length ds
    → value 10 0 ds ≤ max
    → ato_signed modulus min_abs max 10 ds ≡ ok (pos (value 10 0 ds))
unfolding ato_signed as_positive
ato_signed-digits modulus min_abs max [] wide all h low = absurd (omega arith)
ato_signed-digits modulus min_abs max (d ∷ ds) wide (digit, all) h low =
    rw
      (
        digit-minus 10 d digit,
        digit-plus d digit,
        digits_alone modulus max (d ∷ ds) wide (digit, all) low,
      )
      refl

-- Digits alone are read as their value.
pub pa_atoi-digits :
    (ds : List ℕ)
    → All (IsDigit 10) ds
    → 1 ≤ length ds
    → value 10 0 ds ≤ int_max
    → pa_atoi (some ds) 10 ≡ ok (pos (value 10 0 ds))
unfolding pa_atoi
pa_atoi-digits ds all h low =
    rw (digits-skip_spaces ds all)
      (ato_signed-digits (2 ^ 32) (int_max + 1) int_max ds (omega arith) all h low)

ato_signed-minus :
    (modulus min_abs max : ℕ) (ds : List ℕ)
    → min_abs < modulus
    → All (IsDigit 10) ds
    → 1 ≤ length ds
    → value 10 0 ds ≤ min_abs
    → ato_signed modulus min_abs max 10 (b'-' ∷ ds) ≡ ok (minus (value 10 0 ds))
unfolding ato_signed as_negative
ato_signed-minus modulus min_abs max ds wide all h low =
    rw (digits-no_number ds all h, digits_alone modulus min_abs ds wide all low) refl

magnitude_negsuc : (n : ℕ) → n < 2 ^ 31 → magnitude (negsuc n) ≡ suc n
unfolding magnitude
magnitude_negsuc n h = omega arith

value-nil : (n : ℕ) → value 10 n [] ≡ n
unfolding value
value-nil n = refl

skip_minus : (ds : List ℕ) → skip_spaces (b'-' ∷ ds) ≡ b'-' ∷ ds
unfolding skip_spaces
skip_minus ds = refl

with_sign :
    (ds : List ℕ) → ltb (length ds) max_number ≡ true → add_sign true (some ds) ≡ some (b'-' ∷ ds)
unfolding add_sign
with_sign ds h = rw h refl

-- Every `int` that is printed fits the buffer, and is read back as it was.
pub pa_itoa-pa_atoi :
    (i : ℤ)
    → IsInt i
    → (text : List ℕ) × (pa_itoa i ≡ some text)
      × (length text ≤ max_number)
      × (pa_atoi (some text) 10 ≡ ok i)
unfolding pa_itoa pa_atoi
pa_itoa-pa_atoi (pos n) h =
    let (ds, run, p) =
      itoa_digits-Prints max_number 10 n [] (omega arith) (omega arith) tt (omega arith) in
    let same : value 10 0 ds ≡ n = p.same ∙ value-nil n in
    let e =
      ato_signed-digits (2 ^ 32) (int_max + 1) int_max ds (omega arith) p.digits p.some_text
        (omega arith) in
    (
      ds,
      ap (add_sign false) run ∙ (unfold add_sign in refl),
      omega (arith, p.fits),
      ap (ato_signed (2 ^ 32) (int_max + 1) int_max 10) (digits-skip_spaces ds p.digits)
          ∙ e
          ∙ ap (λ m. ok (pos m)) same,
    )
pa_itoa-pa_atoi (negsuc n) h =
    let m = magnitude_negsuc n (omega arith) in
    let (ds, run, p) =
      itoa_digits-Prints max_number 10 (suc n) [] (omega arith) (omega arith) tt (omega arith) in
    let same : value 10 0 ds ≡ suc n = p.same ∙ value-nil (suc n) in
    let e =
      ato_signed-minus (2 ^ 32) (int_max + 1) int_max ds (omega arith) p.digits p.some_text
        (omega arith) in
    let room : ltb (length ds) max_number ≡ true = ground (arith, p.fits) in
    (
      b'-' ∷ ds,
      ap (λ k. add_sign true (itoa_digits max_number k [])) m
          ∙ ap (add_sign true) run
          ∙ with_sign ds room,
      omega (arith, p.fits),
      ap (ato_signed (2 ^ 32) (int_max + 1) int_max 10) (skip_minus ds)
          ∙ e
          ∙ ap (λ k. ok (minus k)) same,
    )
