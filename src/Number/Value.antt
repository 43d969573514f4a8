-- ===== src/Number/Value.antt =====
-- The value of a text of digits, and that `pa_ato_any` of src/main/pa_int.C finds it or says that it is
-- out of range.
use native.Mathlib.Nat.{div-add-mod, mod-lt, mod-eq_of_lt}
use parser.Prelude.{
  ℕ, ◌+◌, ◌-◌, ◌*◌, ◌/◌, ◌%◌, ◌≤◌, ◌<◌, ◌≡◌, refl, ap, ◌∙◌, Bool, true, false, ◌&&◌, ◌||◌, Option,
  none, some, List, [], ◌∷◌, ◌++◌, ltb, leb, ◌==◌, if◌then◌else◌, Bool-cases, inl, inr, subst,
  arith, All, Bool-cases,
}
use parser.Prelude.Result.{ok, err}
use parser.Number.{
  out_of_range, is_space, skip_spaces, skip_x, skip_prefix, digit_of, overflows, digits, all_spaces,
  finish, starts_with, ato_text, pa_ato_any,
}

abbrev digit_value : Option ℕ → ℕ
digit_value none = 0
digit_value (some d) = d

-- A digit below the base.
abbrev pub IsDigit : ℕ → ℕ → Type 0
IsDigit base c = (d : ℕ) × (digit_of c ≡ some d) × (d < base)

-- The value of digits that follow a number.
unfoldable pub value : ℕ → ℕ → List ℕ → ℕ
value base result [] = result
value base result (c ∷ cs) = value base (result * base + digit_value (digit_of c)) cs

-- What is not a digit of any base, or ends the text.
abbrev pub Ends : List ℕ → Type 0
Ends cs = all_spaces cs ≡ true

space-digit_of : (c : ℕ) → is_space c ≡ true → digit_of c ≡ none
unfolding digit_of
space-digit_of c h = ground arith

value-le : (base r : ℕ) (cs : List ℕ) → 1 ≤ base → r ≤ value base r cs
unfolding value
value-le base r [] h = omega arith
value-le base r (c ∷ cs) h =
    let next = r * base + digit_value (digit_of c) in
    let grows : r ≤ r * base = grind arith in omega (arith, value-le base next cs h, grows)

and_left : (a b : Bool) → (a && b) ≡ true → a ≡ true
and_left true b h = refl
and_left false b h = h

and_right : (a b : Bool) → (a && b) ≡ true → b ≡ true
and_right true b h = h
and_right false b h = cc

mul_step : (a b n : ℕ) → a < b → a * n + n ≤ b * n
mul_step a b n h = let e : (a + 1) * n ≤ b * n = grind arith in omega (arith, e)

-- The test of the source says whether the next value is above the maximum.
overflow-lt :
    (max base r d : ℕ) → 1 ≤ base → overflows max base r d ≡ true → d < base → max < r * base + d
overflow-lt max base r d one over low =
    let split = div-add-mod max base in
    let rest : max % base < base = mod-lt max one in
    elim (Bool-cases (ltb (max / base) r)) [
      | inl above ↦
          let step = mul_step (max / base) r base (ground arith) in omega (arith, split, rest, step)
      | inr h ↦
          let same : r ≡ max / base = ground arith in
          let more : max - max / base * base < d = ground arith in
          let e : r * base ≡ max / base * base = ap (λ (t : ℕ). t * base) same in
          omega (arith, split, rest, e, more)
    ]

pub fits_le :
    (max base r d : ℕ) → 1 ≤ base → overflows max base r d ≡ false → d < base → r * base + d ≤ max
fits_le max base r d one fits low =
    let split = div-add-mod max base in
    elim (Bool-cases (r == max / base)) [
      | inl same ↦
          let same' : r ≡ max / base = ground arith in
          let less : d ≤ max - max / base * base = ground arith in
          let e : r * base ≡ max / base * base = ap (λ (t : ℕ). t * base) same' in
          omega (arith, split, e, less)
      | inr other ↦
          let below : r < max / base = ground arith in
          let step = mul_step r (max / base) base below in omega (arith, split, step)
    ]

module _ (modulus base max : ℕ) (one : 1 ≤ base) (wide : max < modulus) where
  digits-some :
      (r c d : ℕ) (cs : List ℕ)
      → digit_of c ≡ some d
      → d < base
      → digits modulus base max r (c ∷ cs) ≡ (
          if overflows max base r d
          then err out_of_range
          else digits modulus base max ((r * base + d) % modulus) cs)
  unfolding digits
  digits-some r c d cs e small =
      let below : leb base d ≡ false = ground arith in rw (e, digits, below) refl

  -- Digits with white space behind them: their value, unless it is above the maximum.
  digits-value :
      (r : ℕ) (cs rest : List ℕ)
      → r ≤ max
      → All (IsDigit base) cs
      → all_spaces rest ≡ true
      → finish (digits modulus base max r (cs ++ rest))
        ≡ (if leb (value base r cs) max then ok (value base r cs) else err out_of_range)
  unfolding digits value finish all_spaces
  digits-value r [] [] low _ blank = let low' : leb r max ≡ true = ground arith in rw low' refl
  digits-value r [] (c ∷ rest) low _ blank =
      let space : is_space c ≡ true = and_left (is_space c) _ blank in
      let low' : leb r max ≡ true = ground arith in
      rw (space-digit_of c space, finish, blank, low') refl
  digits-value r (c ∷ cs) rest low ((d, e, small), all) blank =
      ap finish (digits-some r c d (cs ++ rest) e small)
      ∙ rw e (elim (Bool-cases (overflows max base r d)) [
        | inl over ↦
            let large : leb (value base (r * base + d) cs) max ≡ false = ground (
              arith,
              value-le base (r * base + d) cs one,
              overflow-lt max base r d one over small,
            ) in
            rw (over, large) refl
        | inr fits ↦
            let next = fits_le max base r d one fits small in
            let narrow = mod-eq_of_lt {n = r * base + d} {m = modulus} (omega (arith, next)) in
            rw (fits, narrow) (digits-value (r * base + d) cs rest next all blank)
      ])

-- The texts that may stand around a number.
skip_spaces-append :
    (before cs : List ℕ) → all_spaces before ≡ true → skip_spaces (before ++ cs) ≡ skip_spaces cs
unfolding skip_spaces all_spaces
skip_spaces-append [] cs h = refl
skip_spaces-append (b ∷ bs) cs h =
    rw (and_left (is_space b) _ h) (skip_spaces-append bs cs (and_right (is_space b) _ h))

skip_spaces_all : (cs : List ℕ) → all_spaces cs ≡ true → skip_spaces cs ≡ []
unfolding skip_spaces all_spaces
skip_spaces_all [] h = refl
skip_spaces_all (b ∷ bs) h =
    rw (and_left (is_space b) _ h) (skip_spaces_all bs (and_right (is_space b) _ h))

pub digit-is_space : (base c : ℕ) → IsDigit base c → is_space c ≡ false
digit-is_space base c (d, e, _) = elim (Bool-cases (is_space c)) [
  | inl space ↦ let none_there = space-digit_of c space in cc
  | inr other ↦ other
]

pub digit-minus : (base c : ℕ) → IsDigit base c → (c == b'-') ≡ false
unfolding digit_of
digit-minus base c (d, e, _) = ground arith

digit-x : (base c : ℕ) → base ≤ 16 → IsDigit base c → (c == b'x' || c == b'X') ≡ false
unfolding digit_of
digit-x base c narrow (d, e, small) = ground arith

space-x : (c : ℕ) → is_space c ≡ true → (c == b'x' || c == b'X') ≡ false
space-x c h = ground arith

skip_x-digits :
    (base : ℕ) (cs behind : List ℕ)
    → base ≤ 16
    → All (IsDigit base) cs
    → all_spaces behind ≡ true
    → skip_x (cs ++ behind) ≡ (false, cs ++ behind)
unfolding skip_x all_spaces
skip_x-digits base [] [] narrow all blank = refl
skip_x-digits base [] (b ∷ bs) narrow all blank =
    rw (space-x b (and_left (is_space b) _ blank)) refl
skip_x-digits base (c ∷ cs) behind narrow (d, all) blank = rw (digit-x base c narrow d) refl

starts_with-digits :
    (base : ℕ) (cs behind : List ℕ)
    → All (IsDigit base) cs
    → all_spaces behind ≡ true
    → starts_with b'-' (cs ++ behind) ≡ false
unfolding all_spaces
starts_with-digits base [] [] all blank = refl
starts_with-digits base [] (b ∷ bs) all blank =
    let space : is_space b ≡ true = and_left (is_space b) _ blank in ground arith
starts_with-digits base (c ∷ cs) behind (d, all) blank = digit-minus base c d

ato_text-value :
    (modulus base max : ℕ) (cs behind : List ℕ)
    → 2 ≤ base
    → base ≤ 16
    → max < modulus
    → All (IsDigit base) cs
    → all_spaces behind ≡ true
    → ato_text modulus max (base, cs ++ behind)
      ≡ (if leb (value base 0 cs) max then ok (value base 0 cs) else err out_of_range)
unfolding ato_text
ato_text-value modulus base max cs behind two narrow wide all blank =
    let legal : (ltb base 2 || ltb 16 base) ≡ false = ground arith in
    rw (legal, starts_with-digits base cs behind all blank)
      (digits-value modulus base max (omega arith) wide 0 cs behind (omega arith) all blank)

value-zero : (base c : ℕ) (cs : List ℕ) → c ≡ b'0' → value base 0 (c ∷ cs) ≡ value base 0 cs
unfolding value digit_of
value-zero base c cs h = rw h (ap (λ r. value base r cs) (omega arith))

pa_ato_any_lem :
    (modulus base max : ℕ) (str : List ℕ)
    → pa_ato_any modulus str base max ≡ ato_text modulus max (skip_prefix base (skip_spaces str))
unfolding pa_ato_any
pa_ato_any_lem modulus base max str = refl

skip_prefix-nil : (base : ℕ) → 2 ≤ base → skip_prefix base [] ≡ (base, [])
unfolding skip_prefix
skip_prefix-nil base two = let given : (base == 0) ≡ false = ground arith in rw given refl

skip_spaces-digits : (base c : ℕ) (cs : List ℕ) → IsDigit base c → skip_spaces (c ∷ cs) ≡ c ∷ cs
unfolding skip_spaces
skip_spaces-digits base c cs d = rw (digit-is_space base c d) refl

-- What stands behind a prefix has the value of the whole: the prefix of digits is 0 for base 16.
prefix-value :
    (modulus base max c : ℕ) (cs behind : List ℕ)
    → 2 ≤ base
    → base ≤ 16
    → max < modulus
    → IsDigit base c
    → All (IsDigit base) cs
    → all_spaces behind ≡ true
    → ato_text modulus max (skip_prefix base (c ∷ (cs ++ behind)))
      ≡ (if leb (value base 0 (c ∷ cs)) max then ok (value base 0 (c ∷ cs)) else err out_of_range)
unfolding skip_prefix
prefix-value modulus base max c cs behind two narrow wide digit all blank =
    let given : (base == 0) ≡ false = ground arith in
    elim (Bool-cases (base == 16 && c == b'0')) [
      | inl zero_first ↦
          let sixteen : base ≡ 16 = ground arith in
          let zero_digit : c ≡ b'0' = ground arith in
          let same : value base 0 (c ∷ cs) ≡ value base 0 cs = value-zero base c cs zero_digit in
          rw (zero_first, skip_x-digits base cs behind narrow all blank, same)
            (subst
              (λ b.
                ato_text modulus max (b, cs ++ behind)
                ≡ (if leb (value base 0 cs) max then ok (value base 0 cs) else err out_of_range))
              sixteen (ato_text-value modulus base max cs behind two narrow wide all blank))
      | inr plain ↦
          rw (plain, given)
            (ato_text-value modulus base max (c ∷ cs) behind two narrow wide (digit, all) blank)
    ]

-- `pa_ato_any` of digits in a base from 2 to 16, with white space around them: their value, or that it is
-- above the maximum.
pub pa_ato_any-value :
    (modulus base max : ℕ) (before cs behind : List ℕ)
    → 2 ≤ base
    → base ≤ 16
    → max < modulus
    → all_spaces before ≡ true
    → All (IsDigit base) cs
    → all_spaces behind ≡ true
    → pa_ato_any modulus (before ++ (cs ++ behind)) base max
      ≡ (if leb (value base 0 cs) max then ok (value base 0 cs) else err out_of_range)
pa_ato_any-value modulus base max before [] behind two narrow wide sp all blank =
    pa_ato_any_lem modulus base max (before ++ behind)
    ∙ ap (λ t. ato_text modulus max (skip_prefix base t))
        (skip_spaces-append before behind sp ∙ skip_spaces_all behind blank)
    ∙ ap (ato_text modulus max) (skip_prefix-nil base two)
    ∙ ato_text-value modulus base max [] [] two narrow wide tt no_text
  where
    no_text : all_spaces [] ≡ true
    no_text = unfold all_spaces in refl
pa_ato_any-value modulus base max before (c ∷ cs) behind two narrow wide sp (digit, all) blank =
    pa_ato_any_lem modulus base max (before ++ (c ∷ cs ++ behind))
    ∙ ap (λ t. ato_text modulus max (skip_prefix base t))
        (skip_spaces-append before (c ∷ (cs ++ behind)) sp
          ∙ skip_spaces-digits base c (cs ++ behind) digit)
    ∙ prefix-value modulus base max c cs behind two narrow wide digit all blank
