-- ===== src/Number/Horner.antt =====
-- The numbers that `pa_ato_any` of src/main/pa_int.C reads against positional notation.
use parser.Prelude.{
  ℕ, ◌+◌, ◌*◌, ◌≤◌, ◌<◌, ◌≡◌, refl, sym, true, some, List, [], ◌∷◌, ◌++◌, leb, if◌then◌else◌, arith,
  All,
}
use parser.Prelude.Result.{ok, err}
use parser.Number.{out_of_range, digit_of, all_spaces, pa_ato_any}
use parser.Number.Value.{IsDigit, value, pa_ato_any-value}

-- The character stands for the digit d of the base: 0 to 9, then a to z or A to Z.
pub data Writes (base c d : ℕ) : Type 0 where
  decimal : d < base → d < 10 → c ≡ b'0' + d → Writes base c d
  small : d < base → 10 ≤ d → c + 10 ≡ b'a' + d → Writes base c d
  capital : d < base → 10 ≤ d → c + 10 ≡ b'A' + d → Writes base c d

-- A text that writes a list of digits, the highest one first.
abbrev pub WritesAll : ℕ → List ℕ → List ℕ → Type 0
WritesAll base [] [] = Unit
WritesAll base (c ∷ cs) (d ∷ ds) = Writes base c d × WritesAll base cs ds
WritesAll base [] (d ∷ ds) = ⊥
WritesAll base (c ∷ cs) [] = ⊥

-- The number with these digits behind those of `high`.
unfoldable pub positional : ℕ → ℕ → List ℕ → ℕ
positional base high [] = high
positional base high (d ∷ ds) = positional base (high * base + d) ds

Writes-IsDigit : {base c d : ℕ} → base ≤ 16 → Writes base c d → digit_of c ≡ some d
unfolding digit_of
Writes-IsDigit narrow (decimal low ten e) = ground arith
Writes-IsDigit narrow (small low ten e) = ground arith
Writes-IsDigit narrow (capital low ten e) = ground arith

Writes-lt : {base c d : ℕ} → Writes base c d → d < base
Writes-lt (decimal low ten e) = low
Writes-lt (small low ten e) = low
Writes-lt (capital low ten e) = low

WritesAll-IsDigit :
    (base : ℕ) (cs ds : List ℕ) → base ≤ 16 → WritesAll base cs ds → All (IsDigit base) cs
WritesAll-IsDigit base [] ds narrow w = tt
WritesAll-IsDigit base (c ∷ cs) [] narrow w = elim w [ ]
WritesAll-IsDigit base (c ∷ cs) (d ∷ ds) narrow (w, ws) =
    ((d, Writes-IsDigit narrow w, Writes-lt w), WritesAll-IsDigit base cs ds narrow ws)

value-positional :
    (base r : ℕ) (cs ds : List ℕ)
    → base ≤ 16
    → WritesAll base cs ds
    → value base r cs ≡ positional base r ds
unfolding value positional
value-positional base r [] [] narrow w = refl
value-positional base r [] (d ∷ ds) narrow w = elim w [ ]
value-positional base r (c ∷ cs) [] narrow w = elim w [ ]
value-positional base r (c ∷ cs) (d ∷ ds) narrow (w, ws) =
    rw (Writes-IsDigit narrow w) (value-positional base (r * base + d) cs ds narrow ws)

-- `pa_ato_any`, of any width and any maximum below it, of a text that writes digits in a base from 2 to
-- 16, a digit above 9 as a small or a capital letter, with white space around them or none: the number
-- that the digits have in positional notation, or that it is above the maximum. The prefix 0x is not
-- among the texts.
pub pa_ato_any-positional :
    (modulus base max : ℕ) (before cs behind ds : List ℕ)
    → 2 ≤ base
    → base ≤ 16
    → max < modulus
    → all_spaces before ≡ true
    → WritesAll base cs ds
    → all_spaces behind ≡ true
    → pa_ato_any modulus (before ++ (cs ++ behind)) base max
      ≡ (if leb (positional base 0 ds) max then ok (positional base 0 ds) else err out_of_range)
pa_ato_any-positional modulus base max before cs behind ds two narrow wide blank w blank' =
    rw (sym (value-positional base 0 cs ds narrow w)) (
      pa_ato_any-value modulus base max before cs behind two narrow wide blank
        (WritesAll-IsDigit base cs ds narrow w) blank')
