-- ===== src/Number.antt =====
-- Integers of src/main/pa_int.C and src/include/pa_int.h: printing and parsing with their checks. A text
-- is the list of its bytes without the final zero; a null pointer is `none`.
pub mod Value
pub mod Horner
pub mod RoundTrip
pub mod Range
pub mod Format
use parser.Prelude.{
  ℕ, zero, suc, ◌+◌, ◌-◌, ◌*◌, ◌/◌, ◌%◌, ◌^◌, Bool, true, false, not, ◌&&◌, ◌||◌, Option, none,
  some, List, [], ◌∷◌, ltb, leb, ◌==◌, if◌then◌else◌, length,
}
use parser.Prelude.Int.{ℤ, pos, negsuc}
use parser.Prelude.Result.{Result, ok, err}

pub data NumberError : Type 0 where
  illegal_base negative_number out_of_range invalid_number : NumberError

-- The values of an `int`, and those of a `pa_wint`, which a double holds.
abbrev pub int_max : ℕ
int_max = 2 ^ 31 - 1

abbrev pub wint_max : ℕ
wint_max = 2 ^ 53 - 1

abbrev pub max_number : ℕ
max_number = 40

-- `isspace` in the C locale.
abbrev pub is_space : ℕ → Bool
is_space c = c == 32 || (leb 9 c && leb c 13)

unfoldable pub check4int : ℤ → Result NumberError ℤ
check4int (pos n) = if ltb int_max n then err out_of_range else ok (pos n)
check4int (negsuc n) = if ltb int_max n then err out_of_range else ok (negsuc n)

-- The do-while loop of `pa_itoa`: `acc` stands behind `pos`, and `room` counts the bytes in front of it.
pub itoa_digits : ℕ → ℕ → List ℕ → Option (List ℕ)
itoa_digits zero n acc = none
itoa_digits (suc room) n acc =
    let rest = itoa_digits room (n / 10) ((n % 10 + b'0') ∷ acc) in
    if n / 10 == 0 then some ((n % 10 + b'0') ∷ acc) else rest

-- `*(--pos)='-'`; `none` stands for a write in front of the buffer.
pub add_sign : Bool → Option (List ℕ) → Option (List ℕ)
add_sign negative none = none
add_sign false (some ds) = some ds
add_sign true (some ds) = if ltb (length ds) max_number then some (b'-' ∷ ds) else none

-- The magnitude as the code computes it, `0u-(unsigned int)i` for a negative number.
pub magnitude : ℤ → ℕ
magnitude (pos n) = n
magnitude (negsuc n) = (2 ^ 32 - (2 ^ 32 - (n + 1)) % 2 ^ 32) % 2 ^ 32

abbrev pub is_negative : ℤ → Bool
is_negative (pos n) = false
is_negative (negsuc n) = true

unfoldable pub pa_itoa : ℤ → Option (List ℕ)
unfolding itoa_digits add_sign magnitude
pa_itoa i = add_sign (is_negative i) (itoa_digits max_number (magnitude i) [])

unfoldable pub skip_spaces : List ℕ → List ℕ
skip_spaces [] = []
skip_spaces (c ∷ cs) = if is_space c then skip_spaces cs else c ∷ cs

pub skip_x : List ℕ → Bool × List ℕ
skip_x [] = (false, [])
skip_x (c ∷ cs) = if c == b'x' || c == b'X' then (true, cs) else (false, c ∷ cs)

-- The prefix 0x for base 16, and the base that it tells for base 0.
pub skip_prefix : ℕ → List ℕ → ℕ × List ℕ
skip_prefix base [] = (if base == 0 then 10 else base, [])
skip_prefix base (c ∷ cs) =
    let (x, rest) = skip_x cs in
    if base == 16 && c == b'0'
    then (16, rest)
    else if base == 0
    then if c == b'0' then (if x then 16 else 10, rest) else (10, c ∷ cs)
    else (base, c ∷ cs)

-- A `char` has a sign, so the bytes from 128 on are no digits.
unfoldable pub digit_of : ℕ → Option ℕ
digit_of c =
    if leb b'0' c && leb c b'9'
    then some (c - b'0')
    else if leb b'a' c && ltb c 128
    then some (c - b'a' + 10)
    else if leb b'A' c && ltb c 128
    then some (c - b'A' + 10)
    else none

-- The test before `result` grows.
abbrev pub overflows : ℕ → ℕ → ℕ → ℕ → Bool
overflows max base result digit =
    ltb (max / base) result || (result == max / base && ltb (max - max / base * base) digit)

module _ (modulus base max : ℕ) where
  -- The digits of the number: its value with what follows them. `modulus` is the width of `T`.
  pub digits : ℕ → List ℕ → Result NumberError (ℕ × List ℕ)
  digits result [] = ok (result, [])
  digits result (c ∷ cs) = elim (digit_of c) [
    | none ↦ ok (result, c ∷ cs)
    | some digit ↦
        let rest = digits ((result * base + digit) % modulus) cs in
        if leb base digit
        then ok (result, c ∷ cs)
        else if overflows max base result digit
        then err out_of_range
        else rest
  ]

unfoldable pub all_spaces : List ℕ → Bool
all_spaces [] = true
all_spaces (c ∷ cs) = is_space c && all_spaces cs

pub finish : Result NumberError (ℕ × List ℕ) → Result NumberError ℕ
finish (err e) = err e
finish (ok (result, rest)) = if all_spaces rest then ok result else err invalid_number

abbrev pub starts_with : ℕ → List ℕ → Bool
starts_with c [] = false
starts_with c (x ∷ xs) = x == c

-- `pa_ato_any` behind the prefix, with the base that it has told.
pub ato_text : ℕ → ℕ → ℕ × List ℕ → Result NumberError ℕ
ato_text modulus max (base, text) =
    if ltb base 2 || ltb 16 base
    then err illegal_base
    else if starts_with b'-' text
    then err negative_number
    else finish (digits modulus base max 0 text)

-- `pa_ato_any` for a type of the width `modulus`.
unfoldable pub pa_ato_any : ℕ → List ℕ → ℕ → ℕ → Result NumberError ℕ
unfolding skip_spaces skip_x skip_prefix digit_of digits all_spaces finish ato_text
pa_ato_any modulus str base max = ato_text modulus max (skip_prefix base (skip_spaces str))

unfoldable pub pa_atoui : Option (List ℕ) → ℕ → Result NumberError ℕ
pa_atoui none base = ok 0
pa_atoui (some str) base = pa_ato_any (2 ^ 32) str base (2 ^ 32 - 1)

unfoldable pub pa_atoul : Option (List ℕ) → ℕ → Result NumberError ℕ
pa_atoul none base = ok 0
pa_atoul (some str) base = pa_ato_any (2 ^ 64) str base (2 ^ 64 - 1)

abbrev pub minus : ℕ → ℤ
minus zero = pos 0
minus (suc n) = negsuc n

pub as_positive : Result NumberError ℕ → Result NumberError ℤ
as_positive (ok n) = ok (pos n)
as_positive (err e) = err e

pub as_negative : Result NumberError ℕ → Result NumberError ℤ
as_negative (ok n) = ok (minus n)
as_negative (err e) = err e

-- `!*str || isspace(*str)`
abbrev pub no_number : List ℕ → Bool
no_number [] = true
no_number (c ∷ cs) = is_space c

-- Behind the white space, by the sign. `min_abs` is the magnitude of the least value of the type.
pub ato_signed : ℕ → ℕ → ℕ → ℕ → List ℕ → Result NumberError ℤ
ato_signed modulus min_abs max base [] = ok (pos 0)
ato_signed modulus min_abs max base (c ∷ cs) =
    if c == b'-'
    then if no_number cs
      then err invalid_number
      else as_negative (pa_ato_any modulus cs base min_abs)
    else if c == b'+'
    then if no_number cs then err invalid_number else as_positive (pa_ato_any modulus cs base max)
    else as_positive (pa_ato_any modulus (c ∷ cs) base max)

unfoldable pub pa_atoi : Option (List ℕ) → ℕ → Result NumberError ℤ
unfolding ato_signed as_positive as_negative
pa_atoi none base = ok (pos 0)
pa_atoi (some str) base = ato_signed (2 ^ 32) (int_max + 1) int_max base (skip_spaces str)

unfoldable pub pa_atowi : Option (List ℕ) → ℕ → Result NumberError ℤ
unfolding ato_signed as_positive as_negative
pa_atowi none base = ok (pos 0)
pa_atowi (some str) base = ato_signed (2 ^ 64) wint_max wint_max base (skip_spaces str)
