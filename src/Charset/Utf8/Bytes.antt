-- ===== src/Charset/Utf8/Bytes.antt =====
-- The bits of the bytes that UTF-8 in src/main/pa_charset.C writes.
use parser.Prelude.{
  ℕ, ◌+◌, ◌*◌, ◌/◌, ◌%◌, ◌<◌, bit_and, bit_or, ◌≡◌, refl, true, arith, ◌==◌, ==_iff,
}
use parser.Prelude.Bits.{
  all_below, all_below_sound, bit_and_step, bit_or_step, bit_and_1, bit_or-zero,
}

or_1 : (a : ℕ) → bit_or a 1 ≡ a / 2 * 2 + 1
or_1 a = omega (arith, bit_or_step a 1, bit_or-zero (a / 2))

or_2 : (a : ℕ) → bit_or a 2 ≡ a / 4 * 4 + 2 + a % 2
or_2 a = omega (arith, bit_or_step a 2, or_1 (a / 2))

or_4 : (a : ℕ) → bit_or a 4 ≡ a / 8 * 8 + 4 + a % 4
or_4 a = omega (arith, bit_or_step a 4, or_2 (a / 2))

or_8 : (a : ℕ) → bit_or a 8 ≡ a / 16 * 16 + 8 + a % 8
or_8 a = omega (arith, bit_or_step a 8, or_4 (a / 2))

or_16 : (a : ℕ) → bit_or a 16 ≡ a / 32 * 32 + 16 + a % 16
or_16 a = omega (arith, bit_or_step a 16, or_8 (a / 2))

or_32 : (a : ℕ) → bit_or a 32 ≡ a / 64 * 64 + 32 + a % 32
or_32 a = omega (arith, bit_or_step a 32, or_16 (a / 2))

or_64 : (a : ℕ) → bit_or a 64 ≡ a / 128 * 128 + 64 + a % 64
or_64 a = omega (arith, bit_or_step a 64, or_32 (a / 2))

or_128 : (a : ℕ) → bit_or a 128 ≡ a / 256 * 256 + 128 + a % 128
or_128 a = omega (arith, bit_or_step a 128, or_64 (a / 2))

and_2 : (a : ℕ) → bit_and a 2 ≡ a / 2 % 2 * 2
and_2 a = omega (arith, bit_and_step a 2, bit_and_1 (a / 2))

and_5 : (a : ℕ) → bit_and a 5 ≡ a % 2 + a / 4 % 2 * 4
and_5 a = omega (arith, bit_and_step a 5, and_2 (a / 2))

and_11 : (a : ℕ) → bit_and a 11 ≡ a % 4 + a / 8 % 2 * 8
and_11 a = omega (arith, bit_and_step a 11, and_5 (a / 2))

and_23 : (a : ℕ) → bit_and a 23 ≡ a % 8 + a / 16 % 2 * 16
and_23 a = omega (arith, bit_and_step a 23, and_11 (a / 2))

and_47 : (a : ℕ) → bit_and a 47 ≡ a % 16 + a / 32 % 2 * 32
and_47 a = omega (arith, bit_and_step a 47, and_23 (a / 2))

and_95 : (a : ℕ) → bit_and a 95 ≡ a % 32 + a / 64 % 2 * 64
and_95 a = omega (arith, bit_and_step a 95, and_47 (a / 2))

and_191 : (a : ℕ) → bit_and a 191 ≡ a % 64 + a / 128 % 2 * 128
and_191 a = omega (arith, bit_and_step a 191, and_95 (a / 2))

-- A byte that follows the first one.
pub following_byte : (a : ℕ) → bit_and (bit_or a 0x80) 0xBF % 256 ≡ 128 + a % 64
following_byte a = omega (arith, or_128 a, and_191 (bit_or a 128))

marks_C0 : all_below 32 (λ n. bit_or n 0xC0 % 256 == 0xC0 + n) ≡ true
unfolding all_below
marks_C0 = refl

pub first_C0 : (n : ℕ) → n < 32 → bit_or n 0xC0 % 256 ≡ 0xC0 + n
first_C0 n h = (==_iff _ _).0 (all_below_sound 32 _ n marks_C0 h)

marks_E0 : all_below 16 (λ n. bit_or n 0xE0 % 256 == 0xE0 + n) ≡ true
unfolding all_below
marks_E0 = refl

pub first_E0 : (n : ℕ) → n < 16 → bit_or n 0xE0 % 256 ≡ 0xE0 + n
first_E0 n h = (==_iff _ _).0 (all_below_sound 16 _ n marks_E0 h)

marks_F0 : all_below 8 (λ n. bit_or n 0xF0 % 256 == 0xF0 + n) ≡ true
unfolding all_below
marks_F0 = refl

pub first_F0 : (n : ℕ) → n < 8 → bit_or n 0xF0 % 256 ≡ 0xF0 + n
first_F0 n h = (==_iff _ _).0 (all_below_sound 8 _ n marks_F0 h)

marks_F8 : all_below 4 (λ n. bit_or n 0xF8 % 256 == 0xF8 + n) ≡ true
unfolding all_below
marks_F8 = refl

pub first_F8 : (n : ℕ) → n < 4 → bit_or n 0xF8 % 256 ≡ 0xF8 + n
first_F8 n h = (==_iff _ _).0 (all_below_sound 4 _ n marks_F8 h)

marks_fc : all_below 2 (λ n. bit_or n 0xFC % 256 == 0xFC + n) ≡ true
unfolding all_below
marks_fc = refl

pub first_fc : (n : ℕ) → n < 2 → bit_or n 0xFC % 256 ≡ 0xFC + n
first_fc n h = (==_iff _ _).0 (all_below_sound 2 _ n marks_fc h)
