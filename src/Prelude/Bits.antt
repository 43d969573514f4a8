-- ===== src/Prelude/Bits.antt =====
-- Bit operations at variables: a check of all values of a small range, and the digit recursion.
use Prim.Native.Nat.{min, max, digits, bitwise, bit_and-bitwise, bit_or-bitwise}
use parser.Prelude.{
  ℕ, zero, suc, ◌+◌, ◌*◌, ◌/◌, ◌%◌, ◌≤◌, ◌<◌, bit_and, bit_or, bit_xor, ◌≡◌, refl, Bool, true, ◌&&◌,
  arith, ◌∙◌, ap, sym, ◌==◌, ==_iff,
}

-- Every value below a bound passes a test.
unfoldable pub all_below : ℕ → (ℕ → Bool) → Bool
all_below zero p = true
all_below (suc bound) p = p bound && all_below bound p

pub all_below_sound : (n : ℕ) (p : ℕ → Bool) (x : ℕ) → all_below n p ≡ true → x < n → p x ≡ true
unfolding all_below
all_below_sound zero p x all low = absurd (omega arith)
all_below_sound (suc bound) p x all low = ground (arith, all_below_sound bound p x)

-- The digits that a native operation stands for, one at a time: `f` joins two digits, and `z` is the
-- result where the first number has no more.
module _ (z : ℕ → ℕ) (f : ℕ → ℕ → ℕ) where
  no_digits : (k y : ℕ) → digits z f k 0 y ≡ z y
  no_digits zero y = refl
  no_digits (suc k) y = refl

  -- Any two counts that reach all digits give the same result.
  same_digits : (k l x y : ℕ) → x ≤ k → x ≤ l → digits z f k x y ≡ digits z f l x y
  same_digits k l zero y _ _ = no_digits k y ∙ sym (no_digits l y)
  same_digits zero l (suc x) y short _ = absurd (omega arith)
  same_digits (suc k) zero (suc x) y _ short = absurd (omega arith)
  same_digits (suc k) (suc l) (suc x) y u v =
      ap (λ d. d * 2 + f (suc x % 2) (y % 2))
        (same_digits k l (suc x / 2) (y / 2) (omega arith) (omega arith))

  -- The law of the lowest digit, for an operation that is 0 or its second number where the first is 0.
  lowest_digit :
      (x y : ℕ)
      → ((w : ℕ) → z w ≡ z (w / 2) * 2 + f 0 (w % 2))
      → bitwise z f x y ≡ bitwise z f (x / 2) (y / 2) * 2 + f (x % 2) (y % 2)
  lowest_digit zero y law = law y
  lowest_digit (suc x) y law =
      ap (λ d. d * 2 + f (suc x % 2) (y % 2))
        (same_digits x (suc x / 2) (suc x / 2) (y / 2) (omega arith) (omega arith))

-- The law of `&` for the lowest digit.
pub bit_and_step : (a b : ℕ) → bit_and a b ≡ bit_and (a / 2) (b / 2) * 2 + min (a % 2) (b % 2)
bit_and_step a b = omega (
  arith,
  bit_and-bitwise a b,
  bit_and-bitwise (a / 2) (b / 2),
  lowest_digit (λ _. 0) min a b (λ w. omega arith),
)

-- The law of `|` for the lowest digit.
pub bit_or_step : (a b : ℕ) → bit_or a b ≡ bit_or (a / 2) (b / 2) * 2 + max (a % 2) (b % 2)
bit_or_step a b = omega (
  arith,
  bit_or-bitwise a b,
  bit_or-bitwise (a / 2) (b / 2),
  lowest_digit (λ w. w) max a b (λ w. omega arith),
)

-- Halving `k` times leaves nothing of a number up to `k`.
mask_nothing : (k a : ℕ) → a ≤ k → (bit_and a 0 ≡ 0) × (bit_or a 0 ≡ a)
mask_nothing k zero _ = (refl, refl)
mask_nothing zero (suc a) short = absurd (omega arith)
mask_nothing (suc k) (suc a) u =
    let (none_left, all_left) = mask_nothing k (suc a / 2) (omega arith) in
    (
      omega (arith, bit_and_step (suc a) 0, none_left),
      omega (arith, bit_or_step (suc a) 0, all_left),
    )

pub bit_and-zero : (a : ℕ) → bit_and a 0 ≡ 0
bit_and-zero a = (mask_nothing a a (omega arith)).0

pub bit_or-zero : (a : ℕ) → bit_or a 0 ≡ a
bit_or-zero a = (mask_nothing a a (omega arith)).1

-- A mask of ones is a remainder.
pub bit_and_1 : (a : ℕ) → bit_and a 1 ≡ a % 2
bit_and_1 a = omega (arith, bit_and_step a 1, bit_and-zero (a / 2))

pub bit_and_3 : (a : ℕ) → bit_and a 3 ≡ a % 4
bit_and_3 a = omega (arith, bit_and_step a 3, bit_and_1 (a / 2))

pub bit_and_7 : (a : ℕ) → bit_and a 7 ≡ a % 8
bit_and_7 a = omega (arith, bit_and_step a 7, bit_and_3 (a / 2))

pub bit_and_15 : (a : ℕ) → bit_and a 15 ≡ a % 16
bit_and_15 a = omega (arith, bit_and_step a 15, bit_and_7 (a / 2))

pub bit_and_31 : (a : ℕ) → bit_and a 31 ≡ a % 32
bit_and_31 a = omega (arith, bit_and_step a 31, bit_and_15 (a / 2))

pub bit_and_63 : (a : ℕ) → bit_and a 63 ≡ a % 64
bit_and_63 a = omega (arith, bit_and_step a 63, bit_and_31 (a / 2))

-- Where the low digits of one side are zero and the other side has no more, `|` is `+`.
pub bit_or_2 : (a b : ℕ) → b < 2 → bit_or (a * 2) b ≡ a * 2 + b
bit_or_2 a b h =
    let half : b / 2 ≡ 0 = omega arith in
    let e : bit_or (a * 2 / 2) (b / 2) ≡ a = rw half (bit_or-zero (a * 2 / 2) ∙ omega arith) in
    omega (arith, bit_or_step (a * 2) b, e)

pub bit_or_4 : (a b : ℕ) → b < 4 → bit_or (a * 4) b ≡ a * 4 + b
bit_or_4 a b h =
    let half : a * 4 / 2 ≡ a * 2 = omega arith in
    let e : bit_or (a * 4 / 2) (b / 2) ≡ a * 2 + b / 2 =
      rw half (bit_or_2 a (b / 2) (omega arith)) in
    omega (arith, bit_or_step (a * 4) b, e)

pub bit_or_8 : (a b : ℕ) → b < 8 → bit_or (a * 8) b ≡ a * 8 + b
bit_or_8 a b h =
    let half : a * 8 / 2 ≡ a * 4 = omega arith in
    let e : bit_or (a * 8 / 2) (b / 2) ≡ a * 4 + b / 2 =
      rw half (bit_or_4 a (b / 2) (omega arith)) in
    omega (arith, bit_or_step (a * 8) b, e)

pub bit_or_16 : (a b : ℕ) → b < 16 → bit_or (a * 16) b ≡ a * 16 + b
bit_or_16 a b h =
    let half : a * 16 / 2 ≡ a * 8 = omega arith in
    let e : bit_or (a * 16 / 2) (b / 2) ≡ a * 8 + b / 2 =
      rw half (bit_or_8 a (b / 2) (omega arith)) in
    omega (arith, bit_or_step (a * 16) b, e)

pub bit_or_32 : (a b : ℕ) → b < 32 → bit_or (a * 32) b ≡ a * 32 + b
bit_or_32 a b h =
    let half : a * 32 / 2 ≡ a * 16 = omega arith in
    let e : bit_or (a * 32 / 2) (b / 2) ≡ a * 16 + b / 2 =
      rw half (bit_or_16 a (b / 2) (omega arith)) in
    omega (arith, bit_or_step (a * 32) b, e)

pub bit_or_64 : (a b : ℕ) → b < 64 → bit_or (a * 64) b ≡ a * 64 + b
bit_or_64 a b h =
    let half : a * 64 / 2 ≡ a * 32 = omega arith in
    let e : bit_or (a * 64 / 2) (b / 2) ≡ a * 32 + b / 2 =
      rw half (bit_or_32 a (b / 2) (omega arith)) in
    omega (arith, bit_or_step (a * 64) b, e)

pub bit_or_128 : (a b : ℕ) → b < 128 → bit_or (a * 128) b ≡ a * 128 + b
bit_or_128 a b h =
    let half : a * 128 / 2 ≡ a * 64 = omega arith in
    let e : bit_or (a * 128 / 2) (b / 2) ≡ a * 64 + b / 2 =
      rw half (bit_or_64 a (b / 2) (omega arith)) in
    omega (arith, bit_or_step (a * 128) b, e)

pub bit_or_256 : (a b : ℕ) → b < 256 → bit_or (a * 256) b ≡ a * 256 + b
bit_or_256 a b h =
    let half : a * 256 / 2 ≡ a * 128 = omega arith in
    let e : bit_or (a * 256 / 2) (b / 2) ≡ a * 128 + b / 2 =
      rw half (bit_or_128 a (b / 2) (omega arith)) in
    omega (arith, bit_or_step (a * 256) b, e)

pub bit_and_127 : (a : ℕ) → bit_and a 127 ≡ a % 128
bit_and_127 a = omega (arith, bit_and_step a 127, bit_and_63 (a / 2))

xor_table : all_below 65536 (λ n. bit_xor (bit_xor (n / 256) (n % 256)) (n % 256) == n / 256) ≡ true
unfolding all_below
xor_table = refl

-- A mask of one byte is taken off by the same mask.
pub bit_xor_twice : (x k : ℕ) → x < 256 → k < 256 → bit_xor (bit_xor x k) k ≡ x
bit_xor_twice x k hx hk =
    let n = x * 256 + k in
    let low : n % 256 ≡ k = omega arith in
    let high : n / 256 ≡ x = omega arith in
    let e = (==_iff _ _).0 (all_below_sound 65536 _ n xor_table (omega arith)) in
    rw (low, high) at e

high_bit_table : all_below 256 (λ n. bit_and n 0x80 == n / 128 * 128) ≡ true
unfolding all_below
high_bit_table = refl

pub bit_and_0x80 : (b : ℕ) → b < 256 → bit_and b 0x80 ≡ b / 128 * 128
bit_and_0x80 b h = (==_iff _ _).0 (all_below_sound 256 _ b high_bit_table h)

middle_bits_table : all_below 256 (λ n. bit_and n 0x70 == n / 16 % 8 * 16) ≡ true
unfolding all_below
middle_bits_table = refl

pub bit_and_0x70 : (b : ℕ) → b < 256 → bit_and b 0x70 ≡ b / 16 % 8 * 16
bit_and_0x70 b h = (==_iff _ _).0 (all_below_sound 256 _ b middle_bits_table h)
