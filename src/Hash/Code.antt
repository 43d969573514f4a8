-- ===== src/Hash/Code.antt =====
-- The hash codes of src/include/pa_hash.h, and what a table asks of its keys.
use parser.Prelude.{
  ℕ, ◌+◌, ◌-◌, ◌*◌, ◌/◌, ◌%◌, ◌^◌, bit_and, bit_xor, ◌≡◌, ◌↔◌, Bool, List, [], ◌∷◌, ltb, ◌==◌,
  if◌then◌else◌,
}

-- A `char` as it is added to a `uint`: it has a sign.
abbrev as_uint : ℕ → ℕ
as_uint c = if ltb c 128 then c else c + (2 ^ 32 - 256)

-- One round of `generic_hash_code`, in 32 bits.
add_char : ℕ → ℕ → ℕ
add_char result c =
    let r = (result * 16 + as_uint c) % 2 ^ 32 in
    let g = bit_and r 0xF0000000 in if g == 0 then r else bit_xor (bit_xor r (g / 2 ^ 24)) g

-- `generic_hash_code` on a buffer.
unfoldable pub generic_hash_code : ℕ → List ℕ → ℕ
unfolding add_char
generic_hash_code result [] = result
generic_hash_code result (c ∷ cs) = generic_hash_code (add_char result c) cs

-- `hash_code` of an `int`: of its four bytes, the lowest first.
unfoldable pub int_hash_code : ℕ → ℕ
int_hash_code n =
    generic_hash_code 0 (n % 256 ∷ n / 256 % 256 ∷ n / 2 ^ 16 % 256 ∷ n / 2 ^ 24 % 256 ∷ [])

-- The code and the equality of the keys of a table.
pub record Key {ℓ} (K : Type ℓ) : Type ℓ where
  pub hash_code : K → ℕ
  pub same : K → K → Bool
  pub same_iff : (a b : K) → (same a b ≡ Bool.true) ↔ (a ≡ b)
