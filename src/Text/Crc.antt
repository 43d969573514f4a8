-- ===== src/Text/Crc.antt =====
-- CRC-32 of src/main/pa_common.C. The table is a function of its index; `unsigned long` has 64 bits.
use parser.Prelude.{
  ℕ, zero, suc, ◌-◌, ◌/◌, ◌^◌, bit_and, bit_xor, ◌≡◌, ◌≢◌, refl, sym, ap, ◌∙◌, List, [], ◌∷◌, ◌++◌,
  ◌==◌, All, if◌then◌else◌,
}

abbrev pub polynomial : ℕ
polynomial = 0xEDB88320

-- The inner loop of `InitCrc32Table`.
unfoldable pub crc_bits : ℕ → ℕ → ℕ
crc_bits zero crc = crc
crc_bits (suc j) crc =
    crc_bits j (if bit_and crc 1 == 1 then bit_xor (crc / 2) polynomial else crc / 2)

unfoldable pub crc32_table : ℕ → ℕ
unfolding crc_bits
crc32_table i = crc_bits 8 i

unfoldable pub calc_crc32 : ℕ → ℕ → ℕ
unfolding crc32_table
calc_crc32 byte crc32 = bit_xor (crc32 / 2 ^ 8) (crc32_table (bit_xor byte (bit_and crc32 0xFF)))

unfoldable pub crc_loop : List ℕ → ℕ → ℕ
crc_loop [] crc32 = crc32
crc_loop (b ∷ bs) crc32 = crc_loop bs (calc_crc32 b crc32)

unfoldable pub pa_crc32 : List ℕ → ℕ
unfolding crc_loop
pa_crc32 bytes = 2 ^ 64 - 1 - crc_loop bytes 0xFFFFFFFF

-- `file_crc32_file_action`: the blocks that are read, up to an empty one.
unfoldable pub crc_blocks : List (List ℕ) → ℕ → ℕ
crc_blocks [] crc32 = crc32
crc_blocks ([] ∷ blocks) crc32 = crc32
crc_blocks ((b ∷ bs) ∷ blocks) crc32 = crc_blocks blocks (crc_loop (b ∷ bs) crc32)

-- `pa_crc32` of a file.
unfoldable pub file_crc32 : List (List ℕ) → ℕ
unfolding crc_blocks
file_crc32 blocks = 2 ^ 64 - 1 - crc_blocks blocks 0xFFFFFFFF

pub concat : List (List ℕ) → List ℕ
concat [] = []
concat (bytes ∷ blocks) = bytes ++ concat blocks

crc_loop-append :
    (xs ys : List ℕ) (crc : ℕ) → crc_loop (xs ++ ys) crc ≡ crc_loop ys (crc_loop xs crc)
unfolding crc_loop
crc_loop-append [] ys crc = refl
crc_loop-append (x ∷ xs) ys crc = crc_loop-append xs ys (calc_crc32 x crc)

crc_blocks-concat :
    (blocks : List (List ℕ)) (crc : ℕ)
    → All (λ bytes. bytes ≢ []) blocks
    → crc_blocks blocks crc ≡ crc_loop (concat blocks) crc
unfolding crc_blocks concat crc_loop
crc_blocks-concat [] crc hs = crc_nil crc
  where
    crc_nil : (crc : ℕ) → crc ≡ crc_loop [] crc
    crc_nil crc = refl
crc_blocks-concat ([] ∷ blocks) crc (h, hs) = absurd (h refl)
crc_blocks-concat ((b ∷ bs) ∷ blocks) crc (h, hs) =
    crc_blocks-concat blocks (crc_loop (b ∷ bs) crc) hs
    ∙ sym (crc_loop-append (b ∷ bs) (concat blocks) crc)

-- However a file is read in blocks that are not empty, its CRC-32 is that of all its bytes.
pub file_crc32-concat :
    (blocks : List (List ℕ))
    → All (λ bytes. bytes ≢ []) blocks
    → file_crc32 blocks ≡ pa_crc32 (concat blocks)
unfolding file_crc32 pa_crc32
file_crc32-concat blocks hs = ap (λ crc. 2 ^ 64 - 1 - crc) (crc_blocks-concat blocks 0xFFFFFFFF hs)
