-- ===== src/Uue.antt =====
-- The encoder of src/main/pa_uue.C. What is written through `optr` is the list that is returned,
-- without the final zero.
pub mod Bounds
use parser.Prelude.{
  ℕ, zero, suc, ◌+◌, ◌*◌, ◌/◌, bit_and, bit_or, List, [], ◌∷◌, ◌++◌, length, get_or, take, drop,
  codes,
}

abbrev pub uue_table : List ℕ
uue_table = codes "`!\"#$%&'()*+,-./0123456789:;<=>?@ABCDEFGHIJKLMNOPQRSTUVWXYZ[\\]^_"

abbrev pub uue : ℕ → ℕ
uue n = get_or uue_table n 0

-- The groups of three bytes of a line, and the one or two bytes that are left.
unfoldable pub uue_groups : List ℕ → List ℕ
uue_groups [] = []
uue_groups (a ∷ []) = uue (a / 4) ∷ uue (bit_and a 0x03 * 16) ∷ uue 0 ∷ uue 0 ∷ []
uue_groups (a ∷ b ∷ []) =
    uue (a / 4)
    ∷ uue (bit_or (bit_and a 0x03 * 16) (b / 16))
    ∷ uue (bit_and b 0x0F * 4)
    ∷ uue 0
    ∷ []
uue_groups (a ∷ b ∷ c ∷ rest) =
    uue (a / 4)
    ∷ uue (bit_or (bit_and a 0x03 * 16) (b / 16))
    ∷ uue (bit_or (bit_and b 0x0F * 4) (c / 64))
    ∷ uue (bit_and c 0x3F)
    ∷ uue_groups rest

abbrev pub line_bytes : ℕ
line_bytes = 45

unfoldable pub uue_line : List ℕ → List ℕ
unfolding uue_groups
uue_line line = uue (length line) ∷ (uue_groups line ++ (b'\n' ∷ []))

-- The loop over the lines; a round takes a byte at least.
unfoldable pub uue_lines : ℕ → List ℕ → List ℕ
uue_lines zero bytes = []
uue_lines (suc rounds) [] = []
uue_lines (suc rounds) (b ∷ bs) =
    uue_line (take line_bytes (b ∷ bs)) ++ uue_lines rounds (drop line_bytes (b ∷ bs))

-- The three steps that calculate `new_size`.
unfoldable pub uue_size : ℕ → ℕ → ℕ
uue_size in_size name_size =
    let body = (in_size / 3 + 1) * 4 in
    body + (2 * body / (line_bytes / 3 * 4) + 2) + (name_size + 11 + 6 + 1)

unfoldable pub pa_uuencode : List ℕ → List ℕ → List ℕ
unfolding uue_lines uue_line
pa_uuencode bytes file_name =
    codes "begin 644 "
    ++ (file_name ++ (b'\n' ∷ (uue_lines (length bytes) bytes ++ codes "`\nend\n")))
