-- ===== src/Uue/Bounds.antt =====
-- The buffer of `pa_uuencode` in src/main/pa_uue.C, whose size its last line asserts.
use parser.Prelude.{
  ℕ, zero, suc, ◌+◌, ◌*◌, ◌/◌, ◌≤◌, ◌<◌, ◌≡◌, List, [], ◌∷◌, ◌++◌, length, length-append,
  length-take, length-drop, take, drop, codes, refl, leb, Bool-cases, inl, inr, arith,
}
use parser.Uue.{uue_groups, uue_line, uue_lines, uue_size, line_bytes, pa_uuencode}

length-uue_groups : (line : List ℕ) → length (uue_groups line) ≡ (length line + 2) / 3 * 4
unfolding uue_groups
length-uue_groups [] = omega arith
length-uue_groups (a ∷ []) = omega arith
length-uue_groups (a ∷ b ∷ []) = omega arith
length-uue_groups (a ∷ b ∷ c ∷ rest) = omega (arith, length-uue_groups rest)

length-uue_line : (line : List ℕ) → length (uue_line line) ≡ (length line + 2) / 3 * 4 + 2
unfolding uue_line
length-uue_line line =
    omega (arith, length-append (uue_groups line) (b'\n' ∷ []), length-uue_groups line)

-- The part of the size that is for the lines.
room : ℕ → ℕ
room n = (n / 3 + 1) * 4 + 2 * ((n / 3 + 1) * 4) / 60 + 2

no_lines : (rounds : ℕ) (bytes : List ℕ) → length bytes ≡ 0 → length (uue_lines rounds bytes) ≡ 0
unfolding uue_lines
no_lines zero bytes h = refl
no_lines (suc rounds) [] h = refl
no_lines (suc rounds) (b ∷ bs) h = absurd (omega arith)

length-uue_lines :
    (rounds : ℕ) (bytes : List ℕ) → length (uue_lines rounds bytes) ≤ room (length bytes)
unfolding uue_lines room
length-uue_lines zero bytes = omega arith
length-uue_lines (suc rounds) [] = omega arith
length-uue_lines (suc rounds) (b ∷ bs) =
    let line = take line_bytes (b ∷ bs) in
    let rest = drop line_bytes (b ∷ bs) in
    let taken = length-take line_bytes (b ∷ bs) in
    let left = length-drop line_bytes (b ∷ bs) in
    let size = length-append (uue_line line) (uue_lines rounds rest) in
    elim (Bool-cases (leb (length rest) 0)) [
      | inl last ↦
          let ends = no_lines rounds rest (ground arith) in
          omega (arith, size, length-uue_line line, ends, taken)
      | inr more ↦
          let full : 0 < length rest = ground arith in
          omega (arith, size, length-uue_line line, length-uue_lines rounds rest, taken, left, full)
    ]

-- For all bytes and any file name, what `pa_uuencode` writes leaves room for the final zero in
-- the buffer, which is what its last line asserts.
pub length-pa_uuencode :
    (bytes file_name : List ℕ)
    → length (pa_uuencode bytes file_name) < uue_size (length bytes) (length file_name)
unfolding pa_uuencode uue_size room
length-pa_uuencode bytes file_name =
    let lines = uue_lines (length bytes) bytes in
    omega (
      arith,
      length-uue_lines (length bytes) bytes,
      length-append lines (codes "`\nend\n"),
      length-append file_name (b'\n' ∷ (lines ++ codes "`\nend\n")),
    )
