-- ===== src/Charset/Tables.antt =====
-- Charsets of one byte in src/main/pa_charset.C: the two tables, and the search in the sorted one.
pub mod Search
pub mod Transcode
use parser.Prelude.{
  ℕ, zero, suc, ◌+◌, ◌-◌, ◌*◌, ◌/◌, ◌%◌, ◌^◌, Bool, true, false, ◌||◌, Option, none, some, List, [],
  ◌∷◌, ◌++◌, ltb, leb, ◌==◌, if◌then◌else◌, length, get_or,
}
use parser.Charset.Utf8.{Char, encoded_bytes, spit_bytes, first_byte_mark}

pub record Rec : Type 0 where
  pub int_ch : ℕ
  pub ext_ch : ℕ

abbrev pub no_rec : Rec
no_rec = record { int_ch = 0; ext_ch = 0 }

-- `Charset::Tables`; `from_table` has 256 entries and `to_table` as many as `toTableSize`.
pub record Tables : Type 0 where
  pub from_table : List ℕ
  pub to_table : List Rec

-- The loop of `xlatOneTo`. The source has `hi` one lower, so that it may be -1; a round halves the range.
unfoldable pub xlat_loop : ℕ → List Rec → ℕ → ℕ → ℕ → ℕ → ℕ
xlat_loop zero table to_xlat not_found lo hi = not_found
xlat_loop (suc rounds) table to_xlat not_found lo hi =
    let i = (lo + hi - 1) / 2 in
    let cur = get_or table i no_rec in
    let upper = xlat_loop rounds table to_xlat not_found (i + 1) hi in
    let lower = xlat_loop rounds table to_xlat not_found lo i in
    if leb hi lo
    then not_found
    else if to_xlat == cur.int_ch
    then cur.ext_ch
    else if ltb cur.int_ch to_xlat
    then upper
    else lower

unfoldable pub xlat_one_to : ℕ → Tables → ℕ → ℕ
unfolding xlat_loop
xlat_one_to to_xlat tables not_found =
    xlat_loop (length tables.to_table + 1) tables.to_table to_xlat not_found 0
      (length tables.to_table)

-- `change_case_UTF8` of a character: the same search, and the character itself if it is not there.
unfoldable pub change_case : ℕ → List Rec → ℕ
unfolding xlat_loop
change_case src table = xlat_loop (length table + 1) table src src 0 (length table)

-- `readChar`: the size that the character needs in UTF-8.
unfoldable pub read_char : Tables → List ℕ → Option (Char × List ℕ)
read_char tables [] = none
read_char tables (b ∷ bs) =
    let code = get_or tables.from_table b 0 in
    if b == 0
    then none
    else if encoded_bytes code == 0
    then some (record { size = 1; first = 0; code = code }, bs)
    else some (record { size = encoded_bytes code; first = b; code = code }, bs)

-- The characters that the loops over `readChar` see.
unfoldable pub table_chars : Tables → List ℕ → List Char
table_chars tables [] = []
table_chars tables (b ∷ bs) = elim (read_char tables (b ∷ bs)) [
  | none ↦ []
  | some (ch, rest) ↦ ch ∷ table_chars tables bs
]

unfoldable pub sum_sizes : List Char → ℕ
sum_sizes [] = 0
sum_sizes (ch ∷ cs) = ch.size + sum_sizes cs

-- The loop of the function `transcodeToUTF8`: what it writes behind `used` bytes, and what it leaves.
unfoldable pub to_utf8_loop : Tables → ℕ → ℕ → List ℕ → List ℕ × List ℕ
to_utf8_loop tables room used [] = ([], [])
to_utf8_loop tables room used (b ∷ bs) =
    let code = get_or tables.from_table b 0 in
    let encoded = encoded_bytes code in
    let replaced = to_utf8_loop tables room (used + 1) bs in
    let stored = to_utf8_loop tables room (used + encoded) bs in
    if code == 0 || encoded == 0
    then (b'?' ∷ replaced.0, replaced.1)
    else if ltb room (used + encoded)
    then ([], b ∷ bs)
    else (spit_bytes (encoded - 1) (first_byte_mark encoded) code [] ++ stored.0, stored.1)

-- `Charset::transcodeToUTF8` with the length that it calculates first.
unfoldable pub transcode_to_utf8 : Tables → List ℕ → List ℕ × List ℕ
unfolding to_utf8_loop table_chars sum_sizes
transcode_to_utf8 tables src = to_utf8_loop tables (sum_sizes (table_chars tables src)) 0 src

-- `Charset::transcodeToCharset`, which ends at a zero.
unfoldable pub transcode_to_charset : Tables → Tables → List ℕ → List ℕ
transcode_to_charset source dest [] = []
transcode_to_charset source dest (b ∷ bs) =
    let code = get_or source.from_table b 0 in
    let rest = transcode_to_charset source dest bs in
    if b == 0 then [] else (if code == 0 then b'?' else xlat_one_to code dest b'?') ∷ rest
