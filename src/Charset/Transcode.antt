-- ===== src/Charset/Transcode.antt =====
-- `Charset::transcodeFromUTF8` of src/main/pa_charset.C with the length that it calculates, and
-- `Charset::transcode`, which chooses between the four ways.
pub mod Fits
use parser.Prelude.{
  ℕ, zero, suc, ◌+◌, ◌-◌, ◌*◌, ◌/◌, ◌%◌, ◌^◌, bit_and, Bool, true, false, Option, none, some, List,
  [], ◌∷◌, ◌++◌, ltb, leb, ◌==◌, if◌then◌else◌, length, take, codes,
}
use parser.Charset.Utf8.{Char, trailing_bytes, utf_offset, join_bytes}
use parser.Charset.Tables.{Tables, xlat_one_to, transcode_to_utf8, transcode_to_charset}
use parser.Charset.Escape.{Charset, utf8, single_byte, hex, utf8_chars, iterate, add_all}

-- `sprintf` with "%u": the digits in front of `acc`.
unfoldable pub decimal : ℕ → ℕ → List ℕ → List ℕ
decimal zero n acc = acc
decimal (suc rounds) n acc =
    let rest = decimal rounds (n / 10) ((n % 10 + b'0') ∷ acc) in
    if n / 10 == 0 then (n % 10 + b'0') ∷ acc else rest

-- `sprintf` with "%%%02X" for each byte.
unfoldable pub percent_bytes : List ℕ → List ℕ
percent_bytes [] = []
percent_bytes (b ∷ bs) = b'%' ∷ hex (b / 16) ∷ hex (b % 16) ∷ percent_bytes bs

-- What is written for a character that was read from some bytes.
unfoldable pub convert : Tables → ℕ → List ℕ → List ℕ
unfolding decimal percent_bytes
convert tables value bytes =
    let xlat = xlat_one_to value tables 0 in
    if ltb value (2 ^ 16)
    then if xlat == 0 then codes "&#" ++ (decimal 10 value [] ++ codes ";") else xlat ∷ []
    else percent_bytes bytes

-- A round of the loop: what it writes and what is left, or none where it breaks.
unfoldable pub from_step : Tables → List ℕ → Option (List ℕ × List ℕ)
unfolding convert trailing_bytes utf_offset join_bytes
from_step tables [] = none
from_step tables (b ∷ bs) =
    let trailing = trailing_bytes b in
    let (value, rest) = join_bytes trailing 0 (b ∷ bs) in
    let code = (value + 2 ^ 32 - utf_offset trailing) % 2 ^ 32 in
    if leb b 127
    then some (b ∷ [], bs)
    else if leb (length (b ∷ bs)) trailing
    then none
    else some (convert tables code (take (trailing + 1) (b ∷ bs)), rest)

-- The loop of the function `transcodeFromUTF8`, behind `used` bytes.
unfoldable pub from_utf8_loop : ℕ → Tables → ℕ → ℕ → List ℕ → List ℕ × List ℕ
from_utf8_loop zero tables room used src = ([], src)
from_utf8_loop (suc rounds) tables room used src =
    let next : List ℕ × List ℕ = elim (from_step tables src) [
      | none ↦ ([], src)
      | some (written, rest) ↦
          let more = from_utf8_loop rounds tables room (used + length written) rest in
          (written ++ more.0, more.1)
    ] in
    if leb room used then ([], src) else next

unfoldable pub dec_num_length : ℕ → ℕ
dec_num_length code =
    if ltb code 100 then 2 else if ltb code 1000 then 3 else if ltb code 10000 then 4 else 5

-- What a character adds to the calculated length.
unfoldable pub from_utf8_size : Tables → Char → ℕ
unfolding dec_num_length
from_utf8_size tables ch =
    if ltb ch.code (2 ^ 16)
    then if xlat_one_to ch.code tables 0 == 0 then 3 + dec_num_length ch.code else 1
    else 3 * ch.size

unfoldable pub transcode_from_utf8 : Tables → List ℕ → List ℕ × List ℕ
unfolding from_utf8_loop from_step add_all iterate from_utf8_size
transcode_from_utf8 tables src =
    from_utf8_loop (length src) tables (add_all (from_utf8_size tables) (utf8_chars src)) 0 src

-- `same` tells if the two are one object.
unfoldable pub transcode : List ℕ → Charset → Charset → Bool → List ℕ
unfolding transcode_to_utf8 transcode_from_utf8 transcode_to_charset
transcode src utf8 utf8 same = src
transcode src (single_byte source) utf8 same = (transcode_to_utf8 source src).0
transcode src utf8 (single_byte dest) same = (transcode_from_utf8 dest src).0
transcode src (single_byte source) (single_byte dest) same =
    if same then src else transcode_to_charset source dest src
