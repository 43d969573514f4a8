-- ===== src/Charset/Utf8.antt =====
-- UTF-8 of src/main/pa_charset.C: the characters that are read, skipped and written.
pub mod Bytes
pub mod Sequences
pub mod RoundTrip
pub mod Positions
use parser.Prelude.{
  ℕ, zero, suc, ◌+◌, ◌-◌, ◌*◌, ◌/◌, ◌%◌, ◌^◌, bit_and, bit_or, Bool, true, false, not, ◌&&◌, ◌||◌,
  Option, none, some, List, [], ◌∷◌, ◌++◌, ltb, leb, ◌==◌, if◌then◌else◌, length, drop,
}

-- `gUTFBytes`: how many bytes follow a first one.
unfoldable pub trailing_bytes : ℕ → ℕ
trailing_bytes c =
    if ltb c 0xC0
    then 0
    else if ltb c 0xE0
    then 1
    else if ltb c 0xF0
    then 2
    else if ltb c 0xF8
    then 3
    else if ltb c 0xFC
    then 4
    else 5

-- `gUTFOffsets`
unfoldable pub utf_offset : ℕ → ℕ
utf_offset zero = 0
utf_offset (suc zero) = 0x3080
utf_offset (suc (suc zero)) = 0xE2080
utf_offset (suc (suc (suc zero))) = 0x3C82080
utf_offset (suc (suc (suc (suc zero)))) = 0xFA082080
utf_offset (suc (suc (suc (suc (suc n))))) = 0x82082080

-- `gFirstByteMark`
unfoldable pub first_byte_mark : ℕ → ℕ
first_byte_mark zero = 0x00
first_byte_mark (suc zero) = 0x00
first_byte_mark (suc (suc zero)) = 0xC0
first_byte_mark (suc (suc (suc zero))) = 0xE0
first_byte_mark (suc (suc (suc (suc zero)))) = 0xF0
first_byte_mark (suc (suc (suc (suc (suc zero))))) = 0xF8
first_byte_mark (suc (suc (suc (suc (suc (suc n)))))) = 0xFC

-- A character that was read: its size in bytes, its first byte and its code.
pub record Char : Type 0 where
  pub size : ℕ
  pub first : ℕ
  pub code : ℕ

-- The `switch` that falls through its cases: the bytes joined, in 32 bits, with what follows them.
unfoldable pub join_bytes : ℕ → ℕ → List ℕ → ℕ × List ℕ
join_bytes n acc [] = (acc, [])
join_bytes zero acc (b ∷ bs) = ((acc + b) % 2 ^ 32, bs)
join_bytes (suc n) acc (b ∷ bs) = join_bytes n ((acc + b) * 64 % 2 ^ 32) bs

-- `readUTF8Char`; `none` where it returns 0.
unfoldable pub read_utf8_char : List ℕ → Option (Char × List ℕ)
unfolding trailing_bytes utf_offset join_bytes
read_utf8_char [] = none
read_utf8_char (b ∷ bs) =
    let trailing = trailing_bytes b in
    let (value, rest) = join_bytes trailing 0 (b ∷ bs) in
    if b == 0
    then none
    else if leb b 127
    then some (record { size = 1; first = b; code = b }, bs)
    else if leb (length (b ∷ bs)) trailing
    then none
    else some (
      record {
        size = trailing + 1;
        first = b;
        code = (value + 2 ^ 32 - utf_offset trailing) % 2 ^ 32;
      },
      rest,
    )

-- `skipUTF8Char`: the size, and what follows the character; the pointer may pass the end.
unfoldable pub skip_utf8_char : List ℕ → Option (ℕ × List ℕ)
unfolding trailing_bytes
skip_utf8_char [] = none
skip_utf8_char (b ∷ bs) =
    if b == 0 then none else some (trailing_bytes b + 1, drop (trailing_bytes b) bs)

-- How many bytes `store_UTF8` needs; 0 for what has no encoding.
unfoldable pub encoded_bytes : ℕ → ℕ
encoded_bytes src =
    if ltb src 0x80
    then 1
    else if ltb src 0x800
    then 2
    else if ltb src 0x10000
    then 3
    else if ltb src 0x200000
    then 4
    else if ltb src 0x4000000
    then 5
    else if leb src 0x7FFFFFFF
    then 6
    else 0

-- The bytes in reverse order: `n` that follow, then the first one with its mark.
unfoldable pub spit_bytes : ℕ → ℕ → ℕ → List ℕ → List ℕ
spit_bytes zero mark src acc = bit_or src mark % 256 ∷ acc
spit_bytes (suc n) mark src acc =
    spit_bytes n mark (src / 64) (bit_and (bit_or src 0x80) 0xBF % 256 ∷ acc)

unfoldable pub store_utf8 : ℕ → List ℕ
unfolding encoded_bytes first_byte_mark spit_bytes
store_utf8 src =
    let encoded = encoded_bytes src in
    if src == 0 || encoded == 0
    then b'?' ∷ []
    else spit_bytes (encoded - 1) (first_byte_mark encoded) src []

-- The loops of `lengthUTF8`, `getUTF8BytePos` and `getUTF8CharPos`, by the characters that are left.
pub length_loop : ℕ → List ℕ → ℕ
length_loop zero src = 0
length_loop (suc rounds) src = elim (skip_utf8_char src) [
  | none ↦ 0
  | some (size, rest) ↦ suc (length_loop rounds rest)
]

unfoldable pub length_utf8 : List ℕ → ℕ
unfolding length_loop skip_utf8_char
length_utf8 src = length_loop (length src) src

unfoldable pub byte_pos : ℕ → List ℕ → ℕ
byte_pos zero src = 0
byte_pos (suc char_pos) src = elim (skip_utf8_char src) [
  | none ↦ 0
  | some (size, rest) ↦ size + byte_pos char_pos rest
]

-- `ptr` and `charPos` grow; `none` is the exception behind the loop.
pub char_pos_loop : ℕ → ℕ → ℕ → ℕ → List ℕ → Option ℕ
char_pos_loop zero ptr end chars src = none
char_pos_loop (suc rounds) ptr end chars src = elim (skip_utf8_char src) [
  | none ↦ none
  | some (size, rest) ↦
      if ltb end (ptr + size)
      then some chars
      else char_pos_loop rounds (ptr + size) end (chars + 1) rest
]

unfoldable pub char_pos : ℕ → List ℕ → Option ℕ
unfolding char_pos_loop skip_utf8_char
char_pos byte_pos src = char_pos_loop (length src) 0 byte_pos 0 src
