-- ===== src/Charset/Escape.antt =====
-- `escape` and `escape_JSON` of src/main/pa_charset.C, and the lengths that are calculated for them.
pub mod Lengths
pub mod Replaced
use parser.Prelude.{
  ℕ, zero, suc, ◌+◌, ◌-◌, ◌*◌, ◌/◌, ◌%◌, ◌^◌, bit_and, Bool, true, false, not, ◌&&◌, ◌||◌, Option,
  none, some, List, [], ◌∷◌, ◌++◌, ltb, leb, ◌==◌, if◌then◌else◌, length, get_or, codes,
}
use parser.Prelude.Result.{Result, ok, err}
use parser.Charset.Utf8.{Char, read_utf8_char}
use parser.Charset.Tables.{Tables, table_chars}

abbrev pub hex_digits : List ℕ
hex_digits = codes "0123456789ABCDEF"

abbrev pub hex : ℕ → ℕ
hex n = get_or hex_digits n 0

abbrev pub append_hex_8 : ℕ → List ℕ → List ℕ
append_hex_8 c prefix = prefix ++ (hex (c / 16) ∷ hex (bit_and c 0x0F) ∷ [])

abbrev pub append_hex_16 : ℕ → List ℕ → List ℕ
append_hex_16 c prefix =
    prefix
    ++ (hex (bit_and (c / 2 ^ 12) 0x0F)
        ∷ hex (bit_and (c / 2 ^ 8) 0x0F)
        ∷ hex (bit_and (c / 2 ^ 4) 0x0F)
        ∷ hex (bit_and c 0x0F)
        ∷ [])

-- `strchr(s, c)!=0`, which finds the zero at the end too.
unfoldable pub strchr : List ℕ → ℕ → Bool
strchr [] c = c == 0
strchr (x ∷ xs) c = x == c || strchr xs c

abbrev pub is_alnum : ℕ → Bool
is_alnum c = (leb b'0' c && leb c b'9') || (leb b'A' c && leb c b'Z') || (leb b'a' c && leb c b'z')

unfoldable pub need_escape : ℕ → Bool
unfolding strchr
need_escape c = not (leb c 127 && (is_alnum c || strchr (codes "*@-_+./") c))

-- The macro `escape_char`.
unfoldable pub escape_char : Char → List ℕ
unfolding need_escape
escape_char ch =
    if ch.size == 1
    then if not (ch.first == 0)
      then if need_escape ch.first then append_hex_8 ch.first (codes "%") else ch.first ∷ []
      else b'?' ∷ []
    else append_hex_16 ch.code (codes "%u")

-- What the loop of `calc_escaped_length_UTF8` adds for a character.
unfoldable pub escaped_size_utf8 : Char → ℕ
unfolding need_escape
escaped_size_utf8 ch = if ch.size == 1 then if not (need_escape ch.first) then 1 else 3 else 6

-- The same in `calc_escaped_length`.
unfoldable pub escaped_size : Char → ℕ
unfolding need_escape
escaped_size ch =
    if ch.size == 1 then if ch.first == 0 || not (need_escape ch.first) then 1 else 3 else 6

unfoldable pub need_json_escape : ℕ → Bool
unfolding strchr
need_json_escape c = strchr (b'\n' ∷ b'"' ∷ b'\\' ∷ b'/' ∷ b'\t' ∷ b'\r' ∷ 8 ∷ 12 ∷ []) c

-- The macro `escape_char_JSON`, by the first byte.
unfoldable pub escape_first_json : Char → List ℕ
escape_first_json ch =
    let c = ch.first in
    if c == b'\n'
    then codes "\\n"
    else if c == b'"'
    then codes "\\\""
    else if c == b'\\'
    then codes "\\\\"
    else if c == b'/'
    then codes "\\/"
    else if c == b'\t'
    then codes "\\t"
    else if c == b'\r'
    then codes "\\r"
    else if c == 8
    then codes "\\b"
    else if c == 12
    then codes "\\f"
    else if c == 0
    then codes "?"
    else if ltb c 0x20
    then append_hex_16 ch.code (codes "\\u")
    else c ∷ []

unfoldable pub escape_char_json : Char → List ℕ
unfolding escape_first_json
escape_char_json ch =
    if ch.size == 1 then escape_first_json ch else append_hex_16 ch.code (codes "\\u")

unfoldable pub json_size : Char → ℕ
unfolding need_json_escape
json_size ch =
    if ch.size == 1
    then if need_json_escape ch.first
      then 2
      else if ltb ch.first 0x20 && not (ch.first == 0)
      then 6
      else 1
    else 6

-- The characters of a `UTF8_string_iterator`.
unfoldable pub iterate : ℕ → List ℕ → List Char
iterate zero src = []
iterate (suc rounds) src = elim (read_utf8_char src) [
  | none ↦ []
  | some (ch, rest) ↦ ch ∷ iterate rounds rest
]

abbrev pub utf8_chars : List ℕ → List Char
utf8_chars src = iterate (length src) src

-- The loops over characters: what is written, and what is added.
unfoldable pub write_all : (Char → List ℕ) → List Char → List ℕ
write_all f [] = []
write_all f (ch ∷ cs) = f ch ++ write_all f cs

unfoldable pub add_all : (Char → ℕ) → List Char → ℕ
add_all f [] = 0
add_all f (ch ∷ cs) = f ch + add_all f cs

-- A charset is UTF-8, or has tables.
pub data Charset : Type 0 where
  utf8 : Charset
  single_byte : Tables → Charset

pub data EscapeError : Type 0 where
  buffer_overflow : EscapeError

-- `if(dest_length>dest_calculated_length) throw`
unfoldable pub checked : ℕ → List ℕ → Result EscapeError (List ℕ)
checked calculated out = if ltb calculated (length out) then err buffer_overflow else ok out

unfoldable pub calc_escaped_length : List ℕ → Charset → ℕ
unfolding iterate add_all table_chars escaped_size escaped_size_utf8
calc_escaped_length src utf8 = add_all escaped_size_utf8 (utf8_chars src)
calc_escaped_length src (single_byte tables) = add_all escaped_size (table_chars tables src)

unfoldable pub escape : List ℕ → Charset → Result EscapeError (List ℕ)
unfolding iterate write_all table_chars escape_char checked calc_escaped_length
escape src utf8 = checked (calc_escaped_length src utf8) (write_all escape_char (utf8_chars src))
escape src (single_byte tables) =
    checked (calc_escaped_length src (single_byte tables))
      (write_all escape_char (table_chars tables src))

unfoldable pub calc_json_escaped_length : List ℕ → Charset → ℕ
unfolding iterate add_all table_chars json_size
calc_json_escaped_length src utf8 = add_all json_size (utf8_chars src)
calc_json_escaped_length src (single_byte tables) = add_all json_size (table_chars tables src)

unfoldable pub escape_json : List ℕ → Charset → Result EscapeError (List ℕ)
unfolding iterate write_all table_chars escape_char_json checked calc_json_escaped_length
escape_json src utf8 =
    checked (calc_json_escaped_length src utf8) (write_all escape_char_json (utf8_chars src))
escape_json src (single_byte tables) =
    checked (calc_json_escaped_length src (single_byte tables))
      (write_all escape_char_json (table_chars tables src))
