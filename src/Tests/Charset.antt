-- ===== src/Tests/Charset.antt =====
-- Texts in UTF-8 and in a charset of one byte, and the theorems about them at concrete inputs.
use parser.Prelude.{
  false, ℕ, zero, suc, ◌+◌, ◌≡◌, refl, some, List, [], ◌∷◌, ◌++◌, length, take, codes, arith,
}
use parser.Charset.Transcode.{transcode_from_utf8, transcode, dec_num_length}
use parser.Prelude.Result.{ok, Returns}
use parser.Charset.Utf8.{
  read_utf8_char, encoded_bytes, spit_bytes, first_byte_mark, length_utf8, byte_pos, char_pos,
}
use parser.Charset.Utf8.RoundTrip.{Written, store_utf8-Written}
use parser.Charset.Utf8.Positions.{encoded_text, char_pos-byte_pos}
use parser.Charset.Tables.{Tables, read_char, xlat_one_to, transcode_to_utf8, transcode_to_charset}
use parser.Charset.Tables.Search.{IsSorted, find, xlat_one_to-find}
use parser.Charset.Escape.{
  utf8, single_byte, escape, escape_json, calc_escaped_length, calc_json_escaped_length,
}
use parser.Charset.Escape.Replaced.{replaced_chars}
use parser.Charset.Escape.Lengths.{escape-Returns, escape_json-Returns}

-- A table in which the bytes 1 and 2 are U+0041 and U+0430, and which has nothing for the byte 0.
abbrev small : Tables
small = record {
  from_table = 0 ∷ 0x41 ∷ 0x430 ∷ [];
  to_table = record { int_ch = 0x41; ext_ch = 1 } ∷ record { int_ch = 0x430; ext_ch = 2 } ∷ [];
}

transcode_small : transcode_to_utf8 small (1 ∷ 2 ∷ []) ≡ (0x41 ∷ 0xD0 ∷ 0xB0 ∷ [], [])
unfolding transcode_to_utf8 encoded_bytes read_char spit_bytes first_byte_mark
transcode_small = refl

transcode_same : transcode_to_charset small small (2 ∷ 1 ∷ 7 ∷ []) ≡ 2 ∷ 1 ∷ b'?' ∷ []
unfolding transcode_to_charset xlat_one_to
transcode_same = refl

-- A zero byte stands in front of the end that was calculated.
transcode_zero : transcode_to_utf8 small (0 ∷ 0 ∷ []) ≡ (b'?' ∷ b'?' ∷ [], [])
unfolding transcode_to_utf8 encoded_bytes read_char spit_bytes first_byte_mark
transcode_zero = refl

escape_cyrillic : escape (codes "a " ++ (0xD0 ∷ 0xB0 ∷ [])) utf8 ≡ ok (codes "a%20%u0430")
unfolding escape read_utf8_char
escape_cyrillic = refl

-- U+1F600: the digits in front of the last four are lost.
escape_large : escape (0xF0 ∷ 0x9F ∷ 0x98 ∷ 0x80 ∷ []) utf8 ≡ ok (codes "%uF600")
unfolding escape read_utf8_char
escape_large = refl

escape_json_quote : escape_json (codes "\"\n") utf8 ≡ ok (codes "\\\"\\n")
unfolding escape_json read_utf8_char
escape_json_quote = refl

store_utf8-Written_example : Written 0x430 (codes "a")
store_utf8-Written_example = store_utf8-Written 0x430 (codes "a") (omega arith, omega arith)

abbrev word : List ℕ
word = 0x41 ∷ 0x430 ∷ 0x42 ∷ []

char_pos-byte_pos_example :
    (length_utf8 (encoded_text word) ≡ length word)
    × (byte_pos 2 (encoded_text word) ≡ length (encoded_text (take 2 word)))
    × (char_pos (byte_pos 2 (encoded_text word)) (encoded_text word) ≡ some 2)
char_pos-byte_pos_example =
    char_pos-byte_pos 2 word (omega arith)
      ((omega arith, omega arith), ((omega arith, omega arith), ((omega arith, omega arith), tt)))

small-IsSorted : IsSorted small.to_table
unfolding IsSorted
small-IsSorted zero zero h k = elim h [ ]
small-IsSorted zero (suc zero) h k = omega arith
small-IsSorted zero (suc (suc j)) h k = absurd (omega arith)
small-IsSorted (suc i) j h k = absurd (omega arith)

xlat_one_to-find_example : xlat_one_to 0x430 small b'?' ≡ find 0x430 small.to_table b'?'
xlat_one_to-find_example = xlat_one_to-find 0x430 small b'?' small-IsSorted

escape-Returns_example :
    Returns
      (λ out. length out ≡ calc_escaped_length (1 ∷ 2 ∷ []) (single_byte small))
      (escape (1 ∷ 2 ∷ []) (single_byte small))
escape-Returns_example = escape-Returns (1 ∷ 2 ∷ []) (single_byte small)

-- A table whose byte 1 has a number that UTF-8 cannot hold.
abbrev wide_table : Tables
wide_table = record { from_table = 0 ∷ 0x80000000 ∷ 0x430 ∷ []; to_table = [] }

escape_json_large : escape_json (1 ∷ 2 ∷ []) (single_byte wide_table) ≡ ok (codes "?\\u0430")
unfolding escape_json read_char encoded_bytes
escape_json_large = refl

replaced_large : replaced_chars (1 ∷ 2 ∷ []) (single_byte wide_table) ≡ 1
unfolding replaced_chars
replaced_large = refl

escape_json-Returns_example :
    Returns
      (λ out.
        length out + replaced_chars (1 ∷ 2 ∷ []) (single_byte wide_table)
        ≡ calc_json_escaped_length (1 ∷ 2 ∷ []) (single_byte wide_table))
      (escape_json (1 ∷ 2 ∷ []) (single_byte wide_table))
escape_json-Returns_example = escape_json-Returns (1 ∷ 2 ∷ []) (single_byte wide_table)

-- U+0430 is in the table, U+0431 is not.
transcode_from :
    transcode_from_utf8 small (b'a' ∷ 0xD0 ∷ 0xB0 ∷ 0xD0 ∷ 0xB1 ∷ [])
    ≡ (b'a' ∷ 2 ∷ codes "&#1073;", [])
unfolding transcode_from_utf8 read_utf8_char xlat_one_to dec_num_length
transcode_from = refl

transcode_back : transcode (1 ∷ 2 ∷ []) (single_byte small) utf8 false ≡ 0x41 ∷ 0xD0 ∷ 0xB0 ∷ []
unfolding transcode encoded_bytes read_char spit_bytes first_byte_mark
transcode_back = refl
