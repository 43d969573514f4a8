-- ===== src/Tests/Text.antt =====
-- Texts that are cut, fixed and escaped, and the theorems about them at concrete inputs.
use parser.Prelude.{
  ◌%◌, ◌^◌, ℕ, ◌≤◌, ◌≡◌, refl, All, true, false, none, some, List, [], ◌∷◌, ◌++◌, length, codes,
  arith,
}
use parser.Prelude.Result.{Returns}
use parser.Charset.Utf8.{store_utf8}
use parser.Charset.Utf8.Positions.{encoded_text}
use parser.Charset.Escape.{utf8, strchr, escape}
use parser.Text.{
  starts_word, capitalize, fix_line_breaks, getrow, rsplit_any, pa_strncpy, pa_strcat, search_stop,
  strpos, remove_crlf, hex_string, detect_charset,
}
use parser.Text.Crc.{pa_crc32, calc_crc32}
use parser.Text.Split.{Lacks}
use parser.Text.Lines.{normalized, fix_line_breaks-normalized}
use parser.Text.Unescape.{unescape_step, unescape_chars}
use parser.Text.Unescape.Fits.{length-unescape_chars}
use parser.Text.Unescape.RoundTrip.{IsShort, unescape_chars-escape}

capitalize_header : capitalize (some (codes "content-TYPE")) ≡ some (codes "Content-Type")
unfolding capitalize starts_word
capitalize_header = refl

getrow_two : getrow (some (codes "a\nb")) b'\n' ≡ (some (codes "a"), some (codes "b"))
unfolding getrow
getrow_two = refl

rsplit_path : rsplit_any (codes "/a/b.html") (codes "/\\") ≡ (codes "/a", some (codes "b.html"))
unfolding rsplit_any strchr
rsplit_path = refl

strncpy_short : pa_strncpy (some (codes "abc")) 3 ≡ codes "ab" ++ (0 ∷ [])
unfolding pa_strncpy
strncpy_short = refl

strcat_two : pa_strcat (some (codes "a")) none (some (codes "b")) ≡ codes "ab"
unfolding pa_strcat
strcat_two = refl

search_stop_at : search_stop (some (codes "  a;b")) b';' ≡ (some (codes "a"), some (codes "b"))
unfolding search_stop
search_stop_at = refl

strpos_second : strpos (codes "abab") (codes "ba") ≡ some 1
unfolding strpos
strpos_second = refl

remove_crlf_run : remove_crlf (codes "a \r\n\tb ") ≡ codes "a b "
unfolding remove_crlf
remove_crlf_run = refl

hex_string_bytes : hex_string (0x0A ∷ 0xFF ∷ []) true ≡ codes "0AFF"
unfolding hex_string
hex_string_bytes = refl

detect_charset_quoted :
    detect_charset (λ name. name) (some (codes "text/html; charset=\"utf-8\"; x"))
    ≡ some (codes "UTF-8")
unfolding detect_charset
detect_charset_quoted = refl

unescape_form :
    unescape_chars (codes "a+b%3D%u0430") (some utf8) false ≡ codes "a b=" ++ (0xD0 ∷ 0xB0 ∷ [])
unfolding unescape_chars unescape_step store_utf8
unescape_form = refl

abbrev mixed : List ℕ
mixed = codes "a\r\nb\rc\n\r\n"

fix_line_breaks-normalized_example :
    ((fix_line_breaks mixed).0 ≡ normalized false mixed)
    × ((fix_line_breaks mixed).1 ≡ length (fix_line_breaks mixed).0)
    × Lacks b'\r' (fix_line_breaks mixed).0
fix_line_breaks-normalized_example = fix_line_breaks-normalized mixed

length-unescape_chars_example :
    length (unescape_chars (codes "%u0430%2") (some utf8) true) ≤ length (codes "%u0430%2")
length-unescape_chars_example = length-unescape_chars (codes "%u0430%2") (some utf8) true

abbrev word : List ℕ
word = b'a' ∷ b' ' ∷ 0x430 ∷ []

word-IsShort : All IsShort word
unfolding IsShort
word-IsShort =
    ((omega arith, omega arith), ((omega arith, omega arith), ((omega arith, omega arith), tt)))

unescape_chars-escape_example :
    Returns
      (λ out. unescape_chars out (some utf8) true ≡ encoded_text word)
      (escape (encoded_text word) utf8)
unescape_chars-escape_example = unescape_chars-escape word word-IsShort

check_digits : pa_crc32 (codes "123456789") % 2 ^ 32 ≡ 0xCBF43926
unfolding pa_crc32 calc_crc32
check_digits = refl
