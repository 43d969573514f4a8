-- ===== src/Text/Unescape.antt =====
-- `unescape_chars` of src/main/pa_common.C, and the table `hex_value` of src/main/pa_globals.C.
pub mod RoundTrip
pub mod Fits
use parser.Prelude.{
  ℕ, zero, suc, ◌+◌, ◌-◌, ◌*◌, ◌%◌, ◌^◌, Bool, true, false, not, ◌&&◌, ◌||◌, Option, none, some,
  List, [], ◌∷◌, ◌++◌, leb, ◌==◌, if◌then◌else◌,
}
use parser.Charset.Utf8.{store_utf8}
use parser.Charset.Tables.{xlat_one_to}
use parser.Charset.Escape.{Charset, utf8, single_byte}

unfoldable pub hex_value : ℕ → ℕ
hex_value c =
    if leb b'0' c && leb c b'9'
    then c - b'0'
    else if leb b'A' c && leb c b'F'
    then c - b'A' + 10
    else if leb b'a' c && leb c b'f'
    then c - b'a' + 10
    else 0

abbrev pub is_xdigit : ℕ → Bool
is_xdigit c = (leb b'0' c && leb c b'9') || (leb b'A' c && leb c b'F') || (leb b'a' c && leb c b'f')

-- `Charset::store_Char` of src/main/pa_charset.C.
unfoldable pub store_char : Charset → ℕ → ℕ → List ℕ
store_char utf8 src not_found = store_utf8 src
store_char (single_byte tables) src not_found =
    let ch = xlat_one_to src tables not_found in if ch == 0 then [] else ch ∷ []

pub data EscapeState : Type 0 where
  escape_rest : EscapeState
  escape_first : EscapeState
  escape_second : EscapeState
  escape_unicode : EscapeState

-- The variables of the loop.
pub record Unescape : Type 0 where
  pub escape_state : EscapeState
  pub escaped_value : ℕ
  pub js_cnt : ℕ

abbrev pub initial : Unescape
initial = record { escape_state = escape_rest; escaped_value = 0; js_cnt = 0 }

abbrev pub has_charset : Option Charset → Bool
has_charset none = false
has_charset (some charset) = true

-- Four digits are stored; only with a charset is the state `EscapeUnicode` reached.
abbrev pub store : Option Charset → ℕ → List ℕ
store none value = []
store (some charset) value = store_char charset value b'?'

abbrev pub enter : EscapeState → Unescape → Unescape
enter state s = record { escape_state = state; escaped_value = s.escaped_value; js_cnt = s.js_cnt }

-- The `switch`: the new variables, and the bytes written to `dst`.
unfoldable pub by_state : EscapeState → Option Charset → Bool → ℕ → Unescape → Unescape × List ℕ
unfolding hex_value store_char
by_state escape_rest charset js c s =
    (enter escape_rest s, (if c == b'+' && not js then b' ' else c) ∷ [])
by_state escape_first charset js c s =
    if has_charset charset && (c == b'u')
    then (record { escape_state = escape_unicode; escaped_value = 0; js_cnt = 0 }, [])
    else if is_xdigit c
    then (
      record {
        escape_state = escape_second;
        escaped_value = hex_value c * 2 ^ 4;
        js_cnt = s.js_cnt;
      },
      [],
    )
    else (enter escape_rest s, c ∷ [])
by_state escape_second charset js c s =
    let value = s.escaped_value + hex_value c in
    if is_xdigit c
    then (
      record { escape_state = escape_rest; escaped_value = value; js_cnt = s.js_cnt },
      value % 256 ∷ [],
    )
    else (enter escape_rest s, [])
by_state escape_unicode charset js c s =
    let value = (s.escaped_value * 2 ^ 4 + hex_value c) % 2 ^ 32 in
    let count = s.js_cnt + 1 in
    if is_xdigit c
    then if count == 4
      then (
        record { escape_state = escape_rest; escaped_value = value; js_cnt = count },
        store charset value,
      )
      else (record { escape_state = escape_unicode; escaped_value = value; js_cnt = count }, [])
    else (enter escape_rest s, [])

unfoldable pub unescape_step : Option Charset → Bool → ℕ → Unescape → Unescape × List ℕ
unfolding by_state
unescape_step charset js c s =
    if c == b'%' || (c == b'\\' && js)
    then (enter escape_first s, [])
    else by_state s.escape_state charset js c s

unfoldable pub unescape_loop : Option Charset → Bool → List ℕ → Unescape → List ℕ
unescape_loop charset js [] s = []
unescape_loop charset js (c ∷ cs) s =
    let next = unescape_step charset js c s in next.1 ++ unescape_loop charset js cs next.0

unfoldable pub unescape_chars : List ℕ → Option Charset → Bool → List ℕ
unfolding unescape_loop
unescape_chars cp charset js = unescape_loop charset js cp initial
