-- ===== src/Text/Unescape/Fits.antt =====
-- The buffer of `unescape_chars` of src/main/pa_common.C is large enough.
use parser.Prelude.{
  ℕ, ◌+◌, ◌-◌, ◌≤◌, Bool, ◌&&◌, ◌||◌, Option, none, some, List, [], ◌∷◌, ◌==◌, if◌then◌else◌,
  length, length-append, if_cases, ==_iff, ◌*◌, ◌%◌, ◌^◌, arith,
}
use parser.Charset.Utf8.{store_utf8, encoded_bytes, first_byte_mark, spit_bytes}
use parser.Charset.Tables.Transcode.{length-spit_bytes}
use parser.Charset.Escape.{Charset, utf8, single_byte}
use parser.Text.Unescape.{
  EscapeState, escape_rest, escape_first, escape_second, escape_unicode, Unescape, store,
  store_char, has_charset, is_xdigit, hex_value, initial, by_state, unescape_step, unescape_loop,
  unescape_chars,
}

encoded_bytes-6 : (c : ℕ) → encoded_bytes c ≤ 6
unfolding encoded_bytes
encoded_bytes-6 c = ground arith

length-store_utf8 : (c : ℕ) → length (store_utf8 c) ≤ 6
unfolding store_utf8
length-store_utf8 c = by_encoded (encoded_bytes c) (encoded_bytes-6 c)
  where
    by_encoded :
        (encoded : ℕ)
        → encoded ≤ 6
        → length (
            if c == 0 || encoded == 0
            then b'?' ∷ []
            else spit_bytes (encoded - 1) (first_byte_mark encoded) c [])
          ≤ 6
    by_encoded encoded h =
        if_cases (λ bytes. length bytes ≤ 6) (c == 0 || encoded == 0) {x = b'?' ∷ []}
          {y = spit_bytes (encoded - 1) (first_byte_mark encoded) c []} (λ e. omega arith)
          (λ e. omega (arith, h, length-spit_bytes (encoded - 1) (first_byte_mark encoded) c []))

length-store : (charset : Option Charset) (value : ℕ) → length (store charset value) ≤ 6
unfolding store_char
length-store none value = omega arith
length-store (some utf8) value = length-store_utf8 value
length-store (some (single_byte tables)) value = ground arith

-- How many bytes of an escape were read that may still be written.
credit_of : EscapeState → ℕ → ℕ
credit_of escape_rest count = 0
credit_of escape_first count = 1
credit_of escape_second count = 2
credit_of escape_unicode count = count + 2

credit : Unescape → ℕ
credit s = credit_of s.escape_state s.js_cnt

-- A step writes no more than it had and reads.
Pays : ℕ → Unescape × List ℕ → Type 0
Pays n next = length next.1 + credit next.0 ≤ n + 1

by_state-Pays :
    (state : EscapeState) (charset : Option Charset) (js : Bool) (c : ℕ) (s : Unescape)
    → Pays (credit_of state s.js_cnt) (by_state state charset js c s)
unfolding by_state Pays credit credit_of
by_state-Pays escape_rest charset js c s = omega arith
by_state-Pays escape_first charset js c s =
    if_cases (Pays 1) (has_charset charset && (c == b'u')) (λ e. omega arith)
      (λ e. if_cases (Pays 1) (is_xdigit c) (λ f. omega arith) (λ f. omega arith))
by_state-Pays escape_second charset js c s =
    if_cases (Pays 2) (is_xdigit c) (λ f. omega arith) (λ f. omega arith)
by_state-Pays escape_unicode charset js c s =
    if_cases (Pays (s.js_cnt + 2)) (is_xdigit c)
      (λ f.
        if_cases (Pays (s.js_cnt + 2)) (s.js_cnt + 1 == 4)
          (λ e.
            let four = (==_iff (s.js_cnt + 1) 4).0 e in
            omega (
              arith,
              four,
              length-store charset ((s.escaped_value * 2 ^ 4 + hex_value c) % 2 ^ 32),
            ))
          (λ e. omega arith))
      (λ f. omega arith)

unescape_step-Pays :
    (charset : Option Charset) (js : Bool) (c : ℕ) (s : Unescape)
    → Pays (credit s) (unescape_step charset js c s)
unfolding unescape_step Pays credit credit_of
unescape_step-Pays charset js c s =
    if_cases (Pays (credit s)) (c == b'%' || (c == b'\\' && js)) (λ e. omega arith)
      (λ e. by_state-Pays s.escape_state charset js c s)

length-unescape_loop :
    (charset : Option Charset) (js : Bool) (cp : List ℕ) (s : Unescape)
    → length (unescape_loop charset js cp s) ≤ credit s + length cp
unfolding unescape_loop Pays
length-unescape_loop charset js [] s = omega arith
length-unescape_loop charset js (c ∷ cs) s =
    let next = unescape_step charset js c s in
    omega (
      arith,
      length-append next.1 (unescape_loop charset js cs next.0),
      unescape_step-Pays charset js c s,
      length-unescape_loop charset js cs next.0,
    )

-- For every text, every charset and with `js` or without, `unescape_chars` writes no more bytes
-- than it reads, which is the size of its buffer.
pub length-unescape_chars :
    (cp : List ℕ) (charset : Option Charset) (js : Bool)
    → length (unescape_chars cp charset js) ≤ length cp
unfolding unescape_chars credit credit_of
length-unescape_chars cp charset js = omega (arith, length-unescape_loop charset js cp initial)
