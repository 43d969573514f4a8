-- ===== src/Text/Unescape/RoundTrip.antt =====
-- What `escape` of src/main/pa_charset.C wrote is read by `unescape_chars` of src/main/pa_common.C.
use parser.Prelude.{
  ℕ, zero, suc, ◌+◌, ◌*◌, ◌/◌, ◌%◌, ◌^◌, ◌≤◌, ◌<◌, ◌≡◌, refl, sym, ap, ◌∙◌, Bool, true, false, not,
  ◌&&◌, ◌||◌, some, List, [], ◌∷◌, ◌++◌, bit_and, All, All-map, length, ltb, ltb→lt, Bool-cases,
  inl, inr, ◌≢◌, leb, ◌==◌, if◌then◌else◌, if_cases, arith,
}
use parser.Prelude.Bits.{bit_and_15, bit_or-zero, all_below, all_below_sound}
use parser.Prelude.Result.{Returns}
use parser.Charset.Utf8.{
  Char, read_utf8_char, store_utf8, encoded_bytes, first_byte_mark, spit_bytes,
}
use parser.Charset.Utf8.RoundTrip.{IsCode, store_utf8-Written}
use parser.Charset.Utf8.Positions.{encoded_text, length-le-encoded_text}
use parser.Charset.Escape.{
  Charset, utf8, hex, append_hex_8, append_hex_16, escape_char, need_escape, iterate, utf8_chars,
  write_all, escape,
}
use parser.Charset.Escape.Lengths.{escape-write_all}
use parser.Text.Unescape.{
  EscapeState, escape_rest, Unescape, store, hex_value, is_xdigit, enter, initial, by_state,
  store_char, unescape_step, unescape_loop, unescape_chars,
}

-- A digit that is printed is read as its value.
record IsDigit (d v : ℕ) : Type 0 where
  no_escape : (d == b'%' || (d == b'\\' && true)) ≡ false
  no_unicode : (d == b'u') ≡ false
  digit : is_xdigit d ≡ true
  value : hex_value d ≡ v

reads_digit : ℕ → Bool
unfolding hex_value
reads_digit v =
    let d = hex v in
    not (d == b'%' || (d == b'\\' && true)) && not (d == b'u') && is_xdigit d && (hex_value d == v)

hex_digits_read : all_below 16 reads_digit ≡ true
unfolding reads_digit all_below
hex_digits_read = refl

reads_digit-IsDigit : (v : ℕ) → reads_digit v ≡ true → IsDigit (hex v) v
unfolding reads_digit
reads_digit-IsDigit v h = record {
  no_escape = ground arith;
  no_unicode = ground arith;
  digit = ground arith;
  value = ground arith;
}

hex-IsDigit : (v : ℕ) → v < 16 → IsDigit (hex v) v
hex-IsDigit v h = reads_digit-IsDigit v (all_below_sound 16 reads_digit v hex_digits_read h)

-- The value of four digits, in 32 bits.
four : ℕ → ℕ → ℕ → ℕ → ℕ
four v w x y = ((((0 + v) % 2 ^ 32 * 2 ^ 4 + w) % 2 ^ 32 * 2 ^ 4 + x) % 2 ^ 32 * 2 ^ 4 + y) % 2 ^ 32

no_plus : {c : ℕ} (b : Bool) → (if b && not true then b' ' else c) ≡ c
no_plus true = refl
no_plus false = refl

module _ (charset : Charset) where
  abbrev run : List ℕ → Unescape → List ℕ
  run = unescape_loop (some charset) true

  -- `%XX`
  run-two :
      (s : Unescape) (d e v w : ℕ) (rest : List ℕ)
      → IsDigit d v
      → IsDigit e w
      → run (b'%' ∷ d ∷ e ∷ rest) s
        ≡ (v * 16 + w) % 256
          ∷ run rest
              (record { escape_state = escape_rest; escaped_value = v * 16 + w; js_cnt = s.js_cnt })
  unfolding unescape_loop unescape_step by_state
  run-two s d e v w rest hd he =
      rw (hd.no_escape, hd.no_unicode, hd.digit, hd.value, he.no_escape, he.digit, he.value) refl

  -- As is.
  run-one :
      (s : Unescape) (c : ℕ) (rest : List ℕ)
      → s.escape_state ≡ escape_rest
      → (c == b'%' || (c == b'\\' && true)) ≡ false
      → run (c ∷ rest) s ≡ c ∷ run rest (enter escape_rest s)
  unfolding unescape_loop unescape_step by_state
  run-one s c rest e h = rw h (by_rest s.escape_state e)
    where
      by_rest :
          (state : EscapeState)
          → state ≡ escape_rest
          → (by_state state (some charset) true c s).1
              ++ run rest (by_state state (some charset) true c s).0
            ≡ c ∷ run rest (enter escape_rest s)
      by_rest state e = rw e (ap (λ d. d ∷ run rest (enter escape_rest s)) (no_plus (c == b'+')))

  -- `%uXXXX`
  run-four :
      (s : Unescape) (d e f g v w x y : ℕ) (rest : List ℕ)
      → IsDigit d v
      → IsDigit e w
      → IsDigit f x
      → IsDigit g y
      → run (b'%' ∷ b'u' ∷ d ∷ e ∷ f ∷ g ∷ rest) s
        ≡ store (some charset) (four v w x y)
          ++ run rest
              (record { escape_state = escape_rest; escaped_value = four v w x y; js_cnt = 4 })
  unfolding unescape_loop unescape_step by_state four
  run-four s d e f g v w x y rest hd he hf hg =
      rw
        (
          hd.no_escape, hd.digit, hd.value, he.no_escape, he.digit, he.value, hf.no_escape,
          hf.digit, hf.value, hg.no_escape, hg.digit, hg.value,
        )
        refl

-- The digits of a code of 16 bits have its value.
four-digits :
    (c : ℕ) → c < 2 ^ 16 → four (c / 2 ^ 12 % 16) (c / 2 ^ 8 % 16) (c / 2 ^ 4 % 16) (c % 16) ≡ c
unfolding four
four-digits c h = omega arith

unfoldable pub IsShort : ℕ → Type 0
IsShort c = (1 ≤ c) × (c < 2 ^ 16)

masked-IsDigit : (c : ℕ) → IsDigit (hex (bit_and c 15)) (bit_and c 15)
masked-IsDigit c = hex-IsDigit (bit_and c 15) (omega (arith, bit_and_15 c))

as_is : (c : ℕ) → need_escape c ≡ false → (c == b'%' || (c == b'\\' && true)) ≡ false
unfolding need_escape
as_is c h = ground arith

-- A character is escaped to what is read as its bytes, with whatever follows.
Read : ℕ → List ℕ → Type 0
Read c escaped =
    (rest : List ℕ) (s : Unescape)
    → s.escape_state ≡ escape_rest
    → (t : Unescape) × (t.escape_state ≡ escape_rest)
      × (run utf8 (escaped ++ rest) s ≡ store_utf8 c ++ run utf8 rest t)

resting : ℕ → ℕ → Unescape
resting value count = record { escape_state = escape_rest; escaped_value = value; js_cnt = count }

Read-four : (c : ℕ) → c < 2 ^ 16 → Read c (append_hex_16 c (b'%' ∷ b'u' ∷ []))
unfolding Read store_char resting
Read-four c h rest s e =
    let value : ℕ =
      four (bit_and (c / 2 ^ 12) 15) (bit_and (c / 2 ^ 8) 15) (bit_and (c / 2 ^ 4) 15)
        (bit_and c 15) in
    let same : value ≡ c =
      rw (bit_and_15 (c / 2 ^ 12), bit_and_15 (c / 2 ^ 8), bit_and_15 (c / 2 ^ 4), bit_and_15 c)
        (four-digits c h) in
    (
      resting value 4,
      refl,
      run-four utf8 s _ _ _ _ _ _ _ _ rest (masked-IsDigit (c / 2 ^ 12))
            (masked-IsDigit (c / 2 ^ 8)) (masked-IsDigit (c / 2 ^ 4)) (masked-IsDigit c)
          ∙ ap (λ v. store_utf8 v ++ run utf8 rest (resting value 4)) same,
    )

Read-two : (c : ℕ) → c < 128 → store_utf8 c ≡ c ∷ [] → Read c (append_hex_8 c (b'%' ∷ []))
unfolding Read resting
Read-two c h one rest s e =
    let value : ℕ = c / 16 * 16 + bit_and c 15 in
    let same : value % 256 ≡ c = omega (arith, bit_and_15 c) in
    (
      resting value s.js_cnt,
      refl,
      run-two utf8 s _ _ _ _ rest (hex-IsDigit (c / 16) (omega arith)) (masked-IsDigit c)
          ∙ ap (λ bytes. bytes ++ run utf8 rest (resting value s.js_cnt))
              (ap (λ v. v ∷ []) same ∙ sym one),
    )

Read-one : (c : ℕ) → need_escape c ≡ false → store_utf8 c ≡ c ∷ [] → Read c (c ∷ [])
unfolding Read
Read-one c h one rest s e = (
  enter escape_rest s,
  refl,
  run-one utf8 s c rest e (as_is c h)
      ∙ ap (λ bytes. bytes ++ run utf8 rest (enter escape_rest s)) (sym one),
)

-- The characters below 128 are stored and read as they are.
store_utf8-ascii : (c : ℕ) → 1 ≤ c → c < 128 → store_utf8 c ≡ c ∷ []
unfolding store_utf8 encoded_bytes first_byte_mark spit_bytes
store_utf8-ascii c h k =
    let zero_test : (c == 0) ≡ false = ground arith in
    let small : ltb c 0x80 ≡ true = ground arith in
    rw (zero_test, small) (ap (λ v. v ∷ []) (omega (arith, bit_or-zero c)))

read_utf8_char-ascii :
    (c : ℕ) (rest : List ℕ)
    → 1 ≤ c
    → c < 128
    → read_utf8_char (c ∷ rest) ≡ some (record { size = 1; first = c; code = c }, rest)
unfolding read_utf8_char
read_utf8_char-ascii c rest h k =
    let zero_test : (c == 0) ≡ false = ground arith in
    let small : leb c 127 ≡ true = ground arith in rw (zero_test, small) refl

-- How a character that was stored is read, and that what `escape_char` makes of it is read back.
Escaped : ℕ → List ℕ → Type 0
Escaped c rest =
    (ch : Char) × (read_utf8_char (store_utf8 c ++ rest) ≡ some (ch, rest))
    × Read c (escape_char ch)

Escaped-ascii : (c : ℕ) (rest : List ℕ) → 1 ≤ c → c < 128 → Escaped c rest
unfolding Escaped escape_char
Escaped-ascii c rest h k =
    let one = store_utf8-ascii c h k in
    (
      record { size = 1; first = c; code = c },
      ap (λ bytes. read_utf8_char (bytes ++ rest)) one ∙ read_utf8_char-ascii c rest h k,
      if_cases (Read c) (not (c == 0))
          (λ e. if_cases (Read c) (need_escape c) (λ f. Read-two c k one) (λ f. Read-one c f one))
          (λ e. absurd (ground arith)),
    )

many-bytes : (c : ℕ) → 128 ≤ c → (encoded_bytes c == 1) ≢ true
unfolding encoded_bytes
many-bytes c h e = ground arith

Escaped-many : (c : ℕ) (rest : List ℕ) → 128 ≤ c → c < 2 ^ 16 → Escaped c rest
unfolding Escaped escape_char
Escaped-many c rest h k =
    let w = store_utf8-Written c rest (omega arith, omega arith) in
    (
      record { size = encoded_bytes c; first = w.first_byte; code = c },
      w.reads,
      if_cases (Read c) (encoded_bytes c == 1) (λ e. absurd (many-bytes c h e))
          (λ e. Read-four c k),
    )

escaped : (c : ℕ) (rest : List ℕ) → IsShort c → Escaped c rest
unfolding IsShort
escaped c rest (h, k) = elim (Bool-cases (ltb c 128)) [
  | inl t ↦ Escaped-ascii c rest h (ltb→lt c 128 t)
  | inr t ↦ Escaped-many c rest (ground arith) k
]

iterate-read :
    (src : List ℕ) {ch : Char} {rest : List ℕ} (rounds : ℕ)
    → read_utf8_char src ≡ some (ch, rest)
    → iterate (suc rounds) src ≡ ch ∷ iterate rounds rest
unfolding iterate
iterate-read src rounds e = rw (iterate, e) refl

-- All the characters, from a state between two of them.
run-write_all :
    (cs : List ℕ) (rounds : ℕ) (s : Unescape)
    → All IsShort cs
    → length cs ≤ rounds
    → s.escape_state ≡ escape_rest
    → run utf8 (write_all escape_char (iterate rounds (encoded_text cs))) s ≡ encoded_text cs
unfolding write_all iterate read_utf8_char unescape_loop Read Escaped
run-write_all [] zero s hs h e = refl
run-write_all [] (suc rounds) s hs h e = refl
run-write_all (c ∷ cs) zero s hs h e = absurd (omega arith)
run-write_all (c ∷ cs) (suc rounds) s (hc, hs) h e =
    let (ch, reads, read) = escaped c (encoded_text cs) hc in
    let (t, rests, runs) = read (write_all escape_char (iterate rounds (encoded_text cs))) s e in
    ap (λ chars. run utf8 (write_all escape_char chars) s)
      (iterate-read (store_utf8 c ++ encoded_text cs) rounds reads)
    ∙ (runs
        ∙ ap (λ bytes. store_utf8 c ++ bytes) (run-write_all cs rounds t hs (omega arith) rests))

short-IsCode : (c : ℕ) → IsShort c → IsCode c
unfolding IsShort
short-IsCode c h = (omega arith, omega arith)

-- Any text of characters from 1 to 0xFFFF in UTF-8 is escaped by `escape`, which returns, to what
-- `unescape_chars` with that charset and `js` reads back as the same bytes.
pub unescape_chars-escape :
    (cs : List ℕ)
    → All IsShort cs
    → Returns
        (λ out. unescape_chars out (some utf8) true ≡ encoded_text cs)
        (escape (encoded_text cs) utf8)
unfolding unescape_chars
unescape_chars-escape cs hs = (
  write_all escape_char (utf8_chars (encoded_text cs)),
  escape-write_all (encoded_text cs),
  run-write_all cs (length (encoded_text cs)) initial hs
      (length-le-encoded_text cs (All-map short-IsCode cs hs)) refl,
)
