-- ===== src/Charset/Utf8/Positions.antt =====
-- Positions in bytes and in characters of src/main/pa_charset.C, in a text that `store_UTF8` wrote.
use parser.Prelude.{
  ℕ, zero, suc, ◌+◌, ◌≤◌, ◌<◌, ◌≡◌, refl, ap, ◌∙◌, true, false, none, some, List, [], ◌∷◌, ◌++◌,
  ltb, length, take, arith, All, length-append,
}
use parser.Charset.Utf8.{
  skip_utf8_char, encoded_bytes, store_utf8, length_loop, length_utf8, byte_pos, char_pos_loop,
  char_pos,
}
use parser.Charset.Utf8.RoundTrip.{IsCode, store_utf8-Written}

-- The bytes of a text of characters.
abbrev pub encoded_text : List ℕ → List ℕ
encoded_text [] = []
encoded_text (c ∷ cs) = store_utf8 c ++ encoded_text cs

encoded_bytes_pos : (c : ℕ) → IsCode c → 1 ≤ encoded_bytes c
unfolding encoded_bytes
encoded_bytes_pos c h = ground arith

pub length-le-encoded_text : (cs : List ℕ) → All IsCode cs → length cs ≤ length (encoded_text cs)
length-le-encoded_text [] h = omega arith
length-le-encoded_text (c ∷ cs) (h, hs) = omega (
  arith,
  length-append (store_utf8 c) (encoded_text cs),
  (store_utf8-Written c [] h).size,
  encoded_bytes_pos c h,
  length-le-encoded_text cs hs,
)

skip_nil : skip_utf8_char [] ≡ none
unfolding skip_utf8_char
skip_nil = refl

length_loop-encoded_text :
    (rounds : ℕ) (cs : List ℕ)
    → length cs ≤ rounds
    → All IsCode cs
    → length_loop rounds (encoded_text cs) ≡ length cs
unfolding length_loop
length_loop-encoded_text zero [] h _ = refl
length_loop-encoded_text (suc rounds) [] h _ = rw (length_loop, skip_nil) refl
length_loop-encoded_text zero (c ∷ cs) h _ = absurd (omega arith)
length_loop-encoded_text (suc rounds) (c ∷ cs) h (code, codes) =
    let w = store_utf8-Written c (encoded_text cs) code in
    rw (length_loop, w.skips) (ap suc (length_loop-encoded_text rounds cs (omega arith) codes))

byte_pos-encoded_text :
    (n : ℕ) (cs : List ℕ)
    → n ≤ length cs
    → All IsCode cs
    → byte_pos n (encoded_text cs) ≡ length (encoded_text (take n cs))
unfolding byte_pos
byte_pos-encoded_text zero cs h _ = refl
byte_pos-encoded_text (suc n) [] h _ = absurd (omega arith)
byte_pos-encoded_text (suc n) (c ∷ cs) h (code, codes) =
    let w = store_utf8-Written c (encoded_text cs) code in
    let ih = byte_pos-encoded_text n cs (omega arith) codes in
    rw (byte_pos, w.skips, ih)
      (omega (arith, length-append (store_utf8 c) (encoded_text (take n cs)), w.size))

char_pos_loop-encoded_text :
    (rounds ptr stop chars n : ℕ) (cs : List ℕ)
    → length cs ≤ rounds
    → n < length cs
    → All IsCode cs
    → stop ≡ ptr + length (encoded_text (take n cs))
    → char_pos_loop rounds ptr stop chars (encoded_text cs) ≡ some (chars + n)
unfolding char_pos_loop
char_pos_loop-encoded_text rounds ptr stop chars n [] h g _ e = absurd (omega arith)
char_pos_loop-encoded_text zero ptr stop chars n (c ∷ cs) h g _ e = absurd (omega arith)
char_pos_loop-encoded_text (suc rounds) ptr stop chars zero (c ∷ cs) h g (code, codes) e =
    let w = store_utf8-Written c (encoded_text cs) code in
    let one = encoded_bytes_pos c code in
    let past : ltb stop (ptr + encoded_bytes c) ≡ true = ground arith in
    rw (char_pos_loop, w.skips, past) (ap some (omega arith))
char_pos_loop-encoded_text (suc rounds) ptr stop chars (suc n) (c ∷ cs) h g (code, codes) e =
    let w = store_utf8-Written c (encoded_text cs) code in
    let size = length-append (store_utf8 c) (encoded_text (take n cs)) in
    let there : stop ≡ ptr + encoded_bytes c + length (encoded_text (take n cs)) =
      omega (arith, size, w.size) in
    let before : ltb stop (ptr + encoded_bytes c) ≡ false = ground (arith, there) in
    rw (char_pos_loop, w.skips, before)
      (char_pos_loop-encoded_text rounds (ptr + encoded_bytes c) stop (chars + 1) n cs (omega arith)
          (omega arith) codes there
        ∙ ap some (omega arith))

-- In a text of characters `lengthUTF8` counts the characters, and for a character that is there
-- `getUTF8BytePos` finds the bytes in front of it and `getUTF8CharPos` its position again.
pub char_pos-byte_pos :
    (n : ℕ) (cs : List ℕ)
    → n < length cs
    → All IsCode cs
    → (length_utf8 (encoded_text cs) ≡ length cs)
      × (byte_pos n (encoded_text cs) ≡ length (encoded_text (take n cs)))
      × (char_pos (byte_pos n (encoded_text cs)) (encoded_text cs) ≡ some n)
unfolding length_utf8 char_pos
char_pos-byte_pos n cs h codes =
    let enough = length-le-encoded_text cs codes in
    let at = byte_pos-encoded_text n cs (omega arith) codes in
    (
      length_loop-encoded_text (length (encoded_text cs)) cs enough codes,
      at,
      char_pos_loop-encoded_text (length (encoded_text cs)) 0 (byte_pos n (encoded_text cs)) 0 n cs
            enough h codes (omega (arith, at))
          ∙ ap some (omega arith),
    )
