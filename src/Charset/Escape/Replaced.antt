-- ===== src/Charset/Escape/Replaced.antt =====
-- The bytes of a text in a table charset that the loops of `escape` and `escape_JSON` of
-- src/main/pa_charset.C replace.
use parser.Prelude.{
  ℕ, ◌+◌, ◌<◌, ◌≤◌, ◌≡◌, ◌≢◌, refl, ap, ◌∙◌, inl, inr, Bool-cases, true, false, some, List, [], ◌∷◌,
  ltb, ◌==◌, if◌then◌else◌, get_or, arith,
}
use parser.Charset.Utf8.{Char, encoded_bytes}
use parser.Charset.Tables.{Tables, read_char, table_chars}
use parser.Charset.Escape.{Charset, utf8, single_byte, add_all}

-- A character of one byte that is replaced has the first byte 0.
unfoldable pub is_replaced : Char → ℕ
is_replaced ch = if ch.size == 1 then if ch.first == 0 then 1 else 0 else 0

-- How many bytes, up to a zero byte, have a number in the table that is above every code of UTF-8.
unfoldable pub beyond_utf8 : List ℕ → List ℕ → ℕ
beyond_utf8 table [] = 0
beyond_utf8 table (b ∷ bs) =
    if b == 0
    then 0
    else (if ltb 0x7FFFFFFF (get_or table b 0) then 1 else 0) + beyond_utf8 table bs

unfoldable pub replaced_chars : List ℕ → Charset → ℕ
unfolding beyond_utf8
replaced_chars src utf8 = 0
replaced_chars src (single_byte tables) = beyond_utf8 tables.from_table src

encoded_bytes-beyond : (code : ℕ) → 0x7FFFFFFF < code → encoded_bytes code ≡ 0
unfolding encoded_bytes
encoded_bytes-beyond code h = ground arith

encoded_bytes-within : (code : ℕ) → code ≤ 0x7FFFFFFF → encoded_bytes code ≢ 0
unfolding encoded_bytes
encoded_bytes-within code h e = ground arith

-- The first character of a text, and the list of the characters with it.
module _ (tables : Tables) (b : ℕ) (bs : List ℕ) (apart : (b == 0) ≡ false) where
  abbrev code : ℕ
  code = get_or tables.from_table b 0

  read_char-beyond :
      0x7FFFFFFF < code
      → read_char tables (b ∷ bs) ≡ some (record { size = 1; first = 0; code = code }, bs)
  unfolding read_char
  read_char-beyond h = rw (apart, encoded_bytes-beyond code h) refl

  read_char-within :
      code ≤ 0x7FFFFFFF
      → read_char tables (b ∷ bs)
        ≡ some (record { size = encoded_bytes code; first = b; code = code }, bs)
  unfolding read_char
  read_char-within h =
      let there = encoded_bytes-within code h in
      let some_bytes : (encoded_bytes code == 0) ≡ false = ground arith in
      rw (apart, some_bytes) refl

table_chars-some :
    (tables : Tables) (b : ℕ) (bs : List ℕ) (ch : Char) (rest : List ℕ)
    → read_char tables (b ∷ bs) ≡ some (ch, rest)
    → table_chars tables (b ∷ bs) ≡ ch ∷ table_chars tables bs
unfolding table_chars
table_chars-some tables b bs ch rest e = rw (table_chars, e) refl

add_head :
    (ch : Char) (chars : List Char) (n : ℕ)
    → is_replaced ch ≡ n
    → add_all is_replaced (ch ∷ chars) ≡ n + add_all is_replaced chars
unfolding add_all
add_head ch chars n h = rw h refl

replaced-first : (number : ℕ) → is_replaced (record { size = 1; first = 0; code = number }) ≡ 1
unfolding is_replaced
replaced-first number = refl

not-replaced :
    (n b number : ℕ)
    → (b == 0) ≡ false
    → is_replaced (record { size = n; first = b; code = number }) ≡ 0
unfolding is_replaced
not-replaced n b number h = ground arith

beyond_head :
    (table : List ℕ) (b : ℕ) (bs : List ℕ)
    → (b == 0) ≡ false
    → beyond_utf8 table (b ∷ bs)
      ≡ (if ltb 0x7FFFFFFF (get_or table b 0) then 1 else 0) + beyond_utf8 table bs
unfolding beyond_utf8
beyond_head table b bs apart = rw apart refl

table_chars-nul :
    (tables : Tables) (b : ℕ) (bs : List ℕ) → (b == 0) ≡ true → table_chars tables (b ∷ bs) ≡ []
unfolding table_chars read_char
table_chars-nul tables b bs h = rw (table_chars, h) refl

nul_head : (table : List ℕ) (b : ℕ) (bs : List ℕ) → (b == 0) ≡ true → beyond_utf8 table (b ∷ bs) ≡ 0
unfolding beyond_utf8
nul_head table b bs h = rw h refl

-- These are the characters that the loops replace.
pub replaced_in_table :
    (tables : Tables) (src : List ℕ)
    → add_all is_replaced (table_chars tables src) ≡ beyond_utf8 tables.from_table src
replaced_in_table tables [] = unfold add_all table_chars beyond_utf8 in refl
replaced_in_table tables (b ∷ bs) = elim (Bool-cases (b == 0)) [
  | inl nul ↦
      rw (table_chars-nul tables b bs nul, nul_head tables.from_table b bs nul)
        (unfold add_all in refl)
  | inr apart ↦ elim (Bool-cases (ltb 0x7FFFFFFF (get_or tables.from_table b 0))) [
    | inl beyond ↦
        let read = read_char-beyond tables b bs apart (ground arith) in
        rw
          (table_chars-some tables b bs _ bs read, beyond_head tables.from_table b bs apart, beyond)
          (add_head _ _ 1 (replaced-first _) ∙ ap (λ n. 1 + n) (replaced_in_table tables bs))
    | inr within ↦
        let read = read_char-within tables b bs apart (ground arith) in
        rw
          (table_chars-some tables b bs _ bs read, beyond_head tables.from_table b bs apart, within)
          (add_head _ _ 0 (not-replaced _ b _ apart)
            ∙ ap (λ n. 0 + n) (replaced_in_table tables bs))
  ]
]
