-- ===== src/Charset/Utf8/RoundTrip.antt =====
-- A character that UTF-8 in src/main/pa_charset.C writes is read back.
use parser.Prelude.{
  ℕ, ◌+◌, ◌/◌, ◌%◌, ◌^◌, ◌≤◌, ◌<◌, ◌≡◌, refl, sym, ap, ◌∙◌, bit_or, true, false, some, List, [],
  ◌∷◌, ◌++◌, ltb, leb, ◌==◌, Bool-cases, inl, inr, length, drop, arith,
}
use parser.Prelude.Bits.{bit_or-zero}
use parser.Charset.Utf8.{
  trailing_bytes, read_utf8_char, skip_utf8_char, encoded_bytes, spit_bytes, store_utf8,
}
use parser.Charset.Utf8.Sequences.{
  low6, encoded_1, encoded_2, trailing_2, encoded_3, trailing_3, encoded_4, trailing_4, encoded_5,
  trailing_5, encoded_6, trailing_6, store_2, read_2, store_3, read_3, store_4, read_4, store_5,
  read_5, store_6, read_6,
}

-- A character that has an encoding.
abbrev pub IsCode : ℕ → Type 0
IsCode c = (1 ≤ c) × (c < 2 ^ 31)

-- What is read and skipped where a character was written, with its first byte.
pub record Written (c : ℕ) (rest : List ℕ) : Type 0 where
  pub first_byte : ℕ
  pub reads :
      read_utf8_char (store_utf8 c ++ rest)
      ≡ some (record { size = encoded_bytes c; first = first_byte; code = c }, rest)
  pub skips : skip_utf8_char (store_utf8 c ++ rest) ≡ some (encoded_bytes c, rest)
  pub size : length (store_utf8 c) ≡ encoded_bytes c

skip_many :
    (t b : ℕ) (bs : List ℕ)
    → trailing_bytes b ≡ t
    → 0 < b
    → skip_utf8_char (b ∷ bs) ≡ some (t + 1, drop t bs)
unfolding skip_utf8_char
skip_many t b bs e big = let zero_test : (b == 0) ≡ false = ground arith in rw (e, zero_test) refl

written :
    (n f c : ℕ) (bs rest : List ℕ)
    → encoded_bytes c ≡ n
    → store_utf8 c ≡ bs
    → read_utf8_char (bs ++ rest) ≡ some (record { size = n; first = f; code = c }, rest)
    → skip_utf8_char (bs ++ rest) ≡ some (n, rest)
    → length bs ≡ n
    → Written c rest
written n f c bs rest e st rd sk size = record {
  first_byte = f;
  reads =
      ap (λ t. read_utf8_char (t ++ rest)) st
      ∙ rd
      ∙ ap (λ k. some (record { size = k; first = f; code = c }, rest)) (sym e);
  skips = ap (λ t. skip_utf8_char (t ++ rest)) st ∙ sk ∙ ap (λ k. some (k, rest)) (sym e);
  size = ap length st ∙ size ∙ sym e;
}

store_1 : (c : ℕ) → 1 ≤ c → c < 0x80 → store_utf8 c ≡ c ∷ []
unfolding store_utf8 spit_bytes
store_1 c lo hi =
    let e : encoded_bytes c ≡ 1 = encoded_1 c lo hi in
    let z : (c == 0) ≡ false = ground arith in
    let same : bit_or c 0 % 256 ≡ c = omega (arith, bit_or-zero c) in rw (e, z, same) refl

read_1 :
    (c : ℕ) (rest : List ℕ)
    → 1 ≤ c
    → c < 0x80
    → read_utf8_char (c ∷ rest) ≡ some (record { size = 1; first = c; code = c }, rest)
unfolding read_utf8_char
read_1 c rest lo hi =
    let zero_test : (c == 0) ≡ false = ground arith in
    let ascii_test : leb c 127 ≡ true = ground arith in rw (zero_test, ascii_test) refl

trailing_1 : (c : ℕ) → c < 0x80 → trailing_bytes c ≡ 0
unfolding trailing_bytes
trailing_1 c hi = ground arith

bytes_1 : (c : ℕ) (rest : List ℕ) → 0x1 ≤ c → c < 0x80 → Written c rest
bytes_1 c rest lo hi =
    written 1 c c (c ∷ []) rest (encoded_1 c lo hi) (store_1 c lo hi) (read_1 c rest lo hi)
      (skip_many 0 c (rest) (trailing_1 c hi) (omega arith)) refl

bytes_2 : (c : ℕ) (rest : List ℕ) → 0x80 ≤ c → c < 0x800 → Written c rest
bytes_2 c rest lo hi =
    written 2 (0xC0 + c / 64) c ((0xC0 + c / 64) ∷ low6 c ∷ []) rest (encoded_2 c lo hi)
      (store_2 c lo hi) (read_2 c rest lo hi)
      (skip_many 1 (0xC0 + c / 64) (low6 c ∷ rest) (trailing_2 c lo hi) (omega arith)) refl

bytes_3 : (c : ℕ) (rest : List ℕ) → 0x800 ≤ c → c < 0x10000 → Written c rest
bytes_3 c rest lo hi =
    written 3 (0xE0 + c / 64 / 64) c ((0xE0 + c / 64 / 64) ∷ low6 (c / 64) ∷ low6 c ∷ []) rest
      (encoded_3 c lo hi) (store_3 c lo hi) (read_3 c rest lo hi)
      (skip_many 2 (0xE0 + c / 64 / 64) (low6 (c / 64) ∷ low6 c ∷ rest) (trailing_3 c lo hi)
        (omega arith))
      refl

bytes_4 : (c : ℕ) (rest : List ℕ) → 0x10000 ≤ c → c < 0x200000 → Written c rest
bytes_4 c rest lo hi =
    written 4 (0xF0 + c / 64 / 64 / 64) c
      ((0xF0 + c / 64 / 64 / 64) ∷ low6 (c / 64 / 64) ∷ low6 (c / 64) ∷ low6 c ∷ []) rest
      (encoded_4 c lo hi) (store_4 c lo hi) (read_4 c rest lo hi)
      (skip_many 3 (0xF0 + c / 64 / 64 / 64) (low6 (c / 64 / 64) ∷ low6 (c / 64) ∷ low6 c ∷ rest)
        (trailing_4 c lo hi) (omega arith))
      refl

bytes_5 : (c : ℕ) (rest : List ℕ) → 0x200000 ≤ c → c < 0x4000000 → Written c rest
bytes_5 c rest lo hi =
    written 5 (0xF8 + c / 64 / 64 / 64 / 64) c
      ((0xF8 + c / 64 / 64 / 64 / 64)
        ∷ low6 (c / 64 / 64 / 64)
        ∷ low6 (c / 64 / 64)
        ∷ low6 (c / 64)
        ∷ low6 c
        ∷ [])
      rest (encoded_5 c lo hi) (store_5 c lo hi) (read_5 c rest lo hi)
      (skip_many 4 (0xF8 + c / 64 / 64 / 64 / 64)
        (low6 (c / 64 / 64 / 64) ∷ low6 (c / 64 / 64) ∷ low6 (c / 64) ∷ low6 c ∷ rest)
        (trailing_5 c lo hi) (omega arith))
      refl

bytes_6 : (c : ℕ) (rest : List ℕ) → 0x4000000 ≤ c → c < 0x80000000 → Written c rest
bytes_6 c rest lo hi =
    written 6 (0xFC + c / 64 / 64 / 64 / 64 / 64) c
      ((0xFC + c / 64 / 64 / 64 / 64 / 64)
        ∷ low6 (c / 64 / 64 / 64 / 64)
        ∷ low6 (c / 64 / 64 / 64)
        ∷ low6 (c / 64 / 64)
        ∷ low6 (c / 64)
        ∷ low6 c
        ∷ [])
      rest (encoded_6 c lo hi) (store_6 c lo hi) (read_6 c rest lo hi)
      (skip_many 5 (0xFC + c / 64 / 64 / 64 / 64 / 64)
        (low6 (c / 64 / 64 / 64 / 64)
          ∷ low6 (c / 64 / 64 / 64)
          ∷ low6 (c / 64 / 64)
          ∷ low6 (c / 64)
          ∷ low6 c
          ∷ rest)
        (trailing_6 c lo hi) (omega arith))
      refl

-- Whatever follows, a character from 1 to 2 ^ 31 - 1 that `store_UTF8` writes is read back by
-- `readUTF8Char` with its size, and `skipUTF8Char` skips just its bytes.
pub store_utf8-Written : (c : ℕ) (rest : List ℕ) → IsCode c → Written c rest
store_utf8-Written c rest (lo, hi) = elim (Bool-cases (ltb c 0x80)) [
  | inl h ↦ bytes_1 c rest lo (ground arith)
  | inr h1 ↦ elim (Bool-cases (ltb c 0x800)) [
    | inl h ↦ bytes_2 c rest (ground arith) (ground arith)
    | inr h2 ↦ elim (Bool-cases (ltb c 0x10000)) [
      | inl h ↦ bytes_3 c rest (ground arith) (ground arith)
      | inr h3 ↦ elim (Bool-cases (ltb c 0x200000)) [
        | inl h ↦ bytes_4 c rest (ground arith) (ground arith)
        | inr h4 ↦ elim (Bool-cases (ltb c 0x4000000)) [
          | inl h ↦ bytes_5 c rest (ground arith) (ground arith)
          | inr h5 ↦ bytes_6 c rest (ground arith) hi
        ]
      ]
    ]
  ]
]
