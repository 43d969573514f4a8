-- ===== src/Charset/Utf8/Sequences.antt =====
-- The characters of two to six bytes that UTF-8 in src/main/pa_charset.C writes: how each is stored and read.
use parser.Prelude.{
  ℕ, ◌+◌, ◌-◌, ◌/◌, ◌%◌, ◌^◌, ◌≤◌, ◌<◌, ◌≡◌, refl, ap, ◌∙◌, false, some, List, [], ◌∷◌, leb, ◌==◌,
  length, arith,
}
use parser.Charset.Utf8.Bytes.{following_byte, first_C0, first_E0, first_F0, first_F8, first_fc}
use parser.Charset.Utf8.{
  trailing_bytes, utf_offset, join_bytes, read_utf8_char, encoded_bytes, spit_bytes, store_utf8,
}

abbrev pub low6 : ℕ → ℕ
low6 a = 128 + a % 64

pub encoded_1 : (c : ℕ) → 0x1 ≤ c → c < 0x80 → encoded_bytes c ≡ 1
unfolding encoded_bytes
encoded_1 c lo hi = ground arith

pub encoded_2 : (c : ℕ) → 0x80 ≤ c → c < 0x800 → encoded_bytes c ≡ 2
unfolding encoded_bytes
encoded_2 c lo hi = ground arith

pub trailing_2 : (c : ℕ) → 0x80 ≤ c → c < 0x800 → trailing_bytes (0xC0 + c / 64) ≡ 1
unfolding trailing_bytes
trailing_2 c lo hi = ground arith

pub encoded_3 : (c : ℕ) → 0x800 ≤ c → c < 0x10000 → encoded_bytes c ≡ 3
unfolding encoded_bytes
encoded_3 c lo hi = ground arith

pub trailing_3 : (c : ℕ) → 0x800 ≤ c → c < 0x10000 → trailing_bytes (0xE0 + c / 64 / 64) ≡ 2
unfolding trailing_bytes
trailing_3 c lo hi = ground arith

pub encoded_4 : (c : ℕ) → 0x10000 ≤ c → c < 0x200000 → encoded_bytes c ≡ 4
unfolding encoded_bytes
encoded_4 c lo hi = ground arith

pub trailing_4 : (c : ℕ) → 0x10000 ≤ c → c < 0x200000 → trailing_bytes (0xF0 + c / 64 / 64 / 64) ≡ 3
unfolding trailing_bytes
trailing_4 c lo hi = ground arith

pub encoded_5 : (c : ℕ) → 0x200000 ≤ c → c < 0x4000000 → encoded_bytes c ≡ 5
unfolding encoded_bytes
encoded_5 c lo hi = ground arith

pub trailing_5 :
    (c : ℕ) → 0x200000 ≤ c → c < 0x4000000 → trailing_bytes (0xF8 + c / 64 / 64 / 64 / 64) ≡ 4
unfolding trailing_bytes
trailing_5 c lo hi = ground arith

pub encoded_6 : (c : ℕ) → 0x4000000 ≤ c → c < 0x80000000 → encoded_bytes c ≡ 6
unfolding encoded_bytes
encoded_6 c lo hi = ground arith

pub trailing_6 :
    (c : ℕ)
    → 0x4000000 ≤ c
    → c < 0x80000000
    → trailing_bytes (0xFC + c / 64 / 64 / 64 / 64 / 64) ≡ 5
unfolding trailing_bytes
trailing_6 c lo hi = ground arith

-- How a character of many bytes is read, from its first byte and the value of its bytes.
pub read_many :
    (t b v : ℕ) (bs rest : List ℕ)
    → trailing_bytes b ≡ t
    → join_bytes t 0 (b ∷ bs) ≡ (v, rest)
    → 127 < b
    → t ≤ length bs
    → read_utf8_char (b ∷ bs)
      ≡ some (record { size = t + 1; first = b; code = (v + 2 ^ 32 - utf_offset t) % 2 ^ 32 }, rest)
unfolding read_utf8_char
read_many t b v bs rest e run big enough =
    let zero_test : (b == 0) ≡ false = ground arith in
    let ascii_test : leb b 127 ≡ false = ground arith in
    let short_test : leb (length (b ∷ bs)) t ≡ false = ground arith in
    rw (e, run, zero_test, ascii_test, short_test) refl

-- Characters of 2 bytes.
pub store_2 : (c : ℕ) → 0x80 ≤ c → c < 0x800 → store_utf8 c ≡ (0xC0 + c / 64) ∷ low6 c ∷ []
unfolding store_utf8 spit_bytes
store_2 c lo hi =
    let e : encoded_bytes c ≡ 2 = encoded_2 c lo hi in
    let z : (c == 0) ≡ false = ground arith in
    let mark = first_C0 (c / 64) (omega arith) in rw (e, z, mark, following_byte c) refl

pub read_2 :
    (c : ℕ) (rest : List ℕ)
    → 0x80 ≤ c
    → c < 0x800
    → read_utf8_char ((0xC0 + c / 64) ∷ low6 c ∷ rest)
      ≡ some (record { size = 2; first = 0xC0 + c / 64; code = c }, rest)
unfolding join_bytes utf_offset
read_2 c rest lo hi =
    let t : trailing_bytes (0xC0 + c / 64) ≡ 1 = trailing_2 c lo hi in
    read_many 1 (0xC0 + c / 64) _ _ rest t refl (omega arith) (omega arith)
    ∙ ap (λ v. some (record { size = 2; first = 0xC0 + c / 64; code = v }, rest)) (omega arith)

-- Characters of 3 bytes.
pub store_3 :
    (c : ℕ)
    → 0x800 ≤ c
    → c < 0x10000
    → store_utf8 c ≡ (0xE0 + c / 64 / 64) ∷ low6 (c / 64) ∷ low6 c ∷ []
unfolding store_utf8 spit_bytes
store_3 c lo hi =
    let e : encoded_bytes c ≡ 3 = encoded_3 c lo hi in
    let z : (c == 0) ≡ false = ground arith in
    let mark = first_E0 (c / 64 / 64) (omega arith) in
    rw (e, z, mark, following_byte c, following_byte (c / 64)) refl

pub read_3 :
    (c : ℕ) (rest : List ℕ)
    → 0x800 ≤ c
    → c < 0x10000
    → read_utf8_char ((0xE0 + c / 64 / 64) ∷ low6 (c / 64) ∷ low6 c ∷ rest)
      ≡ some (record { size = 3; first = 0xE0 + c / 64 / 64; code = c }, rest)
unfolding join_bytes utf_offset
read_3 c rest lo hi =
    let t : trailing_bytes (0xE0 + c / 64 / 64) ≡ 2 = trailing_3 c lo hi in
    read_many 2 (0xE0 + c / 64 / 64) _ _ rest t refl (omega arith) (omega arith)
    ∙ ap (λ v. some (record { size = 3; first = 0xE0 + c / 64 / 64; code = v }, rest)) (omega arith)

-- Characters of 4 bytes.
pub store_4 :
    (c : ℕ)
    → 0x10000 ≤ c
    → c < 0x200000
    → store_utf8 c ≡ (0xF0 + c / 64 / 64 / 64) ∷ low6 (c / 64 / 64) ∷ low6 (c / 64) ∷ low6 c ∷ []
unfolding store_utf8 spit_bytes
store_4 c lo hi =
    let e : encoded_bytes c ≡ 4 = encoded_4 c lo hi in
    let z : (c == 0) ≡ false = ground arith in
    let mark = first_F0 (c / 64 / 64 / 64) (omega arith) in
    rw (e, z, mark, following_byte c, following_byte (c / 64), following_byte (c / 64 / 64)) refl

pub read_4 :
    (c : ℕ) (rest : List ℕ)
    → 0x10000 ≤ c
    → c < 0x200000
    → read_utf8_char
        ((0xF0 + c / 64 / 64 / 64) ∷ low6 (c / 64 / 64) ∷ low6 (c / 64) ∷ low6 c ∷ rest)
      ≡ some (record { size = 4; first = 0xF0 + c / 64 / 64 / 64; code = c }, rest)
unfolding join_bytes utf_offset
read_4 c rest lo hi =
    let t : trailing_bytes (0xF0 + c / 64 / 64 / 64) ≡ 3 = trailing_4 c lo hi in
    read_many 3 (0xF0 + c / 64 / 64 / 64) _ _ rest t refl (omega arith) (omega arith)
    ∙ ap (λ v. some (record { size = 4; first = 0xF0 + c / 64 / 64 / 64; code = v }, rest))
        (omega arith)

-- Characters of 5 bytes.
pub store_5 :
    (c : ℕ)
    → 0x200000 ≤ c
    → c < 0x4000000
    → store_utf8 c
      ≡ (0xF8 + c / 64 / 64 / 64 / 64)
        ∷ low6 (c / 64 / 64 / 64)
        ∷ low6 (c / 64 / 64)
        ∷ low6 (c / 64)
        ∷ low6 c
        ∷ []
unfolding store_utf8 spit_bytes
store_5 c lo hi =
    let e : encoded_bytes c ≡ 5 = encoded_5 c lo hi in
    let z : (c == 0) ≡ false = ground arith in
    let mark = first_F8 (c / 64 / 64 / 64 / 64) (omega arith) in
    rw
      (
        e,
        z,
        mark,
        following_byte c,
        following_byte (c / 64),
        following_byte (c / 64 / 64),
        following_byte (c / 64 / 64 / 64),
      )
      refl

pub read_5 :
    (c : ℕ) (rest : List ℕ)
    → 0x200000 ≤ c
    → c < 0x4000000
    → read_utf8_char (
        (0xF8 + c / 64 / 64 / 64 / 64)
        ∷ low6 (c / 64 / 64 / 64)
        ∷ low6 (c / 64 / 64)
        ∷ low6 (c / 64)
        ∷ low6 c
        ∷ rest)
      ≡ some (record { size = 5; first = 0xF8 + c / 64 / 64 / 64 / 64; code = c }, rest)
unfolding join_bytes utf_offset
read_5 c rest lo hi =
    let t : trailing_bytes (0xF8 + c / 64 / 64 / 64 / 64) ≡ 4 = trailing_5 c lo hi in
    read_many 4 (0xF8 + c / 64 / 64 / 64 / 64) _ _ rest t refl (omega arith) (omega arith)
    ∙ ap (λ v. some (record { size = 5; first = 0xF8 + c / 64 / 64 / 64 / 64; code = v }, rest))
        (omega arith)

-- Characters of 6 bytes.
pub store_6 :
    (c : ℕ)
    → 0x4000000 ≤ c
    → c < 0x80000000
    → store_utf8 c
      ≡ (0xFC + c / 64 / 64 / 64 / 64 / 64)
        ∷ low6 (c / 64 / 64 / 64 / 64)
        ∷ low6 (c / 64 / 64 / 64)
        ∷ low6 (c / 64 / 64)
        ∷ low6 (c / 64)
        ∷ low6 c
        ∷ []
unfolding store_utf8 spit_bytes
store_6 c lo hi =
    let e : encoded_bytes c ≡ 6 = encoded_6 c lo hi in
    let z : (c == 0) ≡ false = ground arith in
    let mark = first_fc (c / 64 / 64 / 64 / 64 / 64) (omega arith) in
    rw
      (
        e,
        z,
        mark,
        following_byte c,
        following_byte (c / 64),
        following_byte (c / 64 / 64),
        following_byte (c / 64 / 64 / 64),
        following_byte (c / 64 / 64 / 64 / 64),
      )
      refl

pub read_6 :
    (c : ℕ) (rest : List ℕ)
    → 0x4000000 ≤ c
    → c < 0x80000000
    → read_utf8_char (
        (0xFC + c / 64 / 64 / 64 / 64 / 64)
        ∷ low6 (c / 64 / 64 / 64 / 64)
        ∷ low6 (c / 64 / 64 / 64)
        ∷ low6 (c / 64 / 64)
        ∷ low6 (c / 64)
        ∷ low6 c
        ∷ rest)
      ≡ some (record { size = 6; first = 0xFC + c / 64 / 64 / 64 / 64 / 64; code = c }, rest)
unfolding join_bytes utf_offset
read_6 c rest lo hi =
    let t : trailing_bytes (0xFC + c / 64 / 64 / 64 / 64 / 64) ≡ 5 = trailing_6 c lo hi in
    read_many 5 (0xFC + c / 64 / 64 / 64 / 64 / 64) _ _ rest t refl (omega arith) (omega arith)
    ∙ ap
        (λ v. some (record { size = 6; first = 0xFC + c / 64 / 64 / 64 / 64 / 64; code = v }, rest))
        (omega arith)
