-- ===== src/Charset/Transcode/Fits.antt =====
-- What `transcodeFromUTF8` of src/main/pa_charset.C writes, against the length that is calculated.
use parser.Prelude.{
  ℕ, zero, suc, ◌+◌, ◌-◌, ◌*◌, ◌/◌, ◌%◌, ◌^◌, ◌≤◌, ◌<◌, ◌≡◌, ◌≢◌, refl, Bool, true, false, Option,
  none, some, List, [], ◌∷◌, ◌++◌, ltb, leb, ◌==◌, if◌then◌else◌, length, length-append,
  length-take, take, codes, All, ap, if_cases, subst, ltb→lt, arith,
}
use parser.Charset.Utf8.{Char, trailing_bytes, utf_offset, join_bytes, read_utf8_char}
use parser.Charset.Tables.{Tables, xlat_one_to}
use parser.Charset.Escape.{utf8_chars, iterate, add_all}
use parser.Charset.Transcode.{
  decimal, percent_bytes, convert, from_step, from_utf8_loop, dec_num_length, from_utf8_size,
  transcode_from_utf8,
}

length-decimal :
    (rounds k n : ℕ) (acc : List ℕ)
    → n < 10 ^ suc k
    → length (decimal rounds n acc) ≤ suc k + length acc
unfolding decimal
length-decimal zero k n acc h = omega arith
length-decimal (suc rounds) zero n acc h =
    let last : (n / 10 == 0) ≡ true = ground arith in rw last (omega arith)
length-decimal (suc rounds) (suc k) n acc h =
    if_cases (λ ds. length ds ≤ suc (suc k) + length acc) (n / 10 == 0) {x = (n % 10 + b'0') ∷ acc}
      {y = decimal rounds (n / 10) ((n % 10 + b'0') ∷ acc)} (λ e. omega arith)
      (λ e.
        omega (arith, length-decimal rounds k (n / 10) ((n % 10 + b'0') ∷ acc) (omega (arith, h))))

length-percent_bytes : (bs : List ℕ) → length (percent_bytes bs) ≡ 3 * length bs
unfolding percent_bytes
length-percent_bytes [] = refl
length-percent_bytes (b ∷ bs) = omega (arith, length-percent_bytes bs)

length-decimal_16 : (n : ℕ) → n < 2 ^ 16 → length (decimal 10 n []) ≤ dec_num_length n
unfolding dec_num_length
length-decimal_16 n h =
    if_cases (λ m. length (decimal 10 n []) ≤ m) (ltb n 100)
      (λ e. length-decimal 10 1 n [] (ltb→lt n 100 e))
      (λ e.
        if_cases (λ m. length (decimal 10 n []) ≤ m) (ltb n 1000)
          (λ f. length-decimal 10 2 n [] (ltb→lt n 1000 f))
          (λ f.
            if_cases (λ m. length (decimal 10 n []) ≤ m) (ltb n 10000)
              (λ g. length-decimal 10 3 n [] (ltb→lt n 10000 g))
              (λ g. length-decimal 10 4 n [] (omega (arith, h)))))

char_of : ℕ → ℕ → ℕ → Char
char_of size first code = record { size = size; first = first; code = code }

length-convert :
    (tables : Tables) (first code : ℕ) (bytes : List ℕ)
    → length (convert tables code bytes) ≤ from_utf8_size tables (char_of (length bytes) first code)
unfolding convert from_utf8_size char_of
length-convert tables first code bytes =
    by_tests (ltb code (2 ^ 16)) (xlat_one_to code tables 0)
      (λ e. length-decimal_16 code (ltb→lt code (2 ^ 16) e))
  where
    by_tests :
        (short : Bool) (xlat : ℕ)
        → (short ≡ true → length (decimal 10 code []) ≤ dec_num_length code)
        → length (
            if◌then◌else◌ {A = List ℕ} short
              (if xlat == 0 then codes "&#" ++ (decimal 10 code [] ++ codes ";") else xlat ∷ [])
              (percent_bytes bytes))
          ≤ (if short then if xlat == 0 then 3 + dec_num_length code else 1 else 3 * length bytes)
    by_tests true xlat h = by_xlat (xlat == 0)
      where
        by_xlat :
            (missing : Bool)
            → length (
                if◌then◌else◌ {A = List ℕ} missing
                  (codes "&#" ++ (decimal 10 code [] ++ codes ";"))
                  (xlat ∷ []))
              ≤ (if missing then 3 + dec_num_length code else 1)
        by_xlat true = omega (arith, h refl, length-append (decimal 10 code []) (codes ";"))
        by_xlat false = omega arith
    by_tests false xlat h = omega (arith, length-percent_bytes bytes)

join_bytes-All :
    (n acc : ℕ) (bs : List ℕ) → All (λ b. b ≢ 0) bs → All (λ b. b ≢ 0) (join_bytes n acc bs).1
unfolding join_bytes
join_bytes-All zero acc [] hs = tt
join_bytes-All (suc n) acc [] hs = tt
join_bytes-All zero acc (b ∷ bs) (h, hs) = hs
join_bytes-All (suc n) acc (b ∷ bs) (h, hs) = join_bytes-All n ((acc + b) * 64 % 2 ^ 32) bs hs

from_utf8_size-ascii : (tables : Tables) (b : ℕ) → 1 ≤ from_utf8_size tables (char_of 1 b b)
unfolding from_utf8_size char_of
from_utf8_size-ascii tables b = by_tests (ltb b (2 ^ 16)) (xlat_one_to b tables 0 == 0)
  where
    by_tests :
        (short missing : Bool)
        → 1 ≤ (if short then if missing then 3 + dec_num_length b else 1 else 3 * 1)
    by_tests true true = omega arith
    by_tests true false = omega arith
    by_tests false missing = omega arith

-- A round reads what the iterator reads, and writes no more than was calculated for it.
Reads : Tables → Option (List ℕ × List ℕ) → Option (Char × List ℕ) → Type 0
Reads tables none none = Unit
Reads tables (some (written, rest)) (some (ch, left)) =
    (rest ≡ left) × (length written ≤ from_utf8_size tables ch) × All (λ b. b ≢ 0) rest
Reads tables _ _ = ⊥

from_step-Reads :
    (tables : Tables) (src : List ℕ)
    → All (λ b. b ≢ 0) src
    → Reads tables (from_step tables src) (read_utf8_char src)
unfolding from_step read_utf8_char Reads char_of
from_step-Reads tables [] hs = tt
from_step-Reads tables (b ∷ bs) (hb, hs) =
    by_tests (b == 0) (leb b 127) (leb (length (b ∷ bs)) trailing) (ground arith)
      (λ e. length-taken e)
  where
    trailing : ℕ
    trailing = trailing_bytes b

    code : ℕ
    code = ((join_bytes trailing 0 (b ∷ bs)).0 + 2 ^ 32 - utf_offset trailing) % 2 ^ 32

    length-taken :
        leb (length (b ∷ bs)) trailing ≡ false
        → length (take (trailing + 1) (b ∷ bs)) ≡ trailing + 1
    length-taken e =
        let long : trailing < length (b ∷ bs) = ground arith in
        omega (arith, length-take (trailing + 1) (b ∷ bs), long)

    by_tests :
        (is_zero ascii short : Bool)
        → is_zero ≡ false
        → (short ≡ false → length (take (trailing + 1) (b ∷ bs)) ≡ trailing + 1)
        → Reads tables
            (if◌then◌else◌ {A = Option (List ℕ × List ℕ)} ascii (some (b ∷ [], bs)) (
              if short
              then none
              else some (
                convert tables code (take (trailing + 1) (b ∷ bs)),
                (join_bytes trailing 0 (b ∷ bs)).1,
              )))
            (if◌then◌else◌ {A = Option (Char × List ℕ)} is_zero none (
              if ascii
              then some (char_of 1 b b, bs)
              else if short
              then none
              else some (char_of (trailing + 1) b code, (join_bytes trailing 0 (b ∷ bs)).1)))
    by_tests true ascii short e taken = ground arith
    by_tests false true short e taken = (refl, from_utf8_size-ascii tables b, hs)
    by_tests false false true e taken = tt
    by_tests false false false e taken = (
      refl,
      subst
          (λ n.
            length (convert tables code (take (trailing + 1) (b ∷ bs)))
            ≤ from_utf8_size tables (char_of n b code))
          (taken refl) (length-convert tables b code (take (trailing + 1) (b ∷ bs))),
      join_bytes-All trailing 0 (b ∷ bs) (hb, hs),
    )

from_utf8_loop-fits :
    (rounds : ℕ) (tables : Tables) (room used : ℕ) (src : List ℕ)
    → All (λ b. b ≢ 0) src
    → length (from_utf8_loop rounds tables room used src).0
      ≤ add_all (from_utf8_size tables) (iterate rounds src)
unfolding from_utf8_loop add_all iterate Reads
from_utf8_loop-fits zero tables room used src hs = omega arith
from_utf8_loop-fits (suc rounds) tables room used src hs =
    if_cases
      (λ (w : List ℕ × List ℕ).
        length w.0 ≤ add_all (from_utf8_size tables) (iterate (suc rounds) src))
      (leb room used) {x = ([], src)} (λ e. omega arith)
      (λ e.
        by_read (from_step tables src) (read_utf8_char src) (from_step-Reads tables src hs)
          (from_utf8_loop-fits rounds tables room))
  where
    by_read :
        (o : Option (List ℕ × List ℕ)) (r : Option (Char × List ℕ))
        → Reads tables o r
        → ((n : ℕ) (rest : List ℕ)
            → All (λ b. b ≢ 0) rest
            → length (from_utf8_loop rounds tables room n rest).0
              ≤ add_all (from_utf8_size tables) (iterate rounds rest))
        → length
            (elim o as (λ x. List ℕ × List ℕ) [
              | none ↦ ([], src)
              | some (written, rest) ↦
                  let more = from_utf8_loop rounds tables room (used + length written) rest in
                  (written ++ more.0, more.1)
            ]).0
          ≤ add_all (from_utf8_size tables) (elim r as (λ x. List Char) [
            | none ↦ []
            | some (ch, rest) ↦ ch ∷ iterate rounds rest
          ])
    by_read none r m ih = omega arith
    by_read (some (written, rest)) none m ih = elim m [ ]
    by_read (some (written, rest)) (some (ch, left)) (e, fits, all) ih =
        let more = from_utf8_loop rounds tables room (used + length written) rest in
        omega (
          arith,
          length-append written more.0,
          fits,
          ih (used + length written) rest all,
          ap (λ t. add_all (from_utf8_size tables) (iterate rounds t)) e,
        )

-- From a text without zero bytes `transcode_from_utf8` writes no more bytes than were calculated
-- for the buffer.
pub length-transcode_from_utf8 :
    (tables : Tables) (src : List ℕ)
    → All (λ b. b ≢ 0) src
    → length (transcode_from_utf8 tables src).0 ≤ add_all (from_utf8_size tables) (utf8_chars src)
unfolding transcode_from_utf8
length-transcode_from_utf8 tables src hs = from_utf8_loop-fits (length src) tables _ 0 src hs
