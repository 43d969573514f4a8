-- ===== src/Charset/Tables/Transcode.antt =====
-- `Charset::transcodeToUTF8` of src/main/pa_charset.C: the length that is calculated first, and
-- what the loop writes.
use parser.Prelude.{
  ℕ, zero, suc, ◌+◌, ◌-◌, ◌≤◌, ◌≡◌, ◌≢◌, refl, ◌/◌, ◌%◌, bit_and, bit_or, ltb→lt, Bool-cases, inl,
  inr, subst, sym, Bool, true, false, ◌||◌, Option, none, some, List, [], ◌∷◌, ◌++◌, ltb, ◌==◌,
  if◌then◌else◌, length, length-append, get_or, All, if_cases, arith,
}
use parser.Charset.Utf8.{Char, encoded_bytes, spit_bytes, first_byte_mark}
use parser.Charset.Tables.{
  Tables, read_char, table_chars, sum_sizes, to_utf8_loop, transcode_to_utf8,
}

pub length-spit_bytes :
    (n mark src : ℕ) (acc : List ℕ) → length (spit_bytes n mark src acc) ≡ suc n + length acc
unfolding spit_bytes
length-spit_bytes zero mark src acc = omega arith
length-spit_bytes (suc n) mark src acc =
    omega (arith, length-spit_bytes n mark (src / 64) (bit_and (bit_or src 0x80) 0xBF % 256 ∷ acc))

-- The size that `readChar` gives, for a byte that is not zero.
char_size : Tables → ℕ → ℕ
char_size tables b =
    let encoded = encoded_bytes (get_or tables.from_table b 0) in
    if encoded == 0 then 1 else encoded

sum_sizes-table_chars :
    (tables : Tables) (b : ℕ) (bs : List ℕ)
    → b ≢ 0
    → sum_sizes (table_chars tables (b ∷ bs))
      ≡ char_size tables b + sum_sizes (table_chars tables bs)
unfolding sum_sizes table_chars read_char char_size
sum_sizes-table_chars tables b bs h = by_tests (b == 0) (encoded_bytes code == 0) (ground arith)
  where
    code : ℕ
    code = get_or tables.from_table b 0

    by_tests :
        (is_zero no_encoding : Bool)
        → is_zero ≡ false
        → sum_sizes
            (elim (if◌then◌else◌ {A = Option (Char × List ℕ)} is_zero none (
              if no_encoding
              then some (record { size = 1; first = 0; code = code }, bs)
              else some (record { size = encoded_bytes code; first = b; code = code }, bs))) [
                | none ↦ []
                | some (ch, rest) ↦ ch ∷ table_chars tables bs
              ])
          ≡ (if no_encoding then 1 else encoded_bytes code) + sum_sizes (table_chars tables bs)
    by_tests true no_encoding e = ground arith
    by_tests false true e = refl
    by_tests false false e = refl

Written : ℕ → List ℕ × List ℕ → Type 0
Written n r = (length r.0 ≡ n) × (r.1 ≡ [])

encoded_bytes_zero : (c : ℕ) → (c == 0) ≡ true → encoded_bytes c ≡ 1
unfolding encoded_bytes
encoded_bytes_zero c h = by_code c (ground arith)
  where
    by_code : (d : ℕ) → d ≡ 0 → encoded_bytes d ≡ 1
    by_code d e = subst (λ x. encoded_bytes x ≡ 1) (sym e) refl

replaced_size :
    (tables : Tables) (b : ℕ)
    → (get_or tables.from_table b 0 == 0 || encoded_bytes (get_or tables.from_table b 0) == 0)
      ≡ true
    → char_size tables b ≡ 1
unfolding char_size
replaced_size tables b e =
    by_tests (get_or tables.from_table b 0) (encoded_bytes (get_or tables.from_table b 0))
      (encoded_bytes_zero _) e
  where
    by_tests :
        (c encoded : ℕ)
        → ((c == 0) ≡ true → encoded ≡ 1)
        → (c == 0 || encoded == 0) ≡ true
        → (if encoded == 0 then 1 else encoded) ≡ suc zero
    by_tests c encoded h e = elim (Bool-cases (c == 0)) [
      | inl t ↦ let one = h t in ground arith
      | inr t ↦ ground arith
    ]

stored_size :
    (tables : Tables) (b : ℕ)
    → (get_or tables.from_table b 0 == 0 || encoded_bytes (get_or tables.from_table b 0) == 0)
      ≡ false
    → (char_size tables b ≡ encoded_bytes (get_or tables.from_table b 0))
      × (1 ≤ encoded_bytes (get_or tables.from_table b 0))
unfolding char_size
stored_size tables b e = (ground arith, ground arith)

Written-append :
    (front : List ℕ) (m n k : ℕ) (r : List ℕ × List ℕ)
    → length front ≡ m
    → k ≡ m + n
    → Written n r
    → Written k (front ++ r.0, r.1)
unfolding Written
Written-append front m n k r hf hk (hl, hr) =
    (omega (arith, length-append front r.0, hl, hf, hk), hr)

to_utf8_loop-Written :
    (tables : Tables) (room : ℕ) (src : List ℕ) (used : ℕ)
    → All (λ b. b ≢ 0) src
    → used + sum_sizes (table_chars tables src) ≤ room
    → Written (sum_sizes (table_chars tables src)) (to_utf8_loop tables room used src)
unfolding to_utf8_loop Written sum_sizes table_chars
to_utf8_loop-Written tables room [] used hs h = nothing
  where
    nothing : Written (sum_sizes (table_chars tables [])) ([], [])
    nothing = (refl, refl)
to_utf8_loop-Written tables room (b ∷ bs) used (hb, hs) h =
    let code = get_or tables.from_table b 0 in
    let encoded = encoded_bytes code in
    let n = sum_sizes (table_chars tables bs) in
    let total = sum_sizes-table_chars tables b bs hb in
    if_cases (Written (sum_sizes (table_chars tables (b ∷ bs)))) (code == 0 || encoded == 0)
      (λ e.
        let one = replaced_size tables b e in
        Written-append (b'?' ∷ []) 1 n _ (to_utf8_loop tables room (used + 1) bs) refl
          (omega (arith, total, one))
          (to_utf8_loop-Written tables room bs (used + 1) hs (omega (arith, total, one))))
      (λ e.
        let size = stored_size tables b e in
        if_cases (Written (sum_sizes (table_chars tables (b ∷ bs)))) (ltb room (used + encoded))
          (λ full. absurd (omega (arith, ltb→lt _ _ full, total, size)))
          (λ fits.
            Written-append _ encoded n _ (to_utf8_loop tables room (used + encoded) bs)
              (omega
                (arith, length-spit_bytes (encoded - 1) (first_byte_mark encoded) code [], size))
              (omega (arith, total, size))
              (to_utf8_loop-Written tables room bs (used + encoded) hs
                (omega (arith, total, size)))))

-- A text without zero bytes is transcoded to UTF-8 to its end, and as many bytes are written as
-- were calculated for the buffer.
pub transcode_to_utf8-All :
    (tables : Tables) (src : List ℕ)
    → All (λ b. b ≢ 0) src
    → (length (transcode_to_utf8 tables src).0 ≡ sum_sizes (table_chars tables src))
      × ((transcode_to_utf8 tables src).1 ≡ [])
unfolding transcode_to_utf8 Written
transcode_to_utf8-All tables src hs =
    to_utf8_loop-Written tables (sum_sizes (table_chars tables src)) src 0 hs (omega arith)
