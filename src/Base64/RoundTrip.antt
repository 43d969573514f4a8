-- ===== src/Base64/RoundTrip.antt =====
-- Decoding what the encoder of src/main/pa_base64.C wrote.
use parser.Prelude.{
  ℕ, ◌+◌, ◌*◌, ◌/◌, ◌%◌, ◌<◌, ◌≡◌, refl, sym, ap, ◌∙◌, Bool, true, false, ◌&&◌, List, [], ◌∷◌, ◌++◌,
  arith, if◌then◌else◌, ◌==◌, Bool-cases, Option, none, some, All, inl, inr,
}
use parser.Prelude.Bits.{bit_and_3, bit_and_15, bit_and_63}
use parser.Prelude.Result.{ok, prepend, prepend-nil}
use parser.Base64.{
  Alphabet, standard, url_safe, Base64Options, rank, Decoder, takes_one, on_pad, on_first_pad, step,
  finish, decode_loop, encode_loop, group3, tail2, tail1, newline, encode, decode, line_full,
}
use parser.Base64.Groups.{
  digit_2, digit_3, push, decoder, byte, decode_loop-takes_one, decode_loop-letter,
  decode_loop-letter_last,
}

abbrev pub IsByte : ℕ → Type 0
IsByte b = b < 256

-- The decoder accepts the padding that the encoder writes, or does without.
abbrev pub Compatible : Base64Options → Base64Options → Type 0
Compatible o o' = (o'.abc ≡ o.abc) × ((o'.pad && o'.strict) ≡ true → o.pad ≡ true)

-- `saved` after the four digits of a group.
abbrev saved4 : ℕ → ℕ → ℕ → ℕ → ℕ
saved4 s c1 c2 c3 =
    push (push (push (push s (c1 / 4)) (c2 / 16 + c1 % 4 * 16)) (c2 % 16 * 4 + c3 / 64)) (c3 % 64)

module _ (s c1 c2 c3 : ℕ) (h1 : IsByte c1) (h2 : IsByte c2) (h3 : IsByte c3) where
  first_byte : byte (saved4 s c1 c2 c3 / 65536) ≡ c1
  first_byte = omega arith

  second_byte : byte (saved4 s c1 c2 c3 / 256) ≡ c2
  second_byte = omega arith

  third_byte : byte (saved4 s c1 c2 c3) ≡ c3
  third_byte = omega arith

-- `saved` after the three digits of two bytes, and after the two digits of one.
abbrev saved3 : ℕ → ℕ → ℕ → ℕ
saved3 s c1 c2 = push (push (push s (c1 / 4)) (c2 / 16 + c1 % 4 * 16)) (c2 % 16 * 4)

abbrev saved2 : ℕ → ℕ → ℕ
saved2 s c1 = push (push s (c1 / 4)) (c1 % 4 * 16)

pair_bytes :
    (s c1 c2 : ℕ)
    → IsByte c1
    → IsByte c2
    → (byte (saved3 s c1 c2 / 1024) ≡ c1) × (byte (saved3 s c1 c2 / 4) ≡ c2)
pair_bytes s c1 c2 h1 h2 = (omega arith, omega arith)

single_byte : (s c1 : ℕ) → IsByte c1 → byte (saved2 s c1 / 16) ≡ c1
single_byte s c1 h1 = omega arith

rank_pad_table : (abc : Alphabet) → rank abc b'=' ≡ 253
unfolding rank
rank_pad_table standard = refl
rank_pad_table url_safe = refl

rank-newline : (abc : Alphabet) → rank abc newline ≡ 254
unfolding rank
rank-newline standard = refl
rank-newline url_safe = refl

module _ (o : Base64Options) where
  -- Four letters of a group give its three bytes.
  decode_loop-group3 :
      (pos s c1 c2 c3 : ℕ) (rest : List ℕ)
      → IsByte c1
      → IsByte c2
      → IsByte c3
      → decode_loop o pos (decoder s 0) (group3 o.abc c1 c2 c3 ++ rest)
        ≡ prepend
            (c1 ∷ c2 ∷ c3 ∷ [])
            (decode_loop o (pos + 1 + 1 + 1 + 1) (decoder (saved4 s c1 c2 c3) 0) rest)
  unfolding group3
  decode_loop-group3 pos s c1 c2 c3 rest h1 h2 h3 =
      rw (digit_2 c1 c2 h2, digit_3 c2 c3 h3, bit_and_63 c3)
        (decode_loop-letter o pos s 0 _ _ (omega arith) (omega arith)
          ∙ decode_loop-letter o _ _ 1 _ _ (omega arith) (omega arith)
          ∙ decode_loop-letter o _ _ 2 _ _ (omega arith) (omega arith)
          ∙ decode_loop-letter_last o _ _ _ _ (omega arith)
          ∙ rw (
            first_byte s c1 c2 c3 h1 h2 h3,
            second_byte s c1 c2 c3 h1 h2 h3,
            third_byte s c1 c2 c3 h1 h2 h3,
          ))

  step-newline :
      (pos : ℕ) (d : Decoder) (next : Option ℕ) → step o pos d newline next ≡ takes_one [] d
  unfolding step
  step-newline pos d next = rw (rank-newline o.abc)

  step-pad :
      (pos : ℕ) (d : Decoder) (next : Option ℕ) → step o pos d b'=' next ≡ on_pad o pos d next
  unfolding step
  step-pad pos d next = rw (rank_pad_table o.abc)

  -- A newline between groups is skipped.
  decode_loop-newline :
      (pos : ℕ) (d : Decoder) (rest : List ℕ)
      → decode_loop o pos d (newline ∷ rest) ≡ decode_loop o (pos + 1) d rest
  decode_loop-newline pos d rest =
      decode_loop-takes_one o pos d d newline rest [] (step-newline pos d) ∙ prepend-nil _

  -- One `=` ends a group of two bytes, two `=` a group of one.
  decode_loop-pad :
      (pos s : ℕ)
      → decode_loop o pos (decoder s 3) (b'=' ∷ []) ≡ ok (byte (s / 1024) ∷ byte (s / 4) ∷ [])
  unfolding decode_loop finish on_pad on_first_pad
  decode_loop-pad pos s = rw (step-pad pos (decoder s 3) none, decode_loop)

  decode_loop-pad_pad :
      (pos s : ℕ) → decode_loop o pos (decoder s 2) (b'=' ∷ b'=' ∷ []) ≡ ok (byte (s / 16) ∷ [])
  unfolding decode_loop finish on_pad on_first_pad
  decode_loop-pad_pad pos s = rw (step-pad pos (decoder s 2) (some b'='), decode_loop)

  -- Without padding the group ends with the text.
  decode_loop-nil :
      (pos s k : ℕ)
      → 1 < k
      → (o.pad && o.strict) ≡ false
      → decode_loop o pos (decoder s k) []
        ≡ (if k == 2 then ok (byte (s / 16) ∷ []) else ok (byte (s / 1024) ∷ byte (s / 4) ∷ []))
  unfolding decode_loop finish
  decode_loop-nil pos s k h e = rw e (ground arith)

  module _ (e : Base64Options) (c : Compatible e o) where
    unpadded : e.pad ≡ false → (o.pad && o.strict) ≡ false
    unpadded p = elim (Bool-cases (o.pad && o.strict)) [ inl q ↦ cc (c.1 q) | inr q ↦ q ]

    decode_loop-tail2 :
        (pos s c1 c2 : ℕ)
        → IsByte c1
        → IsByte c2
        → decode_loop o pos (decoder s 0) (tail2 e c1 c2) ≡ ok (c1 ∷ c2 ∷ [])
    unfolding tail2
    decode_loop-tail2 pos s c1 c2 h1 h2 =
        let (b1, b2) = pair_bytes s c1 c2 h1 h2 in
        rw (← c.0, digit_2 c1 c2 h2, bit_and_15 c2)
          (decode_loop-letter o pos s 0 _ _ (omega arith) (omega arith)
            ∙ decode_loop-letter o _ _ 1 _ _ (omega arith) (omega arith)
            ∙ decode_loop-letter o _ _ 2 _ _ (omega arith) (omega arith)
            ∙ elim (Bool-cases e.pad) [
              | inl p ↦ rw p (decode_loop-pad _ _ ∙ rw (b1, b2))
              | inr p ↦ rw p (decode_loop-nil _ _ 3 (omega arith) (unpadded p) ∙ rw (b1, b2))
            ])

    decode_loop-tail1 :
        (pos s c1 : ℕ) → IsByte c1 → decode_loop o pos (decoder s 0) (tail1 e c1) ≡ ok (c1 ∷ [])
    unfolding tail1
    decode_loop-tail1 pos s c1 h1 =
        rw (← c.0, bit_and_3 c1)
          (decode_loop-letter o pos s 0 _ _ (omega arith) (omega arith)
            ∙ decode_loop-letter o _ _ 1 _ _ (omega arith) (omega arith)
            ∙ elim (Bool-cases e.pad) [
              | inl p ↦ rw p (decode_loop-pad_pad _ _ ∙ rw (single_byte s c1 h1))
              | inr p ↦
                  rw p (decode_loop-nil _ _ 2 (omega arith) (unpadded p) ∙ rw (single_byte s c1 h1))
            ])

    decode_loop-wrapped :
        (b : Bool) (pos : ℕ) (d : Decoder) (rest : List ℕ) (r : List ℕ)
        → ((pos' : ℕ) → decode_loop o pos' d rest ≡ ok r)
        → decode_loop o pos d ((if b then newline ∷ [] else []) ++ rest) ≡ ok r
    decode_loop-wrapped true pos d rest r h = decode_loop-newline pos d rest ∙ h (pos + 1)
    decode_loop-wrapped false pos d rest r h = h pos

    decode_loop-encode_loop :
        (already pos s : ℕ) (xs : List ℕ)
        → All IsByte xs
        → decode_loop o pos (decoder s 0) (encode_loop e already xs) ≡ ok xs
    unfolding encode_loop
    decode_loop-encode_loop already pos s (c1 ∷ c2 ∷ c3 ∷ rest) (h1, (h2, (h3, h))) =
        let ih = λ (pos' : ℕ).
          decode_loop-encode_loop (if line_full e already then 0 else already + 1) pos'
            (saved4 s c1 c2 c3) rest h in
        rw (ap (λ abc. group3 abc c1 c2 c3) (sym c.0)) (
          decode_loop-group3 pos s c1 c2 c3 _ h1 h2 h3
          ∙ rw (decode_loop-wrapped (line_full e already) _ _ _ _ ih))
    decode_loop-encode_loop already pos s (c1 ∷ c2 ∷ []) (h1, (h2, _)) =
        decode_loop-tail2 pos s c1 c2 h1 h2
    decode_loop-encode_loop already pos s (c1 ∷ []) (h1, _) = decode_loop-tail1 pos s c1 h1
    decode_loop-encode_loop already pos s [] h = unfold decode_loop finish in refl

-- Decoding what the encoder wrote for a text of bytes returns that text, under the same alphabet and
-- whatever the other options, unless a strict decoder wants the padding that the encoder left out.
pub decode-encode :
    (xs : List ℕ) (e o : Base64Options)
    → All IsByte xs
    → Compatible e o
    → decode (encode xs e) o ≡ ok xs
unfolding decode encode
decode-encode xs e o h c = decode_loop-encode_loop o e c 0 0 0 xs h
