-- ===== src/Base64/Strict.antt =====
-- What the decoder of src/main/pa_base64.C throws with and without `options.strict`.
use parser.Prelude.{
  ℕ, ◌+◌, ◌≡◌, ◌≢◌, refl, true, false, ◌&&◌, List, [], ◌∷◌, arith, ltb, ◌==◌, if_cases, Option,
  none, some, All, All-map,
}
use parser.Base64.Letters.{is_letter, rank-is_letter}
use parser.Prelude.Result.{Result, ok, err, prepend, Returns}
use parser.Base64.{
  Base64Options, rank, Decoder, DecodeError, Verdict, throws, takes_one, takes_two, refuse, on_pad,
  on_first_pad, on_digit, step, finish, deliver, decode_loop, decode, rank_other, standard,
  url_safe,
}

-- A verdict of the lenient decoder.
abbrev Goes : Verdict → Type 0
Goes (throws e) = ⊥
Goes (takes_one out d) = Unit
Goes (takes_two out d) = Unit

abbrev Passes : Result DecodeError (List ℕ) → Type 0
Passes (ok out) = Unit
Passes (err e) = ⊥

module _ (o : Base64Options) (lenient : o.strict ≡ false) where
  refuse-Goes : (e : DecodeError) (d : Decoder) → Goes (refuse o e d)
  unfolding refuse
  refuse-Goes e d = rw lenient tt

  on_first_pad-Goes : (pos : ℕ) (d : Decoder) (next : Option ℕ) → Goes (on_first_pad o pos d next)
  unfolding on_first_pad
  on_first_pad-Goes pos d none = refuse-Goes _ d
  on_first_pad-Goes pos d (some c) = if_cases Goes (c == b'=') (λ _. tt) (λ _. refuse-Goes _ d)

  step-Goes : (pos : ℕ) (d : Decoder) (x : ℕ) (next : Option ℕ) → Goes (step o pos d x next)
  unfolding step on_pad on_digit
  step-Goes pos d x next =
      if_cases Goes (rank o.abc x == 255) (λ _. refuse-Goes _ d)
        λ _.
          if_cases Goes (rank o.abc x == 254) (λ _. tt)
            λ _.
              if_cases Goes (rank o.abc x == 253)
                (λ _.
                  if_cases Goes (ltb d.state 2) (λ _. refuse-Goes _ d)
                    λ _. if_cases Goes (d.state == 2) (λ _. on_first_pad-Goes pos d next) (λ _. tt))
                (λ _. if_cases Goes (d.state + 1 == 4) (λ _. tt) (λ _. tt))

  prepend-Passes : (out : List ℕ) (r : _) → Passes r → Passes (prepend out r)
  prepend-Passes out (ok ys) h = tt
  prepend-Passes out (err e) h = elim h [ ]

  deliver-Passes :
      (v : Verdict) (one two : Decoder → Result DecodeError (List ℕ))
      → Goes v
      → ((d : Decoder) → Passes (one d))
      → ((d : Decoder) → Passes (two d))
      → Passes (deliver v one two)
  deliver-Passes (throws e) one two g h1 h2 = g
  deliver-Passes (takes_one out d) one two g h1 h2 = prepend-Passes out (one d) (h1 d)
  deliver-Passes (takes_two out d) one two g h1 h2 = prepend-Passes out (two d) (h2 d)

  decode_loop-Passes : (pos : ℕ) (d : Decoder) (xs : List ℕ) → Passes (decode_loop o pos d xs)
  unfolding decode_loop finish
  decode_loop-Passes pos d [] = rw lenient (
      if_cases Passes (ltb 0 d.state)
        (λ _.
          if_cases Passes (ltb 1 d.state)
            (λ _.
              if_cases Passes (o.pad && false) (λ e. ground arith)
                (λ _. if_cases Passes (d.state == 2) (λ _. tt) (λ _. tt)))
            (λ _. tt))
        (λ _. tt))
  decode_loop-Passes pos d (x ∷ []) =
      deliver-Passes _ _ _ (step-Goes pos d x none) (λ d'. decode_loop-Passes (pos + 1) d' [])
        (λ d'. decode_loop-Passes (pos + 1) d' [])
  decode_loop-Passes pos d (x ∷ y ∷ rest) =
      deliver-Passes _ _ _ (step-Goes pos d x (some y))
        (λ d'. decode_loop-Passes (pos + 1) d' (y ∷ rest))
        (λ d'. decode_loop-Passes (pos + 2) d' rest)

Passes-Returns : (r : Result DecodeError (List ℕ)) → Passes r → Returns (λ _. Unit {0}) r
Passes-Returns (ok out) h = (out, refl, tt)
Passes-Returns (err e) h = elim h [ ]

-- Without `strict` the decoder returns bytes for every text: it throws nothing.
pub decode-lenient :
    (xs : List ℕ) (o : Base64Options) → o.strict ≡ false → Returns (λ _. Unit {0}) (decode xs o)
unfolding decode
decode-lenient xs o h = Passes-Returns _ (decode_loop-Passes o h 0 _ xs)

-- What a verdict of the strict decoder says of the bytes that it takes.
abbrev Vets : Base64Options → ℕ → Option ℕ → Verdict → Type 0
Vets o x next (throws e) = Unit
Vets o x next (takes_one out d) = rank o.abc x ≢ rank_other
Vets o x next (takes_two out d) = (rank o.abc x ≢ rank_other) × (next ≡ some b'=')

module _ (o : Base64Options) (strict : o.strict ≡ true) where
  refuse-throws : (e : DecodeError) (d : Decoder) → refuse o e d ≡ throws e
  unfolding refuse
  refuse-throws e d = rw strict

  on_first_pad-Vets :
      (pos x : ℕ) (d : Decoder) (next : Option ℕ)
      → rank o.abc x ≢ rank_other
      → Vets o x next (on_first_pad o pos d next)
  unfolding on_first_pad
  on_first_pad-Vets pos x d none h = rw refuse-throws tt
  on_first_pad-Vets pos x d (some c) h =
      if_cases (Vets o x (some c)) (c == b'=') (λ e. (h, ground arith)) (λ _. rw refuse-throws tt)

  step-Vets :
      (pos : ℕ) (d : Decoder) (x : ℕ) (next : Option ℕ) → Vets o x next (step o pos d x next)
  unfolding step on_pad on_digit
  step-Vets pos d x next =
      let P = Vets o x next in
      if_cases P (rank o.abc x == 255) (λ _. rw refuse-throws tt)
        λ e.
          let h : rank o.abc x ≢ 255 = λ q. ground arith in
          if_cases P (rank o.abc x == 254) (λ _. h)
            λ _.
              if_cases P (rank o.abc x == 253)
                (λ _.
                  if_cases P (ltb d.state 2) (λ _. rw refuse-throws tt)
                    λ _. if_cases P (d.state == 2) (λ _. on_first_pad-Vets pos x d next h) (λ _. h))
                (λ _. if_cases P (d.state + 1 == 4) (λ _. h) (λ _. h))

  abbrev IsClean : List ℕ → Type 0
  IsClean = All (λ c. rank o.abc c ≢ rank_other)

  prepend-eq-ok :
      (out : List ℕ) (r : Result DecodeError (List ℕ)) {ys : List ℕ}
      → prepend out r ≡ ok ys
      → Returns (λ _. Unit {0}) r
  prepend-eq-ok out (ok zs) e = (zs, refl, tt)
  prepend-eq-ok out (err x) e = cc

  pad-IsClean : (abc : _) → rank abc b'=' ≢ rank_other
  unfolding rank
  pad-IsClean standard e = ground arith
  pad-IsClean url_safe e = ground arith

  decode_loop-IsClean :
      (pos : ℕ) (d : Decoder) (xs : List ℕ) {out : List ℕ}
      → decode_loop o pos d xs ≡ ok out
      → IsClean xs
  unfolding decode_loop
  decode_loop-IsClean pos d [] e = tt
  decode_loop-IsClean pos d (x ∷ []) {out} e = last (step o pos d x none) (step-Vets pos d x none) e
    where
      last :
          (v : Verdict)
          → Vets o x none v
          → deliver v (λ d'. decode_loop o (pos + 1) d' []) (λ d'. decode_loop o (pos + 1) d' [])
            ≡ ok out
          → IsClean (x ∷ [])
      last (throws err') h q = cc
      last (takes_one bytes d') h q = (h, tt)
      last (takes_two bytes d') h q = (h.0, tt)
  decode_loop-IsClean pos d (x ∷ y ∷ rest) {out} e =
      inner (step o pos d x (some y)) (step-Vets pos d x (some y)) e
        (λ d' zs. decode_loop-IsClean (pos + 1) d' (y ∷ rest) {out = zs})
        (λ d' zs. decode_loop-IsClean (pos + 2) d' rest {out = zs})
    where
      inner :
          (v : Verdict)
          → Vets o x (some y) v
          → deliver v
              (λ d'. decode_loop o (pos + 1) d' (y ∷ rest))
              (λ d'. decode_loop o (pos + 2) d' rest)
            ≡ ok out
          → ((d' : Decoder) (zs : List ℕ)
              → decode_loop o (pos + 1) d' (y ∷ rest) ≡ ok zs
              → IsClean (y ∷ rest))
          → ((d' : Decoder) (zs : List ℕ) → decode_loop o (pos + 2) d' rest ≡ ok zs → IsClean rest)
          → IsClean (x ∷ y ∷ rest)
      inner (throws err') h q h1 h2 = cc
      inner (takes_one bytes d') h q h1 h2 =
          let (zs, run, _) = prepend-eq-ok bytes _ q in (h, h1 d' zs run)
      inner (takes_two bytes d') (h, n) q h1 h2 =
          let (zs, run, _) = prepend-eq-ok bytes _ q in
          let y-pad : y ≡ b'=' = ground arith in (h, (rw y-pad (pad-IsClean o.abc), h2 d' zs run))

-- A strict decoder returns bytes only for a text of the letters A to Z, a to z and 0 to 9, the two signs
-- of its alphabet, which are + and / or - and _, of = and of white space, a blank, a tab, a line feed or
-- a carriage return: every other byte makes it throw.
pub decode-strict :
    (xs : List ℕ) (o : Base64Options) {out : List ℕ}
    → o.strict ≡ true
    → decode xs o ≡ ok out
    → All (λ c. is_letter o.abc c ≡ true) xs
unfolding decode
decode-strict xs o h e = All-map (rank-is_letter o.abc) xs (decode_loop-IsClean o h 0 _ xs e)
