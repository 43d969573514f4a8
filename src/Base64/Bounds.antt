-- ===== src/Base64/Bounds.antt =====
-- The buffers that the callers in src/main/pa_base64.C allocate are large enough, and what the
-- decoder may throw.
use parser.Prelude.{
  ℕ, suc, ◌+◌, ◌*◌, ◌/◌, ◌≤◌, ◌<◌, ◌≡◌, ◌≢◌, refl, Bool, true, false, ◌&&◌, List, [], ◌∷◌, ◌++◌,
  arith, if◌then◌else◌, ◌==◌, ltb, if_cases, Bool-cases, inl, inr, Option, none, some, length,
  length-append,
}
use parser.Prelude.Result.{Result, ok, err, prepend}
use parser.Base64.{
  Base64Options, rank, Decoder, Verdict, throws, takes_one, takes_two, refuse, on_pad, on_digit,
  on_first_pad, step, finish, deliver, decode_loop, encode_loop, group3, tail2, tail1, newline,
  encode, decode, line_full, encode_size, decode_size, DecodeError,
}

-- What a step writes is paid for by the digits it takes: four bytes written cost three read.
-- Two bytes are taken only where there are two.
abbrev IsPaid : Decoder → Option ℕ → Verdict → Type 0
IsPaid d next (throws e) = Unit
IsPaid d next (takes_one out d') = 4 * length out + 3 * d'.state ≤ 3 * d.state + 3
IsPaid d none (takes_two out d') = ⊥
IsPaid d (some c) (takes_two out d') = 4 * length out + 3 * d'.state ≤ 3 * d.state + 6

refuse-IsPaid :
    (o : Base64Options) (d : Decoder) (next : Option ℕ) (e : DecodeError)
    → IsPaid d next (refuse o e d)
unfolding refuse
refuse-IsPaid o d next e = if_cases (IsPaid d next) o.strict (λ _. tt) (λ _. omega arith)

on_first_pad-IsPaid :
    (o : Base64Options) (pos : ℕ) (d : Decoder) (next : Option ℕ)
    → (d.state == 2) ≡ true
    → IsPaid d next (on_first_pad o pos d next)
unfolding on_first_pad
on_first_pad-IsPaid o pos d none e = refuse-IsPaid o d none _
on_first_pad-IsPaid o pos d (some c) e =
    if_cases (IsPaid d (some c)) (c == b'=') (λ _. ground arith) (λ _. refuse-IsPaid o d (some c) _)

module _ (o : Base64Options) (pos : ℕ) (d : Decoder) (next : Option ℕ) where
  on_digit-IsPaid : (c : ℕ) → IsPaid d next (on_digit d c)
  unfolding on_digit
  on_digit-IsPaid c =
      if_cases (IsPaid d next) (d.state + 1 == 4) (λ e. ground arith) (λ e. ground arith)

  on_pad-IsPaid : IsPaid d next (on_pad o pos d next)
  unfolding on_pad
  on_pad-IsPaid =
      if_cases (IsPaid d next) (ltb d.state 2) (λ _. refuse-IsPaid o d next _)
        λ e.
          if_cases (IsPaid d next) (d.state == 2) (on_first_pad-IsPaid o pos d next)
            (λ e'. ground arith)

  step-IsPaid : (x : ℕ) → IsPaid d next (step o pos d x next)
  unfolding step
  step-IsPaid x =
      if_cases (IsPaid d next) (rank o.abc x == 255) (λ _. refuse-IsPaid o d next _)
        λ _.
          if_cases (IsPaid d next) (rank o.abc x == 254) (λ _. omega arith)
            λ _.
              if_cases (IsPaid d next) (rank o.abc x == 253) (λ _. on_pad-IsPaid)
                (λ _. on_digit-IsPaid (rank o.abc x))

-- The result takes at most `n` quarters of a byte.
abbrev Fits : ℕ → Result DecodeError (List ℕ) → Type 0
Fits n (ok out) = 4 * length out ≤ n
Fits n (err e) = Unit

prepend-Fits :
    (out : List ℕ) (r : Result DecodeError (List ℕ)) (n m : ℕ)
    → Fits n r
    → 4 * length out + n ≤ m
    → Fits m (prepend out r)
prepend-Fits out (ok ys) n m h le = omega (arith, length-append {0} out ys)
prepend-Fits out (err e) n m h le = tt

finish-Fits : (o : Base64Options) (d : Decoder) → Fits (3 * d.state) (finish o d)
unfolding finish
finish-Fits o d =
    let P = Fits (3 * d.state) in
    if_cases P (ltb 0 d.state)
      (λ e.
        if_cases P (ltb 1 d.state)
          (λ e1.
            if_cases P (o.pad && o.strict) (λ _. tt)
              (λ _. if_cases P (d.state == 2) (λ e2. ground arith) (λ e2. ground arith)))
          (λ _. if_cases P o.strict (λ _. tt) (λ _. omega arith)))
      (λ _. omega arith)

deliver-Fits :
    (d : Decoder) (next : Option ℕ) (v : Verdict) (n m : ℕ)
    (one two : Decoder → Result DecodeError (List ℕ))
    → (next ≢ none → suc m ≡ n)
    → IsPaid d next v
    → ((d' : Decoder) → Fits (3 * (d'.state + n)) (one d'))
    → ((d' : Decoder) → Fits (3 * (d'.state + m)) (two d'))
    → Fits (3 * (d.state + suc n)) (deliver v one two)
deliver-Fits d next (throws e) n m one two more p h1 h2 = tt
deliver-Fits d next (takes_one out d') n m one two more p h1 h2 =
    prepend-Fits out (one d') _ _ (h1 d') (omega arith)
deliver-Fits d none (takes_two out d') n m one two more p h1 h2 = absurd p
deliver-Fits d (some c) (takes_two out d') n m one two more p h1 h2 =
    prepend-Fits out (two d') _ _ (h2 d') (omega (arith, more (λ e. cc)))

decode_loop-Fits :
    (o : Base64Options) (pos : ℕ) (d : Decoder) (xs : List ℕ)
    → Fits (3 * (d.state + length xs)) (decode_loop o pos d xs)
unfolding decode_loop
decode_loop-Fits o pos d [] = let e : d.state + 0 ≡ d.state = omega arith in rw e (finish-Fits o d)
decode_loop-Fits o pos d (x ∷ []) =
    deliver-Fits d none (step o pos d x none) 0 0 _ _ (λ h. absurd (h refl))
      (step-IsPaid o pos d none x) (λ d'. decode_loop-Fits o (pos + 1) d' [])
      (λ d'. decode_loop-Fits o (pos + 1) d' [])
decode_loop-Fits o pos d (x ∷ y ∷ rest) =
    deliver-Fits d (some y) (step o pos d x (some y)) (suc (length rest)) (length rest) _ _
      (λ _. refl) (step-IsPaid o pos d (some y) x)
      (λ d'. decode_loop-Fits o (pos + 1) d' (y ∷ rest))
      (λ d'. decode_loop-Fits o (pos + 2) d' rest)

fits_lem :
    (r : Result DecodeError (List ℕ)) {out : List ℕ} (n : ℕ)
    → r ≡ ok out
    → Fits n r
    → 4 * length out ≤ n
fits_lem (ok xs) n e h = ground arith
fits_lem (err x) n e h = cc

-- The decoded bytes fit into the buffer that is allocated for them, whatever the text and options.
pub length-decode :
    (xs : List ℕ) (o : Base64Options) {out : List ℕ}
    → decode xs o ≡ ok out
    → length out ≤ decode_size (length xs)
unfolding decode decode_size
length-decode xs o e = omega (arith, fits_lem _ _ e (decode_loop-Fits o 0 _ xs))

-- The newlines that are still to come, from the groups of the line and those of the rest.
abbrev newlines : Bool → ℕ → ℕ → ℕ
newlines wrap already groups = if wrap then (already + groups) / 19 else 0

length-tails :
    (o : Base64Options) (c1 c2 : ℕ) → (length (tail2 o c1 c2) ≤ 4) × (length (tail1 o c1) ≤ 4)
unfolding tail2 tail1
length-tails o c1 c2 = ground arith

length-group3 : (abc : _) (c1 c2 c3 : ℕ) → length (group3 abc c1 c2 c3) ≡ 4
unfolding group3
length-group3 abc c1 c2 c3 = refl

line_full-true :
    (o : Base64Options) (already : ℕ)
    → line_full o already ≡ true
    → (o.wrap ≡ true) × (19 ≤ already + 1)
unfolding line_full
line_full-true o already e = ground arith

line_full-false :
    (o : Base64Options) (already : ℕ)
    → line_full o already ≡ false
    → o.wrap ≡ true
    → already + 1 < 19
unfolding line_full
line_full-false o already e w = ground arith

length-line_end :
    (b : Bool) (rest : List ℕ)
    → length ((if b then newline ∷ [] else []) ++ rest) ≡ (if b then 1 else 0) + length rest
length-line_end true rest = omega arith
length-line_end false rest = omega arith

-- One round of the loop.
length-encode_loop_group :
    (o : Base64Options) (already c1 c2 c3 : ℕ) (rest : List ℕ)
    → length (encode_loop o already (c1 ∷ c2 ∷ c3 ∷ rest))
      ≡ 4
        + ((if line_full o already then 1 else 0)
            + length (encode_loop o (if line_full o already then 0 else already + 1) rest))
unfolding encode_loop group3
length-encode_loop_group o already c1 c2 c3 rest = omega (
  arith,
  length-line_end (line_full o already)
      (encode_loop o (if line_full o already then 0 else already + 1) rest),
)

length-encode_loop_tail :
    (o : Base64Options) (already c1 c2 : ℕ)
    → (length (encode_loop o already (c1 ∷ c2 ∷ [])) ≤ 4)
      × (length (encode_loop o already (c1 ∷ [])) ≤ 4)
      × (length (encode_loop o already []) ≡ 0)
unfolding encode_loop
length-encode_loop_tail o already c1 c2 = ((length-tails o c1 c2).0, (length-tails o c1 c2).1, refl)

length-encode_loop :
    (o : Base64Options) (already : ℕ) (xs : List ℕ)
    → (o.wrap ≡ true → already < 19)
    → length (encode_loop o already xs)
      ≤ (length xs / 3 + 1) * 4 + newlines o.wrap already (length xs / 3)
length-encode_loop o already (c1 ∷ c2 ∷ c3 ∷ rest) h =
    rw (length-encode_loop_group o already c1 c2 c3 rest) (elim (Bool-cases (line_full o already)) [
      | inl e ↦
          let (w, full) = line_full-true o already e in
          let small = h w in
          let ih = length-encode_loop o 0 rest (λ _. omega arith) in
          rw e (rw w (let ih' = rw w at ih in omega arith))
      | inr e ↦
          let ih = length-encode_loop o (already + 1) rest (line_full-false o already e) in
          rw e (ground (arith, ih))
    ])
length-encode_loop o already (c1 ∷ c2 ∷ []) h =
    omega (arith, (length-encode_loop_tail o already c1 c2).0)
length-encode_loop o already (c1 ∷ []) h =
    omega (arith, (length-encode_loop_tail o already c1 c1).1)
length-encode_loop o already [] h = omega (arith, (length-encode_loop_tail o already 0 0).2)

-- The encoded text fits into the buffer that is allocated for it.
pub length-encode :
    (xs : List ℕ) (o : Base64Options) → length (encode xs o) ≤ encode_size (length xs) o
unfolding encode encode_size
length-encode xs o = let h = length-encode_loop o 0 xs (λ _. omega arith) in ground (arith, h)
