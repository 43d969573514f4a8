-- ===== src/Number/Format/Grammar.antt =====
-- The formats that `format_type` of src/main/pa_int.C lets through, against a grammar.
use parser.Prelude.{
  ℕ, ◌+◌, ◌-◌, ◌≤◌, ◌≡◌, ◌≢◌, ◌↔◌, refl, sym, ◌∙◌, true, false, none, some, List, [], ◌∷◌, ◌++◌,
  ltb, ◌==◌, length, ◌<◌, take, drop, codes, arith, Bool-cases, inl, inr, length-append,
  length-take, length-drop, subst,
}
use parser.Number.Format.{
  FormatType, format_invalid, format_int, format_uint, format_double, percent, flags, width,
  precision, done, is_flag, is_decimal, type_of, finish_type, on_precision, on_width, format_step,
  format_loop, format_type, max_format_len, wide_int_fmt,
}

-- Digits and the letter of the type.
pub data EndsIn (t : FormatType) : List ℕ → Type 0 where
  letter : (c : ℕ) → type_of c ≡ t → EndsIn t (c ∷ [])
  digit : (c : ℕ) {cs : List ℕ} → is_decimal c ≡ true → EndsIn t cs → EndsIn t (c ∷ cs)

-- A width, a precision behind a dot if there is one, and the letter.
pub data Sized (t : FormatType) : List ℕ → Type 0 where
  plain : {cs : List ℕ} → EndsIn t cs → Sized t cs
  dot : (c : ℕ) {cs : List ℕ} → c ≡ b'.' → EndsIn t cs → Sized t (c ∷ cs)
  wider : (c : ℕ) {cs : List ℕ} → is_decimal c ≡ true → Sized t cs → Sized t (c ∷ cs)

-- Flags in front of that.
pub data Flagged (t : FormatType) : List ℕ → Type 0 where
  sized : {cs : List ℕ} → Sized t cs → Flagged t cs
  flag : (c : ℕ) {cs : List ℕ} → is_flag c ≡ true → Flagged t cs → Flagged t (c ∷ cs)

-- A format is a percent sign and all that.
pub data IsFormat (t : FormatType) : List ℕ → Type 0 where
  format : (c : ℕ) {cs : List ℕ} → c ≡ b'%' → Flagged t cs → IsFormat t (c ∷ cs)

module _ (t : FormatType) (real : t ≢ format_invalid) where
  done_sound : (r : FormatType) (cs : List ℕ) → format_loop done r cs ≡ t → (cs ≡ []) × (r ≡ t)
  unfolding format_loop format_step
  done_sound r [] h = (refl, h)
  done_sound r (c ∷ cs) h = absurd (real (sym h))

  finish_sound :
      (c : ℕ) (cs : List ℕ)
      → (elim (finish_type (type_of c)) [
        | none ↦ format_invalid
        | some (s, r) ↦ format_loop s r cs
      ])
        ≡ t
      → EndsIn t (c ∷ cs)
  unfolding finish_type
  finish_sound c cs h = by_type (type_of c) refl h
    where
      at_end : (k : FormatType) → type_of c ≡ k → (cs ≡ []) × (k ≡ t) → EndsIn t (c ∷ cs)
      at_end k e (none_left, same) =
          subst (λ l. EndsIn t (c ∷ l)) (sym none_left) (letter c (e ∙ same))

      by_type :
          (k : FormatType)
          → type_of c ≡ k
          → (elim (finish_type k) [ none ↦ format_invalid | some (s, r) ↦ format_loop s r cs ]) ≡ t
          → EndsIn t (c ∷ cs)
      by_type format_invalid e g = absurd (real (sym g))
      by_type format_int e g = at_end format_int e (done_sound format_int cs g)
      by_type format_uint e g = at_end format_uint e (done_sound format_uint cs g)
      by_type format_double e g = at_end format_double e (done_sound format_double cs g)

  precision_sound : (cs : List ℕ) → format_loop precision format_invalid cs ≡ t → EndsIn t cs
  unfolding format_loop format_step on_precision
  precision_sound [] h = absurd (real (sym h))
  precision_sound (c ∷ cs) h = elim (Bool-cases (is_decimal c)) [
    | inl d ↦ digit c d (precision_sound cs (rw (format_loop, d) at h))
    | inr d ↦ finish_sound c cs (rw (format_loop, d) at h)
  ]

  width_sound : (cs : List ℕ) → format_loop width format_invalid cs ≡ t → Sized t cs
  unfolding format_loop format_step on_precision on_width
  width_sound [] h = absurd (real (sym h))
  width_sound (c ∷ cs) h = elim (Bool-cases (c == b'.')) [
    | inl p ↦ dot c (ground arith) (precision_sound cs (rw (format_loop, p) at h))
    | inr p ↦ elim (Bool-cases (is_decimal c)) [
      | inl d ↦ wider c d (width_sound cs (rw (format_loop, p, d) at h))
      | inr d ↦ plain (finish_sound c cs (rw (format_loop, p, d) at h))
    ]
  ]

  flags_sound : (cs : List ℕ) → format_loop flags format_invalid cs ≡ t → Flagged t cs
  unfolding format_loop format_step on_precision on_width
  flags_sound [] h = absurd (real (sym h))
  flags_sound (c ∷ cs) h = elim (Bool-cases (is_flag c)) [
    | inl f ↦ flag c f (flags_sound cs (rw (format_loop, f) at h))
    | inr f ↦ elim (Bool-cases (c == b'.')) [
      | inl p ↦ sized (dot c (ground arith) (precision_sound cs (rw (format_loop, f, p) at h)))
      | inr p ↦ elim (Bool-cases (is_decimal c)) [
        | inl d ↦ sized (wider c d (width_sound cs (rw (format_loop, f, p, d) at h)))
        | inr d ↦ sized (plain (finish_sound c cs (rw (format_loop, f, p, d) at h)))
      ]
    ]
  ]

  -- A letter of a type is no flag, no dot and no digit.
  letter_alone :
      (c : ℕ) → type_of c ≡ t → (is_flag c ≡ false) × ((c == b'.') ≡ false) × (is_decimal c ≡ false)
  unfolding type_of
  letter_alone c e = (ground arith, ground arith, ground arith)

  finish_lem : finish_type t ≡ some (done, t)
  unfolding finish_type
  finish_lem = by_type t real
    where
      by_type : (k : FormatType) → k ≢ format_invalid → finish_type k ≡ some (done, k)
      by_type format_invalid h = absurd (h refl)
      by_type format_int h = refl
      by_type format_uint h = refl
      by_type format_double h = refl

  precision_complete : (cs : List ℕ) → EndsIn t cs → format_loop precision format_invalid cs ≡ t
  unfolding format_loop format_step on_precision
  precision_complete _ (letter c e) =
      let (_, _, d) = letter_alone c e in rw (format_loop, d, e, finish_lem) refl
  precision_complete _ (digit c d e) = rw (format_loop, d) (precision_complete _ e)

  -- A dot is no digit and no flag, and a digit is no dot.
  dot_alone : (c : ℕ) → c ≡ b'.' → ((c == b'.') ≡ true) × (is_flag c ≡ false)
  dot_alone c e = (ground arith, ground arith)

  digit_alone : (c : ℕ) → is_decimal c ≡ true → (c == b'.') ≡ false
  digit_alone c d = ground arith

  width_ends : (cs : List ℕ) → EndsIn t cs → format_loop width format_invalid cs ≡ t
  unfolding format_loop format_step on_precision on_width
  width_ends _ (letter c e) =
      let (_, p, d) = letter_alone c e in rw (format_loop, p, d, e, finish_lem) refl
  width_ends _ (digit c d e) = rw (format_loop, digit_alone c d, d) (width_ends _ e)

  width_complete : (cs : List ℕ) → Sized t cs → format_loop width format_invalid cs ≡ t
  unfolding format_loop format_step on_precision on_width
  width_complete cs (plain e) = width_ends cs e
  width_complete _ (dot c p e) = rw (format_loop, (dot_alone c p).0) (precision_complete _ e)
  width_complete _ (wider c d s) = rw (format_loop, digit_alone c d, d) (width_complete _ s)

  flags_ends : (cs : List ℕ) → EndsIn t cs → format_loop flags format_invalid cs ≡ t
  unfolding format_loop format_step on_precision on_width
  flags_ends _ (letter c e) =
      let (f, p, d) = letter_alone c e in rw (format_loop, f, p, d, e, finish_lem) refl
  flags_ends _ (digit c d e) = elim (Bool-cases (is_flag c)) [
    | inl f ↦ rw (format_loop, f) (flags_ends _ e)
    | inr f ↦ rw (format_loop, f, digit_alone c d, d) (width_ends _ e)
  ]

  no_more_in_front : (cs : List ℕ) → Sized t cs → format_loop flags format_invalid cs ≡ t
  unfolding format_loop format_step on_precision on_width
  no_more_in_front cs (plain e) = flags_ends cs e
  no_more_in_front _ (dot c p e) =
      rw (format_loop, (dot_alone c p).1, (dot_alone c p).0) (precision_complete _ e)
  no_more_in_front _ (wider c d s) = elim (Bool-cases (is_flag c)) [
    | inl f ↦ rw (format_loop, f) (no_more_in_front _ s)
    | inr f ↦ rw (format_loop, f, digit_alone c d, d) (width_complete _ s)
  ]

  flags_complete : (cs : List ℕ) → Flagged t cs → format_loop flags format_invalid cs ≡ t
  unfolding format_loop format_step
  flags_complete cs (sized s) = no_more_in_front cs s
  flags_complete _ (flag c f g) = rw (format_loop, f) (flags_complete _ g)

  loop_sound : (cs : List ℕ) → format_loop percent format_invalid cs ≡ t → IsFormat t cs
  unfolding format_loop format_step
  loop_sound [] h = absurd (real (sym h))
  loop_sound (c ∷ cs) h = elim (Bool-cases (c == b'%')) [
    | inl p ↦ format c (ground arith) (flags_sound cs (rw (format_loop, p) at h))
    | inr p ↦ absurd (real (sym (rw (format_loop, p) at h)))
  ]

  loop_complete : (cs : List ℕ) → IsFormat t cs → format_loop percent format_invalid cs ≡ t
  unfolding format_loop format_step
  loop_complete _ (format c p g) =
      let p' : (c == b'%') ≡ true = ground arith in rw (format_loop, p') (flags_complete _ g)

  -- `format_type` finds a type exactly for the formats of the grammar of at most nine bytes.
  pub format_type-IsFormat :
      (fmt : List ℕ) → (format_type fmt ≡ t) ↔ (IsFormat t fmt × (length fmt < max_format_len))
  unfolding format_type
  format_type-IsFormat fmt = elim (Bool-cases (ltb max_format_len (length fmt + 1))) [
    | inl long ↦ (λ h. absurd (real (sym (rw long at h))), λ g. absurd (too_long long g.1))
    | inr short ↦
        (λ h. (loop_sound fmt (rw short at h), ground arith), λ g. rw short (loop_complete fmt g.0))
  ]
    where
      too_long : ltb max_format_len (length fmt + 1) ≡ true → length fmt < max_format_len → ⊥
      too_long long h = ground arith

-- What `wide_int_fmt` writes for a format that was let through fits its buffer with the final zero: it
-- is two bytes longer.
pub wide_int_fmt-length :
    (fmt : List ℕ) (t : FormatType)
    → t ≢ format_invalid
    → format_type fmt ≡ t
    → (length (wide_int_fmt fmt) + 1 ≤ max_format_len + 4)
      × (length (wide_int_fmt fmt) ≡ length fmt + 2)
unfolding wide_int_fmt
wide_int_fmt-length fmt t real h =
    let short = ((format_type-IsFormat t real fmt).0 h).1 in
    let head = length fmt - 1 in
    let size : length (take head fmt ++ (codes "ll" ++ drop head fmt)) ≡ length fmt + 2 = omega (
      arith,
      length-append (take head fmt) (codes "ll" ++ drop head fmt),
      length-append (codes "ll") (drop head fmt),
      length-take head fmt,
      length-drop head fmt,
    ) in
    (omega (arith, size, short), size)
