-- ===== src/Text/Lines.antt =====
-- `fix_line_breaks` of src/main/pa_common.C, against a machine that reads byte by byte.
use parser.Prelude.{
  ℕ, zero, suc, ◌+◌, ◌-◌, ◌≤◌, ◌<◌, ◌≡◌, refl, sym, ap, ◌∙◌, Bool, true, false, ◌&&◌, Option, none,
  some, List, [], ◌∷◌, ◌++◌, ◌==◌, if◌then◌else◌, length, length-append, if_cases, subst, arith,
}
use parser.Text.{split_first, skip_newline, fix_loop, fix_line_breaks}
use parser.Text.Split.{Lacks, Split, split_first-Split}

-- The line breaks of DOS and of Macintosh as '\n'; `after` tells that the byte before was a '\r'.
unfoldable pub normalized : Bool → List ℕ → List ℕ
normalized after [] = []
normalized after (c ∷ cs) =
    let same = normalized false cs in
    let returned = normalized true cs in
    if after && (c == b'\n') then same else if c == b'\r' then b'\n' ∷ returned else c ∷ same

normalized-Lacks : (after : Bool) (s : List ℕ) → Lacks b'\r' (normalized after s)
unfolding normalized Lacks
normalized-Lacks after [] = tt
normalized-Lacks after (c ∷ cs) =
    if_cases (Lacks b'\r') (after && (c == b'\n')) (λ e. normalized-Lacks false cs)
      (λ e.
        if_cases (Lacks b'\r') (c == b'\r') (λ f. (refl, normalized-Lacks true cs))
          (λ f. (f, normalized-Lacks false cs)))

normalized-line : (line : List ℕ) → Lacks b'\r' line → normalized false line ≡ line
unfolding normalized Lacks
normalized-line [] hs = refl
normalized-line (c ∷ cs) (h, hs) = rw h (ap (λ t. c ∷ t) (normalized-line cs hs))

normalized-append :
    (line rest : List ℕ)
    → Lacks b'\r' line
    → normalized false (line ++ (b'\r' ∷ rest)) ≡ line ++ (b'\n' ∷ normalized true rest)
unfolding normalized Lacks
normalized-append [] rest hs = refl
normalized-append (c ∷ cs) rest (h, hs) = rw h (ap (λ t. c ∷ t) (normalized-append cs rest hs))

-- What is fixed, and the length that is left of `n`.
Fixed : List ℕ → List ℕ → ℕ → List ℕ × ℕ → Type 0
Fixed expected bol n r = (r.0 ≡ expected) × (r.1 + length bol ≡ n + length expected)

-- Behind a '\r'.
skip_newline-normalized :
    (rest : List ℕ) (n : ℕ)
    → length rest < n
    → (normalized false (skip_newline rest n).0 ≡ normalized true rest)
      × ((skip_newline rest n).1 + length rest ≡ n + length (skip_newline rest n).0)
      × (length (skip_newline rest n).0 ≤ (skip_newline rest n).1)
      × (length (skip_newline rest n).0 ≤ length rest)
unfolding skip_newline normalized
skip_newline-normalized [] n h = (refl, omega arith, omega arith, omega arith)
skip_newline-normalized (c ∷ cs) n h = by_test (c == b'\n')
  where
    by_test :
        (newline : Bool)
        → let r : List ℕ × ℕ = if newline then (cs, n - 1) else (c ∷ cs, n) in
          (normalized false r.0 ≡ (
            if newline
            then normalized false cs
            else if c == b'\r'
            then b'\n' ∷ normalized true cs
            else c ∷ normalized false cs))
          × (r.1 + length (c ∷ cs) ≡ n + length r.0)
          × (length r.0 ≤ r.1)
          × (length r.0 ≤ length (c ∷ cs))
    by_test true = (refl, omega arith, omega arith, omega arith)
    by_test false = (refl, omega arith, omega arith, omega arith)

fix_loop-Fixed :
    (rounds : ℕ) (bol : List ℕ) (n : ℕ)
    → length bol ≤ rounds
    → length bol ≤ n
    → Fixed (normalized false bol) bol n (fix_loop rounds bol n)
unfolding fix_loop normalized Fixed Split
fix_loop-Fixed zero [] n h k = (refl, refl)
fix_loop-Fixed zero (c ∷ cs) n h k = absurd (omega arith)
fix_loop-Fixed (suc rounds) bol n h k =
    by_split (split_first b'\r' bol) (split_first-Split b'\r' bol) (fix_loop-Fixed rounds)
  where
    by_split :
        (o : Option (List ℕ × List ℕ))
        → Split b'\r' bol o
        → ((rest : List ℕ) (m : ℕ)
            → length rest ≤ rounds
            → length rest ≤ m
            → Fixed (normalized false rest) rest m (fix_loop rounds rest m))
        → Fixed (normalized false bol) bol n (elim o as (λ x. List ℕ × ℕ) [
          | none ↦ (bol, n)
          | some (line, rest) ↦
              let next = skip_newline rest n in
              let fixed = fix_loop rounds next.0 next.1 in (line ++ (b'\n' ∷ fixed.0), fixed.1)
        ])
    by_split none hs ih =
        (sym (normalized-line bol hs), ap (λ b. n + length b) (sym (normalized-line bol hs)))
    by_split (some (line, rest)) (e, hs) ih =
        let size : length bol ≡ length line + suc (length rest) =
          ap length e ∙ length-append line (b'\r' ∷ rest) in
        let (same, sum, fits, shorter) = skip_newline-normalized rest n (omega (arith, size, k)) in
        let next = skip_newline rest n in
        let (text, count) = ih next.0 next.1 (omega (arith, size, shorter)) fits in
        let whole : normalized false bol ≡ line ++ (b'\n' ∷ normalized true rest) =
          ap (normalized false) e ∙ normalized-append line rest hs in
        let written : normalized false bol ≡ line ++ (b'\n' ∷ (fix_loop rounds next.0 next.1).0) =
          whole ∙ ap (λ t. line ++ (b'\n' ∷ t)) (sym (text ∙ same)) in
        (
          sym written,
          omega (
            arith,
            sum,
            count,
            size,
            ap length written,
            length-append line (b'\n' ∷ (fix_loop rounds next.0 next.1).0),
            ap length text,
          ),
        )

-- For every text `fix_line_breaks` makes each "\r\n" and each other '\r' a '\n' and leaves the
-- other bytes, as a machine does that only remembers if the byte before was a '\r'; the length it
-- assigns is that of the new text, which has no '\r'.
pub fix_line_breaks-normalized :
    (str : List ℕ)
    → ((fix_line_breaks str).0 ≡ normalized false str)
      × ((fix_line_breaks str).1 ≡ length (fix_line_breaks str).0)
      × Lacks b'\r' (fix_line_breaks str).0
unfolding fix_line_breaks Fixed
fix_line_breaks-normalized str =
    let (text, count) = fix_loop-Fixed (length str) str (length str) (omega arith) (omega arith) in
    (
      text,
      omega (arith, count, ap length text),
      subst (Lacks b'\r') (sym text) (normalized-Lacks false str),
    )
