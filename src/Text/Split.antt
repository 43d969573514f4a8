-- ===== src/Text/Split.antt =====
-- Texts of src/main/pa_common.C that are cut at a byte: `strchr`, `memchr`, `getrow`, `lsplit`, `rsplit`.
use parser.Prelude.{
  ℕ, ◌≡◌, ap, Bool, true, false, Option, none, some, List, [], ◌∷◌, ◌++◌, ◌==◌, ==_iff,
  if◌then◌else◌, All, if_cases,
}
use parser.Text.{split_first, lsplit, rsplit, split_last, cut}

unfoldable pub Lacks : ℕ → List ℕ → Type 0
Lacks d s = All (λ c. (c == d) ≡ false) s

-- What a search for the first byte `d` found.
unfoldable pub Split : ℕ → List ℕ → Option (List ℕ × List ℕ) → Type 0
Split d s none = Lacks d s
Split d s (some (before, after)) = (s ≡ before ++ (d ∷ after)) × Lacks d before

Split-cons :
    (d c : ℕ) (s : List ℕ) (o : Option (List ℕ × List ℕ))
    → (c == d) ≡ false
    → Split d s o
    → Split d (c ∷ s) (elim o as (λ x. Option (List ℕ × List ℕ)) [
      | none ↦ none
      | some (before, after) ↦ some (c ∷ before, after)
    ])
unfolding Split Lacks
Split-cons d c s none h hs = (h, hs)
Split-cons d c s (some (before, after)) h (e, hs) = (ap (λ t. c ∷ t) e, (h, hs))

pub split_first-Split : (d : ℕ) (s : List ℕ) → Split d s (split_first d s)
unfolding split_first Split Lacks
split_first-Split d [] = tt
split_first-Split d (c ∷ cs) =
    if_cases (Split d (c ∷ cs)) (c == d) (λ e. (ap (λ x. x ∷ cs) ((==_iff c d).0 e), tt))
      (λ e. Split-cons d c cs (split_first d cs) e (split_first-Split d cs))

-- The same for the last byte.
SplitLast : ℕ → List ℕ → Option (List ℕ × List ℕ) → Type 0
SplitLast d s none = Lacks d s
SplitLast d s (some (before, after)) = (s ≡ before ++ (d ∷ after)) × Lacks d after

split_last-SplitLast : (d : ℕ) (s : List ℕ) → SplitLast d s (split_last (λ c. c == d) s)
unfolding split_last SplitLast Lacks
split_last-SplitLast d [] = tt
split_last-SplitLast d (c ∷ cs) = by_rest (split_last (λ c. c == d) cs) (split_last-SplitLast d cs)
  where
    by_rest :
        (o : Option (List ℕ × List ℕ))
        → SplitLast d cs o
        → SplitLast d (c ∷ cs) (elim o as (λ x. Option (List ℕ × List ℕ)) [
          | some (before, after) ↦ some (c ∷ before, after)
          | none ↦ if c == d then some ([], cs) else none
        ])
    by_rest none hs =
        if_cases (SplitLast d (c ∷ cs)) (c == d) (λ e. (ap (λ x. x ∷ cs) ((==_iff c d).0 e), hs))
          (λ e. (e, hs))
    by_rest (some (before, after)) (e, hs) = (ap (λ t. c ∷ t) e, hs)

-- A text was cut at a delimiter, which was in none of the first (or the last) piece, or left
-- as it was, since it has none.
pub data IsCut (d : ℕ) (s : List ℕ) (first : Bool) : List ℕ × Option (List ℕ) → Type 0 where
  whole : Lacks d s → IsCut d s first (s, none)
  pieces :
      (before after : List ℕ)
      → s ≡ before ++ (d ∷ after)
      → Lacks d (if first then before else after)
      → IsCut d s first (before, some after)

-- For every text and delimiter `lsplit` cuts it at the first delimiter and `rsplit` at the last
-- one, so that the pieces with the delimiter between them are the text again; without a
-- delimiter both leave the text and return nothing.
pub lsplit-rsplit :
    (s : List ℕ) (d : ℕ) → IsCut d s true (lsplit s d) × IsCut d s false (rsplit s d)
unfolding lsplit rsplit Split SplitLast
lsplit-rsplit s d = (
  first (split_first d s) (split_first-Split d s),
  last (split_last (λ c. c == d) s) (split_last-SplitLast d s),
)
  where
    first : (o : Option (List ℕ × List ℕ)) → Split d s o → IsCut d s true (cut s o)
    first none hs = whole hs
    first (some (before, after)) (e, hs) = pieces before after e hs

    last : (o : Option (List ℕ × List ℕ)) → SplitLast d s o → IsCut d s false (cut s o)
    last none hs = whole hs
    last (some (before, after)) (e, hs) = pieces before after e hs
