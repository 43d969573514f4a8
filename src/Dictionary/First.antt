-- ===== src/Dictionary/First.antt =====
-- `Dictionary::first_that_begins` of src/main/pa_dictionary.C, against a search of all the rules.
use parser.Prelude.{
  ℕ, zero, suc, ◌-◌, ◌≤◌, ◌≡◌, ◌⊎◌, refl, sym, ap, ◌∙◌, subst, true, false, Option, none, some,
  List, [], ◌∷◌, ◌++◌, ltb, ◌==◌, ==_iff, if◌then◌else◌, length, length-append, take-append, map,
  append-nil, append_assoc, take, All, All-append, if_cases, inl, inr, arith,
}
use parser.Prelude.Result.{Returns, ◌>>=◌}
use parser.Text.{has_prefix}
use parser.Dictionary.{
  Subst, Dictionary, no_substs, not_empty, note_line, append_subst, append_rows, from_table,
  first_that, first_byte, first_that_begins,
}

-- The first rule whose text the given text starts with.
unfoldable pub first_match : List Subst → List ℕ → Option Subst
first_match [] str = none
first_match (s ∷ ss) str =
    let rest = first_match ss str in if has_prefix s.from str then some s else rest

Avoids : ℕ → Subst → Type 0
Avoids c s = ((1 ≤ length s.from) × ((first_byte s.from == c) ≡ false))

-- What `starting_line_of` says of a byte: no rule starts with it, or none in front of the line.
Marks : List Subst → ℕ → ℕ → Type 0
Marks ss c zero = All (Avoids c) ss
Marks ss c (suc line) = (line ≤ length ss) × All (Avoids c) (take line ss)

record IsValid (d : Dictionary) : Type 0 where
  lines : d.constructor_line ≡ suc (length d.substs)
  marks : (c : ℕ) → Marks d.substs c (d.starting_line_of c)
  filled : All (λ s. 1 ≤ length s.from) d.substs

has_prefix-Avoids :
    (c : ℕ) (s : Subst) (cs : List ℕ) → Avoids c s → has_prefix s.from (c ∷ cs) ≡ false
unfolding has_prefix Avoids
has_prefix-Avoids c s cs (h, e) = by_from s.from h e
  where
    by_from :
        (from : List ℕ)
        → 1 ≤ length from
        → (first_byte from == c) ≡ false
        → has_prefix from (c ∷ cs) ≡ false
    by_from [] h e = absurd (omega arith)
    by_from (x ∷ xs) h e = rw e refl

first_match-Avoids :
    (c : ℕ) (cs : List ℕ) (ss : List Subst) → All (Avoids c) ss → first_match ss (c ∷ cs) ≡ none
unfolding first_match
first_match-Avoids c cs [] hs = refl
first_match-Avoids c cs (s ∷ ss) (h, hs) =
    rw (has_prefix-Avoids c s cs h) (first_match-Avoids c cs ss hs)

-- From the first line on the search sees every rule, and before it skips rules that do not match.
first_that-match : (str : List ℕ) (ss : List Subst) → first_that 1 ss str ≡ first_match ss str
unfolding first_that first_match
first_that-match str [] = refl
first_that-match str (s ∷ ss) = rw (first_that-match str ss) refl

first_that-skips :
    (c : ℕ) (cs : List ℕ) (line : ℕ) (ss : List Subst)
    → All (Avoids c) (take line ss)
    → first_that (suc line) ss (c ∷ cs) ≡ first_match ss (c ∷ cs)
unfolding first_that first_match
first_that-skips c cs zero ss hs = first_that-match (c ∷ cs) ss
first_that-skips c cs (suc line) [] hs = refl
first_that-skips c cs (suc line) (s ∷ ss) (h, hs) =
    let many : ltb 1 (suc (suc line)) ≡ true = ground arith in
    rw (many, has_prefix-Avoids c s cs h)
      (ap (λ l. first_that l ss (c ∷ cs)) (omega arith) ∙ first_that-skips c cs line ss hs)

has_prefix-nil : (from : List ℕ) → 1 ≤ length from → has_prefix from [] ≡ false
unfolding has_prefix
has_prefix-nil [] h = absurd (omega arith)
has_prefix-nil (x ∷ xs) h = refl

first_match-nil : (ss : List Subst) → All (λ s. 1 ≤ length s.from) ss → first_match ss [] ≡ none
unfolding first_match
first_match-nil [] hs = refl
first_match-nil (s ∷ ss) (h, hs) = rw (has_prefix-nil s.from h) (first_match-nil ss hs)

first_that-nil :
    (line : ℕ) (ss : List Subst) → All (λ s. 1 ≤ length s.from) ss → first_that line ss [] ≡ none
unfolding first_that
first_that-nil line [] hs = refl
first_that-nil line (s ∷ ss) (h, hs) =
    if_cases (λ r. r ≡ none) (ltb 1 line) (λ e. first_that-nil (line - 1) ss hs)
      (λ e. rw (has_prefix-nil s.from h) (first_that-nil line ss hs))

first_that_begins-first_match :
    (d : Dictionary) (str : List ℕ) → IsValid d → first_that_begins d str ≡ first_match d.substs str
unfolding first_that_begins Marks
first_that_begins-first_match d str valid =
    by_line str (d.starting_line_of (first_byte str)) (valid.marks (first_byte str))
  where
    by_line :
        (str : List ℕ) (line : ℕ)
        → Marks d.substs (first_byte str) line
        → (if line == 0 then none else first_that line d.substs str) ≡ first_match d.substs str
    by_line [] line m =
        if_cases (λ r. r ≡ first_match d.substs []) (line == 0)
          (λ e. sym (first_match-nil d.substs valid.filled))
          (λ e.
            first_that-nil line d.substs valid.filled ∙ sym (first_match-nil d.substs valid.filled))
    by_line (c ∷ cs) zero m = sym (first_match-Avoids c cs d.substs m)
    by_line (c ∷ cs) (suc line) (h, hs) =
        let later : (suc line == 0) ≡ false = ground arith in
        rw later (first_that-skips c cs line d.substs hs)

-- The rules that the rows of a table mean.
abbrev pub rule : List ℕ × Option (List ℕ) → Subst
rule (from, to) = record { from = from; to = not_empty to }

no_substs-IsValid : IsValid no_substs
unfolding Marks
no_substs-IsValid = record { lines = refl; marks = λ c. tt; filled = tt }

take-front : {A : Type 0} (n : ℕ) (xs ys : List A) → n ≤ length xs → take n (xs ++ ys) ≡ take n xs
take-front zero xs ys h = refl
take-front (suc n) [] ys h = absurd (omega arith)
take-front (suc n) (x ∷ xs) ys h = ap (λ t. x ∷ t) (take-front n xs ys (omega arith))

Marks-append :
    (ss : List Subst) (c : ℕ) (line : ℕ) (s : Subst)
    → Avoids c s ⊎ (1 ≤ line)
    → Marks ss c line
    → Marks (ss ++ (s ∷ [])) c line
unfolding Marks
Marks-append ss c zero s (inl a) hs = All-append (Avoids c) ss (s ∷ []) hs (a, tt)
Marks-append ss c zero s (inr h) hs = absurd (omega arith)
Marks-append ss c (suc line) s _ (h, hs) = (
  omega (arith, length-append ss (s ∷ [])),
  subst (All (Avoids c)) (sym (take-front line ss (s ∷ []) h)) hs,
)

-- A byte without a rule gets the next line.
Marks-next :
    (ss : List Subst) (c : ℕ) (line : ℕ) (s : Subst)
    → line ≡ suc (length ss)
    → Marks ss c 0
    → Marks (ss ++ (s ∷ [])) c line
unfolding Marks
Marks-next ss c line s e hs = subst (Marks (ss ++ (s ∷ [])) c) (sym e) (
  omega (arith, length-append ss (s ∷ [])),
  subst (All (Avoids c)) (sym (take-append ss (s ∷ []))) hs,
)

note_line-Marks :
    (ss : List Subst) (lines : ℕ → ℕ) (c line : ℕ) (s : Subst)
    → line ≡ suc (length ss)
    → first_byte s.from ≡ c
    → 1 ≤ length s.from
    → ((k : ℕ) → Marks ss k (lines k))
    → (k : ℕ) → Marks (ss ++ (s ∷ [])) k (note_line lines c line k)
unfolding note_line Avoids
note_line-Marks ss lines c line s e same some_byte marks k =
    if_cases (Marks (ss ++ (s ∷ [])) k) (k == c)
      (λ here.
        let k≡c = (==_iff k c).0 here in
        subst (λ b. Marks (ss ++ (s ∷ [])) b (if lines c == 0 then line else lines c)) (sym k≡c)
          (if_cases (Marks (ss ++ (s ∷ [])) c) (lines c == 0)
            (λ new.
              Marks-next ss c line s e (subst (Marks ss c) ((==_iff (lines c) 0).0 new) (marks c)))
            (λ old. Marks-append ss c (lines c) s (inr (ground arith)) (marks c))))
      (λ other. Marks-append ss k (lines k) s (inl (some_byte, ground arith)) (marks k))

append_subst-IsValid :
    (c : ℕ) (cs : List ℕ) (to : Option (List ℕ)) (d : Dictionary)
    → IsValid d
    → Returns
        (λ e. IsValid e × (e.substs ≡ d.substs ++ (rule (c ∷ cs, to) ∷ [])))
        (append_subst (c ∷ cs) to d)
unfolding append_subst
append_subst-IsValid c cs to d valid = (
  _,
  refl,
  (
    record {
      lines = omega (arith, valid.lines, length-append d.substs (rule (c ∷ cs, to) ∷ []));
      marks =
          note_line-Marks d.substs d.starting_line_of c d.constructor_line (rule (c ∷ cs, to))
            valid.lines refl (omega arith) valid.marks;
      filled =
          All-append (λ s. 1 ≤ length s.from) d.substs (rule (c ∷ cs, to) ∷ []) valid.filled
            (omega arith, tt);
    },
    refl,
  ),
)

append_rows-IsValid :
    (rows : List (List ℕ × Option (List ℕ))) (d : Dictionary)
    → All (λ row. 1 ≤ length row.0) rows
    → IsValid d
    → Returns (λ e. IsValid e × (e.substs ≡ d.substs ++ map rule rows)) (append_rows rows d)
unfolding append_rows
append_rows-IsValid [] d hs valid = (d, refl, (valid, sym (append-nil d.substs)))
append_rows-IsValid (([], to) ∷ rows) d (h, hs) valid = absurd (omega arith)
append_rows-IsValid ((c ∷ cs, to) ∷ rows) d (h, hs) valid =
    let (e, appends, (e_valid, e_rules)) = append_subst-IsValid c cs to d valid in
    let (f, runs, (f_valid, f_rules)) = append_rows-IsValid rows e hs e_valid in
    (
      f,
      ap (λ r. r >>= append_rows rows) appends ∙ runs,
      (
        f_valid,
        f_rules
            ∙ ap (λ t. t ++ map rule rows) e_rules
            ∙ append_assoc d.substs (rule (c ∷ cs, to) ∷ []) (map rule rows),
      ),
    )

-- For the rows of a table in which no `from` is empty the constructor returns a dictionary, and for
-- any text `first_that_begins` then finds the first of all the rules whose `from` the text starts
-- with, and none if there is none; the rules that the first bytes let it skip never match.
pub first_that_begins-from_table :
    (rows : List (List ℕ × Option (List ℕ))) (str : List ℕ)
    → All (λ row. 1 ≤ length row.0) rows
    → Returns (λ d. first_that_begins d str ≡ first_match (map rule rows) str) (from_table rows)
unfolding from_table
first_that_begins-from_table rows str hs =
    let (d, runs, (valid, rules)) = append_rows-IsValid rows no_substs hs no_substs-IsValid in
    (d, runs, first_that_begins-first_match d str valid ∙ ap (λ ss. first_match ss str) rules)
