-- ===== src/Dictionary.antt =====
-- Dictionaries of src/main/pa_dictionary.C and src/include/pa_dictionary.h: rules of replacement, with the
-- line of the first rule for each first byte. A text is the list of its bytes.
pub mod First
use parser.Prelude.{
  ℕ, zero, suc, ◌+◌, ◌-◌, Bool, true, false, Option, none, some, List, [], ◌∷◌, ◌++◌, ltb, ◌==◌,
  if◌then◌else◌,
}
use parser.Prelude.Result.{Result, ok, err, ◌>>=◌}
use parser.Text.{has_prefix}

pub data DictionaryError : Type 0 where
  empty_from : DictionaryError

-- An empty `to` is kept as none.
pub record Subst : Type 0 where
  pub from : List ℕ
  pub to : Option (List ℕ)

-- `starting_line_of` counts the lines from 1; 0 is a byte with which no rule starts.
pub record Dictionary : Type 0 where
  pub substs : List Subst
  pub starting_line_of : ℕ → ℕ
  pub constructor_line : ℕ

abbrev pub no_substs : Dictionary
no_substs = record { substs = []; starting_line_of = λ c. 0; constructor_line = 1 }

abbrev pub not_empty : Option (List ℕ) → Option (List ℕ)
not_empty none = none
not_empty (some []) = none
not_empty (some (c ∷ cs)) = some (c ∷ cs)

-- `if(!starting_line_of[c]) starting_line_of[c]=constructor_line;`
unfoldable pub note_line : (ℕ → ℕ) → ℕ → ℕ → ℕ → ℕ
note_line lines c line k = if k == c then if lines c == 0 then line else lines c else lines k

unfoldable pub append_subst :
    List ℕ → Option (List ℕ) → Dictionary → Result DictionaryError Dictionary
unfolding note_line
append_subst [] to d = err empty_from
append_subst (c ∷ cs) to d = ok (record {
  substs = d.substs ++ (record { from = c ∷ cs; to = not_empty to } ∷ []);
  starting_line_of = note_line d.starting_line_of c d.constructor_line;
  constructor_line = d.constructor_line + 1;
})

-- The rows of a table: the first column, and the second one if there is one.
unfoldable pub append_rows :
    List (List ℕ × Option (List ℕ)) → Dictionary → Result DictionaryError Dictionary
append_rows [] d = ok d
append_rows ((from, to) ∷ rows) d = append_subst from to d >>= append_rows rows

-- The constructors from a table and from a pair.
unfoldable pub from_table : List (List ℕ × Option (List ℕ)) → Result DictionaryError Dictionary
unfolding append_rows
from_table rows = append_rows rows no_substs

unfoldable pub from_pair : List ℕ → List ℕ → Result DictionaryError Dictionary
unfolding append_subst
from_pair from to = append_subst from (some to) no_substs

-- `Array::first_that` with the callback `starts`, which counts `line` down to 1 first.
unfoldable pub first_that : ℕ → List Subst → List ℕ → Option Subst
first_that line [] str = none
first_that line (s ∷ ss) str =
    let skipped = first_that (line - 1) ss str in
    let next = first_that line ss str in
    if ltb 1 line then skipped else if has_prefix s.from str then some s else next

abbrev pub first_byte : List ℕ → ℕ
first_byte [] = 0
first_byte (c ∷ cs) = c

unfoldable pub first_that_begins : Dictionary → List ℕ → Option Subst
unfolding first_that
first_that_begins d str =
    let line = d.starting_line_of (first_byte str) in
    if line == 0 then none else first_that line d.substs str
