-- ===== src/Tests/Dictionary.antt =====
-- A dictionary of three rules, and its theorem at it.
use parser.Prelude.{ℕ, ◌≡◌, refl, Option, none, some, List, [], ◌∷◌, map, codes, arith}
use parser.Prelude.Result.{Result, err, ◌>>=◌, Returns, ok}
use parser.Dictionary.{
  DictionaryError, Subst, append_subst, from_table, from_pair, first_that_begins, empty_from,
}
use parser.Text.{has_prefix}
use parser.Dictionary.First.{first_match, rule, first_that_begins-from_table}

abbrev rows : List (List ℕ × Option (List ℕ))
rows = (codes "<", some (codes "&lt;")) ∷ (codes "ab", none) ∷ (codes "a", some (codes "A")) ∷ []

-- What the dictionary of the rows finds.
abbrev found : List ℕ → Result DictionaryError (Option Subst)
found str = from_table rows >>= λ d. ok (first_that_begins d str)

finds_third : found (codes "ac") ≡ ok (some (record { from = codes "a"; to = some (codes "A") }))
unfolding from_table append_subst first_that_begins has_prefix
finds_third = refl

empty_pair : from_pair [] (codes "a") ≡ err empty_from
unfolding from_pair
empty_pair = refl

first_that_begins-from_table_example :
    Returns
      (λ d. first_that_begins d (codes "abc") ≡ first_match (map rule rows) (codes "abc"))
      (from_table rows)
first_that_begins-from_table_example =
    first_that_begins-from_table rows (codes "abc") (omega arith, (omega arith, (omega arith, tt)))
