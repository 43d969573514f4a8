-- ===== src/Tests/Array.antt =====
-- Arrays of numbers, and the theorems about arrays at them.
use parser.Prelude.{ℕ, ◌<◌, ◌≡◌, refl, true, [], ◌∷◌, ◌++◌, take, drop, arith}
use parser.Array.Elements.{IsValid, elements, Holds, push-Holds}
use parser.Array.Change.{append-Holds, insert-Holds, remove-Holds}
use parser.Array.{Array, ActionOptions, adjust, push, append, insert, remove}

abbrev empty : Array ℕ
empty = record { felements = []; fallocated = 0; fsize = 0 }

empty-IsValid : IsValid empty
empty-IsValid = record { block = refl; in_use = omega arith }

-- Four elements, of which the first and the fourth make the block grow.
abbrev four : Array ℕ
four = push 0 40 (push 0 30 (push 0 20 (push 0 10 empty)))

four-IsValid : IsValid four
four-IsValid =
    (push-Holds 0 40 _
      (push-Holds 0 30 _
        (push-Holds 0 20 _ (push-Holds 0 10 empty empty-IsValid).valid).valid).valid).valid

elements-four : elements four ≡ 10 ∷ 20 ∷ 30 ∷ 40 ∷ []
unfolding push
elements-four = refl

four_allocated : four.fallocated ≡ 6
unfolding push
four_allocated = refl

two_to_three : elements (append 0 four 1 2 four) ≡ 10 ∷ 20 ∷ 30 ∷ 40 ∷ 20 ∷ 30 ∷ []
unfolding push append
two_to_three = refl

abbrev backwards : ActionOptions
backwards = record { offset = 2; limit = 10; reverse = true }

backwards_defined : (adjust 4 backwards).0 ≡ true
unfolding adjust
backwards_defined = refl

append-Holds_example :
    Holds (elements four ++ take 2 (drop 1 (elements four))) (append 0 four 1 2 four)
append-Holds_example = append-Holds 0 four four 1 2 four-IsValid four-IsValid

insert-Holds_example :
    Holds (take 0 (elements empty) ++ 15 ∷ drop 0 (elements empty)) (insert 0 0 15 empty)
insert-Holds_example = insert-Holds 0 0 15 empty empty-IsValid (omega arith)

four_size : 2 < four.fsize
unfolding push
four_size = omega arith

remove-Holds_example : Holds (take 2 (elements four) ++ drop 3 (elements four)) (remove 2 four)
remove-Holds_example = remove-Holds 2 four four-IsValid four_size
