-- ===== src/Tests/Hash.antt =====
-- Tables of numbers, and the theorems about tables at them.
use parser.Prelude.{ℕ, ◌≡◌, refl, none, some, ◌==◌, ==_iff, if◌then◌else◌, codes}
use parser.Hash.Code.{Key, generic_hash_code, int_hash_code}
use parser.Hash.Update.{IsValid}
use parser.Hash.Growth.{Grown, expand-Grown}
use parser.Hash.View.{
  Stores, put-Stores, remove-Stores, put_replaced-Stores, put_dont_replace-Stores, new_hash-IsValid,
}
use parser.Hash.Chain.Find.{or_else}
use parser.Hash.{
  Hash, new_hash, expand, get, contains, remove, put, put_replaced, put_dont_replace,
  merge_dont_replace,
}

instance abbrev numbers : Key ℕ
numbers = record { hash_code = int_hash_code; same = λ a b. a == b; same_iff = ==_iff }

abbrev empty : Hash ℕ ℕ
empty = new_hash

empty-IsValid : IsValid empty
empty-IsValid = new_hash-IsValid

-- Five keys, of which the fifth makes the table grow.
abbrev filled : Hash ℕ ℕ
filled =
    (put 5 (some 50)
      (put 4 (some 40) (put 3 (some 30) (put 2 (some 20) (put 1 (some 10) empty).1).1).1).1).1

filled-IsValid : IsValid filled
filled-IsValid =
    (put-Stores 5 (some 50) _
      (put-Stores 4 (some 40) _
        (put-Stores 3 (some 30) _
          (put-Stores 2 (some 20) _
            (put-Stores 1 (some 10) empty empty-IsValid).valid).valid).valid).valid).valid

filled_size : filled.allocated ≡ 11
unfolding put new_hash int_hash_code generic_hash_code
filled_size = refl

get-filled : get 3 filled ≡ some 30
unfolding get put new_hash int_hash_code generic_hash_code
get-filled = refl

get_merged : get 9 (merge_dont_replace (put 9 (some 90) empty).1 filled) ≡ some 90
unfolding get put new_hash merge_dont_replace put_dont_replace int_hash_code generic_hash_code
get_merged = refl

-- A pair that comes and goes four times leaves an empty table that counts as full.
abbrev come_and_go : Hash ℕ ℕ → Hash ℕ ℕ
come_and_go h = (remove 1 (put 1 (some 10) h).1).1

churned : Hash ℕ ℕ
churned = (put 1 (some 10) (come_and_go (come_and_go (come_and_go (come_and_go empty))))).1

churned_size : (churned.fpairs_count ≡ 1) × (churned.allocated ≡ 11)
unfolding churned put remove new_hash int_hash_code generic_hash_code
churned_size = (refl, refl)

code_of_text : generic_hash_code 0 (codes "charset") ≡ 0x9e899a4
unfolding generic_hash_code
code_of_text = refl

put-Stores_example : Stores 6 (some 60) filled (put 6 (some 60) filled).1
put-Stores_example = put-Stores 6 (some 60) filled filled-IsValid

remove-Stores_example : Stores 3 none filled (remove 3 filled).1
remove-Stores_example = remove-Stores 3 filled filled-IsValid

put_replaced-Stores_example :
    Stores 3
      (if contains 3 filled then some 33 else none)
      filled
      (put_replaced 3 (some 33) filled).1
put_replaced-Stores_example = put_replaced-Stores 3 33 filled filled-IsValid

put_dont_replace-Stores_example :
    Stores 3 (or_else (get 3 filled) (some 33)) filled (put_dont_replace 3 (some 33) filled).1
put_dont_replace-Stores_example = put_dont_replace-Stores 3 33 filled filled-IsValid

expand-Grown_example : Grown filled (expand filled)
expand-Grown_example = expand-Grown filled filled-IsValid
