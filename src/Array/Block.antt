-- ===== src/Array/Block.antt =====
-- Blocks of memory as lists: a copy into a block, and what is in use of it behind the copy.
use parser.Prelude.{
  ℕ, zero, suc, ◌+◌, ◌≤◌, ◌<◌, ◌≡◌, refl, ap, List, [], ◌∷◌, ◌++◌, arith, length, set, take, drop,
}

module _ {ℓ} {T : Type ℓ} where
  -- `memcpy` and `memmove` to the cell `i` of a block.
  unfoldable pub overwrite : List T → ℕ → List T → List T
  overwrite [] i xs = []
  overwrite (d ∷ ds) (suc i) xs = d ∷ overwrite ds i xs
  overwrite (d ∷ ds) zero [] = d ∷ ds
  overwrite (d ∷ ds) zero (x ∷ xs) = x ∷ overwrite ds zero xs

  pub length-overwrite :
      (ds : List T) (i : ℕ) (xs : List T) → length (overwrite ds i xs) ≡ length ds
  unfolding overwrite
  length-overwrite [] i xs = refl
  length-overwrite (d ∷ ds) (suc i) xs = ap suc (length-overwrite ds i xs)
  length-overwrite (d ∷ ds) zero [] = refl
  length-overwrite (d ∷ ds) zero (x ∷ xs) = ap suc (length-overwrite ds zero xs)

  -- A copy that fits stands behind what was in front of it.
  pub take-overwrite :
      (ds : List T) (i n : ℕ) (xs : List T)
      → i + length xs ≡ n
      → n ≤ length ds
      → take n (overwrite ds i xs) ≡ take i ds ++ xs
  unfolding overwrite
  take-overwrite [] zero zero [] e h = refl
  take-overwrite [] (suc i) zero xs e h = absurd (omega arith)
  take-overwrite [] zero zero (x ∷ xs) e h = absurd (omega arith)
  take-overwrite [] i (suc n) xs e h = absurd (omega arith)
  take-overwrite (d ∷ ds) (suc i) zero xs e h = absurd (omega arith)
  take-overwrite (d ∷ ds) (suc i) (suc n) xs e h =
      ap (λ t. d ∷ t) (take-overwrite ds i n xs (omega arith) (omega arith))
  take-overwrite (d ∷ ds) zero zero [] e h = refl
  take-overwrite (d ∷ ds) zero (suc n) [] e h = absurd (omega arith)
  take-overwrite (d ∷ ds) zero zero (x ∷ xs) e h = absurd (omega arith)
  take-overwrite (d ∷ ds) zero (suc n) (x ∷ xs) e h =
      ap (λ t. x ∷ t) (take-overwrite ds zero n xs (omega arith) (omega arith))

  pub take-take : (m n : ℕ) (xs : List T) → m ≤ n → take m (take n xs) ≡ take m xs
  take-take zero n xs h = refl
  take-take (suc m) zero xs h = absurd (omega arith)
  take-take (suc m) (suc n) [] h = refl
  take-take (suc m) (suc n) (x ∷ xs) h = ap (λ t. x ∷ t) (take-take m n xs (omega arith))

  pub drop-take : (m n k : ℕ) (xs : List T) → m + k ≡ n → drop m (take n xs) ≡ take k (drop m xs)
  drop-take zero n k xs e = ap (λ j. take j xs) (omega arith)
  drop-take (suc m) zero k xs e = absurd (omega arith)
  drop-take (suc m) (suc n) zero [] e = refl
  drop-take (suc m) (suc n) (suc k) [] e = refl
  drop-take (suc m) (suc n) k (x ∷ xs) e = drop-take m n k xs (omega arith)

  pub take-set : (n i : ℕ) (v : T) (xs : List T) → take n (set xs i v) ≡ set (take n xs) i v
  take-set zero i v xs = refl
  take-set (suc n) i v [] = refl
  take-set (suc n) zero v (x ∷ xs) = refl
  take-set (suc n) (suc i) v (x ∷ xs) = ap (λ t. x ∷ t) (take-set n i v xs)

  -- The cell behind the first `i`, written.
  pub set-append :
      (i : ℕ) (v : T) (xs ys : List T)
      → i < length xs
      → set (take (suc i) xs ++ ys) i v ≡ take i xs ++ v ∷ ys
  set-append i v [] ys h = absurd (omega arith)
  set-append zero v (x ∷ xs) ys h = refl
  set-append (suc i) v (x ∷ xs) ys h = ap (λ t. x ∷ t) (set-append i v xs ys (omega arith))
