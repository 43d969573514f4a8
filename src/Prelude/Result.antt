-- ===== src/Prelude/Result.antt =====
-- Code that may throw: the value, or what is thrown, for each component's own type of exceptions.
use parser.Prelude.{◌≡◌, refl, List, [], ◌++◌}

pub data Result {ℓ} (E A : Type ℓ) : Type ℓ where
  ok : A → Result E A
  err : E → Result E A

infixl 5 ◌>>=◌
abbrev pub ◌>>=◌ {ℓ} : {E A B : Type ℓ} → Result E A → (A → Result E B) → Result E B
ok a >>= f = f a
err e >>= f = err e

-- Bytes written in front of those of a later step.
abbrev pub prepend {ℓ} : {E A : Type ℓ} → List A → Result E (List A) → Result E (List A)
prepend xs (ok ys) = ok (xs ++ ys)
prepend xs (err e) = err e

-- The computation returns a value that satisfies the predicate.
abbrev pub Returns {ℓ κ} : {E A : Type ℓ} → (A → Type κ) → Result E A → Type (ℓ ⊔ κ)
Returns {A} P r = (a : A) × (r ≡ ok a) × P a

pub prepend-nil {ℓ} : {E A : Type ℓ} (r : Result E (List A)) → prepend [] r ≡ r
prepend-nil (ok xs) = refl
prepend-nil (err e) = refl
