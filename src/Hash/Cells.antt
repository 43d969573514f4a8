-- ===== src/Hash/Cells.antt =====
-- The cells of a table as one list of pairs, and what stays of it when pairs move between cells.
use parser.Prelude.{
  ℕ, zero, suc, ◌+◌, ◌%◌, ◌<◌, ◌≡◌, refl, ap, ◌∙◌, Option, none, some, List, [], ◌∷◌, ◌++◌, arith,
  length, ◌≢◌, get_or, set, replicate, subst, length-append,
}
use parser.Hash.Code.{Key}
use parser.Hash.Chain.{Pair, find}
use parser.Hash.Chain.Find.{or_else, BelongsTo, Distinct, find-append, find-BelongsTo}

module _ {ℓ} {A : Type ℓ} where
  pub get_or-set : (xs : List A) (i : ℕ) (v d : A) → i < length xs → get_or (set xs i v) i d ≡ v
  get_or-set [] i v d h = absurd (omega arith)
  get_or-set (x ∷ xs) zero v d h = refl
  get_or-set (x ∷ xs) (suc i) v d h = get_or-set xs i v d (omega arith)

  pub get_or-set_ne :
      (xs : List A) (i j : ℕ) (v d : A) → i ≢ j → get_or (set xs i v) j d ≡ get_or xs j d
  get_or-set_ne [] i j v d h = refl
  get_or-set_ne (x ∷ xs) zero zero v d h = absurd (h refl)
  get_or-set_ne (x ∷ xs) zero (suc j) v d h = refl
  get_or-set_ne (x ∷ xs) (suc i) zero v d h = refl
  get_or-set_ne (x ∷ xs) (suc i) (suc j) v d h = get_or-set_ne xs i j v d (λ e. h (ap suc e))

  pub get_or-replicate : (n i : ℕ) (d : A) → get_or (replicate n d) i d ≡ d
  get_or-replicate zero i d = refl
  get_or-replicate (suc n) zero d = refl
  get_or-replicate (suc n) (suc i) d = get_or-replicate n i d

  abbrev pub joined : List (List A) → List A
  joined [] = []
  joined (c ∷ cs) = c ++ joined cs

  pub length-joined-set :
      (cs : List (List A)) (i : ℕ) (c : List A)
      → i < length cs
      → length (joined (set cs i c)) + length (get_or cs i []) ≡ length (joined cs) + length c
  length-joined-set [] i c h = absurd (omega arith)
  length-joined-set (d ∷ cs) zero c h =
      omega (arith, length-append c (joined cs), length-append d (joined cs))
  length-joined-set (d ∷ cs) (suc i) c h = omega (
    arith,
    length-append d (joined cs),
    length-append d (joined (set cs i c)),
    length-joined-set cs i c (omega arith),
  )

module _ {ℓ} {K V : Type ℓ} ⦃keys : Key K⦄ where
  -- Every pair stands in the cell of its code, and no two have the same key; `j` is the first cell's index.
  abbrev pub Placed : ℕ → ℕ → List (List (Pair K V)) → Type ℓ
  Placed n j [] = Unit
  Placed n j (c ∷ cs) = (BelongsTo n j c × Distinct c) × Placed n (suc j) cs

  pub get_or-Placed :
      (n j i : ℕ) (cs : List (List (Pair K V)))
      → Placed n j cs
      → BelongsTo n (i + j) (get_or cs i []) × Distinct (get_or cs i [])
  get_or-Placed n j i [] h = (tt, tt)
  get_or-Placed n j zero (c ∷ cs) (h, hs) = (subst (λ m. BelongsTo n m c) (omega arith) h.0, h.1)
  get_or-Placed n j (suc i) (c ∷ cs) (h, hs) =
      let (a, b) = get_or-Placed n (suc j) i cs hs in
      (subst (λ m. BelongsTo n m (get_or cs i [])) (omega arith) a, b)

  pub set-Placed :
      (n j i : ℕ) (cs : List (List (Pair K V))) (c : List (Pair K V))
      → Placed n j cs
      → BelongsTo n (i + j) c
      → Distinct c
      → Placed n j (set cs i c)
  set-Placed n j i [] c h a b = tt
  set-Placed n j zero (d ∷ cs) c (h, hs) a b =
      ((subst (λ m. BelongsTo n m c) (omega arith) a, b), hs)
  set-Placed n j (suc i) (d ∷ cs) c (h, hs) a b =
      (h, set-Placed n (suc j) i cs c hs (subst (λ m. BelongsTo n m c) (omega arith) a) b)

  find-below :
      (n j : ℕ) (cs : List (List (Pair K V))) (code : ℕ) (key : K)
      → Placed n j cs
      → code % n < j
      → find code key (joined cs) ≡ none
  unfolding find
  find-below n j [] code key h lt = refl
  find-below n j (c ∷ cs) code key ((a, b), hs) lt =
      find-append code key c (joined cs)
      ∙ rw (find-BelongsTo n j code key c a (omega arith))
          (find-below n (suc j) cs code key hs (omega arith))

  -- What is found among all pairs is what is found in the cell of the code.
  pub find-joined :
      (n j i : ℕ) (cs : List (List (Pair K V))) (code : ℕ) (key : K)
      → Placed n j cs
      → code % n ≡ i + j
      → find code key (joined cs) ≡ find code key (get_or cs i [])
  unfolding find
  find-joined n j i [] code key h e = refl
  find-joined n j zero (c ∷ cs) code key ((a, b), hs) e =
      find-append code key c (joined cs)
      ∙ rw (find-below n (suc j) cs code key hs (omega arith)) (right_none (find code key c))
    where
      right_none : (o : Option V) → or_else o none ≡ o
      right_none none = refl
      right_none (some v) = refl
  find-joined n j (suc i) (c ∷ cs) code key ((a, b), hs) e =
      find-append code key c (joined cs)
      ∙ rw (find-BelongsTo n j code key c a (omega arith))
          (find-joined n (suc j) i cs code key hs (omega arith))

  append-Distinct :
      (n j : ℕ) (ps qs : List (Pair K V))
      → BelongsTo n j ps
      → Distinct ps
      → Distinct qs
      → ((code : ℕ) (key : K) → code % n ≡ j → find code key qs ≡ none)
      → Distinct (ps ++ qs)
  append-Distinct n j [] qs a d e f = e
  append-Distinct n j (p ∷ ps) qs (x, a) (alone, d) e f = (
    find-append p.code p.key ps qs ∙ rw alone (f p.code p.key x),
    append-Distinct n j ps qs a d e f,
  )

  pub joined-Distinct :
      (n j : ℕ) (cs : List (List (Pair K V))) → Placed n j cs → Distinct (joined cs)
  joined-Distinct n j [] h = tt
  joined-Distinct n j (c ∷ cs) ((a, b), hs) =
      append-Distinct n j c (joined cs) a b (joined-Distinct n (suc j) cs hs)
        (λ code key e. find-below n (suc j) cs code key hs (omega arith))

pub replicate-Placed {ℓ} :
    (K V : Type ℓ) ⦃keys : Key K⦄ (n j m : ℕ) → Placed {K = K} {V = V} n j (replicate m [])
replicate-Placed K V n j zero = tt
replicate-Placed K V n j (suc m) = ((tt, tt), replicate-Placed K V n (suc j) m)

pub length-joined-replicate {ℓ} :
    (A : Type ℓ) (n : ℕ) → length (joined {A = A} (replicate n [])) ≡ 0
length-joined-replicate A zero = refl
length-joined-replicate A (suc n) = length-joined-replicate A n
