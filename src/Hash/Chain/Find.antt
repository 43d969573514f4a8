-- ===== src/Hash/Chain/Find.antt =====
-- What is found in a chain behind each of its operations.
use parser.Prelude.{
  ℕ, suc, ◌+◌, ◌%◌, ◌≡◌, refl, sym, ap, ap₂, ◌∙◌, Bool, true, false, Option, none, some, List, [],
  ◌∷◌, ◌++◌, arith, ◌==◌, ==_iff, if◌then◌else◌, if_cases, Bool-cases, inl, inr, length, ◌≢◌,
}
use parser.Hash.Code.{Key}
use parser.Hash.Chain.{Pair, hits, hit, find, assign, erase}

abbrev pub or_else {ℓ} : {V : Type ℓ} → Option V → Option V → Option V
or_else none b = b
or_else (some v) b = some v

module _ {ℓ} {K : Type ℓ} ⦃keys : Key K⦄ where
  -- A code and key hit themselves, and no others.
  pub hits-eq : (c d : ℕ) (j k : K) → hits c j d k ≡ true → (c ≡ d) × (j ≡ k)
  hits-eq c d j k e = elim (Bool-cases (c == d)) [
    | inl same_code ↦ ((==_iff _ _).0 same_code, (keys.same_iff _ _).0 (rw same_code at e))
    | inr other ↦ cc
  ]

  pub hits_self : (c : ℕ) (k : K) → hits c k c k ≡ true
  hits_self c k = rw ((==_iff c c).1 refl) ((keys.same_iff k k).1 refl)

  hits_back : (c d : ℕ) (j k : K) → hits c j d k ≡ true → hits d k c j ≡ true
  hits_back c d j k e =
      let (p, q) = hits-eq c d j k e in ap₂ (λ x y. hits d k x y) p q ∙ hits_self d k

  pub hits_sym : (c d : ℕ) (j k : K) → hits c j d k ≡ hits d k c j
  hits_sym c d j k = elim (Bool-cases (hits c j d k)) [
    | inl e ↦ e ∙ sym (hits_back c d j k e)
    | inr e ↦ elim (Bool-cases (hits d k c j)) [
      | inl f ↦ hits_back d c k j f ∙ sym f
      | inr f ↦ e ∙ sym f
    ]
  ]

  -- Hits are those of an equivalence.
  pub hits_join : (c d e : ℕ) (i j k : K) → hits c i d j ≡ true → hits e k d j ≡ hits e k c i
  hits_join c d e i j k h =
      let (p, q) = hits-eq c d i j h in ap₂ (λ x y. hits e k x y) (sym p) (sym q)

  pub hits_same : (c d e : ℕ) (i j k : K) → hits c i d j ≡ true → hits c i e k ≡ hits d j e k
  hits_same c d e i j k h = let (p, q) = hits-eq c d i j h in ap₂ (λ x y. hits x y e k) p q

module _ {ℓ} {K V : Type ℓ} where
  -- The codes of a chain stand for the cell `i` of `n`.
  abbrev pub BelongsTo : ℕ → ℕ → List (Pair K V) → Type 0
  BelongsTo n i [] = Unit
  BelongsTo n i (p ∷ ps) = (p.code % n ≡ i) × BelongsTo n i ps

module _ {ℓ} {K V : Type ℓ} ⦃keys : Key K⦄ where
  -- No pair of a chain has the key of another.
  abbrev pub Distinct : List (Pair K V) → Type ℓ
  Distinct [] = Unit
  Distinct (p ∷ ps) = (find p.code p.key ps ≡ none) × Distinct ps

  pub find-append :
      (code : ℕ) (key : K) (ps qs : List (Pair K V))
      → find code key (ps ++ qs) ≡ or_else (find code key ps) (find code key qs)
  unfolding find
  find-append code key [] qs = refl
  find-append code key (p ∷ ps) qs = elim (Bool-cases (hit p code key)) [
    | inl e ↦ rw e refl
    | inr e ↦ rw e (find-append code key ps qs)
  ]

  -- Equal probes find the same.
  pub find-hits :
      (c d : ℕ) (j k : K) (ps : List (Pair K V)) → hits c j d k ≡ true → find d k ps ≡ find c j ps
  find-hits c d j k ps e =
      let (p, q) = hits-eq c d j k e in ap₂ (λ x y. find x y ps) (sym p) (sym q)

  -- Behind `assign` the key that is in the chain has the new value, and any other its old one.
  pub find-assign :
      (code : ℕ) (key : K) (v : V) (ps : List (Pair K V)) {old : V}
      → find code key ps ≡ some old
      → (c : ℕ) (k : K)
      → find c k (assign code key v ps) ≡ (if hits code key c k then some v else find c k ps)
  unfolding find assign
  find-assign code key v [] e c k = cc
  find-assign code key v (p ∷ ps) e c k = elim (Bool-cases (hit p code key)) [
    | inl h ↦ rw (h, hits_same p.code code c p.key key k h) (step (hits code key c k))
    | inr h ↦ rw h (elim (Bool-cases (hit p c k)) [
      | inl g ↦
          rw (g, hits_join p.code c code p.key k key g, hits_sym code p.code key p.key, h) refl
      | inr g ↦ rw g (find-assign code key v ps (rw h at e) c k)
    ])
  ]
    where
      step :
          (b : Bool)
          → (if b then some v else find c k ps)
            ≡ (if b then some v else (if b then some p.value else find c k ps))
      step true = refl
      step false = refl

  -- Behind `erase` the key is gone, and any other has its value.
  pub find-erase :
      (code : ℕ) (key : K) (ps : List (Pair K V))
      → Distinct ps
      → (c : ℕ) (k : K)
      → find c k (erase code key ps) ≡ (if hits code key c k then none else find c k ps)
  unfolding find erase
  find-erase code key [] d c k =
      if_cases (λ (o : Option V). none ≡ o) (hits code key c k) (λ _. refl) (λ _. refl)
  find-erase code key (p ∷ ps) (alone, d) c k = elim (Bool-cases (hit p code key)) [
    | inl h ↦ rw h (elim (Bool-cases (hits code key c k)) [
      | inl g ↦
          rw g (find-hits p.code c p.key k ps (hits_same p.code code c p.key key k h ∙ g) ∙ alone)
      | inr g ↦ rw (g, hits_same p.code code c p.key key k h, g) refl
    ])
    | inr h ↦ rw h (elim (Bool-cases (hit p c k)) [
      | inl g ↦
          rw (g, hits_join p.code c code p.key k key g, hits_sym code p.code key p.key, h) refl
      | inr g ↦ rw g (find-erase code key ps d c k)
    ])
  ]

  -- A key that is not in the chain is not put into it.
  assign-alone :
      (code : ℕ) (key : K) (v : V) (ps : List (Pair K V)) (p : Pair K V)
      → find p.code p.key ps ≡ none
      → find p.code p.key (assign code key v ps) ≡ none
  unfolding assign find
  assign-alone code key v [] p e = refl
  assign-alone code key v (q ∷ qs) p e = elim (Bool-cases (hit q p.code p.key)) [
    | inl h ↦ cc
    | inr h ↦ elim (Bool-cases (hit q code key)) [
      | inl g ↦ rw (g, h) (rw h at e)
      | inr g ↦ rw (g, h) (assign-alone code key v qs p (rw h at e))
    ]
  ]

  -- The pairs with a new value keep their keys apart.
  pub assign-Distinct :
      (code : ℕ) (key : K) (v : V) (ps : List (Pair K V))
      → Distinct ps
      → Distinct (assign code key v ps)
  unfolding assign
  assign-Distinct code key v [] d = tt
  assign-Distinct code key v (p ∷ ps) (alone, d) =
      if_cases Distinct (hit p code key) (λ _. (alone, d))
        (λ h. (assign-alone code key v ps p alone, assign-Distinct code key v ps d))

  pub erase-Distinct :
      (code : ℕ) (key : K) (ps : List (Pair K V)) → Distinct ps → Distinct (erase code key ps)
  unfolding erase
  erase-Distinct code key [] d = tt
  erase-Distinct code key (p ∷ ps) (alone, d) =
      if_cases Distinct (hit p code key) (λ _. d)
        λ h. (
          find-erase code key ps d p.code p.key
              ∙ if_cases (λ (o : Option V). o ≡ none) (hits code key p.code p.key) (λ _. refl)
                  (λ _. alone),
          erase-Distinct code key ps d,
        )

  pub assign-BelongsTo :
      (n i : ℕ) (code : ℕ) (key : K) (v : V) (ps : List (Pair K V))
      → BelongsTo n i ps
      → BelongsTo n i (assign code key v ps)
  unfolding assign
  assign-BelongsTo n i code key v [] a = tt
  assign-BelongsTo n i code key v (p ∷ ps) (x, a) =
      if_cases (BelongsTo n i) (hit p code key) (λ _. (x, a))
        (λ _. (x, assign-BelongsTo n i code key v ps a))

  pub erase-BelongsTo :
      (n i : ℕ) (code : ℕ) (key : K) (ps : List (Pair K V))
      → BelongsTo n i ps
      → BelongsTo n i (erase code key ps)
  unfolding erase
  erase-BelongsTo n i code key [] a = tt
  erase-BelongsTo n i code key (p ∷ ps) (x, a) =
      if_cases (BelongsTo n i) (hit p code key) (λ _. a)
        (λ _. (x, erase-BelongsTo n i code key ps a))

  pub length-assign :
      (code : ℕ) (key : K) (v : V) (ps : List (Pair K V))
      → length (assign code key v ps) ≡ length ps
  unfolding assign
  length-assign code key v [] = refl
  length-assign code key v (p ∷ ps) = elim (Bool-cases (hit p code key)) [
    | inl h ↦ rw h refl
    | inr h ↦ rw h (ap suc (length-assign code key v ps))
  ]

  pub length-erase :
      (code : ℕ) (key : K) (ps : List (Pair K V)) {old : V}
      → find code key ps ≡ some old
      → length (erase code key ps) + 1 ≡ length ps
  unfolding erase find
  length-erase code key [] e = cc
  length-erase code key (p ∷ ps) e = elim (Bool-cases (hit p code key)) [
    | inl h ↦ rw h (omega arith)
    | inr h ↦ rw h (omega (arith, length-erase code key ps (rw h at e)))
  ]

  -- What belongs to another cell is not found.
  pub find-BelongsTo :
      (n i : ℕ) (code : ℕ) (key : K) (ps : List (Pair K V))
      → BelongsTo n i ps
      → code % n ≢ i
      → find code key ps ≡ none
  unfolding find
  find-BelongsTo n i code key [] a other = refl
  find-BelongsTo n i code key (p ∷ ps) (x, a) other =
      if_cases (λ (o : Option V). o ≡ none) (hit p code key)
        (λ h. absurd (other (ap (λ c. c % n) (sym (hits-eq p.code code p.key key h).0) ∙ x)))
        (λ _. find-BelongsTo n i code key ps a other)
