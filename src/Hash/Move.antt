-- ===== src/Hash/Move.antt =====
-- A write of one cell, and the rehashing of `expand`: what is found behind them.
use native.Mathlib.Nat.{mod-lt}
use parser.Prelude.{
  ℕ, ◌+◌, ◌%◌, ◌<◌, ◌≡◌, refl, sym, ap, ◌∙◌, Bool, false, Option, none, some, List, [], ◌∷◌, ◌++◌,
  arith, ◌==◌, ==_iff, if◌then◌else◌, if_cases, Bool-cases, inl, inr, length, ◌≢◌, ◌⊎◌, get_or, set,
  subst, length-set,
}
use parser.Hash.Code.{Key}
use parser.Hash.Chain.{Pair, hits, find}
use parser.Hash.Chain.Find.{or_else, Distinct, find-hits, hits-eq, hits_self}
use parser.Hash.Cells.{
  get_or-set, get_or-set_ne, joined, length-joined-set, Placed, get_or-Placed, set-Placed,
}
use parser.Hash.{move_chain, move_all}

drop_test {ℓ} :
    {A : Type ℓ} (x : A) {b : Bool} {o y : A} → b ≡ false → o ≡ (if b then x else y) → o ≡ y
drop_test x e f = rw e at f

module _ {ℓ} {K V : Type ℓ} ⦃keys : Key K⦄ where
  -- Where a new chain answers `x` for one key and as before for the others, so does the table.
  pub find-set_cell :
      (n : ℕ) (refs : List (List (Pair K V))) (code : ℕ) (key : K) (chain : List (Pair K V))
      (x : Option V)
      → 0 < n
      → length refs ≡ n
      → ((c : ℕ) (k : K)
          → find c k chain
            ≡ (if hits code key c k then x else find c k (get_or refs (code % n) [])))
      → (c : ℕ) (k : K)
      → find c k (get_or (set refs (code % n) chain) (c % n) [])
        ≡ (if hits code key c k then x else find c k (get_or refs (c % n) []))
  find-set_cell n refs code key chain x pos size law c k = elim (Bool-cases (code % n == c % n)) [
    | inl e ↦
        let e' : code % n ≡ c % n = (==_iff _ _).0 e in
        subst
          (λ i.
            find c k (get_or (set refs (code % n) chain) i [])
            ≡ (if hits code key c k then x else find c k (get_or refs i [])))
          e'
          (rw
            (get_or-set refs (code % n) chain []
              (subst (λ m. code % n < m) (sym size) (mod-lt code pos)))
            (law c k))
    | inr e ↦
        let apart : code % n ≢ c % n = λ e'. (let t = (==_iff _ _).1 e' in cc) in
        rw (get_or-set_ne refs (code % n) (c % n) chain [] apart) (
          if_cases (λ (o : Option V). find c k (get_or refs (c % n) []) ≡ o) (hits code key c k)
            (λ h. absurd (apart (ap (λ m. m % n) (hits-eq code c key k h).0))) (λ _. refl))
  ]

  -- A pair in front of a chain.
  pub find-push :
      (p : Pair K V) (ps : List (Pair K V)) (c : ℕ) (k : K)
      → find c k (p ∷ ps) ≡ (if hits p.code p.key c k then some p.value else find c k ps)
  unfolding find
  find-push p ps c k = refl

  pub move_chain-append :
      (n : ℕ) (ps qs : List (Pair K V)) (refs : List (List (Pair K V)))
      → move_chain n (ps ++ qs) refs ≡ move_chain n qs (move_chain n ps refs)
  unfolding move_chain
  move_chain-append n [] qs refs = refl
  move_chain-append n (p ∷ ps) qs refs = move_chain-append n ps qs _

  pub move_all-joined :
      (n : ℕ) (cs refs : List (List (Pair K V)))
      → move_all n cs refs ≡ move_chain n (joined cs) refs
  unfolding move_all move_chain
  move_all-joined n [] refs = refl
  move_all-joined n (c ∷ cs) refs =
      move_all-joined n cs (move_chain n c refs) ∙ sym (move_chain-append n c (joined cs) refs)

  -- No pair that is still to move has the key of one that stands already.
  abbrev New : ℕ → List (Pair K V) → List (List (Pair K V)) → Type ℓ
  New n ps refs =
      (c : ℕ) (k : K) → (find c k ps ≡ none) ⊎ (find c k (get_or refs (c % n) []) ≡ none)

  -- How the pair that moves first changes what is found.
  abbrev Pushed : ℕ → Pair K V → List (List (Pair K V)) → List (List (Pair K V)) → Type ℓ
  Pushed n p refs refs1 =
      (c : ℕ) (k : K)
      → find c k (get_or refs1 (c % n) [])
        ≡ (if hits p.code p.key c k then some p.value else find c k (get_or refs (c % n) []))

  first_missing :
      (n : ℕ) (p : Pair K V) (ps : List (Pair K V)) (refs : List (List (Pair K V)))
      → New n (p ∷ ps) refs
      → find p.code p.key (get_or refs (p.code % n) []) ≡ none
  first_missing n p ps refs new = elim (new p.code p.key) [
    | inl e ↦
        let found : find p.code p.key (p ∷ ps) ≡ some p.value =
          find-push p ps p.code p.key ∙ rw (hits_self p.code p.key) refl in
        cc
    | inr e ↦ e
  ]

  rest_missing :
      (n : ℕ) (p : Pair K V) (ps : List (Pair K V)) (refs refs1 : List (List (Pair K V)))
      → Pushed n p refs refs1
      → find p.code p.key ps ≡ none
      → New n (p ∷ ps) refs
      → New n ps refs1
  rest_missing n p ps refs refs1 pushed alone new c k = elim (Bool-cases (hits p.code p.key c k)) [
    | inl h ↦ inl (find-hits p.code c p.key k ps h ∙ alone)
    | inr h ↦ elim (new c k) [
      | inl e ↦ inl (sym (drop_test _ h (find-push p ps c k)) ∙ e)
      | inr e ↦ inr (drop_test _ h (pushed c k) ∙ e)
    ]
  ]

  finds_rest :
      (n : ℕ) (p : Pair K V) (ps : List (Pair K V)) (refs refs1 : List (List (Pair K V)))
      → Pushed n p refs refs1
      → find p.code p.key ps ≡ none
      → (c : ℕ) (k : K)
      → or_else (find c k ps) (find c k (get_or refs1 (c % n) []))
        ≡ or_else (find c k (p ∷ ps)) (find c k (get_or refs (c % n) []))
  finds_rest n p ps refs refs1 pushed alone c k =
      rw (pushed c k, find-push p ps c k)
        (elim (Bool-cases (hits p.code p.key c k)) [
          | inl h ↦ rw (h, find-hits p.code c p.key k ps h ∙ alone) refl
          | inr h ↦ rw h refl
        ])

  -- What moving pairs one by one does to a table of `n` cells.
  pub record Moved (n : ℕ) (ps : List (Pair K V)) (refs refs' : List (List (Pair K V)))
      : Type ℓ where
    pub finds :
        (c : ℕ) (k : K)
        → find c k (get_or refs' (c % n) [])
          ≡ or_else (find c k ps) (find c k (get_or refs (c % n) []))
    pub placed : Placed n 0 refs'
    pub cells : length refs' ≡ n
    pub total : length (joined refs') ≡ length ps + length (joined refs)

  pub move_chain-Moved :
      (n : ℕ) (ps : List (Pair K V)) (refs : List (List (Pair K V)))
      → 0 < n
      → length refs ≡ n
      → Distinct ps
      → Placed n 0 refs
      → New n ps refs
      → Moved n ps refs (move_chain n ps refs)
  unfolding move_chain find
  move_chain-Moved n [] refs pos size d placed new = record {
    finds = λ c k. refl;
    placed = placed;
    cells = size;
    total = omega arith;
  }
  move_chain-Moved n (p ∷ ps) refs pos size (alone, d) placed new =
      let i = p.code % n in
      let old = get_or refs i [] in
      let refs1 = set refs i (p ∷ old) in
      let low : i < length refs = subst (λ m. i < m) (sym size) (mod-lt p.code pos) in
      let there = get_or-Placed n 0 i refs placed in
      let fresh : find p.code p.key old ≡ none = first_missing n p ps refs new in
      let placed1 : Placed n 0 refs1 =
        set-Placed n 0 i refs (p ∷ old) placed (omega arith, there.0) (fresh, there.1) in
      let finds1 =
        find-set_cell n refs p.code p.key (p ∷ old) (some p.value) pos size
          (λ c k. find-push p old c k) in
      let rest =
        move_chain-Moved n ps refs1 pos (length-set refs i (p ∷ old) ∙ size) d placed1
          (rest_missing n p ps refs refs1 finds1 alone new) in
      record {
        finds = λ c k. rest.finds c k ∙ finds_rest n p ps refs refs1 finds1 alone c k;
        placed = rest.placed;
        cells = rest.cells;
        total = omega (arith, rest.total, length-joined-set refs i (p ∷ old) low);
      }
