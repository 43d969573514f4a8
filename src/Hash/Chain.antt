-- ===== src/Hash/Chain.antt =====
-- The pairs of src/include/pa_hash.h that hang on one cell, in the order of their links, and the loops
-- of the table's operations over them.
pub mod Find
use parser.Prelude.{
  ℕ, zero, suc, ◌+◌, ◌≤◌, ◌≡◌, refl, sym, ap, ◌∙◌, Bool, true, false, ◌&&◌, Option, none, some,
  List, [], ◌∷◌, ◌++◌, arith, ◌==◌, ==_iff, if◌then◌else◌, if_cases, Bool-cases, inl, inr, length,
  All,
}
use parser.Hash.Code.{Key}

pub record Pair {ℓ} (K V : Type ℓ) : Type ℓ where
  pub code : ℕ
  pub key : K
  pub value : V

abbrev pub hits {ℓ} : {K : Type ℓ} ⦃keys : Key K⦄ → ℕ → K → ℕ → K → Bool
hits ⦃keys⦄ code key c k = code == c && keys.same key k

module _ {ℓ} {K V : Type ℓ} ⦃keys : Key K⦄ where
  -- `pair->code==code && pair->key==key`
  abbrev pub hit : Pair K V → ℕ → K → Bool
  hit p code key = hits p.code p.key code key

  -- The value of the first pair with the key.
  unfoldable pub find : ℕ → K → List (Pair K V) → Option V
  find code key [] = none
  find code key (p ∷ ps) = if hit p code key then some p.value else find code key ps

  -- `pair->value=value` at the first pair with the key.
  unfoldable pub assign : ℕ → K → V → List (Pair K V) → List (Pair K V)
  assign code key v [] = []
  assign code key v (p ∷ ps) =
      if hit p code key then record p { value = v } ∷ ps else p ∷ assign code key v ps

  -- `*ref=next` at the first pair with the key.
  unfoldable pub erase : ℕ → K → List (Pair K V) → List (Pair K V)
  erase code key [] = []
  erase code key (p ∷ ps) = if hit p code key then ps else p ∷ erase code key ps
