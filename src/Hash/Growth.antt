-- ===== src/Hash/Growth.antt =====
-- The growth of a table of src/include/pa_hash.h: `expand` and the test before it.
use parser.Prelude.{
  ℕ, ◌%◌, ◌<◌, ◌≡◌, refl, sym, ap, ◌∙◌, Option, none, some, List, [], arith, if_cases, inr, length,
  get_or, replicate, subst, length-replicate,
}
use parser.Hash.Code.{Key}
use parser.Hash.Chain.{Pair, find}
use parser.Hash.Chain.Find.{or_else}
use parser.Hash.Cells.{
  joined, Placed, replicate-Placed, length-joined-replicate, joined-Distinct, find-joined,
  get_or-replicate,
}
use parser.Hash.Move.{move_all-joined, move_chain-Moved}
use parser.Hash.{
  Hash, hash_allocates, hash_allocates_count, next_index, cell, is_full, expand, make_room,
}
use parser.Hash.Update.{IsValid, size_positive}

or_else-none {ℓ} : {V : Type ℓ} (o : Option V) → or_else o none ≡ o
or_else-none none = refl
or_else-none (some v) = refl

module _ {ℓ} {K V : Type ℓ} ⦃keys : Key K⦄ where
  -- The table is valid and holds what it held.
  pub record Grown (h h' : Hash K V) : Type ℓ where
    pub valid : IsValid h'
    pub finds : (c : ℕ) (k : K) → find c k (cell h' c) ≡ find c k (cell h c)
    pub count : h'.fpairs_count ≡ h.fpairs_count

  empty_cell :
      (n c : ℕ) (k : K) → find c k (get_or (replicate {A = List (Pair K V)} n []) (c % n) []) ≡ none
  unfolding find
  empty_cell n c k = ap (find c k) (get_or-replicate n (c % n) [])

  -- A larger block of cells keeps a valid table valid, with the same pairs found under the same keys.
  pub expand-Grown : (h : Hash K V) → IsValid h → Grown h (expand h)
  unfolding expand
  expand-Grown h v =
      let i = next_index h.allocates_index in
      let low : i < hash_allocates_count = ground (arith, v.index_low) in
      let n = get_or hash_allocates i 0 in
      let all = joined h.refs in
      let same_table = move_all-joined n h.refs (replicate n []) in
      let moved =
        move_chain-Moved n all (replicate n []) (size_positive i low) (length-replicate n [])
          (joined-Distinct h.allocated 0 h.refs v.placed) (replicate-Placed K V n 0 n)
          (λ c k. inr (empty_cell n c k)) in
      record {
        valid = record {
          index_low = low;
          size = refl;
          cells = ap length same_table ∙ moved.cells;
          placed = subst (λ r. Placed n 0 r) (sym same_table) moved.placed;
          count =
              v.count
              ∙ omega (arith, moved.total, length-joined-replicate (Pair K V) n)
              ∙ ap (λ r. length (joined r)) (sym same_table);
        };
        finds = λ c k.
            ap (λ r. find c k (get_or r (c % n) [])) same_table
            ∙ moved.finds c k
            ∙ ap (or_else (find c k all)) (empty_cell n c k)
            ∙ or_else-none (find c k all)
            ∙ find-joined h.allocated 0 (c % h.allocated) h.refs c k v.placed (omega arith);
        count = refl;
      }

  pub make_room-Grown : (h : Hash K V) → IsValid h → Grown h (make_room h)
  unfolding make_room
  make_room-Grown h v =
      if_cases (Grown h) (is_full h) (λ _. expand-Grown h v)
        (λ _. record { valid = v; finds = λ c k. refl; count = refl })
