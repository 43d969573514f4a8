-- ===== src/Hash.antt =====
-- The class HASH of src/include/pa_hash.h without the order of its pairs: a table of chains that grows.
-- The value 0, which stands for no value, is `none`.
pub mod Code
pub mod Chain
pub mod Cells
pub mod Move
pub mod Update
pub mod Growth
pub mod View
use parser.Prelude.{
  ℕ, zero, suc, ◌+◌, ◌-◌, ◌*◌, ◌/◌, ◌%◌, Bool, true, false, Option, none, some, List, [], ◌∷◌, ltb,
  leb, if◌then◌else◌, get_or, set, replicate,
}
use parser.Hash.Code.{Key}
use parser.Hash.Chain.{Pair, find, assign, erase}

abbrev pub hash_allocates_count : ℕ
hash_allocates_count = 29

-- `Hash_allocates`
abbrev pub hash_allocates : List ℕ
hash_allocates =
    5 ∷ 11 ∷ 19 ∷ 41 ∷ 79 ∷ 163 ∷ 317 ∷ 641 ∷ 1279 ∷ 2557 ∷ 5119 ∷ 10243 ∷ 20479 ∷ 40961 ∷ 81919
    ∷ 163841 ∷ 327673 ∷ 655357 ∷ 1310719 ∷ 2621447 ∷ 5242883 ∷ 10485767 ∷ 20971529 ∷ 41943049
    ∷ 83886091 ∷ 167772161 ∷ 335544323 ∷ 671088637 ∷ 1342177283 ∷ []

-- `if (allocates_index<HASH_ALLOCATES_COUNT-1) allocates_index++`
abbrev pub next_index : ℕ → ℕ
next_index i = if ltb i (hash_allocates_count - 1) then i + 1 else i

pub record Hash {ℓ} (K V : Type ℓ) : Type ℓ where
  pub allocates_index : ℕ
  pub allocated : ℕ
  pub fused_refs : ℕ
  pub fpairs_count : ℕ
  pub refs : List (List (Pair K V))

module _ {ℓ} {K V : Type ℓ} where
  unfoldable pub new_hash : Hash K V
  new_hash = record {
    allocates_index = 0;
    allocated = get_or hash_allocates 0 0;
    fused_refs = 0;
    fpairs_count = 0;
    refs = replicate (get_or hash_allocates 0 0) [];
  }

  -- The cell for a code, `refs[code%allocated]`.
  abbrev pub cell : Hash K V → ℕ → List (Pair K V)
  cell h code = get_or h.refs (code % h.allocated) []

  abbrev pub set_cell : Hash K V → ℕ → List (Pair K V) → List (List (Pair K V))
  set_cell h code chain = set h.refs (code % h.allocated) chain

  pub is_full : Hash K V → Bool
  is_full h = leb h.allocated (h.fused_refs + h.allocated / 4)

  -- `pair->link=*new_ref; *new_ref=pair;` for the pairs of a chain.
  pub move_chain : ℕ → List (Pair K V) → List (List (Pair K V)) → List (List (Pair K V))
  move_chain n [] refs = refs
  move_chain n (p ∷ ps) refs =
      move_chain n ps (set refs (p.code % n) (p ∷ get_or refs (p.code % n) []))

  pub move_all : ℕ → List (List (Pair K V)) → List (List (Pair K V)) → List (List (Pair K V))
  move_all n [] refs = refs
  move_all n (chain ∷ chains) refs = move_all n chains (move_chain n chain refs)

  pub expand : Hash K V → Hash K V
  expand h =
      let n = get_or hash_allocates (next_index h.allocates_index) 0 in
      record h {
        allocates_index = next_index h.allocates_index;
        allocated = n;
        refs = move_all n h.refs (replicate n []);
      }

  -- `if(is_full()) expand();`
  pub make_room : Hash K V → Hash K V
  make_room h = if is_full h then expand h else h

  -- Links a new pair in.
  pub link_in : ℕ → K → V → Hash K V → Hash K V
  link_in code key v h = record h {
    fused_refs = elim (cell h code) [ [] ↦ h.fused_refs + 1 | ◌∷◌ _ _ ↦ h.fused_refs ];
    refs = set_cell h code (record { code = code; key = key; value = v } ∷ cell h code);
    fpairs_count = h.fpairs_count + 1;
  }

  unfoldable pub clear : Hash K V → Hash K V
  clear h = record h { refs = replicate h.allocated []; fpairs_count = 0; fused_refs = 0 }

module _ {ℓ} {K V : Type ℓ} ⦃keys : Key K⦄ where
  unfoldable pub get : K → Hash K V → Option V
  unfolding find
  get key h = find (keys.hash_code key) key (cell h (keys.hash_code key))

  unfoldable pub contains : K → Hash K V → Bool
  unfolding find
  contains key h = elim (find (keys.hash_code key) key (cell h (keys.hash_code key))) [
    | none ↦ false
    | some v ↦ true
  ]

  unfoldable pub remove : K → Hash K V → Bool × Hash K V
  unfolding find erase
  remove key h =
      let code = keys.hash_code key in
      elim (find code key (cell h code)) [
        | none ↦ (false, h)
        | some old ↦ (
          true,
          record h {
            refs = set_cell h code (erase code key (cell h code));
            fpairs_count = h.fpairs_count - 1;
          },
        )
      ]

  -- The search and the end of `put`, behind the growth.
  pub put_value : K → V → Hash K V → Bool × Hash K V
  put_value key v h =
      let code = keys.hash_code key in
      elim (find code key (cell h code)) [
        | none ↦ (false, link_in code key v h)
        | some old ↦ (true, record h { refs = set_cell h code (assign code key v (cell h code)) })
      ]

  unfoldable pub put : K → Option V → Hash K V → Bool × Hash K V
  unfolding find erase assign put_value link_in make_room is_full expand move_all move_chain remove
  put key none h = (false, (remove key h).1)
  put key (some v) h = put_value key v (make_room h)

  unfoldable pub put_replaced : K → Option V → Hash K V → Bool × Hash K V
  unfolding find erase assign remove
  put_replaced key none h = (false, (remove key h).1)
  put_replaced key (some v) h =
      let code = keys.hash_code key in
      elim (find code key (cell h code)) [
        | none ↦ (false, h)
        | some old ↦ (true, record h { refs = set_cell h code (assign code key v (cell h code)) })
      ]

  pub keep_value : K → V → Hash K V → Bool × Hash K V
  keep_value key v h =
      let code = keys.hash_code key in
      elim (find code key (cell h code)) [
        | none ↦ (false, link_in code key v h)
        | some old ↦ (true, h)
      ]

  unfoldable pub put_dont_replace : K → Option V → Hash K V → Bool × Hash K V
  unfolding find erase keep_value link_in make_room is_full expand move_all move_chain remove
  put_dont_replace key none h = (false, (remove key h).1)
  put_dont_replace key (some v) h = keep_value key v (make_room h)

  -- The pairs of a chain, and those of all the chains of `src`, one after the other.
  pub merge_chain : List (Pair K V) → Hash K V → Hash K V
  merge_chain [] h = h
  merge_chain (p ∷ ps) h = merge_chain ps (put_dont_replace p.key (some p.value) h).1

  pub merge_chains : List (List (Pair K V)) → Hash K V → Hash K V
  merge_chains [] h = h
  merge_chains (chain ∷ chains) h = merge_chains chains (merge_chain chain h)

  unfoldable pub merge_dont_replace : Hash K V → Hash K V → Hash K V
  unfolding merge_chain merge_chains
  merge_dont_replace src h = merge_chains src.refs h
