-- ===== src/Hash/Update.antt =====
-- The invariant of a table, and what each operation does to it and to what is found.
use native.Mathlib.Nat.{mod-lt}
use parser.Prelude.{
  ℕ, ◌+◌, ◌-◌, ◌%◌, ◌<◌, ◌≡◌, refl, sym, ap₂, ◌∙◌, true, Option, none, some, List, [], ◌∷◌, arith,
  ltb, if◌then◌else◌, if_cases, Option-cases, inl, inr, length, get_or, subst, length-set,
}
use parser.Prelude.Bits.{all_below, all_below_sound}
use parser.Hash.Code.{Key}
use parser.Hash.Chain.{Pair, hits, find, assign, erase}
use parser.Hash.Chain.Find.{
  or_else, BelongsTo, Distinct, hits-eq, find-assign, find-erase, assign-Distinct, erase-Distinct,
  assign-BelongsTo, erase-BelongsTo, length-assign, length-erase,
}
use parser.Hash.Cells.{joined, length-joined-set, Placed, get_or-Placed, set-Placed}
use parser.Hash.Move.{find-set_cell, find-push}
use parser.Hash.{
  Hash, hash_allocates, hash_allocates_count, cell, set_cell, link_in, remove, put_value,
  keep_value,
}

sizes_table : all_below hash_allocates_count (λ i. ltb 0 (get_or hash_allocates i 0)) ≡ true
unfolding all_below
sizes_table = refl

pub size_positive : (i : ℕ) → i < hash_allocates_count → 0 < get_or hash_allocates i 0
size_positive i h =
    let t =
      all_below_sound hash_allocates_count (λ i. ltb 0 (get_or hash_allocates i 0)) i sizes_table
        h in
    ground arith

module _ {ℓ} {K V : Type ℓ} ⦃keys : Key K⦄ where
  -- The sizes agree, every pair stands in the cell of its code, no two pairs have the same key, and the
  -- pairs are counted.
  pub record IsValid (h : Hash K V) : Type ℓ where
    pub index_low : h.allocates_index < hash_allocates_count
    pub size : h.allocated ≡ get_or hash_allocates h.allocates_index 0
    pub cells : length h.refs ≡ h.allocated
    pub placed : Placed h.allocated 0 h.refs
    pub count : h.fpairs_count ≡ length (joined h.refs)

  positive : (h : Hash K V) → IsValid h → 0 < h.allocated
  positive h v = subst (λ m. 0 < m) (sym v.size) (size_positive h.allocates_index v.index_low)

  -- The table is valid, and the key of `code` and `key` alone has a new value.
  pub record Update (code : ℕ) (key : K) (x : Option V) (h h' : Hash K V) : Type ℓ where
    pub valid : IsValid h'
    pub finds :
        (c : ℕ) (k : K)
        → find c k (cell h' c) ≡ (if hits code key c k then x else find c k (cell h c))

  -- Nothing changes where the value is the one that stands there.
  pub stays-Update :
      (code : ℕ) (key : K) (h : Hash K V)
      → IsValid h
      → Update code key (find code key (cell h code)) h h
  stays-Update code key h v = record {
    valid = v;
    finds = λ c k.
        if_cases (λ (o : Option V). find c k (cell h c) ≡ o) (hits code key c k)
          (λ e.
            let (p, q) = hits-eq code c key k e in ap₂ (λ x y. find x y (cell h x)) (sym p) (sym q))
          (λ _. refl);
  }

  -- A chain that changes for one key changes the table for that key.
  set_cell-Update :
      (code : ℕ) (key : K) (x : Option V) (chain : List (Pair K V)) (fused count : ℕ) (h : Hash K V)
      → IsValid h
      → ((c : ℕ) (k : K)
          → find c k chain ≡ (if hits code key c k then x else find c k (cell h code)))
      → BelongsTo h.allocated (code % h.allocated) chain
      → Distinct chain
      → count + length (cell h code) ≡ h.fpairs_count + length chain
      → Update code key x h
          (record h { refs = set_cell h code chain; fused_refs = fused; fpairs_count = count })
  set_cell-Update code key x chain fused count h v law belongs apart counted =
      let pos = positive h v in
      let i = code % h.allocated in
      let low : i < length h.refs = subst (λ m. i < m) (sym v.cells) (mod-lt code pos) in
      record {
        valid = record {
          index_low = v.index_low;
          size = v.size;
          cells = length-set h.refs i chain ∙ v.cells;
          placed =
              set-Placed h.allocated 0 i h.refs chain v.placed
                (subst (λ m. BelongsTo h.allocated m chain) (omega arith) belongs) apart;
          count = omega (arith, length-joined-set h.refs i chain low, v.count);
        };
        finds = find-set_cell h.allocated h.refs code key chain x pos v.cells law;
      }

  cell-Placed :
      (code : ℕ) (h : Hash K V)
      → IsValid h
      → BelongsTo h.allocated (code % h.allocated) (cell h code) × Distinct (cell h code)
  cell-Placed code h v =
      let (a, b) = get_or-Placed h.allocated 0 (code % h.allocated) h.refs v.placed in
      (subst (λ m. BelongsTo h.allocated m (cell h code)) (omega arith) a, b)

  link_in-Update :
      (code : ℕ) (key : K) (x : V) (h : Hash K V)
      → IsValid h
      → find code key (cell h code) ≡ none
      → Update code key (some x) h (link_in code key x h)
  unfolding link_in
  link_in-Update code key x h v new =
      let (belongs, apart) = cell-Placed code h v in
      let p : Pair K V = record { code = code; key = key; value = x } in
      set_cell-Update code key (some x) (p ∷ cell h code) _ (h.fpairs_count + 1) h v
        (find-push p (cell h code)) (refl, belongs) (new, apart) (omega arith)

  pub assign-Update :
      (code : ℕ) (key : K) (x : V) (h : Hash K V) {old : V}
      → IsValid h
      → find code key (cell h code) ≡ some old
      → Update code key
          (some x)
          h
          (record h { refs = set_cell h code (assign code key x (cell h code)) })
  assign-Update code key x h v there =
      let (belongs, apart) = cell-Placed code h v in
      set_cell-Update code key (some x) (assign code key x (cell h code)) h.fused_refs
        h.fpairs_count h v (find-assign code key x (cell h code) there)
        (assign-BelongsTo _ _ code key x (cell h code) belongs)
        (assign-Distinct code key x (cell h code) apart)
        (omega (arith, length-assign code key x (cell h code)))

  erase-Update :
      (code : ℕ) (key : K) (h : Hash K V) {old : V}
      → IsValid h
      → find code key (cell h code) ≡ some old
      → Update code key none h (record h {
        refs = set_cell h code (erase code key (cell h code));
        fpairs_count = h.fpairs_count - 1;
      })
  erase-Update code key h v there =
      let (belongs, apart) = cell-Placed code h v in
      let low : code % h.allocated < length h.refs =
        subst (λ m. code % h.allocated < m) (sym v.cells) (mod-lt code (positive h v)) in
      set_cell-Update code key none (erase code key (cell h code)) h.fused_refs (h.fpairs_count - 1)
        h v (find-erase code key (cell h code) apart)
        (erase-BelongsTo _ _ code key (cell h code) belongs)
        (erase-Distinct code key (cell h code) apart)
        (omega (
          arith,
          length-erase code key (cell h code) there,
          length-joined-set h.refs (code % h.allocated) [] low,
          v.count,
        ))

  pub remove-Update :
      (key : K) (h : Hash K V) → IsValid h → Update (keys.hash_code key) key none h (remove key h).1
  unfolding remove
  remove-Update key h v =
      elim (Option-cases (find (keys.hash_code key) key (cell h (keys.hash_code key)))) [
        | inl e ↦ let u = stays-Update (keys.hash_code key) key h v in rw (remove, e) (rw e at u)
        | inr (old, e) ↦ rw (remove, e) (erase-Update (keys.hash_code key) key h v e)
      ]

  -- A value that is put behind the growth stands for its key.
  pub put_value-Update :
      (key : K) (x : V) (h : Hash K V)
      → IsValid h
      → Update (keys.hash_code key) key (some x) h (put_value key x h).1
  unfolding put_value
  put_value-Update key x h v =
      elim (Option-cases (find (keys.hash_code key) key (cell h (keys.hash_code key)))) [
        | inl e ↦ rw (put_value, e) (link_in-Update (keys.hash_code key) key x h v e)
        | inr (old, e) ↦ rw (put_value, e) (assign-Update (keys.hash_code key) key x h v e)
      ]

  pub keep_value-Update :
      (key : K) (x : V) (h : Hash K V)
      → IsValid h
      → Update
          (keys.hash_code key)
          key
          (or_else (find (keys.hash_code key) key (cell h (keys.hash_code key))) (some x))
          h
          (keep_value key x h).1
  unfolding keep_value
  keep_value-Update key x h v =
      elim (Option-cases (find (keys.hash_code key) key (cell h (keys.hash_code key)))) [
        | inl e ↦ rw (keep_value, e) (link_in-Update (keys.hash_code key) key x h v e)
        | inr (old, e) ↦
            let u = stays-Update (keys.hash_code key) key h v in rw (keep_value, e) (rw e at u)
      ]
