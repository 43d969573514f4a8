-- ===== src/Hash/View.antt =====
-- A table as a finite map: what `get` answers behind each operation, and what the operations return.
use parser.Prelude.{
  ◌+◌, ◌-◌, ◌%◌, ◌≡◌, refl, sym, ap, ap₂, ◌∙◌, true, false, Option, none, some, [], arith, ◌==◌,
  ==_iff, if◌then◌else◌, Bool-cases, Option-cases, inl, inr, length-replicate, subst,
}
use parser.Hash.Code.{Key}
use parser.Hash.Chain.{Pair, hits, find}
use parser.Hash.Chain.Find.{or_else}
use parser.Hash.Cells.{replicate-Placed, length-joined-replicate, get_or-replicate}
use parser.Hash.Growth.{Grown, make_room-Grown}
use parser.Hash.Update.{
  IsValid, Update, remove-Update, put_value-Update, keep_value-Update, stays-Update, assign-Update,
}
use parser.Hash.{
  Hash, new_hash, cell, make_room, clear, get, contains, remove, put_value, put, put_replaced,
  keep_value, put_dont_replace, link_in,
}

module _ {ℓ} {K : Type ℓ} ⦃keys : Key K⦄ where
  -- A code adds nothing to the equality of the keys.
  hits-same : (j k : K) → hits (keys.hash_code j) j (keys.hash_code k) k ≡ keys.same j k
  hits-same j k = elim (Bool-cases (keys.same j k)) [
    | inl e ↦
        let codes : keys.hash_code j ≡ keys.hash_code k =
          ap keys.hash_code ((keys.same_iff j k).0 e) in
        rw ((==_iff _ _).1 codes) refl
    | inr e ↦ rw e (elim (Bool-cases (keys.hash_code j == keys.hash_code k)) [
      | inl f ↦ rw f refl
      | inr f ↦ rw f refl
    ])
  ]

module _ {ℓ} {K V : Type ℓ} ⦃keys : Key K⦄ where
  -- The table is valid, and the key has the value while all the others keep theirs.
  pub record Stores (key : K) (x : Option V) (h h' : Hash K V) : Type ℓ where
    pub valid : IsValid h'
    pub gets : (k : K) → get k h' ≡ (if keys.same key k then x else get k h)

  Update-Stores :
      (key : K) (x : Option V) (h h' : Hash K V)
      → Update (keys.hash_code key) key x h h'
      → Stores key x h h'
  unfolding get
  Update-Stores key x h h' u = record {
    valid = u.valid;
    gets = λ k.
        u.finds (keys.hash_code k) k
        ∙ ap (λ b. if b then x else find (keys.hash_code k) k (cell h (keys.hash_code k)))
            (hits-same key k);
  }

  Grown-gets : (h h' : Hash K V) → Grown h h' → (k : K) → get k h' ≡ get k h
  unfolding get
  Grown-gets h h' g k = g.finds (keys.hash_code k) k

  -- What is stored behind the growth is stored in the table.
  Grown-Stores :
      (key : K) (x : Option V) (h h1 h2 : Hash K V)
      → Grown h h1
      → Stores key x h1 h2
      → Stores key x h h2
  Grown-Stores key x h h1 h2 g s = record {
    valid = s.valid;
    gets = λ k. s.gets k ∙ ap (λ o. if keys.same key k then x else o) (Grown-gets h h1 g k);
  }

  -- `remove` on a valid table leaves it valid, its key without a value, and every other key as it was.
  pub remove-Stores : (key : K) (h : Hash K V) → IsValid h → Stores key none h (remove key h).1
  remove-Stores key h v = Update-Stores key none h _ (remove-Update key h v)

  -- `put` on a valid table leaves it valid, under its key the value that was put, with no value the
  -- key removed, and every other key as it was, whether the table grew or not.
  pub put-Stores :
      (key : K) (value : Option V) (h : Hash K V)
      → IsValid h
      → Stores key value h (put key value h).1
  unfolding put
  put-Stores key none h v = remove-Stores key h v
  put-Stores key (some x) h v =
      let g = make_room-Grown h v in
      Grown-Stores key (some x) h _ _ g
        (Update-Stores key (some x) _ _ (put_value-Update key x (make_room h) g.valid))

  put_kept :
      (key : K) (x : V) (h : Hash K V)
      → IsValid h
      → Stores key (or_else (get key h) (some x)) h (keep_value key x h).1
  unfolding get
  put_kept key x h v = Update-Stores key _ h _ (keep_value-Update key x h v)

  -- On a valid table `put_dont_replace` of a value stores it where the key has none and keeps the one
  -- that stands there; the table stays valid, and every other key is as it was.
  pub put_dont_replace-Stores :
      (key : K) (x : V) (h : Hash K V)
      → IsValid h
      → Stores key (or_else (get key h) (some x)) h (put_dont_replace key (some x) h).1
  unfolding put_dont_replace
  put_dont_replace-Stores key x h v =
      let g = make_room-Grown h v in
      let u = put_kept key x (make_room h) g.valid in
      Grown-Stores key _ h _ _ g (
        subst
          (λ o. Stores key (or_else o (some x)) (make_room h) (keep_value key x (make_room h)).1)
          (Grown-gets h _ g key) u)

  -- On a valid table `put_replaced` of a value stores it where the key has one and adds none else; the
  -- table stays valid, and every other key is as it was.
  pub put_replaced-Stores :
      (key : K) (x : V) (h : Hash K V)
      → IsValid h
      → Stores key (if contains key h then some x else none) h (put_replaced key (some x) h).1
  unfolding put_replaced contains
  put_replaced-Stores key x h v =
      elim (Option-cases (find (keys.hash_code key) key (cell h (keys.hash_code key)))) [
        | inl e ↦
            let u = stays-Update (keys.hash_code key) key h v in
            rw (contains, put_replaced, e) (Update-Stores key none h h (rw e at u))
        | inr (old, e) ↦
            rw (contains, put_replaced, e)
              (Update-Stores key (some x) h _ (assign-Update (keys.hash_code key) key x h v e))
      ]

  -- What `put` and `remove` return, and the pairs that they count.
  pub record Counts (key : K) (x : V) (h : Hash K V) : Type ℓ where
    pub put_existed : (put key (some x) h).0 ≡ contains key h
    pub put_count :
        (put key (some x) h).1.fpairs_count
        ≡ (if contains key h then h.fpairs_count else h.fpairs_count + 1)
    pub remove_existed : (remove key h).0 ≡ contains key h
    pub remove_count :
        (remove key h).1.fpairs_count
        ≡ (if contains key h then h.fpairs_count - 1 else h.fpairs_count)

  Grown-contains : (key : K) (h h' : Hash K V) → Grown h h' → contains key h' ≡ contains key h
  unfolding contains
  Grown-contains key h h' g =
      ap (λ (o : Option V). elim o [ none ↦ false | some v ↦ true ])
        (g.finds (keys.hash_code key) key)

  put_value-Counts :
      (key : K) (x : V) (h : Hash K V)
      → ((put_value key x h).0 ≡ contains key h)
        × ((put_value key x h).1.fpairs_count
            ≡ (if contains key h then h.fpairs_count else h.fpairs_count + 1))
  unfolding put_value contains link_in
  put_value-Counts key x h =
      elim (Option-cases (find (keys.hash_code key) key (cell h (keys.hash_code key)))) [
        | inl e ↦ rw (put_value, contains, e) (refl, refl)
        | inr (old, e) ↦ rw (put_value, contains, e) (refl, refl)
      ]

  remove-Counts :
      (key : K) (h : Hash K V)
      → ((remove key h).0 ≡ contains key h)
        × ((remove key h).1.fpairs_count
            ≡ (if contains key h then h.fpairs_count - 1 else h.fpairs_count))
  unfolding remove contains
  remove-Counts key h =
      elim (Option-cases (find (keys.hash_code key) key (cell h (keys.hash_code key)))) [
        | inl e ↦ rw (remove, contains, e) (refl, refl)
        | inr (old, e) ↦ rw (remove, contains, e) (refl, refl)
      ]

  -- On a valid table `put` says whether the key was there and counts a pair if it was not, and
  -- `remove` says the same and counts one off if it was.
  pub put-Counts : (key : K) (x : V) (h : Hash K V) → IsValid h → Counts key x h
  unfolding put
  put-Counts key x h v =
      let g = make_room-Grown h v in
      let (existed, count) = put_value-Counts key x (make_room h) in
      let same_key = Grown-contains key h (make_room h) g in
      record {
        put_existed = existed ∙ same_key;
        put_count = count ∙ ap₂ (λ b n. if b then n else n + 1) same_key g.count;
        remove_existed = (remove-Counts key h).0;
        remove_count = (remove-Counts key h).1;
      }

  -- A new table is valid and empty.
  pub new_hash-IsValid : IsValid (new_hash {K = K} {V = V})
  unfolding new_hash
  new_hash-IsValid = record {
    index_low = omega arith;
    size = refl;
    cells = refl;
    placed = replicate-Placed K V 5 0 5;
    count = refl;
  }

  -- `clear` of a valid table leaves a valid one in which no key has a value.
  pub clear-get :
      (h : Hash K V) → IsValid h → IsValid (clear h) × ((k : K) → get k (clear h) ≡ none)
  unfolding clear get find
  clear-get h v = (
    record {
      index_low = v.index_low;
      size = v.size;
      cells = length-replicate h.allocated [];
      placed = replicate-Placed K V h.allocated 0 h.allocated;
      count = sym (length-joined-replicate (Pair K V) h.allocated);
    },
    λ k.
        ap (find (keys.hash_code k) k)
          (get_or-replicate h.allocated (keys.hash_code k % h.allocated) []),
  )
