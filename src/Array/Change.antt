-- ===== src/Array/Change.antt =====
-- `append`, `insert`, `remove` and `put` on the elements of an array, and the range of `adjust`.
use parser.Prelude.{
  ℕ, suc, ◌+◌, ◌-◌, ◌≤◌, ◌<◌, ◌≡◌, sym, ap, ap₂, ◌∙◌, true, ◌||◌, List, [], ◌∷◌, ◌++◌, arith, ltb,
  leb, ◌==◌, if◌then◌else◌, if_cases, length, set, take, drop, length-take, length-drop, length-set,
  append-nil, subst,
}
use parser.Array.Block.{
  overwrite, length-overwrite, take-overwrite, take-take, drop-take, take-set, set-append,
}
use parser.Array.Elements.{
  IsValid, elements, Holds, Roomy, Roomy-fewer, make_room-Roomy, fit-Roomy, overwrite-Holds,
  portion, no_elements,
}
use parser.Array.{Array, ActionOptions, adjust, remove, make_room, append, insert}

module _ {ℓ} {T : Type ℓ} (blank : T) where
  -- A copy under another name for what is copied and how much.
  copied-Holds :
      (a b : Array T) (xs wanted : List T) (k : ℕ)
      → xs ≡ wanted
      → length wanted ≡ k
      → Roomy (a.fsize + k) a b
      → Holds
          (elements a ++ wanted)
          (record b { felements = overwrite b.felements b.fsize xs; fsize = b.fsize + k })
  copied-Holds a b xs wanted k same size r =
      let all : length xs ≡ k = ap length same ∙ size in
      subst
        (λ w.
          Holds (elements a ++ w)
            (record b { felements = overwrite b.felements b.fsize xs; fsize = b.fsize + k }))
        same
        (subst
          (λ j.
            Holds (elements a ++ xs)
              (record b { felements = overwrite b.felements b.fsize xs; fsize = b.fsize + j }))
          all (overwrite-Holds blank a b xs (subst (λ j. Roomy (a.fsize + j) a b) (sym all) r)))

  -- `append` of a part of a valid array puts the elements of that part behind those of a valid array:
  -- from the offset on as many as the limit allows and the other array has.
  pub append-Holds :
      (src a : Array T) (offset limit : ℕ)
      → IsValid src
      → IsValid a
      → Holds
          (elements a ++ take limit (drop offset (elements src)))
          (append blank src offset limit a)
  unfolding append
  append-Holds src a offset limit vs v =
      let m = src.fsize - offset in
      let wanted = take limit (drop offset (elements src)) in
      if_cases (Holds (elements a ++ wanted)) (src.fsize == 0 || limit == 0 || leb src.fsize offset)
        (λ e.
          let nothing : wanted ≡ [] = no_elements wanted (
            ground (
              arith,
              length-take limit (drop offset (elements src)),
              length-drop offset (elements src),
              length-take src.fsize src.felements,
            )) in
          record { valid = v; holds = rw nothing (sym (append-nil (elements a))) })
        (λ e.
          let k = if ltb m limit then m else limit in
          let some_left : 1 ≤ k = ground arith in
          let below : offset < src.fsize = ground arith in
          let (same, size) = portion src offset limit vs below in
          copied-Holds a _ _ wanted k same size (
            Roomy-fewer blank _ (a.fsize + k) a _ (omega (arith, some_left))
              (fit-Roomy blank (a.fsize + k - 1) a v)))

  -- `insert` at an index up to the size puts the element there, and the later ones one cell further.
  pub insert-Holds :
      (index : ℕ) (x : T) (a : Array T)
      → IsValid a
      → index ≤ a.fsize
      → Holds (take index (elements a) ++ x ∷ drop index (elements a)) (insert blank index x a)
  unfolding insert
  insert-Holds index x a v h =
      let next : index + 1 ≡ suc index = omega arith in
      let b = make_room blank a in
      let r = make_room-Roomy blank a v in
      let tail = take (b.fsize - index) (drop index b.felements) in
      let cut : drop index (elements a) ≡ tail =
        ap (drop index) (sym r.same)
        ∙ drop-take index b.fsize (b.fsize - index) b.felements (omega (arith, r.same_size)) in
      let front : take index (elements a) ≡ take index b.felements =
        ap (take index) (sym r.same)
        ∙ take-take index b.fsize b.felements (omega (arith, r.same_size)) in
      let tail_size : length tail ≡ b.fsize - index = omega (
        arith,
        length-take (b.fsize - index) (drop index b.felements),
        length-drop index b.felements,
        r.valid.block,
        r.valid.in_use,
      ) in
      record {
        valid = record {
          block =
              length-set (overwrite b.felements (index + 1) tail) index x
              ∙ length-overwrite b.felements (index + 1) tail
              ∙ r.valid.block;
          in_use = omega (arith, r.room, r.same_size);
        };
        holds =
            take-set (b.fsize + 1) index x (overwrite b.felements (index + 1) tail)
            ∙ ap (λ t. set t index x)
                (take-overwrite b.felements (index + 1) (b.fsize + 1) tail
                  (omega (arith, tail_size, r.same_size))
                  (omega (arith, r.valid.block, r.room, r.same_size)))
            ∙ ap (λ k. set (take k b.felements ++ tail) index x) next
            ∙ set-append index x b.felements tail (omega (arith, r.valid.block, r.room))
            ∙ ap₂ (λ s t. s ++ x ∷ t) (sym front) (sym cut);
      }

module _ {ℓ} {T : Type ℓ} where
  -- `remove` of an index below the size takes that element out, and the later ones one cell back.
  pub remove-Holds :
      (index : ℕ) (a : Array T)
      → IsValid a
      → index < a.fsize
      → Holds (take index (elements a) ++ drop (index + 1) (elements a)) (remove index a)
  unfolding remove
  remove-Holds index a v h =
      let n = a.fsize - 1 in
      let tail = take (n - index) (drop (index + 1) a.felements) in
      let front = take-take index a.fsize a.felements (omega arith) in
      let cut = drop-take (index + 1) a.fsize (n - index) a.felements (omega arith) in
      let tail_size : length tail ≡ n - index = omega (
        arith,
        length-take (n - index) (drop (index + 1) a.felements),
        length-drop (index + 1) a.felements,
        v.block,
        v.in_use,
      ) in
      if_cases (Holds (take index (elements a) ++ drop (index + 1) (elements a))) (ltb index n)
        (λ e. record {
          valid = record {
            block = length-overwrite a.felements index tail ∙ v.block;
            in_use = omega (arith, v.in_use);
          };
          holds =
              take-overwrite a.felements index n tail (ground (arith, tail_size))
                (omega (arith, v.block, v.in_use))
              ∙ ap₂ (λ s t. s ++ t) (sym front) (sym cut);
        })
        (λ e.
          let last : n ≡ index = ground arith in
          let nothing : drop (index + 1) (elements a) ≡ [] = no_elements _ (
            omega (arith, length-drop (index + 1) (elements a), length-take a.fsize a.felements)) in
          record {
            valid = record { block = v.block; in_use = omega (arith, v.in_use) };
            holds =
                ap (λ k. take k a.felements) last
                ∙ sym front
                ∙ sym (append-nil (take index (elements a)))
                ∙ ap (λ t. take index (elements a) ++ t) (sym nothing);
          })

-- What `adjust` lets through keeps inside the array: going forward from the offset, or back to the start.
pub adjust-range :
    (count : ℕ) (o : ActionOptions)
    → (adjust count o).0 ≡ true
    → (1 ≤ (adjust count o).1.limit)
      × ((adjust count o).1.limit ≤ o.limit)
      × (if o.reverse
          then (adjust count o).1.limit ≤ o.offset + 1
          else o.offset + (adjust count o).1.limit ≤ count)
      × (o.offset < count)
unfolding adjust
adjust-range count o h = ground arith
