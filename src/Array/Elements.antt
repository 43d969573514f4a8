-- ===== src/Array/Elements.antt =====
-- An array as the list of its elements, and its operations on that list. The block never overflows.
use Prim.Native.Nat.{max}
use parser.Prelude.{
  ℕ, zero, suc, ◌+◌, ◌-◌, ◌/◌, ◌≤◌, ◌<◌, ◌≡◌, refl, ap, ◌∙◌, List, [], ◌∷◌, ◌++◌, arith, ltb, leb,
  ◌==◌, if◌then◌else◌, if_cases, Bool-cases, inl, inr, length, take, drop, replicate, length-append,
  length-take, length-drop, length-replicate,
}
use parser.Array.Block.{overwrite, length-overwrite, take-overwrite, take-take, drop-take}
use parser.Array.{Array, resize, expand, fit, make_room, push}

module _ {ℓ} {T : Type ℓ} where
  -- The block has the cells that are allocated, and no more of them are in use.
  pub record IsValid (a : Array T) : Type ℓ where
    pub block : length a.felements ≡ a.fallocated
    pub in_use : a.fsize ≤ a.fallocated

  abbrev pub elements : Array T → List T
  elements a = take a.fsize a.felements

  -- The array is valid and has these elements.
  pub record Holds (xs : List T) (a : Array T) : Type ℓ where
    pub valid : IsValid a
    pub holds : elements a ≡ xs

  -- The array has room for `n` cells in all, and the elements that it had.
  pub record Roomy (n : ℕ) (a b : Array T) : Type ℓ where
    pub valid : IsValid b
    pub same_size : b.fsize ≡ a.fsize
    pub same : elements b ≡ elements a
    pub room : n ≤ b.fallocated

  take-append_low : (n : ℕ) (xs ys : List T) → n ≤ length xs → take n (xs ++ ys) ≡ take n xs
  take-append_low zero xs ys h = refl
  take-append_low (suc n) [] ys h = absurd (omega arith)
  take-append_low (suc n) (x ∷ xs) ys h = ap (λ t. x ∷ t) (take-append_low n xs ys (omega arith))

module _ {ℓ} {T : Type ℓ} (blank : T) where
  resize-Roomy : (n : ℕ) (a : Array T) → IsValid a → a.fallocated ≤ n → Roomy n a (resize blank n a)
  unfolding resize
  resize-Roomy n a v h =
      if_cases (Roomy n a) (a.fallocated == 0)
        (λ e.
          let none_used : a.fsize ≡ 0 = ground (arith, v.in_use) in
          record {
            valid = record { block = length-replicate n blank; in_use = omega (arith, v.in_use) };
            same_size = refl;
            same = rw none_used refl;
            room = omega arith;
          })
        (λ _.
          let more = replicate (n - a.fallocated) blank in
          record {
            valid = record {
              block = omega (
                arith,
                v.block,
                length-take n (a.felements ++ more),
                length-append a.felements more,
                length-replicate (n - a.fallocated) blank,
              );
              in_use = omega (arith, v.in_use);
            };
            same_size = refl;
            same =
                take-take a.fsize n (a.felements ++ more) (omega (arith, v.in_use))
                ∙ take-append_low a.fsize a.felements more (omega (arith, v.in_use, v.block));
            room = omega arith;
          })

  pub Roomy-fewer : (m n : ℕ) (a b : Array T) → n ≤ m → Roomy m a b → Roomy n a b
  Roomy-fewer m n a b h r = record {
    valid = r.valid;
    same_size = r.same_size;
    same = r.same;
    room = omega (arith, r.room);
  }

  pub make_room-Roomy : (a : Array T) → IsValid a → Roomy (a.fsize + 1) a (make_room blank a)
  unfolding make_room expand
  make_room-Roomy a v =
      if_cases (Roomy (a.fsize + 1) a) (a.fsize == a.fallocated)
        (λ _.
          let n = if ltb 0 a.fallocated then a.fallocated + a.fallocated / 2 + 2 else 3 in
          let larger : a.fallocated + 1 ≤ n = ground arith in
          Roomy-fewer n (a.fsize + 1) a _ (omega (arith, larger, v.in_use))
            (resize-Roomy n a v (omega (arith, larger))))
        (λ e. record { valid = v; same_size = refl; same = refl; room = ground (arith, v.in_use) })

  pub fit-Roomy : (n : ℕ) (a : Array T) → IsValid a → Roomy (n + 1) a (fit blank n a)
  unfolding fit
  fit-Roomy n a v =
      if_cases (Roomy (n + 1) a) (leb a.fallocated n)
        (λ _.
          let m = max (a.fallocated + a.fallocated / 4) (n + 1) in
          Roomy-fewer m (n + 1) a _ (omega arith) (resize-Roomy m a v (omega arith)))
        (λ e. record { valid = v; same_size = refl; same = refl; room = ground arith })

  -- Cells that are copied behind the elements, where there is room.
  pub overwrite-Holds :
      (a b : Array T) (xs : List T)
      → Roomy (a.fsize + length xs) a b
      → Holds
          (elements a ++ xs)
          (record b { felements = overwrite b.felements b.fsize xs; fsize = b.fsize + length xs })
  overwrite-Holds a b xs r = record {
    valid = record {
      block = length-overwrite b.felements b.fsize xs ∙ r.valid.block;
      in_use = omega (arith, r.room, r.same_size);
    };
    holds =
        take-overwrite b.felements b.fsize (b.fsize + length xs) xs refl
          (omega (arith, r.room, r.same_size, r.valid.block))
        ∙ ap (λ t. t ++ xs) r.same;
  }

  -- `operator+=` on a valid array puts the element behind the others, whether the block grew or not.
  pub push-Holds : (x : T) (a : Array T) → IsValid a → Holds (elements a ++ x ∷ []) (push blank x a)
  unfolding push
  push-Holds x a v = overwrite-Holds a (make_room blank a) (x ∷ []) (make_room-Roomy a v)

module _ {ℓ} {T : Type ℓ} where
  take_all : (n : ℕ) (xs : List T) → length xs ≤ n → take n xs ≡ xs
  take_all zero [] h = refl
  take_all (suc n) [] h = refl
  take_all zero (x ∷ xs) h = absurd (omega arith)
  take_all (suc n) (x ∷ xs) h = ap (λ t. x ∷ t) (take_all n xs (omega arith))

  pub no_elements : (xs : List T) → length xs ≡ 0 → xs ≡ []
  no_elements [] h = refl
  no_elements (x ∷ xs) h = absurd (omega arith)

  -- The part of the other array that `append` copies.
  pub portion :
      (src : Array T) (offset limit : ℕ)
      → IsValid src
      → offset < src.fsize
      → (take
            (if ltb (src.fsize - offset) limit then src.fsize - offset else limit)
            (drop offset src.felements)
          ≡ take limit (drop offset (elements src)))
        × (length (take limit (drop offset (elements src)))
            ≡ (if ltb (src.fsize - offset) limit then src.fsize - offset else limit))
  portion src offset limit v h =
      let m = src.fsize - offset in
      let part = drop offset src.felements in
      let cut = drop-take offset src.fsize m src.felements (omega arith) in
      let size : length part ≡ length src.felements - offset = length-drop offset src.felements in
      elim (Bool-cases (ltb m limit)) [
        | inl e ↦
            let all = take_all limit (take m part) (ground (arith, length-take m part)) in
            rw (e, cut, all) (refl, omega (arith, length-take m part, size, v.block, v.in_use))
        | inr e ↦
            let same = take-take limit m part (ground arith) in
            rw (e, cut, same)
              (refl, ground (arith, length-take limit part, size, v.block, v.in_use))
      ]
