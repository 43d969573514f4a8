-- ===== src/Array.antt =====
-- The class Array of src/include/pa_array.h. The block is a list of its cells, which the allocator fills
-- with `blank`, and a write past its end is lost.
pub mod Block
pub mod Elements
pub mod Change
use Prim.Native.Nat.{max}
use parser.Prelude.{
  ℕ, zero, suc, ◌+◌, ◌-◌, ◌/◌, ◌*◌, Bool, true, false, ◌||◌, Option, none, some, List, [], ◌∷◌,
  ◌++◌, ltb, leb, ◌==◌, if◌then◌else◌, get_elem?, set, take, drop, replicate, length,
}
use parser.Array.Block.{overwrite}

-- `Action_options`; `defined` is set by the callers only.
pub record ActionOptions : Type 0 where
  pub offset : ℕ
  pub limit : ℕ
  pub reverse : Bool

-- `adjust` returns whether there is anything to do, with the limit that it has fixed.
unfoldable pub adjust : ℕ → ActionOptions → Bool × ActionOptions
adjust count o =
    let m = if o.reverse then o.offset + 1 else count - o.offset in
    if count == 0 || o.limit == 0
    then (false, o)
    else if leb count o.offset
    then (false, o)
    else if m == 0
    then (false, o)
    else (true, if ltb m o.limit then record o { limit = m } else o)

pub record Array {ℓ} (T : Type ℓ) : Type ℓ where
  pub felements : List T
  pub fallocated : ℕ
  pub fsize : ℕ

module _ {ℓ} {T : Type ℓ} where
  unfoldable pub get : ℕ → Array T → Option T
  get index a = get_elem? a.felements index

  unfoldable pub put : ℕ → T → Array T → Array T
  put index element a = record a { felements = set a.felements index element }

  -- `if (index<--fsize) memmove(...)`
  unfoldable pub remove : ℕ → Array T → Array T
  unfolding overwrite
  remove index a =
      let fsize = a.fsize - 1 in
      if ltb index fsize
      then record a {
        felements =
            overwrite a.felements index (take (fsize - index) (drop (index + 1) a.felements));
        fsize = fsize;
      }
      else record a { fsize = fsize }

module _ {ℓ} {T : Type ℓ} (blank : T) where
  unfoldable pub new_array : ℕ → Array T
  new_array initial = record {
    felements = replicate initial blank;
    fallocated = initial;
    fsize = 0;
  }

  pub resize : ℕ → Array T → Array T
  resize asize a =
      if a.fallocated == 0
      then record a { felements = replicate asize blank; fallocated = asize }
      else record a {
        felements = take asize (a.felements ++ replicate (asize - a.fallocated) blank);
        fallocated = asize;
      }

  pub expand : Array T → Array T
  expand a = resize (if ltb 0 a.fallocated then a.fallocated + a.fallocated / 2 + 2 else 3) a

  pub fit : ℕ → Array T → Array T
  fit index a =
      if leb a.fallocated index
      then resize (max (a.fallocated + a.fallocated / 4) (index + 1)) a
      else a

  -- `if(is_full()) expand();`
  pub make_room : Array T → Array T
  make_room a = if a.fsize == a.fallocated then expand a else a

  -- `operator+=`
  unfoldable pub push : T → Array T → Array T
  unfolding make_room expand resize overwrite
  push src a =
      let b = make_room a in
      record b { felements = overwrite b.felements b.fsize (src ∷ []); fsize = b.fsize + 1 }

  -- `append`; ARRAY_OPTION_LIMIT_ALL is the largest limit.
  unfoldable pub append : Array T → ℕ → ℕ → Array T → Array T
  unfolding fit resize overwrite
  append src offset alimit a =
      let limit = if ltb (src.fsize - offset) alimit then src.fsize - offset else alimit in
      if src.fsize == 0 || alimit == 0 || leb src.fsize offset
      then a
      else let b = fit (a.fsize + limit - 1) a in
        record b {
          felements = overwrite b.felements b.fsize (take limit (drop offset src.felements));
          fsize = b.fsize + limit;
        }

  unfoldable pub insert : ℕ → T → Array T → Array T
  unfolding make_room expand resize overwrite
  insert index element a =
      let b = make_room a in
      record b {
        felements =
            set
              (overwrite b.felements (index + 1) (take (b.fsize - index) (drop index b.felements)))
              index element;
        fsize = b.fsize + 1;
      }

  -- `clear` fills what was in use.
  unfoldable pub clear : Array T → Array T
  unfolding overwrite
  clear a = record a { felements = overwrite a.felements 0 (replicate a.fsize blank); fsize = 0 }
