-- ===== src/Charset/Tables/Search.antt =====
-- `Charset::xlatOneTo` and `change_case_UTF8` of src/main/pa_charset.C: the search by halves
-- against a search of all the records.
use parser.Prelude.{
  ℕ, zero, suc, ◌+◌, ◌-◌, ◌/◌, ◌<◌, ◌≤◌, ◌≡◌, ◌≢◌, refl, sym, false, List, [], ◌∷◌, ltb, leb, ◌==◌,
  if◌then◌else◌, length, get_or, if_cases, Bool-cases, inl, inr, subst, ltb→lt, leb→le, arith,
}
use parser.Charset.Tables.{Rec, no_rec, Tables, xlat_loop, xlat_one_to}

-- The code of the record at an index.
unfoldable pub code_at : List Rec → ℕ → ℕ
code_at table i = (get_or table i no_rec).int_ch

unfoldable pub IsSorted : List Rec → Type 0
unfolding code_at
IsSorted table = (i j : ℕ) → i < j → j < length table → code_at table i < code_at table j

-- The first record with the code, in the order of the table.
pub find : ℕ → List Rec → ℕ → ℕ
find to_xlat [] not_found = not_found
find to_xlat (r ∷ rs) not_found =
    if to_xlat == r.int_ch then r.ext_ch else find to_xlat rs not_found

find-found :
    (c : ℕ) (table : List Rec) (d k : ℕ)
    → k < length table
    → ((i : ℕ) → i < k → code_at table i ≢ c)
    → code_at table k ≡ c
    → find c table d ≡ (get_or table k no_rec).ext_ch
unfolding find code_at
find-found c [] d k hk before e = elim hk [ ]
find-found c (r ∷ rs) d zero hk before e = ground arith
find-found c (r ∷ rs) d (suc k) hk before e =
    if_cases (λ x. x ≡ (get_or rs k no_rec).ext_ch) (c == r.int_ch)
      (λ t. absurd (before 0 (omega arith) (ground arith)))
      (λ t. find-found c rs d k (omega arith) (λ i hi. before (suc i) (omega arith)) e)

find-missing :
    (c : ℕ) (table : List Rec) (d : ℕ)
    → ((i : ℕ) → i < length table → code_at table i ≢ c)
    → find c table d ≡ d
unfolding find code_at
find-missing c [] d none_has = refl
find-missing c (r ∷ rs) d none_has =
    if_cases (λ x. x ≡ d) (c == r.int_ch) (λ t. absurd (none_has 0 (omega arith) (ground arith)))
      (λ t. find-missing c rs d (λ i hi. none_has (suc i) (omega arith)))

leb-false : (a b : ℕ) → leb a b ≡ false → b < a
leb-false a b h = ground arith

mid : {lo hi : ℕ} → lo < hi → (lo ≤ (lo + hi - 1) / 2) × ((lo + hi - 1) / 2 < hi)
mid h = (omega arith, omega arith)

module _ (c : ℕ) (table : List Rec) (d : ℕ) (sorted : IsSorted table) where
  find-found_sorted :
      (k : ℕ)
      → k < length table
      → code_at table k ≡ c
      → find c table d ≡ (get_or table k no_rec).ext_ch
  unfolding IsSorted
  find-found_sorted k hk e =
      find-found c table d k hk (λ i hi same. omega (arith, sorted i k hi hk, same, e)) e

  find-missing_between :
      (lo hi : ℕ)
      → hi ≤ lo
      → ((i : ℕ) → i < lo → code_at table i < c)
      → ((i : ℕ) → hi ≤ i → i < length table → c < code_at table i)
      → find c table d ≡ d
  find-missing_between lo hi h below above = find-missing c table d not_here
    where
      not_here : (i : ℕ) → i < length table → code_at table i ≢ c
      not_here i hi' same = elim (Bool-cases (ltb i lo)) [
        | inl t ↦ omega (arith, below i (ltb→lt i lo t), same)
        | inr t ↦ omega (arith, above i (ground arith) hi', same)
      ]

  below-mid :
      (i : ℕ) → i < length table → code_at table i < c → (j : ℕ) → j < i + 1 → code_at table j < c
  unfolding IsSorted
  below-mid i hi less j hj = elim (Bool-cases (ltb j i)) [
    | inl t ↦ omega (arith, sorted j i (ltb→lt j i t) hi, less)
    | inr t ↦ subst (λ k. code_at table k < c) (ground arith) less
  ]

  above-mid :
      (i : ℕ) → c < code_at table i → (j : ℕ) → i ≤ j → j < length table → c < code_at table j
  unfolding IsSorted
  above-mid i more j hj h = elim (Bool-cases (ltb i j)) [
    | inl t ↦ omega (arith, sorted i j (ltb→lt i j t) h, more)
    | inr t ↦ subst (λ k. c < code_at table k) (ground arith) more
  ]

  xlat_loop-find :
      (rounds lo hi : ℕ)
      → hi ≤ length table
      → hi < lo + rounds
      → ((i : ℕ) → i < lo → code_at table i < c)
      → ((i : ℕ) → hi ≤ i → i < length table → c < code_at table i)
      → xlat_loop rounds table c d lo hi ≡ find c table d
  unfolding xlat_loop IsSorted code_at
  xlat_loop-find zero lo hi h hr below above =
      sym (find-missing_between lo hi (omega arith) below above)
  xlat_loop-find (suc rounds) lo hi h hr below above =
      let i = (lo + hi - 1) / 2 in
      if_cases (λ x. x ≡ find c table d) (leb hi lo)
        (λ t. sym (find-missing_between lo hi (leb→le hi lo t) below above))
        (λ t.
          let inside : (lo ≤ i) × (i < hi) = mid (leb-false hi lo t) in
          if_cases (λ x. x ≡ find c table d) (c == code_at table i)
            (λ same. sym (find-found_sorted i (omega arith) (ground arith)))
            (λ other.
              if_cases (λ x. x ≡ find c table d) (ltb (code_at table i) c)
                (λ less.
                  xlat_loop-find rounds (i + 1) hi h (omega arith)
                    (below-mid i (omega arith) (ltb→lt _ c less)) above)
                (λ more.
                  xlat_loop-find rounds lo i (omega arith) (omega arith) below
                    (above-mid i (ground arith)))))

-- In a table that is sorted by the codes, with no code twice, `xlat_one_to` gives what the first
-- record with the code says, and `not_found` if there is none.
pub xlat_one_to-find :
    (to_xlat : ℕ) (tables : Tables) (not_found : ℕ)
    → IsSorted tables.to_table
    → xlat_one_to to_xlat tables not_found ≡ find to_xlat tables.to_table not_found
unfolding xlat_one_to
xlat_one_to-find to_xlat tables not_found sorted =
    let table = tables.to_table in
    xlat_loop-find to_xlat table not_found sorted (length table + 1) 0 (length table) (omega arith)
      (omega arith) (λ i hi. absurd (omega arith)) (λ i hi hj. absurd (omega arith))
