-- ===== src/Date/SqlText.antt =====
-- The text that `get_sql_string` of src/types/pa_vdate.C prints, read by `cstr_to_time_t` of src/classes/date.C.
use parser.Prelude.{
  ℕ, zero, suc, ◌+◌, ◌-◌, ◌/◌, ◌%◌, ◌^◌, ◌<◌, ◌≤◌, ◌≡◌, refl, ap, Bool, true, false, none, some,
  List, [], ◌∷◌, ◌++◌, ◌==◌, if◌then◌else◌, length, length-append, take-append, All, arith,
}
use parser.Prelude.Int.{pos}
use parser.Prelude.Result.{ok}
use parser.Number.{is_space, skip_spaces}
use parser.Date.Parse.{
  is_digit, skip_sign, skip_digits, has_delim, end_number, digits_of_number, skip_number,
}
use parser.Date.Object.{print_int, digit_count, at_least, pad_digits}

digit_count_le : (rounds k n : ℕ) → n < 10 ^ suc k → digit_count rounds n ≤ suc k
digit_count_le zero k n h = omega arith
digit_count_le (suc rounds) zero n h = ground arith
digit_count_le (suc rounds) (suc k) n h =
    let rest = digit_count_le rounds k (n / 10) (omega arith) in ground arith

wide_enough : (width count : ℕ) → count ≤ width → at_least width count ≡ width
wide_enough width count h = ground arith

-- Two and four digits.
pub print_two : (n : ℕ) → n < 100 → print_int 2 (pos n) ≡ (n / 10 % 10 + 48) ∷ (n % 10 + 48) ∷ []
unfolding print_int
print_two n h = ap (λ k. pad_digits k n []) (wide_enough 2 _ (digit_count_le 9 1 n h))

pub print_four :
    (n : ℕ)
    → n < 10000
    → print_int 4 (pos n)
      ≡ (n / 10 / 10 / 10 % 10 + 48)
        ∷ (n / 10 / 10 % 10 + 48)
        ∷ (n / 10 % 10 + 48)
        ∷ (n % 10 + 48)
        ∷ []
unfolding print_int
print_four n h = ap (λ k. pad_digits k n []) (wide_enough 4 _ (digit_count_le 9 3 n h))

-- A text that begins with digits.
skip_digits-append :
    (ds : List ℕ) (c : ℕ) (rest : List ℕ)
    → All (λ d. is_digit d ≡ true) ds
    → is_digit c ≡ false
    → skip_digits (ds ++ (c ∷ rest)) ≡ c ∷ rest
unfolding skip_digits
skip_digits-append [] c rest all h = rw h
skip_digits-append (d ∷ ds) c rest (e, all) h = rw e (skip_digits-append ds c rest all h)

skip_digits_all : (ds : List ℕ) → All (λ d. is_digit d ≡ true) ds → skip_digits ds ≡ []
unfolding skip_digits
skip_digits_all [] all = refl
skip_digits_all (d ∷ ds) (e, all) = rw e (skip_digits_all ds all)

digit_first : (d : ℕ) (ds : List ℕ) → is_digit d ≡ true → skip_sign (skip_spaces (d ∷ ds)) ≡ d ∷ ds
unfolding skip_sign skip_spaces
digit_first d ds h =
    let space : is_space d ≡ false = ground arith in
    let minus : (d == b'-') ≡ false = ground arith in
    let plus : (d == b'+') ≡ false = ground arith in rw (space, minus, plus)

end_number-delim :
    (ds : List ℕ) (c : ℕ) (rest valid : List ℕ)
    → has_delim valid c ≡ true
    → end_number (ds ++ (c ∷ rest)) valid (c ∷ rest)
      ≡ ok (record { number = some ds; rest = some rest; delim = c })
unfolding end_number
end_number-delim ds c rest valid v =
    let front : length (ds ++ (c ∷ rest)) - suc (length rest) ≡ length ds =
      omega (arith, length-append ds (c ∷ rest)) in
    rw (v, front, take-append ds (c ∷ rest))

digits-delim :
    (d : ℕ) (ds : List ℕ) (c : ℕ) (rest valid : List ℕ)
    → All (λ x. is_digit x ≡ true) (d ∷ ds)
    → is_digit c ≡ false
    → has_delim valid c ≡ true
    → (if has_delim valid 32 then c ∷ rest else skip_spaces (c ∷ rest)) ≡ c ∷ rest
    → digits_of_number (d ∷ ds ++ (c ∷ rest)) valid (d ∷ ds ++ (c ∷ rest))
      ≡ ok (record { number = some (d ∷ ds); rest = some rest; delim = c })
unfolding digits_of_number
digits-delim d ds c rest valid (e, all) h v stays =
    rw (e, skip_digits-append ds c rest all h, stays) (end_number-delim (d ∷ ds) c rest valid v)

pub skip_number-delim :
    (d : ℕ) (ds : List ℕ) (c : ℕ) (rest valid : List ℕ)
    → All (λ x. is_digit x ≡ true) (d ∷ ds)
    → is_digit c ≡ false
    → has_delim valid c ≡ true
    → (if has_delim valid 32 then c ∷ rest else skip_spaces (c ∷ rest)) ≡ c ∷ rest
    → skip_number (some (d ∷ ds ++ (c ∷ rest))) valid
      ≡ ok (record { number = some (d ∷ ds); rest = some rest; delim = c })
unfolding skip_number
skip_number-delim d ds c rest valid (e, all) h v stays =
    rw (digit_first d (ds ++ (c ∷ rest)) e) (digits-delim d ds c rest valid (e, all) h v stays)

nothing_left : (b : Bool) → (if b then [] else skip_spaces []) ≡ []
unfolding skip_spaces
nothing_left true = refl
nothing_left false = refl

digits_last :
    (d : ℕ) (ds valid : List ℕ)
    → All (λ x. is_digit x ≡ true) (d ∷ ds)
    → digits_of_number (d ∷ ds) valid (d ∷ ds)
      ≡ ok (record { number = some (d ∷ ds); rest = none; delim = 0 })
unfolding digits_of_number end_number
digits_last d ds valid (e, all) = rw (e, skip_digits_all ds all, nothing_left (has_delim valid 32))

pub skip_number_last :
    (d : ℕ) (ds valid : List ℕ)
    → All (λ x. is_digit x ≡ true) (d ∷ ds)
    → skip_number (some (d ∷ ds)) valid
      ≡ ok (record { number = some (d ∷ ds); rest = none; delim = 0 })
unfolding skip_number
skip_number_last d ds valid (e, all) = rw (digit_first d ds e) (digits_last d ds valid (e, all))
