-- ===== src/Date/SqlNumbers.antt =====
-- The numbers of two and four digits in the text of a date, as `number_of` of Date/Parse reads them.
use parser.Prelude.{ℕ, ◌+◌, ◌/◌, ◌%◌, ◌<◌, ◌≤◌, ◌≡◌, ap, true, some, List, [], ◌∷◌, All, arith}
use parser.Prelude.Int.{pos}
use parser.Prelude.Result.{ok}
use parser.Number.{digit_of, int_max}
use parser.Number.Value.{IsDigit, value}
use parser.Number.RoundTrip.{pa_atoi-digits}
use parser.Date.Parse.{is_digit, number_of}

abbrev pub two : ℕ → List ℕ
two n = (n / 10 % 10 + 48) ∷ (n % 10 + 48) ∷ []

abbrev pub four : ℕ → List ℕ
four n = (n / 10 / 10 / 10 % 10 + 48) ∷ (n / 10 / 10 % 10 + 48) ∷ two n

-- The last digit of a number.
last_is_digit : (n : ℕ) → is_digit (n % 10 + 48) ≡ true
last_is_digit n = ground arith

last_value : (d : ℕ) → d < 10 → digit_of (d + 48) ≡ some d
unfolding digit_of
last_value d h = ground arith

last-IsDigit : (n : ℕ) → IsDigit 10 (n % 10 + 48)
last-IsDigit n = (n % 10, last_value (n % 10) (omega arith), omega arith)

pub two_digits : (n : ℕ) → All (λ x. is_digit x ≡ true) (two n)
two_digits n = (last_is_digit (n / 10), (last_is_digit n, tt))

pub four_digits : (n : ℕ) → All (λ x. is_digit x ≡ true) (four n)
four_digits n = (last_is_digit (n / 10 / 10 / 10), (last_is_digit (n / 10 / 10), two_digits n))

two_value : (n : ℕ) → n < 100 → value 10 0 (two n) ≡ n
unfolding value
two_value n h =
    rw (last_value (n / 10 % 10) (omega arith), last_value (n % 10) (omega arith)) (omega arith)

four_value : (n : ℕ) → n < 10000 → value 10 0 (four n) ≡ n
unfolding value
four_value n h =
    rw
      (
        last_value (n / 10 / 10 / 10 % 10) (omega arith),
        last_value (n / 10 / 10 % 10) (omega arith),
        last_value (n / 10 % 10) (omega arith),
        last_value (n % 10) (omega arith),
      )
      (omega arith)

number_of-digits :
    (d : ℕ) (ds : List ℕ) (n : ℕ)
    → All (IsDigit 10) (d ∷ ds)
    → value 10 0 (d ∷ ds) ≡ n
    → n ≤ int_max
    → number_of (some (d ∷ ds)) ≡ ok (pos n)
unfolding number_of
number_of-digits d ds n all e low =
    rw (number_of, pa_atoi-digits (d ∷ ds) all (omega arith) (omega arith)) (ap (λ v. ok (pos v)) e)

pub number_of-two : (n : ℕ) → n < 100 → number_of (some (two n)) ≡ ok (pos n)
number_of-two n h =
    number_of-digits _ _ n (last-IsDigit (n / 10), (last-IsDigit n, tt)) (two_value n h)
      (omega arith)

pub number_of-four : (n : ℕ) → n < 10000 → number_of (some (four n)) ≡ ok (pos n)
number_of-four n h =
    number_of-digits _ _ n
      (
        last-IsDigit (n / 10 / 10 / 10),
        (last-IsDigit (n / 10 / 10), (last-IsDigit (n / 10), (last-IsDigit n, tt))),
      )
      (four_value n h) (omega arith)
