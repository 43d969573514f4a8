-- ===== src/Base64/Groups.antt =====
-- The arithmetic of one group of src/main/pa_base64.C: six-bit digits and their letters.
use parser.Prelude.{
  ℕ, ◌+◌, ◌*◌, ◌/◌, ◌%◌, ◌^◌, ◌<◌, ◌≡◌, refl, ◌∙◌, bit_and, bit_or, true, Option, none, some, List,
  [], ◌∷◌, arith, ◌==◌, ==_iff,
}
use parser.Prelude.Bits.{all_below, all_below_sound, bit_and_3, bit_and_15, bit_or_64}
use parser.Prelude.Result.{prepend, prepend-nil}
use parser.Base64.{
  Alphabet, standard, url_safe, Base64Options, letter, rank, Decoder, takes_one, on_digit, step,
  decode_loop,
}

-- A six-bit number, from its two parts.
join_table : all_below 64 (λ n. bit_or (n % 16) (n / 16 * 16) == n) ≡ true
unfolding all_below
join_table = refl

pub join_16 : (x y : ℕ) → x < 16 → y < 4 → bit_or x (y * 16) ≡ x + y * 16
join_16 x y hx hy =
    let n = x + y * 16 in
    let low : n % 16 ≡ x = omega arith in
    let high : n / 16 ≡ y = omega arith in
    let e = (==_iff _ _).0 (all_below_sound 64 _ n join_table (omega arith)) in rw (low, high) at e

split_table : all_below 64 (λ n. bit_or (n / 4 * 4) (n % 4) == n) ≡ true
unfolding all_below
split_table = refl

pub join_4 : (x y : ℕ) → x < 16 → y < 4 → bit_or (x * 4) y ≡ x * 4 + y
join_4 x y hx hy =
    let n = x * 4 + y in
    let low : n % 4 ≡ y = omega arith in
    let high : n / 4 ≡ x = omega arith in
    let e = (==_iff _ _).0 (all_below_sound 64 _ n split_table (omega arith)) in rw (low, high) at e

-- The second and the third digit of a group.
pub digit_2 : (c1 c2 : ℕ) → c2 < 256 → bit_or (c2 / 16) (bit_and c1 3 * 16) ≡ c2 / 16 + c1 % 4 * 16
digit_2 c1 c2 h = rw bit_and_3 (join_16 (c2 / 16) (c1 % 4) (omega arith) (omega arith))

pub digit_3 : (c2 c3 : ℕ) → c3 < 256 → bit_or (bit_and c2 15 * 4) (c3 / 64) ≡ c2 % 16 * 4 + c3 / 64
digit_3 c2 c3 h = rw bit_and_15 (join_4 (c2 % 16) (c3 / 64) (omega arith) (omega arith))

rank_table_standard : all_below 64 (λ i. rank standard (letter standard i) == i) ≡ true
unfolding all_below rank letter
rank_table_standard = refl

rank_table_url_safe : all_below 64 (λ i. rank url_safe (letter url_safe i) == i) ≡ true
unfolding all_below rank letter
rank_table_url_safe = refl

pub rank-letter : (abc : Alphabet) (i : ℕ) → i < 64 → rank abc (letter abc i) ≡ i
rank-letter standard i h = (==_iff _ _).0 (all_below_sound 64 _ i rank_table_standard h)
rank-letter url_safe i h = (==_iff _ _).0 (all_below_sound 64 _ i rank_table_url_safe h)

abbrev pub byte : ℕ → ℕ
byte n = n % 256

-- `saved` after one more digit.
abbrev pub push : ℕ → ℕ → ℕ
push saved i = saved * 64 % 2 ^ 32 + i

push_lem : (saved i : ℕ) → i < 64 → bit_or (saved * 64 % 2 ^ 32) i ≡ push saved i
push_lem saved i h =
    let e : saved * 64 % 2 ^ 32 ≡ saved % 2 ^ 26 * 64 = omega arith in
    rw e (bit_or_64 (saved % 2 ^ 26) i h)

abbrev pub decoder : ℕ → ℕ → Decoder
decoder s k = record { saved = s; state = k }

step-letter :
    (o : Base64Options) (pos : ℕ) (d : Decoder) (i : ℕ) (next : Option ℕ)
    → i < 64
    → step o pos d (letter o.abc i) next ≡ on_digit d i
unfolding step
step-letter o pos d i next h = rw (rank-letter o.abc i h) (ground arith)

on_digit_open :
    (s k i : ℕ)
    → i < 64
    → k < 3
    → on_digit (decoder s k) i ≡ takes_one [] (decoder (push s i) (k + 1))
unfolding on_digit
on_digit_open s k i h hk = rw (push_lem s i h) (ground arith)

on_digit_last :
    (s i : ℕ)
    → i < 64
    → on_digit (decoder s 3) i
      ≡ takes_one
          (byte (push s i / 65536) ∷ byte (push s i / 256) ∷ byte (push s i) ∷ [])
          (decoder (push s i) 0)
unfolding on_digit
on_digit_last s i h = rw (push_lem s i h)

-- A byte on which the step does not look ahead.
pub decode_loop-takes_one :
    (o : Base64Options) (pos : ℕ) (d d' : Decoder) (x : ℕ) (rest out : List ℕ)
    → ((next : Option ℕ) → step o pos d x next ≡ takes_one out d')
    → decode_loop o pos d (x ∷ rest) ≡ prepend out (decode_loop o (pos + 1) d' rest)
unfolding decode_loop
decode_loop-takes_one o pos d d' x [] out h = rw (h none, decode_loop)
decode_loop-takes_one o pos d d' x (y ∷ rest) out h = rw (h (some y), decode_loop)

-- A digit that does not end a group is kept.
pub decode_loop-letter :
    (o : Base64Options) (pos s k i : ℕ) (rest : List ℕ)
    → i < 64
    → k < 3
    → decode_loop o pos (decoder s k) (letter o.abc i ∷ rest)
      ≡ decode_loop o (pos + 1) (decoder (push s i) (k + 1)) rest
decode_loop-letter o pos s k i rest h hk =
    decode_loop-takes_one o pos (decoder s k) (decoder (push s i) (k + 1)) _ rest []
      (λ next. step-letter o pos (decoder s k) i next h ∙ on_digit_open s k i h hk)
    ∙ prepend-nil _

-- The fourth digit writes the three bytes of the group.
pub decode_loop-letter_last :
    (o : Base64Options) (pos s i : ℕ) (rest : List ℕ)
    → i < 64
    → decode_loop o pos (decoder s 3) (letter o.abc i ∷ rest)
      ≡ prepend
          (byte (push s i / 65536) ∷ byte (push s i / 256) ∷ byte (push s i) ∷ [])
          (decode_loop o (pos + 1) (decoder (push s i) 0) rest)
decode_loop-letter_last o pos s i rest h =
    decode_loop-takes_one o pos (decoder s 3) (decoder (push s i) 0) _ rest _
      (λ next. step-letter o pos (decoder s 3) i next h ∙ on_digit_last s i h)
