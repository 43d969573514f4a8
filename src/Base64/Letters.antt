-- ===== src/Base64/Letters.antt =====
-- The bytes that the two rank tables of src/main/pa_base64.C let through, against the letters of RFC 4648.
use parser.Prelude.{
  ℕ, zero, suc, ◌≤◌, ◌<◌, ◌≡◌, ◌≢◌, refl, ◌⊎◌, inl, inr, Bool, true, ◌&&◌, ◌||◌, List, [], ◌∷◌,
  arith, leb, ◌==◌, get_or, length,
}
use parser.Prelude.Bits.{all_below, all_below_sound}
use parser.Base64.{
  Alphabet, standard, url_safe, gmime_base64_rank, gmime_base64_rank_url_safe, rank, rank_other,
}

is_letter_or_digit : ℕ → Bool
is_letter_or_digit c =
    (leb b'A' c && leb c b'Z') || (leb b'a' c && leb c b'z') || (leb b'0' c && leb c b'9')

is_space : ℕ → Bool
is_space c = c == b' ' || (c == 9 || (c == 10 || c == 13))

-- The two letters in which the alphabets differ.
is_sign : Alphabet → ℕ → Bool
is_sign standard c = c == b'+' || c == b'/'
is_sign url_safe c = c == b'-' || c == b'_'

-- A letter of the alphabet, padding or white space.
unfoldable pub is_letter : Alphabet → ℕ → Bool
unfolding is_letter_or_digit is_space is_sign
is_letter abc c = is_letter_or_digit c || (is_sign abc c || (c == b'=' || is_space c))

letter_table_standard : all_below 256 (λ c. rank standard c == 255 || is_letter standard c) ≡ true
unfolding all_below rank is_letter
letter_table_standard = refl

letter_table_url_safe : all_below 256 (λ c. rank url_safe c == 255 || is_letter url_safe c) ≡ true
unfolding all_below rank is_letter
letter_table_url_safe = refl

get_or-beyond : (xs : List ℕ) (i d : ℕ) → length xs ≤ i → get_or xs i d ≡ d
get_or-beyond [] i d h = refl
get_or-beyond (x ∷ xs) zero d h = absurd (omega arith)
get_or-beyond (x ∷ xs) (suc i) d h = get_or-beyond xs i d (omega arith)

rank-beyond : (abc : Alphabet) (c : ℕ) → 256 ≤ c → rank abc c ≡ 255
unfolding rank
rank-beyond standard c h = get_or-beyond gmime_base64_rank c 255 h
rank-beyond url_safe c h = get_or-beyond gmime_base64_rank_url_safe c 255 h

byte-is_letter :
    (abc : Alphabet) (c : ℕ) → c < 256 → rank abc c ≢ rank_other → is_letter abc c ≡ true
byte-is_letter standard c byte h =
    let t = all_below_sound 256 _ c letter_table_standard byte in ground arith
byte-is_letter url_safe c byte h =
    let t = all_below_sound 256 _ c letter_table_url_safe byte in ground arith

byte_or_beyond : (c : ℕ) → (c < 256) ⊎ (256 ≤ c)
byte_or_beyond c = omega arith

-- What the decoder does not take for another byte is a letter.
pub rank-is_letter : (abc : Alphabet) (c : ℕ) → rank abc c ≢ rank_other → is_letter abc c ≡ true
rank-is_letter abc c h = elim (byte_or_beyond c) [
  | inl byte ↦ byte-is_letter abc c byte h
  | inr beyond ↦ absurd (h (rank-beyond abc c beyond))
]
