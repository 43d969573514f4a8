-- ===== src/Base64.antt =====
-- src/main/pa_base64.C: the Base64 encoder and decoder. Buffers are lists of bytes; what the source
-- writes through `outptr` is the list that a loop returns, and the returned size is its length.
pub mod Groups
pub mod RoundTrip
pub mod Bounds
pub mod Letters
pub mod Strict
use parser.Prelude.{
  ℕ, zero, suc, ◌+◌, ◌*◌, ◌/◌, ◌%◌, ◌^◌, bit_and, bit_or, Bool, true, false, ◌&&◌, not, Option,
  none, some, List, [], ◌∷◌, ◌++◌, ltb, leb, ◌==◌, if◌then◌else◌, codes, get_or, length, take,
}
use parser.Prelude.Result.{Result, ok, err, prepend}

-- The two tables that `abc` may point to.
pub data Alphabet : Type 0 where
  standard url_safe : Alphabet

pub record Base64Options : Type 0 where
  pub strict : Bool
  pub wrap : Bool
  pub pad : Bool
  pub abc : Alphabet

unfoldable pub default_options : Bool → Base64Options
default_options awrap = record { strict = false; wrap = awrap; pad = true; abc = standard }

unfoldable pub set_url_safe_abc : Base64Options → Base64Options
set_url_safe_abc o = record o { abc = url_safe }

abbrev base64_alphabet : List ℕ
base64_alphabet = codes "ABCDEFGHIJKLMNOPQRSTUVWXYZabcdefghijklmnopqrstuvwxyz0123456789+/"

abbrev base64_alphabet_url_safe : List ℕ
base64_alphabet_url_safe = codes "ABCDEFGHIJKLMNOPQRSTUVWXYZabcdefghijklmnopqrstuvwxyz0123456789-_"

-- `abc[i]`; the index is below 64 wherever the source reads the table.
pub letter : Alphabet → ℕ → ℕ
letter standard i = get_or base64_alphabet i 0
letter url_safe i = get_or base64_alphabet_url_safe i 0

abbrev pub base64_groups_in_line : ℕ
base64_groups_in_line = 19

abbrev pub newline : ℕ
newline = b'\n'

-- The four bytes for a group of three.
group3 : Alphabet → ℕ → ℕ → ℕ → List ℕ
group3 abc c1 c2 c3 =
    letter abc (c1 / 4)
    ∷ letter abc (bit_or (c2 / 16) (bit_and c1 0x3 * 16))
    ∷ letter abc (bit_or (bit_and c2 0x0f * 4) (c3 / 64))
    ∷ letter abc (bit_and c3 0x3f)
    ∷ []

-- What is written for the last two bytes.
tail2 : Base64Options → ℕ → ℕ → List ℕ
tail2 o c1 c2 =
    letter o.abc (c1 / 4)
    ∷ letter o.abc (bit_or (c2 / 16) (bit_and c1 0x3 * 16))
    ∷ letter o.abc (bit_and c2 0x0f * 4)
    ∷ (if o.pad then b'=' ∷ [] else [])

-- What is written for the last byte.
tail1 : Base64Options → ℕ → List ℕ
tail1 o c1 =
    letter o.abc (c1 / 4)
    ∷ letter o.abc (bit_and c1 0x3 * 16)
    ∷ (if o.pad then b'=' ∷ b'=' ∷ [] else [])

-- `++already >= BASE64_GROUPS_IN_LINE && options.wrap`
line_full : Base64Options → ℕ → Bool
line_full o already = leb base64_groups_in_line (already + 1) && o.wrap

-- The loop over groups of three bytes, and the tail behind it. `already` counts the groups of the line.
pub encode_loop : Base64Options → ℕ → List ℕ → List ℕ
encode_loop o already (c1 ∷ c2 ∷ c3 ∷ rest) =
    group3 o.abc c1 c2 c3
    ++ ((if line_full o already then newline ∷ [] else [])
        ++ encode_loop o (if line_full o already then 0 else already + 1) rest)
encode_loop o already (c1 ∷ c2 ∷ []) = tail2 o c1 c2
encode_loop o already (c1 ∷ []) = tail1 o c1
encode_loop o already [] = []

unfoldable pub encode : List ℕ → Base64Options → List ℕ
unfolding encode_loop letter group3 tail2 tail1 line_full
encode input o = encode_loop o 0 input

-- The bytes that the caller of the encoder allocates, without the one for the final zero.
unfoldable pub encode_size : ℕ → Base64Options → ℕ
encode_size in_size o =
    let new_size = (in_size / 3 + 1) * 4 in
    if o.wrap then new_size + new_size / (base64_groups_in_line * 4) else new_size

-- The classes of the rank tables above the 64 digits.
abbrev pub rank_pad : ℕ
rank_pad = 253

abbrev pub rank_space : ℕ
rank_space = 254

abbrev pub rank_other : ℕ
rank_other = 255

-- The rank of each byte under the standard alphabet.
abbrev pub gmime_base64_rank : List ℕ
gmime_base64_rank =
    255 ∷ 255 ∷ 255 ∷ 255 ∷ 255 ∷ 255 ∷ 255 ∷ 255 ∷ 255 ∷ 254 ∷ 254 ∷ 255 ∷ 255 ∷ 254 ∷ 255 ∷ 255
    ∷ 255 ∷ 255 ∷ 255 ∷ 255 ∷ 255 ∷ 255 ∷ 255 ∷ 255 ∷ 255 ∷ 255 ∷ 255 ∷ 255 ∷ 255 ∷ 255 ∷ 255 ∷ 255
    ∷ 254 ∷ 255 ∷ 255 ∷ 255 ∷ 255 ∷ 255 ∷ 255 ∷ 255 ∷ 255 ∷ 255 ∷ 255 ∷ 62 ∷ 255 ∷ 255 ∷ 255 ∷ 63
    ∷ 52 ∷ 53 ∷ 54 ∷ 55 ∷ 56 ∷ 57 ∷ 58 ∷ 59 ∷ 60 ∷ 61 ∷ 255 ∷ 255 ∷ 255 ∷ 253 ∷ 255 ∷ 255 ∷ 255 ∷ 0
    ∷ 1 ∷ 2 ∷ 3 ∷ 4 ∷ 5 ∷ 6 ∷ 7 ∷ 8 ∷ 9 ∷ 10 ∷ 11 ∷ 12 ∷ 13 ∷ 14 ∷ 15 ∷ 16 ∷ 17 ∷ 18 ∷ 19 ∷ 20 ∷ 21
    ∷ 22 ∷ 23 ∷ 24 ∷ 25 ∷ 255 ∷ 255 ∷ 255 ∷ 255 ∷ 255 ∷ 255 ∷ 26 ∷ 27 ∷ 28 ∷ 29 ∷ 30 ∷ 31 ∷ 32 ∷ 33
    ∷ 34 ∷ 35 ∷ 36 ∷ 37 ∷ 38 ∷ 39 ∷ 40 ∷ 41 ∷ 42 ∷ 43 ∷ 44 ∷ 45 ∷ 46 ∷ 47 ∷ 48 ∷ 49 ∷ 50 ∷ 51 ∷ 255
    ∷ 255 ∷ 255 ∷ 255 ∷ 255 ∷ 255 ∷ 255 ∷ 255 ∷ 255 ∷ 255 ∷ 255 ∷ 255 ∷ 255 ∷ 255 ∷ 255 ∷ 255 ∷ 255
    ∷ 255 ∷ 255 ∷ 255 ∷ 255 ∷ 255 ∷ 255 ∷ 255 ∷ 255 ∷ 255 ∷ 255 ∷ 255 ∷ 255 ∷ 255 ∷ 255 ∷ 255 ∷ 255
    ∷ 255 ∷ 255 ∷ 255 ∷ 255 ∷ 255 ∷ 255 ∷ 255 ∷ 255 ∷ 255 ∷ 255 ∷ 255 ∷ 255 ∷ 255 ∷ 255 ∷ 255 ∷ 255
    ∷ 255 ∷ 255 ∷ 255 ∷ 255 ∷ 255 ∷ 255 ∷ 255 ∷ 255 ∷ 255 ∷ 255 ∷ 255 ∷ 255 ∷ 255 ∷ 255 ∷ 255 ∷ 255
    ∷ 255 ∷ 255 ∷ 255 ∷ 255 ∷ 255 ∷ 255 ∷ 255 ∷ 255 ∷ 255 ∷ 255 ∷ 255 ∷ 255 ∷ 255 ∷ 255 ∷ 255 ∷ 255
    ∷ 255 ∷ 255 ∷ 255 ∷ 255 ∷ 255 ∷ 255 ∷ 255 ∷ 255 ∷ 255 ∷ 255 ∷ 255 ∷ 255 ∷ 255 ∷ 255 ∷ 255 ∷ 255
    ∷ 255 ∷ 255 ∷ 255 ∷ 255 ∷ 255 ∷ 255 ∷ 255 ∷ 255 ∷ 255 ∷ 255 ∷ 255 ∷ 255 ∷ 255 ∷ 255 ∷ 255 ∷ 255
    ∷ 255 ∷ 255 ∷ 255 ∷ 255 ∷ 255 ∷ 255 ∷ 255 ∷ 255 ∷ 255 ∷ 255 ∷ 255 ∷ 255 ∷ 255 ∷ 255 ∷ 255 ∷ 255
    ∷ 255 ∷ 255 ∷ 255 ∷ 255 ∷ []

-- The rank of each byte under the alphabet for addresses.
abbrev pub gmime_base64_rank_url_safe : List ℕ
gmime_base64_rank_url_safe =
    255 ∷ 255 ∷ 255 ∷ 255 ∷ 255 ∷ 255 ∷ 255 ∷ 255 ∷ 255 ∷ 254 ∷ 254 ∷ 255 ∷ 255 ∷ 254 ∷ 255 ∷ 255
    ∷ 255 ∷ 255 ∷ 255 ∷ 255 ∷ 255 ∷ 255 ∷ 255 ∷ 255 ∷ 255 ∷ 255 ∷ 255 ∷ 255 ∷ 255 ∷ 255 ∷ 255 ∷ 255
    ∷ 254 ∷ 255 ∷ 255 ∷ 255 ∷ 255 ∷ 255 ∷ 255 ∷ 255 ∷ 255 ∷ 255 ∷ 255 ∷ 255 ∷ 255 ∷ 62 ∷ 255 ∷ 255
    ∷ 52 ∷ 53 ∷ 54 ∷ 55 ∷ 56 ∷ 57 ∷ 58 ∷ 59 ∷ 60 ∷ 61 ∷ 255 ∷ 255 ∷ 255 ∷ 253 ∷ 255 ∷ 255 ∷ 255 ∷ 0
    ∷ 1 ∷ 2 ∷ 3 ∷ 4 ∷ 5 ∷ 6 ∷ 7 ∷ 8 ∷ 9 ∷ 10 ∷ 11 ∷ 12 ∷ 13 ∷ 14 ∷ 15 ∷ 16 ∷ 17 ∷ 18 ∷ 19 ∷ 20 ∷ 21
    ∷ 22 ∷ 23 ∷ 24 ∷ 25 ∷ 255 ∷ 255 ∷ 255 ∷ 255 ∷ 63 ∷ 255 ∷ 26 ∷ 27 ∷ 28 ∷ 29 ∷ 30 ∷ 31 ∷ 32 ∷ 33
    ∷ 34 ∷ 35 ∷ 36 ∷ 37 ∷ 38 ∷ 39 ∷ 40 ∷ 41 ∷ 42 ∷ 43 ∷ 44 ∷ 45 ∷ 46 ∷ 47 ∷ 48 ∷ 49 ∷ 50 ∷ 51 ∷ 255
    ∷ 255 ∷ 255 ∷ 255 ∷ 255 ∷ 255 ∷ 255 ∷ 255 ∷ 255 ∷ 255 ∷ 255 ∷ 255 ∷ 255 ∷ 255 ∷ 255 ∷ 255 ∷ 255
    ∷ 255 ∷ 255 ∷ 255 ∷ 255 ∷ 255 ∷ 255 ∷ 255 ∷ 255 ∷ 255 ∷ 255 ∷ 255 ∷ 255 ∷ 255 ∷ 255 ∷ 255 ∷ 255
    ∷ 255 ∷ 255 ∷ 255 ∷ 255 ∷ 255 ∷ 255 ∷ 255 ∷ 255 ∷ 255 ∷ 255 ∷ 255 ∷ 255 ∷ 255 ∷ 255 ∷ 255 ∷ 255
    ∷ 255 ∷ 255 ∷ 255 ∷ 255 ∷ 255 ∷ 255 ∷ 255 ∷ 255 ∷ 255 ∷ 255 ∷ 255 ∷ 255 ∷ 255 ∷ 255 ∷ 255 ∷ 255
    ∷ 255 ∷ 255 ∷ 255 ∷ 255 ∷ 255 ∷ 255 ∷ 255 ∷ 255 ∷ 255 ∷ 255 ∷ 255 ∷ 255 ∷ 255 ∷ 255 ∷ 255 ∷ 255
    ∷ 255 ∷ 255 ∷ 255 ∷ 255 ∷ 255 ∷ 255 ∷ 255 ∷ 255 ∷ 255 ∷ 255 ∷ 255 ∷ 255 ∷ 255 ∷ 255 ∷ 255 ∷ 255
    ∷ 255 ∷ 255 ∷ 255 ∷ 255 ∷ 255 ∷ 255 ∷ 255 ∷ 255 ∷ 255 ∷ 255 ∷ 255 ∷ 255 ∷ 255 ∷ 255 ∷ 255 ∷ 255
    ∷ 255 ∷ 255 ∷ 255 ∷ 255 ∷ 255 ∷ 255 ∷ 255 ∷ 255 ∷ 255 ∷ 255 ∷ 255 ∷ 255 ∷ 255 ∷ 255 ∷ 255 ∷ 255
    ∷ 255 ∷ 255 ∷ 255 ∷ 255 ∷ []

pub rank : Alphabet → ℕ → ℕ
rank standard c = get_or gmime_base64_rank c 255
rank url_safe c = get_or gmime_base64_rank_url_safe c 255

pub data DecodeError : Type 0 where
  invalid_char : ℕ → DecodeError
  unexpected_pad : ℕ → DecodeError
  unexpected_end : DecodeError

-- `saved` is the bit pattern of an `int`, `state` counts the digits read of a group.
pub record Decoder : Type 0 where
  pub saved : ℕ
  pub state : ℕ

-- The verdict on one byte: what is written and the new state, with or without a second byte taken.
pub data Verdict : Type 0 where
  throws : DecodeError → Verdict
  takes_one : List ℕ → Decoder → Verdict
  takes_two : List ℕ → Decoder → Verdict

-- In strict mode throws, else skips the byte.
refuse : Base64Options → DecodeError → Decoder → Verdict
refuse o e d = if o.strict then throws e else takes_one [] d

abbrev pub byte : ℕ → ℕ
byte n = n % 256

-- The first `=` of two; `next` is `*inptr`, or `none` at the end of the buffer.
on_first_pad : Base64Options → ℕ → Decoder → Option ℕ → Verdict
on_first_pad o pos d none = refuse o unexpected_end d
on_first_pad o pos d (some c) =
    if c == b'='
    then takes_two (byte (d.saved / 16) ∷ []) (record d { state = 0 })
    else refuse o (unexpected_pad pos) d

-- `case 253`
pub on_pad : Base64Options → ℕ → Decoder → Option ℕ → Verdict
on_pad o pos d next =
    if ltb d.state 2
    then refuse o (unexpected_pad pos) d
    else if d.state == 2
    then on_first_pad o pos d next
    else takes_one (byte (d.saved / 1024) ∷ byte (d.saved / 4) ∷ []) (record d { state = 0 })

-- `default`: a digit. The shift is one of a 32-bit `int`.
pub on_digit : Decoder → ℕ → Verdict
on_digit d c =
    let saved = bit_or (d.saved * 64 % 2 ^ 32) c in
    if d.state + 1 == 4
    then takes_one (byte (saved / 65536) ∷ byte (saved / 256) ∷ byte saved ∷ [])
        (record { saved = saved; state = 0 })
    else takes_one [] (record { saved = saved; state = d.state + 1 })

-- The `switch` of the loop; `pos` is the position of the byte.
pub step : Base64Options → ℕ → Decoder → ℕ → Option ℕ → Verdict
step o pos d ch next =
    let c = rank o.abc ch in
    if c == rank_other
    then refuse o (invalid_char pos) d
    else if c == rank_space
    then takes_one [] d
    else if c == rank_pad
    then on_pad o pos d next
    else on_digit d c

-- Behind the loop: the bytes of an unfinished group.
pub finish : Base64Options → Decoder → Result DecodeError (List ℕ)
finish o d =
    if ltb 0 d.state
    then if ltb 1 d.state
      then if o.pad && o.strict
        then err unexpected_end
        else if d.state == 2
        then ok (byte (d.saved / 16) ∷ [])
        else ok (byte (d.saved / 1024) ∷ byte (d.saved / 4) ∷ [])
      else (if o.strict then err unexpected_end else ok [])
    else ok []

-- What a verdict does: `one` and `two` go on behind the bytes that were taken.
abbrev pub deliver :
    Verdict
    → (Decoder → Result DecodeError (List ℕ))
    → (Decoder → Result DecodeError (List ℕ))
    → Result DecodeError (List ℕ)
deliver (throws e) one two = err e
deliver (takes_one out d) one two = prepend out (one d)
deliver (takes_two out d) one two = prepend out (two d)

pub decode_loop : Base64Options → ℕ → Decoder → List ℕ → Result DecodeError (List ℕ)
decode_loop o pos d [] = finish o d
decode_loop o pos d (x ∷ []) =
    deliver (step o pos d x none) (λ d'. decode_loop o (pos + 1) d' [])
      (λ d'. decode_loop o (pos + 1) d' [])
decode_loop o pos d (x ∷ y ∷ rest) =
    deliver (step o pos d x (some y)) (λ d'. decode_loop o (pos + 1) d' (y ∷ rest))
      (λ d'. decode_loop o (pos + 2) d' rest)

unfoldable pub decode : List ℕ → Base64Options → Result DecodeError (List ℕ)
unfolding decode_loop step finish on_pad on_first_pad on_digit rank refuse
decode input o = decode_loop o 0 (record { saved = 0; state = 0 }) input

-- The bytes that the caller of the decoder allocates, without the one for the final zero.
unfoldable pub decode_size : ℕ → ℕ
decode_size in_size = (in_size + 3) / 4 * 3
