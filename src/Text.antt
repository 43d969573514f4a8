-- ===== src/Text.antt =====
-- The functions on texts of src/main/pa_common.C. A C string is the list of the bytes in front of
-- its zero, and a pointer that may be null is an `Option`.
pub mod Unescape
pub mod Crc
pub mod Split
pub mod Lines
use parser.Prelude.{
  ℕ, zero, suc, ◌+◌, ◌-◌, ◌/◌, ◌%◌, ◌^◌, bit_and, bit_xor, Bool, true, false, not, ◌&&◌, ◌||◌,
  Option, none, some, List, [], ◌∷◌, ◌++◌, map, ltb, leb, ◌==◌, if◌then◌else◌, length, get_or, drop,
  codes,
}
use parser.Charset.Escape.{strchr}

-- Of the library of C, in the locale "C".
abbrev pub toupper : ℕ → ℕ
toupper c = if leb b'a' c && leb c b'z' then c - 32 else c

abbrev pub tolower : ℕ → ℕ
tolower c = if leb b'A' c && leb c b'Z' then c + 32 else c

-- Whether the next letter is a capital.
unfoldable pub starts_word : ℕ → Bool
unfolding strchr
starts_word c = strchr (codes "-_ ") c

-- `char` has a sign, so that a byte from 128 on never equals what `toupper` returns.
unfoldable pub capitalized_loop : Bool → List ℕ → Bool
capitalized_loop upper [] = true
capitalized_loop upper (c ∷ cs) =
    let same = ltb c 128 && (c == (if upper then toupper c else tolower c)) in
    let rest = capitalized_loop (starts_word c) cs in if not same then false else rest

unfoldable pub capitalized : List ℕ → Bool
unfolding capitalized_loop
capitalized s = capitalized_loop true s

unfoldable pub capitalize_loop : Bool → List ℕ → List ℕ
capitalize_loop upper [] = []
capitalize_loop upper (c ∷ cs) =
    let letter = if upper then toupper c else tolower c in
    letter ∷ capitalize_loop (starts_word letter) cs

unfoldable pub capitalize : Option (List ℕ) → Option (List ℕ)
unfolding capitalized capitalize_loop
capitalize none = none
capitalize (some s) = if capitalized s then some s else some (capitalize_loop true s)

-- The loops end at a zero.
unfoldable pub str_lower : List ℕ → List ℕ
str_lower [] = []
str_lower (c ∷ cs) = let rest = str_lower cs in if c == 0 then c ∷ cs else tolower c ∷ rest

unfoldable pub str_upper : List ℕ → List ℕ
str_upper [] = []
str_upper (c ∷ cs) = let rest = str_upper cs in if c == 0 then c ∷ cs else toupper c ∷ rest

-- `memchr` and `strchr`: what is in front of the byte, and what is behind it.
unfoldable pub split_first : ℕ → List ℕ → Option (List ℕ × List ℕ)
split_first delim [] = none
split_first delim (c ∷ cs) =
    let rest : Option (List ℕ × List ℕ) = elim (split_first delim cs) [
      | none ↦ none
      | some (before, after) ↦ some (c ∷ before, after)
    ] in
    if c == delim then some ([], cs) else rest

-- Behind a '\r' a '\n' is left out, and the text is shorter by one.
unfoldable pub skip_newline : List ℕ → ℕ → List ℕ × ℕ
skip_newline [] length = ([], length)
skip_newline (c ∷ cs) length = if c == b'\n' then (cs, length - 1) else (c ∷ cs, length)

-- The loop over the lines: what it writes, and `length`. A round reads a '\r' at least.
unfoldable pub fix_loop : ℕ → List ℕ → ℕ → List ℕ × ℕ
fix_loop zero bol length = (bol, length)
fix_loop (suc rounds) bol length = elim (split_first b'\r' bol) [
  | none ↦ (bol, length)
  | some (line, rest) ↦
      let next = skip_newline rest length in
      let fixed = fix_loop rounds next.0 next.1 in (line ++ (b'\n' ∷ fixed.0), fixed.1)
]

unfoldable pub fix_line_breaks : List ℕ → List ℕ × ℕ
unfolding fix_loop split_first skip_newline
fix_line_breaks str = fix_loop (length str) str (length str)

-- `getrow` with what it assigns to `row_ref`.
unfoldable pub getrow : Option (List ℕ) → ℕ → Option (List ℕ) × Option (List ℕ)
unfolding split_first
getrow none delim = (none, none)
getrow (some []) delim = (none, none)
getrow (some (c ∷ cs)) delim = elim (split_first delim (c ∷ cs)) [
  | none ↦ (some (c ∷ cs), none)
  | some (row, rest) ↦ (some row, some rest)
]

-- `strrchr`, and `strrpbrk` for a byte of `chars`: the two sides of the last one.
unfoldable pub split_last : (ℕ → Bool) → List ℕ → Option (List ℕ × List ℕ)
split_last test [] = none
split_last test (c ∷ cs) = elim (split_last test cs) [
  | some (before, after) ↦ some (c ∷ before, after)
  | none ↦ if test c then some ([], cs) else none
]

abbrev pub strrpbrk : List ℕ → List ℕ → Option (List ℕ × List ℕ)
strrpbrk string chars = split_last (strchr chars) string

-- The text that is left, and what is returned.
abbrev pub cut : List ℕ → Option (List ℕ × List ℕ) → List ℕ × Option (List ℕ)
cut string none = (string, none)
cut string (some (before, after)) = (before, some after)

unfoldable pub lsplit : List ℕ → ℕ → List ℕ × Option (List ℕ)
unfolding split_first
lsplit string delim = cut string (split_first delim string)

unfoldable pub rsplit : List ℕ → ℕ → List ℕ × Option (List ℕ)
unfolding split_last
rsplit string delim = cut string (split_last (λ c. c == delim) string)

unfoldable pub rsplit_any : List ℕ → List ℕ → List ℕ × Option (List ℕ)
unfolding split_last
rsplit_any string delims = cut string (strrpbrk string delims)

-- What `pa_strncpy` writes to `dst`.
unfoldable pub strncpy_loop : ℕ → List ℕ → List ℕ
strncpy_loop zero src = 0 ∷ []
strncpy_loop (suc left) [] = 0 ∷ []
strncpy_loop (suc left) (c ∷ cs) = c ∷ strncpy_loop left cs

unfoldable pub pa_strncpy : Option (List ℕ) → ℕ → List ℕ
unfolding strncpy_loop
pa_strncpy src zero = []
pa_strncpy none (suc left) = 0 ∷ []
pa_strncpy (some s) (suc left) = strncpy_loop left s

abbrev pub strcat_step : Option (List ℕ) → List ℕ → List ℕ
strcat_step none rest = rest
strcat_step (some s) rest = s ++ rest

unfoldable pub pa_strcat : Option (List ℕ) → Option (List ℕ) → Option (List ℕ) → List ℕ
pa_strcat a b c = strcat_step a (strcat_step b (strcat_step c []))

abbrev pub is_latin_byte : ℕ → Bool
is_latin_byte c = leb c 0x7F

unfoldable pub is_latin : List ℕ → Bool
is_latin [] = true
is_latin (c ∷ cs) = is_latin_byte c && is_latin cs

abbrev pub is_blank : ℕ → Bool
is_blank c = c == b' ' || c == b'\t'

unfoldable pub skip_blanks : List ℕ → List ℕ
skip_blanks [] = []
skip_blanks (c ∷ cs) = let rest = skip_blanks cs in if is_blank c then rest else c ∷ cs

unfoldable pub stop_at : List ℕ → ℕ → Option (List ℕ) × Option (List ℕ)
unfolding split_first
stop_at [] cstop_at = (none, none)
stop_at (c ∷ cs) cstop_at = elim (split_first cstop_at (c ∷ cs)) [
  | none ↦ (some (c ∷ cs), none)
  | some (result, rest) ↦ (some result, some rest)
]

-- `search_stop` with what it assigns to `current`.
unfoldable pub search_stop : Option (List ℕ) → ℕ → Option (List ℕ) × Option (List ℕ)
unfolding skip_blanks stop_at
search_stop none cstop_at = (none, none)
search_stop (some current) cstop_at = stop_at (skip_blanks current) cstop_at

unfoldable pub backslashes_to_slashes : List ℕ → List ℕ
backslashes_to_slashes path = map (λ c. if c == b'\\' then b'/' else c) path

-- Whether a text starts with another, which `strstr` looks for.
unfoldable pub has_prefix : List ℕ → List ℕ → Bool
has_prefix [] str = true
has_prefix (x ∷ xs) [] = false
has_prefix (x ∷ xs) (c ∷ cs) = (x == c) && has_prefix xs cs

unfoldable pub strpos : List ℕ → List ℕ → Option ℕ
unfolding has_prefix
strpos [] substr = if has_prefix substr [] then some 0 else none
strpos (c ∷ cs) substr =
    let rest : Option ℕ = elim (strpos cs substr) [ none ↦ none | some n ↦ some (n + 1) ] in
    if has_prefix substr (c ∷ cs) then some 0 else rest

abbrev pub is_break : ℕ → Bool
is_break c = c == b'\n' || c == b'\r' || c == b'\t' || c == b' '

-- What `remove_crlf` leaves between `start` and `to`.
unfoldable pub remove_loop : Bool → List ℕ → List ℕ
remove_loop skip [] = []
remove_loop skip (c ∷ cs) =
    let skipped = remove_loop true cs in
    let kept = remove_loop false cs in
    if is_break c then if not skip then b' ' ∷ skipped else skipped else c ∷ kept

unfoldable pub remove_crlf : List ℕ → List ℕ
unfolding remove_loop
remove_crlf text = remove_loop false text

unfoldable pub hex_string : List ℕ → Bool → List ℕ
hex_string [] upcase = []
hex_string (b ∷ bs) upcase =
    let hex = if upcase then codes "0123456789ABCDEF" else codes "0123456789abcdef" in
    get_or hex (b / 0x10) 0 ∷ get_or hex (b % 0x10) 0 ∷ hex_string bs upcase

-- `detect_charset`, for the charsets that `get_direct` of src/main/pa_charsets.C finds by a name.
-- The name ends at the quote that it starts with, at a ';' or at the end.
abbrev pub before : Option (List ℕ × List ℕ) → List ℕ → List ℕ
before none text = text
before (some (name, rest)) text = name

unfoldable pub charset_name : List ℕ → List ℕ
unfolding split_first
charset_name [] = []
charset_name (c ∷ cs) =
    let unquoted = before (split_first b';' (c ∷ cs)) (c ∷ cs) in
    let quoted : List ℕ = elim (split_first c cs) [
      | none ↦ before (split_first b';' cs) cs
      | some (name, rest) ↦ name
    ] in
    if c == b'"' || c == b'\'' then quoted else unquoted

-- What is behind the first place of a text in another.
unfoldable pub behind : List ℕ → List ℕ → Option (List ℕ)
unfolding strpos
behind substr str = elim (strpos str substr) [
  | none ↦ none
  | some n ↦ some (drop (n + length substr) str)
]

unfoldable pub detect_charset {ℓ} : {C : Type ℓ} → (List ℕ → C) → Option (List ℕ) → Option C
unfolding str_upper behind charset_name
detect_charset get_direct none = none
detect_charset get_direct (some content_type) =
    elim (behind (codes "CHARSET=") (str_upper content_type)) [
      | none ↦ none
      | some begin ↦ elim (charset_name begin) [ [] ↦ none | c ∷ cs ↦ some (get_direct (c ∷ cs)) ]
    ]
