-- ===== src/Charset/Escape/Lengths.antt =====
-- The lengths of what `escape` and `escape_JSON` of src/main/pa_charset.C write, against those
-- that are calculated for the buffer first.
use parser.Prelude.{
  ℕ, zero, suc, ◌+◌, ◌≡◌, ◌≢◌, refl, ◌∙◌, sym, Bool, true, false, not, ◌&&◌, ◌||◌, Option, none,
  some, List, [], ◌∷◌, ltb, ◌==◌, codes, if◌then◌else◌, length, length-append, All, All-map,
  All-every, if_cases, arith,
}
use parser.Prelude.Result.{Returns, ok}
use parser.Charset.Utf8.{Char, read_utf8_char}
use parser.Charset.Tables.{table_chars}
use parser.Charset.Escape.Replaced.{is_replaced, replaced_chars, replaced_in_table}
use parser.Charset.Escape.{
  Charset, utf8, single_byte, need_escape, need_json_escape, escape_char, escaped_size,
  escaped_size_utf8, append_hex_16, escape_char_json, escape_first_json, json_size, strchr, iterate,
  write_all, add_all, checked, utf8_chars, calc_escaped_length, escape, calc_json_escaped_length,
  escape_json,
}

HasFirst : Char → Type 0
HasFirst ch = ch.first ≢ 0

read_utf8_char-HasFirst :
    (src : List ℕ) (ch : Char) (rest : List ℕ) → read_utf8_char src ≡ some (ch, rest) → HasFirst ch
unfolding read_utf8_char HasFirst
read_utf8_char-HasFirst [] ch rest e = ground arith
read_utf8_char-HasFirst (b ∷ bs) ch rest e = ground arith

iterate-HasFirst : (rounds : ℕ) (src : List ℕ) → All HasFirst (iterate rounds src)
unfolding iterate
iterate-HasFirst zero src = tt
iterate-HasFirst (suc rounds) src = by_read (read_utf8_char src) refl (iterate-HasFirst rounds)
  where
    by_read :
        (o : Option (Char × List ℕ))
        → read_utf8_char src ≡ o
        → ((rest : List ℕ) → All HasFirst (iterate rounds rest))
        → All HasFirst (elim o [ none ↦ [] | some (ch, rest) ↦ ch ∷ iterate rounds rest ])
    by_read none e hs = tt
    by_read (some (ch, rest)) e hs = (read_utf8_char-HasFirst src ch rest e, hs rest)

-- The two macros, by the tests they make.
shape :
    (xs ys : List ℕ) (x y : ℕ) (alone zero_byte escaped : Bool)
    → length xs ≡ 3
    → length ys ≡ 6
    → length
        (if alone then if not zero_byte then if escaped then xs else x ∷ [] else y ∷ [] else ys)
      ≡ (if alone then if zero_byte || not escaped then 1 else 3 else 6)
shape xs ys x y true true escaped hx hy = refl
shape xs ys x y true false true hx hy = hx
shape xs ys x y true false false hx hy = refl
shape xs ys x y false zero_byte escaped hx hy = hy

length-escape_char : (ch : Char) → length (escape_char ch) ≡ escaped_size ch
unfolding escape_char escaped_size
length-escape_char ch =
    shape _ _ _ _ (ch.size == 1) (ch.first == 0) (need_escape ch.first) refl refl

length-escape_first_json :
    (ch : Char)
    → length (escape_first_json ch) + (if ch.first == 0 then 1 else 0) ≡ (
        if need_json_escape ch.first
        then 2
        else if ltb ch.first 0x20 && not (ch.first == 0)
        then 6
        else 1)
unfolding escape_first_json need_json_escape strchr
length-escape_first_json ch = ground arith

length-escape_char_utf8 : (ch : Char) → HasFirst ch → length (escape_char ch) ≡ escaped_size_utf8 ch
unfolding escaped_size escaped_size_utf8 HasFirst
length-escape_char_utf8 ch h = length-escape_char ch ∙ by_byte (ch.size == 1) (need_escape ch.first)
  where
    by_byte :
        (alone escaped : Bool)
        → ◌≡◌ {A = ℕ}
            (if alone then if ch.first == 0 || not escaped then 1 else 3 else 6)
            (if alone then if not escaped then 1 else 3 else 6)
    by_byte alone escaped = ground arith

length-escape_char_json : (ch : Char) → length (escape_char_json ch) + is_replaced ch ≡ json_size ch
unfolding escape_char_json is_replaced json_size
length-escape_char_json ch = by_size (ch.size == 1)
  where
    by_size :
        (alone : Bool)
        → length (if alone then escape_first_json ch else append_hex_16 ch.code (codes "\\u"))
            + (if alone then if ch.first == 0 then 1 else 0 else 0)
          ≡ (if alone
              then if need_json_escape ch.first
                then 2
                else if ltb ch.first 0x20 && not (ch.first == 0)
                then 6
                else 1
              else 6)
    by_size true = length-escape_first_json ch
    by_size false = refl

length-escape_char_json_utf8 :
    (ch : Char) → HasFirst ch → length (escape_char_json ch) ≡ json_size ch
unfolding is_replaced HasFirst
length-escape_char_json_utf8 ch h =
    omega (arith, length-escape_char_json ch, not_replaced (ch.size == 1))
  where
    not_replaced : (alone : Bool) → (if alone then if ch.first == 0 then 1 else 0 else 0) ≡ zero
    not_replaced alone = ground arith

-- What holds of each character holds of all that is written.
Fits : (Char → List ℕ) → (Char → ℕ) → (Char → ℕ) → Char → Type 0
Fits f g extra ch = length (f ch) + extra ch ≡ g ch

length-write_all :
    (f : Char → List ℕ) (g extra : Char → ℕ) (chars : List Char)
    → All (Fits f g extra) chars
    → length (write_all f chars) + add_all extra chars ≡ add_all g chars
unfolding write_all add_all Fits
length-write_all f g extra [] hs = refl
length-write_all f g extra (ch ∷ cs) (h, hs) =
    omega (arith, length-append (f ch) (write_all f cs), h, length-write_all f g extra cs hs)

no_extra : Char → ℕ
no_extra ch = 0

add_all-none : (chars : List Char) → add_all no_extra chars ≡ 0
unfolding add_all no_extra
add_all-none [] = refl
add_all-none (ch ∷ cs) = omega (arith, add_all-none cs)

module _ (f : Char → List ℕ) (g : Char → ℕ) (chars : List Char) where
  length-write_all_exact :
      All (λ ch. length (f ch) ≡ g ch) chars → length (write_all f chars) + 0 ≡ add_all g chars
  unfolding Fits no_extra
  length-write_all_exact hs = omega (
    arith,
    add_all-none chars,
    length-write_all f g no_extra chars (All-map (λ ch h. omega (arith, h)) chars hs),
  )

checked-ok :
    (calculated : ℕ) (out : List ℕ) (n : ℕ)
    → length out + n ≡ calculated
    → checked calculated out ≡ ok out
unfolding checked
checked-ok calculated out n h =
    if_cases (λ r. r ≡ ok out) (ltb calculated (length out)) (λ e. absurd (ground arith))
      (λ e. refl)

length-escape_utf8 :
    (src : List ℕ)
    → length (write_all escape_char (utf8_chars src)) + 0
      ≡ add_all escaped_size_utf8 (utf8_chars src)
length-escape_utf8 src =
    length-write_all_exact escape_char escaped_size_utf8 (utf8_chars src)
      (All-map length-escape_char_utf8 (utf8_chars src) (iterate-HasFirst (length src) src))

pub escape-write_all :
    (src : List ℕ) → escape src utf8 ≡ ok (write_all escape_char (utf8_chars src))
unfolding escape calc_escaped_length
escape-write_all src = checked-ok _ _ 0 (length-escape_utf8 src)

-- For every source and every charset `escape` returns, without the exception for an overflow, and
-- it writes just as many bytes as were calculated.
pub escape-Returns :
    (src : List ℕ) (charset : Charset)
    → Returns (λ out. length out ≡ calc_escaped_length src charset) (escape src charset)
unfolding escape calc_escaped_length
escape-Returns src utf8 = (
  write_all escape_char (utf8_chars src),
  escape-write_all src,
  omega (arith, length-escape_utf8 src),
)
escape-Returns src (single_byte tables) =
    let chars = table_chars tables src in
    let fits =
      length-write_all_exact escape_char escaped_size chars
        (All-every _ length-escape_char chars) in
    (write_all escape_char chars, checked-ok _ _ 0 fits, omega (arith, fits))

-- For every source and every charset `escape_json` returns, without the exception for an overflow. It
-- writes just as many bytes as were calculated, but for one byte less for each byte, up to a zero byte,
-- whose number in the table of the charset is above 0x7FFFFFFF, which UTF-8 cannot hold.
pub escape_json-Returns :
    (src : List ℕ) (charset : Charset)
    → Returns
        (λ out. length out + replaced_chars src charset ≡ calc_json_escaped_length src charset)
        (escape_json src charset)
unfolding escape_json calc_json_escaped_length replaced_chars Fits
escape_json-Returns src utf8 =
    let chars = utf8_chars src in
    let fits =
      length-write_all_exact escape_char_json json_size chars
        (All-map length-escape_char_json_utf8 chars (iterate-HasFirst (length src) src)) in
    (write_all escape_char_json chars, checked-ok _ _ 0 fits, fits)
escape_json-Returns src (single_byte tables) =
    let chars = table_chars tables src in
    let fits =
      length-write_all escape_char_json json_size is_replaced chars
        (All-every _ length-escape_char_json chars) in
    (
      write_all escape_char_json chars,
      checked-ok _ _ (add_all is_replaced chars) fits,
      rw (sym (replaced_in_table tables src)) fits,
    )
