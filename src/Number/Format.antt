-- ===== src/Number/Format.antt =====
-- `format_type` of src/main/pa_int.C, the state machine that lets a format through to snprintf, and
-- `wide_int_fmt`, which widens one.
pub mod Grammar
use parser.Prelude.{
  ℕ, zero, suc, ◌+◌, ◌-◌, Bool, true, false, ◌&&◌, ◌||◌, Option, none, some, List, [], ◌∷◌, ◌++◌,
  ltb, leb, ◌==◌, if◌then◌else◌, length, take, drop, codes,
}

abbrev pub max_format_len : ℕ
max_format_len = 10

pub data FormatType : Type 0 where
  format_invalid format_int format_uint format_double : FormatType

pub data FormatState : Type 0 where
  percent flags width precision done : FormatState

-- `strchr(s, c)!=0` for a `c` that is not zero.
abbrev pub one_of : List ℕ → ℕ → Bool
one_of [] c = false
one_of (x ∷ xs) c = x == c || one_of xs c

abbrev pub is_flag : ℕ → Bool
is_flag c = one_of (codes "-+ #0") c

abbrev pub is_decimal : ℕ → Bool
is_decimal c = leb b'0' c && leb c b'9'

-- The last branches of `case Precision`, by the letter.
unfoldable pub type_of : ℕ → FormatType
type_of c =
    if c == b'd' || c == b'i'
    then format_int
    else if one_of (codes "feEgG") c
    then format_double
    else if one_of (codes "uoxX") c
    then format_uint
    else format_invalid

pub finish_type : FormatType → Option (FormatState × FormatType)
finish_type format_invalid = none
finish_type format_int = some (done, format_int)
finish_type format_uint = some (done, format_uint)
finish_type format_double = some (done, format_double)

-- `if(state == Flags) state=Width`
abbrev pub no_more_flags : FormatState → FormatState
no_more_flags flags = width
no_more_flags percent = percent
no_more_flags width = width
no_more_flags precision = precision
no_more_flags done = done

-- `case Precision`, which the cases above it fall into; `none` is `return FormatInvalid`.
pub on_precision : FormatState → FormatType → ℕ → Option (FormatState × FormatType)
on_precision state result c =
    if is_decimal c then some (no_more_flags state, result) else finish_type (type_of c)

pub on_width : FormatState → FormatType → ℕ → Option (FormatState × FormatType)
on_width state result c =
    if c == b'.' then some (precision, result) else on_precision state result c

pub format_step : FormatState → FormatType → ℕ → Option (FormatState × FormatType)
format_step percent result c = if c == b'%' then some (flags, result) else none
format_step flags result c = if is_flag c then some (flags, result) else on_width flags result c
format_step width result c = on_width width result c
format_step precision result c = on_precision precision result c
format_step done result c = none

pub format_loop : FormatState → FormatType → List ℕ → FormatType
format_loop state result [] = result
format_loop state result (c ∷ cs) = elim (format_step state result c) [
  | none ↦ format_invalid
  | some (state', result') ↦ format_loop state' result' cs
]

unfoldable pub format_type : List ℕ → FormatType
unfolding format_loop format_step on_width on_precision finish_type type_of
format_type fmt =
    if ltb max_format_len (length fmt + 1)
    then format_invalid
    else format_loop percent format_invalid fmt

-- The text that `wide_int_fmt` writes to `dst`, without the final zero.
unfoldable pub wide_int_fmt : List ℕ → List ℕ
wide_int_fmt fmt = let head = length fmt - 1 in take head fmt ++ (codes "ll" ++ drop head fmt)
