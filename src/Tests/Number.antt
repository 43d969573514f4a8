-- ===== src/Tests/Number.antt =====
-- Numbers that are printed and read, and the theorems about them at concrete inputs.
use parser.Prelude.{
  ℕ, ◌+◌, ◌^◌, ◌≤◌, ◌<◌, ◌≡◌, ◌≢◌, ◌↔◌, refl, some, List, [], ◌∷◌, ◌++◌, length, leb, codes,
  if◌then◌else◌, arith,
}
use parser.Prelude.Int.{ℤ, negsuc}
use parser.Prelude.Result.{ok, err}
use parser.Number.{
  pa_itoa, pa_atoi, pa_atowi, pa_ato_any, pa_atoui, max_number, int_max, wint_max, out_of_range,
  all_spaces,
}
use parser.Number.Horner.{positional, decimal, small, capital, pa_ato_any-positional}
use parser.Number.RoundTrip.{pa_itoa-pa_atoi}
use parser.Number.Range.{InRange, pa_atoi-pa_atowi-InRange}
use parser.Number.Format.{
  format_invalid, format_int, format_double, format_type, wide_int_fmt, max_format_len,
}
use parser.Number.Format.Grammar.{IsFormat, format_type-IsFormat}

abbrev lowest : ℤ
lowest = negsuc 2147483647

prints_lowest : pa_itoa lowest ≡ some (codes "-2147483648")
unfolding pa_itoa
prints_lowest = refl

pa_atoui_hex : pa_atoui (some (codes " 0xFf\n")) 0 ≡ ok 255
unfolding pa_atoui pa_ato_any
pa_atoui_hex = refl

pa_atoui_large : pa_atoui (some (codes "4294967296")) 10 ≡ err out_of_range
unfolding pa_atoui pa_ato_any
pa_atoui_large = refl

format_of_double : format_type (codes "%+05.2f") ≡ format_double
unfolding format_type
format_of_double = refl

wide_int_fmt_ll : wide_int_fmt (codes "%5d") ≡ codes "%5lld"
unfolding wide_int_fmt
wide_int_fmt_ll = refl

pa_itoa-pa_atoi_example :
    (text : List ℕ) × (pa_itoa lowest ≡ some text)
    × (length text ≤ max_number)
    × (pa_atoi (some text) 10 ≡ ok lowest)
pa_itoa-pa_atoi_example = pa_itoa-pa_atoi lowest (omega arith, omega arith)

pa_ato_any-positional_example :
    pa_ato_any (2 ^ 32) (codes " " ++ (codes "7fA" ++ codes "\n")) 16 5000 ≡ (
      if leb (positional 16 0 (7 ∷ 15 ∷ 10 ∷ [])) 5000
      then ok (positional 16 0 (7 ∷ 15 ∷ 10 ∷ []))
      else err out_of_range)
unfolding all_spaces
pa_ato_any-positional_example =
    pa_ato_any-positional (2 ^ 32) 16 5000 (codes " ") (codes "7fA") (codes "\n") (7 ∷ 15 ∷ 10 ∷ [])
      (omega arith) (omega arith) (omega arith) refl
      (
        decimal (omega arith) (omega arith) refl,
        (small (omega arith) (omega arith) refl, (capital (omega arith) (omega arith) refl, tt)),
      )
      refl

pa_atoi-pa_atowi-InRange_example :
    InRange (int_max + 1) int_max (pa_atoi (some (codes "-99")) 10)
    × InRange wint_max wint_max (pa_atowi (some (codes "-99")) 10)
pa_atoi-pa_atowi-InRange_example = pa_atoi-pa_atowi-InRange (codes "-99") 10

int≢invalid : format_int ≢ format_invalid
int≢invalid e = cc e

format_type-IsFormat_example :
    (format_type (codes "%-5d") ≡ format_int)
    ↔ (IsFormat format_int (codes "%-5d") × (length (codes "%-5d") < max_format_len))
format_type-IsFormat_example = format_type-IsFormat format_int int≢invalid (codes "%-5d")
