-- ===== src/Tests/Base64.antt =====
-- The Base64 theorems at concrete texts, and runs of the encoder and the decoder.
use parser.Prelude.{◌≤◌, ◌≡◌, refl, true, false, [], ◌∷◌, arith, codes, All, length}
use parser.Prelude.Result.{ok, err}
use parser.Base64.{
  Base64Options, standard, set_url_safe_abc, encode, decode, decode_size, invalid_char,
}
use parser.Base64.RoundTrip.{decode-encode}
use parser.Base64.Bounds.{length-decode}
use parser.Base64.Letters.{is_letter}
use parser.Base64.Strict.{decode-strict}

abbrev strict_options : Base64Options
strict_options = record { strict = true; wrap = false; pad = true; abc = standard }

abbrev wrap_options : Base64Options
wrap_options = record { strict = false; wrap = true; pad = true; abc = standard }

encodes : encode (codes "light w") strict_options ≡ codes "bGlnaHQgdw=="
unfolding encode
encodes = refl

decodes : decode (codes "bGln\naHQgdw==") strict_options ≡ ok (codes "light w")
unfolding decode
decodes = refl

-- The last `=` of a text is lost on a lenient decoder, which drops the group.
lone_pad : decode (codes "bGlnaHQgdw=") wrap_options ≡ ok (codes "light w")
unfolding decode
lone_pad = refl

refused : decode (codes "bG*n") strict_options ≡ err (invalid_char 2)
unfolding decode
refused = refl

url_letters : encode (251 ∷ 255 ∷ []) (set_url_safe_abc strict_options) ≡ codes "-_8="
unfolding encode set_url_safe_abc
url_letters = refl

decode-encode_example :
    decode (encode (codes "light w") wrap_options) strict_options ≡ ok (codes "light w")
decode-encode_example =
    decode-encode (codes "light w") wrap_options strict_options (omega arith) (refl, λ _. refl)

length-decode_example : length (codes "light w") ≤ decode_size (length (codes "bGln\naHQgdw=="))
length-decode_example = length-decode (codes "bGln\naHQgdw==") strict_options decodes

decode-strict_example : All (λ c. is_letter standard c ≡ true) (codes "bGln\naHQgdw==")
decode-strict_example = decode-strict (codes "bGln\naHQgdw==") strict_options refl decodes
