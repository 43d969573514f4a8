-- ===== src/Tests/Uue.antt =====
-- A file that is encoded, and the theorem about its size.
use parser.Prelude.{◌≡◌, ◌<◌, refl, length, codes}
use parser.Uue.{pa_uuencode, uue_size}
use parser.Uue.Bounds.{length-pa_uuencode}

cat_encoded : pa_uuencode (codes "Cat!") (codes "a") ≡ codes "begin 644 a\n$0V%T(0``\n`\nend\n"
unfolding pa_uuencode
cat_encoded = refl

length-pa_uuencode_example :
    length (pa_uuencode (codes "Cat!") (codes "a"))
    < uue_size (length (codes "Cat!")) (length (codes "a"))
length-pa_uuencode_example = length-pa_uuencode (codes "Cat!") (codes "a")
