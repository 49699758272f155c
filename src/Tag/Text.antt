-- ===== src/Tag/Text.antt =====
-- `tag_to_string` and `string_to_tag` of src/utilities/algo_utils.c.
use colas.Common.{
  ℕ, ◌≡◌, refl, Option, none, some, [], ◌∷◌, ◌++◌, if◌then◌else◌, ◌==◌, ◌>>=◌, Bytes, codes, fits,
}
use colas.Common.Int.{negsuc}
use colas.Tag.{Tag, init_tag}
use colas.Tag.Decimal.{print_int, atoi, digits, scan}

-- What `sprintf(buf, "%d_%s", tag.z, tag.id)` writes.
unfoldable pub tag_text : Tag → Bytes
tag_text tag = print_int tag.z ++ b'_' ∷ tag.id

-- `tag_to_string` into a buffer of `cap` bytes.
unfoldable pub tag_to_string : ℕ → Tag → Option Bytes
tag_to_string cap tag = fits cap (tag_text tag)

-- The bytes before the first underscore, and those behind it. The loop of the source has no other
-- end, so a text without one is read past its NUL.
unfoldable pub split_underscore : Bytes → Option (Bytes × Bytes)
split_underscore [] = none
split_underscore (c ∷ s) =
    let rest = (do p ← split_underscore s; some (c ∷ p.0, p.1)) in
    if c == b'_' then some ([], s) else rest

-- The number goes through a buffer of 16 bytes, the id into the 100 bytes of the field.
unfoldable pub string_to_tag : Bytes → Option Tag
unfolding split_underscore fits
string_to_tag str = do
  p ← split_underscore str
  temp_buf ← fits 16 p.0
  id ← fits 100 p.1
  some (record { z = atoi temp_buf; id = id })

test_text : tag_text init_tag ≡ codes "0_client_0"
unfolding tag_text print_int digits
test_text = refl

test_parse : string_to_tag (codes "-7_a_b") ≡ some (record { z = negsuc 6; id = codes "a_b" })
unfolding string_to_tag atoi scan
test_parse = refl

test_no_underscore : string_to_tag (codes "17") ≡ none
unfolding string_to_tag
test_no_underscore = refl
