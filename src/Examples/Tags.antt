-- ===== src/Examples/Tags.antt =====
-- Numbers and tags at concrete inputs.
use colas.Common.{◌+◌, ◌%◌, ◌^◌, ◌≡◌, ◌↔◌, arith, some, [], ◌∷◌, codes, strcmp, All, OneOf}
use colas.Common.Int.{pos, ◌<ℤ◌, ◌≤ℤ◌}
use colas.Tag.{Tag, compare_tags, compare_tag_ptrs, get_max_tag}
use colas.Tag.Max.{get_max_tag_lem}
use colas.Tag.Order.{Before, compare_tag_ptrs_sign, compare_tags_total}
use colas.Tag.RoundTrip.{IsTag, string_to_tag-tag_text}
use colas.Tag.Text.{tag_text, string_to_tag}
use colas.Client.Majority.{majority, code_dimension, code_dimension-majority}
use colas.Wire.Uint.{uint_frame, zframe_uint, zframe_uint-uint_frame}

abbrev low : Tag
low = record { z = pos 3; id = codes "a" }

abbrev middle : Tag
middle = record { z = pos 3; id = codes "c_1" }

abbrev high : Tag
high = record { z = pos 12; id = codes "b" }

low-Before-middle : Before low middle
unfolding compare_tags strcmp
low-Before-middle = omega arith

middle-Before-high : Before middle high
unfolding compare_tags
middle-Before-high = omega arith

compare_tags_total_example :
    ((compare_tags low middle ≡ pos 0) ↔ (low ≡ middle))
    × (Before low middle ↔ (pos 0 <ℤ compare_tags middle low))
compare_tags_total_example = compare_tags_total low middle (omega arith) (omega arith)

compare_tag_ptrs_sign_example :
    ((compare_tag_ptrs low high <ℤ pos 0) ↔ (compare_tags low high <ℤ pos 0))
    × ((compare_tag_ptrs low high ≡ pos 0) ↔ (compare_tags low high ≡ pos 0))
compare_tag_ptrs_sign_example = compare_tag_ptrs_sign low high

get_max_tag_lem_example :
    OneOf (get_max_tag [] (low ∷ high ∷ middle ∷ [])) (low ∷ high ∷ middle ∷ [])
    × All (λ x. x.z ≤ℤ (get_max_tag [] (low ∷ high ∷ middle ∷ [])).z) (low ∷ high ∷ middle ∷ [])
get_max_tag_lem_example =
    get_max_tag_lem [] low (high ∷ middle ∷ []) (omega arith, (omega arith, (omega arith, tt)))

middle-IsTag : IsTag middle
middle-IsTag = record { int = omega arith; short = omega arith }

string_to_tag-tag_text_example : string_to_tag (tag_text middle) ≡ some middle
string_to_tag-tag_text_example = string_to_tag-tag_text middle middle-IsTag

code_dimension-majority_example :
    (4 % 2 ≡ 1 → code_dimension 4 ≡ majority 4) × (4 % 2 ≡ 0 → code_dimension 4 + 1 ≡ majority 4)
code_dimension-majority_example = code_dimension-majority 4

zframe_uint-uint_frame_example : zframe_uint (uint_frame 4294967303) ≡ some (4294967303 % 2 ^ 32)
zframe_uint-uint_frame_example = zframe_uint-uint_frame 4294967303
