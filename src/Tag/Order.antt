-- ===== src/Tag/Order.antt =====
-- The orders on tags that `compare_tags` and `compare_tag_ptrs` decide.
use colas.Common.{◌≡◌, ◌↔◌, arith, IsCString, strcmp-eq-zero, strcmp_flip, strcmp_trans}
use colas.Common.Int.{pos, ◌<ℤ◌}
use colas.Tag.{Tag, compare_tags, compare_tag_ptrs}

-- `a` stands before `b`.
abbrev pub Before : Tag → Tag → Type 0
Before a b = compare_tags a b <ℤ pos 0

-- `compare_tag_ptrs` is negative exactly if `compare_tags` is, and 0 exactly if `compare_tags` is.
pub compare_tag_ptrs_sign :
    (a b : Tag)
    → ((compare_tag_ptrs a b <ℤ pos 0) ↔ (compare_tags a b <ℤ pos 0))
      × ((compare_tag_ptrs a b ≡ pos 0) ↔ (compare_tags a b ≡ pos 0))
unfolding compare_tags compare_tag_ptrs
compare_tag_ptrs_sign a b = ground arith

-- For tags whose ids are C strings, `compare_tags` is 0 exactly for equal tags, and is negative
-- exactly if it is positive with its arguments swapped.
pub compare_tags_total :
    (a b : Tag)
    → IsCString a.id
    → IsCString b.id
    → ((compare_tags a b ≡ pos 0) ↔ (a ≡ b)) × (Before a b ↔ (pos 0 <ℤ compare_tags b a))
unfolding compare_tags
compare_tags_total a b ha hb = ground (arith, strcmp-eq-zero a.id b.id ha hb, strcmp_flip a.id b.id)

-- `compare_tags` orders tags transitively.
pub compare_tags_trans : (a b c : Tag) → Before a b → Before b c → Before a c
unfolding compare_tags
compare_tags_trans a b c h k = ground (arith, strcmp_trans a.id b.id c.id)
