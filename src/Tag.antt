-- ===== src/Tag.antt =====
-- Tags and their orders: `Tag`, `compare_tag_ptrs`, `compare_tags`, `init_tag`, `get_max_tag` of
-- src/utilities/algo_utils.c and .h.
pub mod Order
pub mod Max
pub mod Decimal
pub mod Text
pub mod RoundTrip
use colas.Common.{ℕ, List, [], ◌∷◌, if◌then◌else◌, Bytes, codes, strcmp}
use colas.Common.Int.{ℤ, pos, negsuc, ltb_ℤ, eqb_ℤ}

-- `id` is the C string in the 100 bytes of the field.
pub record Tag : Type 0 where
  pub z : ℤ
  pub id : Bytes

-- `init_tag`
abbrev pub init_tag : Tag
init_tag = record { z = pos 0; id = codes "client_0" }

unfoldable pub compare_tag_ptrs : Tag → Tag → ℤ
compare_tag_ptrs a b =
    if ltb_ℤ a.z b.z then negsuc 1 else if ltb_ℤ b.z a.z then pos 1 else strcmp a.id b.id

unfoldable pub compare_tags : Tag → Tag → ℤ
compare_tags a b =
    if ltb_ℤ a.z b.z then negsuc 0 else if ltb_ℤ b.z a.z then pos 1 else strcmp a.id b.id

-- One round of the loop of `get_max_tag`.
pub max_step : Tag → Tag → Tag
max_step max_tag tag = if eqb_ℤ (compare_tag_ptrs tag max_tag) (pos 1) then tag else max_tag

pub max_loop : Tag → List Tag → Tag
max_loop max_tag [] = max_tag
max_loop max_tag (tag ∷ tag_list) = max_loop (max_step max_tag tag) tag_list

-- `max_tag` is allocated with z = -1; its `id` is what the memory holds, `garbage`.
unfoldable pub get_max_tag : Bytes → List Tag → Tag
unfolding max_loop max_step
get_max_tag garbage tag_list = max_loop (record { z = negsuc 0; id = garbage }) tag_list
