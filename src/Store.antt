-- ===== src/Store.antt =====
-- The objects of a server: `has_object`, `get_object_tag`, `get_object_frame` of
-- src/utilities/algo_utils.c, `store_payload` and `create_object` of src/baseprocess/server.c.
--
-- The table of an object is reached through the table of objects alone, so what the source changes
-- through a pointer to it is put back by `zhash_update`.
pub mod Entry
pub mod Create
pub mod Made
use colas.Common.{
  ℕ, ◌≡◌, Bool, true, false, Option, none, some, List, [], ◌∷◌, if◌then◌else◌, ◌>>=◌, ◌||◌, Bytes,
  fits, is_some, streq,
}
use colas.Common.Int.{ℤ, pos, negsuc}
use colas.Tag.{Tag, init_tag}
use colas.Tag.Text.{tag_to_string, string_to_tag}
use colas.Words
use colas.Words.{bufsize}
use colas.Zhash.{Zhash}

-- `enum INSERT_DATA_POLICY`
pub data Policy : Type 0 where
  force yield : Policy

module _ (Z : Zhash) where
  -- For each object a table from the text of a tag to the value.
  abbrev pub Objects : Type 0
  Objects = Z.Table (Z.Table Bytes)

  unfoldable pub has_object : Objects → Bytes → Bool
  has_object objects name = is_some (Z.lookup objects name)

  -- `some none` stands for the return value 0, with the tag left as it was. The key is copied into
  -- a buffer of 64 bytes.
  unfoldable pub get_object_tag : Objects → Bytes → Option (Option Tag)
  get_object_tag objects name = elim (Z.lookup objects name) [
    | none ↦ some none
    | some table ↦ (do
      cursor ← Z.first table
      tag_str ← fits 64 cursor
      tag ← string_to_tag tag_str
      some (some tag))
  ]

  unfoldable pub get_object_frame : Objects → Bytes → Tag → Option Bytes
  get_object_frame objects name tag = do
    tag_str ← tag_to_string bufsize tag
    table ← Z.lookup objects name
    Z.lookup table tag_str

  -- `zhash_insert`, with its return value.
  abbrev pub inserted : Z.Table Bytes → Bytes → Bytes → Z.Table Bytes × ℤ
  inserted table key value =
      (Z.insert table key value, if is_some (Z.lookup table key) then negsuc 0 else pos 0)

  -- What the policy does with a frame that is stored under the tag.
  unfoldable pub put_frame : Z.Table Bytes → Bytes → Bytes → Policy → Z.Table Bytes × ℤ
  put_frame table key value yield =
      if is_some (Z.lookup table key) then (table, negsuc 0) else inserted table key value
  put_frame table key value force =
      if is_some (Z.lookup table key)
      then inserted (Z.delete table key) key value
      else inserted table key value

  -- The table of the object, made and inserted if there is none.
  unfoldable pub object_table : Objects → Bytes → Objects × Z.Table Bytes
  object_table objects name = elim (Z.lookup objects name) [
    | none ↦ (Z.insert objects name (Z.new Bytes), Z.new Bytes)
    | some table ↦ (objects, table)
  ]

  unfoldable pub store_payload : Objects → Bytes → Tag → Bytes → Policy → Option (Objects × ℤ)
  store_payload objects name tag value policy = do
    tag_str ← tag_to_string bufsize tag
    let p = object_table objects name
    let r = put_frame p.1 tag_str value policy
    some (Z.update p.0 name r.0, r.1)

  -- The value of `create_object` is 1 for an object that it created.
  unfoldable pub create_object : Objects → Bytes → Bytes → Bytes → Option (Objects × ℕ)
  create_object objects name algorithm init_data =
      if is_some (Z.lookup objects name)
      then some (objects, 0)
      else if streq algorithm Words.abd || streq algorithm Words.sodaw
      then (do stored ← store_payload objects name init_tag init_data yield; some (stored.0, 1))
      else some (objects, 0)
