-- ===== src/Store/Entry.antt =====
-- The view of the objects as a map: each object has one tag and one value.
use colas.Common.{
  ◌<◌, ◌≡◌, refl, Option, none, some, if◌then◌else◌, Bytes, fits_some, is_some, streq, length,
  Bool-cases, inl, inr,
}
use mathlib.Core.Option.{some-injective}
use colas.Tag.{Tag}
use colas.Tag.Text.{string_to_tag}
use colas.Store.{Objects, get_object_tag, has_object}
use colas.Zhash.{Zhash}
use colas.Zhash.Single.{IsSingle, first-single}

-- The text of the tag as it was stored, the tag that it reads as, and the value.
pub record Entry : Type 0 where
  pub key : Bytes
  pub tag : Tag
  pub value : Bytes

-- The text is read back as the tag, through the buffer of 64 bytes.
pub record IsEntry (e : Entry) : Type 0 where
  pub read : string_to_tag e.key ≡ some e.tag
  pub short : length e.key < 64

-- What the objects hold, by name.
abbrev pub View : Type 0
View = Bytes → Option Entry

abbrev pub put_entry : View → Bytes → Entry → View
put_entry view name e other = if streq name other then some e else view other

module _ (Z : Zhash) where
  -- A table that holds the entry alone.
  abbrev pub Holds : Option (Z.Table Bytes) → Option Entry → Type 0
  Holds none none = Unit
  Holds none (some e) = ⊥
  Holds (some table) none = ⊥
  Holds (some table) (some e) = IsSingle Z table e.key e.value × IsEntry e

  -- The well-formed states of the objects, each with its view.
  abbrev pub Shows : Objects Z → View → Type 0
  Shows objects view = (name : Bytes) → Holds (Z.lookup objects name) (view name)

  -- An object in the view has a table.
  pub table_of :
      (objects : Objects Z) (view : View) (name : Bytes) (e : Entry)
      → Shows objects view
      → view name ≡ some e
      → (table : Z.Table Bytes) × (Z.lookup objects name ≡ some table)
        × IsSingle Z table e.key e.value
        × IsEntry e
  table_of objects view name e s p = go (Z.lookup objects name) (view name) refl p (s name)
    where
      go :
          (t : Option (Z.Table Bytes)) (o : Option Entry)
          → Z.lookup objects name ≡ t
          → o ≡ some e
          → Holds t o
          → (table : Z.Table Bytes) × (Z.lookup objects name ≡ some table)
            × IsSingle Z table e.key e.value
            × IsEntry e
      go none none q r h = absurd (cc)
      go none (some f) q r h = absurd h
      go (some t) none q r h = absurd h
      go (some t) (some f) q r h =
          let same : f ≡ e = some-injective f e r in (t, q, rw (← same) h.0, rw (← same) h.1)

  pub get_object_tag-Shows :
      (objects : Objects Z) (view : View) (name : Bytes) (e : Entry)
      → Shows objects view
      → view name ≡ some e
      → get_object_tag Z objects name ≡ some (some e.tag)
  unfolding get_object_tag
  get_object_tag-Shows objects view name e s p =
      let (table, found, single, fine) = table_of objects view name e s p in
      rw (
        found,
        get_object_tag,
        first-single Z table e.key e.value single,
        fits_some 64 e.key fine.short,
        fine.read,
      )

  pub has_object-Shows :
      (objects : Objects Z) (view : View) (name : Bytes)
      → Shows objects view
      → has_object Z objects name ≡ is_some (view name)
  unfolding has_object
  has_object-Shows objects view name s = go (Z.lookup objects name) (view name) (s name)
    where
      go : (t : Option (Z.Table Bytes)) (o : Option Entry) → Holds t o → is_some t ≡ is_some o
      go none none h = refl
      go none (some f) h = absurd h
      go (some t) none h = absurd h
      go (some t) (some f) h = refl

  -- Writing the table of one object changes the view there.
  pub Shows-update :
      (objects : Objects Z) (view : View) (name : Bytes) (table : Z.Table Bytes) (e : Entry)
      → Shows objects view
      → IsSingle Z table e.key e.value
      → IsEntry e
      → Shows (Z.update objects name table) (put_entry view name e)
  Shows-update objects view name table e s single fine other =
      elim (Bool-cases (streq name other)) [
        | inl q ↦ rw (Z.lookup-update objects name table other, q) (single, fine)
        | inr q ↦ rw (Z.lookup-update objects name table other, q) (s other)
      ]
