-- ===== src/Store/Create.antt =====
-- `create_object` gives a new object the initial tag and value.
use colas.Common.{
  ◌≡◌, refl, true, Option, none, some, if◌then◌else◌, ◌||◌, arith, Bytes, is_some, streq,
  Bool-cases, Option-cases, inl, inr,
}
use colas.Common.Int.{pos}
use colas.Tag.{init_tag}
use colas.Tag.Text.{tag_text}
use colas.Tag.RoundTrip.{string_to_tag-tag_text, tag_to_string_fits, IsTag-init, length-tag_text}
use colas.Store.{has_object, Objects, yield, put_frame, object_table, store_payload, create_object}
use colas.Store.Entry.{Entry, IsEntry, View, put_entry, Holds, Shows, has_object-Shows}
use colas.Words
use colas.Words.{bufsize}
use colas.Zhash.{Zhash}
use colas.Zhash.Single.{insert-IsSingle}

abbrev pub initial : Bytes → Entry
initial init_data = record { key = tag_text init_tag; tag = init_tag; value = init_data }

-- The view after `create_object` at an algorithm that it knows.
abbrev pub created : View → Bytes → Bytes → View
created view name init_data =
    if is_some (view name) then view else put_entry view name (initial init_data)

pub initial-IsEntry : (init_data : Bytes) → IsEntry (initial init_data)
initial-IsEntry init_data = record {
  read = string_to_tag-tag_text init_tag IsTag-init;
  short = omega (arith, length-tag_text init_tag);
}

module _ (Z : Zhash) where
  absent :
      (objects : Objects Z) (view : View) (name : Bytes)
      → Shows Z objects view
      → view name ≡ none
      → Z.lookup objects name ≡ none
  absent objects view name s e = go (Z.lookup objects name) (view name) e (s name)
    where
      go : (t : Option (Z.Table Bytes)) (o : Option Entry) → o ≡ none → Holds Z t o → t ≡ none
      go none o e h = refl
      go (some t) none e h = absurd h
      go (some t) (some f) e h = absurd (cc)

  -- The first value of an object whose name is new.
  store_payload_new :
      (objects : Objects Z) (view : View) (name value : Bytes)
      → Shows Z objects view
      → view name ≡ none
      → (objects' : Objects Z) × (store_payload Z objects name init_tag value yield
          ≡ some (objects', pos 0))
        × Shows Z objects' (put_entry view name (initial value))
  unfolding store_payload object_table put_frame
  store_payload_new objects view name value s e = (
    Z.update (Z.insert objects name (Z.new Bytes)) name
        (Z.insert (Z.new Bytes) (tag_text init_tag) value),
    rw (
      tag_to_string_fits bufsize init_tag (omega arith),
      absent objects view name s e,
      object_table,
      Z.lookup-new Bytes (tag_text init_tag),
    ),
    λ other. elim (Bool-cases (streq name other)) [
      | inl q ↦
          rw
            (
              Z.lookup-update (Z.insert objects name (Z.new Bytes)) name
                  (Z.insert (Z.new Bytes) (tag_text init_tag) value) other,
              q,
            )
            (
              insert-IsSingle Z (Z.new Bytes) (tag_text init_tag) value (Z.lookup-new Bytes),
              initial-IsEntry value,
            )
      | inr q ↦
          rw
            (
              Z.lookup-update (Z.insert objects name (Z.new Bytes)) name
                  (Z.insert (Z.new Bytes) (tag_text init_tag) value) other,
              q,
              Z.lookup-insert objects name (Z.new Bytes) other,
              q,
            )
            (s other)
    ],
  )

  present :
      (objects : Objects Z) (view : View) (name : Bytes)
      → Shows Z objects view
      → is_some (Z.lookup objects name) ≡ is_some (view name)
  present objects view name s = unfold has_object in has_object-Shows Z objects view name s

  -- With a well-formed store, `create_object` at an algorithm that it knows leaves an object that
  -- is there as it is and returns 0, and gives one that is not there the initial tag and value and
  -- returns 1; other objects stay as they are.
  pub create_object-Shows :
      (objects : Objects Z) (view : View) (name algorithm init_data : Bytes)
      → Shows Z objects view
      → (streq algorithm Words.abd || streq algorithm Words.sodaw) ≡ true
      → (objects' : Objects Z) × (create_object Z objects name algorithm init_data
          ≡ some (objects', if is_some (view name) then 0 else 1))
        × Shows Z objects' (created view name init_data)
  unfolding create_object
  create_object-Shows objects view name algorithm init_data s known =
      elim (Option-cases (view name)) [
        | inl e ↦
            let (objects', stored, shows) = store_payload_new objects view name init_data s e in
            (objects', rw (absent objects view name s e, e, known, stored), rw e shows)
        | inr p ↦ (objects, rw (present objects view name s, p.1), rw p.1 s)
      ]
