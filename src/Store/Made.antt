-- ===== src/Store/Made.antt =====
-- The object of a request: `has_object` and `create_object`, as both algorithms call them.
use colas.Common.{
  ℕ, ◌≡◌, sym, ◌∙◌, true, Option, none, some, ◌||◌, if◌then◌else◌, Bytes, is_some, streq,
  streq_refl, Bool-cases, Option-cases, inl, inr,
}
use colas.Store.{Objects, has_object, create_object}
use colas.Store.Create.{initial, created, create_object-Shows}
use colas.Store.Entry.{Entry, View, put_entry, Shows, has_object-Shows}
use colas.Words
use colas.Zhash.{Zhash}

-- The entry of an object at the time of a request: the initial one if it is new.
abbrev pub or_initial : Option Entry → Bytes → Entry
or_initial none init_data = initial init_data
or_initial (some e) init_data = e

abbrev pub entry_at : View → Bytes → Bytes → Entry
entry_at view o init_data = or_initial (view o) init_data

module _ (o init_data : Bytes) (view : View) where
  pub created_at : created view o init_data o ≡ some (entry_at view o init_data)
  created_at = elim (Option-cases (view o)) [ inl p ↦ rw (p, streq_refl o) | inr p ↦ rw p.1 p.1 ]

  -- Putting the object's entry hides whether the object was created before.
  pub put_created :
      (e : Entry) (other : Bytes)
      → put_entry (created view o init_data) o e other ≡ put_entry view o e other
  put_created e other = elim (Bool-cases (streq o other)) [
    | inl p ↦ rw p
    | inr p ↦ rw p (elim (Option-cases (view o)) [ inl q ↦ rw (q, p) | inr q ↦ rw q.1 ])
  ]

  -- The object is there, or is created.
  pub made_lem :
      (Z : Zhash) (algorithm : Bytes) (objects : Objects Z)
      → (streq algorithm Words.abd || streq algorithm Words.sodaw) ≡ true
      → Shows Z objects view
      → (made : Objects Z × ℕ) × ((if has_object Z objects o
            then some (objects, 0)
            else create_object Z objects o algorithm init_data)
          ≡ some made)
        × Shows Z made.0 (created view o init_data)
  made_lem Z algorithm objects known s = elim (Bool-cases (has_object Z objects o)) [
    | inl h ↦
        let p : is_some (view o) ≡ true = sym (has_object-Shows Z objects view o s) ∙ h in
        ((objects, 0), rw h, rw p s)
    | inr h ↦
        let (objects', made, shows) =
          create_object-Shows Z objects view o algorithm init_data s known in
        ((objects', if is_some (view o) then 0 else 1), rw h made, shows)
  ]
