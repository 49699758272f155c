-- ===== src/Zhash/Assoc.antt =====
-- A table that meets the laws of `Zhash`: an association list. The examples run on it.
use colas.Common.{
  ◌≡◌, refl, Option, none, some, true, List, [], ◌∷◌, if◌then◌else◌, arith, Bytes, streq, streq_iff,
  is_some,
}
use colas.Zhash.{Zhash, or_kept}
use colas.Zhash.Keys.{member, distinct}

abbrev pub Assoc : Type 0 → Type 0
Assoc V = List (Bytes × V)

module _ {V : Type 0} where
  unfoldable pub find : Assoc V → Bytes → Option V
  find [] j = none
  find ((k, v) ∷ h) j = if streq k j then some v else find h j

  unfoldable pub without : Assoc V → Bytes → Assoc V
  without [] k = []
  without ((j, v) ∷ h) k = let rest = without h k in if streq j k then rest else (j, v) ∷ rest

  unfoldable pub add : Assoc V → Bytes → V → Assoc V
  unfolding find
  add h k v = if is_some (find h k) then h else (k, v) ∷ h

  unfoldable pub names : Assoc V → List Bytes
  names [] = []
  names ((k, v) ∷ h) = let rest = names h in if member k rest then rest else k ∷ rest

  abbrev pub first_name : Assoc V → Option Bytes
  first_name [] = none
  first_name ((k, v) ∷ h) = some k

  pub find-add :
      (h : Assoc V) (k : Bytes) (v : V) (j : Bytes)
      → find (add h k v) j ≡ (if streq k j then some (or_kept (find h k) v) else find h j)
  unfolding add
  find-add h k v j = ground (arith, streq_iff k j)

  pub find-without :
      (h : Assoc V) (k j : Bytes) → find (without h k) j ≡ (if streq k j then none else find h j)
  unfolding find without
  find-without [] k j = ground arith
  find-without ((i, v) ∷ h) k j =
      ground (arith, find-without h k j, streq_iff i k, streq_iff i j, streq_iff k j)

  pub member-names : (h : Assoc V) (k : Bytes) → member k (names h) ≡ is_some (find h k)
  unfolding find names member
  member-names [] k = refl
  member-names ((i, v) ∷ h) k = ground (arith, member-names h k, streq_iff i k)

  pub distinct-names : (h : Assoc V) → distinct (names h) ≡ true
  unfolding names distinct
  distinct-names [] = refl
  distinct-names ((i, v) ∷ h) = ground (arith, distinct-names h)

  pub first_name_present :
      (h : Assoc V) (k : Bytes) → first_name h ≡ some k → is_some (find h k) ≡ true
  unfolding find
  first_name_present [] k e = cc
  first_name_present ((i, v) ∷ h) k e = ground (arith, streq_iff i k)

  pub first_name_empty : (h : Assoc V) (k : Bytes) → first_name h ≡ none → find h k ≡ none
  unfolding find
  first_name_empty [] k e = refl
  first_name_empty ((i, v) ∷ h) k e = absurd (cc)

  unfoldable pub put : Assoc V → Bytes → V → Assoc V
  put h k v = (k, v) ∷ without h k

  pub find-put :
      (h : Assoc V) (k : Bytes) (v : V) (j : Bytes)
      → find (put h k v) j ≡ (if streq k j then some v else find h j)
  unfolding find put
  find-put h k v j = ground (arith, find-without h k j)

pub find-nil : (V : Type 0) (k : Bytes) → find {V = V} [] k ≡ none
unfolding find
find-nil V k = refl

abbrev pub assoc : Zhash
assoc = record {
  Table = Assoc;
  new = λ V. [];
  lookup = find;
  insert = add;
  update = put;
  delete = without;
  keys = names;
  first = first_name;
  lookup-new = find-nil;
  lookup-insert = find-add;
  lookup-update = find-put;
  lookup-delete = find-without;
  member-keys = member-names;
  distinct-keys = distinct-names;
  first_present = first_name_present;
  first_empty = first_name_empty;
}
