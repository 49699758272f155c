-- ===== src/Zhash.antt =====
-- The hash table `zhash_t` of CZMQ, which the repository calls and does not hold: a parameter.
-- Its laws are what the CZMQ manual says of each call that the source makes. Keys are C strings.
pub mod Keys
pub mod Single
pub mod Assoc
use colas.Common.{
  ℕ, ◌≡◌, Option, none, some, Bool, true, false, List, [], ◌∷◌, if◌then◌else◌, ◌&&◌, ◌||◌, not,
  Bytes, streq, is_some,
}
use Keys.{member, distinct}

-- The value of a key after `zhash_insert`, which keeps an item that is there.
abbrev pub or_kept : {V : Type 0} → Option V → V → V
or_kept none v = v
or_kept (some w) v = w

pub record Zhash : Type 1 where
  -- `zhash_t` with items of type V
  pub Table : Type 0 → Type 0
  pub new : (V : Type 0) → Table V
  pub lookup : {V : Type 0} → Table V → Bytes → Option V
  pub insert : {V : Type 0} → Table V → Bytes → V → Table V
  pub update : {V : Type 0} → Table V → Bytes → V → Table V
  pub delete : {V : Type 0} → Table V → Bytes → Table V
  -- `zhash_keys`, the keys in the order in which the list is walked
  pub keys : {V : Type 0} → Table V → List Bytes
  -- `zhash_cursor` behind `zhash_first`; `none` if `zhash_first` returns NULL
  pub first : {V : Type 0} → Table V → Option Bytes
  pub lookup-new : (V : Type 0) (k : Bytes) → lookup (new V) k ≡ none
  pub lookup-insert :
      {V : Type 0} (h : Table V) (k : Bytes) (v : V) (j : Bytes)
      → lookup (insert h k v) j ≡ (if streq k j then some (or_kept (lookup h k) v) else lookup h j)
  pub lookup-update :
      {V : Type 0} (h : Table V) (k : Bytes) (v : V) (j : Bytes)
      → lookup (update h k v) j ≡ (if streq k j then some v else lookup h j)
  pub lookup-delete :
      {V : Type 0} (h : Table V) (k j : Bytes)
      → lookup (delete h k) j ≡ (if streq k j then none else lookup h j)
  pub member-keys :
      {V : Type 0} (h : Table V) (k : Bytes) → member k (keys h) ≡ is_some (lookup h k)
  pub distinct-keys : {V : Type 0} (h : Table V) → distinct (keys h) ≡ true
  pub first_present :
      {V : Type 0} (h : Table V) (k : Bytes) → first h ≡ some k → is_some (lookup h k) ≡ true
  pub first_empty : {V : Type 0} (h : Table V) (k : Bytes) → first h ≡ none → lookup h k ≡ none
