-- ===== src/Zhash/Single.antt =====
-- Tables with one entry.
use colas.Common.{
  ◌≡◌, sym, ap, ◌∙◌, none, some, true, false, [], ◌∷◌, arith, Bytes, streq, streq_iff, streq_refl,
  is_some, Bool-cases, Option-cases, inl, inr,
}
use colas.Zhash.{Zhash}
use colas.Zhash.Keys.{single_list}

module _ (Z : Zhash) where
  open Z use {
    Table, lookup, insert, delete, keys, first, lookup-insert, lookup-delete, member-keys,
    distinct-keys, first_present, first_empty,
  }

  module _ {V : Type 0} where
    -- `h` holds `v` under `k` and nothing else.
    pub record IsSingle (h : Table V) (k : Bytes) (v : V) : Type 0 where
      pub held : lookup h k ≡ some v
      pub others : (j : Bytes) → streq k j ≡ false → lookup h j ≡ none

    single_key :
        (h : Table V) (k : Bytes) (v : V)
        → IsSingle h k v
        → (j : Bytes) → is_some (lookup h j) ≡ true
        → j ≡ k
    single_key h k v s j p = elim (Bool-cases (streq k j)) [
      | inl e ↦ sym ((streq_iff k j).0 e)
      | inr e ↦ absurd (cc (s.others j e))
    ]

    pub keys-single : (h : Table V) (k : Bytes) (v : V) → IsSingle h k v → keys h ≡ k ∷ []
    keys-single h k v s =
        single_list k (keys h) (member-keys h k ∙ ap is_some s.held) (distinct-keys h)
          (λ j m. single_key h k v s j (sym (member-keys h j) ∙ m))

    pub first-single : (h : Table V) (k : Bytes) (v : V) → IsSingle h k v → first h ≡ some k
    first-single h k v s = elim (Option-cases (first h)) [
      | inl e ↦ absurd (cc (first_empty h k e, s.held))
      | inr p ↦ p.1 ∙ ap some (single_key h k v s p.0 (first_present h p.0 p.1))
    ]

    -- Deleting the entry and inserting another leaves that other one.
    pub insert-delete-IsSingle :
        (h : Table V) (k : Bytes) (v : V) (j : Bytes) (w : V)
        → IsSingle h k v
        → IsSingle (insert (delete h k) j w) j w
    insert-delete-IsSingle h k v j w s = record {
      held =
          ground (
            arith,
            lookup-insert (delete h k) j w j,
            lookup-delete h k j,
            streq_refl j,
            s.others j,
          );
      others =
          λ i e. ground (arith, lookup-insert (delete h k) j w i, lookup-delete h k i, s.others i);
    }

    -- Inserting into a table with no entry.
    pub insert-IsSingle :
        (h : Table V) (k : Bytes) (v : V)
        → ((j : Bytes) → lookup h j ≡ none)
        → IsSingle (insert h k v) k v
    insert-IsSingle h k v empty = record {
      held = ground (arith, lookup-insert h k v k, streq_refl k, empty k);
      others = λ i e. ground (arith, lookup-insert h k v i, empty i);
    }
