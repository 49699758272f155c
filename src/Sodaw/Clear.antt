-- ===== src/Sodaw/Clear.antt =====
-- Clearing the history leaves exactly the entries that are not done.
use colas.Common.{
  ℕ, ◌≡◌, refl, sym, ◌∙◌, true, false, Option, none, some, List, [], ◌∷◌, if◌then◌else◌, arith,
  Bytes, streq, streq_iff, streq_refl, is_some, is_some→some, Bool-cases, Option-cases, inl, inr,
}
use colas.Sodaw.History.{HistoryData, History, is_done, clear_keys, history_clear}
use colas.Zhash.{Zhash}
use colas.Zhash.Keys.{member, distinct}

-- What is left of an entry.
abbrev pub left_of : Bytes → ℕ → Option HistoryData → Option HistoryData
left_of readerid opnum none = none
left_of readerid opnum (some his) = if is_done readerid opnum his then none else some his

module _ (Z : Zhash) (readerid : Bytes) (opnum : ℕ) where
  clear_keys_lem :
      (keys : List Bytes) (h : History Z)
      → distinct keys ≡ true
      → ((k : Bytes) → member k keys ≡ true → is_some (Z.lookup h k) ≡ true)
      → (h' : History Z) × (clear_keys Z readerid opnum keys h ≡ some h')
        × ((k : Bytes)
            → Z.lookup h' k
              ≡ (if member k keys then left_of readerid opnum (Z.lookup h k) else Z.lookup h k))
  unfolding clear_keys member distinct
  clear_keys_lem [] h d p = (h, refl, λ k. refl)
  clear_keys_lem (key ∷ keys) h d p =
      let (his, found) = is_some→some (Z.lookup h key) (p key (ground (arith, streq_refl key))) in
      let fresh : member key keys ≡ false = ground arith in
      let rest : distinct keys ≡ true = ground arith in
      elim (Bool-cases (is_done readerid opnum his)) [
        | inl e ↦
            let (h', cleared, left) =
              clear_keys_lem keys (Z.delete h key) rest
                (λ k m. ground (arith, Z.lookup-delete h key k, streq_iff key k, p k)) in
            (
              h',
              rw (found, e) cleared,
              λ k.
                  left k
                  ∙ rw (Z.lookup-delete h key k) (elim (Bool-cases (streq key k)) [
                    | inl same ↦ rw (same, ← (streq_iff key k).0 same, found, e, fresh) refl
                    | inr other ↦ rw other refl
                  ]),
            )
        | inr e ↦
            let (h', cleared, left) = clear_keys_lem keys h rest (λ k m. p k (ground arith)) in
            (
              h',
              rw (found, e) cleared,
              λ k. left k ∙ elim (Bool-cases (streq key k)) [
                | inl same ↦ rw (same, ← (streq_iff key k).0 same, found, e, fresh) refl
                | inr other ↦ rw other refl
              ],
            )
      ]

  -- Clearing the history does not fail, and takes away exactly the entries of the reader's
  -- operations up to the given one.
  pub history_clear_lem :
      (h : History Z)
      → (h' : History Z) × (history_clear Z readerid opnum h ≡ some h')
        × ((k : Bytes) → Z.lookup h' k ≡ left_of readerid opnum (Z.lookup h k))
  unfolding history_clear
  history_clear_lem h =
      let (h', cleared, left) =
        clear_keys_lem (Z.keys h) h (Z.distinct-keys h) (λ k m. sym (Z.member-keys h k) ∙ m) in
      (
        h',
        cleared,
        λ k.
            left k
            ∙ rw (Z.member-keys h k)
                (elim (Option-cases (Z.lookup h k)) [ inl e ↦ rw e refl | inr q ↦ rw q.1 refl ]),
      )
