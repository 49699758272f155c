-- ===== src/Sodaw/Filed.antt =====
-- The well-formed tables of a SODAW server: a reader stands in one table at most, under its own id,
-- and no completed read has an entry in the history.
use colas.Common.{
  ℕ, ◌+◌, ◌<◌, ◌≡◌, refl, false, Option, none, some, if◌then◌else◌, arith, length, Bytes, streq,
  streq_iff, streq_refl, Bool-cases, Option-cases, inl, inr,
}
use colas.Tag.{Tag}
use colas.Sodaw.Clear.{left_of, history_clear_lem}
use colas.Sodaw.Dispatch.{register}
use colas.Sodaw.History.{HistoryData, is_done}
use colas.Sodaw.Server.{RegReader, reaches, Server, forget, unregister, complete}
use colas.Zhash.{Zhash}

-- A reader under its id, whose tag can be printed.
abbrev pub Filed : Bytes → Option RegReader → Type 0
Filed id none = Unit
Filed id (some r) = (r.reader_id ≡ id) × (length r.t_r.id + 12 < 100)

-- At most one is there.
abbrev pub OnlyOne : Option RegReader → Option RegReader → Type 0
OnlyOne (some r) (some r') = ⊥
OnlyOne _ _ = Unit

module _ (Z : Zhash) where
  -- An entry of the history is of a read that is not complete.
  abbrev pub Open : Z.Table RegReader → Option HistoryData → Type 0
  Open readed none = Unit
  Open readed (some his) = reaches (Z.lookup readed his.readerid) his.opnum ≡ false

  pub record IsFiled (s : Server Z) : Type 0 where
    pub filed : (id : Bytes) → Filed id (Z.lookup s.reading id)
    pub only_one : (id : Bytes) → OnlyOne (Z.lookup s.reading id) (Z.lookup s.readed id)
    pub open_history : (k : Bytes) → Open s.readed (Z.lookup s.history k)

  -- Forgetting empties one place.
  pub forget_lem :
      (table : Z.Table RegReader) (id other : Bytes)
      → Z.lookup (forget Z table id) other ≡ (if streq id other then none else Z.lookup table other)
  forget_lem table id other = elim (Option-cases (Z.lookup table id)) [
    | inl e ↦ rw e (elim (Bool-cases (streq id other)) [
      | inl same ↦ rw (same, ← (streq_iff id other).0 same) e
      | inr differ ↦ rw differ refl
    ])
    | inr q ↦ rw q.1 (Z.lookup-delete table id other)
  ]

  -- A reader that was forgotten is put in.
  pub insert_forget :
      (table : Z.Table RegReader) (id other : Bytes) (r : RegReader)
      → Z.lookup (Z.insert (forget Z table id) id r) other
        ≡ (if streq id other then some r else Z.lookup table other)
  insert_forget table id other r =
      rw
        (
          Z.lookup-insert (forget Z table id) id r other,
          forget_lem table id id,
          forget_lem table id other,
          streq_refl id,
        )
        (elim (Bool-cases (streq id other)) [ inl e ↦ rw e refl | inr e ↦ rw e refl ])

  Open-forget :
      (readed : Z.Table RegReader) (id : Bytes) (o : Option HistoryData)
      → Open readed o
      → Open (forget Z readed id) o
  Open-forget readed id none h = tt
  Open-forget readed id (some his) h =
      rw (forget_lem readed id his.readerid)
        (elim (Bool-cases (streq id his.readerid)) [ inl e ↦ rw e refl | inr e ↦ rw e h ])

  Open-complete :
      (readed : Z.Table RegReader) (id : Bytes) (r : RegReader) (o : Option HistoryData)
      → Open readed o
      → Open (Z.insert (forget Z readed id) id r) (left_of id r.opnum o)
  Open-complete readed id r none h = tt
  Open-complete readed id r (some his) h = elim (Bool-cases (is_done id r.opnum his)) [
    | inl e ↦ rw e tt
    | inr e ↦
        rw (e, insert_forget readed id his.readerid r)
          (elim (Bool-cases (streq id his.readerid)) [
            | inl same ↦ rw same (ground arith)
            | inr differ ↦ rw differ h
          ])
  ]

  module _ (s : Server Z) (tag : Tag) (id : Bytes) (opnum : ℕ) (f : IsFiled s) where
    pub register_reading :
        (other : Bytes)
        → Z.lookup (register Z s tag id opnum).reading other ≡ (
            if streq id other
            then some (record { t_r = tag; reader_id = id; opnum = opnum })
            else Z.lookup s.reading other)
    unfolding register
    register_reading other =
        insert_forget s.reading id other (record { t_r = tag; reader_id = id; opnum = opnum })

    pub register_readed :
        (other : Bytes)
        → Z.lookup (register Z s tag id opnum).readed other
          ≡ (if streq id other then none else Z.lookup s.readed other)
    unfolding register
    register_readed other = forget_lem s.readed id other

    -- With well-formed tables, registering a reader whose tag can be printed keeps them
    -- well-formed.
    pub register-IsFiled : length tag.id + 12 < 100 → IsFiled (register Z s tag id opnum)
    unfolding register
    register-IsFiled short = record {
      filed = λ other. rw (register_reading other) (elim (Bool-cases (streq id other)) [
        | inl e ↦ rw e ((streq_iff id other).0 e, short)
        | inr e ↦ rw e (f.filed other)
      ]);
      only_one = λ other.
          rw (register_reading other, register_readed other)
            (elim (Bool-cases (streq id other)) [
              | inl e ↦ rw e tt
              | inr e ↦ rw e (f.only_one other)
            ]);
      open_history = λ k. Open-forget s.readed id (Z.lookup s.history k) (f.open_history k);
    }

    -- With well-formed tables, completing a read does not fail and keeps the tables well-formed:
    -- each reader being read stands under its own id, no reader is in both tables, and no
    -- completed read has an entry in the history. The objects stay as they are.
    pub complete-IsFiled :
        (s' : Server Z) × (complete Z s tag id opnum ≡ some s')
        × IsFiled s'
        × (s'.objects ≡ s.objects)
    unfolding complete
    complete-IsFiled =
        let (h, cleared, left) = history_clear_lem Z id opnum s.history in
        let r : RegReader = record { t_r = tag; reader_id = id; opnum = opnum } in
        (
          record (unregister Z s id) { readed = Z.insert (forget Z s.readed id) id r; history = h },
          rw cleared refl,
          record {
            filed = λ other.
                rw (forget_lem s.reading id other) (elim (Bool-cases (streq id other)) [
                  | inl e ↦ rw e tt
                  | inr e ↦ rw e (f.filed other)
                ]);
            only_one = λ other.
                rw (forget_lem s.reading id other, insert_forget s.readed id other r)
                  (elim (Bool-cases (streq id other)) [
                    | inl e ↦ rw e tt
                    | inr e ↦ rw e (f.only_one other)
                  ]);
            open_history = λ k.
                rw (left k) (Open-complete s.readed id r (Z.lookup s.history k) (f.open_history k));
          },
          refl,
        )
