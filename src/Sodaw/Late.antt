-- ===== src/Sodaw/Late.antt =====
-- A read that is complete stays complete: later messages of it change nothing.
use colas.Common.{
  ℕ, ◌%◌, ◌^◌, ◌≤◌, ◌≡◌, refl, ◌∙◌, true, Option, none, some, ◌++◌, if◌then◌else◌, arith, Bytes,
  streq_refl, Bool-cases, inl, inr,
}
use colas.Tag.{Tag}
use colas.Sodaw.Clear.{left_of, history_clear_lem}
use colas.Sodaw.Filed.{insert_forget, forget_lem}
use colas.Sodaw.Dispatch.{read_disperse, read_value}
use colas.Sodaw.Reads.{
  IsWord, IsTagText, is_late, read_complete_lem, read_value_lem, read_disperse_lem,
}
use colas.Sodaw.Server.{
  SodawArgs, RegReader, reaches, exceeds, Server, forget, unregister, complete, read_complete,
}
use colas.Wire.Carries.{Carries}
use colas.Wire.Delivery.{Request, body, header}
use colas.Wire.Read.{Frames}
use colas.Words
use colas.Zhash.{Zhash}

reaches_less : (o : Option RegReader) (n m : ℕ) → m ≤ n → reaches o n ≡ true → reaches o m ≡ true
reaches_less none n m h e = absurd (cc)
reaches_less (some r) n m h e = ground arith

exceeds_less : (o : Option RegReader) (n m : ℕ) → m ≤ n → exceeds o n ≡ true → exceeds o m ≡ true
exceeds_less none n m h e = absurd (cc)
exceeds_less (some r) n m h e = ground arith

module _ (Z : Zhash) where
  is_late_less :
      (s : Server Z) (id : Bytes) (n m : ℕ)
      → m ≤ n
      → is_late Z s id n ≡ true
      → is_late Z s id m ≡ true
  is_late_less s id n m h e =
      ground (
        arith,
        reaches_less (Z.lookup s.readed id) n m h,
        exceeds_less (Z.lookup s.reading id) n m h,
      )

  -- Completing a read does not fail; its reader is then in the table of those that have read with
  -- this operation, not in that of those reading, and the history has lost exactly the entries of
  -- its operations up to this one.
  pub complete_lem :
      (s : Server Z) (tag : Tag) (id : Bytes) (n : ℕ)
      → (s' : Server Z) × (complete Z s tag id n ≡ some s')
        × (Z.lookup s'.readed id ≡ some (record { t_r = tag; reader_id = id; opnum = n }))
        × (Z.lookup s'.reading id ≡ none)
        × ((k : Bytes) → Z.lookup s'.history k ≡ left_of id n (Z.lookup s.history k))
  unfolding complete
  complete_lem s tag id n =
      let (h, cleared, left) = history_clear_lem Z id n s.history in
      let r : RegReader = record { t_r = tag; reader_id = id; opnum = n } in
      (
        record (unregister Z s id) { readed = Z.insert (forget Z s.readed id) id r; history = h },
        rw cleared refl,
        rw (insert_forget Z s.readed id id r, streq_refl id) refl,
        rw (forget_lem Z s.reading id id, streq_refl id) refl,
        left,
      )

  -- Handling `READ_COMPLETE` makes the read late.
  completed :
      (s : Server Z) (tag : Tag) (id : Bytes) (n : ℕ)
      → (s' : Server Z) × ((if is_late Z s id n then some s else complete Z s tag id n) ≡ some s')
        × (is_late Z s' id n ≡ true)
  completed s tag id n = elim (Bool-cases (is_late Z s id n)) [
    | inl e ↦ (s, rw e refl, e)
    | inr e ↦
        let (s', done, readed, reading, left) = complete_lem s tag id n in
        (s', rw e done, rw readed (ground arith))
  ]

  module _ (args : SodawArgs) (sender client o t : Bytes) (op : ℕ) (ws : IsWord sender)
      (wc : IsWord client) (wo : IsWord o) (h : IsTagText t) (frames : Frames Z)
      (c : Carries Z frames (
        header sender client o Words.sodaw Words.read_complete
        ++ body (Request.read_complete op t))) where
    -- After `READ_COMPLETE` of an operation was handled, `READ_VALUE` of the same reader and of an
    -- operation that is not later changes nothing and sends nothing. Both requests fit the
    -- buffers.
    pub late-read_value :
        (s : Server Z) (op' : ℕ) (t' : Bytes) (h' : IsTagText t') (frames' : Frames Z)
        → Carries Z frames' (
            header sender client o Words.sodaw Words.read_value ++ body (Request.read_value op' t'))
        → op' % 2 ^ 32 ≤ op % 2 ^ 32
        → (s' : Server Z) × (read_complete Z frames s ≡ some s')
          × (read_value Z args frames' s' ≡ some s')
    late-read_value s op' t' h' frames' c' le =
        let (s', done, late) = completed s h.1.0 client (op % 2 ^ 32) in
        (
          s',
          read_complete_lem Z args sender client o ws wc wo frames s op t h c ∙ done,
          read_value_lem Z args sender client o ws wc wo frames' s' op' t' h' c'
              ∙ rw (is_late_less s' client (op % 2 ^ 32) (op' % 2 ^ 32) le late) refl,
        )

    -- After `READ_COMPLETE` of an operation was handled, `READ_DISPERSE` from any server for the
    -- same reader and an operation that is not later changes nothing and sends nothing. Both
    -- requests fit the buffers.
    pub late-read_disperse :
        (s : Server Z) (sender' server st rt : Bytes) (op' : ℕ) (h' : IsTagText st)
        (k' : IsTagText rt) (frames' : Frames Z)
        → IsWord sender'
        → IsWord server
        → Carries Z frames' (
            header sender' server o Words.sodaw Words.read_disperse
            ++ body (Request.read_disperse st client rt op'))
        → op' % 2 ^ 32 ≤ op % 2 ^ 32
        → (s' : Server Z) × (read_complete Z frames s ≡ some s')
          × (read_disperse Z args frames' s' ≡ some s')
    late-read_disperse s sender' server st rt op' h' k' frames' ws' wv c' le =
        let (s', done, late) = completed s h.1.0 client (op % 2 ^ 32) in
        (
          s',
          read_complete_lem Z args sender client o ws wc wo frames s op t h c ∙ done,
          read_disperse_lem Z args sender' server o ws' wv wo frames' s' st client rt op' h' k' wc
                c'
              ∙ rw (is_late_less s' client (op % 2 ^ 32) (op' % 2 ^ 32) le late) refl,
        )
