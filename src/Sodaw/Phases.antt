-- ===== src/Sodaw/Phases.antt =====
-- The phases of src/sodaw/sodaw_client.c and src/sodaw/sodaw_writer.c at the replies that arrive.
use mathlib.Core.List.{append_assoc, append-nil}
use colas.Common.{
  ℕ, ◌+◌, ◌<◌, ◌≡◌, refl, ap, ◌∙◌, true, false, Option, none, some, List, [], ◌∷◌, ◌++◌, ◌||◌, map,
  foldl, if◌then◌else◌, arith, Bytes, IsCString, length, leb, Bool-cases, inl, inr, lt→leb,
}
use colas.Tag.{Tag, get_max_tag}
use colas.Tag.Text.{string_to_tag}
use colas.Abd.Client.{Caller, types}
use colas.Abd.Ends.{to_all, matching, enough}
use colas.Abd.Phases.{matches, tag_of}
use colas.Client.Loop.{Counts, done}
use colas.Client.Majority.{majority, majority_overlap}
use colas.Client.Polls.{Poll, timed_out, poll_loop_lem, items, polls_of, Takes, Busy}
use colas.Client.Reply.{
  Answer, answer_frames, read_reply-answer_frames, frames_of, Carries-frames_of, tag_shown,
}
use colas.Sodaw.Client.{Collected, get_round, sodaw_write_get_or_read_get_phase, write_put_round}
use colas.Wire.Delivery.{
  Request, write_get, read_get, multicast, multicast_lem, algorithm_of, phase_of, body, arguments,
}
use colas.Wire.Read.{get_string_frame, get_string_frame_present}
use colas.Wire.Send.{text, uint, send_multicast_servers}
use colas.Words
use colas.Zhash.{Zhash}

-- A reply whose tag fits the buffers and can be read.
pub record IsTagged (a : Answer) : Type 0 where
  pub tag : Tag
  pub tag_text : IsCString a.tag
  pub tag_short : length a.tag < 100
  pub reads : string_to_tag a.tag ≡ some tag

-- Behind `n` replies that match: at each time that nothing arrives, they are not yet a majority.
abbrev pub Patient : Caller → Bytes → ℕ → List (Option Answer) → Type 0
Patient c phase n [] = Unit
Patient c phase n (none ∷ es) = (n < majority c.num_servers) × Patient c phase n es
Patient c phase n (some a ∷ es) =
    IsTagged a × Patient c phase (if matches c phase a then n + 1 else n) es

module _ (c : Caller) (phase : Bytes) where
  abbrev collected : ℕ → List Tag → Collected
  collected n tags = record {
    responses = n;
    tag_list = tags;
    finished = leb (majority c.num_servers) n;
  }

  abbrev next : Collected → Answer → Collected
  next s a =
      if matches c phase a
      then record {
        responses = s.responses + 1;
        tag_list = s.tag_list ++ tag_of a ∷ [];
        finished = leb (majority c.num_servers) (s.responses + 1) || s.finished;
      }
      else s

  next_match :
      (n : ℕ) (tags : List Tag) (a : Answer)
      → matches c phase a ≡ true
      → next (collected n tags) a ≡ collected (n + 1) (tags ++ tag_of a ∷ [])
  next_match n tags a t =
      let later : (leb (majority c.num_servers) (n + 1) || leb (majority c.num_servers) n)
          ≡ leb (majority c.num_servers) (n + 1) =
        ground arith in
      rw (t, later) refl

  foldl-next :
      (n : ℕ) (tags : List Tag) (xs : List Answer)
      → foldl next (collected n tags) xs
        ≡ collected (n + length (matching c phase xs)) (tags ++ map tag_of (matching c phase xs))
  foldl-next n tags [] = let e : n ≡ n + 0 = omega arith in rw (← e, append-nil tags) refl
  foldl-next n tags (a ∷ xs) = elim (Bool-cases (matches c phase a)) [
    | inl t ↦
        let e : n + 1 + length (matching c phase xs) ≡ n + length (a ∷ matching c phase xs) =
          omega arith in
        ap (λ s. foldl next s xs) (next_match n tags a t)
        ∙ foldl-next (n + 1) (tags ++ tag_of a ∷ []) xs
        ∙ rw (t, e, append_assoc tags (tag_of a ∷ []) (map tag_of (matching c phase xs))) refl
    | inr t ↦ rw t (foldl-next n tags xs)
  ]

  module _ (Z : Zhash) where
    pub tag_str_read :
        (a : Answer) → IsTagged a → get_string_frame Z 100 (frames_of Z a) Words.tag ≡ some a.tag
    tag_str_read a h =
        get_string_frame_present Z 100 (frames_of Z a) Words.tag a.tag
          (Carries-frames_of Z a Words.tag ∙ tag_shown a) h.tag_text h.tag_short

    get_round-Takes :
        Takes answer_frames (λ s. s.finished) next (get_round Z c phase) (λ s a. IsTagged a)
    unfolding get_round
    get_round-Takes s a h =
        rw (read_reply-answer_frames Z 100 a (omega arith), tag_str_read a h)
          (elim (Bool-cases (matches c phase a)) [ inl t ↦ rw (t, h.reads) | inr t ↦ rw t ])

    Patient-Busy :
        (n : ℕ) (tags : List Tag) (es : List (Option Answer))
        → Patient c phase n es
        → Busy answer_frames
            (λ s. s.finished)
            next
            (get_round Z c phase)
            (λ s a. IsTagged a)
            (collected n tags)
            es
    Patient-Busy n tags [] p = tt
    Patient-Busy n tags (none ∷ es) (few, p) =
        (lt→leb (majority c.num_servers) n few, Patient-Busy n tags es p)
    Patient-Busy n tags (some a ∷ es) (h, p) = (
      h,
      elim (Bool-cases (matches c phase a)) [
        | inl t ↦
            rw (next_match n tags a t) (Patient-Busy (n + 1) (tags ++ tag_of a ∷ []) es (rw t at p))
        | inr t ↦ rw t (Patient-Busy n tags es (rw t at p))
      ],
    )

    get_phase_lem :
        (garbage : Bytes) (sent : List (List Bytes)) (es : List (Option Answer)) (later : List Poll)
        → send_multicast_servers c.num_servers types (
            text c.client_id ∷ text c.obj_name ∷ text Words.sodaw ∷ text phase ∷ uint c.op_num ∷ [])
          ≡ some sent
        → Patient c phase 0 es
        → enough c phase (items es) ≡ true
        → sodaw_write_get_or_read_get_phase Z garbage c phase
            (polls_of answer_frames es ++ timed_out ∷ later)
          ≡ some (record {
            sent = sent;
            outcome = done (get_max_tag garbage (map tag_of (matching c phase (items es))));
            rest = later;
          })
    unfolding sodaw_write_get_or_read_get_phase
    get_phase_lem garbage sent es later sends p e =
        let start : collected 0 [] ≡ record { responses = 0; tag_list = []; finished = false } =
          ap (λ b. record { responses = 0; tag_list = []; finished = b })
            (lt→leb (majority c.num_servers) 0 (majority_overlap c.num_servers).1) in
        let count : 0 + length (matching c phase (items es))
            ≡ length (matching c phase (items es)) =
          omega arith in
        let all : foldl next (collected 0 []) (items es)
            ≡ collected (length (matching c phase (items es)))
                (map tag_of (matching c phase (items es))) =
          foldl-next 0 [] (items es) ∙ rw count refl in
        let full : (foldl next (collected 0 []) (items es)).finished ≡ true = rw all e in
        rw
          (
            sends,
            ← start,
            poll_loop_lem answer_frames (λ s. s.finished) next (get_round Z c phase)
                (λ s a. IsTagged a) get_round-Takes (collected 0 []) es later
                (Patient-Busy 0 [] es p) full,
            all,
          )
          refl

-- A request for tags, of either operation.
abbrev pub IsGet : Caller → Request → Type 0
IsGet c (Request.write_get op) = op ≡ c.op_num
IsGet c (Request.read_get op) = op ≡ c.op_num
IsGet c (Request.write_value _ _ _) = ⊥
IsGet c (Request.get_tag _) = ⊥
IsGet c (Request.get_tag_value _) = ⊥
IsGet c (Request.write_put _ _ _) = ⊥
IsGet c (Request.read_value _ _) = ⊥
IsGet c (Request.read_complete _ _) = ⊥
IsGet c (Request.read_disperse _ _ _ _) = ⊥

get_sent :
    (c : Caller) (q : Request)
    → IsGet c q
    → send_multicast_servers c.num_servers types (
        text c.client_id
        ∷ text c.obj_name
        ∷ text Words.sodaw
        ∷ text (phase_of q)
        ∷ uint c.op_num
        ∷ [])
      ≡ some (to_all c q)
unfolding multicast algorithm_of phase_of arguments body
get_sent c (Request.write_get op) h =
    rw (← h) (multicast_lem c.num_servers c.client_id c.obj_name (write_get op))
get_sent c (Request.read_get op) h =
    rw (← h) (multicast_lem c.num_servers c.client_id c.obj_name (read_get op))
get_sent c (Request.write_value _ _ _) h = absurd h
get_sent c (Request.get_tag _) h = absurd h
get_sent c (Request.get_tag_value _) h = absurd h
get_sent c (Request.write_put _ _ _) h = absurd h
get_sent c (Request.read_value _ _) h = absurd h
get_sent c (Request.read_complete _ _) h = absurd h
get_sent c (Request.read_disperse _ _ _ _) h = absurd h

module _ (Z : Zhash) (c : Caller) where
  -- The phase ends, at a poll that times out behind a majority, with the greatest of the tags.
  pub sodaw_write_get_or_read_get_phase_lem :
      (garbage : Bytes) (q : Request) (es : List (Option Answer)) (later : List Poll)
      → IsGet c q
      → Patient c (phase_of q) 0 es
      → enough c (phase_of q) (items es) ≡ true
      → sodaw_write_get_or_read_get_phase Z garbage c
          (phase_of q)
          (polls_of answer_frames es ++ timed_out ∷ later)
        ≡ some (record {
          sent = to_all c q;
          outcome = done (get_max_tag garbage (map tag_of (matching c (phase_of q) (items es))));
          rest = later;
        })
  sodaw_write_get_or_read_get_phase_lem garbage q es later g p e =
      get_phase_lem c (phase_of q) Z garbage (to_all c q) es later (get_sent c q g) p e

  pub write_put-Counts :
      Counts
        (majority c.num_servers)
        (matches c Words.write_put)
        (λ u a. u)
        answer_frames
        (λ a. Unit {0})
        (write_put_round Z c)
  unfolding write_put_round
  write_put-Counts n u a h =
      rw (read_reply-answer_frames Z 100 a (omega arith))
        (elim (Bool-cases (matches c Words.write_put a)) [ inl t ↦ rw t | inr t ↦ rw t ])
