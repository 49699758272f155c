-- ===== src/Abd/Phases.antt =====
-- How the phases of the clients end, whatever the order in which replies arrive.
use colas.Common.{
  ◌+◌, ltb, length, refl, ℕ, ◌%◌, ◌^◌, ◌≤◌, ◌≡◌, ◌∙◌, Bool, Option, none, some, [], ◌∷◌, ◌++◌, ◌&&◌,
  ◌==◌, arith, Bytes, streq, Bool-cases, inl, inr,
}
use colas.Tag.{Tag, init_tag}
use colas.Tag.Text.{string_to_tag}
use colas.Abd.Client.{
  Caller, write_value_round, get_tag_round, get_tag_value_round, later_of, written_to,
}
use colas.Client.Loop.{Counts, CountsIf}
use colas.Client.Majority.{majority}
use colas.Client.Reply.{
  kind_phase, Answer, answer_frames, read_reply-answer_frames, frames_of, Carries-frames_of,
  tag_shown, value_shown,
}
use colas.Client.Print.{IsAnswer, print-answer}
use colas.Wire.Read.{get_string_frame, get_tag_frame, get_string_frame_present}
use colas.Words
use colas.Zhash.{Zhash}

-- A reply to the operation in the phase.
abbrev pub matches : Caller → Bytes → Answer → Bool
matches c phase a = a.op % 2 ^ 32 == c.op_num && streq (kind_phase a.kind) phase

-- The tag of a reply that can be read.
abbrev pub tag_or : Option Tag → Tag
tag_or none = init_tag
tag_or (some t) = t

abbrev pub tag_of : Answer → Tag
tag_of a = tag_or (string_to_tag a.tag)

-- The tag of a reply ends before the end of a block of `room` bytes.
abbrev pub has_room : ℕ → Answer → Bool
has_room room a = ltb (4 + length (tag_of a).id) room

module _ (Z : Zhash) (c : Caller) where
  pub write_value-Counts :
      Counts
        (majority c.num_servers)
        (matches c Words.write_value)
        (λ u a. u)
        answer_frames
        IsAnswer
        (write_value_round Z c)
  unfolding write_value_round
  write_value-Counts n u a h =
      rw (read_reply-answer_frames Z 100 a (omega arith))
        (elim (Bool-cases (matches c Words.write_value a)) [
          | inl t ↦ rw (t, print-answer Z a h)
          | inr t ↦ rw t
        ])

  tag_str_read :
      (cap : ℕ) (a : Answer)
      → IsAnswer a
      → 64 ≤ cap
      → get_string_frame Z cap (frames_of Z a) Words.tag ≡ some a.tag
  tag_str_read cap a h le =
      get_string_frame_present Z cap (frames_of Z a) Words.tag a.tag
        (Carries-frames_of Z a Words.tag ∙ tag_shown a) h.tag_text (omega (arith, h.tag_short))

  pub get_tag-CountsIf :
      (room : ℕ)
      → CountsIf
          (majority c.num_servers)
          (matches c Words.get_tag)
          (has_room room)
          (λ tags a. tags ++ tag_of a ∷ [])
          answer_frames
          IsAnswer
          (get_tag_round Z room c)
  unfolding get_tag_round written_to
  get_tag-CountsIf room n tags a h =
      rw (read_reply-answer_frames Z 100 a (omega arith), tag_str_read 100 a h (omega arith))
        (elim (Bool-cases (matches c Words.get_tag a)) [
          | inl t ↦ elim (Bool-cases (has_room room a)) [
            | inl r ↦ rw (t, print-answer Z a h, r, h.reads, rw h.reads at r) refl
            | inr r ↦ rw (t, print-answer Z a h, r, h.reads, rw h.reads at r) refl
          ]
          | inr t ↦ rw t
        ])

  tag_frame_read : (a : Answer) → IsAnswer a → get_tag_frame Z (frames_of Z a) ≡ some (tag_of a)
  unfolding get_tag_frame
  tag_frame_read a h = rw (tag_str_read 100 a h (omega arith), h.reads)

  pub get_tag_value-Counts :
      Counts
        (majority c.num_servers)
        (matches c Words.get_tag_value)
        (λ best a. later_of best (tag_of a) a.value)
        answer_frames
        IsAnswer
        (get_tag_value_round Z c)
  unfolding get_tag_value_round
  get_tag_value-Counts n best a h =
      rw (read_reply-answer_frames Z 64 a (omega arith), tag_frame_read a h, print-answer Z a h)
        (elim (Bool-cases (matches c Words.get_tag_value a)) [
          | inl t ↦ rw (t, Carries-frames_of Z a Words.payload, value_shown a (ground arith))
          | inr t ↦ rw t
        ])
