-- ===== src/Sodaw/Elements.antt =====
-- The elements that the loop of `SODAW_read_value` collects, in src/sodaw/sodaw_reader.c.
use colas.Common.{
  ◌≡◌, refl, Bool, true, false, not, List, ◌&&◌, map, keep, if◌then◌else◌, arith, Bytes, streq,
  Bool-cases, inl, inr,
}
use colas.Common.Int.{pos, ltb_ℤ}
use colas.Tag.{Tag, compare_tags}
use colas.Abd.Client.{Caller}
use colas.Abd.Phases.{matches, tag_of}
use colas.Client.Majority.{majority}
use colas.Client.Polls.{Takes}
use colas.Client.Reply.{
  Answer, answer_frames, read_reply-answer_frames, Carries-frames_of, element_shown,
}
use colas.Sodaw.Phases.{IsTagged, tag_str_read}
use colas.Sodaw.Reader.{Received, append_element, read_value_round}
use colas.Wire.Read.{get_tag_frame}
use colas.Words
use colas.Zhash.{Zhash}

-- A reply to the read with an element of the tag.
abbrev pub brings : Caller → Bytes → Answer → Bool
brings c t a = matches c Words.read_value a && streq a.tag t

-- The elements of the tag, in the order of their arrival.
abbrev pub elements_of : Caller → Bytes → List Answer → List Bytes
elements_of c t answers = map (λ a. a.value) (keep (brings c t) answers)

-- A reply that the round takes: its tag can be read, and is not older than that of the read.
abbrev pub IsElement : Caller → Tag → Answer → Type 0
IsElement c read_tag a =
    IsTagged a
    × ((matches c Words.read_value a ≡ true)
        → ltb_ℤ (compare_tags (tag_of a) read_tag) (pos 0) ≡ false)

pub skip : {A : Type 0} (b m : Bool) (x y : A) → b ≡ true → (if not b && m then x else y) ≡ y
skip b m x y e = rw e refl

pub take_it :
    {A : Type 0} (b m : Bool) (x y : A) → b ≡ false → m ≡ true → (if not b && m then x else y) ≡ x
take_it b m x y e f = rw (e, f) refl

pub leave_it :
    {A : Type 0} (b m : Bool) (x y : A) → b ≡ false → m ≡ false → (if not b && m then x else y) ≡ y
leave_it b m x y e f = rw (e, f) refl

module _ (Z : Zhash) (c : Caller) where
  abbrev pub next_received : Received Z → Answer → Received Z
  next_received s a =
      if not s.finished && matches c Words.read_value a
      then append_element Z (majority c.num_servers) s a.tag a.value
      else s

  pub read_value_round-Takes :
      (read_tag : Tag)
      → Takes answer_frames
          (λ s. s.finished)
          next_received
          (read_value_round Z c read_tag)
          (λ s a. IsElement c read_tag a)
  unfolding read_value_round get_tag_frame
  read_value_round-Takes read_tag s a (h, late) =
      rw
        (
          read_reply-answer_frames Z 100 a (omega arith),
          tag_str_read c Words.read_value Z a h,
          h.reads,
        )
        (elim (Bool-cases (not s.finished && matches c Words.read_value a)) [
          | inl t ↦
              rw
                (
                  t,
                  rw h.reads at (late (ground arith)),
                  Carries-frames_of Z a Words.payload,
                  element_shown a (ground arith),
                )
                refl
          | inr t ↦ rw t
        ])
