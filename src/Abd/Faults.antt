-- ===== src/Abd/Faults.antt =====
-- Where src/abd departs from what it means to do.
use colas.Common.{
  ℕ, ◌<◌, ◌≡◌, refl, ap, ◌∙◌, none, some, [], ◌∷◌, ◌++◌, arith, Bytes, strcmp, IsCString, length,
}
use colas.Common.Int.{negsuc, ◌<ℤ◌, pos_part, neg_part}
use colas.Tag.{Tag, compare_tags}
use colas.Tag.Order.{Before}
use colas.Tag.Text.{string_to_tag}
use colas.Store.Entry.{Entry, View, put_entry}
use colas.Abd.Client.{Caller, TagValue, get_tag_value_round}
use colas.Abd.Server.{ServerArgs, State, algorithm_abd}
use colas.Abd.Spec.{IsAbd, entry_at, written, answer}
use colas.Abd.Refinement.{StateShows, algorithm_abd-refines}
use colas.Client.Print.{IsText, print_short}
use colas.Client.Reply.{
  Answer, get_tag_value, answer_frames, read_reply-answer_frames, frames_of, Carries-frames_of,
  tag_shown,
}
use colas.Wire.Carries.{Carries}
use colas.Wire.Delivery.{write_value, algorithm_of, phase_of, body, header}
use colas.Wire.Read.{Frames, get_tag_frame, get_string_frame_present}
use colas.Words
use colas.Words.{bufsize}
use colas.Zhash.{Zhash}

-- Tags of one number, whose ids `strcmp` orders by something else than -1.
written_lost :
    (e : Entry) (t : Bytes) (tag : Tag) (v : Bytes)
    → e.tag.z ≡ tag.z
    → strcmp e.tag.id tag.id <ℤ negsuc 0
    → Before e.tag tag × (written e t tag v ≡ e)
unfolding compare_tags
written_lost e t tag v same less =
    let p = ap pos_part same in let n = ap neg_part same in (ground arith, ground arith)

module _ (Z : Zhash) where
  -- A write that fits the buffers, whose tag has the number of the stored one and a later id, is
  -- acknowledged and not stored, when `strcmp` of the stored id and the write's returns less than
  -- -1.
  pub write-lost :
      (args : ServerArgs) (sender client o : Bytes) (op : ℕ) (t v : Bytes)
      (iq : IsAbd (write_value op t v)) (frames : Frames Z) (st : State Z) (view : View)
      → IsCString o
      → length o < bufsize
      → Carries Z frames (
          header sender client o (algorithm_of (write_value op t v)) (phase_of (write_value op t v))
          ++ body (write_value op t v))
      → StateShows Z st view
      → (entry_at view o args.init_data).tag.z ≡ iq.0.z
      → strcmp (entry_at view o args.init_data).tag.id iq.0.id <ℤ negsuc 0
      → Before (entry_at view o args.init_data).tag iq.0
        × ((st' : State Z) × (algorithm_abd Z args frames st
              ≡ some (
                st',
                answer args sender o (entry_at view o args.init_data) (write_value op t v) ∷ [],
              ))
            × StateShows Z st' (put_entry view o (entry_at view o args.init_data)))
  write-lost args sender client o op t v iq frames st view co lo carries shows same less =
      let e = entry_at view o args.init_data in
      let (before, lost) = written_lost e t iq.0 v same less in
      (
        before,
        rw lost at (
            algorithm_abd-refines Z args sender client o co lo (write_value op t v) iq frames st
              view carries shows),
      )

  -- The reader's round at a reply that it can read, with a value of less than 100 bytes, ends the
  -- process.
  pub read-short :
      (c : Caller) (n : ℕ) (best : TagValue) (s o t v : Bytes) (tag : Tag) (op : ℕ)
      → IsText s
      → IsText o
      → IsCString t
      → length t < 100
      → string_to_tag t ≡ some tag
      → length v < 100
      → get_tag_value_round Z c
          (n, best)
          (answer_frames
            (record { server = s; object = o; kind = get_tag_value; op = op; tag = t; value = v }))
        ≡ none
  unfolding get_tag_value_round get_tag_frame
  read-short c n best s o t v tag op hs ho ct lt reads hv =
      let a : Answer = record {
        server = s;
        object = o;
        kind = get_tag_value;
        op = op;
        tag = t;
        value = v;
      } in
      rw
        (
          read_reply-answer_frames Z 64 a (omega arith),
          get_string_frame_present Z 100 (frames_of Z a) Words.tag t
              (Carries-frames_of Z a Words.tag ∙ tag_shown a) ct lt,
          reads,
          print_short Z s o t v op hs ho (ct, omega arith) hv,
        )
        refl
