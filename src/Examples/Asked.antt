-- ===== src/Examples/Asked.antt =====
-- Two servers of ABD are asked after a write.
use colas.Common.{ℕ, ◌≡◌, refl, arith, some, List, [], ◌∷◌, map, Bytes, codes, streq, All, OneOf}
use colas.Common.Int.{pos, ◌<ℤ◌, ◌≤ℤ◌}
use colas.Tag.{Tag, init_tag}
use colas.Tag.Decimal.{print_int, digits, atoi, scan}
use colas.Tag.Text.{tag_text, string_to_tag}
use colas.Store.Entry.{View}
use colas.Abd.Atomic.{Returns, later_write, later_read}
use colas.Abd.Client.{abd_write, abd_read}
use colas.Abd.Quorum.{Replied, some_reply}
use colas.Abd.Whole.{Reported}
use colas.Abd.Phases.{tag_of}
use colas.Abd.System.{System, Serves, here, Run-keeps, At, AtLeast, held, can_serve}
use colas.Abd.Replies.{reply_of}
use colas.Client.Majority.{majority}
use colas.Words
use colas.Abd.Ends.{first_majority}
use colas.Client.Reply.{Answer, Kind, kind_phase, answer_frames}
use colas.Wire.Delivery.{get_tag, get_tag_value}
use colas.Zhash.Assoc.{assoc}
use colas.Examples.Data.{
  smallest_block, memory_of, object, args, caller, written_tag, blob, reply, text, init_text,
  answers, read_answers, answers-IsAnswer, read_answers-IsAnswer, answers-InRange,
  read_answers-InRange,
}
use colas.Examples.Abd.{enough_tags, enough_acks, enough_values, enough_read_acks}
use colas.Examples.Run.{
  IsWritten, to_after, first_At, start, empty, start-At, write, write-IsRequest, first, after,
  wrote, second_lem, untouched, acked, majority-IsQuorum, other-IsQuorum, ask-IsRequest,
  read-IsRequest,
}

-- What servers 1 and 2 reply.
replied :
    (i : ℕ) (view : View) (t : Bytes)
    → At assoc args after i view
    → tag_text (held assoc args view i object).tag ≡ t
    → (held assoc args view i object).value ≡ blob
    → Replied assoc args after object i (reply i Kind.get_tag t)
unfolding reply_of
replied i view t at e f = record {
  before = after;
  after =
      (can_serve assoc args after i (codes "id") (codes "w1") object (get_tag 7) ask-IsRequest view
        at).0;
  sender = codes "id";
  q = get_tag 7;
  asks = tt;
  fits = ask-IsRequest;
  run = here;
  serves =
      rw (e, f) at
        ((can_serve assoc args after i (codes "id") (codes "w1") object (get_tag 7) ask-IsRequest
          view at).1);
}

replied_value :
    (i : ℕ) (view : View) (t : Bytes)
    → At assoc args after i view
    → tag_text (held assoc args view i object).tag ≡ t
    → (held assoc args view i object).value ≡ blob
    → Replied assoc args after object i (reply i Kind.get_tag_value t)
unfolding reply_of
replied_value i view t at e f = record {
  before = after;
  after =
      (can_serve assoc args after i (codes "id") (codes "r1") object (get_tag_value 7)
        read-IsRequest view at).0;
  sender = codes "id";
  q = get_tag_value 7;
  asks = tt;
  fits = read-IsRequest;
  run = here;
  serves =
      rw (e, f) at
        ((can_serve assoc args after i (codes "id") (codes "r1") object (get_tag_value 7)
          read-IsRequest view at).1);
}

prints : tag_text written_tag ≡ text
unfolding tag_text print_int digits
prints = refl

prints_init : tag_text init_tag ≡ init_text
unfolding tag_text print_int digits
prints_init = refl

wrote_held : (held assoc args wrote 1 object).tag ≡ written_tag
unfolding streq
wrote_held = refl

wrote_value : (held assoc args wrote 1 object).value ≡ blob
unfolding streq
wrote_value = refl

untouched-At : At assoc args after 2 empty
untouched-At = rw untouched (start-At 2)

abbrev asked : List (ℕ × Answer)
asked = (1, reply 1 Kind.get_tag text) ∷ (2, reply 2 Kind.get_tag init_text) ∷ []

abbrev pub asked_values : List (ℕ × Answer)
asked_values = (1, reply 1 Kind.get_tag_value text) ∷ (2, reply 2 Kind.get_tag_value init_text) ∷ []

replies : All (λ p. Replied assoc args after object p.0 p.1) asked
replies = (
  replied 1 wrote text second_lem.0 (rw (wrote_held) prints) wrote_value,
  (replied 2 empty init_text untouched-At prints_init refl, tt),
)

value_replies : All (λ p. Replied assoc args after object p.0 p.1) asked_values
value_replies = (
  replied_value 1 wrote text second_lem.0 (rw (wrote_held) prints) wrote_value,
  (replied_value 2 empty init_text untouched-At prints_init refl, tt),
)

collected : map (λ p. p.1) asked ≡ first_majority caller Words.get_tag answers
unfolding kind_phase majority streq
collected = refl

pub collected_values :
    map (λ p. p.1) asked_values ≡ first_majority caller Words.get_tag_value read_answers
unfolding kind_phase majority streq
collected_values = refl

some_reply_example : (a : Answer) × OneOf a (map (λ p. p.1) asked) × (written_tag.z ≤ℤ (tag_of a).z)
some_reply_example =
    some_reply assoc args 3 after object written_tag (0 ∷ 1 ∷ []) asked majority-IsQuorum acked
      other-IsQuorum replies

later_write_example :
    (t : Tag) × (written_tag.z <ℤ t.z)
    × Returns (abd_write assoc smallest_block [] caller blob (map answer_frames answers)) (some t)
unfolding kind_phase majority streq string_to_tag atoi scan
later_write_example =
    later_write assoc args caller after written_tag (0 ∷ 1 ∷ []) majority-IsQuorum acked asked
      other-IsQuorum replies [] answers answers-IsAnswer answers-InRange smallest_block blob
      collected enough_tags enough_acks (omega arith)

later_read_example :
    (t : Tag) × (v : Bytes) × (written_tag.z ≤ℤ t.z)
    × Returns
        (abd_read assoc memory_of [] caller (map answer_frames read_answers))
        (record { tag = t; value = some v })
later_read_example =
    later_read assoc args caller after written_tag (0 ∷ 1 ∷ []) majority-IsQuorum acked asked_values
      other-IsQuorum value_replies [] read_answers read_answers-IsAnswer read_answers-InRange
      memory_of collected_values enough_values enough_read_acks

wrote_least : pos 3 ≤ℤ (held assoc args wrote 0 object).tag.z
unfolding streq
wrote_least = omega arith

Run-keeps_example : AtLeast assoc args after 0 object (pos 3)
Run-keeps_example =
    Run-keeps assoc args first.0 after 0 object (pos 3) to_after (wrote, first_At, wrote_least)

can_serve_example :
    (s' : System assoc args) × Serves assoc args start 2
      (codes "id")
      object
      write
      ((codes "id"
          ∷ answer_frames
              (reply_of (args 2) object (held assoc args empty 2 object) write write-IsRequest.0))
        ∷ [])
      s'
can_serve_example =
    can_serve assoc args start 2 (codes "id") (codes "w0") object write write-IsRequest empty
      (start-At 2)

pub reports : All (λ p. Reported assoc args IsWritten after object p.0 p.1) asked_values
unfolding replied_value
reports = (
  record {
    replied = replied_value 1 wrote text second_lem.0 (rw (wrote_held) prints) wrote_value;
    all_writes = tt;
  },
  (
    record {
      replied = replied_value 2 empty init_text untouched-At prints_init refl;
      all_writes = tt;
    },
    tt,
  ),
)
