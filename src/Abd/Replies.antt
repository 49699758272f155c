-- ===== src/Abd/Replies.antt =====
-- What src/abd/abd_server.c replies, and the tags that it has before and after.
use colas.Common.{◌≡◌, refl, ◌∷◌, arith, Bytes}
use colas.Common.Int.{◌≤ℤ◌}
use colas.Tag.{Tag, compare_tags}
use colas.Tag.Text.{tag_text}
use colas.Store.Entry.{Entry}
use colas.Abd.Server.{ServerArgs}
use colas.Abd.Spec.{IsAbd, written, next_entry, answer}
use colas.Client.Reply.{Answer, Kind, kind_algorithm, kind_phase, answer_frames}
use colas.Wire.Delivery.{Request, write_value, get_tag, get_tag_value, phase_of}

-- A reply of a server, without the identity of the client in front.
unfoldable pub reply_of : ServerArgs → Bytes → Entry → (q : Request) → IsAbd q → Answer
reply_of args o e (write_value op t v) iq = record {
  server = args.server_id;
  object = o;
  kind = Kind.write_value;
  op = op;
  tag = t;
  value = e.value;
}
reply_of args o e (get_tag op) iq = record {
  server = args.server_id;
  object = o;
  kind = Kind.get_tag;
  op = op;
  tag = tag_text e.tag;
  value = e.value;
}
reply_of args o e (get_tag_value op) iq = record {
  server = args.server_id;
  object = o;
  kind = Kind.get_tag_value;
  op = op;
  tag = tag_text e.tag;
  value = e.value;
}
reply_of args o e (Request.write_get _) iq = absurd iq
reply_of args o e (Request.read_get _) iq = absurd iq
reply_of args o e (Request.write_put _ _ _) iq = absurd iq
reply_of args o e (Request.read_value _ _) iq = absurd iq
reply_of args o e (Request.read_complete _ _) iq = absurd iq
reply_of args o e (Request.read_disperse _ _ _ _) iq = absurd iq

-- The answers of the specification are replies as the clients take them apart.
pub answer-reply_of :
    (args : ServerArgs) (sender o : Bytes) (e : Entry) (q : Request) (iq : IsAbd q)
    → answer args sender o e q ≡ sender ∷ answer_frames (reply_of args o e q iq)
unfolding reply_of answer_frames phase_of kind_algorithm kind_phase
answer-reply_of args sender o e (write_value op t v) iq = refl
answer-reply_of args sender o e (get_tag op) iq = refl
answer-reply_of args sender o e (get_tag_value op) iq = refl
answer-reply_of args sender o e (Request.write_get _) iq = absurd iq
answer-reply_of args sender o e (Request.read_get _) iq = absurd iq
answer-reply_of args sender o e (Request.write_put _ _ _) iq = absurd iq
answer-reply_of args sender o e (Request.read_value _ _) iq = absurd iq
answer-reply_of args sender o e (Request.read_complete _ _) iq = absurd iq
answer-reply_of args sender o e (Request.read_disperse _ _ _ _) iq = absurd iq

-- The number of the tag that a server has for an object never decreases.
written_le : (e : Entry) (t : Bytes) (tag : Tag) (v : Bytes) → e.tag.z ≤ℤ (written e t tag v).tag.z
unfolding compare_tags
written_le e t tag v = ground arith

-- After a write that was acknowledged, that number is at least the write's.
pub written_ge :
    (e : Entry) (t : Bytes) (tag : Tag) (v : Bytes) → tag.z ≤ℤ (written e t tag v).tag.z
unfolding compare_tags
written_ge e t tag v = ground arith

pub next_entry_le : (e : Entry) (q : Request) (iq : IsAbd q) → e.tag.z ≤ℤ (next_entry e q iq).tag.z
next_entry_le e (write_value op t v) iq = written_le e t iq.0 v
next_entry_le e (get_tag op) iq = omega arith
next_entry_le e (get_tag_value op) iq = omega arith
next_entry_le e (Request.write_get _) iq = absurd iq
next_entry_le e (Request.read_get _) iq = absurd iq
next_entry_le e (Request.write_put _ _ _) iq = absurd iq
next_entry_le e (Request.read_value _ _) iq = absurd iq
next_entry_le e (Request.read_complete _ _) iq = absurd iq
next_entry_le e (Request.read_disperse _ _ _ _) iq = absurd iq
