-- ===== src/Examples/Writer.antt =====
-- A write of SODAW to three servers.
use colas.Common.{
  ◌≡◌, refl, arith, true, Option, none, some, List, [], ◌∷◌, ◌++◌, map, take, concat, All, Bytes,
  codes,
}
use colas.Common.Int.{◌<ℤ◌}
use colas.Tag.{Tag, init_tag}
use colas.Tag.Text.{tag_text}
use colas.Abd.Ends.{to_all, matching, enough, behind}
use colas.Abd.Tags.{InRange}
use colas.Abd.Phases.{tag_of}
use colas.Client.Loop.{done}
use colas.Client.Majority.{majority}
use colas.Client.Polls.{timed_out, items, polls_of}
use colas.Client.Reply.{Answer, Kind, answer_frames, kind_phase}
use colas.Sodaw.Client.{sodaw_write}
use colas.Sodaw.Phases.{IsTagged, Patient}
use colas.Sodaw.Writer.{sodaw_write-returns}
use colas.Sodaw.PutPhase.{elements, to_each}
use colas.Wire.Delivery.{write_get}
use colas.Words
use colas.Zhash.Assoc.{assoc}
use colas.Common.{streq}
use colas.Examples.Codec.{repeated, info, value, raw-IsRaw}
use colas.Examples.Data.{caller, written_tag, reply, text, init_text, reads_text, reads_init}

pub text-IsTagged : (a : Answer) → a.tag ≡ text → IsTagged a
text-IsTagged a e = record {
  tag = written_tag;
  tag_text = rw e (omega arith);
  tag_short = rw e (omega arith);
  reads = rw e reads_text;
}

pub init-IsTagged : (a : Answer) → a.tag ≡ init_text → IsTagged a
init-IsTagged a e = record {
  tag = init_tag;
  tag_text = rw e (omega arith);
  tag_short = rw e (omega arith);
  reads = rw e reads_init;
}

-- Two replies with a pause between them, and a third one.
abbrev pub asked : List (Option Answer)
asked =
    some (reply 0 Kind.write_get text)
    ∷ none
    ∷ some (reply 1 Kind.write_get init_text)
    ∷ some (reply 2 Kind.write_get text)
    ∷ []

abbrev pub acknowledged : List (Option Answer)
acknowledged = some (reply 2 Kind.write_put text) ∷ none ∷ some (reply 0 Kind.write_put text) ∷ []

pub asked-Patient : Patient caller Words.write_get 0 asked
unfolding kind_phase streq majority
asked-Patient = (
  text-IsTagged (reply 0 Kind.write_get text) refl,
  (
    omega arith,
    (
      init-IsTagged (reply 1 Kind.write_get init_text) refl,
      (text-IsTagged (reply 2 Kind.write_get text) refl, tt),
    ),
  ),
)

pub asked-enough : enough caller Words.write_get (items asked) ≡ true
unfolding kind_phase streq majority items
asked-enough = refl

pub asked-InRange : All InRange (matching caller Words.write_get (items asked))
unfolding kind_phase streq items
asked-InRange =
    (rw reads_text (omega arith), (rw reads_init (omega arith), (rw reads_text (omega arith), tt)))

pub acknowledged-enough : enough caller Words.write_put (items acknowledged) ≡ true
unfolding kind_phase streq majority items
acknowledged-enough = refl

sodaw_write-returns_example :
    (t : Tag) × (blocks : List Bytes) × (t.id ≡ codes "w1")
    × All (λ a. (tag_of a).z <ℤ t.z) (matching caller Words.write_get (items asked))
    × (take 10 (concat blocks) ≡ value)
    × (sodaw_write assoc repeated [] caller value 10 info
          (polls_of answer_frames asked ++ timed_out ∷ polls_of answer_frames acknowledged)
        ≡ some (record {
          sent =
              to_all caller (write_get 7)
              ++ to_each caller (tag_text t) (elements repeated info blocks);
          outcome = done (some t);
          rest = map answer_frames (behind caller Words.write_put (items acknowledged));
        }))
sodaw_write-returns_example =
    sodaw_write-returns assoc repeated caller [] value info asked acknowledged asked-Patient
      asked-enough asked-InRange acknowledged-enough raw-IsRaw refl (omega arith)
