-- ===== src/Examples/Abd.antt =====
-- The phases and operations of ABD at concrete replies.
use colas.Common.{
  ◌≡◌, refl, arith, true, some, [], ◌++◌, map, streq, codes, All, OneOf, length, none,
}
use colas.Common.Int.{◌<ℤ◌}
use colas.Tag.{Tag}
use colas.Tag.Order.{Before}
use colas.Tag.Text.{tag_text, string_to_tag}
use colas.Abd.Client.{abd_write, abd_read}
use colas.Abd.Ends.{to_all, first_majority, behind, enough}
use colas.Abd.Latest.{taken}
use colas.Abd.Operations.{read_from, abd_write-returns, abd_read-returns}
use colas.Abd.Phases.{tag_of}
use colas.Client.Loop.{done, remaining}
use colas.Client.Majority.{majority}
use colas.Client.Reply.{Answer, kind_phase, answer_frames}
use colas.Wire.Delivery.{write_value, get_tag, get_tag_value}
use colas.Words
use colas.Zhash.Assoc.{assoc}
use colas.Tag.Decimal.{atoi, scan}
use colas.Examples.Data.{
  bytes, smallest_block, memory_of, caller, blob, answers, read_answers, answers-IsAnswer,
  read_answers-IsAnswer, answers-InRange, read_answers-InRange,
}

pub enough_tags : enough caller Words.get_tag answers ≡ true
unfolding kind_phase majority streq
enough_tags = refl

pub enough_acks : enough caller Words.write_value (behind caller Words.get_tag answers) ≡ true
unfolding kind_phase majority remaining streq
enough_acks = refl

pub enough_values : enough caller Words.get_tag_value read_answers ≡ true
unfolding kind_phase majority streq
enough_values = refl

pub enough_read_acks :
    enough caller Words.write_value (behind caller Words.get_tag_value read_answers) ≡ true
unfolding kind_phase majority remaining streq
enough_read_acks = refl

abd_write-returns_example :
    (t : Tag) × (t.id ≡ codes "w1")
    × All (λ a. (tag_of a).z <ℤ t.z) (first_majority caller Words.get_tag answers)
    × (abd_write assoc smallest_block [] caller blob (map answer_frames answers)
        ≡ some (record {
          sent = to_all caller (get_tag 7) ++ to_all caller (write_value 7 (tag_text t) blob);
          outcome = done (some t);
          rest =
              map answer_frames
                (behind caller Words.write_value (behind caller Words.get_tag answers));
        }))
unfolding kind_phase majority streq string_to_tag atoi scan
abd_write-returns_example =
    abd_write-returns assoc caller [] answers smallest_block blob answers-IsAnswer answers-InRange
      enough_tags enough_acks (omega arith)

abd_read-returns_example :
    (a : Answer) × OneOf a (read_from caller read_answers)
    × All (λ x. ¬ Before (tag_of a) (tag_of x)) (read_from caller read_answers)
    × (abd_read assoc memory_of [] caller (map answer_frames read_answers)
        ≡ some (record {
          sent =
              to_all caller (get_tag_value 7)
              ++ to_all caller (write_value 7 (tag_text (tag_of a)) (bytes (length a.value)));
          outcome = done (taken a);
          rest =
              map answer_frames
                (behind caller Words.write_value (behind caller Words.get_tag_value read_answers));
        }))
abd_read-returns_example =
    abd_read-returns assoc caller [] read_answers memory_of read_answers-IsAnswer
      read_answers-InRange enough_values enough_read_acks

-- With no more than the four bytes that the writer asks for, it faults.
abd_write_faults : abd_write assoc 4 [] caller blob (map answer_frames answers) ≡ none
unfolding kind_phase majority streq string_to_tag atoi scan
abd_write_faults =
    (abd_write-returns assoc caller [] answers 4 blob answers-IsAnswer answers-InRange enough_tags
      enough_acks (omega arith)).3

-- Where nothing behind the struct of a frame may be read, so does the reader.
abd_read_faults : abd_read assoc (λ v. none) [] caller (map answer_frames read_answers) ≡ none
abd_read_faults =
    (abd_read-returns assoc caller [] read_answers (λ v. none) read_answers-IsAnswer
      read_answers-InRange enough_values enough_read_acks).3
