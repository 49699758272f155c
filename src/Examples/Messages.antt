-- ===== src/Examples/Messages.antt =====
-- Messages, the stores of servers and the faults at concrete inputs.
use colas.Common.{
  ◌%◌, ◌^◌, ◌≡◌, refl, arith, true, false, some, none, [], ◌∷◌, ◌++◌, ◌||◌, if◌then◌else◌, Bytes,
  codes, streq, strcmp, is_some,
}
use colas.Common.Int.{pos, negsuc, ◌<ℤ◌}
use colas.Tag.{Tag, init_tag}
use colas.Tag.Decimal.{atoi, scan}
use colas.Tag.Order.{Before}
use colas.Tag.Text.{string_to_tag}
use colas.Store.{Objects, create_object}
use colas.Store.Create.{created, create_object-Shows}
use colas.Store.Entry.{View, put_entry, Shows}
use colas.Abd.Client.{get_tag_value_round}
use colas.Abd.Faults.{write-lost, read-short}
use colas.Abd.Refinement.{StateShows, algorithm_abd-refines}
use colas.Abd.Server.{State, algorithm_abd, initialize_abd}
use colas.Abd.Spec.{IsAbd, entry_at, next_entry, answer}
use colas.Client.Reply.{
  Kind, answer_frames, read_reply, read_reply-answer_frames, frames_of, shown, kind_phase,
}
use colas.Wire.Carries.{fill, Carries-fill_new}
use colas.Wire.Delivery.{
  Request, write_value, read_disperse, algorithm_of, phase_of, body, header, values, fields,
  multicast, multicast_lem, Taken, receive-request,
}
use colas.Wire.Read.{Frames}
use colas.Wire.Send.{replicate}
use colas.Words
use colas.Zhash.Assoc.{assoc, find}
use colas.Examples.Data.{object, args, caller, written_tag, blob, bytes, text, reads_text, reply}

multicast_lem_example :
    multicast 3 (codes "w1") object (write_value 7 text blob)
    ≡ some (
        replicate 3 (
          codes "w1"
          ∷ object
          ∷ algorithm_of (write_value 7 text blob)
          ∷ phase_of (write_value 7 text blob)
          ∷ values (body (write_value 7 text blob))))
multicast_lem_example = multicast_lem 3 (codes "w1") object (write_value 7 text blob)

receive-request_example : Taken assoc (
    header
      (codes "id")
      (codes "s1")
      object
      (algorithm_of (read_disperse text (codes "r1") text 9))
      (phase_of (read_disperse text (codes "r1") text 9))
    ++ body (read_disperse text (codes "r1") text 9))
receive-request_example =
    receive-request assoc (read_disperse text (codes "r1") text 9) (codes "id") (codes "s1") object
      (omega arith) (omega arith)

read_reply-answer_frames_example :
    read_reply assoc 64 (answer_frames (reply 1 Kind.get_tag_value text))
    ≡ some (record {
      frames = frames_of assoc (reply 1 Kind.get_tag_value text);
      names = fields (shown (reply 1 Kind.get_tag_value text));
      phase = kind_phase Kind.get_tag_value;
      round = 7 % 2 ^ 32;
    })
read_reply-answer_frames_example =
    read_reply-answer_frames assoc 64 (reply 1 Kind.get_tag_value text) (omega arith)

abbrev empty : View
empty o = none

empty-Shows : Shows assoc [] empty
unfolding find
empty-Shows o = tt

known : (streq Words.abd Words.abd || streq Words.abd Words.sodaw) ≡ true
unfolding streq
known = refl

create_object-Shows_example :
    (objects : Objects assoc) × (create_object assoc [] object Words.abd blob
      ≡ some (objects, if is_some (empty object) then 0 else 1))
    × Shows assoc objects (created empty object blob)
create_object-Shows_example =
    create_object-Shows assoc [] empty object Words.abd blob empty-Shows known

abbrev write : Request
write = write_value 1 text blob

abbrev write-IsAbd : IsAbd write
write-IsAbd = (written_tag, reads_text, omega arith, omega arith)

abbrev new_state : State assoc
new_state = record { initialized = false; objects = [] }

new_state-Shows : StateShows assoc new_state empty
unfolding initialize_abd find
new_state-Shows = empty-Shows

abbrev request_frames : Request → Frames assoc
request_frames q =
    fill assoc [] (header (codes "id") (codes "w0") object (algorithm_of q) (phase_of q) ++ body q)

algorithm_abd-refines_example :
    (st : State assoc) × (algorithm_abd assoc (args 0) (request_frames write) new_state
      ≡ some (st, answer (args 0) (codes "id") object (entry_at empty object blob) write ∷ []))
    × StateShows assoc st
        (put_entry empty object (next_entry (entry_at empty object blob) write write-IsAbd))
algorithm_abd-refines_example =
    algorithm_abd-refines assoc (args 0) (codes "id") (codes "w0") object (omega arith)
      (omega arith) write write-IsAbd (request_frames write) new_state empty
      (Carries-fill_new assoc _) new_state-Shows

-- The tag that every object begins with has the id `client_0`; `write_1` stands behind it.
abbrev late_text : Bytes
late_text = codes "0_writer"

abbrev late_tag : Tag
late_tag = record { z = pos 0; id = codes "writer" }

reads_late : string_to_tag late_text ≡ some late_tag
unfolding string_to_tag atoi scan
reads_late = refl

abbrev late : Request
late = write_value 1 late_text blob

abbrev late-IsAbd : IsAbd late
late-IsAbd = (late_tag, reads_late, omega arith, omega arith)

late_strcmp : strcmp (entry_at empty object blob).tag.id late_tag.id <ℤ negsuc 0
unfolding strcmp
late_strcmp = omega arith

write-lost_example :
    Before (entry_at empty object blob).tag late_tag
    × ((st : State assoc) × (algorithm_abd assoc (args 0) (request_frames late) new_state
          ≡ some (st, answer (args 0) (codes "id") object (entry_at empty object blob) late ∷ []))
        × StateShows assoc st (put_entry empty object (entry_at empty object blob)))
write-lost_example =
    write-lost assoc (args 0) (codes "id") (codes "w0") object 1 late_text blob late-IsAbd
      (request_frames late) new_state empty (omega arith) (omega arith) (Carries-fill_new assoc _)
      new_state-Shows refl late_strcmp

read-short_example :
    get_tag_value_round assoc caller
      (0, record { tag = init_tag; value = none })
      (answer_frames (record {
        server = codes "s1";
        object = object;
        kind = Kind.get_tag_value;
        op = 7;
        tag = text;
        value = bytes 99;
      }))
    ≡ none
read-short_example =
    read-short assoc caller 0 (record { tag = init_tag; value = none }) (codes "s1") object text
      (bytes 99) written_tag 7 (omega arith, omega arith) (omega arith, omega arith) (omega arith)
      (omega arith) reads_text (omega arith)
