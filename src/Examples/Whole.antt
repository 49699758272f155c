-- ===== src/Examples/Whole.antt =====
-- A write and a read of SODAW after the write that two of three servers took.
use colas.Common.{refl, arith, List, [], ◌∷◌, ◌++◌, Bytes, codes, All, OneOf}
use colas.Common.Int.{pos, ◌<ℤ◌, ◌≤ℤ◌}
use colas.Tag.{Tag}
use colas.Abd.Phases.{tag_of}
use colas.Client.Polls.{timed_out, items, polls_of}
use colas.Client.Reply.{Answer, answer_frames}
use colas.Codec.{reed_solomon}
use colas.Sodaw.Atomic.{Wrote, Decoded, sodaw_write-later}
use colas.Sodaw.Client.{sodaw_write}
use colas.Sodaw.Only.{replies-Sent}
use colas.Sodaw.Operations.{decoded_as}
use colas.Sodaw.Read.{asked_tag}
use colas.Sodaw.Reader.{sodaw_read}
use colas.Sodaw.Sent.{Sent}
use colas.Sodaw.System.{put_server}
use colas.Sodaw.Whole.{IsStripe, sodaw_read-written}
use colas.Wire.Delivery.{Request}
use colas.Zhash.Assoc.{assoc}
use colas.Examples.Codec.{repeated, repeated_recovers, info, value, raw-IsRaw}
use colas.Examples.Data.{object, caller, written_tag, text}
use colas.Examples.Reader
use colas.Examples.Reader.{written, shares}
use colas.Examples.Storage.{server_args, start, served, received, told, share, after}
use colas.Examples.Writer
use colas.Examples.Writer.{acknowledged}
use colas.Examples.After.{
  acked, sends, for_write, for_write-Replied, for_read, for_read-Replied, acked-IsQuorum,
  read-IsQuorum, write-IsQuorum, write_collected, read_collected, start-Only, run, run_puts,
  after-Only, read-IsRequest, delivered, positive,
}

sodaw_write-later_example :
    (t : Tag) × (pos 3 <ℤ t.z)
    × Wrote
        (sodaw_write assoc repeated [] caller value 10 info
          (polls_of answer_frames Writer.asked ++ timed_out ∷ polls_of answer_frames acknowledged))
        t
sodaw_write-later_example =
    sodaw_write-later assoc server_args caller after written_tag (0 ∷ 2 ∷ []) acked-IsQuorum acked
      for_write write-IsQuorum for_write-Replied repeated [] info Writer.asked acknowledged value
      write_collected Writer.asked-Patient Writer.asked-enough Writer.asked-InRange
      Writer.acknowledged-enough raw-IsRaw refl (omega arith)

replies-Sent_example :
    All (Sent (IsStripe repeated info written 2)) ((codes "id" ∷ answer_frames (share 2)) ∷ [])
replies-Sent_example =
    replies-Sent assoc server_args (IsStripe repeated info written) start after
      (put_server assoc server_args after 2
        (served 2 (codes "w1") (Request.read_value 7 text) (after 2)))
      2 (codes "id") (codes "w1") object (Request.read_value 7 text)
      ((codes "id" ∷ answer_frames (share 2)) ∷ []) run read-IsRequest
      (sends 2 (Request.read_value 7 text) (share 2) received.3 (told 2).4) run_puts tt
      (start-Only 2)

sodaw_read-written_example :
    (a : Answer) × (elements : List Bytes) × (pos 3 ≤ℤ (tag_of a).z)
    × OneOf a (items shares)
    × Decoded
        (sodaw_read assoc repeated [] caller info (
          polls_of answer_frames Reader.asked
          ++ timed_out ∷ (polls_of answer_frames shares ++ timed_out ∷ [])))
        (decoded_as assoc repeated caller written info
          (asked_tag [] caller Reader.asked)
          elements
          a.tag)
unfolding items
sodaw_read-written_example =
    sodaw_read-written assoc server_args caller after written_tag (0 ∷ 2 ∷ []) acked-IsQuorum acked
      for_read read-IsQuorum for_read-Replied repeated [] info Reader.asked shares written []
      positive after-Only read_collected Reader.asked-Patient Reader.asked-enough
      Reader.asked-InRange Reader.asked-ShortId Reader.shares-Polled Reader.shares_full
      (λ e. (omega arith, delivered 2 (told 2).4), (λ e. (omega arith, delivered 0 (told 0).4), tt))
      Reader.shares_apart (repeated_recovers reed_solomon 2 4 3) Reader.dimension (omega arith) refl
