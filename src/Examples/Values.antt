-- ===== src/Examples/Values.antt =====
-- A read of ABD after the write that two of three servers took returns what was written.
use colas.Common.{[], ℕ, refl, inr, some, map, Bytes}
use colas.Tag.{Tag}
use colas.Abd.Atomic.{Returns}
use colas.Abd.Client.{abd_read}
use colas.Abd.Only.{Only, Run-Only}
use colas.Abd.Whole.{abd_read-written}
use colas.Client.Reply.{answer_frames}
use colas.Zhash.Assoc.{assoc}
use colas.Examples.Abd.{enough_values, enough_read_acks}
use colas.Examples.Asked.{asked_values, collected_values, reports}
use colas.Examples.Data.{
  memory_of, args, caller, read_answers, read_answers-IsAnswer, read_answers-InRange,
}
use colas.Examples.Run.{IsWritten, run, run_writes, start, empty, start-At, after}

after-Only : (i : ℕ) → Only assoc args IsWritten after i
after-Only i =
    Run-Only assoc args IsWritten start after i run run_writes
      (empty, start-At i, λ o. (inr refl, refl))

abd_read-written_example :
    (t : Tag) × (v : Bytes) × IsWritten t v
    × Returns
        (abd_read assoc memory_of [] caller (map answer_frames read_answers))
        (record { tag = t; value = some v })
abd_read-written_example =
    abd_read-written assoc args IsWritten caller after asked_values [] read_answers memory_of
      after-Only reports collected_values read_answers-IsAnswer read_answers-InRange enough_values
      enough_read_acks
