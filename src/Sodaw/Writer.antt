-- ===== src/Sodaw/Writer.antt =====
-- `SODAW_write`, of src/sodaw/sodaw_writer.c, from the first message sent to its return.
use colas.Common.{
  ◌+◌, ◌≤◌, ◌<◌, ◌≡◌, refl, ap, true, Option, some, List, [], ◌∷◌, ◌++◌, map, arith, Bytes, length,
  leb→le, All, All-imp, concat, take,
}
use colas.Common.Int.{◌<ℤ◌}
use colas.Tag.{Tag}
use colas.Tag.Text.{tag_text}
use colas.Abd.Client.{Caller}
use colas.Abd.Ends.{to_all, matching, enough, behind}
use colas.Abd.Tags.{InRange, greatest_of, greatest_of_lem, new_tag_lem}
use colas.Abd.Phases.{tag_of}
use colas.Client.Loop.{done}
use colas.Client.Majority.{majority, majority_overlap}
use colas.Client.Polls.{timed_out, arrivals-polls_of, items, polls_of}
use colas.Client.Reply.{Answer, answer_frames}
use colas.Codec.{EncodeData, Kodo}
use colas.Codec.RoundTrip.{IsRaw}
use colas.Sodaw.Client.{sodaw_write}
use colas.Sodaw.Phases.{Patient, sodaw_write_get_or_read_get_phase_lem}
use colas.Wire.Delivery.{write_get, phase_of}
use colas.Words
use colas.Zhash.{Zhash}
use colas.Sodaw.PutPhase.{to_each, elements, sodaw_write_put_phase_lem}

-- A majority has a member.
pub some_member :
    (c : Caller) (phase : Bytes) (answers : List Answer)
    → enough c phase answers ≡ true
    → (a : Answer) × (more : List Answer) × (matching c phase answers ≡ a ∷ more)
some_member c phase answers e =
    go (matching c phase answers)
      (leb→le (majority c.num_servers) (length (matching c phase answers)) e)
  where
    go :
        (xs : List Answer)
        → majority c.num_servers ≤ length xs
        → (a : Answer) × (more : List Answer) × (xs ≡ a ∷ more)
    go [] h = absurd (omega (arith, (majority_overlap c.num_servers).1))
    go (x ∷ xs) h = (x, xs, refl)

module _ (Z : Zhash) (kodo : Kodo) (c : Caller) where
  -- `SODAW_write` returns when a majority of replies with readable tags come to its first phase
  -- before a poll times out, all numbers from 0 to less than INT_MAX, and a majority acknowledges
  -- its second; the polls that time out earlier in the first phase do so before it has a majority.
  -- The structure has bytes to encode and a stripe for each server, and the writer's id leaves
  -- room in the buffers. The tag carries that id and a greater number than every reply that
  -- matched; every server gets its own stripe of blocks that begin with the value.
  pub sodaw_write-returns :
      (garbage payload : Bytes) (info : EncodeData) (es es' : List (Option Answer))
      → Patient c Words.write_get 0 es
      → enough c Words.write_get (items es) ≡ true
      → All InRange (matching c Words.write_get (items es))
      → enough c Words.write_put (items es') ≡ true
      → IsRaw (record info { raw_data = payload; raw_data_size = length payload })
      → info.n ≡ c.num_servers
      → length c.client_id + 12 < 100
      → (t : Tag) × (blocks : List Bytes) × (t.id ≡ c.client_id)
        × All (λ a. (tag_of a).z <ℤ t.z) (matching c Words.write_get (items es))
        × (take (length payload) (concat blocks) ≡ payload)
        × (sodaw_write Z kodo garbage c payload
              (length payload)
              info
              (polls_of answer_frames es ++ timed_out ∷ polls_of answer_frames es')
            ≡ some (record {
              sent =
                  to_all c (write_get c.op_num)
                  ++ to_each c (tag_text t) (elements kodo info blocks);
              outcome = done (some t);
              rest = map answer_frames (behind c Words.write_put (items es'));
            }))
  unfolding sodaw_write phase_of
  sodaw_write-returns garbage payload info es es' patient e range e' raw servers short =
      let (a, more, same) = some_member c Words.write_get (items es) e in
      let (later, low, high) = greatest_of_lem garbage a more (rw same at range) in
      let greatest = greatest_of garbage (a ∷ more) in
      let (t, made, named, above) = new_tag_lem c greatest low high (omega arith) in
      let (blocks, sized, front, put) =
        sodaw_write_put_phase_lem Z kodo c t
          (record info { raw_data = payload; raw_data_size = length payload }) (items es') raw
          servers (omega (arith, ap (λ s. length s) named)) in
      (
        t,
        blocks,
        named,
        rw same (All-imp (λ x h. omega (arith, h, above)) (a ∷ more) later),
        front,
        rw
            (
              sodaw_write_get_or_read_get_phase_lem Z c garbage (write_get c.op_num) es
                  (polls_of answer_frames es') refl patient e,
              same,
              made,
              arrivals-polls_of answer_frames es',
              put,
              e',
            )
            refl,
      )
