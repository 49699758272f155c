-- ===== src/Abd/Operations.antt =====
-- `ABD_write` and `ABD_read`, of src/abd/abd_writer.c and src/abd/abd_reader.c, from the first
-- message sent to the value returned.
use colas.Common.{
  ℕ, Option, none, ◌>>=◌, if◌then◌else◌, Bool-cases, Option-cases, inl, inr, ◌+◌, ◌<◌, ◌≡◌, refl,
  ap, true, some, List, ◌∷◌, ◌++◌, arith, Bytes, length, map, All, All-imp, All-take, All-OneOf,
  OneOf,
}
use colas.Common.Int.{◌<ℤ◌}
use colas.Tag.{Tag}
use colas.Tag.Order.{Before}
use colas.Tag.Text.{tag_text}
use colas.Tag.RoundTrip.{length-string_to_tag}
use colas.Abd.Client.{Caller, abd_write, abd_read}
use colas.Abd.Phases.{matches, tag_of, has_room}
use colas.Abd.Ends.{
  to_all, first_majority, behind, enough, latest, abd_write_value_phase_lem,
  abd_get_max_tag_phase_lem, abd_get_max_tag_value_phase_lem,
}
use colas.Abd.Latest.{taken, latest_lem}
use colas.Client.Loop.{done, every, All-remaining}
use colas.Client.Majority.{majority}
use colas.Client.Reply.{Answer, answer_frames}
use colas.Client.Print.{IsAnswer}
use colas.Wire.Delivery.{write_value, get_tag, get_tag_value}
use colas.Words
use colas.Zhash.{Zhash}
use colas.Abd.Tags.{new_tag-before, InRange, nonempty}

short_id : (a : Answer) → IsAnswer a → length (tag_of a).id + 12 < 100
short_id a h = rw h.reads (omega (arith, length-string_to_tag a.tag h.tag h.reads, h.tag_short))

-- The replies that the reader collects.
abbrev pub read_from : Caller → List Answer → List Answer
read_from c answers = first_majority c Words.get_tag_value answers

module _ (Z : Zhash) (c : Caller) (garbage : Bytes) (answers : List Answer) where
  -- When replies of majorities arrive to both of its phases, all of them printable and readable
  -- with numbers from 0 to less than INT_MAX, and the writer's id leaves room in the buffers,
  -- `ABD_write` returns if the tag of each reply that its first phase collects fits the block of
  -- `room` bytes behind `malloc(sizeof(TAG))`, z and id together, and faults if one does not. Its
  -- tag carries the writer's id and a greater number than every reply that its first phase
  -- collected, and the request for tags and then the tag with the value went to all servers.
  pub abd_write-returns :
      (room : ℕ) (value : Bytes)
      → All IsAnswer answers
      → All InRange answers
      → enough c Words.get_tag answers ≡ true
      → enough c Words.write_value (behind c Words.get_tag answers) ≡ true
      → length c.client_id + 12 < 100
      → (t : Tag) × (t.id ≡ c.client_id)
        × All (λ a. (tag_of a).z <ℤ t.z) (first_majority c Words.get_tag answers)
        × (abd_write Z room garbage c value (map answer_frames answers) ≡ (
            if every (has_room room) (first_majority c Words.get_tag answers)
            then some (record {
              sent =
                  to_all c (get_tag c.op_num) ++ to_all c (write_value c.op_num (tag_text t) value);
              outcome = done (some t);
              rest =
                  map answer_frames (behind c Words.write_value (behind c Words.get_tag answers));
            })
            else none))
  unfolding abd_write
  abd_write-returns room value fine range e e' l =
      let (t, made, named, later) = new_tag-before c garbage answers range e (omega arith) in
      (
        t,
        named,
        later,
        rw (abd_get_max_tag_phase_lem Z c room garbage answers fine)
            (elim (Bool-cases (every (has_room room) (first_majority c Words.get_tag answers))) [
              | inl r ↦
                  rw
                    (
                      r,
                      e,
                      made,
                      abd_write_value_phase_lem Z c t value (behind c Words.get_tag answers)
                          (All-remaining IsAnswer (matches c Words.get_tag) (majority c.num_servers)
                            answers fine)
                          (omega (arith, ap (λ s. length s) named)),
                      e',
                    )
                    refl
              | inr r ↦ rw r refl
            ]),
      )

  latest_of :
      (answers' : List Answer)
      → (a : Answer) → (more : List Answer) → answers' ≡ a ∷ more
      → All InRange answers'
      → ((x : Answer) × OneOf x answers' × (latest garbage answers' ≡ taken x))
        × All (λ x. ¬ Before (latest garbage answers').tag (tag_of x)) answers'
  latest_of answers' a more same range =
      rw same (latest_lem garbage a more (All-imp (λ x h. h.0) (a ∷ more) (rw same at range)))

  -- When replies of majorities arrive to both of its phases, all of them printable and readable
  -- with numbers from 0 to less than INT_MAX, `ABD_read` takes the tag and the value of one of the
  -- replies that it collected, and no collected reply has a later tag. It returns them, and the
  -- same tag went back to all servers, with as many bytes as the value has from the struct of its
  -- frame in place of the value, if these may be read; if they may not, it faults.
  pub abd_read-returns :
      (memory_of : Bytes → Option Bytes)
      → All IsAnswer answers
      → All InRange answers
      → enough c Words.get_tag_value answers ≡ true
      → enough c Words.write_value (behind c Words.get_tag_value answers) ≡ true
      → (a : Answer) × OneOf a (read_from c answers)
        × All (λ x. ¬ Before (tag_of a) (tag_of x)) (read_from c answers)
        × (abd_read Z memory_of garbage c (map answer_frames answers) ≡ (do
          copied ← memory_of a.value
          some (record {
            sent =
                to_all c (get_tag_value c.op_num)
                ++ to_all c (write_value c.op_num (tag_text (tag_of a)) copied);
            outcome = done (taken a);
            rest =
                map answer_frames
                  (behind c Words.write_value (behind c Words.get_tag_value answers));
          })))
  unfolding abd_read
  abd_read-returns memory_of fine range e e' =
      let (b, more, same) = nonempty c Words.get_tag_value answers e in
      let ((a, one, best), later) =
        latest_of (read_from c answers) b more same (
          All-take InRange (matches c Words.get_tag_value) (majority c.num_servers) answers
            range) in
      let fine_a : IsAnswer a =
        All-OneOf IsAnswer a (read_from c answers)
          (All-take IsAnswer (matches c Words.get_tag_value) (majority c.num_servers) answers fine)
          one in
      (
        a,
        one,
        rw best at later,
        rw (abd_get_max_tag_value_phase_lem Z c garbage answers fine, e, best)
            (elim (Option-cases (memory_of a.value)) [
              | inl m ↦ rw m refl
              | inr (copied, m) ↦
                  rw
                    (
                      m,
                      abd_write_value_phase_lem Z c (tag_of a) copied
                          (behind c Words.get_tag_value answers)
                          (All-remaining IsAnswer (matches c Words.get_tag_value)
                            (majority c.num_servers) answers fine)
                          (short_id a fine_a),
                      e',
                    )
                    (rw best refl)
            ]),
      )
