-- ===== src/Abd/Atomic.antt =====
-- Operations of src/abd/abd_writer.c and src/abd/abd_reader.c that begin after a write was
-- acknowledged by a majority of the servers.
use colas.Common.{
  Bool, false, none, is_some, ◌>>=◌, if◌then◌else◌, ℕ, ◌+◌, ◌<◌, ◌≡◌, refl, true, Option, some,
  List, map, arith, Bytes, length, All, All-OneOf,
}
use colas.Common.Int.{◌≤ℤ◌, ◌<ℤ◌}
use colas.Tag.{Tag, compare_tags}
use colas.Tag.Order.{Before}
use colas.Abd.Client.{Caller, Phase, abd_write, abd_read}
use colas.Abd.Ends.{first_majority, behind, enough}
use colas.Abd.Operations.{abd_write-returns, abd_read-returns}
use colas.Abd.Tags.{InRange}
use colas.Abd.Phases.{tag_of, has_room}
use colas.Abd.Quorum.{IsQuorum, Acked, Replied, some_reply}
use colas.Abd.Server.{ServerArgs}
use colas.Abd.System.{System}
use colas.Client.Loop.{done, every}
use colas.Client.Reply.{Answer, answer_frames}
use colas.Client.Print.{IsAnswer}
use colas.Words
use colas.Zhash.{Zhash}

not_before_z : (a b : Tag) → ¬ Before a b → b.z ≤ℤ a.z
unfolding compare_tags
not_before_z a b h = ground arith

-- An operation returned `x`.
abbrev pub Returns : {A : Type 0} → Option (Phase A) → A → Type 0
Returns {A} op x = (p : Phase A) × (op ≡ some p) × (p.outcome ≡ done x)

-- An operation returned `x` if its memory suffices, and faulted if it does not.
abbrev pub EndsIf : {A : Type 0} → Bool → Option (Phase A) → A → Type 0
EndsIf true op x = Returns op x
EndsIf false op x = op ≡ none

pub EndsIf-test :
    {A : Type 0} {op : Option (Phase A)} {x : A} (suffices : Bool) (p : Phase A)
    → op ≡ (if suffices then some p else none)
    → p.outcome ≡ done x
    → EndsIf suffices op x
EndsIf-test true p e h = (p, e, h)
EndsIf-test false p e h = e

-- So does an operation that first copies some memory.
pub EndsIf-copied :
    {A : Type 0} {op : Option (Phase A)} {x : A} (copied : Option Bytes) (f : Bytes → Phase A)
    → op ≡ (do m ← copied; some (f m))
    → ((m : Bytes) → (f m).outcome ≡ done x)
    → EndsIf (is_some copied) op x
EndsIf-copied none f e h = e
EndsIf-copied (some m) f e h = (f m, e, h m)

module _ (Z : Zhash) (args : ℕ → ServerArgs) (c : Caller) (s : System Z args) (tag : Tag)
    (acked : List ℕ) (quorum : IsQuorum c.num_servers acked)
    (acks : All (Acked Z args s c.obj_name tag) acked) (asked : List (ℕ × Answer))
    (quorum' : IsQuorum c.num_servers (map (λ p. p.0) asked))
    (replies : All (λ p. Replied Z args s c.obj_name p.0 p.1) asked) (garbage : Bytes)
    (answers : List Answer) (fine : All IsAnswer answers) (range : All InRange answers) where
  -- If distinct servers, a majority, acknowledged a write of a tag for the object before the state
  -- `s`, and the replies that `ABD_write` collects come from distinct servers, a majority, after
  -- `s`, then it returns with a tag whose number is greater if the tag of each of these replies, z
  -- and id together, fits the block of `room` bytes behind `malloc(sizeof(TAG))`, and faults if
  -- one does not. The replies are such that the client can print and read them, their numbers are
  -- not negative and less than INT_MAX, replies to both phases come from a majority, and the id
  -- leaves room in the buffers.
  pub later_write :
      (room : ℕ) (value : Bytes)
      → map (λ p. p.1) asked ≡ first_majority c Words.get_tag answers
      → enough c Words.get_tag answers ≡ true
      → enough c Words.write_value (behind c Words.get_tag answers) ≡ true
      → length c.client_id + 12 < 100
      → (t : Tag) × (tag.z <ℤ t.z)
        × EndsIf
            (every (has_room room) (first_majority c Words.get_tag answers))
            (abd_write Z room garbage c value (map answer_frames answers))
            (some t)
  later_write room value collected e e' l =
      let (t, named, greater, returns) =
        abd_write-returns Z c garbage answers room value fine range e e' l in
      let (a, one, ge) =
        some_reply Z args c.num_servers s c.obj_name tag acked asked quorum acks quorum' replies in
      let less =
        All-OneOf (λ x. (tag_of x).z <ℤ t.z) a (first_majority c Words.get_tag answers) greater
          (rw collected at one) in
      (
        t,
        omega (arith, ge, less),
        EndsIf-test (every (has_room room) (first_majority c Words.get_tag answers)) _ returns refl,
      )

  -- If distinct servers, a majority, acknowledged a write of a tag for the object before the state
  -- `s`, and the replies that `ABD_read` collects come from distinct servers, a majority, after
  -- `s`, then the number of the tag that it takes is at least that of the write. It returns this
  -- tag with its value if the write-back may read as many bytes as the value has from the struct
  -- of its frame, and faults if it may not. The replies are such that the client can print and
  -- read them, their numbers are not negative and less than INT_MAX, and replies to both phases
  -- come from a majority.
  pub later_read :
      (memory_of : Bytes → Option Bytes)
      → map (λ p. p.1) asked ≡ first_majority c Words.get_tag_value answers
      → enough c Words.get_tag_value answers ≡ true
      → enough c Words.write_value (behind c Words.get_tag_value answers) ≡ true
      → (t : Tag) × (v : Bytes) × (tag.z ≤ℤ t.z)
        × EndsIf
            (is_some (memory_of v))
            (abd_read Z memory_of garbage c (map answer_frames answers))
            (record { tag = t; value = some v })
  later_read memory_of collected e e' =
      let (b, one_b, later, returns) =
        abd_read-returns Z c garbage answers memory_of fine range e e' in
      let (a, one, ge) =
        some_reply Z args c.num_servers s c.obj_name tag acked asked quorum acks quorum' replies in
      let not_before =
        All-OneOf (λ x. ¬ Before (tag_of b) (tag_of x)) a
          (first_majority c Words.get_tag_value answers) later (rw collected at one) in
      (
        tag_of b,
        b.value,
        omega (arith, ge, not_before_z (tag_of b) (tag_of a) not_before),
        EndsIf-copied (memory_of b.value) _ returns (λ m. refl),
      )
