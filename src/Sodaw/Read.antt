-- ===== src/Sodaw/Read.antt =====
-- `SODAW_read`, of src/sodaw/sodaw_reader.c, from the first message sent to the data decoded.
use colas.Common.{
  ◌+◌, ◌*◌, ◌<◌, ◌≡◌, refl, true, false, Option, some, List, ◌∷◌, ◌++◌, map, Bytes, length, All,
  OneOf, All-OneOf, All-map, All-imp,
}
use colas.Common.Int.{pos, ltb_ℤ, ◌≤ℤ◌}
use colas.Tag.{Tag, compare_tags}
use colas.Tag.Max.{get_max_tag_lem}
use colas.Tag.RoundTrip.{tag_to_string_fits}
use colas.Tag.Text.{tag_text}
use colas.Abd.Client.{Caller}
use colas.Abd.Ends.{to_all, matching, enough}
use colas.Abd.Tags.{InRange, greatest_of, greatest_of_lem}
use colas.Abd.Phases.{matches, tag_of}
use colas.Client.Loop.{done}
use colas.Client.Majority.{majority}
use colas.Client.Polls.{Poll, timed_out, items, polls_of}
use colas.Client.Reply.{Answer, answer_frames}
use colas.Codec.{EncodeData, Kodo}
use colas.Codec.Read.{Recovers}
use colas.Sodaw.Operations.{decoded_as, sodaw_read_value-decodes}
use colas.Sodaw.Phases.{Patient, sodaw_write_get_or_read_get_phase_lem}
use colas.Sodaw.Reader.{sodaw_read, sodaw_read_complete_phase}
use colas.Sodaw.Shares.{Written, IsShare, OneEach, read_complete_sent, Polled, held_of}
use colas.Sodaw.Writer.{some_member}
use colas.Wire.Delivery.{read_get, read_value, read_complete, phase_of}
use colas.Words
use colas.Zhash.{Zhash}

-- An id that leaves room for the number in a buffer.
abbrev pub ShortId : Answer → Type 0
ShortId a = length (tag_of a).id + 12 < 100

-- The tag that a reader asks for.
abbrev pub asked_tag : Bytes → Caller → List (Option Answer) → Tag
asked_tag garbage c es = greatest_of garbage (matching c Words.read_get (items es))

pub asked_lem :
    (garbage : Bytes) (c : Caller) (es : List (Option Answer))
    → enough c Words.read_get (items es) ≡ true
    → All InRange (matching c Words.read_get (items es))
    → All ShortId (matching c Words.read_get (items es))
    → All (λ x. (tag_of x).z ≤ℤ (asked_tag garbage c es).z) (matching c Words.read_get (items es))
      × (length (asked_tag garbage c es).id + 12 < 100)
asked_lem garbage c es e range short =
    let (a, more, same) = some_member c Words.read_get (items es) e in
    let range' = rw same at range in
    let short' = rw same at short in
    let (later, low, high) = greatest_of_lem garbage a more range' in
    let (o, le) =
      get_max_tag_lem garbage (tag_of a) (map tag_of more)
        (All-map (λ t. pos 0 ≤ℤ t.z) tag_of (a ∷ more) (All-imp (λ x h. h.0) (a ∷ more) range')) in
    (
      rw same later,
      rw same (
          All-OneOf (λ t. length t.id + 12 < 100) (greatest_of garbage (a ∷ more))
            (map tag_of (a ∷ more)) (All-map (λ t. length t.id + 12 < 100) tag_of (a ∷ more) short')
            o),
    )

module _ (Z : Zhash) (kodo : Kodo) (c : Caller) (w : Written) (info : EncodeData)
    (garbage : Bytes) where
  -- `SODAW_read` returns when a majority of replies with readable tags come to its first phase
  -- before a poll times out, numbers from 0 to less than INT_MAX and ids that leave room, and
  -- enough elements of one tag come to its second, no reply there being older than the tag asked
  -- for; earlier polls that time out do so before there are enough. With a codec whose stripes
  -- recover, a structure that has blocks and starts at the first, K the majority, no two elements
  -- of a tag from one server, and elements that are stripes of the blocks of their tags, it
  -- decodes the blocks of the tag of one of those replies. That tag is not older than the one
  -- asked for, whose number no reply to the first phase exceeds. Tags are asked of all servers,
  -- then elements, and the end of the read is told to all.
  pub sodaw_read-returns :
      (es es' : List (Option Answer)) (later : List Poll)
      → Patient c Words.read_get 0 es
      → enough c Words.read_get (items es) ≡ true
      → All InRange (matching c Words.read_get (items es))
      → All ShortId (matching c Words.read_get (items es))
      → Polled Z kodo c w info (asked_tag garbage c es) es'
      → (held_of Z kodo c w info (asked_tag garbage c es) (items es')).finished ≡ true
      → All (λ a. matches c Words.read_value a ≡ true → IsShare kodo info w a) (items es')
      → OneEach kodo info w c (items es')
      → Recovers kodo info.algorithm info.k info.symbol_size info.n
      → info.k ≡ majority c.num_servers
      → 0 < info.num_blocks * info.k
      → info.offset_index ≡ 0
      → (a : Answer) × (elements : List Bytes) × All
          (λ x. (tag_of x).z ≤ℤ (asked_tag garbage c es).z)
          (matching c Words.read_get (items es))
        × OneOf a (items es')
        × (matches c Words.read_value a ≡ true)
        × (ltb_ℤ (compare_tags (tag_of a) (asked_tag garbage c es)) (pos 0) ≡ false)
        × (sodaw_read Z kodo garbage c info (
              polls_of answer_frames es
              ++ timed_out ∷ (polls_of answer_frames es' ++ timed_out ∷ later))
            ≡ some (record {
              sent =
                  to_all c (read_get c.op_num)
                  ++ to_all c (read_value c.op_num (tag_text (asked_tag garbage c es)))
                  ++ to_all c (read_complete c.op_num (tag_text (asked_tag garbage c es)));
              outcome = done (decoded_as Z kodo c w info (asked_tag garbage c es) elements a.tag);
              rest = later;
            }))
  unfolding sodaw_read sodaw_read_complete_phase phase_of
  sodaw_read-returns es es' later patient e range short polled full shares each recovers dimension
        large first =
      let (above, short') = asked_lem garbage c es e range short in
      let (a, elements, there, fits, late, read) =
        sodaw_read_value-decodes Z kodo c w info (asked_tag garbage c es) es' later polled full
          shares each recovers dimension large first short' in
      (
        a,
        elements,
        above,
        there,
        fits,
        late,
        rw
            (
              sodaw_write_get_or_read_get_phase_lem Z c garbage (read_get c.op_num) es
                  (polls_of answer_frames es' ++ timed_out ∷ later) refl patient e,
              read,
              tag_to_string_fits 100 (asked_tag garbage c es) short',
              read_complete_sent c (tag_text (asked_tag garbage c es)),
            )
            refl,
      )
