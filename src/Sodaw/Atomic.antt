-- ===== src/Sodaw/Atomic.antt =====
-- Operations of src/sodaw/sodaw_writer.c and src/sodaw/sodaw_reader.c that begin after a majority of
-- the servers took the elements of a write.
use colas.Common.{
  ℕ, ◌+◌, ◌*◌, ◌<◌, ◌≡◌, refl, true, false, Option, some, List, ◌∷◌, ◌++◌, map, arith, Bytes,
  length, All, All-OneOf, OneOf,
}
use colas.Common.Int.{pos, ltb_ℤ, ◌≤ℤ◌, ◌<ℤ◌}
use colas.Tag.{Tag, compare_tags}
use colas.Abd.Client.{Caller, Phase}
use colas.Abd.Ends.{matching, enough}
use colas.Abd.Tags.{InRange}
use colas.Abd.Phases.{matches, tag_of}
use colas.Abd.Quorum.{IsQuorum}
use colas.Client.Loop.{done}
use colas.Client.Majority.{majority}
use colas.Client.Polls.{Poll, timed_out, items, polls_of}
use colas.Client.Reply.{Answer, answer_frames}
use colas.Codec.{EncodeData, Kodo}
use colas.Codec.Read.{Recovers}
use colas.Codec.RoundTrip.{IsRaw}
use colas.Sodaw.Client.{Turn, sodaw_write}
use colas.Sodaw.Operations.{decoded_as}
use colas.Sodaw.Phases.{Patient}
use colas.Sodaw.Quorum.{Acked, Replied, some_tag}
use colas.Sodaw.Read.{ShortId, asked_tag, asked_lem, sodaw_read-returns}
use colas.Sodaw.Reader.{sodaw_read}
use colas.Sodaw.Server.{SodawArgs}
use colas.Sodaw.Shares.{Written, IsShare, OneEach, Polled, held_of}
use colas.Sodaw.System.{System}
use colas.Sodaw.Writer.{sodaw_write-returns}
use colas.Words
use colas.Zhash.{Zhash}

pub not_less_z : (a b : Tag) → ltb_ℤ (compare_tags a b) (pos 0) ≡ false → b.z ≤ℤ a.z
unfolding compare_tags
not_less_z a b h = ground arith

-- A write that returned the tag.
abbrev pub Wrote : Option (Phase (Option Tag)) → Tag → Type 0
Wrote op t = (p : Phase (Option Tag)) × (op ≡ some p) × (p.outcome ≡ done (some t))

-- A read that returned the structure.
abbrev pub Decoded : Option (Turn EncodeData) → EncodeData → Type 0
Decoded op d = (p : Turn EncodeData) × (op ≡ some p) × (p.outcome ≡ done d)

module _ (Z : Zhash) (args : ℕ → SodawArgs) (c : Caller) (s : System Z args) (tag : Tag)
    (acked : List ℕ) (quorum : IsQuorum c.num_servers acked)
    (acks : All (Acked Z args s c.obj_name tag) acked) (asked : List (ℕ × Answer))
    (quorum' : IsQuorum c.num_servers (map (λ p. p.0) asked))
    (replies : All (λ p. Replied Z args s c.obj_name p.0 p.1) asked) (kodo : Kodo) (garbage : Bytes)
    (info : EncodeData) (es es' : List (Option Answer)) where
  -- If distinct servers, a majority, served a put of an element with the tag before the state `s`,
  -- and the replies to the first phase of `SODAW_write` come from distinct servers, a majority,
  -- after `s`, then it returns with a tag whose number is greater. The replies have readable tags
  -- with numbers from 0 to less than INT_MAX, a majority of them comes before a poll times out,
  -- the polls that time out earlier do so before there is one, and a majority acknowledges the
  -- elements. The structure has bytes to encode and a stripe for each server, and the writer's id
  -- leaves room in the buffers.
  pub sodaw_write-later :
      (payload : Bytes)
      → map (λ p. p.1) asked ≡ matching c Words.write_get (items es)
      → Patient c Words.write_get 0 es
      → enough c Words.write_get (items es) ≡ true
      → All InRange (matching c Words.write_get (items es))
      → enough c Words.write_put (items es') ≡ true
      → IsRaw (record info { raw_data = payload; raw_data_size = length payload })
      → info.n ≡ c.num_servers
      → length c.client_id + 12 < 100
      → (t : Tag) × (tag.z <ℤ t.z)
        × Wrote
            (sodaw_write Z kodo garbage c payload
              (length payload)
              info
              (polls_of answer_frames es ++ timed_out ∷ polls_of answer_frames es'))
            t
  sodaw_write-later payload collected patient e range e' raw servers short =
      let (t, blocks, named, greater, front, returns) =
        sodaw_write-returns Z kodo c garbage payload info es es' patient e range e' raw servers
          short in
      let (a, one, ge) =
        some_tag Z args c.num_servers s c.obj_name tag acked asked quorum acks quorum' replies in
      let less =
        All-OneOf (λ x. (tag_of x).z <ℤ t.z) a (matching c Words.write_get (items es)) greater
          (rw collected at one) in
      (t, omega (arith, ge, less), (_, returns, refl))

  -- The tag that a reader asks for has at least the number of the write.
  pub asked-later :
      map (λ p. p.1) asked ≡ matching c Words.read_get (items es)
      → enough c Words.read_get (items es) ≡ true
      → All InRange (matching c Words.read_get (items es))
      → All ShortId (matching c Words.read_get (items es))
      → tag.z ≤ℤ (asked_tag garbage c es).z
  asked-later collected e range short =
      let (above, short') = asked_lem garbage c es e range short in
      let (a, one, ge) =
        some_tag Z args c.num_servers s c.obj_name tag acked asked quorum acks quorum' replies in
      let least =
        All-OneOf (λ x. (tag_of x).z ≤ℤ (asked_tag garbage c es).z) a
          (matching c Words.read_get (items es)) above (rw collected at one) in
      omega (arith, ge, least)

  -- A read decodes the blocks of a tag whose number is at least that of the write.
  pub sodaw_read-later :
      (w : Written) (later : List Poll)
      → map (λ p. p.1) asked ≡ matching c Words.read_get (items es)
      → Patient c Words.read_get 0 es
      → enough c Words.read_get (items es) ≡ true
      → All InRange (matching c Words.read_get (items es))
      → All ShortId (matching c Words.read_get (items es))
      → Polled Z kodo c w info (asked_tag garbage c es) es'
      → (held_of Z kodo c w info (asked_tag garbage c es) (items es')).finished ≡ true
      → All (λ a. matches c Words.read_value a ≡ true → IsShare kodo info w a) (items es')
      → OneEach kodo info w c (items es')
      → Recovers kodo info.algorithm info.k info.symbol_size info.n
      → info.k ≡ majority c.num_servers
      → 0 < info.num_blocks * info.k
      → info.offset_index ≡ 0
      → (a : Answer) × (elements : List Bytes) × (tag.z ≤ℤ (tag_of a).z)
        × OneOf a (items es')
        × Decoded
            (sodaw_read Z kodo garbage c info (
              polls_of answer_frames es
              ++ timed_out ∷ (polls_of answer_frames es' ++ timed_out ∷ later)))
            (decoded_as Z kodo c w info (asked_tag garbage c es) elements a.tag)
  sodaw_read-later w later collected patient e range short polled full shares each recovers
        dimension large first =
      let (b, elements, above, there, fits, late, returns) =
        sodaw_read-returns Z kodo c w info garbage es es' later patient e range short polled full
          shares each recovers dimension large first in
      let least = asked-later collected e range short in
      (
        b,
        elements,
        omega (arith, least, not_less_z (tag_of b) (asked_tag garbage c es) late),
        there,
        (_, returns, refl),
      )
