-- ===== src/Sodaw/Short.antt =====
-- The reader of src/sodaw/sodaw_reader.c with the structure of `create_EncodeData`: the arrays are too
-- few for an even number of servers.
use colas.Common.{ℕ, ◌+◌, ◌<◌, ◌%◌, ◌≡◌, refl, true, none, Option, List, ◌∷◌, ◌++◌, arith, length}
use colas.Tag.{Tag}
use colas.Tag.RoundTrip.{tag_to_string_fits}
use colas.Tag.Text.{tag_text}
use colas.Abd.Client.{Caller}
use colas.Client.Majority.{code_dimension-majority}
use colas.Client.Polls.{Poll, timed_out, poll_loop_lem, items, polls_of}
use colas.Client.Reply.{Answer, answer_frames}
use colas.Codec.{CodingAlgorithm, EncodeData, Kodo}
use colas.Codec.Create.{create_encode_data}
use colas.Sodaw.Elements.{elements_of, IsElement, next_received, read_value_round-Takes}
use colas.Sodaw.Gathered.{none_received, gathered_lem}
use colas.Sodaw.Info.{get_encoded_info-overruns}
use colas.Sodaw.Reader.{read_value_round, sodaw_read_value}
use colas.Sodaw.Shares.{Written, read_value_sent, Polled, held_of}
use colas.Zhash.{Zhash}

module _ (Z : Zhash) (kodo : Kodo) (c : Caller) (w : Written) (memory : EncodeData) (filesize : ℕ)
    (algorithm : CodingAlgorithm) (read_tag : Tag) where
  abbrev pub created : EncodeData
  created = create_encode_data memory c.num_servers filesize algorithm

  -- With the structure that `create_EncodeData` makes for an even number of servers,
  -- `SODAW_read_value` writes past its arrays whenever it has collected enough elements, whatever
  -- they are.
  pub sodaw_read_value-overruns :
      (es : List (Option Answer)) (later : List Poll)
      → c.num_servers % 2 ≡ 0
      → Polled Z kodo c w created read_tag es
      → (held_of Z kodo c w created read_tag (items es)).finished ≡ true
      → length read_tag.id + 12 < 100
      → sodaw_read_value Z kodo c read_tag created (polls_of answer_frames es ++ timed_out ∷ later)
        ≡ none
  unfolding sodaw_read_value create_encode_data
  sodaw_read_value-overruns es later even polled full short =
      let (ys, zs, same, g) = gathered_lem Z c (items es) full in
      let s = held_of Z kodo c w created read_tag (items es) in
      rw
        (
          tag_to_string_fits 100 read_tag short,
          read_value_sent c (tag_text read_tag),
          poll_loop_lem answer_frames (λ s. s.finished) (next_received Z c)
              (read_value_round Z c read_tag) (λ s a. IsElement c read_tag a)
              (read_value_round-Takes Z c read_tag) (none_received Z c) es later polled full,
          get_encoded_info-overruns Z s.recv_dataset s.decodeable_key created
              (elements_of c s.decodeable_key ys) g.listed
              (omega (arith, g.majority_of, (code_dimension-majority c.num_servers).1 even)),
        )
        refl
