-- ===== src/Sodaw/Client.antt =====
-- The writer of SODAW and the phase that it shares with the reader: src/sodaw/sodaw_client.c and
-- src/sodaw/sodaw_writer.c.
--
-- `s_interrupted` and a failing `zmq_poll` end the process and are left out, as are logging, clocks
-- and the socket. Until a message comes, the loop of WRITE_PUT polls without a time.
use colas.Common.{
  ℕ, ◌+◌, ◌*◌, Bool, false, Option, none, some, List, [], ◌∷◌, ◌++◌, ◌&&◌, ◌||◌, ◌>>=◌, ◌==◌,
  if◌then◌else◌, leb, Bytes, streq,
}
use colas.Tag.{Tag, get_max_tag}
use colas.Tag.Text.{tag_to_string, string_to_tag}
use colas.Abd.Client.{Caller, Phase, types, new_tag}
use colas.Client.Loop.{Wait, done, waiting, counted, receive_loop}
use colas.Client.Majority.{majority}
use colas.Client.Polls.{Poll, poll_loop, arrivals}
use colas.Client.Reply.{read_reply}
use colas.Codec.{EncodeData, Kodo, encode, first_bytes}
use colas.Wire.Read.{get_string_frame}
use colas.Wire.Send.{text, uint, send_multicast_servers, send_multisend_servers}
use colas.Words
use colas.Zhash.{Zhash}

-- What a phase or an operation sent, its result if it has ended, and what its polls have not met.
pub record Turn (A : Type 0) : Type 0 where
  pub sent : List (List Bytes)
  pub outcome : Wait A
  pub rest : List Poll

-- The variables of the loop that collects tags.
pub record Collected : Type 0 where
  pub responses : ℕ
  pub tag_list : List Tag
  pub finished : Bool

-- The result of `get_max_tag` on the tags that were collected.
abbrev pub max_of : Bytes → Wait Collected → Wait Tag
max_of garbage (done s) = done (get_max_tag garbage s.tag_list)
max_of garbage (waiting s) = waiting (get_max_tag garbage s.tag_list)

-- The bytes that are sent of each element.
unfoldable pub sized_elements : ℕ → List Bytes → Option (List Bytes)
unfolding first_bytes
sized_elements size [] = some []
sized_elements size (e ∷ elements) =
    let others = sized_elements size elements in
    do front ← first_bytes size e; more ← others; some (front ∷ more)

module _ (Z : Zhash) where
  -- A round of `SODAW_write_get_or_read_get_phase`.
  unfoldable pub get_round : Caller → Bytes → Collected → List Bytes → Option Collected
  get_round c phase s msg = do
    r ← read_reply Z 100 msg
    tag_str ← get_string_frame Z 100 r.frames Words.tag
    if r.round == c.op_num && streq r.phase phase
        then (do
          tag ← string_to_tag tag_str
          some (record {
            responses = s.responses + 1;
            tag_list = s.tag_list ++ tag ∷ [];
            finished = leb (majority c.num_servers) (s.responses + 1) || s.finished;
          }))
        else some s

  unfoldable pub sodaw_write_get_or_read_get_phase :
      Bytes → Caller → Bytes → List Poll → Option (Turn Tag)
  sodaw_write_get_or_read_get_phase garbage c phase polls = do
    sent ←
        send_multicast_servers c.num_servers types
          (text c.client_id ∷ text c.obj_name ∷ text Words.sodaw ∷ text phase ∷ uint c.op_num ∷ [])
    ended ←
        poll_loop (λ s. s.finished) (get_round c phase)
          (record { responses = 0; tag_list = []; finished = false }) polls
    some (record { sent = sent; outcome = max_of garbage ended.0; rest = ended.1 })

  -- A round of `SODAW_write_put_phase`.
  unfoldable pub write_put_round : Caller → ℕ × Unit {0} → List Bytes → Option (Wait (ℕ × Unit {0}))
  write_put_round c (responses, u) msg = do
    r ← read_reply Z 100 msg
    if r.round == c.op_num && streq r.phase Words.write_put
        then some (counted (majority c.num_servers) (responses + 1) u)
        else some (waiting (responses, u))

  module _ (kodo : Kodo) where
    unfoldable pub sodaw_write_put_phase :
        Caller → Tag → EncodeData → List (List Bytes) → Option (Phase (ℕ × Unit {0}))
    unfolding sized_elements
    sodaw_write_put_phase c max_tag encoded_info msgs = do
      encoded ← encode kodo encoded_info
      tag_str ← tag_to_string 100 max_tag
      elements ←
          sized_elements (encoded.num_blocks * encoded.encoded_symbol_size) encoded.encoded_data
      sent ← send_multisend_servers c.num_servers elements (types ++ Words.tag ∷ []) (
          text c.client_id
          ∷ text c.obj_name
          ∷ text Words.sodaw
          ∷ text Words.write_put
          ∷ uint c.op_num
          ∷ text tag_str
          ∷ [])
      ended ← receive_loop (write_put_round c) (0, tt) msgs
      some (record { sent = sent; outcome = ended.0; rest = ended.1 })

    abbrev pub then_put :
        Caller
        → Bytes
        → ℕ
        → EncodeData
        → Wait Tag
        → List (List Bytes)
        → List Poll
        → Option (Phase (Option Tag))
    then_put c payload payload_size encoded_data (waiting t) sent polls =
        some (record { sent = sent; outcome = waiting none; rest = arrivals polls })
    then_put c payload payload_size encoded_data (done max_tag) sent polls = do
      tag ← new_tag c.client_id max_tag
      p ←
          sodaw_write_put_phase c tag
            (record encoded_data { raw_data = payload; raw_data_size = payload_size })
            (arrivals polls)
      some (record {
        sent = sent ++ p.sent;
        outcome = elim p.outcome [ done x ↦ done (some tag) | waiting x ↦ waiting (some tag) ];
        rest = p.rest;
      })

    -- `SODAW_write`, with the tag that it wrote.
    unfoldable pub sodaw_write :
        Bytes → Caller → Bytes → ℕ → EncodeData → List Poll → Option (Phase (Option Tag))
    unfolding arrivals
    sodaw_write garbage c payload payload_size encoded_data polls = do
      p ← sodaw_write_get_or_read_get_phase garbage c Words.write_get polls
      then_put c payload payload_size encoded_data p.outcome p.sent p.rest
