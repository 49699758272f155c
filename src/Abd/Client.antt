-- ===== src/Abd/Client.antt =====
-- The clients of ABD: src/abd/abd_client.c, src/abd/abd_writer.c and src/abd/abd_reader.c.
--
-- The messages that arrive are one list, which the phases take in turn. `s_interrupted` and a failing
-- `zmq_poll` end the process and are left out, as are logging and clocks.
use colas.Common.{
  ℕ, ◌+◌, ◌-◌, ◌^◌, Option, none, some, List, [], ◌∷◌, ◌++◌, ◌&&◌, ◌>>=◌, ◌==◌, if◌then◌else◌, ltb,
  Bytes, fits, length, streq,
}
use colas.Common.Int.{ℤ, pos, negsuc, ltb_ℤ}
use colas.Tag.{Tag, compare_tag_ptrs, get_max_tag}
use colas.Tag.Text.{tag_to_string, string_to_tag}
use colas.Client.Loop.{Wait, done, waiting, counted, receive_loop}
use colas.Client.Majority.{majority}
use colas.Client.Reply.{read_reply}
use colas.Wire.Print.{print_out_hash_in_order}
use colas.Wire.Read.{get_string_frame, get_tag_frame}
use colas.Wire.Send.{text, uint, raw, send_multicast_servers}
use colas.Words
use colas.Zhash.{Zhash}

-- A phase or an operation that ended has its result; both tell the messages that were sent.
pub record Phase (A : Type 0) : Type 0 where
  pub sent : List (List Bytes)
  pub outcome : Wait A
  pub rest : List (List Bytes)

abbrev pub types : List Bytes
types = Words.clientid ∷ Words.object ∷ Words.algorithm ∷ Words.phase ∷ Words.opnum ∷ []

-- What a client calls itself, its object and its operation.
pub record Caller : Type 0 where
  pub obj_name : Bytes
  pub client_id : Bytes
  pub op_num : ℕ
  pub num_servers : ℕ

-- `max_tag->z += 1`; beyond INT_MAX the sum has no meaning.
unfoldable pub increment : ℤ → Option ℤ
increment (pos n) = if ltb n (2 ^ 31 - 1) then some (pos (n + 1)) else none
increment (negsuc n) = if n == 0 then some (pos 0) else some (negsuc (n - 1))

-- The result of `get_max_tag` on the tags that were collected.
abbrev pub max_of : Bytes → Wait (ℕ × List Tag) → Wait Tag
max_of garbage (done p) = done (get_max_tag garbage p.1)
max_of garbage (waiting p) = waiting (get_max_tag garbage p.1)

-- The tag of a write: the next number, with the writer's id.
unfoldable pub new_tag : Bytes → Tag → Option Tag
unfolding increment
new_tag client_id max_tag = do
  z ← increment max_tag.z
  id ← fits 100 client_id
  some (record { z = z; id = id })

-- `string_to_tag` at a block of `room` bytes: four for z, then the id and the byte that ends it. A
-- byte behind the block is a fault.
unfoldable pub written_to : ℕ → Tag → Option Tag
written_to room tag = if ltb (4 + length tag.id) room then some tag else none

-- The tag and the value that the reader has; at first z = -1 and no value.
pub record TagValue : Type 0 where
  pub tag : Tag
  pub value : Option Bytes

abbrev pub later_of : TagValue → Tag → Bytes → TagValue
later_of best recv_tag value =
    if ltb_ℤ (compare_tag_ptrs best.tag recv_tag) (pos 0)
    then record { tag = recv_tag; value = some value }
    else best

module _ (Z : Zhash) where
  -- A round of `ABD_write_value_phase`.
  unfoldable pub write_value_round :
      Caller → ℕ × Unit {0} → List Bytes → Option (Wait (ℕ × Unit {0}))
  write_value_round c (responses, u) msg = do
    r ← read_reply Z 100 msg
    if r.round == c.op_num && streq r.phase Words.write_value
        then (do
          printed ← print_out_hash_in_order Z r.frames r.names
          some (counted (majority c.num_servers) (responses + 1) u))
        else some (waiting (responses, u))

  unfoldable pub abd_write_value_phase :
      Caller → Tag → Bytes → List (List Bytes) → Option (Phase (ℕ × Unit {0}))
  abd_write_value_phase c tag value msgs = do
    tag_str ← tag_to_string 100 tag
    sent ← send_multicast_servers c.num_servers (types ++ Words.tag ∷ Words.payload ∷ []) (
        text c.client_id
        ∷ text c.obj_name
        ∷ text Words.abd
        ∷ text Words.write_value
        ∷ uint c.op_num
        ∷ text tag_str
        ∷ raw value
        ∷ [])
    ended ← receive_loop (write_value_round c) (0, tt) msgs
    some (record { sent = sent; outcome = ended.0; rest = ended.1 })

  -- A round of `ABD_get_max_tag_phase`. The tag is read into `malloc(sizeof(TAG))`, which asks for
  -- the four bytes of the text "TAG" where `sizeof(Tag)` is meant; the block has `room` bytes.
  unfoldable pub get_tag_round :
      ℕ → Caller → ℕ × List Tag → List Bytes → Option (Wait (ℕ × List Tag))
  unfolding written_to
  get_tag_round room c (responses, tag_list) msg = do
    r ← read_reply Z 100 msg
    tag_str ← get_string_frame Z 100 r.frames Words.tag
    if r.round == c.op_num && streq r.phase Words.get_tag
        then (do
          printed ← print_out_hash_in_order Z r.frames r.names
          read ← string_to_tag tag_str
          tag ← written_to room read
          some (counted (majority c.num_servers) (responses + 1) (tag_list ++ tag ∷ [])))
        else some (waiting (responses, tag_list))

  unfoldable pub abd_get_max_tag_phase : ℕ → Bytes → Caller → List (List Bytes) → Option (Phase Tag)
  abd_get_max_tag_phase room garbage c msgs = do
    sent ← send_multicast_servers c.num_servers types (
        text c.client_id
        ∷ text c.obj_name
        ∷ text Words.abd
        ∷ text Words.get_tag
        ∷ uint c.op_num
        ∷ [])
    ended ← receive_loop (get_tag_round room c) (0, []) msgs
    some (record { sent = sent; outcome = max_of garbage ended.0; rest = ended.1 })

  abbrev pub then_write :
      Caller
      → Bytes
      → Wait Tag
      → List (List Bytes)
      → List (List Bytes)
      → Option (Phase (Option Tag))
  then_write c value (waiting t) sent msgs =
      some (record { sent = sent; outcome = waiting none; rest = msgs })
  then_write c value (done max_tag) sent msgs = do
    tag ← new_tag c.client_id max_tag
    p ← abd_write_value_phase c tag value msgs
    some (record {
      sent = sent ++ p.sent;
      outcome = elim p.outcome [ done x ↦ done (some tag) | waiting x ↦ waiting (some tag) ];
      rest = p.rest;
    })

  -- `ABD_write`, with the tag that it wrote.
  unfoldable pub abd_write :
      ℕ → Bytes → Caller → Bytes → List (List Bytes) → Option (Phase (Option Tag))
  abd_write room garbage c value msgs = do
    p ← abd_get_max_tag_phase room garbage c msgs
    then_write c value p.outcome p.sent p.rest

  -- A round of `ABD_get_max_tag_value_phase`: it prints every reply, and reads its tag.
  unfoldable pub get_tag_value_round :
      Caller → ℕ × TagValue → List Bytes → Option (Wait (ℕ × TagValue))
  get_tag_value_round c (responses, best) msg = do
    r ← read_reply Z 64 msg
    recv_tag ← get_tag_frame Z r.frames
    printed ← print_out_hash_in_order Z r.frames r.names
    if r.round == c.op_num && streq r.phase Words.get_tag_value
        then (do
          value_frame ← Z.lookup r.frames Words.payload
          some (
              counted (majority c.num_servers) (responses + 1)
                (later_of best recv_tag value_frame)))
        else some (waiting (responses, best))

  unfoldable pub abd_get_max_tag_value_phase :
      Bytes → Caller → List (List Bytes) → Option (Phase (ℕ × TagValue))
  abd_get_max_tag_value_phase garbage c msgs = do
    sent ← send_multicast_servers c.num_servers types (
        text c.client_id
        ∷ text c.obj_name
        ∷ text Words.abd
        ∷ text Words.get_tag_value
        ∷ uint c.op_num
        ∷ [])
    ended ←
        receive_loop (get_tag_value_round c)
          (0, record { tag = record { z = negsuc 0; id = garbage }; value = none }) msgs
    some (record { sent = sent; outcome = ended.0; rest = ended.1 })

  -- The value of the reader is a `zframe_t`, which `send_multicast_servers` takes for the bytes
  -- themselves: it copies as many bytes as the value `v` has from the address of the struct.
  -- `memory_of v` is what that copy gives, and `none` where it leaves the memory that may be read,
  -- which it does for a value longer than the struct. CZMQ lays out that struct.
  abbrev pub then_write_back :
      (Bytes → Option Bytes)
      → Caller
      → Wait (ℕ × TagValue)
      → List (List Bytes)
      → List (List Bytes)
      → Option (Phase TagValue)
  then_write_back memory_of c (waiting p) sent msgs =
      some (record { sent = sent; outcome = waiting p.1; rest = msgs })
  then_write_back memory_of c (done p) sent msgs = do
    value ← p.1.value
    copied ← memory_of value
    w ← abd_write_value_phase c p.1.tag copied msgs
    some (record {
      sent = sent ++ w.sent;
      outcome = elim w.outcome [ done x ↦ done p.1 | waiting x ↦ waiting p.1 ];
      rest = w.rest;
    })

  -- `ABD_read`: the greatest tag of a majority and its value, returned behind the write-back.
  unfoldable pub abd_read :
      (Bytes → Option Bytes) → Bytes → Caller → List (List Bytes) → Option (Phase TagValue)
  abd_read memory_of garbage c msgs = do
    p ← abd_get_max_tag_value_phase garbage c msgs
    then_write_back memory_of c p.outcome p.sent p.rest
