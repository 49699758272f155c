-- ===== src/Sodaw/Reader.antt =====
-- The reader of SODAW: src/sodaw/sodaw_reader.c.
--
-- `SODAW_read` returns nothing; here it returns the structure that it decodes into and frees at its
-- end.
use colas.Common.{
  ℕ, zero, suc, ◌+◌, ◌*◌, ◌/◌, Bool, false, Option, none, some, List, [], ◌∷◌, ◌++◌, ◌&&◌, ◌>>=◌,
  ◌==◌, if◌then◌else◌, leb, not, Bytes, length, streq, is_some,
}
use colas.Common.Int.{pos, ltb_ℤ}
use colas.Tag.{Tag, compare_tags}
use colas.Tag.Text.{tag_to_string}
use colas.Abd.Client.{Caller, types}
use colas.Client.Loop.{Wait, done, waiting}
use colas.Client.Majority.{majority}
use colas.Client.Polls.{Poll, poll_loop}
use colas.Client.Reply.{read_reply}
use colas.Codec.{EncodeData, Kodo, decode}
use colas.Sodaw.Client.{Turn, sodaw_write_get_or_read_get_phase}
use colas.Wire.Read.{get_string_frame, get_tag_frame}
use colas.Wire.Send.{text, uint, send_multicast_servers}
use colas.Words
use colas.Zhash.{Zhash}

-- The size of the frame that is looked at last, and that of all frames.
abbrev pub last_size : ℕ → List Bytes → ℕ
last_size size [] = size
last_size size (e ∷ elements) = last_size (length e) elements

abbrev pub total_size : List Bytes → ℕ
total_size [] = 0
total_size (e ∷ elements) = length e + total_size elements

-- The elements copied into `k` arrays of a size; `none` is a copy past the arrays, or an array with
-- bytes that have no value.
unfoldable pub copy_elements : ℕ → ℕ → List Bytes → Option (List Bytes)
copy_elements zero size [] = some []
copy_elements zero size (e ∷ elements) = none
copy_elements (suc k) size [] = none
copy_elements (suc k) size (e ∷ elements) = do
  more ← copy_elements k size elements
  if length e == size then some (e ∷ more) else none

abbrev pub or_empty : Option (List Bytes) → List Bytes
or_empty none = []
or_empty (some elements) = elements

-- TRUE, or the process ends.
abbrev pub decoded_or_exit : Bool × EncodeData → Option EncodeData
decoded_or_exit (b, d) = if b then some d else none

module _ (Z : Zhash) where
  -- The variables of the loop that collects elements: of each tag, the elements that came with it.
  -- The table holds pointers to these lists.
  pub record Received : Type 0 where
    pub recv_dataset : Z.Table (List Bytes)
    pub decodeable_key : Bytes
    pub finished : Bool

  -- The element joins those of its tag.
  unfoldable pub append_element : ℕ → Received → Bytes → Bytes → Received
  append_element threshold s recv_tag_str payload =
      let found = Z.lookup s.recv_dataset recv_tag_str in
      let listed =
        if is_some found then s.recv_dataset else Z.insert s.recv_dataset recv_tag_str [] in
      let data_list = or_empty found ++ payload ∷ [] in
      let enough = leb threshold (length data_list) in
      record {
        recv_dataset = Z.update listed recv_tag_str data_list;
        decodeable_key = if enough then recv_tag_str else s.decodeable_key;
        finished = enough;
      }

  -- A round of `SODAW_read_value`.
  unfoldable pub read_value_round : Caller → Tag → Received → List Bytes → Option Received
  unfolding append_element
  read_value_round c read_tag s msg = do
    r ← read_reply Z 100 msg
    recv_tag_str ← get_string_frame Z 100 r.frames Words.tag
    recv_tag ← get_tag_frame Z r.frames
    if not s.finished && (r.round == c.op_num && streq r.phase Words.read_value)
        then (if ltb_ℤ (compare_tags recv_tag read_tag) (pos 0) then none else (do
          payload ← Z.lookup r.frames Words.payload
          some (append_element (majority c.num_servers) s recv_tag_str payload)))
        else some s

  -- Division by zero is a fault.
  unfoldable pub get_encoded_info : Z.Table (List Bytes) → Bytes → EncodeData → Option EncodeData
  unfolding copy_elements
  get_encoded_info received_data key info = do
    elements ← Z.lookup received_data key
    copied ← copy_elements info.k (last_size 0 elements) elements
    if info.num_blocks * info.k == 0
        then none
        else some (record info {
          encoded_data = copied;
          encoded_symbol_size = total_size elements / (info.num_blocks * info.k);
        })

  module _ (kodo : Kodo) where
    abbrev pub then_decode :
        EncodeData → List (List Bytes) → Wait Received × List Poll → Option (Turn EncodeData)
    then_decode info sent (waiting s, rest) =
        some (record { sent = sent; outcome = waiting info; rest = rest })
    then_decode info sent (done s, rest) = do
      encoded ← get_encoded_info s.recv_dataset s.decodeable_key info
      r ← decode kodo encoded
      decoded ← decoded_or_exit r
      some (record { sent = sent; outcome = done decoded; rest = rest })

    unfoldable pub sodaw_read_value :
        Caller → Tag → EncodeData → List Poll → Option (Turn EncodeData)
    sodaw_read_value c read_tag info polls = do
      read_tag_str ← tag_to_string 100 read_tag
      sent ← send_multicast_servers c.num_servers (types ++ Words.tag ∷ []) (
          text c.client_id
          ∷ text c.obj_name
          ∷ text Words.sodaw
          ∷ text Words.read_value
          ∷ uint c.op_num
          ∷ text read_tag_str
          ∷ [])
      ended ←
          poll_loop (λ s. s.finished) (read_value_round c read_tag)
            (record { recv_dataset = Z.new (List Bytes); decodeable_key = []; finished = false })
            polls
      then_decode info sent ended

    unfoldable pub sodaw_read_complete_phase : Caller → Tag → Option (List (List Bytes))
    sodaw_read_complete_phase c max_tag = do
      tag_str ← tag_to_string 100 max_tag
      send_multicast_servers c.num_servers (types ++ Words.tag ∷ []) (
          text c.client_id
          ∷ text c.obj_name
          ∷ text Words.sodaw
          ∷ text Words.read_complete
          ∷ uint c.op_num
          ∷ text tag_str
          ∷ [])

    abbrev pub then_complete :
        Caller → Tag → List (List Bytes) → Turn EncodeData → Option (Turn EncodeData)
    then_complete c read_tag sent v = elim v.outcome [
      | waiting d ↦ some (record v { sent = sent ++ v.sent })
      | done d ↦ do
        completed ← sodaw_read_complete_phase c read_tag
        some (record v { sent = sent ++ v.sent ++ completed })
    ]

    abbrev pub then_read :
        Caller → EncodeData → Wait Tag → List (List Bytes) → List Poll → Option (Turn EncodeData)
    then_read c info (waiting t) sent polls =
        some (record { sent = sent; outcome = waiting info; rest = polls })
    then_read c info (done read_tag) sent polls = do
      v ← sodaw_read_value c read_tag info polls
      then_complete c read_tag sent v

    unfoldable pub sodaw_read : Bytes → Caller → EncodeData → List Poll → Option (Turn EncodeData)
    sodaw_read garbage c info polls = do
      p ← sodaw_write_get_or_read_get_phase Z garbage c Words.read_get polls
      then_read c info p.outcome p.sent p.rest
