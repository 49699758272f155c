-- ===== src/Wire/Receive.antt =====
-- Taking a message apart, at a server and at a client.
use colas.Common.{Option, none, some, List, [], ◌∷◌, ◌++◌, ◌>>=◌, if◌then◌else◌, Bytes, streq}
use colas.Wire.Read.{Frames, get_string_frame}
use colas.Words
use colas.Words.{bufsize}
use colas.Zhash.{Zhash}

module _ (Z : Zhash) where
  -- The message that is left, the frames taken so far, and their names in order.
  pub record Received : Type 0 where
    pub msg : List Bytes
    pub frames : Frames Z
    pub names : List Bytes

  abbrev pub start : List Bytes → Received
  start msg = record { msg = msg; frames = Z.new Bytes; names = [] }

  -- `insertIntoHash`: a message with no frame left fails an `assert`.
  unfoldable pub insert_into_hash : Bytes → List Bytes → Frames Z → Option (List Bytes × Frames Z)
  insert_into_hash type [] frames = none
  insert_into_hash type (frame ∷ msg) frames = some (msg, Z.insert frames type frame)

  -- `insertIntoHashAndList`
  unfoldable pub insert_into_hash_and_list : Bytes → Received → Option Received
  unfolding insert_into_hash
  insert_into_hash_and_list type r = do
    p ← insert_into_hash type r.msg r.frames
    some (record { msg = p.0; frames = p.1; names = r.names ++ type ∷ [] })

  unfoldable pub insert_opnum : Received → Option Received
  insert_opnum r = insert_into_hash_and_list Words.opnum r

  unfoldable pub insert_opnum_tag : Received → Option Received
  insert_opnum_tag r = do
    r1 ← insert_into_hash_and_list Words.opnum r
    insert_into_hash_and_list Words.tag r1

  unfoldable pub insert_opnum_tag_payload : Received → Option Received
  insert_opnum_tag_payload r = do
    r1 ← insert_into_hash_and_list Words.opnum r
    r2 ← insert_into_hash_and_list Words.tag r1
    insert_into_hash_and_list Words.payload r2

  unfoldable pub receive_message_frames_at_server_abd : Bytes → Received → Option Received
  receive_message_frames_at_server_abd phase_name r = do
    r1 ← if streq phase_name Words.write_value then insert_opnum_tag_payload r else some r
    r2 ← if streq phase_name Words.get_tag then insert_opnum r1 else some r1
    if streq phase_name Words.get_tag_value then insert_opnum r2 else some r2

  unfoldable pub insert_disperse : Received → Option Received
  insert_disperse r = do
    r1 ← insert_into_hash_and_list Words.meta_send_tag r
    r2 ← insert_into_hash_and_list Words.meta_readerid r1
    r3 ← insert_into_hash_and_list Words.meta_read_tag r2
    insert_into_hash_and_list Words.opnum r3

  unfoldable pub receive_message_frames_at_server_sodaw : Bytes → Received → Option Received
  receive_message_frames_at_server_sodaw phase_name r = do
    r1 ← if streq phase_name Words.write_get then insert_opnum r else some r
    r2 ← if streq phase_name Words.read_get then insert_opnum r1 else some r1
    r3 ← if streq phase_name Words.write_put then insert_opnum_tag_payload r2 else some r2
    r4 ← if streq phase_name Words.read_value then insert_opnum_tag r3 else some r3
    r5 ← if streq phase_name Words.read_disperse then insert_disperse r4 else some r4
    if streq phase_name Words.read_complete then insert_opnum_tag r5 else some r5

  unfoldable pub dispatch_algorithm : Bytes → Bytes → Received → Option Received
  dispatch_algorithm algorithm_name phase_name r =
      if streq algorithm_name Words.abd
      then receive_message_frames_at_server_abd phase_name r
      else if streq algorithm_name Words.sodaw
      then receive_message_frames_at_server_sodaw phase_name r
      else some r

  unfoldable pub receive_message_frames_at_server : List Bytes → Option Received
  receive_message_frames_at_server msg = do
    r1 ← insert_into_hash_and_list Words.sender (start msg)
    r2 ← insert_into_hash_and_list Words.clientid r1
    r3 ← insert_into_hash_and_list Words.object r2
    object_name ← get_string_frame Z bufsize r3.frames Words.object
    r4 ← insert_into_hash_and_list Words.algorithm r3
    algorithm_name ← get_string_frame Z bufsize r4.frames Words.algorithm
    r5 ← insert_into_hash_and_list Words.phase r4
    phase_name ← get_string_frame Z bufsize r5.frames Words.phase
    dispatch_algorithm algorithm_name phase_name r5

  -- A coded element comes behind its tag and its operation number.
  unfoldable pub insert_tag_opnum_payload : Received → Option Received
  insert_tag_opnum_payload r = do
    r1 ← insert_into_hash_and_list Words.tag r
    r2 ← insert_into_hash_and_list Words.opnum r1
    insert_into_hash_and_list Words.payload r2

  unfoldable pub client_abd : Bytes → Received → Option Received
  client_abd phase_name r = do
    r1 ← if streq phase_name Words.get_tag then insert_opnum_tag r else some r
    r2 ← if streq phase_name Words.write_value then insert_opnum_tag r1 else some r1
    if streq phase_name Words.get_tag_value then insert_opnum_tag_payload r2 else some r2

  unfoldable pub client_sodaw : Bytes → Received → Option Received
  client_sodaw phase_name r = do
    r1 ← if streq phase_name Words.write_get then insert_opnum_tag r else some r
    r2 ← if streq phase_name Words.read_get then insert_opnum_tag r1 else some r1
    r3 ← if streq phase_name Words.write_put then insert_opnum_tag r2 else some r2
    if streq phase_name Words.read_value then insert_tag_opnum_payload r3 else some r3

  unfoldable pub receive_message_frames_at_client : List Bytes → Option Received
  receive_message_frames_at_client msg = do
    r1 ← insert_into_hash_and_list Words.serverid (start msg)
    r2 ← insert_into_hash_and_list Words.object r1
    r3 ← insert_into_hash_and_list Words.algorithm r2
    algorithm_name ← get_string_frame Z bufsize r3.frames Words.algorithm
    r4 ← insert_into_hash_and_list Words.phase r3
    phase_name ← get_string_frame Z bufsize r4.frames Words.phase
    r5 ← if streq algorithm_name Words.abd then client_abd phase_name r4 else some r4
    if streq algorithm_name Words.sodaw then client_sodaw phase_name r5 else some r5
