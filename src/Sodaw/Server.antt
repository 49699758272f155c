-- ===== src/Sodaw/Server.antt =====
-- The server of SODAW: src/sodaw/sodaw_server.c. The dumps of its tables and the counters of
-- `status` only serve the log, and are left out.
use colas.Common.{
  ℕ, Bool, false, Option, none, some, List, [], ◌∷◌, ◌++◌, ◌>>=◌, if◌then◌else◌, head?, leb, ltb,
  Bytes, is_some,
}
use colas.Common.Int.{pos, ltb_ℤ}
use colas.Tag.{Tag, compare_tags}
use colas.Tag.Text.{tag_to_string, string_to_tag}
use colas.Sodaw.History.{History, history_clear}
use colas.Store.{Objects, get_object_tag}
use colas.Wire.Read.{Frames, get_string_frame, get_uint_frame}
use colas.Wire.Send.{text, uint, send_frames_at_server, send_multicast_servers}
use colas.Wire.Uint.{uint_frame}
use colas.Words
use colas.Words.{bufsize}
use colas.Zhash.{Zhash}

-- What the handlers read of `Server_Args`.
pub record SodawArgs : Type 0 where
  pub server_id : Bytes
  pub init_data : Bytes
  pub num_servers : ℕ

-- A reader with the tag that it asked for. (`done_by_who` is set to 0 and not read.)
pub record RegReader : Type 0 where
  pub t_r : Tag
  pub reader_id : Bytes
  pub opnum : ℕ

-- `readed && readed->opnum >= opnum`
abbrev pub reaches : Option RegReader → ℕ → Bool
reaches none opnum = false
reaches (some r) opnum = leb opnum r.opnum

-- `reading && reading->opnum > opnum`
abbrev pub exceeds : Option RegReader → ℕ → Bool
exceeds none opnum = false
exceeds (some r) opnum = ltb opnum r.opnum

abbrev pub reply_names : List Bytes
reply_names =
    Words.sender ∷ Words.serverid ∷ Words.object ∷ Words.algorithm ∷ Words.phase ∷ Words.opnum
    ∷ Words.tag ∷ []

abbrev pub disperse_names : List Bytes
disperse_names =
    Words.serverid ∷ Words.object ∷ Words.algorithm ∷ Words.phase ∷ Words.meta_send_tag
    ∷ Words.meta_readerid ∷ Words.meta_read_tag ∷ Words.opnum ∷ []

-- The frames of a coded element for a reader.
unfoldable pub send_reader_coded_element :
    Bytes → Bytes → Bytes → Bytes → Bytes → Tag → ℕ → Bytes → Option (List Bytes)
send_reader_coded_element reader server object_name algorithm phase tagw opnum cs = do
  tag_w_buff ← tag_to_string bufsize tagw
  some (reader ∷ server ∷ object_name ∷ algorithm ∷ phase ∷ tag_w_buff ∷ uint_frame opnum ∷ cs ∷ [])

-- The messages of `READ_DISPERSE` to all servers.
unfoldable pub disperse : SodawArgs → Bytes → Bytes → Bytes → Bytes → ℕ → Option (List (List Bytes))
disperse args object_name tag_send reader tag_read opnum =
    send_multicast_servers args.num_servers disperse_names (
      text args.server_id
      ∷ text object_name
      ∷ text Words.sodaw
      ∷ text Words.read_disperse
      ∷ text tag_send
      ∷ text reader
      ∷ text tag_read
      ∷ uint opnum
      ∷ [])

module _ (Z : Zhash) where
  -- The tables of the server, and what it has sent: to the clients behind the ROUTER, and to servers.
  pub record Server : Type 0 where
    pub objects : Objects Z
    pub reading : Z.Table RegReader
    pub readed : Z.Table RegReader
    pub history : History Z
    pub to_clients : List (List Bytes)
    pub to_servers : List (List Bytes)

  -- `if(found) zhash_delete(...)`
  abbrev pub forget : Z.Table RegReader → Bytes → Z.Table RegReader
  forget table id = if is_some (Z.lookup table id) then Z.delete table id else table

  -- A reader leaves both tables. The asserts of the source repeat the tests before them.
  abbrev pub unregister : Server → Bytes → Server
  unregister s id = record s { reading = forget s.reading id; readed = forget s.readed id }

  abbrev pub send_ack : SodawArgs → Frames Z → Server → Option Server
  send_ack args frames s = do
    reply ← send_frames_at_server Z (Z.insert frames Words.serverid args.server_id) reply_names
    some (record s { to_clients = s.to_clients ++ reply ∷ [] })

  -- `algorithm_SODAW_WRITE_GET` and `algorithm_SODAW_READ_GET`
  unfoldable pub write_get_or_read_get_tag : SodawArgs → Frames Z → Server → Option Server
  write_get_or_read_get_tag args frames s = do
    object_name ← get_string_frame Z bufsize frames Words.object
    found ← get_object_tag Z s.objects object_name
    tag ← found
    tag_buf ← tag_to_string bufsize tag
    send_ack args (Z.insert frames Words.tag tag_buf) s

  -- A round of the loop over the readers in `algorithm_SODAW_WRITE_PUT`.
  unfoldable pub relay_to :
      SodawArgs → Bytes → Bytes → Tag → Bytes → Bytes → Server → Bytes → Option Server
  relay_to args object_name algorithm tag_w tag_w_str payload s key = do
    reader ← Z.lookup s.reading key
    tag_r_str ← tag_to_string bufsize reader.t_r
    if ltb_ℤ (compare_tags tag_w reader.t_r) (pos 0) then some s else (do
      element ←
          send_reader_coded_element reader.reader_id args.server_id object_name algorithm
            Words.read_value tag_w reader.opnum payload
      sent ← disperse args object_name tag_w_str reader.reader_id tag_r_str reader.opnum
      some (record s {
        to_clients = s.to_clients ++ element ∷ [];
        to_servers = s.to_servers ++ sent;
      }))

  unfoldable pub relay :
      SodawArgs → Bytes → Bytes → Tag → Bytes → Bytes → List Bytes → Server → Option Server
  relay args object_name algorithm tag_w tag_w_str payload [] s = some s
  relay args object_name algorithm tag_w tag_w_str payload (key ∷ keys) s = do
    s' ← relay_to args object_name algorithm tag_w tag_w_str payload s key
    relay args object_name algorithm tag_w tag_w_str payload keys s'

  -- The element of the object is deleted, and the new one inserted.
  unfoldable pub replace_element : Objects Z → Bytes → Bytes → Bytes → Option (Objects Z)
  replace_element objects object_name tag_w_str payload = do
    table ← Z.lookup objects object_name
    key ← head? (Z.keys table)
    item ← Z.lookup table key
    some (Z.update objects object_name (Z.insert (Z.delete table key) tag_w_str payload))

  unfoldable pub write_put : SodawArgs → Frames Z → Server → Option Server
  write_put args frames s = do
    tag_w_str ← get_string_frame Z bufsize frames Words.tag
    tag_w ← string_to_tag tag_w_str
    payload ← Z.lookup frames Words.payload
    senderid ← get_string_frame Z bufsize frames Words.sender
    writerid ← get_string_frame Z bufsize frames Words.clientid
    algorithm ← get_string_frame Z bufsize frames Words.algorithm
    object_name ← get_string_frame Z bufsize frames Words.object
    opnum ← get_uint_frame Z frames Words.opnum
    found ← get_object_tag Z s.objects object_name
    tag ← found
    s' ←
        if ltb_ℤ (pos 0) (compare_tags tag_w tag)
        then (do
          relayed ← relay args object_name algorithm tag_w tag_w_str payload (Z.keys s.reading) s
          objects ← replace_element relayed.objects object_name tag_w_str payload
          some (record relayed { objects = objects }))
        else some s
    send_ack args frames s'

  -- The end of a read: the reader is in the table of those that have read, without history.
  unfoldable pub complete : Server → Tag → Bytes → ℕ → Option Server
  complete s tag readerid opnum =
      let left = unregister s readerid in
      do
        history ← history_clear Z readerid opnum left.history
        some (record left {
          readed =
              Z.insert left.readed readerid
                (record { t_r = tag; reader_id = readerid; opnum = opnum });
          history = history;
        })

  unfoldable pub read_complete : Frames Z → Server → Option Server
  read_complete frames s = do
    tag_r_str ← get_string_frame Z bufsize frames Words.tag
    tag_r ← string_to_tag tag_r_str
    readerid ← get_string_frame Z bufsize frames Words.clientid
    opnum ← get_uint_frame Z frames Words.opnum
    if exceeds (Z.lookup s.reading readerid) opnum
        then some s
        else if reaches (Z.lookup s.readed readerid) opnum
        then some s
        else complete s tag_r readerid opnum
