-- ===== src/Sodaw/Dispatch.antt =====
-- `algorithm_SODAW_READ_DISPERSE`, `algorithm_SODAW_READ_VALUE` and `algorithm_SODAW` of
-- src/sodaw/sodaw_server.c.
use colas.Common.{
  ℕ, Bool, true, Option, some, [], ◌∷◌, ◌++◌, ◌>>=◌, if◌then◌else◌, leb, length, Bytes, streq,
}
use colas.Common.Int.{pos, ltb_ℤ}
use colas.Tag.{Tag, compare_tags}
use colas.Tag.Text.{tag_to_string, string_to_tag}
use colas.Client.Majority.{majority}
use colas.Sodaw.History.{HistoryData, history_data_keystring, history_lookup}
use colas.Sodaw.Server.{
  SodawArgs, RegReader, reaches, exceeds, Server, unregister, complete, read_complete, write_put,
  write_get_or_read_get_tag, send_reader_coded_element, disperse,
}
use colas.Store.{has_object, get_object_tag, get_object_frame, create_object}
use colas.Wire.Read.{Frames, get_string_frame, get_uint_frame, get_tag_frame}
use colas.Words
use colas.Words.{bufsize}
use colas.Zhash.{Zhash}

module _ (Z : Zhash) where
  -- The entry goes into the history, and the read is complete if K servers have relayed the tag.
  unfoldable pub record_relay : SodawArgs → Server Z → HistoryData → Tag → Option (Server Z)
  record_relay args s his read_tag = do
    his_key ← history_data_keystring his
    let history = Z.insert s.history his_key his
    his_set ← history_lookup Z his.readerid his.opnum his.send_tag_str history
    if leb (majority args.num_servers) (length his_set)
        then complete Z (record s { history = history }) read_tag his.readerid his.opnum
        else some (record s { history = history })

  unfoldable pub read_disperse : SodawArgs → Frames Z → Server Z → Option (Server Z)
  read_disperse args frames s = do
    senderid ← get_string_frame Z bufsize frames Words.clientid
    object_name ← get_string_frame Z bufsize frames Words.object
    tag_send_str ← get_string_frame Z bufsize frames Words.meta_send_tag
    tag_read_str ← get_string_frame Z bufsize frames Words.meta_read_tag
    send_tag ← string_to_tag tag_send_str
    read_tag ← string_to_tag tag_read_str
    readerid ← get_string_frame Z bufsize frames Words.meta_readerid
    opnum ← get_uint_frame Z frames Words.opnum
    if reaches (Z.lookup s.readed readerid) opnum
        then some s
        else if exceeds (Z.lookup s.reading readerid) opnum
        then some s
        else record_relay args s
            (record {
              readerid = readerid;
              senderid = senderid;
              read_tag_str = tag_read_str;
              send_tag_str = tag_send_str;
              opnum = opnum;
            })
            read_tag

  -- The reader is registered; its older registrations are gone.
  unfoldable pub register : Server Z → Tag → Bytes → ℕ → Server Z
  register s tag_r reader_id opnum =
      let left = unregister Z s reader_id in
      record left {
        reading =
            Z.insert left.reading reader_id
              (record { t_r = tag_r; reader_id = reader_id; opnum = opnum });
      }

  -- The stored element, if its tag is not older than the one that the reader asks for.
  unfoldable pub send_stored :
      SodawArgs → Bytes → Bytes → Bytes → Bytes → Tag → ℕ → Server Z → Option (Server Z)
  send_stored args sender_id reader_id object_name algorithm_name tag_r opnum s = do
    found ← get_object_tag Z s.objects object_name
    tag_loc ← found
    if ltb_ℤ (compare_tags tag_loc tag_r) (pos 0) then some s else (do
      payload ← get_object_frame Z s.objects object_name tag_loc
      element ←
          send_reader_coded_element sender_id args.server_id object_name algorithm_name
            Words.read_value tag_loc opnum payload
      tag_loc_str ← tag_to_string bufsize tag_loc
      tag_r_str ← tag_to_string bufsize tag_r
      sent ← disperse args object_name tag_loc_str reader_id tag_r_str opnum
      some (record s {
        to_clients = s.to_clients ++ element ∷ [];
        to_servers = s.to_servers ++ sent;
      }))

  unfoldable pub read_value : SodawArgs → Frames Z → Server Z → Option (Server Z)
  read_value args frames s = do
    sender_id ← get_string_frame Z bufsize frames Words.sender
    reader_id ← get_string_frame Z bufsize frames Words.clientid
    opnum ← get_uint_frame Z frames Words.opnum
    object_name ← get_string_frame Z bufsize frames Words.object
    algorithm_name ← get_string_frame Z bufsize frames Words.algorithm
    tag_r ← get_tag_frame Z frames
    if reaches (Z.lookup s.readed reader_id) opnum
        then some s
        else if exceeds (Z.lookup s.reading reader_id) opnum
        then some s
        else send_stored args sender_id reader_id object_name algorithm_name tag_r opnum
            (register s tag_r reader_id opnum)

  pub record SodawState : Type 0 where
    pub initialized : Bool
    pub server : Server Z

  -- `initialize_SODAW`, at the first message; K is the majority of the servers.
  unfoldable pub initialize_sodaw : SodawState → SodawState
  initialize_sodaw st = if st.initialized then st else record {
    initialized = true;
    server = record {
      objects = Z.new (Z.Table Bytes);
      reading = Z.new RegReader;
      readed = Z.new RegReader;
      history = Z.new HistoryData;
      to_clients = [];
      to_servers = [];
    };
  }

  -- The handlers, one of which is called.
  unfoldable pub dispatch_sodaw : SodawArgs → Bytes → Frames Z → Server Z → Option (Server Z)
  dispatch_sodaw args phase frames s =
      if streq phase Words.write_get
      then write_get_or_read_get_tag Z args frames s
      else if streq phase Words.write_put
      then write_put Z args frames s
      else if streq phase Words.read_get
      then write_get_or_read_get_tag Z args frames s
      else if streq phase Words.read_value
      then read_value args frames s
      else if streq phase Words.read_complete
      then read_complete Z frames s
      else if streq phase Words.read_disperse
      then read_disperse args frames s
      else some s

  unfoldable pub algorithm_sodaw : SodawArgs → Frames Z → SodawState → Option SodawState
  algorithm_sodaw args frames st =
      let ready = initialize_sodaw st in
      do
        phase ← get_string_frame Z bufsize frames Words.phase
        object_name ← get_string_frame Z bufsize frames Words.object
        made ←
            if has_object Z ready.server.objects object_name
            then some (ready.server.objects, 0)
            else create_object Z ready.server.objects object_name Words.sodaw args.init_data
        s ← dispatch_sodaw args phase frames (record {
          objects = made.0;
          reading = ready.server.reading;
          readed = ready.server.readed;
          history = ready.server.history;
          to_clients = [];
          to_servers = [];
        })
        some (record { initialized = true; server = s })
