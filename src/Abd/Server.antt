-- ===== src/Abd/Server.antt =====
-- The server of ABD: src/abd/abd_server.c. The counters of `status` are floats that only the log
-- shows, and are left out.
use colas.Common.{
  Bool, true, Option, some, List, [], ◌∷◌, ◌++◌, if◌then◌else◌, ◌>>=◌, ◌==◌, assert, head?, length,
  Bytes, streq,
}
use colas.Common.Int.{negsuc, eqb_ℤ}
use colas.Tag.{Tag, compare_tags}
use colas.Tag.Text.{tag_to_string, string_to_tag}
use colas.Store.{Objects, has_object, get_object_tag, create_object}
use colas.Wire.Read.{Frames, get_string_frame, get_uint_frame}
use colas.Wire.Send.{send_frames_at_server}
use colas.Words
use colas.Words.{bufsize}
use colas.Zhash.{Zhash}

-- What the handlers read of `Server_Args`.
pub record ServerArgs : Type 0 where
  pub server_id : Bytes
  pub init_data : Bytes

abbrev pub reply_names : List Bytes
reply_names =
    Words.sender ∷ Words.serverid ∷ Words.object ∷ Words.algorithm ∷ Words.phase ∷ Words.opnum
    ∷ Words.tag ∷ []

module _ (Z : Zhash) where
  -- The objects, the frames of the request with what the handlers add, and the messages sent.
  pub record Handled : Type 0 where
    pub objects : Objects Z
    pub frames : Frames Z
    pub sent : List (List Bytes)

  -- A tag that `get_object_tag` does not set is read before it is written: a fault.
  unfoldable pub local_tag_of : Objects Z → Bytes → Option Tag
  local_tag_of objects object_name = do found ← get_object_tag Z objects object_name; found

  -- Put the server's id in and send the named frames.
  unfoldable pub send_reply :
      ServerArgs → List Bytes → Objects Z → Frames Z → List (List Bytes) → Option Handled
  send_reply args names objects frames sent =
      let with_id = Z.insert frames Words.serverid args.server_id in
      do
        reply ← send_frames_at_server Z with_id names
        some (record { objects = objects; frames = with_id; sent = sent ++ reply ∷ [] })

  -- The one entry of the object is deleted, and the new tag and value are inserted.
  unfoldable pub replace_value : Objects Z → Bytes → Bytes → Frames Z → Option (Objects Z)
  replace_value objects object_name tag_str frames = do
    table ← Z.lookup objects object_name
    key ← head? (Z.keys table)
    item ← Z.lookup table key
    payload ← Z.lookup frames Words.payload
    some (Z.update objects object_name (Z.insert (Z.delete table key) tag_str payload))

  unfoldable pub algorithm_abd_write_value : ServerArgs → Handled → Option Handled
  algorithm_abd_write_value args h = do
    tag_str ← get_string_frame Z bufsize h.frames Words.tag
    tag ← string_to_tag tag_str
    object_name ← get_string_frame Z bufsize h.frames Words.object
    local_tag ← local_tag_of h.objects object_name
    objects ←
        if eqb_ℤ (compare_tags local_tag tag) (negsuc 0)
        then replace_value h.objects object_name tag_str h.frames
        else some h.objects
    phase ← get_string_frame Z bufsize h.frames Words.phase
    send_reply args reply_names objects (Z.insert h.frames Words.acknowledge Words.success) h.sent

  unfoldable pub algorithm_abd_get_tag : ServerArgs → Handled → Option Handled
  algorithm_abd_get_tag args h = do
    object_name ← get_string_frame Z bufsize h.frames Words.object
    tag ← local_tag_of h.objects object_name
    tag_buf ← tag_to_string bufsize tag
    opnum ← get_uint_frame Z h.frames Words.opnum
    send_reply args reply_names h.objects (Z.insert h.frames Words.tag tag_buf) h.sent

  -- The stored value, with the check that the object has one tag.
  unfoldable pub stored_value : Objects Z → Bytes → Option Bytes
  stored_value objects object_name = do
    table ← Z.lookup objects object_name
    let keys = Z.keys table
    assert (length keys == 1) (do key ← head? keys; Z.lookup table key)

  unfoldable pub algorithm_abd_get_tag_value : ServerArgs → Handled → Option Handled
  algorithm_abd_get_tag_value args h = do
    object_name ← get_string_frame Z bufsize h.frames Words.object
    tag ← local_tag_of h.objects object_name
    tag_buf ← tag_to_string bufsize tag
    value ← stored_value h.objects object_name
    sent ←
        send_reply args (reply_names ++ Words.payload ∷ []) h.objects
          (Z.insert (Z.insert h.frames Words.tag tag_buf) Words.payload value) h.sent
    some (record sent { frames = Z.delete sent.frames Words.payload })

  pub record State : Type 0 where
    pub initialized : Bool
    pub objects : Objects Z

  -- `initialize_ABD`, at the first message.
  unfoldable pub initialize_abd : State → State
  initialize_abd s =
      if s.initialized then s else record { initialized = true; objects = Z.new (Z.Table Bytes) }

  -- The tests on the phase, one after the other.
  unfoldable pub dispatch_phase : ServerArgs → Bytes → Handled → Option Handled
  dispatch_phase args phase h = do
    h1 ← if streq phase Words.get_tag then algorithm_abd_get_tag args h else some h
    h2 ← if streq phase Words.write_value then algorithm_abd_write_value args h1 else some h1
    if streq phase Words.get_tag_value then algorithm_abd_get_tag_value args h2 else some h2

  -- `algorithm_ABD`: the new state and the messages sent to the client.
  unfoldable pub algorithm_abd : ServerArgs → Frames Z → State → Option (State × List (List Bytes))
  algorithm_abd args frames s =
      let ready = initialize_abd s in
      do
        phase ← get_string_frame Z bufsize frames Words.phase
        object_name ← get_string_frame Z bufsize frames Words.object
        made ←
            if has_object Z ready.objects object_name
            then some (ready.objects, 0)
            else create_object Z ready.objects object_name Words.abd args.init_data
        handled ←
            dispatch_phase args phase (record { objects = made.0; frames = frames; sent = [] })
        some (record { initialized = true; objects = handled.objects }, handled.sent)
