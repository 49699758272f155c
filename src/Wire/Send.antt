-- ===== src/Wire/Send.antt =====
-- Building the frames of a request and sending them: `send_multicast_servers` and
-- `send_multisend_servers` of src/baseprocess/client.c, `md_meta_send` of
-- src/utilities/md-primitive.c and `send_frames_at_server` of src/baseprocess/server.c. The DEALER
-- socket hands the messages to the connected servers in turn, so message i goes to server i.
use colas.Common.{
  ℕ, zero, suc, Option, none, some, List, [], ◌∷◌, ◌++◌, ◌>>=◌, if◌then◌else◌, Bytes, streq,
}
use colas.Wire.Uint.{uint_frame}
use colas.Wire.Read.{Frames}
use colas.Words
use colas.Zhash.{Zhash}

-- What a variadic argument points to: a C string, an `unsigned int`, the bytes of a `RawData`.
pub data Argument : Type 0 where
  text : Bytes → Argument
  uint : ℕ → Argument
  raw : Bytes → Argument

-- The name of a frame says how its argument is read; `none` is a read at another type.
unfoldable pub multicast_frame : Bytes → Argument → Option Bytes
multicast_frame name (uint n) = if streq name Words.opnum then some (uint_frame n) else none
multicast_frame name (raw bytes) =
    if streq name Words.opnum then none else if streq name Words.payload then some bytes else none
multicast_frame name (text s) =
    if streq name Words.opnum then none else if streq name Words.payload then none else some s

-- `send_multisend_servers` has no branch for payloads.
unfoldable pub multisend_frame : Bytes → Argument → Option Bytes
multisend_frame name (uint n) = if streq name Words.opnum then some (uint_frame n) else none
multisend_frame name (raw bytes) = none
multisend_frame name (text s) = if streq name Words.opnum then none else some s

module _ (frame_of : Bytes → Argument → Option Bytes) where
  -- The loop over the names; too few arguments are read past their end.
  unfoldable pub make_frames : List Bytes → List Argument → Option (List Bytes)
  make_frames [] values = some []
  make_frames (name ∷ names) [] = none
  make_frames (name ∷ names) (value ∷ values) =
      let rest = make_frames names values in
      do frame ← frame_of name value; frames ← rest; some (frame ∷ frames)

abbrev pub replicate : ℕ → List Bytes → List (List Bytes)
replicate zero frames = []
replicate (suc n) frames = frames ∷ replicate n frames

-- The messages that leave, one for each server.
unfoldable pub send_multicast_servers : ℕ → List Bytes → List Argument → Option (List (List Bytes))
unfolding make_frames
send_multicast_servers num_servers names values = do
  frames ← make_frames multicast_frame names values
  some (replicate num_servers frames)

-- `md_meta_send` builds and sends its frames as `send_multicast_servers` does.
unfoldable pub md_meta_send : ℕ → List Bytes → List Argument → Option (List (List Bytes))
unfolding make_frames
md_meta_send num_servers names values = do
  frames ← make_frames multicast_frame names values
  some (replicate num_servers frames)

-- Server i gets the common frames and behind them its own coded element.
unfoldable pub with_element : ℕ → List Bytes → List Bytes → Option (List (List Bytes))
with_element zero frames messages = some []
with_element (suc n) frames [] = none
with_element (suc n) frames (message ∷ messages) =
    let rest = with_element n frames messages in
    do sent ← rest; some ((frames ++ message ∷ []) ∷ sent)

unfoldable pub send_multisend_servers :
    ℕ → List Bytes → List Bytes → List Argument → Option (List (List Bytes))
unfolding make_frames with_element
send_multisend_servers num_servers messages names values = do
  frames ← make_frames multisend_frame names values
  with_element num_servers frames messages

module _ (Z : Zhash) where
  -- A name with no frame fails an `assert`.
  unfoldable pub send_frames_at_server : Frames Z → List Bytes → Option (List Bytes)
  send_frames_at_server frames [] = some []
  send_frames_at_server frames (key ∷ keys) =
      let rest = send_frames_at_server frames keys in
      do frame ← Z.lookup frames key; sent ← rest; some (frame ∷ sent)
