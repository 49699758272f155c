-- ===== src/Wire/Delivery.antt =====
-- What a server finds in the messages that the clients send.
use colas.Common.{
  ℕ, ◌<◌, ◌≡◌, refl, ◌∙◌, Option, some, List, [], ◌∷◌, ◌++◌, arith, Bytes, streq, IsCString, length,
}
use colas.Wire.Read.{get_string_frame, get_string_frame_present}
use colas.Wire.Receive.{
  Received, receive_message_frames_at_server, insert_into_hash_and_list, insert_opnum,
  insert_opnum_tag, insert_opnum_tag_payload, insert_disperse, receive_message_frames_at_server_abd,
  receive_message_frames_at_server_sodaw, dispatch_algorithm,
}
use colas.Wire.Carries.{Carries, fill, Carries-fill_new}
use colas.Wire.Uint.{uint_frame}
use colas.Wire.Send.{Argument, text, uint, raw, replicate, multicast_frame, send_multicast_servers}
use colas.Words
use colas.Words.{bufsize}
use colas.Zhash.{Zhash}
use colas.Zhash.Assoc.{Assoc, find}

-- The frames that every request begins with: the identity that the ROUTER socket puts in front, the
-- client, the object, the algorithm and the phase.
abbrev pub header : Bytes → Bytes → Bytes → Bytes → Bytes → Assoc Bytes
header sender client object algorithm phase =
    (Words.sender, sender)
    ∷ (Words.clientid, client)
    ∷ (Words.object, object)
    ∷ (Words.algorithm, algorithm)
    ∷ (Words.phase, phase)
    ∷ []

abbrev pub values : Assoc Bytes → List Bytes
values [] = []
values ((k, v) ∷ l) = v ∷ values l

abbrev pub fields : Assoc Bytes → List Bytes
fields [] = []
fields ((k, v) ∷ l) = k ∷ fields l

-- The requests of clients, and `READ_DISPERSE` between servers, with what the source puts in them.
pub data Request : Type 0 where
  write_value : (op : ℕ) (tag : Bytes) (value : Bytes) → Request
  get_tag get_tag_value write_get read_get : (op : ℕ) → Request
  write_put : (op : ℕ) (tag : Bytes) (element : Bytes) → Request
  read_value read_complete : (op : ℕ) (tag : Bytes) → Request
  read_disperse : (send_tag reader read_tag : Bytes) (op : ℕ) → Request

unfoldable pub algorithm_of : Request → Bytes
algorithm_of (write_value _ _ _) = Words.abd
algorithm_of (get_tag _) = Words.abd
algorithm_of (get_tag_value _) = Words.abd
algorithm_of _ = Words.sodaw

unfoldable pub phase_of : Request → Bytes
phase_of (write_value _ _ _) = Words.write_value
phase_of (get_tag _) = Words.get_tag
phase_of (get_tag_value _) = Words.get_tag_value
phase_of (write_get _) = Words.write_get
phase_of (read_get _) = Words.read_get
phase_of (write_put _ _ _) = Words.write_put
phase_of (read_value _ _) = Words.read_value
phase_of (read_complete _ _) = Words.read_complete
phase_of (read_disperse _ _ _ _) = Words.read_disperse

-- The frames behind the header.
unfoldable pub body : Request → Assoc Bytes
body (write_value op t v) = (Words.opnum, uint_frame op) ∷ (Words.tag, t) ∷ (Words.payload, v) ∷ []
body (get_tag op) = (Words.opnum, uint_frame op) ∷ []
body (get_tag_value op) = (Words.opnum, uint_frame op) ∷ []
body (write_get op) = (Words.opnum, uint_frame op) ∷ []
body (read_get op) = (Words.opnum, uint_frame op) ∷ []
body (write_put op t v) = (Words.opnum, uint_frame op) ∷ (Words.tag, t) ∷ (Words.payload, v) ∷ []
body (read_value op t) = (Words.opnum, uint_frame op) ∷ (Words.tag, t) ∷ []
body (read_complete op t) = (Words.opnum, uint_frame op) ∷ (Words.tag, t) ∷ []
body (read_disperse st r rt op) =
    (Words.meta_send_tag, st)
    ∷ (Words.meta_readerid, r)
    ∷ (Words.meta_read_tag, rt)
    ∷ (Words.opnum, uint_frame op)
    ∷ []

-- The argument that stands for each frame of the body.
unfoldable pub arguments : Request → List Argument
arguments (write_value op t v) = uint op ∷ text t ∷ raw v ∷ []
arguments (get_tag op) = uint op ∷ []
arguments (get_tag_value op) = uint op ∷ []
arguments (write_get op) = uint op ∷ []
arguments (read_get op) = uint op ∷ []
arguments (write_put op t v) = uint op ∷ text t ∷ raw v ∷ []
arguments (read_value op t) = uint op ∷ text t ∷ []
arguments (read_complete op t) = uint op ∷ text t ∷ []
arguments (read_disperse st r rt op) = text st ∷ text r ∷ text rt ∷ uint op ∷ []

-- The names of the header of a request.
abbrev pub request_names : List Bytes
request_names = Words.clientid ∷ Words.object ∷ Words.algorithm ∷ Words.phase ∷ []

-- The call of `send_multicast_servers` that sends a request.
unfoldable pub multicast : ℕ → Bytes → Bytes → Request → Option (List (List Bytes))
multicast num_servers client object q =
    send_multicast_servers num_servers (request_names ++ fields (body q))
      (text client ∷ text object ∷ text (algorithm_of q) ∷ text (phase_of q) ∷ arguments q)

-- `send_multicast_servers`, called with the names and arguments of a request, sends every server
-- the header and the body, whatever the values.
pub multicast_lem :
    (num_servers : ℕ) (c o : Bytes) (q : Request)
    → multicast num_servers c o q
      ≡ some (replicate num_servers (c ∷ o ∷ algorithm_of q ∷ phase_of q ∷ values (body q)))
unfolding multicast send_multicast_servers multicast_frame streq body arguments algorithm_of
    phase_of
multicast_lem n c o (write_value op t v) = refl
multicast_lem n c o _ = refl

pub short_words :
    (q : Request)
    → IsCString (algorithm_of q)
      × (length (algorithm_of q) < bufsize)
      × IsCString (phase_of q)
      × (length (phase_of q) < bufsize)
unfolding algorithm_of phase_of
short_words (write_value _ _ _) = omega arith
short_words _ = omega arith

module _ (Z : Zhash) where
  -- A server that took the whole message apart, each frame under its name.
  abbrev pub Taken : Assoc Bytes → Type 0
  Taken l =
      (r : Received Z) × (receive_message_frames_at_server Z (values l) ≡ some r)
      × (r.msg ≡ [])
      × (r.names ≡ fields l)
      × Carries Z r.frames l

  abbrev filled : List Bytes → Assoc Bytes → Received Z
  filled msg l = record { msg = msg; frames = fill Z (Z.new Bytes) l; names = fields l }

  -- A frame that was taken reads as its value.
  read_filled :
      (l : Assoc Bytes) (name v : Bytes)
      → find l name ≡ some v
      → IsCString v
      → length v < bufsize
      → get_string_frame Z bufsize (fill Z (Z.new Bytes) l) name ≡ some v
  read_filled l name v e =
      get_string_frame_present Z bufsize (fill Z (Z.new Bytes) l) name v
        (Carries-fill_new Z l name ∙ e)

  -- Behind the header the algorithm and the phase decide what else is taken.
  receive-header :
      (s c o a p : Bytes) (rest : List Bytes)
      → IsCString o
      → length o < bufsize
      → IsCString a
      → length a < bufsize
      → IsCString p
      → length p < bufsize
      → receive_message_frames_at_server Z (s ∷ c ∷ o ∷ a ∷ p ∷ rest)
        ≡ dispatch_algorithm Z a p (filled rest (header s c o a p))
  unfolding receive_message_frames_at_server insert_into_hash_and_list find streq
  receive-header s c o a p rest ho lo ha la hp lp =
      let l : Assoc Bytes = (Words.sender, s) ∷ (Words.clientid, c) ∷ (Words.object, o) ∷ [] in
      rw (
        read_filled l Words.object o refl ho lo,
        read_filled (l ++ (Words.algorithm, a) ∷ []) Words.algorithm a refl ha la,
        read_filled (header s c o a p) Words.phase p refl hp lp,
      )

  dispatch-request :
      (q : Request) (s c o : Bytes)
      → dispatch_algorithm Z
          (algorithm_of q)
          (phase_of q)
          (filled (values (body q)) (header s c o (algorithm_of q) (phase_of q)))
        ≡ some (filled [] (header s c o (algorithm_of q) (phase_of q) ++ body q))
  unfolding algorithm_of phase_of body dispatch_algorithm receive_message_frames_at_server_abd
      receive_message_frames_at_server_sodaw insert_opnum insert_opnum_tag insert_opnum_tag_payload
      insert_disperse insert_into_hash_and_list streq
  dispatch-request (write_value op t v) s c o = refl
  dispatch-request _ s c o = refl

  values-header :
      (q : Request) (s c o a p : Bytes)
      → values (header s c o a p ++ body q) ≡ s ∷ c ∷ o ∷ a ∷ p ∷ values (body q)
  values-header q s c o a p = refl

  -- A server takes every request of ABD and SODAW apart completely, each frame under its name in
  -- the order of the names, if the object's name is a C string that fits its buffer.
  pub receive-request :
      (q : Request) (s c o : Bytes)
      → IsCString o
      → length o < bufsize
      → Taken (header s c o (algorithm_of q) (phase_of q) ++ body q)
  receive-request q s c o ho lo =
      let (ha, la, hp, lp) = short_words q in
      (
        filled [] (header s c o (algorithm_of q) (phase_of q) ++ body q),
        receive-header s c o (algorithm_of q) (phase_of q) (values (body q)) ho lo ha la hp lp
            ∙ dispatch-request q s c o,
        refl,
        refl,
        Carries-fill_new Z _,
      )
