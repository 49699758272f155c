-- ===== src/Examples/Storage.antt =====
-- Three servers of SODAW: two take their stripes of a write, and then a reader asks.
use colas.Common.{
  fits, c_str, true, false, ◌+◌, ℕ, ◌≡◌, refl, arith, none, some, Option, List, [], ◌∷◌, ◌++◌,
  Bytes, codes, streq, strcmp,
}
use colas.Tag.Decimal.{print_int, digits, atoi, scan}
use colas.Tag.Text.{tag_text, tag_to_string, string_to_tag, split_underscore}
use colas.Tag.{compare_tags}
use colas.Codec.{reed_solomon}
use colas.Codec.Stripes.{stripe}
use colas.Sodaw.Dispatch.{
  SodawState, initialize_sodaw, algorithm_sodaw, dispatch_sodaw, read_value, register, send_stored,
}
use colas.Sodaw.Server.{
  SodawArgs, write_put, relay, replace_element, write_get_or_read_get_tag, disperse,
  send_reader_coded_element,
}
use colas.Store.{
  has_object, create_object, get_object_tag, object_table, store_payload, put_frame,
  get_object_frame,
}
use colas.Sodaw.System.{System, Serves, put_server, At, IsRequest}
use colas.Sodaw.Relaying.{element}
use colas.Store.Entry.{View}
use colas.Client.Reply.{
  Answer, Kind, answer_frames, kind_phase, kind_algorithm, shown, answer_header, answer_rest,
}
use colas.Wire.Delivery.{Request, algorithm_of, phase_of, body, header, values}
use colas.Wire.Receive.{
  Received, receive_message_frames_at_server, receive_message_frames_at_server_sodaw,
  dispatch_algorithm, insert_into_hash_and_list, insert_into_hash, insert_opnum, insert_opnum_tag,
  insert_opnum_tag_payload,
}
use colas.Wire.Read.{get_string_frame, get_uint_frame, get_tag_frame}
use colas.Wire.Send.{send_frames_at_server, send_multicast_servers, make_frames, multicast_frame}
use colas.Wire.Uint.{uint_frame, zframe_uint}
use colas.Words
use colas.Zhash.Keys.{member}
use colas.Zhash.Assoc.{assoc, find, add, put, without, names}
use colas.Examples.Codec.{repeated}
use colas.Examples.Data.{object, text, blob, init_text, reply, written_tag, reads_text}

abbrev pub server_args : ℕ → SodawArgs
server_args i = record { server_id = b's' ∷ (b'0' + i) ∷ []; init_data = blob; num_servers = 3 }

abbrev pub start : System assoc server_args
start i = record {
  initialized = false;
  server = record {
    objects = [];
    reading = [];
    readed = [];
    history = [];
    to_clients = [];
    to_servers = [];
  };
}

abbrev pub blocks : List Bytes
blocks = codes "tenlette" ∷ codes "rs      " ∷ []

-- The stripe of server `i`.
abbrev pub element_of : ℕ → Bytes
element_of i = stripe repeated reed_solomon 2 4 3 i blocks 0

abbrev pub write : ℕ → Request
write i = Request.write_put 1 text (element_of i)

abbrev or_else : {A : Type 0} → A → Option A → A
or_else a none = a
or_else a (some b) = b

module _ (client : Bytes) (q : Request) where
  abbrev message : List Bytes
  message = values (header (codes "id") client object (algorithm_of q) (phase_of q) ++ body q)

  abbrev pub taken : Received assoc
  taken =
      or_else (record { msg = []; frames = []; names = [] })
        (receive_message_frames_at_server assoc message)

abbrev pub served : ℕ → Bytes → Request → SodawState assoc → SodawState assoc
served i client q st = or_else st (algorithm_sodaw assoc (server_args i) (taken client q).frames st)

-- The requests are taken apart.
abbrev pub Receives : Bytes → Request → Type 0
Receives client q =
    receive_message_frames_at_server assoc (message client q) ≡ some (taken client q)

pub received :
    ((i : ℕ) → Receives (codes "w0") (write i))
    × Receives (codes "w1") (Request.write_get 7)
    × Receives (codes "w1") (Request.read_get 7)
    × Receives (codes "w1") (Request.read_value 7 text)
unfolding receive_message_frames_at_server receive_message_frames_at_server_sodaw dispatch_algorithm
    insert_into_hash_and_list insert_into_hash insert_opnum insert_opnum_tag
    insert_opnum_tag_payload algorithm_of phase_of body streq put add find without get_string_frame
    fits c_str
received = (λ i. refl, refl, refl, refl)

-- The requests are handled.
abbrev pub Handles : ℕ → Bytes → Request → SodawState assoc → Type 0
Handles i client q st =
    algorithm_sodaw assoc (server_args i) (taken client q).frames st ≡ some (served i client q st)

-- A server that has taken the write.
abbrev pub stored : ℕ → SodawState assoc
stored i = record {
  initialized = true;
  server = record {
    objects = (object, (text, element_of i) ∷ []) ∷ [];
    reading = [];
    readed = [];
    history = [];
    to_clients =
        (codes "id"
          ∷ (server_args i).server_id
          ∷ object
          ∷ Words.sodaw
          ∷ Words.write_put
          ∷ uint_frame 1
          ∷ text
          ∷ [])
        ∷ [];
    to_servers = [];
  };
}

write_handled :
    (i : ℕ)
    → algorithm_sodaw assoc (server_args i) (taken (codes "w0") (write i)).frames (start i)
      ≡ some (stored i)
unfolding receive_message_frames_at_server receive_message_frames_at_server_sodaw dispatch_algorithm
    insert_into_hash_and_list insert_into_hash insert_opnum insert_opnum_tag
    insert_opnum_tag_payload algorithm_of phase_of body streq put add find without get_string_frame
    fits c_str algorithm_sodaw initialize_sodaw has_object create_object object_table store_payload
    put_frame get_object_tag get_object_frame atoi scan split_underscore string_to_tag tag_text
    print_int digits tag_to_string dispatch_sodaw write_put read_value register send_stored
    write_get_or_read_get_tag get_uint_frame get_tag_frame zframe_uint uint_frame relay
    replace_element send_frames_at_server send_multicast_servers make_frames multicast_frame
    disperse send_reader_coded_element compare_tags strcmp names member
write_handled i = refl

-- What a server has sent to the clients when it has handled the request, and nothing else.
abbrev pub Tells : ℕ → Request → SodawState assoc → Answer → Type 0
Tells i q st a =
    Handles i (codes "w1") q st
    × ((served i (codes "w1") q st).server.to_clients ≡ (codes "id" ∷ answer_frames a) ∷ [])

-- The reply with the stripe of server `i`.
abbrev pub share : ℕ → Answer
share i = record (reply i Kind.read_value text) { value = element_of i }

pub told :
    (i : ℕ)
    → Tells i (Request.write_get 7) (stored i) (reply i Kind.write_get text)
      × Tells i (Request.write_get 7) (start i) (reply i Kind.write_get init_text)
      × Tells i (Request.read_get 7) (stored i) (reply i Kind.read_get text)
      × Tells i (Request.read_get 7) (start i) (reply i Kind.read_get init_text)
      × Tells i (Request.read_value 7 text) (stored i) (share i)
unfolding receive_message_frames_at_server receive_message_frames_at_server_sodaw dispatch_algorithm
    insert_into_hash_and_list insert_into_hash insert_opnum insert_opnum_tag
    insert_opnum_tag_payload algorithm_of phase_of body streq put add find without get_string_frame
    fits c_str algorithm_sodaw initialize_sodaw has_object create_object object_table store_payload
    put_frame get_object_tag get_object_frame atoi scan split_underscore string_to_tag tag_text
    print_int digits tag_to_string dispatch_sodaw write_put read_value register send_stored
    write_get_or_read_get_tag get_uint_frame get_tag_frame zframe_uint uint_frame relay
    replace_element send_frames_at_server send_multicast_servers make_frames multicast_frame
    disperse send_reader_coded_element compare_tags strcmp names member answer_frames kind_phase
    kind_algorithm shown answer_header answer_rest element
told i = ((refl, refl), (refl, refl), (refl, refl), (refl, refl), (refl, refl))

pub serving :
    (s : System assoc server_args) (i : ℕ) (client : Bytes) (q : Request) (st : SodawState assoc)
    → Receives client q
    → algorithm_sodaw assoc (server_args i) (taken client q).frames (s i) ≡ some st
    → Serves assoc server_args s i
        (codes "id")
        client
        object
        q
        st.server.to_clients
        (put_server assoc server_args s i st)
serving s i client q st taken_apart handled = record {
  r = taken client q;
  st = st;
  received = taken_apart;
  handled = handled;
  sent = refl;
  after = refl;
}

-- Servers 0 and 2 take the write.
abbrev pub first : System assoc server_args
first = put_server assoc server_args start 0 (stored 0)

abbrev pub after : System assoc server_args
after = put_server assoc server_args first 2 (stored 2)

pub first_serves :
    Serves assoc server_args start 0
      (codes "id")
      (codes "w0")
      object
      (write 0)
      (stored 0).server.to_clients
      first
first_serves = serving start 0 (codes "w0") (write 0) (stored 0) (received.0 0) (write_handled 0)

pub second_serves :
    Serves assoc server_args first 2
      (codes "id")
      (codes "w0")
      object
      (write 2)
      (stored 2).server.to_clients
      after
second_serves = serving first 2 (codes "w0") (write 2) (stored 2) (received.0 2) (write_handled 2)

prints : text ≡ tag_text written_tag
unfolding tag_text print_int digits
prints = refl

pub write-IsRequest :
    (i : ℕ) → IsRequest assoc server_args (codes "id") (codes "w0") object (write i)
write-IsRequest i = (
  (written_tag, reads_text, prints, omega arith, omega arith),
  (omega arith, omega arith),
  (omega arith, omega arith),
  (omega arith, omega arith),
)

-- No server has an object.
abbrev pub nothing : View
nothing o = none

pub start-At : (i : ℕ) → At assoc server_args start i nothing
unfolding initialize_sodaw find
start-At i = record {
  shows = λ o. tt;
  printed = λ name e q. absurd (cc q);
  tables = record { filed = λ id. tt; only_one = λ id. tt; open_history = λ k. tt };
}
