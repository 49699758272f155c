-- ===== src/Worker.antt =====
-- The worker of a server process: `server_worker` of src/baseprocess/server.c, which takes the
-- messages in turn and hands each to its algorithm. A failing poll and `s_interrupted` end the process
-- and are left out, as is the count of the bytes received.
pub mod Serves
use colas.Common.{Option, none, some, List, [], ◌∷◌, ◌++◌, ◌>>=◌, if◌then◌else◌, Bytes, streq}
use colas.Abd.Server.{State, algorithm_abd}
use colas.Sodaw.Dispatch.{SodawState, algorithm_sodaw}
use colas.Sodaw.Server.{SodawArgs}
use colas.Wire.Read.{get_string_frame}
use colas.Wire.Receive.{receive_message_frames_at_server}
use colas.Words
use colas.Words.{bufsize}
use colas.Zhash.{Zhash}

module _ (Z : Zhash) where
  -- What the two algorithms keep in a process.
  pub record Process : Type 0 where
    pub abd : State Z
    pub sodaw : SodawState Z

  -- A process, and what it sent to clients and to servers.
  pub record Served : Type 0 where
    pub process : Process
    pub to_clients : List (List Bytes)
    pub to_servers : List (List Bytes)

  -- A round of the loop. A message of another algorithm is dropped.
  unfoldable pub serve_message : SodawArgs → Process → List Bytes → Option Served
  serve_message args p msg = do
    r ← receive_message_frames_at_server Z msg
    algorithm_name ← get_string_frame Z bufsize r.frames Words.algorithm
    if streq algorithm_name Words.abd
        then (do
          handled ←
              algorithm_abd Z (record { server_id = args.server_id; init_data = args.init_data })
                r.frames p.abd
          some (record {
            process = record p { abd = handled.0 };
            to_clients = handled.1;
            to_servers = [];
          }))
        else if streq algorithm_name Words.sodaw
        then (do
          st ← algorithm_sodaw Z args r.frames p.sodaw
          some (record {
            process = record p { sodaw = st };
            to_clients = st.server.to_clients;
            to_servers = st.server.to_servers;
          }))
        else some (record { process = p; to_clients = []; to_servers = [] })

  -- The loop over the messages that come.
  unfoldable pub server_worker : SodawArgs → Process → List (List Bytes) → Option Served
  unfolding serve_message
  server_worker args p [] = some (record { process = p; to_clients = []; to_servers = [] })
  server_worker args p (msg ∷ msgs) = do
    first ← serve_message args p msg
    more ← server_worker args first.process msgs
    some (record {
      process = more.process;
      to_clients = first.to_clients ++ more.to_clients;
      to_servers = first.to_servers ++ more.to_servers;
    })
