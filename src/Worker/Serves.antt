-- ===== src/Worker/Serves.antt =====
-- The worker of src/baseprocess/server.c serves every sequence of requests of both algorithms.
use colas.Common.{◌≡◌, refl, ◌⊎◌, inl, inr, some, List, [], ◌∷◌, ◌++◌, map, Bytes, All, streq}
use colas.Abd.Refinement.{StateShows, algorithm_abd-refines}
use colas.Abd.Spec.{IsAbd, next_entry, answer}
use colas.Sodaw.Reads.{IsWord}
use colas.Sodaw.Refinement.{IsServer, algorithm_sodaw-refines}
use colas.Sodaw.Serve.{IsSodaw, entry_after}
use colas.Sodaw.Server.{SodawArgs}
use colas.Store.Entry.{View, put_entry}
use colas.Store.Made.{entry_at}
use colas.Wire.Carries.{Carries}
use colas.Wire.Delivery.{
  Request, header, body, values, algorithm_of, phase_of, short_words, receive-request,
}
use colas.Wire.Read.{Frames, get_string_frame, get_string_frame_present}
use colas.Words
use colas.Words.{bufsize}
use colas.Worker.{Process, Served, serve_message, server_worker}
use colas.Zhash.{Zhash}
use colas.Zhash.Assoc.{Assoc, find}

-- A request as the socket delivers it, from its sender.
pub record Message : Type 0 where
  pub sender : Bytes
  pub client : Bytes
  pub object : Bytes
  pub request : Request

abbrev pub frames_in : Message → Assoc Bytes
frames_in m =
    header m.sender m.client m.object (algorithm_of m.request) (phase_of m.request)
    ++ body m.request

abbrev pub wire : Message → List Bytes
wire m = values (frames_in m)

-- A request of one of the algorithms that fits the buffers.
pub record IsServed (m : Message) : Type 0 where
  pub sender : IsWord m.sender
  pub client : IsWord m.client
  pub object : IsWord m.object
  pub request : IsAbd m.request ⊎ IsSodaw m.client m.request

-- What a process stores for each of the algorithms.
pub record Views : Type 0 where
  pub abd : View
  pub sodaw : View

module _ (init_data : Bytes) where
  abbrev pub after_request :
      (m : Message) → IsAbd m.request ⊎ IsSodaw m.client m.request → Views → Views
  after_request m (inl h) v = record v {
    abd = put_entry v.abd m.object (next_entry (entry_at v.abd m.object init_data) m.request h);
  }
  after_request m (inr h) v = record v {
    sodaw =
        put_entry v.sodaw m.object
          (entry_after (entry_at v.sodaw m.object init_data) m.client m.request h);
  }

  -- The views behind the messages, one after the other.
  abbrev pub after : (ms : List Message) → All IsServed ms → Views → Views
  after [] h v = v
  after (m ∷ ms) h v = after ms h.1 (after_request m h.0.request v)

abd_algorithm : (q : Request) → IsAbd q → algorithm_of q ≡ Words.abd
unfolding algorithm_of
abd_algorithm (Request.write_value _ _ _) h = refl
abd_algorithm (Request.get_tag _) h = refl
abd_algorithm (Request.get_tag_value _) h = refl
abd_algorithm (Request.write_get _) h = absurd h
abd_algorithm (Request.read_get _) h = absurd h
abd_algorithm (Request.write_put _ _ _) h = absurd h
abd_algorithm (Request.read_value _ _) h = absurd h
abd_algorithm (Request.read_complete _ _) h = absurd h
abd_algorithm (Request.read_disperse _ _ _ _) h = absurd h

sodaw_algorithm : (client : Bytes) (q : Request) → IsSodaw client q → algorithm_of q ≡ Words.sodaw
unfolding algorithm_of
sodaw_algorithm client (Request.write_value _ _ _) h = absurd h
sodaw_algorithm client (Request.get_tag _) h = absurd h
sodaw_algorithm client (Request.get_tag_value _) h = absurd h
sodaw_algorithm client (Request.write_get _) h = refl
sodaw_algorithm client (Request.read_get _) h = refl
sodaw_algorithm client (Request.write_put _ _ _) h = refl
sodaw_algorithm client (Request.read_value _ _) h = refl
sodaw_algorithm client (Request.read_complete _ _) h = refl
sodaw_algorithm client (Request.read_disperse _ _ _ _) h = refl

-- A process whose two states show the views.
pub record IsProcess (Z : Zhash) (p : Process Z) (v : Views) : Type 0 where
  pub abd : StateShows Z p.abd v.abd
  pub sodaw : IsServer Z p.sodaw v.sodaw

module _ (Z : Zhash) (args : SodawArgs) where
  algorithm_read :
      (m : Message) (frames : Frames Z)
      → Carries Z frames (frames_in m)
      → get_string_frame Z bufsize frames Words.algorithm ≡ some (algorithm_of m.request)
  unfolding find streq
  algorithm_read m frames c =
      let (ha, la, hp, lp) = short_words m.request in
      get_string_frame_present Z bufsize frames Words.algorithm (algorithm_of m.request)
        (c Words.algorithm) ha la

  -- What serving a message comes to: it does not fail, and leaves a process that shows the views.
  abbrev pub Serves : Process Z → Message → Views → Type 0
  Serves p m v =
      (s : Served Z) × (serve_message Z args p (wire m) ≡ some s) × IsProcess Z s.process v

  module _ (m : Message) (h : IsServed m) (p : Process Z) (v : Views) (i : IsProcess Z p v) where
    abd_message : (q : IsAbd m.request) → Serves p m (after_request args.init_data m (inl q) v)
    unfolding serve_message streq
    abd_message q =
        let (r, received, empty, names, c) =
          receive-request Z m.request m.sender m.client m.object h.object.0 h.object.1 in
        let (st, handled, shows) =
          algorithm_abd-refines Z
            (record { server_id = args.server_id; init_data = args.init_data }) m.sender m.client
            m.object h.object.0 h.object.1 m.request q r.frames p.abd v.abd c i.abd in
        (
          record {
            process = record p { abd = st };
            to_clients =
                answer (record { server_id = args.server_id; init_data = args.init_data }) m.sender
                  m.object (entry_at v.abd m.object args.init_data) m.request
                ∷ [];
            to_servers = [];
          },
          rw (received, algorithm_read m r.frames c, abd_algorithm m.request q, handled) refl,
          record { abd = shows; sodaw = i.sodaw },
        )

    sodaw_message :
        (q : IsSodaw m.client m.request) → Serves p m (after_request args.init_data m (inr q) v)
    unfolding serve_message streq
    sodaw_message q =
        let (r, received, empty, names, c) =
          receive-request Z m.request m.sender m.client m.object h.object.0 h.object.1 in
        let (st, handled, server) =
          algorithm_sodaw-refines Z args m.sender m.client m.object m.request q r.frames p.sodaw
            v.sodaw h.sender h.client h.object c i.sodaw in
        (
          record {
            process = record p { sodaw = st };
            to_clients = st.server.to_clients;
            to_servers = st.server.to_servers;
          },
          rw (received, algorithm_read m r.frames c, sodaw_algorithm m.client m.request q, handled)
              refl,
          record { abd = i.abd; sodaw = server },
        )

    serve_message_lem : Serves p m (after_request args.init_data m h.request v)
    serve_message_lem = go h.request
      where
        go :
            (q : IsAbd m.request ⊎ IsSodaw m.client m.request)
            → Serves p m (after_request args.init_data m q v)
        go (inl q) = abd_message q
        go (inr q) = sodaw_message q

  -- `server_worker` serves every sequence of requests of both algorithms that fit the buffers, in
  -- any mixture, without failing: the store of each algorithm shows what its specification makes
  -- of that algorithm's requests in their order, and the requests of one leave the other's as it
  -- was.
  pub server_worker-serves :
      (ms : List Message) (h : All IsServed ms) (p : Process Z) (v : Views)
      → IsProcess Z p v
      → (s : Served Z) × (server_worker Z args p (map wire ms) ≡ some s)
        × IsProcess Z s.process (after args.init_data ms h v)
  unfolding server_worker
  server_worker-serves [] h p v i =
      (record { process = p; to_clients = []; to_servers = [] }, refl, i)
  server_worker-serves (m ∷ ms) h p v i =
      let (first, served, i') = serve_message_lem m h.0 p v i in
      let (more, rest, i'') =
        server_worker-serves ms h.1 first.process (after_request args.init_data m h.0.request v)
          i' in
      (
        record {
          process = more.process;
          to_clients = first.to_clients ++ more.to_clients;
          to_servers = first.to_servers ++ more.to_servers;
        },
        rw (served, rest) refl,
        i'',
      )
