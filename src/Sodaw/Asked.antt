-- ===== src/Sodaw/Asked.antt =====
-- What `algorithm_SODAW` of src/sodaw/sodaw_server.c sends a client that asks for a tag.
use colas.Common.{◌≡◌, refl, true, some, [], ◌∷◌, ◌++◌, Bytes, streq}
use colas.Tag.Text.{tag_text}
use colas.Client.Reply.{Answer, Kind, answer_frames, kind_algorithm, kind_phase}
use colas.Sodaw.Dispatch.{SodawState, algorithm_sodaw, dispatch_sodaw}
use colas.Sodaw.Reads.{IsWord}
use colas.Sodaw.Ready.{algorithm_sodaw-ready}
use colas.Sodaw.Refinement.{IsServer}
use colas.Sodaw.Server.{SodawArgs, Server}
use colas.Sodaw.Tags.{get_tag_lem}
use colas.Store.Create.{created}
use colas.Store.Entry.{Entry, View, Shows}
use colas.Store.Made.{entry_at, created_at}
use colas.Wire.Carries.{Carries}
use colas.Wire.Delivery.{Request, algorithm_of, phase_of, body, header}
use colas.Wire.Read.{Frames}
use colas.Words
use colas.Zhash.{Zhash}

-- The requests that ask for a tag.
abbrev pub AsksTag : Request → Type 0
AsksTag (Request.write_get op) = Unit
AsksTag (Request.read_get op) = Unit
AsksTag _ = ⊥

-- The reply to them, without the identity of the client in front.
abbrev pub tag_reply : SodawArgs → Bytes → Entry → (q : Request) → AsksTag q → Answer
tag_reply args o e (Request.write_get op) h = record {
  server = args.server_id;
  object = o;
  kind = Kind.write_get;
  op = op;
  tag = tag_text e.tag;
  value = e.value;
}
tag_reply args o e (Request.read_get op) h = record {
  server = args.server_id;
  object = o;
  kind = Kind.read_get;
  op = op;
  tag = tag_text e.tag;
  value = e.value;
}
tag_reply args o e (Request.write_value _ _ _) h = absurd h
tag_reply args o e (Request.get_tag _) h = absurd h
tag_reply args o e (Request.get_tag_value _) h = absurd h
tag_reply args o e (Request.write_put _ _ _) h = absurd h
tag_reply args o e (Request.read_value _ _) h = absurd h
tag_reply args o e (Request.read_complete _ _) h = absurd h
tag_reply args o e (Request.read_disperse _ _ _ _) h = absurd h

module _ (Z : Zhash) (args : SodawArgs) (sender client o : Bytes) (wo : IsWord o) where
  dispatch_tells :
      (view : View) (e : Entry) (q : Request) (h : AsksTag q) (frames : Frames Z) (s : Server Z)
      → view o ≡ some e
      → Shows Z s.objects view
      → s.to_clients ≡ []
      → Carries Z frames (header sender client o (algorithm_of q) (phase_of q) ++ body q)
      → (s' : Server Z) × (dispatch_sodaw Z args (phase_of q) frames s ≡ some s')
        × (s'.to_clients ≡ (sender ∷ answer_frames (tag_reply args o e q h)) ∷ [])
  unfolding dispatch_sodaw algorithm_of phase_of streq answer_frames kind_algorithm kind_phase
  dispatch_tells view e (Request.write_get op) h frames s at shows none c = (
    _,
    get_tag_lem Z args sender client o wo view e at s shows frames Words.write_get op
        (unfold body in c),
    rw none refl,
  )
  dispatch_tells view e (Request.read_get op) h frames s at shows none c = (
    _,
    get_tag_lem Z args sender client o wo view e at s shows frames Words.read_get op
        (unfold body in c),
    rw none refl,
  )
  dispatch_tells view e (Request.write_value _ _ _) h frames s at shows none c = absurd h
  dispatch_tells view e (Request.get_tag _) h frames s at shows none c = absurd h
  dispatch_tells view e (Request.get_tag_value _) h frames s at shows none c = absurd h
  dispatch_tells view e (Request.write_put _ _ _) h frames s at shows none c = absurd h
  dispatch_tells view e (Request.read_value _ _) h frames s at shows none c = absurd h
  dispatch_tells view e (Request.read_complete _ _) h frames s at shows none c = absurd h
  dispatch_tells view e (Request.read_disperse _ _ _ _) h frames s at shows none c = absurd h

  -- The tag of the object's entry, which is created first if there is none.
  pub algorithm_sodaw-tells :
      (q : Request) (h : AsksTag q) (frames : Frames Z) (st : SodawState Z) (view : View)
      → Carries Z frames (header sender client o (algorithm_of q) (phase_of q) ++ body q)
      → IsServer Z st view
      → (st' : SodawState Z) × (algorithm_sodaw Z args frames st ≡ some st')
        × (st'.server.to_clients
            ≡ (sender ∷ answer_frames (tag_reply args o (entry_at view o args.init_data) q h)) ∷ [])
  algorithm_sodaw-tells q h frames st view c w =
      let (s, shows, filed, silent, then_returns) =
        algorithm_sodaw-ready Z args sender client o q frames st view wo c w.shows w.tables in
      let (s', serves, sends) =
        dispatch_tells (created view o args.init_data) (entry_at view o args.init_data) q h frames s
          (created_at o args.init_data view) shows silent c in
      (record { initialized = true; server = s' }, then_returns s' serves, sends)
