-- ===== src/Abd/Refinement.antt =====
-- `algorithm_ABD` does what `Abd.Spec` promises.
use colas.Common.{◌<◌, ◌≡◌, refl, true, some, [], ◌∷◌, ◌++◌, arith, Bytes, streq, IsCString, length}
use colas.Store.{Objects}
use colas.Store.Entry.{Entry, View, put_entry, Shows}
use colas.Store.Made.{made_lem, created_at, put_created}
use colas.Store.Create.{created}
use colas.Abd.Server.{ServerArgs, State, initialize_abd, dispatch_phase, algorithm_abd}
use colas.Abd.Handlers.{Done, get_tag_Done, get_tag_value_Done, write_value_Done}
use colas.Abd.Spec.{IsAbd, entry_at, next_entry, answer}
use colas.Wire.Read.{Frames, get_string_frame, get_string_frame_present}
use colas.Wire.Carries.{Carries}
use colas.Wire.Delivery.{
  Request, write_value, get_tag, get_tag_value, algorithm_of, phase_of, body, header, short_words,
}
use colas.Words
use colas.Words.{bufsize}
use colas.Zhash.{Zhash}
use colas.Zhash.Assoc.{find}

module _ (Z : Zhash) where
  -- The view of a server's state; before the first message there are no objects.
  abbrev pub StateShows : State Z → View → Type 0
  StateShows st view = Shows Z (initialize_abd Z st).objects view

  module _ (args : ServerArgs) (sender client o : Bytes) (co : IsCString o)
      (lo : length o < bufsize) where
    module _ (objects : Objects Z) (view : View) (e : Entry) (s : Shows Z objects view)
        (at : view o ≡ some e) (frames : Frames Z) where
      dispatch_phase_lem :
          (q : Request) (iq : IsAbd q)
          → Carries Z frames (header sender client o (algorithm_of q) (phase_of q) ++ body q)
          → Done Z objects view o e s at
              (dispatch_phase Z args
                (phase_of q)
                (record { objects = objects; frames = frames; sent = [] }))
              (next_entry e q iq)
              []
              (answer args sender o e q)
      unfolding dispatch_phase phase_of algorithm_of body streq
      dispatch_phase_lem (write_value op t v) (tag, r, lt, ct) c =
          let d =
            write_value_Done Z objects view o e s at args sender client op frames co lo
              Words.write_value t v tag c r lt ct (omega arith) (omega arith) in
          record { handled = d.handled; returns = rw d.returns; shows = d.shows; sent = d.sent }
      dispatch_phase_lem (get_tag op) iq c =
          let d =
            get_tag_Done Z objects view o e s at args sender client op frames co lo Words.get_tag
              c in
          record { handled = d.handled; returns = rw d.returns; shows = d.shows; sent = d.sent }
      dispatch_phase_lem (get_tag_value op) iq c =
          let d =
            get_tag_value_Done Z objects view o e s at args sender client op frames co lo
              Words.get_tag_value c in
          record { handled = d.handled; returns = rw d.returns; shows = d.shows; sent = d.sent }
      dispatch_phase_lem (Request.write_get _) iq c = absurd iq
      dispatch_phase_lem (Request.read_get _) iq c = absurd iq
      dispatch_phase_lem (Request.write_put _ _ _) iq c = absurd iq
      dispatch_phase_lem (Request.read_value _ _) iq c = absurd iq
      dispatch_phase_lem (Request.read_complete _ _) iq c = absurd iq
      dispatch_phase_lem (Request.read_disperse _ _ _ _) iq c = absurd iq

    phase_read :
        (q : Request) (frames : Frames Z)
        → Carries Z frames (header sender client o (algorithm_of q) (phase_of q) ++ body q)
        → get_string_frame Z bufsize frames Words.phase ≡ some (phase_of q)
    unfolding find streq
    phase_read q frames c =
        let (ha, la, hp, lp) = short_words q in
        get_string_frame_present Z bufsize frames Words.phase (phase_of q) (c Words.phase) hp lp

    object_read :
        (q : Request) (frames : Frames Z)
        → Carries Z frames (header sender client o (algorithm_of q) (phase_of q) ++ body q)
        → get_string_frame Z bufsize frames Words.object ≡ some o
    unfolding find streq
    object_read q frames c =
        get_string_frame_present Z bufsize frames Words.object o (c Words.object) co lo

    -- At a request of ABD that the server took apart and that fits its buffers, with a well-formed
    -- store, `algorithm_ABD` does not fail, sends the one answer of the specification, and leaves
    -- the object with the specification's entry, created first if it is new; every other object is
    -- as it was.
    pub algorithm_abd-refines :
        (q : Request) (iq : IsAbd q) (frames : Frames Z) (st : State Z) (view : View)
        → Carries Z frames (header sender client o (algorithm_of q) (phase_of q) ++ body q)
        → StateShows st view
        → (st' : State Z) × (algorithm_abd Z args frames st
            ≡ some (st', answer args sender o (entry_at view o args.init_data) q ∷ []))
          × StateShows st' (put_entry view o (next_entry (entry_at view o args.init_data) q iq))
    unfolding algorithm_abd
    algorithm_abd-refines q iq frames st view c s =
        let (made, makes, shows) =
          made_lem o args.init_data view Z Words.abd (initialize_abd Z st).objects
            (unfold streq in refl) s in
        let e = entry_at view o args.init_data in
        let d =
          dispatch_phase_lem made.0 (created view o args.init_data) e shows
            (created_at o args.init_data view) frames q iq c in
        (
          record { initialized = true; objects = d.handled.objects },
          rw (phase_read q frames c, object_read q frames c, makes, d.returns) (rw d.sent),
          λ other.
              unfold initialize_abd in
              rw (put_created o args.init_data view (next_entry e q iq) other) at (d.shows other),
        )
