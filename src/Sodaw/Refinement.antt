-- ===== src/Sodaw/Refinement.antt =====
-- `algorithm_SODAW` of src/sodaw/sodaw_server.c does what its specification promises, from the first
-- message on: the object's later element wins, and the tables of readers stay well-formed.
use colas.Common.{
  ◌≡◌, refl, true, some, ◌++◌, arith, Bytes, streq, Bool-cases, Option-cases, inl, inr,
}
use mathlib.Core.Option.{some-injective}
use colas.Tag.Text.{tag_text}
use colas.Sodaw.Dispatch.{SodawState, initialize_sodaw, algorithm_sodaw}
use colas.Sodaw.Filed.{IsFiled}
use colas.Sodaw.Reads.{IsWord}
use colas.Sodaw.Ready.{algorithm_sodaw-ready}
use colas.Sodaw.Serve.{IsSodaw, entry_after, dispatch_sodaw-Serves}
use colas.Sodaw.Server.{SodawArgs}
use colas.Store.Create.{created}
use colas.Store.Entry.{Entry, View, put_entry, Shows}
use colas.Store.Made.{entry_at, created_at, put_created}
use colas.Wire.Carries.{Carries}
use colas.Wire.Delivery.{Request, algorithm_of, phase_of, body, header}
use colas.Wire.Read.{Frames}
use colas.Zhash.{Zhash}

-- Every key is the printed tag.
abbrev pub Printed : View → Type 0
Printed view = (name : Bytes) (e : Entry) → view name ≡ some e → e.key ≡ tag_text e.tag

pub Printed-entry_at :
    (view : View) (o init_data : Bytes)
    → Printed view
    → (entry_at view o init_data).key ≡ tag_text (entry_at view o init_data).tag
Printed-entry_at view o init_data p = elim (Option-cases (view o)) [
  | inl e ↦ rw e refl
  | inr (e, q) ↦ rw q (p o e q)
]

Printed-put_entry :
    (view : View) (o : Bytes) (e : Entry)
    → Printed view
    → e.key ≡ tag_text e.tag
    → Printed (put_entry view o e)
Printed-put_entry view o e p same name x q = elim (Bool-cases (streq o name)) [
  | inl t ↦ let r : e ≡ x = some-injective e x (rw t at q) in rw (← r) same
  | inr t ↦ p name x (rw t at q)
]

Printed-entry_after :
    (client : Bytes) (e : Entry) (q : Request) (h : IsSodaw client q)
    → e.key ≡ tag_text e.tag
    → (entry_after e client q h).key ≡ tag_text (entry_after e client q h).tag
Printed-entry_after client e (Request.write_put op t v) h p = ground (arith, h.2)
Printed-entry_after client e (Request.write_get op) h p = p
Printed-entry_after client e (Request.read_get op) h p = p
Printed-entry_after client e (Request.read_value op t) h p = p
Printed-entry_after client e (Request.read_complete op t) h p = p
Printed-entry_after client e (Request.read_disperse st r rt op) h p = p
Printed-entry_after client e (Request.write_value _ _ _) h p = absurd h
Printed-entry_after client e (Request.get_tag _) h p = absurd h
Printed-entry_after client e (Request.get_tag_value _) h p = absurd h

module _ (Z : Zhash) where
  -- A well-formed server, whose objects show the view; before the first message it has none.
  pub record IsServer (st : SodawState Z) (view : View) : Type 0 where
    pub shows : Shows Z (initialize_sodaw Z st).server.objects view
    pub printed : Printed view
    pub tables : IsFiled Z (initialize_sodaw Z st).server

  -- `algorithm_SODAW`, at a request of SODAW that fits the buffers and with a well-formed server,
  -- does not fail: the server stays well-formed, the object has the entry of the specification
  -- (the element of a later `WRITE_PUT`, else the one it had), created first if it is new, and
  -- every other object is as it was. A tag to be stored is written as `tag_to_string` prints it.
  pub algorithm_sodaw-refines :
      (args : SodawArgs) (sender client o : Bytes) (q : Request) (h : IsSodaw client q)
      (frames : Frames Z) (st : SodawState Z) (view : View)
      → IsWord sender
      → IsWord client
      → IsWord o
      → Carries Z frames (header sender client o (algorithm_of q) (phase_of q) ++ body q)
      → IsServer st view
      → (st' : SodawState Z) × (algorithm_sodaw Z args frames st ≡ some st')
        × IsServer st' (put_entry view o (entry_after (entry_at view o args.init_data) client q h))
  algorithm_sodaw-refines args sender client o q h frames st view ws wc wo c w =
      let e = entry_at view o args.init_data in
      let same = Printed-entry_at view o args.init_data w.printed in
      let (s, shows, filed, silent, then_returns) =
        algorithm_sodaw-ready Z args sender client o q frames st view wo c w.shows w.tables in
      let (s', serves, shows', tables) =
        dispatch_sodaw-Serves Z args sender client o ws wc wo (created view o args.init_data) e
          (created_at o args.init_data view) same s shows filed frames q h c in
      (
        record { initialized = true; server = s' },
        then_returns s' serves,
        record {
          shows = λ other.
              unfold initialize_sodaw in
              rw (put_created o args.init_data view (entry_after e client q h) other) at
                (shows' other);
          printed =
              Printed-put_entry view o (entry_after e client q h) w.printed
                (Printed-entry_after client e q h same);
          tables = unfold initialize_sodaw in tables;
        },
      )
