-- ===== src/Sodaw/Ready.antt =====
-- `algorithm_SODAW` of src/sodaw/sodaw_server.c until it calls the handler of the phase.
use colas.Common.{◌≡◌, refl, true, some, [], ◌++◌, Bytes, streq}
use colas.Sodaw.Dispatch.{SodawState, initialize_sodaw, dispatch_sodaw, algorithm_sodaw}
use colas.Sodaw.Filed.{IsFiled}
use colas.Sodaw.Reads.{IsWord, word_read}
use colas.Sodaw.Server.{SodawArgs, Server}
use colas.Store.Create.{created}
use colas.Store.Entry.{View, Shows}
use colas.Store.Made.{made_lem}
use colas.Wire.Carries.{Carries}
use colas.Wire.Delivery.{Request, algorithm_of, phase_of, body, header, short_words}
use colas.Wire.Read.{Frames}
use colas.Words
use colas.Zhash.{Zhash}
use colas.Zhash.Assoc.{find}

-- The server is ready, the object is there, nothing has been sent, and the handler decides the rest.
pub algorithm_sodaw-ready :
    (Z : Zhash) (args : SodawArgs) (sender client o : Bytes) (q : Request) (frames : Frames Z)
    (st : SodawState Z) (view : View)
    → IsWord o
    → Carries Z frames (header sender client o (algorithm_of q) (phase_of q) ++ body q)
    → Shows Z (initialize_sodaw Z st).server.objects view
    → IsFiled Z (initialize_sodaw Z st).server
    → (s : Server Z) × Shows Z s.objects (created view o args.init_data)
      × IsFiled Z s
      × (s.to_clients ≡ [])
      × ((s' : Server Z)
          → dispatch_sodaw Z args (phase_of q) frames s ≡ some s'
          → algorithm_sodaw Z args frames st ≡ some (record { initialized = true; server = s' }))
unfolding algorithm_sodaw find streq
algorithm_sodaw-ready Z args sender client o q frames st view wo c shows tables =
    let l = header sender client o (algorithm_of q) (phase_of q) ++ body q in
    let (ha, la, hp, lp) = short_words q in
    let ready = (initialize_sodaw Z st).server in
    let (made, makes, shows') =
      made_lem o args.init_data view Z Words.sodaw ready.objects refl shows in
    (
      record {
        objects = made.0;
        reading = ready.reading;
        readed = ready.readed;
        history = ready.history;
        to_clients = [];
        to_servers = [];
      },
      shows',
      record {
        filed = tables.filed;
        only_one = tables.only_one;
        open_history = tables.open_history;
      },
      refl,
      λ s' e.
          rw
            (
              word_read Z frames l c Words.phase (phase_of q) refl (hp, lp),
              word_read Z frames l c Words.object o refl wo,
              makes,
              e,
            )
            refl,
    )
