-- ===== src/Sodaw/Only.antt =====
-- Over any run, the servers of src/sodaw/sodaw_server.c keep and send only elements that were put.
use mathlib.Core.Option.{some-injective}
use mathlib.Core.Path.{subst}
use colas.Common.{
  ℕ, ◌≡◌, sym, ◌∙◌, ap, true, some, List, ◌++◌, ◌==◌, arith, Bytes, streq, All, Bool-cases, inl,
  inr,
}
use colas.Sodaw.Dispatch.{SodawState, algorithm_sodaw}
use colas.Sodaw.Reads.{IsWord}
use colas.Sodaw.Ready.{algorithm_sodaw-ready}
use colas.Sodaw.Refinement.{IsServer, Printed-entry_at}
use colas.Sodaw.Sent.{Sent, Puts}
use colas.Sodaw.Sends.{dispatch_sodaw-Sends}
use colas.Sodaw.Serve.{IsSodaw, entry_after, dispatch_sodaw-Serves}
use colas.Sodaw.Server.{SodawArgs}
use colas.Sodaw.System.{
  System, Serves, Serves_lem, Run, here, then_serves, At, IsRequest, held, taken_apart,
}
use colas.Store.Create.{created}
use colas.Store.Entry.{Entry, View, put_entry}
use colas.Store.Made.{entry_at, created_at}
use colas.Wire.Carries.{Carries}
use colas.Wire.Delivery.{Request, algorithm_of, phase_of, body, header}
use colas.Wire.Read.{Frames}
use colas.Zhash.{Zhash}

module _ (P : Bytes → Bytes → Type 0) where
  abbrev pub Has : Entry → Type 0
  Has e = P e.key e.value

  entry_after-Has :
      (e : Entry) (client : Bytes) (q : Request) (h : IsSodaw client q)
      → Puts P q
      → Has e
      → Has (entry_after e client q h)
  entry_after-Has e client (Request.write_put op t v) h p k = ground (arith, p, k)
  entry_after-Has e client (Request.write_get op) h p k = k
  entry_after-Has e client (Request.read_get op) h p k = k
  entry_after-Has e client (Request.read_value op t) h p k = k
  entry_after-Has e client (Request.read_complete op t) h p k = k
  entry_after-Has e client (Request.read_disperse st r rt op) h p k = k
  entry_after-Has e client (Request.write_value _ _ _) h p k = absurd h
  entry_after-Has e client (Request.get_tag _) h p k = absurd h
  entry_after-Has e client (Request.get_tag_value _) h p k = absurd h

  algorithm_sodaw-sends :
      (Z : Zhash) (args : SodawArgs) (sender client o : Bytes) (q : Request) (h : IsSodaw client q)
      (frames : Frames Z) (st : SodawState Z) (view : View)
      → IsWord sender
      → IsWord client
      → IsWord o
      → Carries Z frames (header sender client o (algorithm_of q) (phase_of q) ++ body q)
      → IsServer Z st view
      → Puts P q
      → Has (entry_at view o args.init_data)
      → (st' : SodawState Z) × (algorithm_sodaw Z args frames st ≡ some st')
        × All (Sent P) st'.server.to_clients
  algorithm_sodaw-sends Z args sender client o q h frames st view ws wc wo c w puts has =
      let e = entry_at view o args.init_data in
      let same = Printed-entry_at view o args.init_data w.printed in
      let (s, shows, filed, silent, then_returns) =
        algorithm_sodaw-ready Z args sender client o q frames st view wo c w.shows w.tables in
      let (s', serves, shows', tables) =
        dispatch_sodaw-Serves Z args sender client o ws wc wo (created view o args.init_data) e
          (created_at o args.init_data view) same s shows filed frames q h c in
      (
        record { initialized = true; server = s' },
        then_returns s' serves,
        dispatch_sodaw-Sends Z P args sender client o ws wc wo (created view o args.init_data) e
            (created_at o args.init_data view) same has s silent shows filed frames q h puts c s'
            serves,
      )

module _ (Z : Zhash) (args : ℕ → SodawArgs) (P : ℕ → Bytes → Bytes → Type 0) where
  -- Server `i` is well-formed, and has only such elements; so has an object that it creates.
  abbrev pub Only : System Z args → ℕ → Type 0
  Only s i = (view : View) × At Z args s i view × ((o : Bytes) → Has (P i) (held Z args view i o))

  -- All elements that are put in the run, at whatever server, are such.
  abbrev pub AllPuts : (s s' : System Z args) → Run Z args s s' → Type 0
  AllPuts s s' here = Unit
  AllPuts s s' (then_serves {s' = middle} {i = i} {q = q} run iq v) =
      AllPuts s middle run × Puts (P i) q

  serving-Only :
      {s s' : System Z args} {i : ℕ} {sender client o : Bytes} {q : Request}
      {replies : List (List Bytes)} (iq : IsRequest Z args sender client o q)
      → Serves Z args s i sender client o q replies s'
      → Puts (P i) q
      → Only s i
      → Only s' i
  serving-Only {i = i} {client = client} {o = o} {q = q} iq v puts (view, at, has) =
      let e = held Z args view i o in
      (
        put_entry view o (entry_after e client q iq.0),
        (Serves_lem Z args iq view v at).0,
        λ other. elim (Bool-cases (streq o other)) [
          | inl p ↦ rw p (entry_after-Has (P i) e client q iq.0 puts (has o))
          | inr p ↦ rw p (has other)
        ],
      )

  Serves-Only :
      {s s' : System Z args} {j : ℕ} {sender client o : Bytes} {q : Request}
      {replies : List (List Bytes)} (i : ℕ) (iq : IsRequest Z args sender client o q)
      → Serves Z args s j sender client o q replies s'
      → Puts (P j) q
      → Only s i
      → Only s' i
  Serves-Only {s} {s'} {j} i iq v puts h = elim (Bool-cases (j == i)) [
    | inl e ↦ let same : i ≡ j = ground arith in rw same (serving-Only iq v puts (rw same at h))
    | inr e ↦ (h.0, rw (v.after, e) h.1, h.2)
  ]

  pub Run-Only :
      (s s' : System Z args) (i : ℕ) (run : Run Z args s s')
      → AllPuts s s' run
      → Only s i
      → Only s' i
  Run-Only s s' i here puts h = h
  Run-Only s s' i (then_serves {s' = middle} run iq v) puts h =
      Serves-Only i iq v puts.1 (Run-Only s middle i run puts.0 h)

  -- All that a well-formed server of SODAW sends to clients while it handles a request are replies
  -- in their format, and every element among them, with its tag, has a given property, if the
  -- elements that it had before the run, those that it gives to new objects, and those that the
  -- run and the request put have it. The requests of the run, at whatever servers, fit their
  -- buffers.
  pub replies-Sent :
      (s s' s'' : System Z args) (i : ℕ) (sender client o : Bytes) (q : Request)
      (replies : List (List Bytes)) (run : Run Z args s s')
      → IsRequest Z args sender client o q
      → Serves Z args s' i sender client o q replies s''
      → AllPuts s s' run
      → Puts (P i) q
      → Only s i
      → All (Sent (P i)) replies
  replies-Sent s s' s'' i sender client o q replies run (h, ws, wc, wo) v all puts start =
      let (view, at, has) = Run-Only s s' i run all start in
      let (st, handled, sends) =
        algorithm_sodaw-sends (P i) Z (args i) sender client o q h v.r.frames (s' i) view ws wc wo
          (taken_apart Z args wo v) at puts (has o) in
      let same : st ≡ v.st = some-injective st v.st (sym handled ∙ v.handled) in
      subst (All (Sent (P i))) (ap (λ x. x.server.to_clients) same ∙ sym v.sent) sends
