-- ===== src/Sodaw/System.antt =====
-- The servers of SODAW together: src/sodaw/sodaw_server.c run by every server, in any order of
-- requests, those that the servers send each other among them.
use mathlib.Core.Option.{some-injective}
use colas.Common.{
  ℕ, ◌≡◌, refl, sym, ◌∙◌, false, some, List, [], ◌∷◌, ◌++◌, if◌then◌else◌, ◌==◌, arith, Bytes,
  streq, streq_iff, Bool-cases, inl, inr,
}
use mathlib.Core.Path.{subst}
use colas.Common.Int.{ℤ, ◌≤ℤ◌}
use colas.Tag.{Tag, compare_tags}
use colas.Abd.System.{eq_self}
use colas.Client.Reply.{answer_frames}
use colas.Sodaw.Asked.{AsksTag, tag_reply, algorithm_sodaw-tells}
use colas.Sodaw.Dispatch.{SodawState, algorithm_sodaw}
use colas.Sodaw.Put.{later_entry}
use colas.Sodaw.Reads.{IsWord}
use colas.Sodaw.Refinement.{IsServer, algorithm_sodaw-refines}
use colas.Sodaw.Serve.{IsSodaw, entry_after}
use colas.Sodaw.Server.{SodawArgs}
use colas.Store.Entry.{Entry, View, put_entry}
use colas.Store.Made.{entry_at}
use colas.Wire.Carries.{Carries}
use colas.Wire.Delivery.{Request, algorithm_of, phase_of, body, header, values, receive-request}
use colas.Wire.Receive.{Received, receive_message_frames_at_server}
use colas.Zhash.{Zhash}

-- The number of the tag that a server has for an object never decreases.
later_entry_le :
    (e : Entry) (t : Bytes) (tag : Tag) (v : Bytes) → e.tag.z ≤ℤ (later_entry e t tag v).tag.z
unfolding compare_tags
later_entry_le e t tag v = ground arith

-- After a put, that number is at least the put's.
pub later_entry_ge :
    (e : Entry) (t : Bytes) (tag : Tag) (v : Bytes) → tag.z ≤ℤ (later_entry e t tag v).tag.z
unfolding compare_tags
later_entry_ge e t tag v = ground arith

entry_after_le :
    (e : Entry) (client : Bytes) (q : Request) (h : IsSodaw client q)
    → e.tag.z ≤ℤ (entry_after e client q h).tag.z
entry_after_le e client (Request.write_put op t v) h = later_entry_le e t h.0 v
entry_after_le e client (Request.write_get op) h = omega arith
entry_after_le e client (Request.read_get op) h = omega arith
entry_after_le e client (Request.read_value op t) h = omega arith
entry_after_le e client (Request.read_complete op t) h = omega arith
entry_after_le e client (Request.read_disperse st r rt op) h = omega arith
entry_after_le e client (Request.write_value _ _ _) h = absurd h
entry_after_le e client (Request.get_tag _) h = absurd h
entry_after_le e client (Request.get_tag_value _) h = absurd h

module _ (Z : Zhash) (args : ℕ → SodawArgs) where
  -- The states of the servers, by their numbers.
  abbrev pub System : Type 0
  System = ℕ → SodawState Z

  abbrev pub put_server : System → ℕ → SodawState Z → System
  put_server s i st j = if i == j then st else s j

  -- A server takes a request from its socket and handles it; `replies` go to the clients.
  pub record Serves (s : System) (i : ℕ) (sender client o : Bytes) (q : Request)
      (replies : List (List Bytes)) (s' : System) : Type 0 where
    pub r : Received Z
    pub st : SodawState Z
    pub received :
        receive_message_frames_at_server Z
          (values (header sender client o (algorithm_of q) (phase_of q) ++ body q))
        ≡ some r
    pub handled : algorithm_sodaw Z (args i) r.frames (s i) ≡ some st
    pub sent : replies ≡ st.server.to_clients
    pub after : s' ≡ put_server s i st

  -- A request that fits the buffers of the server.
  abbrev pub IsRequest : Bytes → Bytes → Bytes → Request → Type 0
  IsRequest sender client o q = IsSodaw client q × IsWord sender × IsWord client × IsWord o

  pub data Run : System → System → Type 0 where
    here : {s : System} → Run s s
    then_serves :
        {s s' s'' : System} {i : ℕ} {sender client o : Bytes} {q : Request}
        {replies : List (List Bytes)}
        → Run s s'
        → IsRequest sender client o q
        → Serves s' i sender client o q replies s''
        → Run s s''

  -- Server `i` is well-formed, and its objects show `view`.
  abbrev pub At : System → ℕ → View → Type 0
  At s i view = IsServer Z (s i) view

  -- The entry of an object in a view of server `i`.
  abbrev pub held : View → ℕ → Bytes → Entry
  held view i o = entry_at view o (args i).init_data

  -- The frames that the server took apart.
  pub taken_apart :
      {s s' : System} {i : ℕ} {sender client o : Bytes} {q : Request} {replies : List (List Bytes)}
      → IsWord o
      → (v : Serves s i sender client o q replies s')
      → Carries Z v.r.frames (header sender client o (algorithm_of q) (phase_of q) ++ body q)
  taken_apart {sender = sender} {client} {o} {q} (co, lo) v =
      let (r, received, taken, named, carries) = receive-request Z q sender client o co lo in
      subst
        (λ x. Carries Z x.frames (header sender client o (algorithm_of q) (phase_of q) ++ body q))
        (some-injective r v.r (sym received ∙ v.received)) carries

  -- The step of the specification.
  pub Serves_lem :
      {s s' : System} {i : ℕ} {sender client o : Bytes} {q : Request} {replies : List (List Bytes)}
      (iq : IsRequest sender client o q) (view : View)
      → Serves s i sender client o q replies s'
      → At s i view
      → At s' i (put_entry view o (entry_after (held view i o) client q iq.0))
        × ((j : ℕ) → (i == j) ≡ false → s' j ≡ s j)
  Serves_lem {s} {s'} {i} {sender} {client} {o} {q} (h, ws, wc, wo) view v at =
      let (st, handled, server) =
        algorithm_sodaw-refines Z (args i) sender client o q h v.r.frames (s i) view ws wc wo
          (taken_apart wo v) at in
      let same : st ≡ v.st = some-injective st v.st (sym handled ∙ v.handled) in
      (rw (v.after, eq_self i, ← same) server, λ j e. rw (v.after, e) refl)

  -- What a client that asks for a tag is told.
  pub Serves-tells :
      {s s' : System} {i : ℕ} {sender client o : Bytes} {q : Request} {replies : List (List Bytes)}
      (h : AsksTag q) (view : View)
      → IsWord o
      → Serves s i sender client o q replies s'
      → At s i view
      → replies ≡ (sender ∷ answer_frames (tag_reply (args i) o (held view i o) q h)) ∷ []
  Serves-tells {s} {s'} {i} {sender} {client} {o} {q} h view wo v at =
      let (st, handled, sends) =
        algorithm_sodaw-tells Z (args i) sender client o wo q h v.r.frames (s i) view
          (taken_apart wo v) at in
      let same : st ≡ v.st = some-injective st v.st (sym handled ∙ v.handled) in
      v.sent ∙ rw same at sends

  -- A well-formed server receives and handles every request of SODAW that fits its buffers.
  pub can_serve :
      (s : System) (i : ℕ) (sender client o : Bytes) (q : Request)
      → IsRequest sender client o q
      → (view : View) → At s i view
      → (s' : System) × (replies : List (List Bytes)) × Serves s i sender client o q replies s'
  can_serve s i sender client o q (h, ws, wc, wo) view at =
      let (r, received, taken, named, carries) = receive-request Z q sender client o wo.0 wo.1 in
      let (st, handled, server) =
        algorithm_sodaw-refines Z (args i) sender client o q h r.frames (s i) view ws wc wo carries
          at in
      (
        put_server s i st,
        st.server.to_clients,
        record {
          r = r;
          st = st;
          received = received;
          handled = handled;
          sent = refl;
          after = refl;
        },
      )

  -- Server `i` has a tag for the object whose number is at least `z`.
  abbrev pub AtLeast : System → ℕ → Bytes → ℤ → Type 0
  AtLeast s i o z = (view : View) × At s i view × (z ≤ℤ (held view i o).tag.z)

  serving_keeps :
      {s s' : System} {i : ℕ} {sender client o' : Bytes} {q : Request} {replies : List (List Bytes)}
      (o : Bytes) (z : ℤ)
      → IsRequest sender client o' q
      → Serves s i sender client o' q replies s'
      → AtLeast s i o z
      → AtLeast s' i o z
  serving_keeps {i = i} {client = client} {o' = o'} {q = q} o z iq v (view, at, le) = (
    put_entry view o' (entry_after (held view i o') client q iq.0),
    (Serves_lem iq view v at).0,
    elim (Bool-cases (streq o' o)) [
      | inl e ↦ rw e (
          omega (
            arith,
            rw (sym ((streq_iff o' o).0 e)) at le,
            entry_after_le (held view i o') client q iq.0,
          ))
      | inr e ↦ rw e le
    ],
  )

  Serves_keeps :
      {s s' : System} {j : ℕ} {sender client o' : Bytes} {q : Request} {replies : List (List Bytes)}
      (i : ℕ) (o : Bytes) (z : ℤ)
      → IsRequest sender client o' q
      → Serves s j sender client o' q replies s'
      → AtLeast s i o z
      → AtLeast s' i o z
  Serves_keeps {s} {s'} {j} i o z iq v h = elim (Bool-cases (j == i)) [
    | inl e ↦ let same : i ≡ j = ground arith in rw same (serving_keeps o z iq v (rw same at h))
    | inr e ↦ (h.0, rw (v.after, e) h.1, h.2)
  ]

  -- A well-formed server keeps a tag whose number is at least `z` over every run of requests.
  pub Run-keeps_tag :
      (s s' : System) (i : ℕ) (o : Bytes) (z : ℤ) → Run s s' → AtLeast s i o z → AtLeast s' i o z
  Run-keeps_tag s s' i o z here h = h
  Run-keeps_tag s s' i o z (then_serves run iq v) h =
      Serves_keeps i o z iq v (Run-keeps_tag s _ i o z run h)
