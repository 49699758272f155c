-- ===== src/Abd/System.antt =====
-- The servers of ABD together: src/abd/abd_server.c run by every server, in any order of requests.
use mathlib.Core.Option.{some-injective}
use colas.Common.{
  ℕ, ◌<◌, ◌≡◌, refl, sym, ap, ◌∙◌, true, false, some, List, [], ◌∷◌, ◌++◌, if◌then◌else◌, ◌==◌,
  arith, Bytes, streq, streq_iff, IsCString, length, Bool-cases, inl, inr,
}
use colas.Common.Int.{ℤ, ◌≤ℤ◌}
use colas.Store.Entry.{Entry, View, put_entry}
use colas.Abd.Server.{ServerArgs, State, algorithm_abd}
use colas.Abd.Spec.{IsAbd, entry_at, next_entry, answer}
use colas.Abd.Refinement.{StateShows, algorithm_abd-refines}
use colas.Client.Reply.{answer_frames}
use colas.Wire.Receive.{Received, receive_message_frames_at_server}
use colas.Wire.Delivery.{Request, algorithm_of, phase_of, body, header, values, receive-request}
use colas.Words.{bufsize}
use colas.Zhash.{Zhash}
use colas.Abd.Replies.{reply_of, answer-reply_of, next_entry_le}

pub eq_self : (i : ℕ) → (i == i) ≡ true
eq_self i = ground arith

module _ (Z : Zhash) (args : ℕ → ServerArgs) where
  -- The states of the servers, by their numbers.
  abbrev pub System : Type 0
  System = ℕ → State Z

  abbrev pub put_server : System → ℕ → State Z → System
  put_server s i st j = if i == j then st else s j

  -- A server takes a request from its socket and handles it; the replies go to the sender.
  pub record Serves (s : System) (i : ℕ) (sender o : Bytes) (q : Request)
      (replies : List (List Bytes)) (s' : System) : Type 0 where
    pub client : Bytes
    pub r : Received Z
    pub st : State Z
    pub received :
        receive_message_frames_at_server Z
          (values (header sender client o (algorithm_of q) (phase_of q) ++ body q))
        ≡ some r
    pub handled : algorithm_abd Z (args i) r.frames (s i) ≡ some (st, replies)
    pub after : s' ≡ put_server s i st

  -- A request that fits the buffers of the server.
  abbrev pub IsRequest : Bytes → Request → Type 0
  IsRequest o q = IsAbd q × IsCString o × (length o < bufsize)

  pub data Run : System → System → Type 0 where
    here : {s : System} → Run s s
    then_serves :
        {s s' s'' : System} {i : ℕ} {sender o : Bytes} {q : Request} {replies : List (List Bytes)}
        → Run s s'
        → IsRequest o q
        → Serves s' i sender o q replies s''
        → Run s s''

  -- Server `i` has a well-formed store, whose view is `view`.
  abbrev pub At : System → ℕ → View → Type 0
  At s i view = StateShows Z (s i) view

  -- The entry of an object in a view of server `i`.
  abbrev pub held : View → ℕ → Bytes → Entry
  held view i o = entry_at view o (args i).init_data

  -- The step of the specification.
  pub Serves_lem :
      {s s' : System} {i : ℕ} {sender o : Bytes} {q : Request} {replies : List (List Bytes)}
      (iq : IsRequest o q) (view : View)
      → Serves s i sender o q replies s'
      → At s i view
      → (replies ≡ (sender ∷ answer_frames (reply_of (args i) o (held view i o) q iq.0)) ∷ [])
        × At s' i (put_entry view o (next_entry (held view i o) q iq.0))
        × ((j : ℕ) → (i == j) ≡ false → s' j ≡ s j)
  Serves_lem {s} {s'} {i} {sender} {o} {q} {replies} (iq, co, lo) view v at =
      let (r, received, taken, named, carries) = receive-request Z q sender v.client o co lo in
      let same : v.r ≡ r = some-injective v.r r (sym v.received ∙ received) in
      let (st, handled, shows) =
        algorithm_abd-refines Z (args i) sender v.client o co lo q iq r.frames (s i) view carries
          at in
      let ends =
        some-injective (v.st, replies) (st, answer (args i) sender o (held view i o) q ∷ [])
          (sym (rw same at v.handled) ∙ handled) in
      let same_state : v.st ≡ st = ap (λ p. p.0) ends in
      (
        ap (λ p. p.1) ends
            ∙ ap (λ (a : List Bytes). a ∷ [])
                (answer-reply_of (args i) sender o (held view i o) q iq),
        rw (v.after, eq_self i, same_state) shows,
        λ j e. rw (v.after, e) refl,
      )

  -- A server with a well-formed store receives and handles every request of ABD that fits its
  -- buffers, and sends one reply, which the clients' format holds.
  pub can_serve :
      (s : System) (i : ℕ) (sender client o : Bytes) (q : Request) (iq : IsRequest o q)
      (view : View)
      → At s i view
      → (s' : System) × Serves s i sender o q
          ((sender ∷ answer_frames (reply_of (args i) o (held view i o) q iq.0)) ∷ [])
          s'
  can_serve s i sender client o q (iq, co, lo) view at =
      let (r, received, taken, named, carries) = receive-request Z q sender client o co lo in
      let (st, handled, shows) =
        algorithm_abd-refines Z (args i) sender client o co lo q iq r.frames (s i) view carries
          at in
      (
        put_server s i st,
        record {
          client = client;
          r = r;
          st = st;
          received = received;
          handled = rw (← answer-reply_of (args i) sender o (held view i o) q iq) handled;
          after = refl;
        },
      )

  -- Server `i` has a tag for the object whose number is at least `z`.
  abbrev pub AtLeast : System → ℕ → Bytes → ℤ → Type 0
  AtLeast s i o z = (view : View) × At s i view × (z ≤ℤ (held view i o).tag.z)

  serving_keeps :
      {s s' : System} {i : ℕ} {sender o' : Bytes} {q : Request} {replies : List (List Bytes)}
      (o : Bytes) (z : ℤ)
      → IsRequest o' q
      → Serves s i sender o' q replies s'
      → AtLeast s i o z
      → AtLeast s' i o z
  serving_keeps {i = i} {o' = o'} {q = q} o z iq v (view, at, le) =
      let (sent, at', others) = Serves_lem iq view v at in
      (
        put_entry view o' (next_entry (held view i o') q iq.0),
        at',
        elim (Bool-cases (streq o' o)) [
          | inl e ↦ rw e (
              omega (
                arith,
                rw (sym ((streq_iff o' o).0 e)) at le,
                next_entry_le (held view i o') q iq.0,
              ))
          | inr e ↦ rw e le
        ],
      )

  Serves_keeps :
      {s s' : System} {j : ℕ} {sender o' : Bytes} {q : Request} {replies : List (List Bytes)}
      (i : ℕ) (o : Bytes) (z : ℤ)
      → IsRequest o' q
      → Serves s j sender o' q replies s'
      → AtLeast s i o z
      → AtLeast s' i o z
  Serves_keeps {s} {s'} {j} i o z iq v h = elim (Bool-cases (j == i)) [
    | inl e ↦ let same : i ≡ j = ground arith in rw same (serving_keeps o z iq v (rw same at h))
    | inr e ↦ (h.0, rw (v.after, e) h.1, h.2)
  ]

  -- If a server has a well-formed store and a tag for the object whose number is at least `z`, so
  -- it has after every run of requests that fit the servers' buffers, at whatever servers and in
  -- whatever order.
  pub Run-keeps :
      (s s' : System) (i : ℕ) (o : Bytes) (z : ℤ) → Run s s' → AtLeast s i o z → AtLeast s' i o z
  Run-keeps s s' i o z here h = h
  Run-keeps s s' i o z (then_serves run iq v) h =
      Serves_keeps i o z iq v (Run-keeps s _ i o z run h)
