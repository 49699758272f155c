-- ===== src/Abd/Quorum.antt =====
-- What a majority's acknowledgements of `WRITE_VALUE` mean for every later majority's replies.
use mathlib.Core.Option.{some-injective}
use colas.Common.{
  map-OneOf, All-OneOf, OneOf-map, ℕ, zero, suc, ◌≤◌, ◌<◌, ◌≡◌, refl, sym, ◌∙◌, false, some, List,
  [], ◌∷◌, map, arith, Bytes, streq, streq_refl, length, All, OneOf, Option-cases, inl, inr,
}
use colas.Common.Int.{ℤ, ◌≤ℤ◌}
use colas.Common.Pigeonhole.{Distinct, shared}
use colas.Tag.{Tag}
use colas.Tag.Text.{tag_text, string_to_tag}
use colas.Tag.RoundTrip.{IsTag, IsTag-init, string_to_tag-tag_text, string_to_tag-IsTag}
use colas.Store.Entry.{Entry, View, put_entry, table_of}
use colas.Abd.Phases.{tag_of}
use colas.Abd.Server.{ServerArgs, initialize_abd}
use colas.Abd.Spec.{IsAbd, next_entry}
use colas.Abd.System.{System, Serves, Serves_lem, Run, Run-keeps, At, AtLeast, IsRequest, held}
use colas.Abd.Replies.{reply_of, written_ge}
use colas.Client.Majority.{majority, majority_overlap}
use colas.Client.Reply.{Answer, Kind, kind_phase, answer_frames}
use colas.Wire.Delivery.{Request, write_value, get_tag, get_tag_value}
use colas.Words
use colas.Zhash.{Zhash}

-- Distinct servers, as many as a majority.
pub record IsQuorum (n : ℕ) (servers : List ℕ) : Type 0 where
  pub distinct : Distinct servers
  pub below : All (λ i. i < n) servers
  pub many : majority n ≤ length servers

-- The requests that ask for a tag.
abbrev pub Asks : Request → Type 0
Asks (get_tag op) = Unit
Asks (get_tag_value op) = Unit
Asks _ = ⊥

abbrev pub frame : ℕ → List Bytes → Bytes
frame n [] = []
frame zero (x ∷ xs) = x
frame (suc n) (x ∷ xs) = frame n xs

-- The fourth frame of a reply is its phase.
pub fourth_of : (a : Answer) → frame 3 (answer_frames a) ≡ kind_phase a.kind
unfolding answer_frames
fourth_of a = refl

-- The sixth frame of a reply is its tag, but for the phase that sends it first.
sixth :
    (k : Kind) (server o t v : Bytes) (op : ℕ) (a : Answer)
    → a ≡ record { server = server; object = o; kind = k; op = op; tag = t; value = v }
    → streq (frame 3 (answer_frames a)) Words.read_value ≡ false
    → frame 5 (answer_frames a) ≡ a.tag
unfolding answer_frames kind_phase streq
sixth Kind.read_value server o t v op a e p = absurd (cc (rw e at p))
sixth _ server o t v op a e p = rw e refl

pub sixth_of :
    (a : Answer)
    → streq (frame 3 (answer_frames a)) Words.read_value ≡ false
    → frame 5 (answer_frames a) ≡ a.tag
sixth_of a p = sixth a.kind a.server a.object a.tag a.value a.op a refl p

-- Among the frames of a reply to such a request is the tag of the server.
asked_frames :
    (args : ServerArgs) (o : Bytes) (e : Entry) (q : Request) (iq : IsAbd q)
    → Asks q
    → (streq (frame 3 (answer_frames (reply_of args o e q iq))) Words.read_value ≡ false)
      × (frame 5 (answer_frames (reply_of args o e q iq)) ≡ tag_text e.tag)
unfolding answer_frames reply_of kind_phase streq
asked_frames args o e (get_tag op) iq asks = (refl, refl)
asked_frames args o e (get_tag_value op) iq asks = (refl, refl)
asked_frames args o e (write_value _ _ _) iq asks = absurd asks
asked_frames args o e (Request.write_get _) iq asks = absurd asks
asked_frames args o e (Request.read_get _) iq asks = absurd asks
asked_frames args o e (Request.write_put _ _ _) iq asks = absurd asks
asked_frames args o e (Request.read_value _ _) iq asks = absurd asks
asked_frames args o e (Request.read_complete _ _) iq asks = absurd asks
asked_frames args o e (Request.read_disperse _ _ _ _) iq asks = absurd asks

asked_tag :
    (args : ServerArgs) (o : Bytes) (e : Entry) (q : Request) (iq : IsAbd q) (a : Answer)
    → Asks q
    → answer_frames a ≡ answer_frames (reply_of args o e q iq)
    → IsTag e.tag
    → tag_of a ≡ e.tag
asked_tag args o e q iq a asks same fine =
    let (phase, tag) = asked_frames args o e q iq asks in
    let text : a.tag ≡ tag_text e.tag = sym (sixth_of a (rw same phase)) ∙ rw same tag in
    rw (text, string_to_tag-tag_text e.tag fine) refl

module _ (Z : Zhash) (args : ℕ → ServerArgs) where
  -- Before the state `s`, server `i` answered to a write of the tag for the object.
  pub record Acked (s : System Z args) (o : Bytes) (tag : Tag) (i : ℕ) : Type 0 where
    pub before : System Z args
    pub after : System Z args
    pub sender : Bytes
    pub t : Bytes
    pub v : Bytes
    pub op : ℕ
    pub replies : List (List Bytes)
    pub view : View
    pub well_formed : At Z args before i view
    pub fits : IsRequest Z args o (write_value op t v)
    pub reads : string_to_tag t ≡ some tag
    pub serves : Serves Z args before i sender o (write_value op t v) replies after
    pub later : Run Z args after s

  -- After the state `s`, server `i` answered `a` to a request for its tag.
  pub record Replied (s : System Z args) (o : Bytes) (i : ℕ) (a : Answer) : Type 0 where
    pub before : System Z args
    pub after : System Z args
    pub sender : Bytes
    pub q : Request
    pub asks : Asks q
    pub fits : IsRequest Z args o q
    pub run : Run Z args s before
    pub serves : Serves Z args before i sender o q ((sender ∷ answer_frames a) ∷ []) after

  acked_lem :
      (s : System Z args) (o : Bytes) (tag : Tag) (i : ℕ)
      → Acked s o tag i
      → AtLeast Z args s i o tag.z
  acked_lem s o tag i k =
      let (sent, shows, others) = Serves_lem Z args k.fits k.view k.serves k.well_formed in
      let e = held Z args k.view i o in
      let same : k.fits.0.0 ≡ tag = some-injective k.fits.0.0 tag (sym k.fits.0.1 ∙ k.reads) in
      rw same at (
        Run-keeps Z args k.after s i o k.fits.0.0.z k.later (
          put_entry k.view o (next_entry e (write_value k.op k.t k.v) k.fits.0),
          shows,
          rw (streq_refl o) (written_ge e k.t k.fits.0.0 k.v),
        ))

  -- The tag that a server has for an object fits its struct.
  pub held_IsTag :
      (s : System Z args) (view : View) (i : ℕ) (o : Bytes)
      → At Z args s i view
      → IsTag (held Z args view i o).tag
  held_IsTag s view i o at = elim (Option-cases (view o)) [
    | inl e ↦ rw e IsTag-init
    | inr (e, p) ↦
        let (table, found, single, fine) =
          table_of Z (initialize_abd Z (s i)).objects view o e at p in
        rw p (string_to_tag-IsTag e.key e.tag fine.read)
  ]

  replied_lem :
      (s : System Z args) (o : Bytes) (z : ℤ) (i : ℕ) (a : Answer)
      → Replied s o i a
      → AtLeast Z args s i o z
      → z ≤ℤ (tag_of a).z
  replied_lem s o z i a k h =
      let (view, at, le) = Run-keeps Z args s k.before i o z k.run h in
      let (sent, shows, others) = Serves_lem Z args k.fits view k.serves at in
      rw
        (asked_tag (args i) o (held Z args view i o) k.q k.fits.0 a k.asks (cc sent)
          (held_IsTag k.before view i o at))
        le

  -- A majority of the servers acknowledged the write before `s`; another one, or the same, answers
  -- after `s`.
  module _ (n : ℕ) (s : System Z args) (o : Bytes) (tag : Tag) (acked : List ℕ)
      (asked : List (ℕ × Answer)) (quorum : IsQuorum n acked) (acks : All (Acked s o tag) acked)
      (quorum' : IsQuorum n (map (λ p. p.0) asked))
      (replies : All (λ p. Replied s o p.0 p.1) asked) where
    -- If distinct servers, a majority, acknowledged a write of the tag before the state `s`, and
    -- distinct servers, a majority, replied to requests for the tag after `s`, then one of these
    -- replies has at least the number of the write.
    pub some_reply : (a : Answer) × OneOf a (map (λ p. p.1) asked) × (tag.z ≤ℤ (tag_of a).z)
    some_reply =
        let (i, a, b) =
          shared n acked (map (λ p. p.0) asked) quorum.distinct quorum'.distinct quorum.below
            quorum'.below (omega (arith, majority_overlap n, quorum.many, quorum'.many)) in
        let (p, one, same) = OneOf-map (λ p. p.0) i asked b in
        (
          p.1,
          map-OneOf (λ p. p.1) p asked one,
          replied_lem s o tag.z p.0 p.1 (All-OneOf (λ p. Replied s o p.0 p.1) p asked replies one)
              (rw same at (acked_lem s o tag i (All-OneOf (Acked s o tag) i acked acks a))),
        )
