-- ===== src/Sodaw/Quorum.antt =====
-- What a majority's acknowledgements of `WRITE_PUT` mean for every later majority's tags.
use mathlib.Core.Option.{some-injective}
use colas.Common.{
  map-OneOf, All-OneOf, OneOf-map, ℕ, ◌≡◌, refl, sym, ◌∙◌, false, some, List, [], ◌∷◌, map, arith,
  Bytes, streq, streq_refl, All, OneOf, Option-cases, inl, inr,
}
use colas.Common.Int.{ℤ, ◌≤ℤ◌}
use colas.Common.Pigeonhole.{shared}
use colas.Tag.{Tag}
use colas.Tag.Text.{tag_text, string_to_tag}
use colas.Tag.RoundTrip.{IsTag, IsTag-init, string_to_tag-tag_text, string_to_tag-IsTag}
use colas.Store.Entry.{Entry, View, put_entry, table_of}
use colas.Abd.Phases.{tag_of}
use colas.Abd.Quorum.{IsQuorum, frame, sixth_of}
use colas.Client.Majority.{majority_overlap}
use colas.Client.Reply.{Answer, kind_phase, answer_frames}
use colas.Sodaw.Asked.{AsksTag, tag_reply}
use colas.Sodaw.Dispatch.{initialize_sodaw}
use colas.Sodaw.Reads.{IsWord}
use colas.Sodaw.Serve.{entry_after}
use colas.Sodaw.Server.{SodawArgs}
use colas.Sodaw.System.{
  System, Serves, Serves_lem, Serves-tells, Run, Run-keeps_tag, At, AtLeast, IsRequest, held,
  later_entry_ge,
}
use colas.Wire.Delivery.{Request, write_put}
use colas.Words
use colas.Zhash.{Zhash}

-- Among the frames of a reply is the tag of the server.
told_frames :
    (args : SodawArgs) (o : Bytes) (e : Entry) (q : Request) (h : AsksTag q)
    → (streq (frame 3 (answer_frames (tag_reply args o e q h))) Words.read_value ≡ false)
      × (frame 5 (answer_frames (tag_reply args o e q h)) ≡ tag_text e.tag)
unfolding answer_frames kind_phase streq
told_frames args o e (Request.write_get op) h = (refl, refl)
told_frames args o e (Request.read_get op) h = (refl, refl)
told_frames args o e (Request.write_value _ _ _) h = absurd h
told_frames args o e (Request.get_tag _) h = absurd h
told_frames args o e (Request.get_tag_value _) h = absurd h
told_frames args o e (Request.write_put _ _ _) h = absurd h
told_frames args o e (Request.read_value _ _) h = absurd h
told_frames args o e (Request.read_complete _ _) h = absurd h
told_frames args o e (Request.read_disperse _ _ _ _) h = absurd h

told_tag :
    (args : SodawArgs) (o : Bytes) (e : Entry) (q : Request) (h : AsksTag q) (a : Answer)
    → answer_frames a ≡ answer_frames (tag_reply args o e q h)
    → IsTag e.tag
    → tag_of a ≡ e.tag
told_tag args o e q h a same fine =
    let (phase, tag) = told_frames args o e q h in
    let text : a.tag ≡ tag_text e.tag = sym (sixth_of a (rw same phase)) ∙ rw same tag in
    rw (text, string_to_tag-tag_text e.tag fine) refl

module _ (Z : Zhash) (args : ℕ → SodawArgs) where
  -- Before the state `s`, server `i` served a put of an element with the tag.
  pub record Acked (s : System Z args) (o : Bytes) (tag : Tag) (i : ℕ) : Type 0 where
    pub before : System Z args
    pub after : System Z args
    pub sender : Bytes
    pub client : Bytes
    pub t : Bytes
    pub v : Bytes
    pub op : ℕ
    pub replies : List (List Bytes)
    pub view : View
    pub well_formed : At Z args before i view
    pub fits : IsRequest Z args sender client o (write_put op t v)
    pub reads : string_to_tag t ≡ some tag
    pub serves : Serves Z args before i sender client o (write_put op t v) replies after
    pub later : Run Z args after s

  -- After the state `s`, server `i` answered `a` to a request for its tag.
  pub record Replied (s : System Z args) (o : Bytes) (i : ℕ) (a : Answer) : Type 0 where
    pub before : System Z args
    pub after : System Z args
    pub sender : Bytes
    pub client : Bytes
    pub q : Request
    pub asks : AsksTag q
    pub named : IsWord o
    pub run : Run Z args s before
    pub serves : Serves Z args before i sender client o q ((sender ∷ answer_frames a) ∷ []) after

  acked_lem :
      (s : System Z args) (o : Bytes) (tag : Tag) (i : ℕ)
      → Acked s o tag i
      → AtLeast Z args s i o tag.z
  acked_lem s o tag i k =
      let e = held Z args k.view i o in
      let h = k.fits.0 in
      let same : h.0 ≡ tag = some-injective h.0 tag (sym h.1 ∙ k.reads) in
      rw same at (
        Run-keeps_tag Z args k.after s i o h.0.z k.later (
          put_entry k.view o (entry_after e k.client (write_put k.op k.t k.v) h),
          (Serves_lem Z args k.fits k.view k.serves k.well_formed).0,
          rw (streq_refl o) (later_entry_ge e k.t h.0 k.v),
        ))

  -- The tag that a server has for an object fits its struct.
  held_IsTag :
      (s : System Z args) (view : View) (i : ℕ) (o : Bytes)
      → At Z args s i view
      → IsTag (held Z args view i o).tag
  held_IsTag s view i o at = elim (Option-cases (view o)) [
    | inl e ↦ rw e IsTag-init
    | inr (e, p) ↦
        let (table, found, single, fine) =
          table_of Z (initialize_sodaw Z (s i)).server.objects view o e at.shows p in
        rw p (string_to_tag-IsTag e.key e.tag fine.read)
  ]

  replied_lem :
      (s : System Z args) (o : Bytes) (z : ℤ) (i : ℕ) (a : Answer)
      → Replied s o i a
      → AtLeast Z args s i o z
      → z ≤ℤ (tag_of a).z
  replied_lem s o z i a k h =
      let (view, at, le) = Run-keeps_tag Z args s k.before i o z k.run h in
      let sent = Serves-tells Z args k.asks view k.named k.serves at in
      rw
        (told_tag (args i) o (held Z args view i o) k.q k.asks a (cc sent)
          (held_IsTag k.before view i o at))
        le

  -- A majority of the servers took the put before `s`; another one, or the same, answers after `s`.
  module _ (n : ℕ) (s : System Z args) (o : Bytes) (tag : Tag) (acked : List ℕ)
      (asked : List (ℕ × Answer)) (quorum : IsQuorum n acked) (acks : All (Acked s o tag) acked)
      (quorum' : IsQuorum n (map (λ p. p.0) asked))
      (replies : All (λ p. Replied s o p.0 p.1) asked) where
    -- One of these replies has at least the number of the put.
    pub some_tag : (a : Answer) × OneOf a (map (λ p. p.1) asked) × (tag.z ≤ℤ (tag_of a).z)
    some_tag =
        let (i, a, b) =
          shared n acked (map (λ p. p.0) asked) quorum.distinct quorum'.distinct quorum.below
            quorum'.below (omega (arith, majority_overlap n, quorum.many, quorum'.many)) in
        let (p, one, same) = OneOf-map (λ p. p.0) i asked b in
        (
          p.1,
          map-OneOf (λ p. p.1) p asked one,
          replied_lem s o tag.z p.0 p.1 (All-OneOf (λ p. Replied s o p.0 p.1) p asked replies one)
              (rw same at (acked_lem s o tag i (All-OneOf (Acked s o tag) i acked acks a))),
        )
