-- ===== src/Abd/Whole.antt =====
-- A read of src/abd/abd_reader.c from servers that were only given tags and values that were written.
use colas.Common.{
  Option, is_some, ℕ, ◌≡◌, refl, sym, ap, ◌∙◌, Bool, true, some, List, [], ◌∷◌, map, keep, take,
  arith, Bytes, streq, All, All-OneOf, OneOf, OneOf-map, Bool-cases, inl, inr, zero, suc,
}
use colas.Tag.{Tag}
use colas.Tag.Text.{tag_text}
use colas.Tag.RoundTrip.{string_to_tag-tag_text}
use colas.Abd.Atomic.{EndsIf, EndsIf-copied}
use colas.Abd.Client.{Caller, abd_read}
use colas.Abd.Ends.{first_majority, matching, behind, enough}
use colas.Abd.Only.{Only, AllWrites, Run-Only}
use colas.Abd.Operations.{abd_read-returns}
use colas.Abd.Phases.{matches, tag_of}
use colas.Abd.Quorum.{Replied, Asks, frame, fourth_of, held_IsTag}
use colas.Abd.Replies.{reply_of}
use colas.Abd.Server.{ServerArgs}
use colas.Abd.Spec.{IsAbd}
use colas.Abd.System.{System, Serves_lem, held}
use colas.Abd.Tags.{InRange}
use colas.Client.Majority.{majority}
use colas.Client.Print.{IsAnswer}
use colas.Client.Reply.{Answer, Kind, answer_frames, kind_phase}
use colas.Store.Entry.{Entry}
use colas.Wire.Delivery.{Request, get_tag, get_tag_value}
use colas.Words
use colas.Zhash.{Zhash}

-- What is kept passes the test.
kept-true :
    {A : Type 0} (test : A → Bool) (x : A) (xs : List A) → OneOf x (keep test xs) → test x ≡ true
kept-true test x [] o = absurd o
kept-true test x (y ∷ xs) o = elim (Bool-cases (test y)) [
  | inl e ↦ elim (rw e at o) [ inl p ↦ rw p e | inr p ↦ kept-true test x xs p ]
  | inr e ↦ kept-true test x xs (rw e at o)
]

OneOf-take : {A : Type 0} (n : ℕ) (x : A) (xs : List A) → OneOf x (take n xs) → OneOf x xs
OneOf-take zero x xs o = absurd o
OneOf-take (suc n) x [] o = absurd o
OneOf-take (suc n) x (y ∷ xs) (inl p) = inl p
OneOf-take (suc n) x (y ∷ xs) (inr p) = inr (OneOf-take n x xs p)

-- Such a reply has its tag and value at these places.
value_frames :
    (a : Answer)
    → streq (kind_phase a.kind) Words.get_tag_value ≡ true
    → (frame 5 (answer_frames a) ≡ a.tag) × (frame 6 (answer_frames a) ≡ a.value)
unfolding answer_frames kind_phase streq
value_frames a h = go a.kind a refl h
  where
    go :
        (k : Kind) (a : Answer)
        → a.kind ≡ k
        → streq (kind_phase k) Words.get_tag_value ≡ true
        → (frame 5 (answer_frames a) ≡ a.tag) × (frame 6 (answer_frames a) ≡ a.value)
    go Kind.get_tag_value a e h = rw e (refl, refl)
    go _ a e h = absurd (cc)

-- Its tag and value are those of the server's entry.
entry_of :
    (args : ServerArgs) (o : Bytes) (e : Entry) (q : Request) (iq : IsAbd q)
    → Asks q
    → ((reply_of args o e q iq).tag ≡ tag_text e.tag) × ((reply_of args o e q iq).value ≡ e.value)
unfolding reply_of
entry_of args o e (get_tag op) iq asks = (refl, refl)
entry_of args o e (get_tag_value op) iq asks = (refl, refl)
entry_of args o e (Request.write_value _ _ _) iq asks = absurd asks
entry_of args o e (Request.write_get _) iq asks = absurd iq
entry_of args o e (Request.read_get _) iq asks = absurd iq
entry_of args o e (Request.write_put _ _ _) iq asks = absurd iq
entry_of args o e (Request.read_value _ _) iq asks = absurd iq
entry_of args o e (Request.read_complete _ _) iq asks = absurd iq
entry_of args o e (Request.read_disperse _ _ _ _) iq asks = absurd iq

replied_entry :
    (args : ServerArgs) (o : Bytes) (e : Entry) (q : Request) (iq : IsAbd q) (a : Answer)
    → Asks q
    → streq (kind_phase a.kind) Words.get_tag_value ≡ true
    → answer_frames a ≡ answer_frames (reply_of args o e q iq)
    → (a.tag ≡ tag_text e.tag) × (a.value ≡ e.value)
replied_entry args o e q iq a asks h same =
    let (ta, va) = value_frames a h in
    let b = reply_of args o e q iq in
    let phases : kind_phase a.kind ≡ kind_phase b.kind =
      sym (fourth_of a) ∙ ap (frame 3) same ∙ fourth_of b in
    let (tb, vb) = value_frames b (rw phases at h) in
    let (t, v) = entry_of args o e q iq asks in
    (sym ta ∙ ap (frame 5) same ∙ tb ∙ t, sym va ∙ ap (frame 6) same ∙ vb ∙ v)

module _ (Z : Zhash) (args : ℕ → ServerArgs) (P : Tag → Bytes → Type 0) where
  -- After the state `s`, and writes of such tags and values only, server `i` answered `a`.
  pub record Reported (s : System Z args) (o : Bytes) (i : ℕ) (a : Answer) : Type 0 where
    pub replied : Replied Z args s o i a
    pub all_writes : AllWrites Z args P s replied.before replied.run

  reported_lem :
      (s : System Z args) (o : Bytes) (i : ℕ) (a : Answer)
      → Only Z args P s i
      → Reported s o i a
      → streq (kind_phase a.kind) Words.get_tag_value ≡ true
      → P (tag_of a) a.value
  reported_lem s o i a only d h =
      let k = d.replied in
      let (view, at, has) = Run-Only Z args P s k.before i k.run d.all_writes only in
      let (sent, shows, others) = Serves_lem Z args k.fits view k.serves at in
      let e = held Z args view i o in
      let (t, v) = replied_entry (args i) o e k.q k.fits.0 a k.asks h (cc sent) in
      let tags : e.tag ≡ tag_of a =
        rw (t, string_to_tag-tag_text e.tag (held_IsTag Z args k.before view i o at)) refl in
      rw (tags, sym v) at (has o)

  -- If every server has, at the state `s`, only tags and values of a given property, those that it
  -- gives to new objects among them, and all that is written after `s` before the reply of a
  -- server has the property, then `ABD_read`, whose first phase collects such replies, takes a tag
  -- and a value that have it together. It returns them if the write-back may read as many bytes as
  -- the value has from the struct of its frame, and faults if it may not. The replies are such
  -- that the client can print and read them, their numbers are not negative and less than INT_MAX,
  -- and replies to both phases come from a majority.
  pub abd_read-written :
      (c : Caller) (s : System Z args) (asked : List (ℕ × Answer)) (garbage : Bytes)
      (answers : List Answer) (memory_of : Bytes → Option Bytes)
      → ((i : ℕ) → Only Z args P s i)
      → All (λ p. Reported s c.obj_name p.0 p.1) asked
      → map (λ p. p.1) asked ≡ first_majority c Words.get_tag_value answers
      → All IsAnswer answers
      → All InRange answers
      → enough c Words.get_tag_value answers ≡ true
      → enough c Words.write_value (behind c Words.get_tag_value answers) ≡ true
      → (t : Tag) × (v : Bytes) × P t v
        × EndsIf
            (is_some (memory_of v))
            (abd_read Z memory_of garbage c (map answer_frames answers))
            (record { tag = t; value = some v })
  abd_read-written c s asked garbage answers memory_of only reports collected fine range e e' =
      let (a, one, later, returns) =
        abd_read-returns Z c garbage answers memory_of fine range e e' in
      let (p, there, same) = OneOf-map (λ p. p.1) a asked (rw (sym collected) at one) in
      let fits =
        kept-true (matches c Words.get_tag_value) a answers
          (OneOf-take (majority c.num_servers) a (matching c Words.get_tag_value answers) one) in
      let report = All-OneOf (λ p. Reported s c.obj_name p.0 p.1) p asked reports there in
      (
        tag_of a,
        a.value,
        reported_lem s c.obj_name p.0 a (only p.0) (rw (sym same) at report) (ground arith),
        EndsIf-copied (memory_of a.value) _ returns (λ m. refl),
      )
