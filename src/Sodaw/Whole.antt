-- ===== src/Sodaw/Whole.antt =====
-- A read of src/sodaw/sodaw_reader.c from servers that were only given the stripes of writes.
use colas.Common.{
  ℕ, ◌*◌, ◌<◌, ◌≡◌, ◌≢◌, refl, sym, ap, ◌∙◌, true, false, Option, List, [], ◌∷◌, ◌++◌, map, arith,
  Bytes, streq, length, All, All-OneOf, OneOf, ◌⊎◌, inl, inr,
}
use colas.Common.Int.{pos, ltb_ℤ, ◌≤ℤ◌, ◌<ℤ◌}
use colas.Tag.{Tag, init_tag, compare_tags}
use colas.Tag.Text.{tag_text}
use colas.Tag.RoundTrip.{IsTag-init, string_to_tag-tag_text}
use colas.Abd.Client.{Caller}
use colas.Abd.Ends.{matching, enough}
use colas.Abd.Tags.{InRange}
use colas.Abd.Phases.{matches, tag_of}
use colas.Abd.Quorum.{IsQuorum, frame, fourth_of}
use colas.Client.Majority.{majority}
use colas.Client.Polls.{Poll, timed_out, items, polls_of}
use colas.Client.Reply.{Answer, Kind, answer_frames, kind_phase}
use colas.Codec.{EncodeData, Kodo}
use colas.Codec.Read.{Recovers}
use colas.Codec.Stripes.{stripe}
use colas.Sodaw.Atomic.{Decoded, asked-later, not_less_z, sodaw_read-later}
use colas.Sodaw.Elements.{IsElement}
use colas.Sodaw.Gathered.{none_received}
use colas.Sodaw.Only.{Only, AllPuts, replies-Sent}
use colas.Sodaw.Operations.{decoded_as}
use colas.Sodaw.Phases.{Patient}
use colas.Sodaw.Quorum.{Acked, Replied}
use colas.Sodaw.Read.{ShortId, asked_tag}
use colas.Sodaw.Reader.{sodaw_read}
use colas.Sodaw.Sent.{Puts}
use colas.Sodaw.Server.{SodawArgs}
use colas.Sodaw.Shares.{Written, IsShare, OneEach, Polled, held_of, Busy-All}
use colas.Sodaw.System.{System, Serves, Run, IsRequest}
use colas.Wire.Delivery.{Request}
use colas.Words
use colas.Zhash.{Zhash}

All-both :
    {A : Type 0} (P Q R : A → Type 0)
    → ((x : A) → P x → Q x → R x)
    → (xs : List A) → All P xs
    → All Q xs
    → All R xs
All-both P Q R f [] p q = tt
All-both P Q R f (x ∷ xs) p q = (f x p.0 q.0, All-both P Q R f xs p.1 q.1)

element_frames :
    (a : Answer)
    → streq (kind_phase a.kind) Words.read_value ≡ true
    → (frame 4 (answer_frames a) ≡ a.tag) × (frame 6 (answer_frames a) ≡ a.value)
unfolding answer_frames kind_phase streq
element_frames a h = go a.kind a refl h
  where
    go :
        (k : Kind) (a : Answer)
        → a.kind ≡ k
        → streq (kind_phase k) Words.read_value ≡ true
        → (frame 4 (answer_frames a) ≡ a.tag) × (frame 6 (answer_frames a) ≡ a.value)
    go Kind.read_value a e h = rw e (refl, refl)
    go _ a e h = absurd (cc)

-- The frames of an element determine its tag and its value.
same_element :
    (P : Bytes → Bytes → Type 0) (a b : Answer)
    → answer_frames a ≡ answer_frames b
    → (streq (kind_phase b.kind) Words.read_value ≡ true → P b.tag b.value)
    → streq (kind_phase a.kind) Words.read_value ≡ true
    → P a.tag a.value
same_element P a b e p h =
    let phases : kind_phase a.kind ≡ kind_phase b.kind =
      sym (fourth_of a) ∙ ap (frame 3) e ∙ fourth_of b in
    let h' = rw phases at h in
    let (ta, va) = element_frames a h in
    let (tb, vb) = element_frames b h' in
    let tags : b.tag ≡ a.tag = sym tb ∙ sym (ap (frame 4) e) ∙ ta in
    let elements : b.value ≡ a.value = sym vb ∙ sym (ap (frame 6) e) ∙ va in
    rw (tags, elements) at (p h')

module _ (kodo : Kodo) (info : EncodeData) (w : Written) where
  -- Server `i` starts with the tag of a new object; else it is given its stripe of the tag's blocks.
  abbrev pub IsStripe : ℕ → Bytes → Bytes → Type 0
  IsStripe i t v =
      (t ≡ tag_text init_tag)
      ⊎ ((v ≡ stripe kodo info.algorithm info.k info.symbol_size info.n i (w.blocks_of t) 0)
          × (length (w.blocks_of t) ≡ info.num_blocks)
          × All (λ b. length b ≡ info.k * info.symbol_size) (w.blocks_of t))

module _ (Z : Zhash) (args : ℕ → SodawArgs) (kodo : Kodo) (info : EncodeData) (w : Written) where
  -- Server `i`, which was only given such elements, sent `a` while it served a request, after `s`.
  pub record Delivered (s : System Z args) (i : ℕ) (a : Answer) : Type 0 where
    pub before : System Z args
    pub after : System Z args
    pub sender : Bytes
    pub client : Bytes
    pub o : Bytes
    pub identity : Bytes
    pub q : Request
    pub replies : List (List Bytes)
    pub run : Run Z args s before
    pub fits : IsRequest Z args sender client o q
    pub serves : Serves Z args before i sender client o q replies after
    pub all_puts : AllPuts Z args (IsStripe kodo info w) s before run
    pub puts : Puts (IsStripe kodo info w i) q
    pub one : OneOf (identity ∷ answer_frames a) replies

  delivered_lem :
      (s : System Z args) (i : ℕ) (a : Answer)
      → Only Z args (IsStripe kodo info w) s i
      → Delivered s i a
      → streq (kind_phase a.kind) Words.read_value ≡ true
      → IsStripe kodo info w i a.tag a.value
  delivered_lem s i a only d h =
      let P = IsStripe kodo info w i in
      let (identity, b, same, p) =
        All-OneOf _ (d.identity ∷ answer_frames a) d.replies
          (replies-Sent Z args (IsStripe kodo info w) s d.before d.after i d.sender d.client d.o d.q
            d.replies d.run d.fits d.serves d.all_puts d.puts only)
          d.one in
      same_element P a b (cc) p h

-- A tag that is later than a positive one is not that of a new object.
not_init :
    (read_tag : Tag) (a : Answer)
    → pos 0 <ℤ read_tag.z
    → ltb_ℤ (compare_tags (tag_of a) read_tag) (pos 0) ≡ false
    → a.tag ≢ tag_text init_tag
not_init read_tag a positive late e =
    let same : tag_of a ≡ init_tag = rw (e, string_to_tag-tag_text init_tag IsTag-init) refl in
    let le = not_less_z (tag_of a) read_tag late in omega (arith, positive, rw same at le)

module _ (Z : Zhash) (args : ℕ → SodawArgs) (c : Caller) (s : System Z args) (tag : Tag)
    (acked : List ℕ) (quorum : IsQuorum c.num_servers acked)
    (acks : All (Acked Z args s c.obj_name tag) acked) (asked : List (ℕ × Answer))
    (quorum' : IsQuorum c.num_servers (map (λ p. p.0) asked))
    (replies : All (λ p. Replied Z args s c.obj_name p.0 p.1) asked) (kodo : Kodo) (garbage : Bytes)
    (info : EncodeData) (es es' : List (Option Answer)) (w : Written) where
  -- If distinct servers, a majority, served a put of an element with a positive tag before the
  -- state `s`, and the servers have only been given their stripes of the blocks of tags, then
  -- `SODAW_read`, whose first phase collects the replies of distinct servers, a majority, after
  -- `s`, and whose elements are sent by servers after `s`, decodes the blocks of a tag whose
  -- number is at least that of the put. The replies and polls are as `sodaw_read-returns` has
  -- them, the structure has blocks and starts at the first, the codec recovers a block from any K
  -- of its payloads, K is the majority, and no two elements of a tag come from one server, all
  -- numbered below the number of stripes.
  pub sodaw_read-written :
      (later : List Poll)
      → pos 0 <ℤ tag.z
      → ((i : ℕ) → Only Z args (IsStripe kodo info w) s i)
      → map (λ p. p.1) asked ≡ matching c Words.read_get (items es)
      → Patient c Words.read_get 0 es
      → enough c Words.read_get (items es) ≡ true
      → All InRange (matching c Words.read_get (items es))
      → All ShortId (matching c Words.read_get (items es))
      → Polled Z kodo c w info (asked_tag garbage c es) es'
      → (held_of Z kodo c w info (asked_tag garbage c es) (items es')).finished ≡ true
      → All
          (λ a.
            matches c Words.read_value a ≡ true
            → (w.index a < info.n) × Delivered Z args kodo info w s (w.index a) a)
          (items es')
      → OneEach kodo info w c (items es')
      → Recovers kodo info.algorithm info.k info.symbol_size info.n
      → info.k ≡ majority c.num_servers
      → 0 < info.num_blocks * info.k
      → info.offset_index ≡ 0
      → (a : Answer) × (elements : List Bytes) × (tag.z ≤ℤ (tag_of a).z)
        × OneOf a (items es')
        × Decoded
            (sodaw_read Z kodo garbage c info (
              polls_of answer_frames es
              ++ timed_out ∷ (polls_of answer_frames es' ++ timed_out ∷ later)))
            (decoded_as Z kodo c w info (asked_tag garbage c es) elements a.tag)
  sodaw_read-written later positive only collected patient e range short polled full delivered each
        recovers dimension large first =
      let least =
        asked-later Z args c s tag acked quorum acks asked quorum' replies kodo garbage info es es'
          collected e range short in
      let positive' : pos 0 <ℤ (asked_tag garbage c es).z = omega (arith, positive, least) in
      sodaw_read-later Z args c s tag acked quorum acks asked quorum' replies kodo garbage info es
        es' w later collected patient e range short polled full
        (All-both _ _ _ (share positive') (items es') delivered
          (Busy-All Z kodo c w info (asked_tag garbage c es) (none_received Z c) es' polled))
        each recovers dimension large first
    where
      share :
          pos 0 <ℤ (asked_tag garbage c es).z
          → (a : Answer)
          → (matches c Words.read_value a ≡ true
              → (w.index a < info.n) × Delivered Z args kodo info w s (w.index a) a)
          → IsElement c (asked_tag garbage c es) a
          → matches c Words.read_value a ≡ true
          → IsShare kodo info w a
      share positive' a d fine m =
          elim (delivered_lem Z args kodo info w s (w.index a) a (only (w.index a)) (d m).1
            (ground arith)) [
              | inl t ↦ absurd (not_init (asked_tag garbage c es) a positive' (fine.1 m) t)
              | inr (element, count, sized) ↦ record {
                server_number = (d m).0;
                element = element;
                all_blocks = count;
                sized = sized;
              }
            ]
