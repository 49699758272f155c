-- ===== src/Client/Reply.antt =====
-- The replies of servers as clients read them.
use colas.Common.{
  ℕ, ◌%◌, ◌^◌, ◌<◌, ◌≤◌, ◌≡◌, refl, ◌∙◌, true, Option, some, List, [], ◌∷◌, ◌++◌, ◌>>=◌, arith,
  Bytes, streq, IsCString, length,
}
use colas.Wire.Uint.{uint_frame}
use colas.Wire.Read.{
  Frames, get_string_frame, get_uint_frame, get_string_frame_present, get_uint_frame_present,
}
use colas.Wire.Receive.{
  receive_message_frames_at_client, insert_into_hash_and_list, insert_opnum_tag,
  insert_opnum_tag_payload, insert_tag_opnum_payload, client_abd, client_sodaw,
}
use colas.Wire.Carries.{Carries, fill, Carries-fill_new}
use colas.Wire.Delivery.{values, fields}
use colas.Words
use colas.Words.{bufsize}
use colas.Zhash.{Zhash}
use colas.Zhash.Assoc.{Assoc, find}

-- The phases that servers answer.
pub data Kind : Type 0 where
  get_tag write_value get_tag_value write_get read_get write_put read_value : Kind

unfoldable pub kind_algorithm : Kind → Bytes
kind_algorithm get_tag = Words.abd
kind_algorithm write_value = Words.abd
kind_algorithm get_tag_value = Words.abd
kind_algorithm _ = Words.sodaw

unfoldable pub kind_phase : Kind → Bytes
kind_phase get_tag = Words.get_tag
kind_phase write_value = Words.write_value
kind_phase get_tag_value = Words.get_tag_value
kind_phase write_get = Words.write_get
kind_phase read_get = Words.read_get
kind_phase write_put = Words.write_put
kind_phase read_value = Words.read_value

-- A reply as a client receives it, behind the identity that the ROUTER socket takes off.
pub record Answer : Type 0 where
  pub server : Bytes
  pub object : Bytes
  pub kind : Kind
  pub op : ℕ
  pub tag : Bytes
  pub value : Bytes

unfoldable pub answer_header : Answer → Assoc Bytes
answer_header a =
    (Words.serverid, a.server)
    ∷ (Words.object, a.object)
    ∷ (Words.algorithm, kind_algorithm a.kind)
    ∷ (Words.phase, kind_phase a.kind)
    ∷ []

unfoldable pub answer_rest : Kind → ℕ → Bytes → Bytes → Assoc Bytes
answer_rest get_tag_value op t v =
    (Words.opnum, uint_frame op) ∷ (Words.tag, t) ∷ (Words.payload, v) ∷ []
answer_rest read_value op t v =
    (Words.tag, t) ∷ (Words.opnum, uint_frame op) ∷ (Words.payload, v) ∷ []
answer_rest _ op t v = (Words.opnum, uint_frame op) ∷ (Words.tag, t) ∷ []

unfoldable pub shown : Answer → Assoc Bytes
unfolding answer_header answer_rest
shown a = answer_header a ++ answer_rest a.kind a.op a.tag a.value

unfoldable pub answer_frames : Answer → List Bytes
unfolding shown
answer_frames a = values (shown a)

pub phase_shown : (a : Answer) → find (shown a) Words.phase ≡ some (kind_phase a.kind)
unfolding shown find streq
phase_shown a = refl

pub opnum-shown : (a : Answer) → find (shown a) Words.opnum ≡ some (uint_frame a.op)
unfolding shown find streq
opnum-shown a = go a.kind
  where
    go : (k : Kind) → find (answer_rest k a.op a.tag a.value) Words.opnum ≡ some (uint_frame a.op)
    go get_tag = refl
    go _ = refl

-- A reply whose phase is `GET_TAG_VALUE` has a value.
pub value_shown :
    (a : Answer)
    → streq (kind_phase a.kind) Words.get_tag_value ≡ true
    → find (shown a) Words.payload ≡ some a.value
unfolding shown find streq kind_phase
value_shown a h = go a.kind h
  where
    go :
        (k : Kind)
        → streq (kind_phase k) Words.get_tag_value ≡ true
        → find (answer_rest k a.op a.tag a.value) Words.payload ≡ some a.value
    go get_tag_value e = refl
    go _ e = absurd (cc)

-- So has one whose phase is `READ_VALUE`.
pub element_shown :
    (a : Answer)
    → streq (kind_phase a.kind) Words.read_value ≡ true
    → find (shown a) Words.payload ≡ some a.value
unfolding shown find streq kind_phase
element_shown a h = go a.kind h
  where
    go :
        (k : Kind)
        → streq (kind_phase k) Words.read_value ≡ true
        → find (answer_rest k a.op a.tag a.value) Words.payload ≡ some a.value
    go read_value e = refl
    go get_tag_value e = refl
    go _ e = absurd (cc)

pub tag_shown : (a : Answer) → find (shown a) Words.tag ≡ some a.tag
unfolding shown find streq
tag_shown a = go a.kind
  where
    go : (k : Kind) → find (answer_rest k a.op a.tag a.value) Words.tag ≡ some a.tag
    go get_tag = refl
    go _ = refl

pub short_kind :
    (k : Kind)
    → IsCString (kind_algorithm k)
      × (length (kind_algorithm k) < 20)
      × IsCString (kind_phase k)
      × (length (kind_phase k) < 20)
unfolding kind_algorithm kind_phase
short_kind get_tag = omega arith
short_kind _ = omega arith

module _ (Z : Zhash) where
  -- What every phase reads of a message before it looks at it.
  pub record Reply : Type 0 where
    pub frames : Frames Z
    pub names : List Bytes
    pub phase : Bytes
    pub round : ℕ

  -- `receive_message_frames_at_client` and the reads of PHASE, into a buffer of `cap` bytes, and of
  -- OPNUM.
  unfoldable pub read_reply : ℕ → List Bytes → Option Reply
  read_reply cap msg = do
    r ← receive_message_frames_at_client Z msg
    phase ← get_string_frame Z cap r.frames Words.phase
    round ← get_uint_frame Z r.frames Words.opnum
    some (record { frames = r.frames; names = r.names; phase = phase; round = round })

  read_fill :
      (cap : ℕ) (l : Assoc Bytes) (name v : Bytes)
      → find l name ≡ some v
      → IsCString v
      → length v < cap
      → get_string_frame Z cap (fill Z (Z.new Bytes) l) name ≡ some v
  read_fill cap l name v e =
      get_string_frame_present Z cap (fill Z (Z.new Bytes) l) name v (Carries-fill_new Z l name ∙ e)

  -- The frames of a reply in the table of the client.
  abbrev pub frames_of : Answer → Frames Z
  frames_of a = fill Z (Z.new Bytes) (shown a)

  pub Carries-frames_of : (a : Answer) → Carries Z (frames_of a) (shown a)
  Carries-frames_of a = Carries-fill_new Z (shown a)

  abbrev header_of : Kind → Bytes → Bytes → Assoc Bytes
  header_of k s o =
      (Words.serverid, s)
      ∷ (Words.object, o)
      ∷ (Words.algorithm, kind_algorithm k)
      ∷ (Words.phase, kind_phase k)
      ∷ []

  algorithm_read :
      (k : Kind) (s o : Bytes)
      → get_string_frame Z bufsize
          (fill Z
            (Z.new Bytes)
            ((Words.serverid, s) ∷ (Words.object, o) ∷ (Words.algorithm, kind_algorithm k) ∷ []))
          Words.algorithm
        ≡ some (kind_algorithm k)
  unfolding find streq
  algorithm_read k s o =
      let (ha, la, hp, lp) = short_kind k in
      read_fill bufsize
        ((Words.serverid, s) ∷ (Words.object, o) ∷ (Words.algorithm, kind_algorithm k) ∷ [])
        Words.algorithm (kind_algorithm k) refl ha (omega arith)

  phase_read :
      (k : Kind) (s o : Bytes)
      → get_string_frame Z bufsize (fill Z (Z.new Bytes) (header_of k s o)) Words.phase
        ≡ some (kind_phase k)
  unfolding find streq
  phase_read k s o =
      let (ha, la, hp, lp) = short_kind k in
      read_fill bufsize (header_of k s o) Words.phase (kind_phase k) refl hp (omega arith)

  -- A client takes every reply apart.
  receive-answer_frames :
      (k : Kind) (s o t v : Bytes) (op : ℕ)
      → receive_message_frames_at_client Z (values (header_of k s o ++ answer_rest k op t v))
        ≡ some (record {
          msg = [];
          frames = fill Z (Z.new Bytes) (header_of k s o ++ answer_rest k op t v);
          names = fields (header_of k s o ++ answer_rest k op t v);
        })
  unfolding receive_message_frames_at_client insert_into_hash_and_list client_abd client_sodaw
      insert_opnum_tag insert_opnum_tag_payload insert_tag_opnum_payload kind_algorithm kind_phase
      answer_rest find streq
  receive-answer_frames get_tag s o t v op = rw (algorithm_read get_tag s o, phase_read get_tag s o)
  receive-answer_frames k s o t v op = rw (algorithm_read k s o, phase_read k s o)

  -- Of every reply of a server, a client whose buffer has at least 20 bytes reads the phase as the
  -- server sent it and the operation number modulo 2^32, and holds every frame under its name.
  pub read_reply-answer_frames :
      (cap : ℕ) (a : Answer)
      → 20 ≤ cap
      → read_reply cap (answer_frames a)
        ≡ some (record {
          frames = frames_of a;
          names = fields (shown a);
          phase = kind_phase a.kind;
          round = a.op % 2 ^ 32;
        })
  unfolding read_reply answer_frames shown
  read_reply-answer_frames cap a h =
      let (ha, la, hp, lp) = short_kind a.kind in
      rw (
        receive-answer_frames a.kind a.server a.object a.tag a.value a.op,
        get_string_frame_present Z cap (frames_of a) Words.phase (kind_phase a.kind)
            (Carries-frames_of a Words.phase ∙ phase_shown a) hp (omega arith),
        get_uint_frame_present Z (frames_of a) Words.opnum a.op
            (Carries-frames_of a Words.opnum ∙ opnum-shown a),
      )
