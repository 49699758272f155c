-- ===== src/Sodaw/Reads.antt =====
-- The handlers of reads in src/sodaw/sodaw_server.c, at requests that the server took apart.
use colas.Common.{
  ℕ, ◌%◌, ◌^◌, ◌<◌, ◌≡◌, refl, ◌∙◌, Bool, some, ◌++◌, ◌||◌, if◌then◌else◌, arith, length, Bytes,
  IsCString, streq,
}
use colas.Tag.{Tag}
use colas.Tag.Text.{string_to_tag}
use colas.Sodaw.Dispatch.{record_relay, read_disperse, read_value, register, send_stored}
use colas.Sodaw.Server.{SodawArgs, reaches, exceeds, Server, complete, read_complete}
use colas.Wire.Carries.{Carries}
use colas.Wire.Delivery.{Request, algorithm_of, phase_of, body, header}
use colas.Wire.Read.{
  Frames, get_string_frame, get_uint_frame, get_tag_frame, get_string_frame_present,
  get_uint_frame_present,
}
use colas.Words
use colas.Words.{bufsize}
use colas.Wire.Uint.{uint_frame}
use colas.Zhash.{Zhash}
use colas.Zhash.Assoc.{Assoc, find}

-- A text that a buffer of 100 bytes holds.
abbrev pub IsWord : Bytes → Type 0
IsWord s = IsCString s × (length s < bufsize)

-- The text of a tag.
abbrev pub IsTagText : Bytes → Type 0
IsTagText t = IsWord t × ((tag : Tag) × (string_to_tag t ≡ some tag))

module _ (Z : Zhash) where
  -- The read `n` of the client is complete, or the client has gone on to a later one.
  abbrev pub is_late : Server Z → Bytes → ℕ → Bool
  is_late s id n = reaches (Z.lookup s.readed id) n || exceeds (Z.lookup s.reading id) n

  module _ (frames : Frames Z) (l : Assoc Bytes) (c : Carries Z frames l) where
    pub word_read :
        (name v : Bytes)
        → find l name ≡ some v
        → IsWord v
        → get_string_frame Z bufsize frames name ≡ some v
    word_read name v e w = get_string_frame_present Z bufsize frames name v (c name ∙ e) w.0 w.1

    pub tag_read :
        (t : Bytes) (h : IsTagText t)
        → find l Words.tag ≡ some t
        → get_tag_frame Z frames ≡ some h.1.0
    unfolding get_tag_frame
    tag_read t h e = rw (word_read Words.tag t e h.0) h.1.1

    pub number_read :
        (op : ℕ)
        → find l Words.opnum ≡ some (uint_frame op)
        → get_uint_frame Z frames Words.opnum ≡ some (op % 2 ^ 32)
    number_read op e = get_uint_frame_present Z frames Words.opnum op (c Words.opnum ∙ e)

  module _ (args : SodawArgs) (sender client o : Bytes) (ws : IsWord sender) (wc : IsWord client)
      (wo : IsWord o) (frames : Frames Z) (s : Server Z) where
    abbrev Carried : Request → Type 0
    Carried q = Carries Z frames (header sender client o (algorithm_of q) (phase_of q) ++ body q)

    -- `READ_COMPLETE` completes the read unless it is late.
    pub read_complete_lem :
        (op : ℕ) (t : Bytes) (h : IsTagText t)
        → Carries Z frames (
            header sender client o Words.sodaw Words.read_complete
            ++ body (Request.read_complete op t))
        → read_complete Z frames s ≡ (
            if is_late s client (op % 2 ^ 32)
            then some s
            else complete Z s h.1.0 client (op % 2 ^ 32))
    unfolding read_complete body find streq
    read_complete_lem op t h c =
        let l : Assoc Bytes =
          header sender client o Words.sodaw Words.read_complete
          ++ body (Request.read_complete op t) in
        rw
          (
            word_read frames l c Words.tag t refl h.0,
            h.1.1,
            word_read frames l c Words.clientid client refl wc,
            number_read frames l c op refl,
          )
          (ground arith)

    -- `READ_VALUE` registers the reader and sends what is stored, unless it is late.
    pub read_value_lem :
        (op : ℕ) (t : Bytes) (h : IsTagText t)
        → Carries Z frames
            (header sender client o Words.sodaw Words.read_value ++ body (Request.read_value op t))
        → read_value Z args frames s ≡ (
            if is_late s client (op % 2 ^ 32)
            then some s
            else send_stored Z args sender client o Words.sodaw h.1.0
                (op % 2 ^ 32)
                (register Z s h.1.0 client (op % 2 ^ 32)))
    unfolding read_value body find streq
    read_value_lem op t h c =
        let l : Assoc Bytes =
          header sender client o Words.sodaw Words.read_value ++ body (Request.read_value op t) in
        rw
          (
            word_read frames l c Words.sender sender refl ws,
            word_read frames l c Words.clientid client refl wc,
            number_read frames l c op refl,
            word_read frames l c Words.object o refl wo,
            word_read frames l c Words.algorithm Words.sodaw refl (omega arith, omega arith),
            tag_read frames l c t h refl,
          )
          (ground arith)

    -- `READ_DISPERSE`, sent by server `client`, records the relay unless the read is late.
    pub read_disperse_lem :
        (st r rt : Bytes) (op : ℕ) (h : IsTagText st) (k : IsTagText rt)
        → IsWord r
        → Carries Z frames (
            header sender client o Words.sodaw Words.read_disperse
            ++ body (Request.read_disperse st r rt op))
        → read_disperse Z args frames s ≡ (
            if is_late s r (op % 2 ^ 32)
            then some s
            else record_relay Z args s
                (record {
                  readerid = r;
                  senderid = client;
                  read_tag_str = rt;
                  send_tag_str = st;
                  opnum = op % 2 ^ 32;
                })
                k.1.0)
    unfolding read_disperse body find streq
    read_disperse_lem st r rt op h k wr c =
        let l : Assoc Bytes =
          header sender client o Words.sodaw Words.read_disperse
          ++ body (Request.read_disperse st r rt op) in
        rw
          (
            word_read frames l c Words.clientid client refl wc,
            word_read frames l c Words.object o refl wo,
            word_read frames l c Words.meta_send_tag st refl h.0,
            word_read frames l c Words.meta_read_tag rt refl k.0,
            h.1.1,
            k.1.1,
            word_read frames l c Words.meta_readerid r refl wr,
            number_read frames l c op refl,
          )
          (ground arith)
