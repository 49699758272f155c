-- ===== src/Sodaw/Serve.antt =====
-- `algorithm_SODAW` of src/sodaw/sodaw_server.c serves every request.
use colas.Common.{
  ℕ, ◌+◌, ◌%◌, ◌^◌, ◌<◌, ◌≡◌, refl, sym, ◌∙◌, Option, some, [], ◌∷◌, ◌++◌, arith, length,
  length-append, Bytes, IsCString, fits_some, streq, streq_iff, Bool-cases, inl, inr,
}
use colas.Tag.{Tag}
use colas.Tag.Decimal.{length-print_int}
use colas.Tag.Text.{tag_text, string_to_tag}
use colas.Sodaw.Dispatch.{read_disperse, read_value, dispatch_sodaw}
use colas.Sodaw.Filed.{IsFiled, complete-IsFiled}
use colas.Sodaw.History.{HistoryData, history_data_keystring}
use colas.Sodaw.Put.{later_entry, write_put_lem}
use colas.Sodaw.Tags.{get_tag_lem}
use colas.Sodaw.Reads.{IsWord, IsTagText, is_late, read_complete_lem, read_disperse_lem}
use colas.Sodaw.Relays.{record_relay_state}
use colas.Sodaw.Server.{SodawArgs, Server, read_complete, write_put, write_get_or_read_get_tag}
use colas.Sodaw.Stored.{read_value_state}
use colas.Store.Entry.{Entry, View, put_entry, Shows}
use colas.Wire.Carries.{Carries}
use colas.Wire.Delivery.{Request, algorithm_of, phase_of, body, header}
use colas.Wire.Read.{Frames}
use colas.Wire.Uint.{uint_frame}
use colas.Words
use colas.Words.{bufsize}
use colas.Zhash.{Zhash}

-- A request that fits the buffers, from a client or server; a stored tag is printed as the source
-- prints it.
abbrev pub IsSodaw : Bytes → Request → Type 0
IsSodaw client (Request.write_get op) = Unit
IsSodaw client (Request.read_get op) = Unit
IsSodaw client (Request.write_put op t v) =
    (tag : Tag) × (string_to_tag t ≡ some tag) × (t ≡ tag_text tag) × (length t < 64) × IsCString t
IsSodaw client (Request.read_value op t) = (h : IsTagText t) × (length h.1.0.id + 12 < 100)
IsSodaw client (Request.read_complete op t) = IsTagText t
IsSodaw client (Request.read_disperse st r rt op) =
    IsTagText st × IsTagText rt × IsWord r × (length r + length client + length st + 14 < 100)
IsSodaw client (Request.write_value _ _ _) = ⊥
IsSodaw client (Request.get_tag _) = ⊥
IsSodaw client (Request.get_tag_value _) = ⊥

-- The entry of the object behind a request.
abbrev pub entry_after : Entry → (client : Bytes) (q : Request) → IsSodaw client q → Entry
entry_after e client (Request.write_put op t v) h = later_entry e t h.0 v
entry_after e client (Request.write_get op) h = e
entry_after e client (Request.read_get op) h = e
entry_after e client (Request.read_value op t) h = e
entry_after e client (Request.read_complete op t) h = e
entry_after e client (Request.read_disperse st r rt op) h = e
entry_after e client (Request.write_value _ _ _) h = absurd h
entry_after e client (Request.get_tag _) h = absurd h
entry_after e client (Request.get_tag_value _) h = absurd h

pub keystring_fits :
    (r s st rt : Bytes) (n : ℕ)
    → length r + length s + length st + 14 < 100
    → (key : Bytes) × (history_data_keystring
          (record { readerid = r; senderid = s; read_tag_str = rt; send_tag_str = st; opnum = n })
        ≡ some key)
unfolding history_data_keystring
keystring_fits r s st rt n h =
    (_, fits_some bufsize _ (grind (arith, length-append, length-print_int)))

same_view :
    (view : View) (o : Bytes) (e : Entry)
    → view o ≡ some e
    → (other : Bytes) → put_entry view o e other ≡ view other
same_view view o e at other = elim (Bool-cases (streq o other)) [
  | inl q ↦ rw q (let p : view other ≡ some e = cc ((streq_iff o other).0 q, at) in sym p)
  | inr q ↦ rw q refl
]

module _ (Z : Zhash) (args : SodawArgs) (sender client o : Bytes) (ws : IsWord sender)
    (wc : IsWord client) (wo : IsWord o) (view : View) (e : Entry) (at : view o ≡ some e)
    (canonical : e.key ≡ tag_text e.tag) (s : Server Z) (shows : Shows Z s.objects view)
    (f : IsFiled Z s) (frames : Frames Z) where
  -- A handler that does not fail, keeps the tables well-formed and leaves the object with the entry.
  abbrev pub Serves : Option (Server Z) → Entry → Type 0
  Serves result e' =
      (s' : Server Z) × (result ≡ some s') × Shows Z s'.objects (put_entry view o e') × IsFiled Z s'

  same-Serves :
      (result : Option (Server Z)) (s' : Server Z)
      → result ≡ some s'
      → s'.objects ≡ s.objects
      → IsFiled Z s'
      → Serves result e
  same-Serves result s' returns same g =
      (s', returns, λ other. rw (same_view view o e at other, same) (shows other), g)

  get_tag-Serves :
      (phase : Bytes) (op : ℕ)
      → Carries Z frames
          (header sender client o Words.sodaw phase ++ (Words.opnum, uint_frame op) ∷ [])
      → Serves (write_get_or_read_get_tag Z args frames s) e
  get_tag-Serves phase op c =
      same-Serves _ _ (get_tag_lem Z args sender client o wo view e at s shows frames phase op c)
        refl (record { filed = f.filed; only_one = f.only_one; open_history = f.open_history })

  read_complete-Serves :
      (op : ℕ) (t : Bytes) (h : IsTagText t)
      → Carries Z frames (
          header sender client o Words.sodaw Words.read_complete
          ++ body (Request.read_complete op t))
      → Serves (read_complete Z frames s) e
  read_complete-Serves op t h c =
      let n = op % 2 ^ 32 in
      let lem = read_complete_lem Z args sender client o ws wc wo frames s op t h c in
      let (s', done, g, same) = complete-IsFiled Z s h.1.0 client n f in
      elim (Bool-cases (is_late Z s client n)) [
        | inl p ↦ same-Serves _ s (lem ∙ rw p refl) refl f
        | inr p ↦ same-Serves _ s' (lem ∙ rw p done) same g
      ]

  read_disperse-Serves :
      (st r rt : Bytes) (op : ℕ) (h : IsTagText st) (k : IsTagText rt)
      → IsWord r
      → length r + length client + length st + 14 < 100
      → Carries Z frames (
          header sender client o Words.sodaw Words.read_disperse
          ++ body (Request.read_disperse st r rt op))
      → Serves (read_disperse Z args frames s) e
  read_disperse-Serves st r rt op h k wr short c =
      let n = op % 2 ^ 32 in
      let his : HistoryData = record {
        readerid = r;
        senderid = client;
        read_tag_str = rt;
        send_tag_str = st;
        opnum = n;
      } in
      let lem = read_disperse_lem Z args sender client o ws wc wo frames s st r rt op h k wr c in
      let (key, keyed) = keystring_fits r client st rt n short in
      elim (Bool-cases (is_late Z s r n)) [
        | inl p ↦ same-Serves _ s (lem ∙ rw p refl) refl f
        | inr p ↦
            let (s', done, how, g, same) =
              record_relay_state Z args s his k.1.0 key f (ground arith) keyed in
            same-Serves _ s' (lem ∙ rw p done) same g
      ]

  read_value-Serves :
      (op : ℕ) (t : Bytes) (h : IsTagText t)
      → length h.1.0.id + 12 < 100
      → Carries Z frames
          (header sender client o Words.sodaw Words.read_value ++ body (Request.read_value op t))
      → Serves (read_value Z args frames s) e
  read_value-Serves op t h short c =
      let (s', done, how, shows', g) =
        read_value_state Z args o view e at canonical s sender client t op h frames ws wc wo short c
          shows f in
      (s', done, λ other. rw (same_view view o e at other) (shows' other), g)

  write_put-Serves :
      (op : ℕ) (t v : Bytes) (tag : Tag)
      → IsCString t
      → length t < 64
      → string_to_tag t ≡ some tag
      → Carries Z frames
          (header sender client o Words.sodaw Words.write_put ++ body (Request.write_put op t v))
      → Serves (write_put Z args frames s) (later_entry e t tag v)
  write_put-Serves op t v tag ct lt reads c =
      let (objects, shown, done) =
        write_put_lem Z args sender client o t v op tag ws wc wo ct lt reads frames c s view e f
          shows at in
      (
        _,
        done,
        shown,
        record { filed = f.filed; only_one = f.only_one; open_history = f.open_history },
      )

  -- The handler of the phase is called.
  pub dispatch_sodaw-Serves :
      (q : Request) (h : IsSodaw client q)
      → Carries Z frames (header sender client o (algorithm_of q) (phase_of q) ++ body q)
      → Serves (dispatch_sodaw Z args (phase_of q) frames s) (entry_after e client q h)
  unfolding dispatch_sodaw algorithm_of phase_of streq
  dispatch_sodaw-Serves (Request.write_get op) h c =
      get_tag-Serves Words.write_get op (unfold body in c)
  dispatch_sodaw-Serves (Request.read_get op) h c =
      get_tag-Serves Words.read_get op (unfold body in c)
  dispatch_sodaw-Serves (Request.write_put op t v) (tag, reads, same, lt, ct) c =
      write_put-Serves op t v tag ct lt reads c
  dispatch_sodaw-Serves (Request.read_value op t) (h, short) c = read_value-Serves op t h short c
  dispatch_sodaw-Serves (Request.read_complete op t) h c = read_complete-Serves op t h c
  dispatch_sodaw-Serves (Request.read_disperse st r rt op) (h, k, wr, short) c =
      read_disperse-Serves st r rt op h k wr short c
  dispatch_sodaw-Serves (Request.write_value _ _ _) h c = absurd h
  dispatch_sodaw-Serves (Request.get_tag _) h c = absurd h
  dispatch_sodaw-Serves (Request.get_tag_value _) h c = absurd h
