-- ===== src/Sodaw/Sends.antt =====
-- The handlers of src/sodaw/sodaw_server.c send elements that they have or were given.
use mathlib.Core.Option.{some-injective}
use mathlib.Core.Path.{subst}
use colas.Common.{
  ℕ, ◌%◌, ◌^◌, ◌≡◌, refl, sym, ap, ◌∙◌, Option, some, [], ◌++◌, arith, Bytes, streq, All,
  All-append, leb, Bool-cases, Option-cases, inl, inr,
}
use colas.Common.Int.{pos, ltb_ℤ}
use colas.Client.Majority.{majority}
use colas.Tag.{Tag, compare_tags}
use colas.Tag.Text.{tag_text}
use colas.Sodaw.Dispatch.{register, read_value, read_disperse, dispatch_sodaw}
use colas.Sodaw.Filed.{IsFiled}
use colas.Sodaw.History.{HistoryData, history_clear}
use colas.Sodaw.Put.{write_put_lem, if_later}
use colas.Sodaw.Reads.{IsWord, IsTagText, is_late, read_complete_lem, read_disperse_lem}
use colas.Sodaw.Relaying.{element, elements, readers_at}
use colas.Sodaw.Relays.{recorded, relay_count, record_relay_state}
use colas.Sodaw.Serve.{IsSodaw, keystring_fits}
use colas.Sodaw.Server.{SodawArgs, Server, unregister, complete, read_complete, write_put}
use colas.Sodaw.Stored.{read_value_state}
use colas.Sodaw.Tags.{get_tag_lem}
use colas.Store.Entry.{Entry, View, Shows}
use colas.Wire.Carries.{Carries}
use colas.Wire.Delivery.{Request, algorithm_of, phase_of, body, header}
use colas.Wire.Read.{Frames}
use colas.Words
use colas.Zhash.{Zhash}
use colas.Sodaw.Sent.{
  Sent, Puts, write_get-Sent, read_get-Sent, write_put-Sent, element-Sent, elements-Sent,
}

module _ (Z : Zhash) where
  -- The end of a read sends nothing.
  complete_silent :
      (s s' : Server Z) (tag : Tag) (id : Bytes) (n : ℕ)
      → complete Z s tag id n ≡ some s'
      → s'.to_clients ≡ s.to_clients
  unfolding complete
  complete_silent s s' tag id n e =
      elim (Option-cases (history_clear Z id n (unregister Z s id).history)) [
        | inl h ↦ absurd (cc (rw h at e))
        | inr (history, h) ↦ ap (λ x. x.to_clients) (sym (some-injective _ s' (rw h at e)))
      ]

  module _ (P : Bytes → Bytes → Type 0) (args : SodawArgs) (sender client o : Bytes)
      (ws : IsWord sender) (wc : IsWord client) (wo : IsWord o) (view : View) (e : Entry)
      (at : view o ≡ some e) (canonical : e.key ≡ tag_text e.tag) (has : P e.key e.value)
      (s : Server Z) (silent : s.to_clients ≡ []) (shows : Shows Z s.objects view) (f : IsFiled Z s)
      (frames : Frames Z) where
    -- A handler that sends such messages only.
    abbrev Sends : Option (Server Z) → Type 0
    Sends result = (s' : Server Z) → result ≡ some s' → All (Sent P) s'.to_clients

    all_lem :
        (result : Option (Server Z)) (r : Server Z)
        → result ≡ some r
        → All (Sent P) r.to_clients
        → Sends result
    all_lem result r e h s' e' =
        subst (λ x. All (Sent P) x.to_clients) (some-injective r s' (sym e ∙ e')) h

    none_lem :
        (result : Option (Server Z)) (r : Server Z)
        → result ≡ some r
        → r.to_clients ≡ s.to_clients
        → Sends result
    none_lem result r e same = all_lem result r e (subst (All (Sent P)) (sym (same ∙ silent)) tt)

    write_put-Sends :
        (op : ℕ) (t v : Bytes) (h : IsSodaw client (Request.write_put op t v))
        → P t v
        → Carries Z frames
            (header sender client o Words.sodaw Words.write_put ++ body (Request.write_put op t v))
        → Sends (write_put Z args frames s)
    write_put-Sends op t v (tag, reads, same, lt, ct) p c =
        let (objects, shown, done) =
          write_put_lem Z args sender client o t v op tag ws wc wo ct lt reads frames c s view e f
            shows at in
        let rs = readers_at Z s.reading (Z.keys s.reading) in
        let later : All (Sent P) (if_later e tag (elements args o tag t v rs)) =
          elim (Bool-cases (ltb_ℤ (pos 0) (compare_tags tag e.tag))) [
            | inl q ↦ rw q (elements-Sent P args o tag t v (rw same at p) rs)
            | inr q ↦ rw q tt
          ] in
        all_lem _ _ done (
          rw silent (
            All-append _ (if_later e tag (elements args o tag t v rs)) _ later
              (write_put-Sent P sender args.server_id o op t v, tt)))

    read_value-Sends :
        (op : ℕ) (t : Bytes) (h : IsSodaw client (Request.read_value op t))
        → Carries Z frames
            (header sender client o Words.sodaw Words.read_value ++ body (Request.read_value op t))
        → Sends (read_value Z args frames s)
    unfolding register element
    read_value-Sends op t (h, short) c =
        let n = op % 2 ^ 32 in
        let (s', done, how, shows', g) =
          read_value_state Z args o view e at canonical s sender client t op h frames ws wc wo short
            c shows f in
        let held : P (tag_text e.tag) e.value = rw canonical at has in
        all_lem _ s' done (
          rw how (elim (Bool-cases (is_late Z s client n)) [
            | inl q ↦ rw (q, silent) tt
            | inr q ↦ rw q (elim (Bool-cases (ltb_ℤ (compare_tags e.tag h.1.0) (pos 0))) [
              | inl r ↦ rw (r, silent) tt
              | inr r ↦
                  rw (r, silent)
                    (element-Sent P sender args.server_id o n (tag_text e.tag) e.value held, tt)
            ])
          ]))

    read_complete-Sends :
        (op : ℕ) (t : Bytes) (h : IsTagText t)
        → Carries Z frames (
            header sender client o Words.sodaw Words.read_complete
            ++ body (Request.read_complete op t))
        → Sends (read_complete Z frames s)
    read_complete-Sends op t h c s' e' =
        let n = op % 2 ^ 32 in
        let lem = read_complete_lem Z args sender client o ws wc wo frames s op t h c in
        elim (Bool-cases (is_late Z s client n)) [
          | inl p ↦ none_lem _ s (lem ∙ rw p refl) refl s' e'
          | inr p ↦
              let done : complete Z s h.1.0 client n ≡ some s' = sym (lem ∙ rw p refl) ∙ e' in
              none_lem _ s' done (complete_silent s s' h.1.0 client n done) s' done
        ]

    read_disperse-Sends :
        (st r rt : Bytes) (op : ℕ) (h : IsSodaw client (Request.read_disperse st r rt op))
        → Carries Z frames (
            header sender client o Words.sodaw Words.read_disperse
            ++ body (Request.read_disperse st r rt op))
        → Sends (read_disperse Z args frames s)
    read_disperse-Sends st r rt op (h, k, wr, short) c =
        let n = op % 2 ^ 32 in
        let his : HistoryData = record {
          readerid = r;
          senderid = client;
          read_tag_str = rt;
          send_tag_str = st;
          opnum = n;
        } in
        let lem = read_disperse_lem Z args sender client o ws wc wo frames s st r rt op h k wr c in
        let (key, keyed) = keystring_fits r client st rt n short in
        elim (Bool-cases (is_late Z s r n)) [
          | inl p ↦ none_lem _ s (lem ∙ rw p refl) refl
          | inr p ↦
              let (s', done, how, g, same) =
                record_relay_state Z args s his k.1.0 key f (ground arith) keyed in
              none_lem _ s' (lem ∙ rw p done)
                (elim (Bool-cases (leb (majority args.num_servers) (relay_count Z s key his))) [
                  | inl q ↦ complete_silent (recorded Z s key his) s' k.1.0 r n (rw q at how)
                  | inr q ↦
                      ap (λ x. x.to_clients)
                        (sym (some-injective (recorded Z s key his) s' (rw q at how)))
                ])
        ]

    -- The handler of the phase is called.
    pub dispatch_sodaw-Sends :
        (q : Request) (h : IsSodaw client q)
        → Puts P q
        → Carries Z frames (header sender client o (algorithm_of q) (phase_of q) ++ body q)
        → Sends (dispatch_sodaw Z args (phase_of q) frames s)
    unfolding dispatch_sodaw algorithm_of phase_of streq
    dispatch_sodaw-Sends (Request.write_get op) h p c =
        all_lem _ _
          (get_tag_lem Z args sender client o wo view e at s shows frames Words.write_get op
            (unfold body in c))
          (rw silent (write_get-Sent P sender args.server_id o op (tag_text e.tag) e.value, tt))
    dispatch_sodaw-Sends (Request.read_get op) h p c =
        all_lem _ _
          (get_tag_lem Z args sender client o wo view e at s shows frames Words.read_get op
            (unfold body in c))
          (rw silent (read_get-Sent P sender args.server_id o op (tag_text e.tag) e.value, tt))
    dispatch_sodaw-Sends (Request.write_put op t v) h p c = write_put-Sends op t v h p c
    dispatch_sodaw-Sends (Request.read_value op t) h p c = read_value-Sends op t h c
    dispatch_sodaw-Sends (Request.read_complete op t) h p c = read_complete-Sends op t h c
    dispatch_sodaw-Sends (Request.read_disperse st r rt op) h p c =
        read_disperse-Sends st r rt op h c
    dispatch_sodaw-Sends (Request.write_value _ _ _) h p c = absurd h
    dispatch_sodaw-Sends (Request.get_tag _) h p c = absurd h
    dispatch_sodaw-Sends (Request.get_tag_value _) h p c = absurd h
