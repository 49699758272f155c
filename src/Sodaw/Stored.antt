-- ===== src/Sodaw/Stored.antt =====
-- `algorithm_SODAW_READ_VALUE` of src/sodaw/sodaw_server.c from the request to what is sent.
use mathlib.Core.List.{append-nil}
use colas.Common.{
  sym, true, none, ◌≤◌, ◌⊎◌, List, streq, leb, leb→le, Option-cases, ℕ, ◌+◌, ◌%◌, ◌^◌, ◌<◌, ◌≡◌,
  refl, ◌∙◌, some, [], ◌∷◌, ◌++◌, if◌then◌else◌, arith, length, Bytes, Bool-cases, inl, inr,
}
use colas.Common.Int.{pos, ltb_ℤ}
use colas.Tag.{Tag, compare_tags}
use colas.Tag.RoundTrip.{length-string_to_tag, tag_to_string_fits}
use colas.Tag.Text.{tag_text}
use colas.Sodaw.Dispatch.{register, send_stored, read_value}
use colas.Sodaw.Filed.{IsFiled, register-IsFiled, register_reading, register_readed}
use colas.Sodaw.Reads.{IsWord, IsTagText, is_late, read_value_lem}
use colas.Sodaw.Relaying.{element, dispersal, sending, element_lem, disperse_lem}
use colas.Sodaw.Server.{SodawArgs, RegReader, Server}
use colas.Store.{get_object_frame}
use colas.Store.Entry.{Entry, View, Shows, table_of, get_object_tag-Shows}
use colas.Wire.Carries.{Carries}
use colas.Wire.Delivery.{Request, body, header}
use colas.Wire.Read.{Frames}
use colas.Words
use colas.Zhash.{Zhash}

module _ (Z : Zhash) (args : SodawArgs) (o : Bytes) (view : View) (e : Entry) (at : view o ≡ some e)
    (same : e.key ≡ tag_text e.tag) where
  -- The server when a reader has been served.
  abbrev pub served : Server Z → Bytes → Bytes → Tag → ℕ → Server Z
  served s sender reader tag_r n =
      if ltb_ℤ (compare_tags e.tag tag_r) (pos 0)
      then s
      else sending Z s (element args o sender e.tag n e.value ∷ [])
          (dispersal args o (tag_text e.tag) reader (tag_text tag_r) n)

  send_stored_lem :
      (s : Server Z) (sender reader : Bytes) (tag_r : Tag) (n : ℕ)
      → Shows Z s.objects view
      → length tag_r.id + 12 < 100
      → send_stored Z args sender reader o Words.sodaw tag_r n s
        ≡ some (served s sender reader tag_r n)
  unfolding send_stored get_object_frame
  send_stored_lem s sender reader tag_r n shows short =
      let (table, found, single, fine) = table_of Z s.objects view o e shows at in
      let small : length e.tag.id + 12 < 100 =
        omega (arith, length-string_to_tag e.key e.tag fine.read, fine.short) in
      let held : Z.lookup table (tag_text e.tag) ≡ some e.value = rw (← same) single.held in
      elim (Bool-cases (ltb_ℤ (compare_tags e.tag tag_r) (pos 0))) [
        | inl p ↦ rw (get_object_tag-Shows Z s.objects view o e shows at, p) refl
        | inr p ↦
            rw
              (
                get_object_tag-Shows Z s.objects view o e shows at,
                p,
                found,
                tag_to_string_fits 100 e.tag small,
                tag_to_string_fits 100 tag_r short,
                held,
                element_lem args o sender e.tag n e.value small,
                disperse_lem args o (tag_text e.tag) reader (tag_text tag_r) n,
              )
              refl
      ]

  served_keeps :
      (s : Server Z) (sender reader : Bytes) (tag_r : Tag) (n : ℕ)
      → Shows Z s.objects view
      → IsFiled Z s
      → Shows Z (served s sender reader tag_r n).objects view
        × IsFiled Z (served s sender reader tag_r n)
  served_keeps s sender reader tag_r n shows f =
      elim (Bool-cases (ltb_ℤ (compare_tags e.tag tag_r) (pos 0))) [
        | inl p ↦ rw p (shows, f)
        | inr p ↦ rw p (
          shows,
          record { filed = f.filed; only_one = f.only_one; open_history = f.open_history },
        )
      ]

  -- The server behind the request.
  pub read_value_state :
      (s : Server Z) (sender client t : Bytes) (op : ℕ) (h : IsTagText t) (frames : Frames Z)
      → IsWord sender
      → IsWord client
      → IsWord o
      → length h.1.0.id + 12 < 100
      → Carries Z frames
          (header sender client o Words.sodaw Words.read_value ++ body (Request.read_value op t))
      → Shows Z s.objects view
      → IsFiled Z s
      → (s' : Server Z) × (read_value Z args frames s ≡ some s')
        × (s' ≡ (
            if is_late Z s client (op % 2 ^ 32)
            then s
            else served
                (register Z s h.1.0 client (op % 2 ^ 32))
                sender
                client
                h.1.0
                (op % 2 ^ 32)))
        × Shows Z s'.objects view
        × IsFiled Z s'
  read_value_state s sender client t op h frames ws wc wo short c shows f =
      let n = op % 2 ^ 32 in
      let r = register Z s h.1.0 client n in
      let shows' : Shows Z r.objects view = unfold register in shows in
      let g = register-IsFiled Z s h.1.0 client n f short in
      elim (Bool-cases (is_late Z s client n)) [
        | inl p ↦ (
          s,
          read_value_lem Z args sender client o ws wc wo frames s op t h c ∙ rw p refl,
          rw p refl,
          shows,
          f,
        )
        | inr p ↦ (
          served r sender client h.1.0 n,
          read_value_lem Z args sender client o ws wc wo frames s op t h c
              ∙ rw p (send_stored_lem r sender client h.1.0 n shows' short),
          rw p refl,
          (served_keeps r sender client h.1.0 n shows' g).0,
          (served_keeps r sender client h.1.0 n shows' g).1,
        )
      ]

module _ (Z : Zhash) where
  -- The operation of the reader is complete, or the reader has gone on to a later one.
  abbrev pub IsLate : Server Z → Bytes → ℕ → Type 0
  IsLate s id n =
      ((r : RegReader) × (Z.lookup s.readed id ≡ some r) × (n ≤ r.opnum))
      ⊎ ((r : RegReader) × (Z.lookup s.reading id ≡ some r) × (n < r.opnum))

  is_late-IsLate : (s : Server Z) (id : Bytes) (n : ℕ) → is_late Z s id n ≡ true → IsLate s id n
  is_late-IsLate s id n p = elim (Option-cases (Z.lookup s.readed id)) [
    | inl e ↦ elim (Option-cases (Z.lookup s.reading id)) [
      | inl e' ↦ absurd (cc (rw (e, e') at p))
      | inr (r, e') ↦ inr (r, e', ground (arith, rw (e, e') at p))
    ]
    | inr (r, e) ↦ elim (Bool-cases (leb n r.opnum)) [
      | inl t ↦ inl (r, e, leb→le n r.opnum t)
      | inr t ↦ elim (Option-cases (Z.lookup s.reading id)) [
        | inl e' ↦ absurd (cc (rw (e, t, e') at p))
        | inr (r', e') ↦ inr (r', e', ground (arith, rw (e, t, e') at p))
      ]
    ]
  ]

  IsLate-is_late : (s : Server Z) (id : Bytes) (n : ℕ) → IsLate s id n → is_late Z s id n ≡ true
  IsLate-is_late s id n (inl (r, e, le)) = rw e (ground (arith, le))
  IsLate-is_late s id n (inr (r, e, lt)) = rw e (ground (arith, lt))

  -- The reader, and it alone, has moved: it is among those reading, and not among those that have
  -- read. It is sent the elements, and the servers are told of them.
  pub record Registered (s s' : Server Z) (r : RegReader) (elements told : List (List Bytes))
      : Type 0 where
    pub reading :
        (id : Bytes)
        → Z.lookup s'.reading id ≡ (if streq r.reader_id id then some r else Z.lookup s.reading id)
    pub readed :
        (id : Bytes)
        → Z.lookup s'.readed id ≡ (if streq r.reader_id id then none else Z.lookup s.readed id)
    pub history : s'.history ≡ s.history
    pub objects : s'.objects ≡ s.objects
    pub to_clients : s'.to_clients ≡ s.to_clients ++ elements
    pub to_servers : s'.to_servers ≡ s.to_servers ++ told

  module _ (args : SodawArgs) (o : Bytes) (view : View) (e : Entry) (at : view o ≡ some e)
      (same : e.key ≡ tag_text e.tag) where
    -- Unless the element is older than the tag that the reader asks for.
    abbrev pub unless_older : {A : Type 0} → Tag → List A → List A
    unless_older tag_r xs = if ltb_ℤ (compare_tags e.tag tag_r) (pos 0) then [] else xs

    served-Registered :
        (s : Server Z) (sender client : Bytes) (tag_r : Tag) (n : ℕ)
        → IsFiled Z s
        → Registered s
            (served Z args o view e at same (register Z s tag_r client n) sender client tag_r n)
            (record { t_r = tag_r; reader_id = client; opnum = n })
            (unless_older tag_r (element args o sender e.tag n e.value ∷ []))
            (unless_older tag_r (dispersal args o (tag_text e.tag) client (tag_text tag_r) n))
    unfolding register
    served-Registered s sender client tag_r n f =
        elim (Bool-cases (ltb_ℤ (compare_tags e.tag tag_r) (pos 0))) [
          | inl p ↦ rw p (record {
            reading = register_reading Z s tag_r client n f;
            readed = register_readed Z s tag_r client n f;
            history = refl;
            objects = refl;
            to_clients = sym (append-nil s.to_clients);
            to_servers = sym (append-nil s.to_servers);
          })
          | inr p ↦ rw p (record {
            reading = register_reading Z s tag_r client n f;
            readed = register_readed Z s tag_r client n f;
            history = refl;
            objects = refl;
            to_clients = refl;
            to_servers = refl;
          })
        ]

    -- `READ_VALUE`, at a request that fits the buffers, with well-formed tables and an object
    -- whose key is the printed tag, does not fail. If the operation of the reader is complete, or
    -- the reader has gone on to a later one, nothing changes. Else the reader stands among those
    -- reading with the tag and the number of the request, and not among those that have read, all
    -- else in the tables is as it was, and the stored element is sent, and all servers told of it,
    -- exactly if its tag is not older than the reader's. The tables stay well-formed.
    pub read_value-serves :
        (s : Server Z) (sender client t : Bytes) (op : ℕ) (h : IsTagText t) (frames : Frames Z)
        → IsWord sender
        → IsWord client
        → IsWord o
        → length h.1.0.id + 12 < 100
        → Carries Z frames
            (header sender client o Words.sodaw Words.read_value ++ body (Request.read_value op t))
        → Shows Z s.objects view
        → IsFiled Z s
        → (s' : Server Z) × (read_value Z args frames s ≡ some s')
          × ((IsLate s client (op % 2 ^ 32) × (s' ≡ s))
              ⊎ ((¬ IsLate s client (op % 2 ^ 32))
                  × Registered s s'
                      (record { t_r = h.1.0; reader_id = client; opnum = op % 2 ^ 32 })
                      (unless_older h.1.0 (element args o sender e.tag (op % 2 ^ 32) e.value ∷ []))
                      (unless_older h.1.0
                        (dispersal args o (tag_text e.tag) client (tag_text h.1.0) (op % 2 ^ 32)))))
          × Shows Z s'.objects view
          × IsFiled Z s'
    read_value-serves s sender client t op h frames ws wc wo short c shows f =
        let n = op % 2 ^ 32 in
        let (s', done, how, shows', g) =
          read_value_state Z args o view e at same s sender client t op h frames ws wc wo short c
            shows f in
        (
          s',
          done,
          elim (Bool-cases (is_late Z s client n)) [
            | inl p ↦ inl (is_late-IsLate s client n p, rw p at how)
            | inr p ↦
                let moved = served-Registered s sender client h.1.0 n f in
                inr (λ late. absurd (cc (IsLate-is_late s client n late, p)), rw (how, p) moved)
          ],
          shows',
          g,
        )
