-- ===== src/Sodaw/Put.antt =====
-- `algorithm_SODAW_WRITE_PUT` of src/sodaw/sodaw_server.c at a request that the server took apart.
use mathlib.Core.List.{append-nil}
use colas.Common.{
  ℕ, ◌+◌, ◌<◌, ◌≡◌, refl, sym, ◌∙◌, some, List, [], ◌∷◌, ◌++◌, if◌then◌else◌, arith, length, Bytes,
  IsCString, streq, streq_iff, Bool-cases, inl, inr,
}
use colas.Common.Int.{pos, ltb_ℤ}
use colas.Tag.{Tag, compare_tags}
use colas.Tag.RoundTrip.{length-string_to_tag}
use colas.Tag.Text.{string_to_tag}
use colas.Sodaw.Filed.{IsFiled}
use colas.Sodaw.Reads.{IsWord, word_read, number_read}
use colas.Wire.Send.{send_frames_at_server}
use colas.Sodaw.Relaying.{elements, dispersals, readers_at, relay_lem}
use colas.Sodaw.Server.{SodawArgs, Server, reply_names, replace_element, write_put}
use colas.Store.{Objects}
use colas.Store.Entry.{Entry, View, put_entry, Shows, table_of, get_object_tag-Shows, Shows-update}
use colas.Wire.Carries.{Carries, Carries-insert, sent_of, send_frames-sent_of}
use colas.Wire.Delivery.{Request, body, header}
use colas.Wire.Read.{Frames}
use colas.Wire.Uint.{uint_frame}
use colas.Words
use colas.Words.{bufsize}
use colas.Zhash.{Zhash}
use colas.Zhash.Assoc.{Assoc, find}
use colas.Zhash.Single.{keys-single, insert-delete-IsSingle}

-- The entry of the object after a put: the later tag wins.
abbrev pub later_entry : Entry → Bytes → Tag → Bytes → Entry
later_entry e t tag v =
    if ltb_ℤ (pos 0) (compare_tags tag e.tag) then record { key = t; tag = tag; value = v } else e

abbrev pub if_later : {A : Type 0} → Entry → Tag → List A → List A
if_later e tag xs = if ltb_ℤ (pos 0) (compare_tags tag e.tag) then xs else []

module _ (Z : Zhash) where
  module _ (objects : Objects Z) (view : View) (o : Bytes) (e : Entry)
      (shows : Shows Z objects view) (at : view o ≡ some e) where
    replace_element_lem :
        (t v : Bytes) (tag : Tag)
        → string_to_tag t ≡ some tag
        → length t < 64
        → (objects' : Objects Z) × (replace_element Z objects o t v ≡ some objects')
          × Shows Z objects' (put_entry view o (record { key = t; tag = tag; value = v }))
    unfolding replace_element
    replace_element_lem t v tag r lt =
        let (table, found, single, fine) = table_of Z objects view o e shows at in
        (
          Z.update objects o (Z.insert (Z.delete table e.key) t v),
          rw (found, keys-single Z table e.key e.value single) (rw single.held),
          Shows-update Z objects view o (Z.insert (Z.delete table e.key) t v)
              (record { key = t; tag = tag; value = v }) shows
              (insert-delete-IsSingle Z table e.key e.value t v single)
              (record { read = r; short = lt }),
        )

    keeps_entry : Shows Z objects (put_entry view o e)
    keeps_entry other = elim (Bool-cases (streq o other)) [
      | inl q ↦
          rw q (
            let p : view other ≡ some e = cc ((streq_iff o other).0 q, at) in rw p at (shows other))
      | inr q ↦ rw q (shows other)
    ]

  module _ (args : SodawArgs) (sender client o t v : Bytes) (op : ℕ) (tag : Tag)
      (ws : IsWord sender) (wc : IsWord client) (wo : IsWord o) (ct : IsCString t)
      (lt : length t < 64) (reads : string_to_tag t ≡ some tag) (frames : Frames Z)
      (c : Carries Z frames (
        header sender client o Words.sodaw Words.write_put
        ++ body (Request.write_put op t v))) where
    abbrev l : Assoc Bytes
    l = header sender client o Words.sodaw Words.write_put ++ body (Request.write_put op t v)

    ack_lem :
        send_frames_at_server Z (Z.insert frames Words.serverid args.server_id) reply_names
        ≡ some
            (sender ∷ args.server_id ∷ o ∷ Words.sodaw ∷ Words.write_put ∷ uint_frame op ∷ t ∷ [])
    unfolding body sent_of find streq
    ack_lem =
        send_frames-sent_of Z (Z.insert frames Words.serverid args.server_id)
          (l ++ (Words.serverid, args.server_id) ∷ []) reply_names
          (Carries-insert Z frames l Words.serverid args.server_id c)

    payload_lem : Z.lookup frames Words.payload ≡ some v
    unfolding body find streq
    payload_lem = c Words.payload

    -- `WRITE_PUT`, at a request that fits the buffers, with well-formed tables and an object that
    -- is there, does not fail: it stores the element if its tag is later than the stored one, and
    -- relays it first to exactly the registered readers that wait for no later tag, telling all
    -- servers of each; it acknowledges in either case, and changes no table of readers.
    pub write_put_lem :
        (s : Server Z) (view : View) (e : Entry)
        → IsFiled Z s
        → Shows Z s.objects view
        → view o ≡ some e
        → (objects : Objects Z) × Shows Z objects (put_entry view o (later_entry e t tag v))
          × (write_put Z args frames s
              ≡ some (record s {
                objects = objects;
                to_clients =
                    s.to_clients
                    ++ if_later e tag
                        (elements args o tag t v (readers_at Z s.reading (Z.keys s.reading)))
                    ++ (sender
                        ∷ args.server_id
                        ∷ o
                        ∷ Words.sodaw
                        ∷ Words.write_put
                        ∷ uint_frame op
                        ∷ t
                        ∷ [])
                      ∷ [];
                to_servers =
                    s.to_servers
                    ++ if_later e tag
                        (dispersals args o tag t v (readers_at Z s.reading (Z.keys s.reading)));
              }))
    unfolding write_put body find streq
    write_put_lem s view e f shows at =
        let (objects, replaced, shown) =
          replace_element_lem s.objects view o e shows at t v tag reads lt in
        let short : length tag.id + 12 < 100 = omega (arith, length-string_to_tag t tag reads) in
        elim (Bool-cases (ltb_ℤ (pos 0) (compare_tags tag e.tag))) [
          | inl p ↦ (
            objects,
            rw p shown,
            rw
                (
                  word_read Z frames l c Words.tag t refl (ct, omega arith),
                  reads,
                  payload_lem,
                  word_read Z frames l c Words.sender sender refl ws,
                  word_read Z frames l c Words.clientid client refl wc,
                  word_read Z frames l c Words.algorithm Words.sodaw refl
                      (omega arith, omega arith),
                  word_read Z frames l c Words.object o refl wo,
                  number_read Z frames l c op refl,
                  get_object_tag-Shows Z s.objects view o e shows at,
                  p,
                  relay_lem Z args o tag t v short (Z.keys s.reading) s
                      (λ k m. sym (Z.member-keys s.reading k) ∙ m) f.filed,
                  replaced,
                  ack_lem,
                )
                refl,
          )
          | inr p ↦ (
            s.objects,
            rw p (keeps_entry s.objects view o e shows at),
            rw
                (
                  word_read Z frames l c Words.tag t refl (ct, omega arith),
                  reads,
                  payload_lem,
                  word_read Z frames l c Words.sender sender refl ws,
                  word_read Z frames l c Words.clientid client refl wc,
                  word_read Z frames l c Words.algorithm Words.sodaw refl
                      (omega arith, omega arith),
                  word_read Z frames l c Words.object o refl wo,
                  number_read Z frames l c op refl,
                  get_object_tag-Shows Z s.objects view o e shows at,
                  p,
                  ack_lem,
                  append-nil s.to_clients,
                  append-nil s.to_servers,
                )
                refl,
          )
        ]
