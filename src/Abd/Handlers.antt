-- ===== src/Abd/Handlers.antt =====
-- Each handler of ABD at a request that the server took apart.
use colas.Common.{
  ℕ, ◌<◌, ◌≡◌, refl, Option, some, List, [], ◌∷◌, ◌++◌, if◌then◌else◌, arith, Bytes, streq,
  streq_iff, IsCString, length, Bool-cases, inl, inr,
}
use colas.Common.Int.{negsuc, eqb_ℤ}
use colas.Tag.{Tag, compare_tags}
use colas.Tag.Text.{tag_text, tag_to_string, string_to_tag}
use colas.Tag.RoundTrip.{tag_to_string_fits, length-string_to_tag}
use colas.Store.{Objects}
use colas.Store.Entry.{Entry, View, put_entry, Shows, table_of, get_object_tag-Shows, Shows-update}
use colas.Abd.Server.{
  ServerArgs, Handled, reply_names, local_tag_of, send_reply, replace_value, stored_value,
  algorithm_abd_write_value, algorithm_abd_get_tag, algorithm_abd_get_tag_value,
}
use colas.Abd.Spec.{written}
use colas.Wire.Read.{Frames, get_string_frame_present, get_uint_frame_present}
use colas.Wire.Uint.{uint_frame}
use colas.Wire.Delivery.{header}
use colas.Wire.Carries.{Carries, Carries-insert, sent_of, send_frames-sent_of}
use colas.Words
use colas.Words.{bufsize}
use colas.Zhash.{Zhash}
use colas.Zhash.Assoc.{Assoc, find}
use colas.Zhash.Single.{keys-single, insert-delete-IsSingle}

module _ (Z : Zhash) where
  module _ (objects : Objects Z) (view : View) (o : Bytes) (e : Entry) (s : Shows Z objects view)
      (at : view o ≡ some e) where
    local_tag_lem : local_tag_of Z objects o ≡ some e.tag
    unfolding local_tag_of
    local_tag_lem = rw (get_object_tag-Shows Z objects view o e s at)

    stored_value_lem : stored_value Z objects o ≡ some e.value
    unfolding stored_value
    stored_value_lem =
        let (table, found, single, fine) = table_of Z objects view o e s at in
        rw (found, keys-single Z table e.key e.value single) (rw single.held)

    -- The text of the stored tag fits a buffer of 100 bytes.
    tag_to_string_stored : tag_to_string bufsize e.tag ≡ some (tag_text e.tag)
    tag_to_string_stored =
        let (table, found, single, fine) = table_of Z objects view o e s at in
        tag_to_string_fits bufsize e.tag
          (omega (arith, length-string_to_tag e.key e.tag fine.read, fine.short))

    replace_value_lem :
        (frames : Frames Z) (t v : Bytes) (tag : Tag)
        → Z.lookup frames Words.payload ≡ some v
        → string_to_tag t ≡ some tag
        → length t < 64
        → (objects' : Objects Z) × (replace_value Z objects o t frames ≡ some objects')
          × Shows Z objects' (put_entry view o (record { key = t; tag = tag; value = v }))
    unfolding replace_value
    replace_value_lem frames t v tag p r lt =
        let (table, found, single, fine) = table_of Z objects view o e s at in
        (
          Z.update objects o (Z.insert (Z.delete table e.key) t v),
          rw (found, keys-single Z table e.key e.value single) (rw (single.held, p)),
          Shows-update Z objects view o (Z.insert (Z.delete table e.key) t v)
              (record { key = t; tag = tag; value = v }) s
              (insert-delete-IsSingle Z table e.key e.value t v single)
              (record { read = r; short = lt }),
        )

    module _ (args : ServerArgs) (frames : Frames Z) (l : Assoc Bytes)
        (c : Carries Z frames l) where
      -- The reply reads the frames of the request, the frame that the handler adds, and the id.
      send_reply_lem :
          (key value : Bytes) (names reply : List Bytes) (objects' : Objects Z)
          (before : List (List Bytes))
          → sent_of ((l ++ (key, value) ∷ []) ++ (Words.serverid, args.server_id) ∷ []) names
            ≡ some reply
          → (f : Frames Z) × (send_reply Z args names objects' (Z.insert frames key value) before
              ≡ some (record { objects = objects'; frames = f; sent = before ++ reply ∷ [] }))
      unfolding send_reply
      send_reply_lem key value names reply objects' before p = (
        Z.insert (Z.insert frames key value) Words.serverid args.server_id,
        rw (
          send_frames-sent_of Z (Z.insert (Z.insert frames key value) Words.serverid args.server_id)
              _ names
              (Carries-insert Z (Z.insert frames key value) (l ++ (key, value) ∷ []) Words.serverid
                args.server_id (Carries-insert Z frames l key value c)),
          p,
        ),
      )

    -- Putting the entry that is there changes nothing.
    Shows-same : Shows Z objects (put_entry view o e)
    Shows-same other = elim (Bool-cases (streq o other)) [
      | inl q ↦
          rw q (let p : view other ≡ some e = cc ((streq_iff o other).0 q, at) in rw p at (s other))
      | inr q ↦ rw q (s other)
    ]

    -- A handler's result: the view, and one more message.
    pub record Done (h : Option (Handled Z)) (e' : Entry) (before : List (List Bytes))
        (reply : List Bytes) : Type 0 where
      pub handled : Handled Z
      pub returns : h ≡ some handled
      pub shows : Shows Z handled.objects (put_entry view o e')
      pub sent : handled.sent ≡ before ++ reply ∷ []

    module _ (args : ServerArgs) (sender client : Bytes) (op : ℕ) (frames : Frames Z)
        (co : IsCString o) (lo : length o < bufsize) where
      pub get_tag_Done :
          (phase : Bytes)
          → Carries Z frames
              (header sender client o Words.abd phase ++ (Words.opnum, uint_frame op) ∷ [])
          → Done
              (algorithm_abd_get_tag Z args
                (record { objects = objects; frames = frames; sent = [] }))
              e
              []
              (sender
                ∷ args.server_id
                ∷ o
                ∷ Words.abd
                ∷ phase
                ∷ uint_frame op
                ∷ tag_text e.tag
                ∷ [])
      unfolding algorithm_abd_get_tag find streq sent_of
      get_tag_Done phase c =
          let (f, sends) =
            send_reply_lem args frames
              (header sender client o Words.abd phase ++ (Words.opnum, uint_frame op) ∷ []) c
              Words.tag (tag_text e.tag) reply_names _ objects [] refl in
          record {
            handled = record { objects = objects; frames = f; sent = _ };
            returns =
                rw
                  (
                    get_string_frame_present Z bufsize frames Words.object o (c Words.object) co lo,
                    local_tag_lem,
                    tag_to_string_stored,
                    get_uint_frame_present Z frames Words.opnum op (c Words.opnum),
                  )
                  sends;
            shows = Shows-same;
            sent = refl;
          }

      pub get_tag_value_Done :
          (phase : Bytes)
          → Carries Z frames
              (header sender client o Words.abd phase ++ (Words.opnum, uint_frame op) ∷ [])
          → Done
              (algorithm_abd_get_tag_value Z args
                (record { objects = objects; frames = frames; sent = [] }))
              e
              []
              (sender
                ∷ args.server_id
                ∷ o
                ∷ Words.abd
                ∷ phase
                ∷ uint_frame op
                ∷ tag_text e.tag
                ∷ e.value
                ∷ [])
      unfolding algorithm_abd_get_tag_value find streq sent_of
      get_tag_value_Done phase c =
          let l : Assoc Bytes =
            header sender client o Words.abd phase ++ (Words.opnum, uint_frame op) ∷ [] in
          let (f, sends) =
            send_reply_lem args (Z.insert frames Words.tag (tag_text e.tag))
              (l ++ (Words.tag, tag_text e.tag) ∷ [])
              (Carries-insert Z frames l Words.tag (tag_text e.tag) c) Words.payload e.value
              (reply_names ++ Words.payload ∷ []) _ objects [] refl in
          record {
            handled = record { objects = objects; frames = Z.delete f Words.payload; sent = _ };
            returns =
                rw
                  (
                    get_string_frame_present Z bufsize frames Words.object o (c Words.object) co lo,
                    local_tag_lem,
                    tag_to_string_stored,
                    stored_value_lem,
                  )
                  (rw sends);
            shows = Shows-same;
            sent = refl;
          }

      write_value_objects :
          (t v : Bytes) (tag : Tag)
          → Z.lookup frames Words.payload ≡ some v
          → string_to_tag t ≡ some tag
          → length t < 64
          → (objects' : Objects Z) × ((if eqb_ℤ (compare_tags e.tag tag) (negsuc 0)
                then replace_value Z objects o t frames
                else some objects)
              ≡ some objects')
            × Shows Z objects' (put_entry view o (written e t tag v))
      write_value_objects t v tag p r lt =
          elim (Bool-cases (eqb_ℤ (compare_tags e.tag tag) (negsuc 0))) [
            | inl q ↦ rw q (replace_value_lem frames t v tag p r lt)
            | inr q ↦ rw q (objects, refl, Shows-same)
          ]

      pub write_value_Done :
          (phase t v : Bytes) (tag : Tag)
          → Carries Z frames (
              header sender client o Words.abd phase
              ++ (Words.opnum, uint_frame op) ∷ (Words.tag, t) ∷ (Words.payload, v) ∷ [])
          → string_to_tag t ≡ some tag
          → length t < 64
          → IsCString t
          → IsCString phase
          → length phase < bufsize
          → Done
              (algorithm_abd_write_value Z args
                (record { objects = objects; frames = frames; sent = [] }))
              (written e t tag v)
              []
              (sender ∷ args.server_id ∷ o ∷ Words.abd ∷ phase ∷ uint_frame op ∷ t ∷ [])
      unfolding algorithm_abd_write_value find streq sent_of
      write_value_Done phase t v tag c r lt ct cp lp =
          let l : Assoc Bytes =
            header sender client o Words.abd phase
            ++ (Words.opnum, uint_frame op) ∷ (Words.tag, t) ∷ (Words.payload, v) ∷ [] in
          let (objects', step, shows) = write_value_objects t v tag (c Words.payload) r lt in
          let (f, sends) =
            send_reply_lem args frames l c Words.acknowledge Words.success reply_names _ objects' []
              refl in
          record {
            handled = record { objects = objects'; frames = f; sent = _ };
            returns =
                rw
                  (
                    get_string_frame_present Z bufsize frames Words.tag t (c Words.tag) ct
                        (omega arith),
                    r,
                    get_string_frame_present Z bufsize frames Words.object o (c Words.object) co lo,
                    local_tag_lem,
                    step,
                    get_string_frame_present Z bufsize frames Words.phase phase (c Words.phase) cp
                        lp,
                  )
                  sends;
            shows = shows;
            sent = refl;
          }
