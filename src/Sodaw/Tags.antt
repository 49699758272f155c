-- ===== src/Sodaw/Tags.antt =====
-- What src/sodaw/sodaw_server.c replies to a request for a tag.
use colas.Common.{ℕ, ◌≡◌, refl, some, [], ◌∷◌, ◌++◌, List, arith, Bytes, streq}
use colas.Tag.RoundTrip.{length-string_to_tag, tag_to_string_fits}
use colas.Tag.Text.{tag_text}
use colas.Sodaw.Reads.{IsWord, word_read}
use colas.Sodaw.Server.{SodawArgs, Server, reply_names, write_get_or_read_get_tag}
use colas.Store.Entry.{Entry, View, Shows, table_of, get_object_tag-Shows}
use colas.Wire.Carries.{Carries, Carries-insert, sent_of, send_frames-sent_of}
use colas.Wire.Delivery.{header}
use colas.Wire.Read.{Frames}
use colas.Wire.Send.{send_frames_at_server}
use colas.Wire.Uint.{uint_frame}
use colas.Words
use colas.Words.{bufsize}
use colas.Zhash.{Zhash}
use colas.Zhash.Assoc.{Assoc, find}

module _ (Z : Zhash) (args : SodawArgs) (sender client o : Bytes) (wo : IsWord o) (view : View)
    (e : Entry) (at : view o ≡ some e) (s : Server Z) (shows : Shows Z s.objects view)
    (frames : Frames Z) where
  -- It is sent behind the replies before it, and nothing else changes.
  pub get_tag_lem :
      (phase : Bytes) (op : ℕ)
      → Carries Z frames
          (header sender client o Words.sodaw phase ++ (Words.opnum, uint_frame op) ∷ [])
      → write_get_or_read_get_tag Z args frames s
        ≡ some (record s {
          to_clients =
              s.to_clients
              ++ (sender
                  ∷ args.server_id
                  ∷ o
                  ∷ Words.sodaw
                  ∷ phase
                  ∷ uint_frame op
                  ∷ tag_text e.tag
                  ∷ [])
                ∷ [];
        })
  unfolding write_get_or_read_get_tag find streq sent_of
  get_tag_lem phase op c =
      let (table, found, single, fine) = table_of Z s.objects view o e shows at in
      let l : Assoc Bytes =
        header sender client o Words.sodaw phase ++ (Words.opnum, uint_frame op) ∷ [] in
      let framed : Frames Z =
        Z.insert (Z.insert frames Words.tag (tag_text e.tag)) Words.serverid args.server_id in
      let reply : List Bytes =
        sender ∷ args.server_id ∷ o ∷ Words.sodaw ∷ phase ∷ uint_frame op ∷ tag_text e.tag ∷ [] in
      let sends : send_frames_at_server Z framed reply_names ≡ some reply =
        send_frames-sent_of Z framed
          ((l ++ (Words.tag, tag_text e.tag) ∷ []) ++ (Words.serverid, args.server_id) ∷ [])
          reply_names
          (Carries-insert Z (Z.insert frames Words.tag (tag_text e.tag))
            (l ++ (Words.tag, tag_text e.tag) ∷ []) Words.serverid args.server_id
            (Carries-insert Z frames l Words.tag (tag_text e.tag) c)) in
      rw
        (
          word_read Z frames l c Words.object o refl wo,
          get_object_tag-Shows Z s.objects view o e shows at,
          tag_to_string_fits bufsize e.tag
              (omega (arith, length-string_to_tag e.key e.tag fine.read, fine.short)),
          sends,
        )
        refl
