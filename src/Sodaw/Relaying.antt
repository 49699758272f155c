-- ===== src/Sodaw/Relaying.antt =====
-- The loop of `algorithm_SODAW_WRITE_PUT` over the readers: what it sends.
use mathlib.Core.List.{append-nil, append_assoc}
use colas.Common.{
  ℕ, ◌+◌, ◌<◌, ◌≡◌, refl, ap, ◌∙◌, Bool, true, Option, none, some, List, [], ◌∷◌, ◌++◌, not, arith,
  keep, map, length, Bytes, streq, streq_refl, is_some, is_some→some, Bool-cases, inl, inr,
}
use colas.Common.Int.{pos, ltb_ℤ}
use colas.Tag.{Tag, compare_tags}
use colas.Tag.RoundTrip.{tag_to_string_fits}
use colas.Tag.Text.{tag_text}
use colas.Sodaw.Filed.{Filed}
use colas.Sodaw.Server.{
  SodawArgs, RegReader, Server, send_reader_coded_element, disperse, relay_to, relay,
}
use colas.Wire.Send.{replicate, send_multicast_servers, multicast_frame, make_frames}
use colas.Wire.Uint.{uint_frame}
use colas.Words
use colas.Zhash.{Zhash}
use colas.Zhash.Keys.{member}

-- A coded element, for a client with the identity.
unfoldable pub element : SodawArgs → Bytes → Bytes → Tag → ℕ → Bytes → List Bytes
element args o identity tag opnum v =
    identity
    ∷ args.server_id
    ∷ o
    ∷ Words.sodaw
    ∷ Words.read_value
    ∷ tag_text tag
    ∷ uint_frame opnum
    ∷ v
    ∷ []

-- What the servers are told of it.
unfoldable pub dispersal : SodawArgs → Bytes → Bytes → Bytes → Bytes → ℕ → List (List Bytes)
dispersal args o tag_send reader tag_read opnum = replicate args.num_servers (
    args.server_id
    ∷ o
    ∷ Words.sodaw
    ∷ Words.read_disperse
    ∷ tag_send
    ∷ reader
    ∷ tag_read
    ∷ uint_frame opnum
    ∷ [])

pub disperse_lem :
    (args : SodawArgs) (o tag_send reader tag_read : Bytes) (opnum : ℕ)
    → disperse args o tag_send reader tag_read opnum
      ≡ some (dispersal args o tag_send reader tag_read opnum)
unfolding disperse dispersal send_multicast_servers multicast_frame make_frames streq
disperse_lem args o tag_send reader tag_read opnum = refl

pub element_lem :
    (args : SodawArgs) (o identity : Bytes) (tag : Tag) (opnum : ℕ) (v : Bytes)
    → length tag.id + 12 < 100
    → send_reader_coded_element identity args.server_id o Words.sodaw Words.read_value tag opnum v
      ≡ some (element args o identity tag opnum v)
unfolding send_reader_coded_element element
element_lem args o identity tag opnum v h = rw (tag_to_string_fits 100 tag h) refl

-- The reader waits for a tag that is not later.
abbrev pub is_owed : Tag → RegReader → Bool
is_owed tag r = not (ltb_ℤ (compare_tags tag r.t_r) (pos 0))

abbrev concat : List (List (List Bytes)) → List (List Bytes)
concat [] = []
concat (x ∷ xs) = x ++ concat xs

module _ (args : SodawArgs) (o : Bytes) (tag : Tag) (t v : Bytes) where
  -- What the registered readers that wait for such a tag are sent, and what the servers are told.
  abbrev pub elements : List RegReader → List (List Bytes)
  elements rs = map (λ r. element args o r.reader_id tag r.opnum v) (keep (is_owed tag) rs)

  abbrev pub dispersals : List RegReader → List (List Bytes)
  dispersals rs =
      concat
        (map (λ r. dispersal args o t r.reader_id (tag_text r.t_r) r.opnum) (keep (is_owed tag) rs))

module _ (Z : Zhash) where
  abbrev pub with_reader : Option RegReader → List RegReader → List RegReader
  with_reader none rs = rs
  with_reader (some r) rs = r ∷ rs

  -- The readers under the keys.
  unfoldable pub readers_at : Z.Table RegReader → List Bytes → List RegReader
  readers_at reading [] = []
  readers_at reading (key ∷ keys) = with_reader (Z.lookup reading key) (readers_at reading keys)

  -- The server when those were sent.
  abbrev pub sending : Server Z → List (List Bytes) → List (List Bytes) → Server Z
  sending s elements dispersals = record s {
    to_clients = s.to_clients ++ elements;
    to_servers = s.to_servers ++ dispersals;
  }

  sending_twice :
      (s : Server Z) (a b c d : List (List Bytes))
      → sending (sending s a b) c d ≡ sending s (a ++ c) (b ++ d)
  sending_twice s a b c d = rw (append_assoc s.to_clients a c, append_assoc s.to_servers b d) refl

  module _ (args : SodawArgs) (o : Bytes) (tag : Tag) (t v : Bytes)
      (short : length tag.id + 12 < 100) where
    -- The loop sends the element to exactly the readers that wait for such a tag, and tells all servers
    -- of each.
    pub relay_lem :
        (keys : List Bytes) (s : Server Z)
        → ((k : Bytes) → member k keys ≡ true → is_some (Z.lookup s.reading k) ≡ true)
        → ((k : Bytes) → Filed k (Z.lookup s.reading k))
        → relay Z args o Words.sodaw tag t v keys s
          ≡ some (
              sending s
                (elements args o tag t v (readers_at s.reading keys))
                (dispersals args o tag t v (readers_at s.reading keys)))
    unfolding relay relay_to readers_at member
    relay_lem [] s p f = rw (append-nil s.to_clients, append-nil s.to_servers) refl
    relay_lem (key ∷ keys) s p f =
        let (r, found) =
          is_some→some (Z.lookup s.reading key) (p key (ground (arith, streq_refl key))) in
        let fine : Filed key (some r) = rw found at (f key) in
        let rest = relay_lem keys in
        elim (Bool-cases (ltb_ℤ (compare_tags tag r.t_r) (pos 0))) [
          | inl e ↦
              rw (found, tag_to_string_fits 100 r.t_r fine.1, e)
                (rest s (λ k m. p k (ground arith)) f)
          | inr e ↦
              rw
                (
                  found,
                  tag_to_string_fits 100 r.t_r fine.1,
                  e,
                  element_lem args o r.reader_id tag r.opnum v short,
                  disperse_lem args o t r.reader_id (tag_text r.t_r) r.opnum,
                )
                (rest
                    (sending s (element args o r.reader_id tag r.opnum v ∷ [])
                      (dispersal args o t r.reader_id (tag_text r.t_r) r.opnum))
                    (λ k m. p k (ground arith)) f
                  ∙ ap some (
                      sending_twice s (element args o r.reader_id tag r.opnum v ∷ [])
                        (dispersal args o t r.reader_id (tag_text r.t_r) r.opnum)
                        (elements args o tag t v (readers_at s.reading keys))
                        (dispersals args o tag t v (readers_at s.reading keys))))
        ]
