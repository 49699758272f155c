-- ===== src/Sodaw/Operations.antt =====
-- `SODAW_read_value` and `SODAW_read`, of src/sodaw/sodaw_reader.c, at the replies that arrive.
use colas.Common.{
  ◌+◌, ◌*◌, ◌<◌, ◌≡◌, refl, ap, sym, ◌∙◌, true, false, Option, some, List, [], ◌∷◌, ◌++◌, map, keep,
  arith, Bytes, length, length-map, All, append-All, Apart, append-Apart, concat, OneOf, All-OneOf,
  inl, inr, streq_iff,
}
use mathlib.Core.Path.{subst}
use mathlib.Core.List.{map-append}
use colas.Common.Int.{pos, ltb_ℤ}
use colas.Tag.{Tag, compare_tags}
use colas.Tag.Text.{tag_text}
use colas.Tag.RoundTrip.{tag_to_string_fits}
use colas.Abd.Client.{Caller}
use colas.Abd.Ends.{to_all}
use colas.Abd.Phases.{matches, tag_of}
use colas.Client.Loop.{done}
use colas.Client.Majority.{majority, majority_overlap}
use colas.Client.Polls.{Poll, timed_out, poll_loop_lem, items, polls_of}
use colas.Client.Reply.{Answer, answer_frames}
use colas.Codec.{EncodeData, Kodo}
use colas.Codec.Read.{Recovers}
use colas.Codec.{decode}
use colas.Codec.RoundTrip.{decode_lem}
use colas.Sodaw.Shares.{
  Written, IsShare, OneEach, keep-append, read_value_sent, Polled, held_of, Busy-All, first_bringer,
  elements_lem, numbers_below, stripes-Sized,
}
use colas.Sodaw.Elements.{brings, elements_of, IsElement, next_received, read_value_round-Takes}
use colas.Sodaw.Gathered.{Gathered, none_received, gathered_lem}
use colas.Sodaw.Info.{get_encoded_info_lem}
use colas.Sodaw.Reader.{Received, read_value_round, sodaw_read_value, get_encoded_info}
use colas.Wire.Delivery.{read_value}
use colas.Words
use colas.Zhash.{Zhash}

OneOf-append : {A : Type 0} (x : A) (xs ys : List A) → OneOf x xs → OneOf x (xs ++ ys)
OneOf-append x [] ys o = absurd o
OneOf-append x (y ∷ xs) ys (inl e) = inl e
OneOf-append x (y ∷ xs) ys (inr o) = inr (OneOf-append x xs ys o)

module _ (Z : Zhash) (kodo : Kodo) (c : Caller) (w : Written) (info : EncodeData)
    (read_tag : Tag) where
  -- The structure behind `SODAW_read_value`, with the elements of the tag and the data of its blocks.
  abbrev pub decoded_as : List Bytes → Bytes → EncodeData
  decoded_as elements t = record info {
    encoded_data = elements;
    encoded_symbol_size = kodo.payload_size info.algorithm info.k info.symbol_size;
    decoded_data = concat (w.blocks_of t);
  }

  module _ (ys zs : List Answer) (s : Received Z) (g : Gathered Z c s ys)
      (shares : All (λ a. matches c Words.read_value a ≡ true → IsShare kodo info w a) (ys ++ zs))
      (each : OneEach kodo info w c (ys ++ zs)) where
    abbrev key : Bytes
    key = s.decodeable_key

    front_shares : All (λ a. matches c Words.read_value a ≡ true → IsShare kodo info w a) ys
    front_shares =
        append-All (λ a. matches c Words.read_value a ≡ true → IsShare kodo info w a) ys zs shares

    front-Apart : Apart (map w.index (keep (brings c key) ys))
    front-Apart =
        append-Apart (map w.index (keep (brings c key) ys)) (map w.index (keep (brings c key) zs)) (
          subst Apart
            (ap (map w.index) (keep-append (brings c key) ys zs)
              ∙ map-append w.index (keep (brings c key) ys) (keep (brings c key) zs))
            (each key))

    some-IsShare :
        (a : Answer) × OneOf a ys × (brings c key a ≡ true) × (a.tag ≡ key) × IsShare kodo info w a
    some-IsShare =
        let (a, o, b) =
          first_bringer Z kodo c w info read_tag key ys
            (omega (arith, g.majority_of, (majority_overlap c.num_servers).1)) in
        (
          a,
          o,
          b,
          (streq_iff a.tag key).0 (ground arith),
          All-OneOf (λ x. matches c Words.read_value x ≡ true → IsShare kodo info w x) a ys
              front_shares o (ground arith),
        )

    decodes :
        Recovers kodo info.algorithm info.k info.symbol_size info.n
        → info.k ≡ majority c.num_servers
        → 0 < info.num_blocks * info.k
        → info.offset_index ≡ 0
        → (encoded : EncodeData) × (get_encoded_info Z s.recv_dataset key info ≡ some encoded)
          × (decode kodo encoded ≡ some (true, decoded_as (elements_of c key ys) key))
    decodes recovers dimension large first =
        let (a, o, b, tagged, share) = some-IsShare in
        let count : length (w.blocks_of key) ≡ info.num_blocks = rw (← tagged) share.all_blocks in
        let els = elements_of c key ys in
        let long : length els ≡ info.k = g.majority_of ∙ sym dimension in
        let is = map w.index (keep (brings c key) ys) in
        let numbered : length is ≡ info.k = omega (
          arith,
          long,
          length-map w.index (keep (brings c key) ys),
          length-map (λ (x : Answer). x.value) (keep (brings c key) ys),
        ) in
        let encoded : EncodeData = record info {
          encoded_data = els;
          encoded_symbol_size = kodo.payload_size info.algorithm info.k info.symbol_size;
        } in
        (
          encoded,
          get_encoded_info_lem Z s.recv_dataset key info els g.listed
              (kodo.payload_size info.algorithm info.k info.symbol_size)
              (stripes-Sized Z kodo c w info read_tag key ys front_shares count) long large,
          decode_lem kodo encoded info.n (w.blocks_of key) is
              (record {
                stripes = elements_lem Z kodo c w info read_tag key ys front_shares;
                from_first = first;
                all_blocks = sym count;
                symbols = refl;
                enough = numbered;
              })
              recovers (rw (← tagged) share.sized)
              (numbers_below Z kodo c w info read_tag key ys front_shares) front-Apart
              (omega (arith, dimension, (majority_overlap c.num_servers).1)),
        )

  -- Enough elements that are stripes of the blocks of their tag decode to those blocks.
  pub sodaw_read_value-decodes :
      (es : List (Option Answer)) (later : List Poll)
      → Polled Z kodo c w info read_tag es
      → (held_of Z kodo c w info read_tag (items es)).finished ≡ true
      → All (λ a. matches c Words.read_value a ≡ true → IsShare kodo info w a) (items es)
      → OneEach kodo info w c (items es)
      → Recovers kodo info.algorithm info.k info.symbol_size info.n
      → info.k ≡ majority c.num_servers
      → 0 < info.num_blocks * info.k
      → info.offset_index ≡ 0
      → length read_tag.id + 12 < 100
      → (a : Answer) × (elements : List Bytes) × OneOf a (items es)
        × (matches c Words.read_value a ≡ true)
        × (ltb_ℤ (compare_tags (tag_of a) read_tag) (pos 0) ≡ false)
        × (sodaw_read_value Z kodo c read_tag info (polls_of answer_frames es ++ timed_out ∷ later)
            ≡ some (record {
              sent = to_all c (read_value c.op_num (tag_text read_tag));
              outcome = done (decoded_as elements a.tag);
              rest = later;
            }))
  unfolding sodaw_read_value
  sodaw_read_value-decodes es later polled full shares each recovers dimension large first short =
      let (ys, zs, same, g) = gathered_lem Z c (items es) full in
      let s = held_of Z kodo c w info read_tag (items es) in
      let shares' =
        subst (All (λ a. matches c Words.read_value a ≡ true → IsShare kodo info w a)) same
          shares in
      let each' = subst (OneEach kodo info w c) same each in
      let (a, o, b, tagged, share) = some-IsShare ys zs s g shares' each' in
      let (encoded, read, decoded) =
        decodes ys zs s g shares' each' recovers dimension large first in
      let there : OneOf a (items es) = subst (OneOf a) (sym same) (OneOf-append a ys zs o) in
      let fine =
        All-OneOf (IsElement c read_tag) a (items es)
          (Busy-All Z kodo c w info read_tag (none_received Z c) es polled) there in
      (
        a,
        elements_of c s.decodeable_key ys,
        there,
        ground arith,
        fine.1 (ground arith),
        rw
            (
              tag_to_string_fits 100 read_tag short,
              read_value_sent c (tag_text read_tag),
              poll_loop_lem answer_frames (λ s. s.finished) (next_received Z c)
                  (read_value_round Z c read_tag) (λ s a. IsElement c read_tag a)
                  (read_value_round-Takes Z c read_tag) (none_received Z c) es later polled full,
              read,
              decoded,
            )
            (rw (← tagged) refl),
      )
