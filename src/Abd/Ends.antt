-- ===== src/Abd/Ends.antt =====
-- The results of the phases of src/abd/abd_writer.c and src/abd/abd_reader.c at the replies that arrive.
use mathlib.Core.List.{append_assoc, append-nil}
use colas.Common.{
  ℕ, Bool-cases, inl, inr, ◌+◌, ◌<◌, ◌≡◌, refl, sym, ◌∙◌, Bool, none, some, List, [], ◌∷◌, ◌++◌,
  if◌then◌else◌, arith, Bytes, length, map, take, keep, foldl, All, leb,
}
use colas.Common.Int.{negsuc}
use colas.Tag.{Tag, get_max_tag}
use colas.Tag.Text.{tag_text}
use colas.Tag.RoundTrip.{tag_to_string_fits}
use colas.Abd.Client.{
  types, Caller, abd_write_value_phase, abd_get_max_tag_phase, abd_get_max_tag_value_phase,
  write_value_round, get_tag_round, get_tag_value_round, TagValue, later_of,
}
use colas.Abd.Phases.{
  matches, tag_of, has_room, write_value-Counts, get_tag-CountsIf, get_tag_value-Counts,
}
use colas.Client.Loop.{done, waiting, remaining, every, receive_loop_lem, receive_loop-room}
use colas.Client.Majority.{majority, majority_overlap}
use colas.Client.Reply.{Answer, answer_frames}
use colas.Client.Print.{IsAnswer}
use colas.Wire.Delivery.{
  Request, write_value, get_tag, get_tag_value, multicast, multicast_lem, algorithm_of, phase_of,
  body, values, arguments,
}
use colas.Wire.Send.{replicate, text, uint, raw, send_multicast_servers}
use colas.Words
use colas.Zhash.{Zhash}

-- What a client sends to every server.
abbrev pub to_all : Caller → Request → List (List Bytes)
to_all c q =
    replicate c.num_servers
      (c.client_id ∷ c.obj_name ∷ algorithm_of q ∷ phase_of q ∷ values (body q))

-- The replies that match, in the order of their arrival, and the first majority of them.
abbrev pub matching : Caller → Bytes → List Answer → List Answer
matching c phase answers = keep (matches c phase) answers

abbrev pub first_majority : Caller → Bytes → List Answer → List Answer
first_majority c phase answers = take (majority c.num_servers) (matching c phase answers)

-- What arrives behind that majority.
abbrev pub behind : Caller → Bytes → List Answer → List Answer
behind c phase answers = remaining (matches c phase) (majority c.num_servers) answers

abbrev pub enough : Caller → Bytes → List Answer → Bool
enough c phase answers = leb (majority c.num_servers) (length (matching c phase answers))

collect :
    (xs : List Answer) (tags : List Tag)
    → foldl (λ ts a. ts ++ tag_of a ∷ []) tags xs ≡ tags ++ map tag_of xs
collect [] tags = sym (append-nil tags)
collect (x ∷ xs) tags =
    collect xs (tags ++ tag_of x ∷ []) ∙ append_assoc tags (tag_of x ∷ []) (map tag_of xs)

foldl_unit : (xs : List Answer) (u : Unit {0}) → foldl (λ v a. v) u xs ≡ u
foldl_unit [] u = refl
foldl_unit (x ∷ xs) u = foldl_unit xs u

-- What the reader begins with.
abbrev pub unset : Bytes → TagValue
unset garbage = record { tag = record { z = negsuc 0; id = garbage }; value = none }

-- What the reader takes from replies.
abbrev pub latest : Bytes → List Answer → TagValue
latest garbage answers = foldl (λ best a. later_of best (tag_of a) a.value) (unset garbage) answers

module _ (c : Caller) where
  write_value_sent :
      (t v : Bytes)
      → send_multicast_servers c.num_servers (types ++ Words.tag ∷ Words.payload ∷ []) (
          text c.client_id
          ∷ text c.obj_name
          ∷ text Words.abd
          ∷ text Words.write_value
          ∷ uint c.op_num
          ∷ text t
          ∷ raw v
          ∷ [])
        ≡ some (to_all c (write_value c.op_num t v))
  unfolding multicast algorithm_of phase_of arguments body
  write_value_sent t v =
      multicast_lem c.num_servers c.client_id c.obj_name (write_value c.op_num t v)

  get_tag_sent :
      send_multicast_servers c.num_servers types (
        text c.client_id
        ∷ text c.obj_name
        ∷ text Words.abd
        ∷ text Words.get_tag
        ∷ uint c.op_num
        ∷ [])
      ≡ some (to_all c (get_tag c.op_num))
  unfolding multicast algorithm_of phase_of arguments body
  get_tag_sent = multicast_lem c.num_servers c.client_id c.obj_name (get_tag c.op_num)

  get_tag_value_sent :
      send_multicast_servers c.num_servers types (
        text c.client_id
        ∷ text c.obj_name
        ∷ text Words.abd
        ∷ text Words.get_tag_value
        ∷ uint c.op_num
        ∷ [])
      ≡ some (to_all c (get_tag_value c.op_num))
  unfolding multicast algorithm_of phase_of arguments body
  get_tag_value_sent = multicast_lem c.num_servers c.client_id c.obj_name (get_tag_value c.op_num)

module _ (Z : Zhash) (c : Caller) where
  -- At replies that can be printed and read, with a tag that fits the buffer,
  -- `ABD_write_value_phase` sends the tag and the value to all servers and ends at the reply that
  -- makes the acknowledgements of its operation a majority, leaving the later replies; with fewer
  -- of them it goes on waiting.
  pub abd_write_value_phase_lem :
      (tag : Tag) (value : Bytes) (answers : List Answer)
      → All IsAnswer answers
      → length tag.id + 12 < 100
      → abd_write_value_phase Z c tag value (map answer_frames answers)
        ≡ some (record {
          sent = to_all c (write_value c.op_num (tag_text tag) value);
          outcome =
              if enough c Words.write_value answers
              then done (majority c.num_servers, tt)
              else waiting (length (matching c Words.write_value answers), tt);
          rest = map answer_frames (behind c Words.write_value answers);
        })
  unfolding abd_write_value_phase
  abd_write_value_phase_lem tag value answers h le =
      rw
        (
          tag_to_string_fits 100 tag le,
          write_value_sent c (tag_text tag) value,
          receive_loop_lem (majority c.num_servers) (matches c Words.write_value) (λ u a. u)
              answer_frames IsAnswer (write_value_round Z c) (write_value-Counts Z c) tt answers h
              (majority_overlap c.num_servers).1,
        )
        (ground arith)

  -- At replies that can be printed and read, `ABD_get_max_tag_phase` asks all servers and ends at
  -- the reply that makes those to its operation a majority, with `get_max_tag` of their tags,
  -- leaving the later replies; with fewer of them it goes on waiting. It faults if the tag of one
  -- of them does not fit its block.
  pub abd_get_max_tag_phase_lem :
      (room : ℕ) (garbage : Bytes) (answers : List Answer)
      → All IsAnswer answers
      → abd_get_max_tag_phase Z room garbage c (map answer_frames answers) ≡ (
          if every (has_room room) (first_majority c Words.get_tag answers)
          then some (record {
            sent = to_all c (get_tag c.op_num);
            outcome =
                if enough c Words.get_tag answers
                then done
                    (get_max_tag garbage (map tag_of (first_majority c Words.get_tag answers)))
                else waiting (get_max_tag garbage (map tag_of (matching c Words.get_tag answers)));
            rest = map answer_frames (behind c Words.get_tag answers);
          })
          else none)
  unfolding abd_get_max_tag_phase
  abd_get_max_tag_phase_lem room garbage answers h =
      rw
        (
          get_tag_sent c,
          receive_loop-room (majority c.num_servers) (matches c Words.get_tag) (has_room room)
              (λ tags a. tags ++ tag_of a ∷ []) answer_frames IsAnswer (get_tag_round Z room c)
              (get_tag-CountsIf Z c room) [] answers h (majority_overlap c.num_servers).1,
        )
        (elim (Bool-cases (every (has_room room) (first_majority c Words.get_tag answers))) [
          | inl r ↦ rw r (
              ground (
                arith,
                collect (first_majority c Words.get_tag answers) [],
                collect (matching c Words.get_tag answers) [],
              ))
          | inr r ↦ rw r refl
        ])

  -- At replies that can be printed and read, `ABD_get_max_tag_value_phase` asks all servers and
  -- ends at the reply that makes those to its operation a majority, with what its comparisons keep
  -- of them in the order of arrival, leaving the later replies; with fewer of them it goes on
  -- waiting.
  pub abd_get_max_tag_value_phase_lem :
      (garbage : Bytes) (answers : List Answer)
      → All IsAnswer answers
      → abd_get_max_tag_value_phase Z garbage c (map answer_frames answers)
        ≡ some (record {
          sent = to_all c (get_tag_value c.op_num);
          outcome =
              if enough c Words.get_tag_value answers
              then done (
                majority c.num_servers,
                latest garbage (first_majority c Words.get_tag_value answers),
              )
              else waiting (
                length (matching c Words.get_tag_value answers),
                latest garbage (matching c Words.get_tag_value answers),
              );
          rest = map answer_frames (behind c Words.get_tag_value answers);
        })
  unfolding abd_get_max_tag_value_phase
  abd_get_max_tag_value_phase_lem garbage answers h =
      rw
        (
          get_tag_value_sent c,
          receive_loop_lem (majority c.num_servers) (matches c Words.get_tag_value)
              (λ best a. later_of best (tag_of a) a.value) answer_frames IsAnswer
              (get_tag_value_round Z c) (get_tag_value-Counts Z c) (unset garbage) answers h
              (majority_overlap c.num_servers).1,
        )
        (ground arith)
