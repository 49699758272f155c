-- ===== src/Sodaw/PutPhase.antt =====
-- `SODAW_write_put_phase` of src/sodaw/sodaw_writer.c: an element to each server.
use colas.Common.{
  ℕ, suc, ◌+◌, ◌*◌, ◌<◌, ◌≡◌, refl, ◌∙◌, some, List, [], ◌∷◌, ◌++◌, map, get_elem?, if◌then◌else◌,
  arith, Bytes, length, All, concat, take, streq,
}
use mathlib.Core.Path.{subst}
use colas.Tag.{Tag}
use colas.Tag.Text.{tag_text}
use colas.Tag.RoundTrip.{tag_to_string_fits}
use colas.Abd.Client.{Caller, types}
use colas.Abd.Ends.{matching, enough, behind}
use colas.Abd.Phases.{matches}
use colas.Client.Loop.{done, waiting, receive_loop_lem}
use colas.Client.Majority.{majority, majority_overlap}
use colas.Client.Reply.{Answer, answer_frames}
use colas.Codec.{EncodeData, Kodo, make_stripes}
use colas.Codec.RoundTrip.{IsRaw, encode_lem, first_bytes-whole}
use colas.Codec.Stripes.{stripe, get-make_stripes, length-stripe, length-make_stripes}
use colas.Sodaw.Client.{sized_elements, write_put_round, sodaw_write_put_phase}
use colas.Sodaw.Phases.{write_put-Counts}
use colas.Wire.Delivery.{write_put, body, values}
use colas.Wire.Send.{text, uint, with_element, make_frames, multisend_frame, send_multisend_servers}
use colas.Words
use colas.Zhash.{Zhash}

sized_elements-all :
    (size : ℕ) (elements : List Bytes)
    → All (λ e. length e ≡ size) elements
    → sized_elements size elements ≡ some elements
unfolding sized_elements
sized_elements-all size [] h = refl
sized_elements-all size (e ∷ elements) h =
    rw (first_bytes-whole size e h.0, sized_elements-all size elements h.1) refl

with_element-all :
    (frames elements : List Bytes)
    → with_element (length elements) frames elements ≡ some (map (λ e. frames ++ e ∷ []) elements)
unfolding with_element
with_element-all frames [] = refl
with_element-all frames (e ∷ elements) = rw (with_element-all frames elements) refl

-- What is known of each item of a list holds of all.
All-elements :
    {A : Type 0} (P : A → Type 0) (xs : List A)
    → ((i : ℕ) → i < length xs → (x : A) × (get_elem? xs i ≡ some x) × P x)
    → All P xs
All-elements P [] h = tt
All-elements P (x ∷ xs) h =
    let (y, e, p) = h 0 (omega arith) in
    (subst P (let same : y ≡ x = cc in same) p, All-elements P xs (λ i lt. h (suc i) (omega arith)))

-- What a writer sends to the servers, an element to each.
abbrev pub to_each : Caller → Bytes → List Bytes → List (List Bytes)
to_each c t elements =
    map
      (λ e.
        c.client_id
        ∷ c.obj_name
        ∷ Words.sodaw
        ∷ Words.write_put
        ∷ values (body (write_put c.op_num t e)))
      elements

module _ (kodo : Kodo) (e : EncodeData) (blocks : List Bytes) where
  abbrev pub elements : List Bytes
  elements = make_stripes kodo e.algorithm e.k e.symbol_size e.n blocks 0

  elements_sized :
      All (λ s. length s ≡ length blocks * kodo.payload_size e.algorithm e.k e.symbol_size) elements
  elements_sized =
      All-elements (λ s. length s ≡ length blocks * kodo.payload_size e.algorithm e.k e.symbol_size)
        elements
        (λ i lt. (
          stripe kodo e.algorithm e.k e.symbol_size e.n i blocks 0,
          get-make_stripes kodo e.algorithm e.k e.symbol_size e.n i blocks 0
              (omega (arith, length-make_stripes kodo e.algorithm e.k e.symbol_size e.n blocks 0)),
          length-stripe kodo e.algorithm e.k e.symbol_size e.n i blocks 0,
        ))

put_sent :
    (c : Caller) (t : Bytes) (els : List Bytes)
    → length els ≡ c.num_servers
    → send_multisend_servers c.num_servers els (types ++ Words.tag ∷ []) (
        text c.client_id
        ∷ text c.obj_name
        ∷ text Words.sodaw
        ∷ text Words.write_put
        ∷ uint c.op_num
        ∷ text t
        ∷ [])
      ≡ some (to_each c t els)
unfolding send_multisend_servers multisend_frame streq make_frames body
put_sent c t els h = rw (← h) (with_element-all _ els)

module _ (Z : Zhash) (kodo : Kodo) (c : Caller) where
  -- The blocks begin with the value; each server is sent its stripe of them, under the tag.
  pub sodaw_write_put_phase_lem :
      (tag : Tag) (e : EncodeData) (answers : List Answer)
      → IsRaw e
      → e.n ≡ c.num_servers
      → length tag.id + 12 < 100
      → (blocks : List Bytes) × All (λ b. length b ≡ e.k * e.symbol_size) blocks
        × (take e.raw_data_size (concat blocks) ≡ e.raw_data)
        × (sodaw_write_put_phase Z kodo c tag e (map answer_frames answers)
            ≡ some (record {
              sent = to_each c (tag_text tag) (elements kodo e blocks);
              outcome =
                  if enough c Words.write_put answers
                  then done (majority c.num_servers, tt)
                  else waiting (length (matching c Words.write_put answers), tt);
              rest = map answer_frames (behind c Words.write_put answers);
            }))
  unfolding sodaw_write_put_phase
  sodaw_write_put_phase_lem tag e answers r servers short =
      let (blocks, made, sized, front, low, high) = encode_lem kodo e r in
      (
        blocks,
        sized,
        front,
        rw
            (
              made,
              tag_to_string_fits 100 tag short,
              sized_elements-all (length blocks * kodo.payload_size e.algorithm e.k e.symbol_size)
                  (elements kodo e blocks) (elements_sized kodo e blocks),
              put_sent c (tag_text tag) (elements kodo e blocks)
                  (length-make_stripes kodo e.algorithm e.k e.symbol_size e.n blocks 0 ∙ servers),
              receive_loop_lem (majority c.num_servers) (matches c Words.write_put) (λ u a. u)
                  answer_frames (λ a. Unit {0}) (write_put_round Z c) (write_put-Counts Z c) tt
                  answers (All-unit answers) (majority_overlap c.num_servers).1,
            )
            (ground arith),
      )
    where
      All-unit : (xs : List Answer) → All (λ a. Unit {0}) xs
      All-unit [] = tt
      All-unit (x ∷ xs) = (tt, All-unit xs)
