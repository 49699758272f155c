-- ===== src/Client/Print.antt =====
-- Printing a reply, which some phases do with every reply that they count.
use colas.Common.{
  ℕ, ◌<◌, ◌≤◌, ◌≡◌, refl, ◌∙◌, false, none, some, List, ◌∷◌, arith, Bytes, streq, IsCString, length,
}
use colas.Tag.{Tag}
use colas.Tag.Text.{string_to_tag}
use colas.Wire.Uint.{uint_frame}
use colas.Wire.Read.{Frames, get_string_frame_present, get_uint_frame_present}
use colas.Wire.Carries.{Carries}
use colas.Wire.Delivery.{fields}
use colas.Wire.Print.{print_frame, print_out_hash_in_order}
use colas.Client.Reply.{
  Kind, get_tag_value, read_value, kind_algorithm, kind_phase, short_kind, Answer, answer_rest,
  answer_header, shown, frames_of, Carries-frames_of,
}
use colas.Words
use colas.Zhash.{Zhash}
use colas.Zhash.Assoc.{Assoc, find}

-- A text that the printer's buffer of 3000 bytes holds.
abbrev pub IsText : Bytes → Type 0
IsText s = IsCString s × (length s < 3000)

-- A reply that the clients can print and whose tag they can read.
pub record IsAnswer (a : Answer) : Type 0 where
  pub server : IsText a.server
  pub object : IsText a.object
  pub tag : Tag
  pub tag_text : IsCString a.tag
  pub tag_short : length a.tag < 64
  pub reads : string_to_tag a.tag ≡ some tag
  pub large : 100 ≤ length a.value

module _ (Z : Zhash) (frames : Frames Z) (l : Assoc Bytes) (c : Carries Z frames l) where
  print_text :
      (key v : Bytes)
      → streq key Words.opnum ≡ false
      → streq key Words.payload ≡ false
      → find l key ≡ some v
      → IsText v
      → print_frame Z frames key ≡ some tt
  unfolding print_frame
  print_text key v p q f t =
      rw (p, q, get_string_frame_present Z 3000 frames key v (c key ∙ f) t.0 t.1)

  print_opnum :
      (n : ℕ)
      → find l Words.opnum ≡ some (uint_frame n)
      → print_frame Z frames Words.opnum ≡ some tt
  unfolding print_frame streq
  print_opnum n f = rw (get_uint_frame_present Z frames Words.opnum n (c Words.opnum ∙ f))

  print_payload :
      (v : Bytes)
      → find l Words.payload ≡ some v
      → 100 ≤ length v
      → print_frame Z frames Words.payload ≡ some tt
  unfolding print_frame streq
  print_payload v f h = rw (c Words.payload ∙ f) (ground arith)

  -- Headers end as they begin.
  print_header :
      (s o a p : Bytes) (names : List Bytes)
      → find l Words.serverid ≡ some s
      → IsText s
      → find l Words.object ≡ some o
      → IsText o
      → find l Words.algorithm ≡ some a
      → IsText a
      → find l Words.phase ≡ some p
      → IsText p
      → print_out_hash_in_order Z frames
          (Words.serverid ∷ Words.object ∷ Words.algorithm ∷ Words.phase ∷ names)
        ≡ print_out_hash_in_order Z frames names
  unfolding print_out_hash_in_order streq
  print_header s o a p names fs hs fo ho fa ha fp hp = rw (
    print_text Words.serverid s refl refl fs hs,
    print_text Words.object o refl refl fo ho,
    print_text Words.algorithm a refl refl fa ha,
    print_text Words.phase p refl refl fp hp,
  )

  print_rest :
      (k : Kind) (op : ℕ) (t v : Bytes)
      → find l Words.opnum ≡ find (answer_rest k op t v) Words.opnum
      → find l Words.tag ≡ find (answer_rest k op t v) Words.tag
      → find l Words.payload ≡ find (answer_rest k op t v) Words.payload
      → IsText t
      → 100 ≤ length v
      → print_out_hash_in_order Z frames (fields (answer_rest k op t v)) ≡ some tt
  unfolding print_out_hash_in_order answer_rest find streq
  print_rest get_tag_value op t v fo ft fv ht hv =
      rw (print_opnum op fo, print_text Words.tag t refl refl ft ht, print_payload v fv hv)
  print_rest read_value op t v fo ft fv ht hv =
      rw (print_text Words.tag t refl refl ft ht, print_opnum op fo, print_payload v fv hv)
  print_rest _ op t v fo ft fv ht hv =
      rw (print_opnum op fo, print_text Words.tag t refl refl ft ht)

  print_rest_short :
      (op : ℕ) (t v : Bytes)
      → find l Words.opnum ≡ some (uint_frame op)
      → find l Words.tag ≡ some t
      → find l Words.payload ≡ some v
      → IsText t
      → length v < 100
      → print_out_hash_in_order Z frames (fields (answer_rest get_tag_value op t v)) ≡ none
  unfolding print_out_hash_in_order answer_rest streq print_frame
  print_rest_short op t v fo ft fv ht hv =
      rw (print_opnum op fo, print_text Words.tag t refl refl ft ht, c Words.payload ∙ fv)
        (ground arith)

module _ (Z : Zhash) where
  -- A reply that is fit to print is printed.
  pub print-answer :
      (a : Answer)
      → IsAnswer a
      → print_out_hash_in_order Z (frames_of Z a) (fields (shown a)) ≡ some tt
  unfolding shown answer_header
  print-answer a h =
      let (ha, la, hp, lp) = short_kind a.kind in
      print_header Z (frames_of Z a) (shown a) (Carries-frames_of Z a) a.server a.object
        (kind_algorithm a.kind) (kind_phase a.kind) (fields (answer_rest a.kind a.op a.tag a.value))
        (unfold find streq in refl) h.server (unfold find streq in refl) h.object
        (unfold find streq in refl) (ha, omega arith) (unfold find streq in refl) (hp, omega arith)
      ∙ print_rest Z (frames_of Z a) (shown a) (Carries-frames_of Z a) a.kind a.op a.tag a.value
          (unfold find streq in refl) (unfold find streq in refl) (unfold find streq in refl)
          (h.tag_text, omega (arith, h.tag_short)) h.large

  -- A value of less than 100 bytes ends the process that prints it.
  pub print_short :
      (s o t v : Bytes) (op : ℕ)
      → IsText s
      → IsText o
      → IsText t
      → length v < 100
      → print_out_hash_in_order Z
          (frames_of Z
            (record { server = s; object = o; kind = get_tag_value; op = op; tag = t; value = v }))
          (fields (
            shown (record {
              server = s;
              object = o;
              kind = get_tag_value;
              op = op;
              tag = t;
              value = v;
            })))
        ≡ none
  unfolding shown answer_header answer_rest
  print_short s o t v op hs ho ht hv =
      let a : Answer = record {
        server = s;
        object = o;
        kind = get_tag_value;
        op = op;
        tag = t;
        value = v;
      } in
      let (ha, la, hp, lp) = short_kind get_tag_value in
      print_header Z (frames_of Z a) (shown a) (Carries-frames_of Z a) s o
        (kind_algorithm get_tag_value) (kind_phase get_tag_value)
        (fields (answer_rest get_tag_value op t v)) (unfold find streq in refl) hs
        (unfold find streq in refl) ho (unfold find streq in refl) (ha, omega arith)
        (unfold find streq in refl) (hp, omega arith)
      ∙ print_rest_short Z (frames_of Z a) (shown a) (Carries-frames_of Z a) op t v
          (unfold find streq in refl) (unfold find streq in refl) (unfold find streq in refl) ht hv
