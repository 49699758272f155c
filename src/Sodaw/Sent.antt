-- ===== src/Sodaw/Sent.antt =====
-- What a server of src/sodaw/sodaw_server.c sends to the clients, with a property of its elements.
use colas.Common.{ℕ, ◌≡◌, refl, true, List, [], ◌∷◌, Bytes, streq, All, Bool-cases, inl, inr}
use colas.Client.Reply.{Answer, Kind, answer_frames, kind_algorithm, kind_phase}
use colas.Tag.{Tag}
use colas.Tag.Text.{tag_text}
use colas.Sodaw.Relaying.{element, elements, is_owed}
use colas.Sodaw.Server.{SodawArgs, RegReader}
use colas.Wire.Delivery.{Request}
use colas.Wire.Uint.{uint_frame}
use colas.Words

-- A message to a client whose element, if it is a reply of `READ_VALUE`, has the property.
abbrev pub Sent : (Bytes → Bytes → Type 0) → List Bytes → Type 0
Sent P f =
    (identity : Bytes) × (a : Answer) × (f ≡ identity ∷ answer_frames a)
    × (streq (kind_phase a.kind) Words.read_value ≡ true → P a.tag a.value)

-- What a request stores has it.
abbrev pub Puts : (Bytes → Bytes → Type 0) → Request → Type 0
Puts P (Request.write_put op t v) = P t v
Puts P _ = Unit

module _ (P : Bytes → Bytes → Type 0) (identity server o : Bytes) (op : ℕ) (t v : Bytes) where
  abbrev answer_of : Kind → Answer
  answer_of k = record { server = server; object = o; kind = k; op = op; tag = t; value = v }

  get-Sent :
      (phase : Bytes) (k : Kind)
      → identity ∷ server ∷ o ∷ Words.sodaw ∷ phase ∷ uint_frame op ∷ t ∷ []
        ≡ identity ∷ answer_frames (answer_of k)
      → ¬ (streq (kind_phase k) Words.read_value ≡ true)
      → Sent P (identity ∷ server ∷ o ∷ Words.sodaw ∷ phase ∷ uint_frame op ∷ t ∷ [])
  get-Sent phase k e other = (identity, answer_of k, e, λ h. absurd (other h))

  pub write_get-Sent :
      Sent P (identity ∷ server ∷ o ∷ Words.sodaw ∷ Words.write_get ∷ uint_frame op ∷ t ∷ [])
  unfolding answer_frames kind_algorithm kind_phase streq
  write_get-Sent = get-Sent Words.write_get Kind.write_get refl (λ h. absurd (cc h))

  pub read_get-Sent :
      Sent P (identity ∷ server ∷ o ∷ Words.sodaw ∷ Words.read_get ∷ uint_frame op ∷ t ∷ [])
  unfolding answer_frames kind_algorithm kind_phase streq
  read_get-Sent = get-Sent Words.read_get Kind.read_get refl (λ h. absurd (cc h))

  pub write_put-Sent :
      Sent P (identity ∷ server ∷ o ∷ Words.sodaw ∷ Words.write_put ∷ uint_frame op ∷ t ∷ [])
  unfolding answer_frames kind_algorithm kind_phase streq
  write_put-Sent = get-Sent Words.write_put Kind.write_put refl (λ h. absurd (cc h))

  pub element-Sent :
      P t v
      → Sent P (identity ∷ server ∷ o ∷ Words.sodaw ∷ Words.read_value ∷ t ∷ uint_frame op ∷ v ∷ [])
  unfolding answer_frames kind_algorithm kind_phase streq
  element-Sent p = (identity, answer_of Kind.read_value, refl, λ h. p)

module _ (P : Bytes → Bytes → Type 0) (args : SodawArgs) (o : Bytes) (tag : Tag) (t v : Bytes)
    (p : P (tag_text tag) v) where
  pub elements-Sent : (rs : List RegReader) → All (Sent P) (elements args o tag t v rs)
  unfolding element
  elements-Sent [] = tt
  elements-Sent (r ∷ rs) = elim (Bool-cases (is_owed tag r)) [
    | inl e ↦
        rw e
          (element-Sent P r.reader_id args.server_id o r.opnum (tag_text tag) v p, elements-Sent rs)
    | inr e ↦ rw e (elements-Sent rs)
  ]
