-- ===== src/Abd/Spec.antt =====
-- What an ABD server promises: a map from objects to a tag and a value, in which a write takes
-- effect if its tag passes the test of the server, and reads change nothing.
use colas.Common.{◌<◌, ◌≡◌, some, List, [], ◌∷◌, if◌then◌else◌, Bytes, length, IsCString}
use colas.Common.Int.{negsuc, eqb_ℤ}
use colas.Tag.{Tag, compare_tags}
use colas.Tag.Text.{tag_text, string_to_tag}
use colas.Store.Entry.{Entry}
pub use colas.Store.Made.{or_initial, entry_at}
use colas.Abd.Server.{ServerArgs}
use colas.Wire.Uint.{uint_frame}
use colas.Wire.Delivery.{Request, write_value, get_tag, get_tag_value, phase_of}
use colas.Words

-- The requests of ABD that fit the server's buffers: a tag is a C string that reads as a tag and
-- leaves room in the 64 bytes of `get_object_tag`.
abbrev pub IsAbd : Request → Type 0
IsAbd (write_value op t v) =
    (tag : Tag) × (string_to_tag t ≡ some tag) × (length t < 64) × IsCString t
IsAbd (get_tag op) = Unit
IsAbd (get_tag_value op) = Unit
IsAbd _ = ⊥

-- The one test of `WRITE_VALUE`.
abbrev pub written : Entry → Bytes → Tag → Bytes → Entry
written e t tag v =
    if eqb_ℤ (compare_tags e.tag tag) (negsuc 0)
    then record { key = t; tag = tag; value = v }
    else e

abbrev pub next_entry : Entry → (q : Request) → IsAbd q → Entry
next_entry e (write_value op t v) h = written e t h.0 v
next_entry e (get_tag op) h = e
next_entry e (get_tag_value op) h = e
next_entry e (Request.write_get _) h = absurd h
next_entry e (Request.read_get _) h = absurd h
next_entry e (Request.write_put _ _ _) h = absurd h
next_entry e (Request.read_value _ _) h = absurd h
next_entry e (Request.read_complete _ _) h = absurd h
next_entry e (Request.read_disperse _ _ _ _) h = absurd h

-- The frames behind the phase of an answer, from the entry that the request met.
abbrev pub answer_body : Entry → Request → List Bytes
answer_body e (write_value op t v) = uint_frame op ∷ t ∷ []
answer_body e (get_tag op) = uint_frame op ∷ tag_text e.tag ∷ []
answer_body e (get_tag_value op) = uint_frame op ∷ tag_text e.tag ∷ e.value ∷ []
answer_body e _ = []

abbrev pub answer : ServerArgs → Bytes → Bytes → Entry → Request → List Bytes
answer args sender o e q = sender ∷ args.server_id ∷ o ∷ Words.abd ∷ phase_of q ∷ answer_body e q
