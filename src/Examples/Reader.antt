-- ===== src/Examples/Reader.antt =====
-- A read of SODAW from three servers, and one from two, of which each has too many elements.
use colas.Common.{
  ℕ, ◌-◌, ◌<◌, ◌≡◌, refl, arith, true, false, Option, none, some, List, [], ◌∷◌, ◌++◌, All, OneOf,
  Bytes, streq, Bool-cases, inl, inr, strcmp,
}
use colas.Common.Int.{pos, ltb_ℤ, ◌≤ℤ◌}
use colas.Tag.{compare_tags, get_max_tag, compare_tag_ptrs}
use colas.Tag.Decimal.{atoi, scan}
use colas.Tag.Text.{tag_text, string_to_tag}
use colas.Abd.Client.{Caller}
use colas.Abd.Ends.{to_all, matching, enough}
use colas.Abd.Tags.{InRange}
use colas.Abd.Phases.{matches, tag_of}
use colas.Client.Loop.{done}
use colas.Client.Majority.{majority}
use colas.Client.Polls.{timed_out, items, polls_of}
use colas.Client.Reply.{Answer, Kind, answer_frames, kind_phase}
use colas.Codec.{reed_solomon}
use colas.Sodaw.Elements.{IsElement}
use colas.Sodaw.Operations.{decoded_as}
use colas.Sodaw.Phases.{Patient}
use colas.Sodaw.Read.{ShortId, asked_tag, sodaw_read-returns}
use colas.Sodaw.Reader.{append_element, sodaw_read, sodaw_read_value}
use colas.Sodaw.Short.{created, sodaw_read_value-overruns}
use colas.Sodaw.Shares.{Written, IsShare, OneEach, Polled, held_of}
use colas.Wire.Delivery.{read_get, read_value, read_complete}
use colas.Words
use colas.Zhash.Assoc.{assoc, find, put}
use colas.Examples.Codec.{repeated, repeated_recovers, info, nothing}
use colas.Examples.Data.{caller, written_tag, reply, text, init_text, reads_text, reads_init}
use colas.Examples.Storage.{blocks, share}
use colas.Examples.Writer.{text-IsTagged, init-IsTagged}

-- The digit of a server's id.
abbrev digit : Bytes → ℕ
digit (s ∷ d ∷ id) = d - b'0'
digit _ = 0

abbrev pub written : Written
written = record { blocks_of = λ t. blocks; index = λ a. digit a.server }

abbrev pub asked : List (Option Answer)
asked = some (reply 0 Kind.read_get text) ∷ none ∷ some (reply 1 Kind.read_get init_text) ∷ []

abbrev pub shares : List (Option Answer)
shares = none ∷ some (share 2) ∷ none ∷ some (share 0) ∷ []

pub asked-Patient : Patient caller Words.read_get 0 asked
unfolding kind_phase streq majority
asked-Patient = (
  text-IsTagged (reply 0 Kind.read_get text) refl,
  (omega arith, (init-IsTagged (reply 1 Kind.read_get init_text) refl, tt)),
)

pub asked-enough : enough caller Words.read_get (items asked) ≡ true
unfolding kind_phase streq majority items
asked-enough = refl

pub asked-InRange : All InRange (matching caller Words.read_get (items asked))
unfolding kind_phase streq items
asked-InRange = (rw reads_text (omega arith), (rw reads_init (omega arith), tt))

pub asked-ShortId : All ShortId (matching caller Words.read_get (items asked))
unfolding kind_phase streq items
asked-ShortId = (rw reads_text (omega arith), (rw reads_init (omega arith), tt))

asked_lem : asked_tag [] caller asked ≡ written_tag
unfolding kind_phase streq items get_max_tag compare_tag_ptrs string_to_tag atoi scan
asked_lem = refl

share-IsElement : (i : ℕ) → IsElement caller (asked_tag [] caller asked) (share i)
unfolding compare_tags strcmp
share-IsElement i = (text-IsTagged (share i) refl, λ e. rw (asked_lem, reads_text) refl)

pub shares-Polled : Polled assoc repeated caller written info (asked_tag [] caller asked) shares
unfolding append_element kind_phase streq find put majority
shares-Polled = (refl, (share-IsElement 2, (refl, (share-IsElement 0, tt))))

pub shares_full :
    (held_of assoc repeated caller written info (asked_tag [] caller asked) (items shares)).finished
    ≡ true
unfolding append_element kind_phase streq find put majority items
shares_full = refl

pub dimension : 2 ≡ majority 3
unfolding majority
dimension = refl

share-IsShare : (i : ℕ) → i < 3 → IsShare repeated info written (share i)
share-IsShare i h = record {
  server_number = ground arith;
  element = refl;
  all_blocks = refl;
  sized = (refl, (refl, tt));
}

pub shares_apart : OneEach repeated info written caller (items shares)
unfolding kind_phase streq items
shares_apart t = elim (Bool-cases (streq text t)) [
  | inl e ↦ rw e ((λ e'. absurd (omega arith), tt), (tt, tt))
  | inr e ↦ rw e tt
]

sodaw_read-returns_example :
    (a : Answer) × (elements : List Bytes) × All
      (λ x. (tag_of x).z ≤ℤ (asked_tag [] caller asked).z)
      (matching caller Words.read_get (items asked))
    × OneOf a (items shares)
    × (matches caller Words.read_value a ≡ true)
    × (ltb_ℤ (compare_tags (tag_of a) (asked_tag [] caller asked)) (pos 0) ≡ false)
    × (sodaw_read assoc repeated [] caller info (
          polls_of answer_frames asked
          ++ timed_out ∷ (polls_of answer_frames shares ++ timed_out ∷ []))
        ≡ some (record {
          sent =
              to_all caller (read_get 7)
              ++ to_all caller (read_value 7 (tag_text (asked_tag [] caller asked)))
              ++ to_all caller (read_complete 7 (tag_text (asked_tag [] caller asked)));
          outcome = done (
              decoded_as assoc repeated caller written info
                (asked_tag [] caller asked)
                elements
                a.tag);
          rest = [];
        }))
unfolding items
sodaw_read-returns_example =
    sodaw_read-returns assoc repeated caller written info [] asked shares [] asked-Patient
      asked-enough asked-InRange asked-ShortId shares-Polled shares_full
      (λ e. share-IsShare 2 (omega arith), (λ e. share-IsShare 0 (omega arith), tt)) shares_apart
      (repeated_recovers reed_solomon 2 4 3) dimension (omega arith) refl

-- Two servers: a majority is two, and there is an array for one element.
abbrev of_two : Caller
of_two = record caller { num_servers = 2 }

two_shares_full :
    (held_of assoc repeated of_two written
      (created assoc repeated of_two written nothing 10 reed_solomon written_tag)
      written_tag
      (items shares)).finished
    ≡ true
unfolding append_element kind_phase streq find put majority items
two_shares_full = refl

two-IsElement : (i : ℕ) → IsElement of_two written_tag (share i)
unfolding compare_tags strcmp
two-IsElement i = (text-IsTagged (share i) refl, λ e. rw reads_text refl)

two_shares-Polled :
    Polled assoc repeated of_two written
      (created assoc repeated of_two written nothing 10 reed_solomon written_tag)
      written_tag
      shares
unfolding append_element kind_phase streq find put majority
two_shares-Polled = (refl, (two-IsElement 2, (refl, (two-IsElement 0, tt))))

sodaw_read_value-overruns_example :
    sodaw_read_value assoc repeated of_two written_tag
      (created assoc repeated of_two written nothing 10 reed_solomon written_tag)
      (polls_of answer_frames shares ++ timed_out ∷ [])
    ≡ none
sodaw_read_value-overruns_example =
    sodaw_read_value-overruns assoc repeated of_two written nothing 10 reed_solomon written_tag
      shares [] (omega arith) two_shares-Polled two_shares_full (omega arith)
