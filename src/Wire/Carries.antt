-- ===== src/Wire/Carries.antt =====
-- A table seen as an association list: what the frames of a message show under each name.
use colas.Common.{
  ◌≡◌, refl, sym, ◌∙◌, Option, some, List, [], ◌∷◌, ◌++◌, ◌>>=◌, if◌then◌else◌, arith, Bytes, streq,
  streq_iff,
}
use mathlib.Core.List.{append-nil, append_assoc}
use colas.Wire.Read.{Frames}
use colas.Wire.Send.{send_frames_at_server}
use colas.Zhash.{Zhash, or_kept}
use colas.Zhash.Assoc.{Assoc, find, find-nil}

-- The frames that a reply takes from an association list.
unfoldable pub sent_of : Assoc Bytes → List Bytes → Option (List Bytes)
sent_of l [] = some []
sent_of l (key ∷ keys) =
    let rest = sent_of l keys in do frame ← find l key; sent ← rest; some (frame ∷ sent)

module _ (Z : Zhash) where
  abbrev pub Carries : Frames Z → Assoc Bytes → Type 0
  Carries frames shown = (name : Bytes) → Z.lookup frames name ≡ find shown name

  pub Carries-new : Carries (Z.new Bytes) []
  Carries-new k = Z.lookup-new Bytes k ∙ sym (find-nil Bytes k)

  -- `find` reads the first entry, so an entry at the end is the one that is not there yet.
  pub find-append :
      (l : Assoc Bytes) (k v j : Bytes)
      → find (l ++ (k, v) ∷ []) j ≡ (if streq k j then some (or_kept (find l k) v) else find l j)
  unfolding find
  find-append [] k v j = ground arith
  find-append ((i, w) ∷ l) k v j =
      ground (arith, find-append l k v j, streq_iff i k, streq_iff i j, streq_iff k j)

  pub Carries-insert :
      (frames : Frames Z) (l : Assoc Bytes) (k v : Bytes)
      → Carries frames l
      → Carries (Z.insert frames k v) (l ++ (k, v) ∷ [])
  Carries-insert frames l k v s j =
      ground (arith, Z.lookup-insert frames k v j, find-append l k v j, s k, s j)

  -- `zhash_insert` of each pair in turn.
  abbrev pub fill : Frames Z → Assoc Bytes → Frames Z
  fill frames [] = frames
  fill frames ((k, v) ∷ l) = fill (Z.insert frames k v) l

  pub Carries-fill :
      (frames : Frames Z) (shown l : Assoc Bytes)
      → Carries frames shown
      → Carries (fill frames l) (shown ++ l)
  Carries-fill frames shown [] s = rw append-nil s
  Carries-fill frames shown ((k, v) ∷ l) s = rw append_assoc at (
      Carries-fill (Z.insert frames k v) (shown ++ (k, v) ∷ []) l
        (Carries-insert frames shown k v s))

  pub Carries-fill_new : (l : Assoc Bytes) → Carries (fill (Z.new Bytes) l) l
  Carries-fill_new l = Carries-fill (Z.new Bytes) [] l Carries-new

  pub send_frames-sent_of :
      (frames : Frames Z) (l : Assoc Bytes) (names : List Bytes)
      → Carries frames l
      → send_frames_at_server Z frames names ≡ sent_of l names
  unfolding send_frames_at_server sent_of
  send_frames-sent_of frames l [] s = refl
  send_frames-sent_of frames l (key ∷ keys) s = rw (s key, send_frames-sent_of frames l keys s)
