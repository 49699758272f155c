-- ===== src/Tag/RoundTrip.antt =====
-- Reading a printed tag gives the tag.
use mathlib.Core.Option.{some-injective}
use colas.Common.{
  ℕ, ◌≡◌, ◌<◌, ◌≤◌, ◌+◌, refl, some, [], ◌∷◌, ◌++◌, arith, Bytes, fits, fits_some, All, length,
  length-append, Option-cases, inl, inr,
}
use colas.Tag.{Tag, init_tag}
use colas.Tag.Decimal.{
  atoi-IsInt, IsInt, InNumber, print_int, atoi, print_int-InNumber, length-print_int,
  atoi-print_int,
}
use colas.Tag.Text.{tag_text, tag_to_string, split_underscore, string_to_tag}

split-append : (a b : Bytes) → All InNumber a → split_underscore (a ++ b'_' ∷ b) ≡ some (a, b)
unfolding split_underscore
split-append [] b h = refl
split-append (c ∷ a) b h = ground (arith, split-append a b h.1)

-- A tag that fits its struct.
pub record IsTag (t : Tag) : Type 0 where
  pub int : IsInt t.z
  pub short : length t.id < 100

-- `string_to_tag` undoes the print of a tag that fits its struct.
pub string_to_tag-tag_text : (t : Tag) → IsTag t → string_to_tag (tag_text t) ≡ some t
unfolding tag_text string_to_tag
string_to_tag-tag_text t h = ground (
  arith,
  split-append (print_int t.z) t.id (print_int-InNumber t.z),
  length-print_int t.z,
  atoi-print_int t.z h.int,
)

-- A printed tag fits a buffer of `cap` bytes if its id leaves room for twelve more and the NUL.
pub tag_to_string_fits :
    (cap : ℕ) (t : Tag) → length t.id + 12 < cap → tag_to_string cap t ≡ some (tag_text t)
unfolding tag_to_string tag_text
tag_to_string_fits cap t h =
    fits_some cap (print_int t.z ++ b'_' ∷ t.id)
      (omega (arith, length-append (print_int t.z) (b'_' ∷ t.id), length-print_int t.z))

pub IsTag-init : IsTag init_tag
IsTag-init = record { int = omega arith; short = omega arith }

pub length-tag_text : (t : Tag) → length (tag_text t) ≤ length t.id + 12
unfolding tag_text
length-tag_text t = omega (arith, length-append (print_int t.z) (b'_' ∷ t.id), length-print_int t.z)

split-length :
    (s : Bytes) (p : Bytes × Bytes) → split_underscore s ≡ some p → length p.1 + 1 ≤ length s
unfolding split_underscore
split-length [] p h = absurd (cc)
split-length (c ∷ s) p h = elim (Option-cases (split_underscore s)) [
  | inl e ↦ ground arith
  | inr q ↦ ground (arith, split-length s q.0 q.1)
]

-- The id of a tag is shorter than the text that it was read from.
pub length-string_to_tag :
    (s : Bytes) (t : Tag) → string_to_tag s ≡ some t → length t.id + 1 ≤ length s
unfolding string_to_tag fits
length-string_to_tag s t h = elim (Option-cases (split_underscore s)) [
  | inl e ↦ absurd (ground arith)
  | inr q ↦ ground (arith, split-length s q.0 q.1)
]

fits_short : (cap : ℕ) (s r : Bytes) → fits cap s ≡ some r → length r < cap
unfolding fits
fits_short cap s r h = ground arith

-- A tag that `string_to_tag` reads has an `int` as its number and an id that fits its field.
pub string_to_tag-IsTag : (s : Bytes) (t : Tag) → string_to_tag s ≡ some t → IsTag t
unfolding string_to_tag
string_to_tag-IsTag s t h = elim (Option-cases (split_underscore s)) [
  | inl e ↦ absurd (ground arith)
  | inr q ↦ elim (Option-cases (fits 16 q.0.0)) [
    | inl e ↦ absurd (ground arith)
    | inr num ↦ elim (Option-cases (fits 100 q.0.1)) [
      | inl e ↦ absurd (ground arith)
      | inr id ↦
          let made : Tag = record { z = atoi num.0; id = id.0 } in
          let same : made ≡ t = some-injective made t (rw (q.1, num.1, id.1) at h) in
          rw (← same) (record { int = atoi-IsInt num.0; short = fits_short 100 q.0.1 id.0 id.1 })
    ]
  ]
]
