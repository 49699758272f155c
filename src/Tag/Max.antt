-- ===== src/Tag/Max.antt =====
-- `get_max_tag` finds the greatest `z`, which is what the writers use.
use colas.Common.{OneOf, ◌≡◌, ◌⊎◌, inl, inr, refl, ap, arith, List, [], ◌∷◌, All, Bytes}
use colas.Common.Int.{pos, negsuc, pos_part, neg_part, ◌≤ℤ◌}
use colas.Tag.{Tag, compare_tag_ptrs, max_step, max_loop, get_max_tag}

max_step_z : (m t : Tag) → (m.z ≤ℤ (max_step m t).z) × (t.z ≤ℤ (max_step m t).z)
unfolding max_step compare_tag_ptrs
max_step_z m t = ground arith

max_step_cases : (m t : Tag) → (max_step m t ≡ m) ⊎ (max_step m t ≡ t)
unfolding max_step
max_step_cases m t = ground arith

max_loop-le :
    (m : Tag) (ts : List Tag) → (m.z ≤ℤ (max_loop m ts).z) × All (λ t. t.z ≤ℤ (max_loop m ts).z) ts
unfolding max_loop
max_loop-le m [] = (omega arith, tt)
max_loop-le m (t ∷ ts) =
    let (le, all_le) = max_loop-le (max_step m t) ts in
    (omega (arith, max_step_z m t), (omega (arith, max_step_z m t), all_le))

max_loop-cases : (m : Tag) (ts : List Tag) → (max_loop m ts ≡ m) ⊎ OneOf (max_loop m ts) ts
unfolding max_loop
max_loop-cases m [] = inl refl
max_loop-cases m (t ∷ ts) = grind (arith, max_loop-cases (max_step m t) ts, max_step_cases m t)

-- From a list that is not empty and has no negative number, `get_max_tag` returns a tag of the
-- list, and no tag of the list has a greater number.
pub get_max_tag_lem :
    (garbage : Bytes) (t : Tag) (ts : List Tag)
    → All (λ x. pos 0 ≤ℤ x.z) (t ∷ ts)
    → OneOf (get_max_tag garbage (t ∷ ts)) (t ∷ ts)
      × All (λ x. x.z ≤ℤ (get_max_tag garbage (t ∷ ts)).z) (t ∷ ts)
unfolding get_max_tag
get_max_tag_lem g t ts h = elim (max_loop-cases (record { z = negsuc 0; id = g }) (t ∷ ts)) [
  | inl e ↦ absurd (
      omega (
        arith,
        ap (λ (x : Tag). pos_part x.z) e,
        ap (λ (x : Tag). neg_part x.z) e,
        (max_loop-le (record { z = negsuc 0; id = g }) (t ∷ ts)).1.0,
      ))
  | inr o ↦ (o, (max_loop-le (record { z = negsuc 0; id = g }) (t ∷ ts)).1)
]

-- No tag of the list has a greater `z`, whatever the signs.
pub get_max_tag-le :
    (garbage : Bytes) (t : Tag) (ts : List Tag)
    → All (λ x. x.z ≤ℤ (get_max_tag garbage (t ∷ ts)).z) (t ∷ ts)
unfolding get_max_tag
get_max_tag-le g t ts = (max_loop-le (record { z = negsuc 0; id = g }) (t ∷ ts)).1
