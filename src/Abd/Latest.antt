-- ===== src/Abd/Latest.antt =====
-- The tag and value that a reader takes from the replies of a majority.
use colas.Common.{
  strcmp_self, ◌≡◌, refl, ◌∙◌, some, List, [], ◌∷◌, arith, Bytes, foldl, All, OneOf, Bool-cases,
  inl, inr, ◌⊎◌,
}
use colas.Common.Int.{pos, ◌≤ℤ◌, ltb_ℤ}
use colas.Tag.{Tag, compare_tags, compare_tag_ptrs}
use colas.Tag.Order.{Before, compare_tag_ptrs_sign, compare_tags_trans}
use colas.Abd.Client.{TagValue, later_of}
use colas.Abd.Phases.{tag_of}
use colas.Abd.Ends.{unset, latest}
use colas.Client.Reply.{Answer}

abbrev pub taken : Answer → TagValue
taken a = record { tag = tag_of a; value = some a.value }

abbrev step : TagValue → Answer → TagValue
step best a = later_of best (tag_of a) a.value

later_of_cases :
    (best : TagValue) (a : Answer)
    → (Before best.tag (tag_of a) × (step best a ≡ taken a))
      ⊎ (¬ Before best.tag (tag_of a) × (step best a ≡ best))
later_of_cases best a = elim (Bool-cases (ltb_ℤ (compare_tag_ptrs best.tag (tag_of a)) (pos 0))) [
  | inl e ↦ inl ((compare_tag_ptrs_sign best.tag (tag_of a)).0.0 (ground arith), rw e refl)
  | inr e ↦ inr (λ b. ground (arith, (compare_tag_ptrs_sign best.tag (tag_of a)).0.1 b), rw e refl)
]

-- A tag that is no longer behind a tag stays so.
latest_keeps :
    (best : TagValue) (t : Tag) (xs : List Answer)
    → ¬ Before best.tag t
    → ¬ Before (foldl step best xs).tag t
latest_keeps best t [] h = h
latest_keeps best t (a ∷ xs) h = latest_keeps (step best a) t xs (elim (later_of_cases best a) [
  | inl (b, e) ↦ rw e (λ k. h (compare_tags_trans best.tag (tag_of a) t b k))
  | inr (n, e) ↦ rw e h
])

not-Before_self : (t : Tag) → ¬ Before t t
unfolding compare_tags
not-Before_self t h = ground (arith, strcmp_self t.id)

latest_last :
    (best : TagValue) (xs : List Answer)
    → All (λ a. ¬ Before (foldl step best xs).tag (tag_of a)) xs
latest_last best [] = tt
latest_last best (a ∷ xs) = (
  latest_keeps (step best a) (tag_of a) xs (elim (later_of_cases best a) [
    | inl (b, e) ↦ rw e (not-Before_self (tag_of a))
    | inr (n, e) ↦ rw e n
  ]),
  latest_last (step best a) xs,
)

abbrev From : TagValue → List Answer → Type 0
From best xs = (a : Answer) × OneOf a xs × (best ≡ taken a)

latest-From :
    (best : TagValue) (xs : List Answer)
    → (foldl step best xs ≡ best) ⊎ From (foldl step best xs) xs
latest-From best [] = inl refl
latest-From best (a ∷ xs) = elim (latest-From (step best a) xs) [
  | inl e ↦ elim (later_of_cases best a) [
    | inl (b, f) ↦ inr (a, inl refl, e ∙ f)
    | inr (n, f) ↦ inl (e ∙ f)
  ]
  | inr (x, o, e) ↦ inr (x, inr o, e)
]

unset-Before : (garbage : Bytes) (t : Tag) → pos 0 ≤ℤ t.z → Before (unset garbage).tag t
unfolding compare_tags
unset-Before garbage t h = ground arith

-- The reader has the tag and the value of one of the replies, and no reply has a later tag.
pub latest_lem :
    (garbage : Bytes) (a : Answer) (xs : List Answer)
    → All (λ x. pos 0 ≤ℤ (tag_of x).z) (a ∷ xs)
    → From (latest garbage (a ∷ xs)) (a ∷ xs)
      × All (λ x. ¬ Before (latest garbage (a ∷ xs)).tag (tag_of x)) (a ∷ xs)
latest_lem garbage a xs h = (
  elim (latest-From (unset garbage) (a ∷ xs)) [
    | inl e ↦
        absurd
          ((latest_last (unset garbage) (a ∷ xs)).0 (rw e (unset-Before garbage (tag_of a) h.0)))
    | inr f ↦ f
  ],
  latest_last (unset garbage) (a ∷ xs),
)
