-- ===== src/Abd/Tags.antt =====
-- The tags that src/abd/abd_writer.c and src/abd/abd_reader.c choose.
use colas.Common.{
  ℕ, zero, suc, ◌+◌, ◌-◌, ◌^◌, ◌≤◌, ◌<◌, ◌≡◌, refl, true, some, List, [], ◌∷◌, arith, Bytes, length,
  map, take, All, All-map, map-All, All-imp, All-take, All-OneOf, leb→le, fits_some,
}
use colas.Common.Int.{ℤ, pos, negsuc, ◌≤ℤ◌, ◌<ℤ◌}
use colas.Tag.{Tag, get_max_tag}
use colas.Tag.Max.{get_max_tag_lem}
use colas.Abd.Client.{Caller, increment, new_tag}
use colas.Abd.Phases.{matches, tag_of}
use colas.Abd.Ends.{matching, first_majority, enough}
use colas.Client.Majority.{majority, majority_overlap}
use colas.Client.Reply.{Answer}
use colas.Words

-- A tag that no sum has led past INT_MAX.
abbrev pub InRange : Answer → Type 0
InRange a = (pos 0 ≤ℤ (tag_of a).z) × ((tag_of a).z <ℤ pos (2 ^ 31 - 1))

first_of :
    {A : Type 0} (n : ℕ) (xs : List A)
    → 0 < n
    → n ≤ length xs
    → (x : A) × (ys : List A) × (take n xs ≡ x ∷ ys)
first_of zero xs h k = absurd (omega arith)
first_of (suc n) [] h k = absurd (omega arith)
first_of (suc n) (x ∷ xs) h k = (x, take n xs, refl)

increment_lem :
    (z : ℤ)
    → pos 0 ≤ℤ z
    → z <ℤ pos (2 ^ 31 - 1)
    → (next : ℤ) × (increment z ≡ some next) × (z <ℤ next)
unfolding increment
increment_lem (pos n) h k = (pos (n + 1), ground arith, omega arith)
increment_lem (negsuc n) h k = absurd (omega arith)

module _ (garbage : Bytes) where
  abbrev pub greatest_of : List Answer → Tag
  greatest_of answers = get_max_tag garbage (map tag_of answers)

  pub greatest_of_lem :
      (a : Answer) (more : List Answer)
      → All InRange (a ∷ more)
      → All (λ x. (tag_of x).z ≤ℤ (greatest_of (a ∷ more)).z) (a ∷ more)
        × (pos 0 ≤ℤ (greatest_of (a ∷ more)).z)
        × ((greatest_of (a ∷ more)).z <ℤ pos (2 ^ 31 - 1))
  greatest_of_lem a more r =
      let (o, le) =
        get_max_tag_lem garbage (tag_of a) (map tag_of more)
          (All-map (λ t. pos 0 ≤ℤ t.z) tag_of (a ∷ more) (All-imp (λ x h. h.0) (a ∷ more) r)) in
      let (low, high) =
        All-OneOf (λ t. (pos 0 ≤ℤ t.z) × (t.z <ℤ pos (2 ^ 31 - 1))) (greatest_of (a ∷ more))
          (map tag_of (a ∷ more))
          (All-map (λ t. (pos 0 ≤ℤ t.z) × (t.z <ℤ pos (2 ^ 31 - 1))) tag_of (a ∷ more) r) o in
      (map-All (λ t. t.z ≤ℤ (greatest_of (a ∷ more)).z) tag_of (a ∷ more) le, low, high)

module _ (c : Caller) where
  -- A majority has a member.
  pub nonempty :
      (phase : Bytes) (answers : List Answer)
      → enough c phase answers ≡ true
      → (a : Answer) × (more : List Answer) × (first_majority c phase answers ≡ a ∷ more)
  nonempty phase answers e =
      first_of (majority c.num_servers) (matching c phase answers)
        (majority_overlap c.num_servers).1
        (leb→le (majority c.num_servers) (length (matching c phase answers)) e)

  -- The tag that the writer makes of the greatest one.
  pub new_tag_lem :
      (m : Tag)
      → pos 0 ≤ℤ m.z
      → m.z <ℤ pos (2 ^ 31 - 1)
      → length c.client_id < 100
      → (t : Tag) × (new_tag c.client_id m ≡ some t) × (t.id ≡ c.client_id) × (m.z <ℤ t.z)
  unfolding new_tag
  new_tag_lem m h k l =
      let (z, made, more) = increment_lem m.z h k in
      (record { z = z; id = c.client_id }, rw (made, fits_some 100 c.client_id l) refl, refl, more)

  module _ (garbage : Bytes) (answers : List Answer) (range : All InRange answers)
      (e : enough c Words.get_tag answers ≡ true) where
    abbrev collected : List Answer
    collected = first_majority c Words.get_tag answers

    abbrev greatest : Tag
    greatest = greatest_of garbage collected

    collected_range : All InRange collected
    collected_range =
        All-take InRange (matches c Words.get_tag) (majority c.num_servers) answers range

    greatest_lem :
        (All (λ a. (tag_of a).z ≤ℤ greatest.z) collected)
        × (pos 0 ≤ℤ greatest.z)
        × (greatest.z <ℤ pos (2 ^ 31 - 1))
    greatest_lem =
        let (a, more, same) = nonempty Words.get_tag answers e in
        rw same (greatest_of_lem garbage a more (rw same at collected_range))

    pub new_tag-before :
        length c.client_id < 100
        → (t : Tag) × (new_tag c.client_id greatest ≡ some t)
          × (t.id ≡ c.client_id)
          × All (λ a. (tag_of a).z <ℤ t.z) collected
    new_tag-before l =
        let (t, made, named, more) = new_tag_lem greatest greatest_lem.1 greatest_lem.2 l in
        (t, made, named, All-imp (λ a h. omega (arith, h, more)) collected greatest_lem.0)
