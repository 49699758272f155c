-- ===== src/Common/Lists.antt =====
-- Lists measured by native numbers, and a predicate on all items.
use Prim.Native.Nat.{ℕ, zero, suc, ◌+◌}
use mathlib.Core.Bool.{Bool}
use colas.Common.Tests.{if◌then◌else◌}
use mathlib.Core.Path.{◌≡◌, refl, sym, subst, ap}
use mathlib.Core.Logic.{◌≢◌, ◌⊎◌, inl, inr}
use mathlib.Core.List.{List, [], ◌∷◌, ◌++◌, map}
use mathlib.Core.Option.{Option, none, some}
use native.Mathlib.Omega.{arith}

module _ {ℓ} {A : Type ℓ} where
  abbrev pub length : List A → ℕ
  length [] = 0
  length (x ∷ xs) = suc (length xs)

  abbrev pub head? : List A → Option A
  head? [] = none
  head? (x ∷ xs) = some x

  pub length-append : (xs ys : List A) → length (xs ++ ys) ≡ length xs + length ys
  length-append [] ys = omega arith
  length-append (x ∷ xs) ys = omega (arith, length-append xs ys)

module _ {ℓ κ} {A : Type ℓ} (P : A → Type κ) where
  abbrev pub All : List A → Type κ
  All [] = Unit
  All (x ∷ xs) = P x × All xs

  pub All-append : (xs ys : List A) → All xs → All ys → All (xs ++ ys)
  All-append [] ys _ hy = hy
  All-append (x ∷ xs) ys (px, hx) hy = (px, All-append xs ys hx hy)

module _ {ℓ} {A : Type ℓ} where
  abbrev pub take : ℕ → List A → List A
  take zero xs = []
  take (suc n) [] = []
  take (suc n) (x ∷ xs) = x ∷ take n xs

  -- The items that pass a test.
  abbrev pub keep : (A → Bool) → List A → List A
  keep test [] = []
  keep test (x ∷ xs) = if test x then x ∷ keep test xs else keep test xs

module _ {ℓ κ} {A : Type ℓ} {B : Type κ} where
  abbrev pub foldl : (B → A → B) → B → List A → B
  foldl f b [] = b
  foldl f b (x ∷ xs) = foldl f (f b x) xs

-- `t` is one of the members of the list.
abbrev pub OneOf : {A : Type 0} → A → List A → Type 0
OneOf t [] = ⊥
OneOf t (x ∷ xs) = (t ≡ x) ⊎ OneOf t xs

module _ {A : Type 0} (P : A → Type 0) where
  pub All-OneOf : (x : A) (xs : List A) → All P xs → OneOf x xs → P x
  All-OneOf x [] h o = absurd o
  All-OneOf x (y ∷ ys) h (inl e) = subst P (sym e) h.0
  All-OneOf x (y ∷ ys) h (inr o) = All-OneOf x ys h.1 o

  pub All-take : (test : A → Bool) (n : ℕ) (xs : List A) → All P xs → All P (take n (keep test xs))
  All-take test n xs h = All-first n (keep test xs) (All-keep xs h)
    where
      All-first : (k : ℕ) (ys : List A) → All P ys → All P (take k ys)
      All-first zero ys g = tt
      All-first (suc k) [] g = tt
      All-first (suc k) (y ∷ ys) g = (g.0, All-first k ys g.1)

      All-keep : (ys : List A) → All P ys → All P (keep test ys)
      All-keep [] g = tt
      All-keep (y ∷ ys) g = ground (arith, All-keep ys g.1)

module _ {A B : Type 0} (P : B → Type 0) (f : A → B) where
  pub All-map : (xs : List A) → All (λ x. P (f x)) xs → All P (map f xs)
  All-map [] h = tt
  All-map (x ∷ xs) h = (h.0, All-map xs h.1)

  pub map-All : (xs : List A) → All P (map f xs) → All (λ x. P (f x)) xs
  map-All [] h = tt
  map-All (x ∷ xs) h = (h.0, map-All xs h.1)

module _ {A : Type 0} {P Q : A → Type 0} (f : (x : A) → P x → Q x) where
  pub All-imp : (xs : List A) → All P xs → All Q xs
  All-imp [] h = tt
  All-imp (x ∷ xs) h = (f x h.0, All-imp xs h.1)

module _ {A B : Type 0} (f : A → B) where
  pub length-map : (xs : List A) → length (map f xs) ≡ length xs
  length-map [] = refl
  length-map (x ∷ xs) = omega (arith, length-map xs)

  pub OneOf-map : (y : B) (xs : List A) → OneOf y (map f xs) → (x : A) × OneOf x xs × (y ≡ f x)
  OneOf-map y [] o = absurd o
  OneOf-map y (x ∷ xs) (inl e) = (x, inl refl, e)
  OneOf-map y (x ∷ xs) (inr o) = let (z, p, e) = OneOf-map y xs o in (z, inr p, e)

  pub map-OneOf : (x : A) (xs : List A) → OneOf x xs → OneOf (f x) (map f xs)
  map-OneOf x [] o = absurd o
  map-OneOf x (y ∷ ys) (inl e) = inl (ap f e)
  map-OneOf x (y ∷ ys) (inr o) = inr (map-OneOf x ys o)

module _ {ℓ} {A : Type ℓ} where
  abbrev pub get_elem? : List A → ℕ → Option A
  get_elem? [] i = none
  get_elem? (x ∷ xs) zero = some x
  get_elem? (x ∷ xs) (suc i) = get_elem? xs i

  -- The items at these places, if there is one at each.
  abbrev pub get_all : List A → List ℕ → Option (List A)
  get_all xs [] = some []
  get_all xs (i ∷ is) = elim (get_elem? xs i) [
    | none ↦ none
    | some x ↦ elim (get_all xs is) [ none ↦ none | some ys ↦ some (x ∷ ys) ]
  ]

-- The lists one behind the other.
abbrev pub concat : {A : Type 0} → List (List A) → List A
concat [] = []
concat (xs ∷ xss) = xs ++ concat xss

-- No number twice.
abbrev pub Apart : List ℕ → Type 0
Apart [] = Unit
Apart (x ∷ xs) = All (λ y. x ≢ y) xs × Apart xs

module _ {A : Type 0} (P : A → Type 0) where
  pub append-All : (xs ys : List A) → All P (xs ++ ys) → All P xs
  append-All [] ys h = tt
  append-All (x ∷ xs) ys h = (h.0, append-All xs ys h.1)

pub append-Apart : (xs ys : List ℕ) → Apart (xs ++ ys) → Apart xs
append-Apart [] ys h = tt
append-Apart (x ∷ xs) ys h = (append-All (λ y. x ≢ y) xs ys h.0, append-Apart xs ys h.1)
