-- ===== src/Common/Pigeonhole.antt =====
-- Distinct numbers below a bound, and the member that two large lists share.
use Prim.Native.Nat.{ℕ, zero, suc, ◌+◌, ◌≤◌, ◌<◌}
use mathlib.Core.Path.{◌≡◌, refl}
use mathlib.Core.Logic.{◌⊎◌, inl, inr}
use mathlib.Core.Bool.{false}
use mathlib.Core.List.{List, [], ◌∷◌}
use native.Mathlib.Omega.{arith}
use colas.Common.Tests.{◌==◌, if◌then◌else◌, Bool-cases}
use colas.Common.Lists.{length, All, OneOf}

abbrev pub Distinct : List ℕ → Type 0
Distinct [] = Unit
Distinct (x ∷ xs) = All (λ y. (x == y) ≡ false) xs × Distinct xs

remove : ℕ → List ℕ → List ℕ
remove n [] = []
remove n (x ∷ xs) = let rest = remove n xs in if n == x then rest else x ∷ rest

remove_all : (P : ℕ → Type 0) (n : ℕ) (xs : List ℕ) → All P xs → All P (remove n xs)
unfolding remove
remove_all P n [] h = tt
remove_all P n (x ∷ xs) h = ground (arith, remove_all P n xs h.1)

remove-Distinct : (n : ℕ) (xs : List ℕ) → Distinct xs → Distinct (remove n xs)
unfolding remove
remove-Distinct n [] d = tt
remove-Distinct n (x ∷ xs) d =
    ground (arith, remove-Distinct n xs d.1, remove_all (λ y. (x == y) ≡ false) n xs d.0)

remove_other :
    (n : ℕ) (xs : List ℕ) → All (λ y. (n == y) ≡ false) xs → length (remove n xs) ≡ length xs
unfolding remove
remove_other n [] h = refl
remove_other n (x ∷ xs) h = ground (arith, remove_other n xs h.1)

length-remove : (n : ℕ) (xs : List ℕ) → Distinct xs → length xs ≤ suc (length (remove n xs))
unfolding remove
length-remove n [] d = omega arith
length-remove n (x ∷ xs) d = elim (Bool-cases (n == x)) [
  | inl e ↦ let same : n ≡ x = ground arith in rw e (omega (arith, remove_other n xs (rw same d.0)))
  | inr e ↦ rw e (omega (arith, length-remove n xs d.1))
]

remove_below : (n : ℕ) (xs : List ℕ) → All (λ x. x < suc n) xs → All (λ x. x < n) (remove n xs)
unfolding remove
remove_below n [] h = tt
remove_below n (x ∷ xs) h = ground (arith, remove_below n xs h.1)

pigeonhole : (n : ℕ) (xs : List ℕ) → Distinct xs → All (λ x. x < n) xs → length xs ≤ n
pigeonhole n [] d h = omega arith
pigeonhole zero (x ∷ xs) d h = absurd (omega (arith, h.0))
pigeonhole (suc n) (x ∷ xs) d h = omega (
  arith,
  length-remove n (x ∷ xs) d,
  pigeonhole n (remove n (x ∷ xs)) (remove-Distinct n (x ∷ xs) d) (remove_below n (x ∷ xs) h),
)

find_in : (x : ℕ) (ys : List ℕ) → OneOf x ys ⊎ All (λ y. (x == y) ≡ false) ys
find_in x [] = inr tt
find_in x (y ∷ ys) = elim (Bool-cases (x == y)) [
  | inl e ↦ inl (inl (ground arith))
  | inr e ↦ elim (find_in x ys) [ inl o ↦ inl (inr o) | inr a ↦ inr (e, a) ]
]

not-OneOf : (x i : ℕ) (xs : List ℕ) → All (λ y. (x == y) ≡ false) xs → OneOf i xs → (x == i) ≡ false
not-OneOf x i [] h o = absurd o
not-OneOf x i (y ∷ ys) h (inl e) = rw e h.0
not-OneOf x i (y ∷ ys) h (inr o) = not-OneOf x i ys h.1 o

-- Two lists of distinct numbers below `n` that have more than `n` members together share one.
pub shared :
    (n : ℕ) (xs ys : List ℕ)
    → Distinct xs
    → Distinct ys
    → All (λ x. x < n) xs
    → All (λ y. y < n) ys
    → n < length xs + length ys
    → (i : ℕ) × OneOf i xs × OneOf i ys
shared n [] ys dx dy bx by lt = absurd (omega (arith, pigeonhole n ys dy by))
shared n (x ∷ xs) ys dx dy bx by lt = elim (find_in x ys) [
  | inl o ↦ (x, inl refl, o)
  | inr a ↦ rest (shared n xs (x ∷ ys) dx.1 (a, dy) bx.1 (bx.0, by) (omega arith))
]
  where
    rest : ((i : ℕ) × OneOf i xs × OneOf i (x ∷ ys)) → (i : ℕ) × OneOf i (x ∷ xs) × OneOf i ys
    rest (i, o, inl e) = absurd (ground (arith, not-OneOf x i xs dx.0 o))
    rest (i, o, inr p) = (i, inr o, p)
