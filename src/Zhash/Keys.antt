-- ===== src/Zhash/Keys.antt =====
-- Lists of keys: membership, and no key twice.
use colas.Common.{
  refl, keep, ◌≡◌, ap, Bool, true, false, List, [], ◌∷◌, ◌&&◌, ◌||◌, not, arith, Bytes, streq,
  streq_iff, streq_refl,
}

unfoldable pub member : Bytes → List Bytes → Bool
member k [] = false
member k (x ∷ xs) = streq x k || member k xs

unfoldable pub distinct : List Bytes → Bool
distinct [] = true
distinct (x ∷ xs) = not (member x xs) && distinct xs

-- A list of distinct keys in which only `k` occurs is that key alone.
pub single_list :
    (k : Bytes) (xs : List Bytes)
    → member k xs ≡ true
    → distinct xs ≡ true
    → ((j : Bytes) → member j xs ≡ true → j ≡ k)
    → xs ≡ k ∷ []
unfolding member distinct
single_list k [] m d h = absurd (cc)
single_list k (x ∷ []) m d h = ap (λ y. y ∷ []) (h x (ground (arith, streq_refl x)))
single_list k (x ∷ y ∷ ys) m d h =
    let e = h x (ground (arith, streq_refl x)) in
    let f = h y (ground (arith, streq_refl y)) in ground (arith, streq_iff y x)

-- The keys that pass a test.
pub member-keep :
    (test : Bytes → Bool) (k : Bytes) (xs : List Bytes)
    → member k (keep test xs) ≡ (member k xs && test k)
unfolding member
member-keep test k [] = refl
member-keep test k (x ∷ xs) = ground (arith, member-keep test k xs, streq_iff x k)

pub distinct-keep :
    (test : Bytes → Bool) (xs : List Bytes) → distinct xs ≡ true → distinct (keep test xs) ≡ true
unfolding distinct
distinct-keep test [] d = refl
distinct-keep test (x ∷ xs) d = ground (arith, distinct-keep test xs, member-keep test x xs, d)
