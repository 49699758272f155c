-- ===== src/Codec/Stripes.antt =====
-- The stripes that `encode` of src/codes/rlnc_rs.cpp makes of the blocks.
use colas.Common.{
  ℕ, zero, suc, ◌+◌, ◌<◌, ◌≡◌, refl, ap, ◌∙◌, some, List, [], ◌∷◌, ◌++◌, arith, Bytes, get_elem?,
  get_all, All, map, length, length-append, ◌*◌,
}
use native.Mathlib.Nat.{suc-mul}
use colas.Codec.{CodingAlgorithm, Kodo, prepend, empty_stripes, write_payloads, make_stripes}

get-prepend :
    (i : ℕ) (symbols stripes : List Bytes) (x s : Bytes)
    → get_elem? symbols i ≡ some x
    → get_elem? stripes i ≡ some s
    → get_elem? (prepend symbols stripes) i ≡ some (x ++ s)
get-prepend i [] stripes x s p q = absurd (cc)
get-prepend i (y ∷ symbols) [] x s p q = absurd (cc)
get-prepend zero (y ∷ symbols) (t ∷ stripes) x s p q = cc
get-prepend (suc i) (y ∷ symbols) (t ∷ stripes) x s p q = get-prepend i symbols stripes x s p q

get-empty_stripes : (n i : ℕ) → i < n → get_elem? (empty_stripes n) i ≡ some []
get-empty_stripes zero i h = absurd (omega arith)
get-empty_stripes (suc n) zero h = refl
get-empty_stripes (suc n) (suc i) h = get-empty_stripes n i (omega arith)

length-prepend : (symbols stripes : List Bytes) → length (prepend symbols stripes) ≡ length symbols
length-prepend [] stripes = refl
length-prepend (x ∷ symbols) [] = omega (arith, length-prepend symbols [])
length-prepend (x ∷ symbols) (s ∷ stripes) = omega (arith, length-prepend symbols stripes)

length-empty_stripes : (n : ℕ) → length (empty_stripes n) ≡ n
length-empty_stripes zero = refl
length-empty_stripes (suc n) = omega (arith, length-empty_stripes n)

module _ (kodo : Kodo) (a : CodingAlgorithm) (k size : ℕ) where
  get-write_payloads :
      (n : ℕ) (block : Bytes) (call i : ℕ)
      → i < n
      → get_elem? (write_payloads kodo a k size n block call) i
        ≡ some (kodo.write_payload a k size block (call + i))
  unfolding write_payloads
  get-write_payloads zero block call i h = absurd (omega arith)
  get-write_payloads (suc n) block call zero h =
      ap (λ c. some (kodo.write_payload a k size block c))
        (let e : call ≡ call + 0 = omega arith in e)
  get-write_payloads (suc n) block call (suc i) h =
      let e : call + 1 + i ≡ call + suc i = omega arith in
      rw (← e) (get-write_payloads n block (call + 1) i (omega arith))

  module _ (n : ℕ) where
    -- Stripe i: the symbol of call i of each block.
    abbrev pub stripe : ℕ → List Bytes → ℕ → Bytes
    stripe i [] call = []
    stripe i (block ∷ blocks) call =
        kodo.write_payload a k size block (call + i) ++ stripe i blocks (call + n)

    pub get-make_stripes :
        (i : ℕ) (blocks : List Bytes) (call : ℕ)
        → i < n
        → get_elem? (make_stripes kodo a k size n blocks call) i ≡ some (stripe i blocks call)
    unfolding make_stripes
    get-make_stripes i [] call h = get-empty_stripes n i h
    get-make_stripes i (block ∷ blocks) call h =
        get-prepend i (write_payloads kodo a k size n block call)
          (make_stripes kodo a k size n blocks (call + n))
          (kodo.write_payload a k size block (call + i)) (stripe i blocks (call + n))
          (get-write_payloads n block call i h) (get-make_stripes i blocks (call + n) h)

    pub get_all-make_stripes :
        (is : List ℕ) (blocks : List Bytes) (call : ℕ)
        → All (λ i. i < n) is
        → get_all (make_stripes kodo a k size n blocks call) is
          ≡ some (map (λ i. stripe i blocks call) is)
    get_all-make_stripes [] blocks call h = refl
    get_all-make_stripes (i ∷ is) blocks call h =
        ground (arith, get-make_stripes i blocks call h.0, get_all-make_stripes is blocks call h.1)

    -- Stripes have a symbol for each block.
    pub length-stripe :
        (i : ℕ) (blocks : List Bytes) (call : ℕ)
        → length (stripe i blocks call) ≡ length blocks * kodo.payload_size a k size
    length-stripe i [] call = omega arith
    length-stripe i (block ∷ blocks) call = omega (
      arith,
      length-append (kodo.write_payload a k size block (call + i)) (stripe i blocks (call + n)),
      kodo.length-write_payload a k size block (call + i),
      length-stripe i blocks (call + n),
      suc-mul (length blocks) (kodo.payload_size a k size),
    )

  length-write_payloads :
      (n : ℕ) (block : Bytes) (call : ℕ) → length (write_payloads kodo a k size n block call) ≡ n
  unfolding write_payloads
  length-write_payloads zero block call = refl
  length-write_payloads (suc n) block call = omega (arith, length-write_payloads n block (call + 1))

  pub length-make_stripes :
      (n : ℕ) (blocks : List Bytes) (call : ℕ)
      → length (make_stripes kodo a k size n blocks call) ≡ n
  unfolding make_stripes
  length-make_stripes n [] call = length-empty_stripes n
  length-make_stripes n (block ∷ blocks) call =
      length-prepend (write_payloads kodo a k size n block call)
        (make_stripes kodo a k size n blocks (call + n))
      ∙ length-write_payloads n block call
