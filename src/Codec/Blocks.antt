-- ===== src/Codec/Blocks.antt =====
-- The blocks that `encode` of src/codes/rlnc_rs.cpp makes of the raw data.
use colas.Common.{
  ℕ, zero, suc, ◌+◌, ◌-◌, ◌*◌, ◌≤◌, ◌<◌, ◌≡◌, refl, ap, some, List, [], ◌∷◌, ◌++◌, arith, Bytes,
  length, take, All, concat,
}
use native.Mathlib.Nat.{suc-mul}
use colas.Codec.{fill_block, drop, make_blocks}

pub length-fill_block : (n : ℕ) (bytes : Bytes) → length (fill_block n bytes) ≡ n
unfolding fill_block
length-fill_block zero bytes = refl
length-fill_block (suc n) [] = omega (arith, length-fill_block n [])
length-fill_block (suc n) (b ∷ bytes) = omega (arith, length-fill_block n bytes)

length-drop : (n : ℕ) (bytes : Bytes) → length (drop n bytes) ≡ length bytes - n
unfolding drop
length-drop zero bytes = omega arith
length-drop (suc n) [] = omega arith
length-drop (suc n) (b ∷ bytes) = omega (arith, length-drop n bytes)

take-fill_block :
    (n : ℕ) (bytes rest : Bytes)
    → take (length (drop n bytes)) rest ≡ drop n bytes
    → take (length bytes) (fill_block n bytes ++ rest) ≡ bytes
unfolding fill_block drop
take-fill_block zero bytes rest h = h
take-fill_block (suc n) [] rest h = refl
take-fill_block (suc n) (b ∷ bytes) rest h = ap (λ t. b ∷ t) (take-fill_block n bytes rest h)

count_bound :
    (m size bytes left : ℕ)
    → left ≡ bytes - size
    → m * size < left + size
    → 0 < bytes
    → m * size < bytes
count_bound zero size bytes left e h pos = omega arith
count_bound (suc m) size bytes left e h pos = omega (arith, suc-mul m size)

-- With blocks that are not empty, the loop ends, with as many blocks as the bytes need; the bytes
-- stand at the front of the blocks.
pub make_blocks_lem :
    (fuel size : ℕ) (bytes : Bytes)
    → 0 < size
    → length bytes < fuel
    → (blocks : List Bytes) × (make_blocks fuel size bytes ≡ some blocks)
      × All (λ b. length b ≡ size) blocks
      × (take (length bytes) (concat blocks) ≡ bytes)
      × (length bytes ≤ length blocks * size)
      × (length blocks * size < length bytes + size)
unfolding make_blocks
make_blocks_lem zero size bytes h lt = absurd (omega arith)
make_blocks_lem (suc fuel) size [] h lt = ([], refl, tt, refl, omega arith, omega arith)
make_blocks_lem (suc fuel) size (b ∷ bytes) h lt =
    let left = length-drop size (b ∷ bytes) in
    let (blocks, made, sized, front, low, high) =
      make_blocks_lem fuel size (drop size (b ∷ bytes)) h (omega arith) in
    let more = suc-mul (length blocks) size in
    let few =
      count_bound (length blocks) size (suc (length bytes)) (length (drop size (b ∷ bytes))) left
        high (omega arith) in
    (
      fill_block size (b ∷ bytes) ∷ blocks,
      rw made refl,
      (length-fill_block size (b ∷ bytes), sized),
      take-fill_block size (b ∷ bytes) (concat blocks) front,
      omega arith,
      omega arith,
    )
