-- ===== src/Codec/Read.antt =====
-- What `decode` of src/codes/rlnc_rs.cpp makes of stripes that `encode` made.
use mathlib.Core.List.{append_assoc, map-append}
use colas.Common.{
  ℕ, zero, suc, ◌+◌, ◌*◌, ◌≤◌, ◌<◌, ◌≡◌, refl, ap, none, some, List, [], ◌∷◌, ◌++◌, ◌==◌,
  if◌then◌else◌, arith, Bytes, length, length-append, take, All, append-All, Apart, append-Apart,
  concat, map, sym, Bool-cases, inl, inr,
}
use colas.Codec.{
  CodingAlgorithm, Kodo, first_bytes, drop, cut_all, columns, first_stripes, read_payloads,
  decode_blocks,
}
use colas.Codec.Stripes.{stripe}

first_bytes-append : (n : ℕ) (xs ys : Bytes) → length xs ≡ n → first_bytes n (xs ++ ys) ≡ some xs
unfolding first_bytes
first_bytes-append n xs ys h = rw (take_front n xs ys h) (ground (arith, length-append xs ys))
  where
    take_front : (m : ℕ) (us vs : Bytes) → length us ≡ m → take m (us ++ vs) ≡ us
    take_front zero [] vs e = refl
    take_front zero (u ∷ us) vs e = absurd (omega arith)
    take_front (suc m) [] vs e = absurd (omega arith)
    take_front (suc m) (u ∷ us) vs e = ap (λ t. u ∷ t) (take_front m us vs (omega arith))

drop-append : (n : ℕ) (xs ys : Bytes) → length xs ≡ n → drop n (xs ++ ys) ≡ ys
unfolding drop
drop-append zero [] ys h = refl
drop-append zero (x ∷ xs) ys h = absurd (omega arith)
drop-append (suc n) [] ys h = absurd (omega arith)
drop-append (suc n) (x ∷ xs) ys h = drop-append n xs ys (omega arith)

pub first_stripes-all :
    (stripes : List Bytes) → first_stripes (length stripes) stripes ≡ some stripes
unfolding first_stripes
first_stripes-all [] = refl
first_stripes-all (s ∷ stripes) = rw (first_stripes-all stripes) refl

module _ (kodo : Kodo) (a : CodingAlgorithm) (k size n : ℕ) where
  abbrev pub payload : Bytes → ℕ → Bytes
  payload block call = kodo.write_payload a k size block call

  -- Of a block, the payloads of any `k` of `n` calls in turn, in any order, give it back, and fewer
  -- do not complete a decoder. Reed-Solomon codes promise it.
  abbrev pub Recovers : Type 0
  Recovers =
      (block : Bytes) (call : ℕ) (is : List ℕ)
      → length block ≡ k * size
      → All (λ i. i < n) is
      → Apart is
      → length is ≤ k
      → kodo.decoded a k size (map (λ i. payload block (call + i)) is)
        ≡ (if length is == k then some block else none)

  module _ (is : List ℕ) where
    cut_all-stripes :
        (block : Bytes) (blocks : List Bytes) (call : ℕ) (js : List ℕ)
        → cut_all
            (kodo.payload_size a k size)
            (map (λ i. stripe kodo a k size n i (block ∷ blocks) call) js)
          ≡ some (
            map (λ i. payload block (call + i)) js,
            map (λ i. stripe kodo a k size n i blocks (call + n)) js,
          )
    unfolding cut_all
    cut_all-stripes block blocks call [] = refl
    cut_all-stripes block blocks call (j ∷ js) =
        let sized = kodo.length-write_payload a k size block (call + j) in
        rw
          (
            first_bytes-append (kodo.payload_size a k size) (payload block (call + j))
                (stripe kodo a k size n j blocks (call + n)) sized,
            drop-append (kodo.payload_size a k size) (payload block (call + j))
                (stripe kodo a k size n j blocks (call + n)) sized,
            cut_all-stripes block blocks call js,
          )
          refl

    -- The payloads of the blocks, block by block.
    abbrev pub by_block : List Bytes → ℕ → List (List Bytes)
    by_block [] call = []
    by_block (block ∷ blocks) call =
        map (λ i. payload block (call + i)) is ∷ by_block blocks (call + n)

    pub columns-stripes :
        (blocks : List Bytes) (call : ℕ)
        → columns
            (kodo.payload_size a k size)
            (length blocks)
            (map (λ i. stripe kodo a k size n i blocks call) is)
          ≡ some (by_block blocks call)
    unfolding columns
    columns-stripes [] call = refl
    columns-stripes (block ∷ blocks) call =
        rw (cut_all-stripes block blocks call is, columns-stripes blocks (call + n)) refl

  module _ (recovers : Recovers) where
    read_payloads_lem :
        (block : Bytes) (call : ℕ) (before is : List ℕ)
        → length block ≡ k * size
        → All (λ i. i < n) (before ++ is)
        → Apart (before ++ is)
        → length before + length is ≡ k
        → 0 < length is
        → read_payloads kodo a k size
            (map (λ i. payload block (call + i)) before)
            (map (λ i. payload block (call + i)) is)
          ≡ some block
    unfolding read_payloads
    read_payloads_lem block call before [] sized below apart e pos = absurd (omega arith)
    read_payloads_lem block call before (i ∷ is) sized below apart e pos =
        let same = append_assoc before (i ∷ []) is in
        let below' = rw (← same) at below in
        let apart' = rw (← same) at apart in
        let f = λ (j : ℕ). payload block (call + j) in
        let joined : map f before ++ f i ∷ [] ≡ map f (before ++ i ∷ []) =
          sym (map-append f before (i ∷ [])) in
        let longer = length-append before (i ∷ []) in
        let law =
          recovers block call (before ++ i ∷ []) sized
            (append-All (λ j. j < n) (before ++ i ∷ []) is below')
            (append-Apart (before ++ i ∷ []) is apart') (omega arith) in
        elim (Bool-cases (length (before ++ i ∷ []) == k)) [
          | inl t ↦ rw (rw (← joined, t) at law) refl
          | inr t ↦ rw (rw (← joined, t) at law) (
              rw (← joined) at (
                read_payloads_lem block call (before ++ i ∷ []) is sized below' apart' (omega arith)
                  (ground arith)))
        ]

    pub decode_blocks_lem :
        (is : List ℕ) (blocks : List Bytes) (call : ℕ)
        → All (λ b. length b ≡ k * size) blocks
        → All (λ i. i < n) is
        → Apart is
        → length is ≡ k
        → 0 < k
        → decode_blocks kodo a k size (by_block is blocks call) ≡ some (concat blocks)
    unfolding decode_blocks
    decode_blocks_lem is [] call sized below apart e pos = refl
    decode_blocks_lem is (block ∷ blocks) call sized below apart e pos =
        rw
          (
            read_payloads_lem block call [] is sized.0 below apart (omega arith) (omega arith),
            decode_blocks_lem is blocks (call + n) sized.1 below apart e pos,
          )
          refl
