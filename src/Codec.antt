-- ===== src/Codec.antt =====
-- The codec: `encode` and `decode` of src/codes/rlnc_rs.cpp, on the structure of src/codes/rlnc_rs.h.
--
-- The library kodo, which the repository calls and does not hold, is a parameter: what an encoder
-- writes for a block, and what a decoder has behind the payloads that it read. `none` is a fault or
-- a loop without an end. The sizes, `int` in the source, are numbers without a bound.
pub mod Blocks
pub mod Stripes
pub mod Read
pub mod RoundTrip
pub mod Create
pub mod Agree
use colas.Common.{
  ℕ, zero, suc, ◌+◌, ◌-◌, ◌*◌, ◌≡◌, Bool, true, false, Option, none, some, List, [], ◌∷◌, ◌++◌,
  ◌>>=◌, if◌then◌else◌, ltb, ◌==◌, ◌||◌, Bytes, length, take,
}

pub data CodingAlgorithm : Type 0 where
  full_vector reed_solomon : CodingAlgorithm

pub record EncodeData : Type 0 where
  pub decoded_data : Bytes
  pub encoded_data : List Bytes
  pub raw_data : Bytes
  pub encoded_symbol_size : ℕ
  pub offset_index : ℕ
  pub num_blocks : ℕ
  pub symbol_size : ℕ
  pub raw_data_size : ℕ
  pub padded_data_size : ℕ
  pub total_data_size : ℕ
  pub n : ℕ
  pub k : ℕ
  pub algorithm : CodingAlgorithm

-- Encoders and decoders for blocks of `k` symbols of a size.
pub record Kodo : Type 0 where
  pub payload_size : CodingAlgorithm → ℕ → ℕ → ℕ
  -- What `write_payload` writes of a block at its call of that number, counted from the making of
  -- the encoder.
  pub write_payload : CodingAlgorithm → (k size : ℕ) (block : Bytes) (call : ℕ) → Bytes
  -- The block of a decoder that has read the payloads, if it is complete.
  pub decoded : CodingAlgorithm → (k size : ℕ) → List Bytes → Option Bytes
  pub length-write_payload :
      (a : CodingAlgorithm) (k size : ℕ) (block : Bytes) (call : ℕ)
      → length (write_payload a k size block call) ≡ payload_size a k size

-- A block of the input, which blanks fill up.
unfoldable pub fill_block : ℕ → Bytes → Bytes
fill_block zero bytes = []
fill_block (suc n) [] = 32 ∷ fill_block n []
fill_block (suc n) (b ∷ bytes) = b ∷ fill_block n bytes

unfoldable pub drop : ℕ → Bytes → Bytes
drop zero bytes = bytes
drop (suc n) [] = []
drop (suc n) (b ∷ bytes) = drop n bytes

-- The first bytes of a buffer; a shorter one is read past its end.
unfoldable pub first_bytes : ℕ → Bytes → Option Bytes
first_bytes n bytes = if ltb (length bytes) n then none else some (take n bytes)

-- The blocks that the loop `while (data_encoded < raw_data_size)` makes. A round takes the block size
-- from the bytes that are left; with an empty block it never ends.
unfoldable pub make_blocks : ℕ → ℕ → Bytes → Option (List Bytes)
make_blocks zero size bytes = none
make_blocks (suc fuel) size [] = some []
make_blocks (suc fuel) size (b ∷ bytes) = do
  blocks ← make_blocks fuel size (drop size (b ∷ bytes))
  some (fill_block size (b ∷ bytes) ∷ blocks)

-- `std::vector::push_back` on each stripe: the symbols of a block in front of those behind it.
abbrev pub prepend : List Bytes → List Bytes → List Bytes
prepend [] stripes = []
prepend (x ∷ symbols) [] = x ∷ prepend symbols []
prepend (x ∷ symbols) (s ∷ stripes) = (x ++ s) ∷ prepend symbols stripes

abbrev pub empty_stripes : ℕ → List Bytes
empty_stripes zero = []
empty_stripes (suc n) = [] ∷ empty_stripes n

-- The front bytes of each stripe, and what is left of it.
unfoldable pub cut_all : ℕ → List Bytes → Option (List Bytes × List Bytes)
unfolding first_bytes drop
cut_all size [] = some ([], [])
cut_all size (s ∷ stripes) =
    let others = cut_all size stripes in
    do front ← first_bytes size s; o ← others; some (front ∷ o.0, drop size s ∷ o.1)

-- The first `n` stripes; with fewer, an array is read past its end.
unfoldable pub first_stripes : ℕ → List Bytes → Option (List Bytes)
first_stripes zero stripes = some []
first_stripes (suc n) [] = none
first_stripes (suc n) (s ∷ stripes) = do more ← first_stripes n stripes; some (s ∷ more)

abbrev pub skip_stripes : ℕ → List Bytes → List Bytes
skip_stripes zero stripes = stripes
skip_stripes (suc n) [] = []
skip_stripes (suc n) (s ∷ stripes) = skip_stripes n stripes

-- The loop over the blocks and stripes of `convert_from_C_to_vector`.
unfoldable pub columns : ℕ → ℕ → List Bytes → Option (List (List Bytes))
unfolding cut_all
columns size zero stripes = some []
columns size (suc n) stripes = do
  cut ← cut_all size stripes
  more ← columns size n cut.1
  some (cut.0 ∷ more)

unfoldable pub convert_from_C_to_vector : EncodeData → Option (List (List Bytes))
unfolding columns first_stripes
convert_from_C_to_vector d = do
  stripes ← first_stripes d.k (skip_stripes d.offset_index d.encoded_data)
  columns d.encoded_symbol_size d.num_blocks stripes

module _ (kodo : Kodo) where
  -- `write_payload` for each of the stripes.
  unfoldable pub write_payloads : CodingAlgorithm → ℕ → ℕ → ℕ → Bytes → ℕ → List Bytes
  write_payloads a k size zero block call = []
  write_payloads a k size (suc n) block call =
      kodo.write_payload a k size block call ∷ write_payloads a k size n block (call + 1)

  -- The stripes of the blocks; the encoder goes on counting from block to block.
  unfoldable pub make_stripes : CodingAlgorithm → ℕ → ℕ → ℕ → List Bytes → ℕ → List Bytes
  unfolding write_payloads
  make_stripes a k size n [] call = empty_stripes n
  make_stripes a k size n (block ∷ blocks) call =
      prepend (write_payloads a k size n block call) (make_stripes a k size n blocks (call + n))

  -- With no byte or no stripe to encode, `encoded_symbol_size` is read and has no value.
  unfoldable pub encode : EncodeData → Option EncodeData
  unfolding make_blocks first_bytes make_stripes
  encode e = do
    raw ← first_bytes e.raw_data_size e.raw_data
    blocks ← make_blocks (e.raw_data_size + 1) (e.k * e.symbol_size) raw
    if length blocks == 0 || e.n == 0
        then none
        else some (record e {
          encoded_symbol_size = kodo.payload_size e.algorithm e.k e.symbol_size;
          num_blocks = length blocks;
          padded_data_size = length blocks * (e.k * e.symbol_size) - e.raw_data_size;
          encoded_data = make_stripes e.algorithm e.k e.symbol_size e.n blocks 0;
          total_data_size = length blocks * (e.k * e.symbol_size);
        })

  -- The decoder of a block reads payloads until it is complete.
  unfoldable pub read_payloads : CodingAlgorithm → ℕ → ℕ → List Bytes → List Bytes → Option Bytes
  read_payloads a k size taken [] = none
  read_payloads a k size taken (p ∷ payloads) =
      let rest = read_payloads a k size (taken ++ p ∷ []) payloads in
      elim (kodo.decoded a k size (taken ++ p ∷ [])) [ some block ↦ some block | none ↦ rest ]

  -- The blocks one behind the other; `none` is the result FALSE.
  unfoldable pub decode_blocks : CodingAlgorithm → ℕ → ℕ → List (List Bytes) → Option Bytes
  unfolding read_payloads
  decode_blocks a k size [] = some []
  decode_blocks a k size (payloads ∷ more) = do
    block ← read_payloads a k size [] payloads
    rest ← decode_blocks a k size more
    some (block ++ rest)

  -- TRUE and the structure with its decoded data, or FALSE and the structure as it was.
  abbrev pub returned : EncodeData → Option Bytes → Bool × EncodeData
  returned d none = (false, d)
  returned d (some bytes) = (true, record d { decoded_data = bytes })

  unfoldable pub decode : EncodeData → Option (Bool × EncodeData)
  unfolding convert_from_C_to_vector decode_blocks
  decode d = do
    payloads ← convert_from_C_to_vector d
    some (returned d (decode_blocks d.algorithm d.k d.symbol_size payloads))
