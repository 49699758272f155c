-- ===== src/Codec/Agree.antt =====
-- `encode` of src/codes/rlnc_rs.cpp makes as many blocks as `create_EncodeData` of
-- src/utilities/helpers.c computes.
use native.Mathlib.Nat.{div-eq_of_lt-le, add-mul}
use colas.Common.{ℕ, ◌+◌, ◌*◌, ◌≤◌, ◌<◌, ◌≡◌, refl, sym, some, arith, Bytes, length}
use colas.Client.Majority.{code_dimension}
use colas.Codec.{CodingAlgorithm, EncodeData, Kodo, encode}
use colas.Codec.Create.{blocks_needed, create_encode_data, symbol_size}
use colas.Codec.RoundTrip.{encoded_as, encode_lem}
use colas.Codec.Stripes.{length-make_stripes}

blocks_needed_lem :
    (blocks filesize size : ℕ)
    → 0 < size
    → filesize ≤ blocks * size
    → blocks * size < filesize + size
    → blocks_needed filesize size ≡ blocks
unfolding blocks_needed
blocks_needed_lem blocks filesize size h low high =
    div-eq_of_lt-le size (omega (arith, low, high))
      (let e = add-mul blocks 1 size in omega (arith, e))

module _ (kodo : Kodo) (memory : EncodeData) (num_servers : ℕ) (coding_algorithm : CodingAlgorithm)
    (payload : Bytes) where
  abbrev pub to_encode : EncodeData
  to_encode = record (create_encode_data memory num_servers (length payload) coding_algorithm) {
    raw_data = payload;
    raw_data_size = length payload;
  }

  -- For at least one byte and one server, `encode` on the structure of `create_EncodeData` ends,
  -- makes as many blocks as `create_EncodeData` computed, and one stripe for each server; the
  -- padding is less than a block.
  pub encode-create_encode_data :
      0 < length payload
      → 0 < num_servers
      → (e : EncodeData) × (encode kodo to_encode ≡ some e)
        × (e.num_blocks
            ≡ (create_encode_data memory num_servers (length payload) coding_algorithm).num_blocks)
        × (length e.encoded_data ≡ num_servers)
        × (e.total_data_size ≡ length payload + e.padded_data_size)
        × (e.padded_data_size < code_dimension num_servers * symbol_size)
  unfolding create_encode_data code_dimension
  encode-create_encode_data some_bytes some_servers =
      let (blocks, made, sized, front, low, high) = encode_lem kodo to_encode (record {
        whole = refl;
        some_data = some_bytes;
        some_symbols = omega arith;
        large = omega arith;
        some_stripes = some_servers;
      }) in
      (
        encoded_as kodo to_encode blocks,
        made,
        sym (
            blocks_needed_lem (length blocks) (length payload)
              (code_dimension num_servers * symbol_size) (omega arith) low high),
        length-make_stripes kodo coding_algorithm (code_dimension num_servers) symbol_size
            num_servers blocks 0,
        omega arith,
        omega arith,
      )
