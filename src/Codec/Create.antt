-- ===== src/Codec/Create.antt =====
-- `create_EncodeData` of src/utilities/helpers.c.
use colas.Common.{ℕ, ◌+◌, ◌-◌, ◌*◌, ◌/◌}
use colas.Client.Majority.{code_dimension}
use colas.Codec.{CodingAlgorithm, EncodeData}

-- `SYMBOL_SIZE`
abbrev pub symbol_size : ℕ
symbol_size = 1024

-- The blocks that a file needs, the quotient rounded up. The source divides in floating point, which
-- is exact for files of less than 2^24 bytes and at least one server.
unfoldable pub blocks_needed : ℕ → ℕ → ℕ
blocks_needed filesize block_size = (filesize + block_size - 1) / block_size

-- The fields that stay unset are those of the memory.
unfoldable pub create_encode_data : EncodeData → ℕ → ℕ → CodingAlgorithm → EncodeData
unfolding blocks_needed
create_encode_data memory num_servers filesize coding_algorithm = record memory {
  n = num_servers;
  k = code_dimension num_servers;
  symbol_size = symbol_size;
  raw_data_size = filesize;
  num_blocks = blocks_needed filesize (code_dimension num_servers * symbol_size);
  algorithm = coding_algorithm;
  offset_index = 0;
}
