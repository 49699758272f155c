-- ===== src/Examples/Codec.antt =====
-- A codec that repeats its block, and a value of ten bytes in two blocks for three servers.
use native.Mathlib.Nat.{zero-mul}
use colas.Common.{
  sym, ℕ, zero, suc, ◌+◌, ◌*◌, ◌<◌, ◌≡◌, refl, ap, ◌∙◌, true, none, some, List, [], ◌∷◌, ◌==◌,
  if◌then◌else◌, arith, Bytes, length, map, length-map, take, get_all, Apart, codes, Bool-cases,
  inl, inr,
}
use colas.Client.Majority.{code_dimension}
use colas.Codec.{CodingAlgorithm, reed_solomon, EncodeData, Kodo, encode, decode, fill_block}
use colas.Codec.Agree.{to_encode, encode-create_encode_data}
use colas.Codec.Blocks.{length-fill_block}
use colas.Codec.Create.{create_encode_data, symbol_size}
use colas.Codec.Read.{Recovers}
use colas.Codec.RoundTrip.{IsRaw, decode-encode}

abbrev front : List Bytes → Bytes
front [] = []
front (p ∷ payloads) = p

-- Every payload is the whole block.
abbrev pub repeated : Kodo
repeated = record {
  payload_size = λ a k size. k * size;
  write_payload = λ a k size block call. fill_block (k * size) block;
  decoded = λ a k size payloads. if length payloads == k then some (front payloads) else none;
  length-write_payload = λ a k size block call. length-fill_block (k * size) block;
}

fill_block_self : (n : ℕ) (block : Bytes) → length block ≡ n → fill_block n block ≡ block
unfolding fill_block
fill_block_self zero [] h = refl
fill_block_self zero (b ∷ block) h = absurd (omega arith)
fill_block_self (suc n) [] h = absurd (omega arith)
fill_block_self (suc n) (b ∷ block) h = ap (λ t. b ∷ t) (fill_block_self n block (omega arith))

no_bytes : (s : Bytes) → length s ≡ 0 → [] ≡ s
no_bytes [] h = refl
no_bytes (b ∷ s) h = absurd (omega arith)

pub repeated_recovers : (a : CodingAlgorithm) (k size n : ℕ) → Recovers repeated a k size n
repeated_recovers a k size n block call is sized below apart short =
    rw
      (
        length-map (λ (i : ℕ). fill_block (k * size) block) is,
        fill_block_self (k * size) block sized,
      )
      (elim (Bool-cases (length is == k)) [
        | inl e ↦ rw e (ap some (same is (ground arith)))
        | inr e ↦ rw e refl
      ])
  where
    same : (js : List ℕ) → length js ≡ k → front (map (λ i. block) js) ≡ block
    same [] e = no_bytes block (sized ∙ ap (λ m. m * size) (sym e) ∙ zero-mul size)
    same (j ∷ js) e = refl

abbrev pub nothing : EncodeData
nothing = record {
  decoded_data = [];
  encoded_data = [];
  raw_data = [];
  encoded_symbol_size = 0;
  offset_index = 0;
  num_blocks = 0;
  symbol_size = 0;
  raw_data_size = 0;
  padded_data_size = 0;
  total_data_size = 0;
  n = 0;
  k = 0;
  algorithm = reed_solomon;
}

abbrev pub value : Bytes
value = codes "tenletters"

-- As the reader has it: three servers, of which two suffice.
abbrev pub info : EncodeData
info = record nothing { symbol_size = 4; n = 3; k = 2; num_blocks = 2 }

abbrev pub raw : EncodeData
raw = record info { raw_data = value; raw_data_size = 10 }

pub raw-IsRaw : IsRaw raw
raw-IsRaw = record {
  whole = refl;
  some_data = omega arith;
  some_symbols = omega arith;
  large = omega arith;
  some_stripes = omega arith;
}

two-Apart : Apart (2 ∷ 0 ∷ [])
two-Apart = ((λ e. absurd (omega arith), tt), (tt, tt))

decode-encode_example :
    (e : EncodeData) × (encode repeated raw ≡ some e)
    × (elements : List Bytes) × (get_all e.encoded_data (2 ∷ 0 ∷ []) ≡ some elements)
    × (decoded : Bytes) × (decode repeated (record e { encoded_data = elements; offset_index = 0 })
        ≡ some
            (true, record e { encoded_data = elements; offset_index = 0; decoded_data = decoded }))
    × (take 10 decoded ≡ value)
    × (length decoded < 10 + 2 * 4)
decode-encode_example =
    decode-encode repeated raw (2 ∷ 0 ∷ []) raw-IsRaw (repeated_recovers reed_solomon 2 4 3)
      (omega arith) two-Apart refl

encode-create_encode_data_example :
    (e : EncodeData) × (encode repeated (to_encode repeated nothing 3 reed_solomon value) ≡ some e)
    × (e.num_blocks ≡ (create_encode_data nothing 3 10 reed_solomon).num_blocks)
    × (length e.encoded_data ≡ 3)
    × (e.total_data_size ≡ 10 + e.padded_data_size)
    × (e.padded_data_size < code_dimension 3 * symbol_size)
encode-create_encode_data_example =
    encode-create_encode_data repeated nothing 3 reed_solomon value (omega arith) (omega arith)
