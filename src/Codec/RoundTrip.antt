-- ===== src/Codec/RoundTrip.antt =====
-- `decode` gives back what `encode` took: both of src/codes/rlnc_rs.cpp.
use colas.Common.{
  ℕ, zero, suc, ◌+◌, ◌-◌, ◌*◌, ◌≤◌, ◌<◌, ◌≡◌, refl, ap, true, false, some, List, [], ◌∷◌, ◌==◌,
  arith, Bytes, length, length-map, length-append, take, get_all, All, Apart, concat, map,
}
use mathlib.Core.Path.{subst}
use native.Mathlib.Nat.{suc-mul}
use colas.Codec.{
  EncodeData, Kodo, first_bytes, make_stripes, encode, decode, convert_from_C_to_vector,
  first_stripes,
}
use colas.Codec.Blocks.{make_blocks_lem}
use colas.Codec.Stripes.{stripe, get_all-make_stripes}
use colas.Codec.Read.{Recovers, columns-stripes, first_stripes-all, decode_blocks_lem}

-- A structure to encode: bytes, as many as it says, and blocks that are not empty.
pub record IsRaw (e : EncodeData) : Type 0 where
  pub whole : length e.raw_data ≡ e.raw_data_size
  pub some_data : 0 < e.raw_data_size
  pub some_symbols : 0 < e.k
  pub large : 0 < e.k * e.symbol_size
  pub some_stripes : 0 < e.n

pub first_bytes-whole : (n : ℕ) (s : Bytes) → length s ≡ n → first_bytes n s ≡ some s
unfolding first_bytes
first_bytes-whole n s h = rw (take_whole n s h) (ground arith)
  where
    take_whole : (m : ℕ) (us : Bytes) → length us ≡ m → take m us ≡ us
    take_whole zero [] e = refl
    take_whole zero (u ∷ us) e = absurd (omega arith)
    take_whole (suc m) [] e = refl
    take_whole (suc m) (u ∷ us) e = ap (λ t. u ∷ t) (take_whole m us (omega arith))

length-concat :
    (bs : List Bytes) (size : ℕ)
    → All (λ b. length b ≡ size) bs
    → length (concat bs) ≡ length bs * size
length-concat [] size h = omega arith
length-concat (b ∷ bs) size h =
    omega (arith, length-append b (concat bs), length-concat bs size h.1, suc-mul (length bs) size)

module _ (kodo : Kodo) where
  -- The stripes of the blocks.
  abbrev pub stripes_of : EncodeData → List Bytes → List ℕ → List Bytes
  stripes_of e blocks is = map (λ i. stripe kodo e.algorithm e.k e.symbol_size e.n i blocks 0) is

  -- The structure behind `encode`.
  abbrev pub encoded_as : EncodeData → List Bytes → EncodeData
  encoded_as e blocks = record e {
    encoded_symbol_size = kodo.payload_size e.algorithm e.k e.symbol_size;
    num_blocks = length blocks;
    padded_data_size = length blocks * (e.k * e.symbol_size) - e.raw_data_size;
    encoded_data = make_stripes kodo e.algorithm e.k e.symbol_size e.n blocks 0;
    total_data_size = length blocks * (e.k * e.symbol_size);
  }

  -- What `encode` returns: blocks, a little longer together than the data that they begin with, and
  -- all stripes of them.
  pub encode_lem :
      (e : EncodeData)
      → IsRaw e
      → (blocks : List Bytes) × (encode kodo e ≡ some (encoded_as e blocks))
        × All (λ b. length b ≡ e.k * e.symbol_size) blocks
        × (take e.raw_data_size (concat blocks) ≡ e.raw_data)
        × (e.raw_data_size ≤ length blocks * (e.k * e.symbol_size))
        × (length blocks * (e.k * e.symbol_size) < e.raw_data_size + e.k * e.symbol_size)
  unfolding encode
  encode_lem e r =
      let (blocks, made, sized, front, low, high) =
        make_blocks_lem (e.raw_data_size + 1) (e.k * e.symbol_size) e.raw_data r.large
          (omega (arith, r.whole)) in
      let stripes : (e.n == 0) ≡ false = no_zero e.n r.some_stripes in
      let some_blocks : (length blocks == 0) ≡ false =
        nonempty blocks e.raw_data (e.k * e.symbol_size) low
          (omega (arith, r.whole, r.some_data)) in
      (
        blocks,
        rw (first_bytes-whole e.raw_data_size e.raw_data r.whole, made, some_blocks, stripes) refl,
        sized,
        subst (λ m. take m (concat blocks) ≡ e.raw_data) r.whole front,
        omega (arith, r.whole),
        omega (arith, r.whole),
      )
    where
      no_zero : (m : ℕ) → 0 < m → (m == 0) ≡ false
      no_zero m h = ground arith

      nonempty :
          (bs : List Bytes) (raw : Bytes) (size : ℕ)
          → length raw ≤ length bs * size
          → 0 < length raw
          → (length bs == 0) ≡ false
      nonempty [] raw size h pos = absurd (omega arith)
      nonempty (b ∷ bs) raw size h pos = ground arith

  -- A structure with stripes of the blocks in it, the number of the blocks and the right sizes.
  pub record IsCoded (d : EncodeData) (n : ℕ) (blocks : List Bytes) (is : List ℕ) : Type 0 where
    pub stripes :
        d.encoded_data ≡ map (λ i. stripe kodo d.algorithm d.k d.symbol_size n i blocks 0) is
    pub from_first : d.offset_index ≡ 0
    pub all_blocks : d.num_blocks ≡ length blocks
    pub symbols : d.encoded_symbol_size ≡ kodo.payload_size d.algorithm d.k d.symbol_size
    pub enough : length is ≡ d.k

  pub decode_lem :
      (d : EncodeData) (n : ℕ) (blocks : List Bytes) (is : List ℕ)
      → IsCoded d n blocks is
      → Recovers kodo d.algorithm d.k d.symbol_size n
      → All (λ b. length b ≡ d.k * d.symbol_size) blocks
      → All (λ i. i < n) is
      → Apart is
      → 0 < d.k
      → decode kodo d ≡ some (true, record d { decoded_data = concat blocks })
  unfolding decode convert_from_C_to_vector
  decode_lem d n blocks is c recovers sized below apart pos =
      let stripes = map (λ i. stripe kodo d.algorithm d.k d.symbol_size n i blocks 0) is in
      let long : length stripes ≡ d.k = omega (
        arith,
        length-map (λ i. stripe kodo d.algorithm d.k d.symbol_size n i blocks 0) is,
        c.enough,
      ) in
      let whole : first_stripes d.k stripes ≡ some stripes =
        rw long at (first_stripes-all stripes) in
      rw
        (
          c.stripes,
          c.from_first,
          whole,
          c.all_blocks,
          c.symbols,
          columns-stripes kodo d.algorithm d.k d.symbol_size n is blocks 0,
          decode_blocks_lem kodo d.algorithm d.k d.symbol_size n recovers is blocks 0 sized below
              apart c.enough pos,
        )
        refl

  -- `encode` succeeds on bytes with blocks that are not empty, and whichever `k` different stripes
  -- of its `n` there are, in whatever order, `decode` succeeds with data that begin with those
  -- bytes and are less than a block longer, provided that any `k` payloads of a block in one round
  -- recover it and fewer are not complete.
  pub decode-encode :
      (e : EncodeData) (is : List ℕ)
      → IsRaw e
      → Recovers kodo e.algorithm e.k e.symbol_size e.n
      → All (λ i. i < e.n) is
      → Apart is
      → length is ≡ e.k
      → (e' : EncodeData) × (encode kodo e ≡ some e')
        × (elements : List Bytes) × (get_all e'.encoded_data is ≡ some elements)
        × (decoded : Bytes) × (decode kodo (record e' { encoded_data = elements; offset_index = 0 })
            ≡ some (
              true,
              record e' { encoded_data = elements; offset_index = 0; decoded_data = decoded },
            ))
        × (take e.raw_data_size decoded ≡ e.raw_data)
        × (length decoded < e.raw_data_size + e.k * e.symbol_size)
  decode-encode e is r recovers below apart enough =
      let (blocks, made, sized, front, low, high) = encode_lem e r in
      (
        encoded_as e blocks,
        made,
        stripes_of e blocks is,
        get_all-make_stripes kodo e.algorithm e.k e.symbol_size e.n is blocks 0 below,
        concat blocks,
        decode_lem
            (record (encoded_as e blocks) {
              encoded_data = stripes_of e blocks is;
              offset_index = 0;
            })
            e.n blocks is
            (record {
              stripes = refl;
              from_first = refl;
              all_blocks = refl;
              symbols = refl;
              enough = enough;
            })
            recovers sized below apart r.some_symbols,
        front,
        omega (arith, high, length-concat blocks (e.k * e.symbol_size) sized),
      )
