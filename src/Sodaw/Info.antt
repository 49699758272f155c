-- ===== src/Sodaw/Info.antt =====
-- `get_encoded_info` of src/sodaw/sodaw_reader.c: what the reader hands to `decode`.
use colas.Common.{
  ℕ, zero, suc, ◌*◌, ◌/◌, ◌<◌, ◌≡◌, refl, ap, sym, ◌∙◌, false, none, some, List, [], ◌∷◌, ◌==◌,
  arith, Bytes, length, All,
}
use native.Mathlib.Nat.{suc-mul, mul_comm, mul_assoc, mul-div_cancel}
use colas.Codec.{EncodeData}
use colas.Sodaw.Reader.{last_size, total_size, copy_elements, get_encoded_info}
use colas.Zhash.{Zhash}

abbrev pub Sized : ℕ → List Bytes → Type 0
Sized size elements = All (λ e. length e ≡ size) elements

copy_elements-all :
    (size : ℕ) (elements : List Bytes)
    → Sized size elements
    → copy_elements (length elements) size elements ≡ some elements
unfolding copy_elements
copy_elements-all size [] h = refl
copy_elements-all size (e ∷ elements) h =
    rw (copy_elements-all size elements h.1) (ground (arith, h.0))

last_size-all :
    (size : ℕ) (elements : List Bytes) → Sized size elements → last_size size elements ≡ size
last_size-all size [] h = refl
last_size-all size (e ∷ elements) h = rw h.0 (last_size-all size elements h.1)

total_size-all :
    (size : ℕ) (elements : List Bytes)
    → Sized size elements
    → total_size elements ≡ length elements * size
total_size-all size [] h = omega arith
total_size-all size (e ∷ elements) h =
    omega (arith, h.0, total_size-all size elements h.1, suc-mul (length elements) size)

-- Too many elements run past the arrays, whatever their sizes.
copy_elements-over :
    (k size : ℕ) (elements : List Bytes)
    → k < length elements
    → copy_elements k size elements ≡ none
unfolding copy_elements
copy_elements-over zero size [] h = absurd (omega arith)
copy_elements-over zero size (e ∷ elements) h = refl
copy_elements-over (suc k) size [] h = refl
copy_elements-over (suc k) size (e ∷ elements) h =
    rw (copy_elements-over k size elements (omega arith)) refl

symbol_size : (k blocks size : ℕ) → 0 < blocks * k → k * (blocks * size) / (blocks * k) ≡ size
symbol_size k blocks size h =
    let same : k * (blocks * size) ≡ size * (blocks * k) =
      sym (mul_assoc k blocks size)
      ∙ mul_comm (k * blocks) size
      ∙ ap (λ m. size * m) (mul_comm k blocks) in
    ap (λ m. m / (blocks * k)) same ∙ mul-div_cancel size h

module _ (Z : Zhash) (received_data : Z.Table (List Bytes)) (key : Bytes) (info : EncodeData)
    (elements : List Bytes) (there : Z.lookup received_data key ≡ some elements) where
  pub get_encoded_info_lem :
      (size : ℕ)
      → Sized (info.num_blocks * size) elements
      → length elements ≡ info.k
      → 0 < info.num_blocks * info.k
      → get_encoded_info Z received_data key info
        ≡ some (record info { encoded_data = elements; encoded_symbol_size = size })
  unfolding get_encoded_info
  get_encoded_info_lem size sized count some_blocks =
      let last : last_size 0 elements ≡ info.num_blocks * size =
        last_of elements (info.num_blocks * size) sized
          (positive info.num_blocks info.k (length elements) some_blocks count) in
      let copied : copy_elements info.k (info.num_blocks * size) elements ≡ some elements =
        rw (← count) (copy_elements-all (info.num_blocks * size) elements sized) in
      let nonzero : (info.num_blocks * info.k == 0) ≡ false = ground arith in
      let total : total_size elements / (info.num_blocks * info.k) ≡ size =
        ap (λ m. m / (info.num_blocks * info.k))
          (total_size-all (info.num_blocks * size) elements sized
            ∙ ap (λ m. m * (info.num_blocks * size)) count)
        ∙ symbol_size info.k info.num_blocks size some_blocks in
      rw (there, last, copied, nonzero, total) refl
    where
      positive : (blocks k l : ℕ) → 0 < blocks * k → l ≡ k → 0 < l
      positive blocks zero l h e = absurd (omega arith)
      positive blocks (suc k) l h e = omega arith

      last_of : (xs : List Bytes) (m : ℕ) → Sized m xs → 0 < length xs → last_size 0 xs ≡ m
      last_of [] m h pos = absurd (omega arith)
      last_of (x ∷ xs) m h pos = rw h.0 (last_size-all m xs h.1)

  -- More elements than there are arrays are written past them.
  pub get_encoded_info-overruns :
      info.k < length elements → get_encoded_info Z received_data key info ≡ none
  unfolding get_encoded_info
  get_encoded_info-overruns h =
      rw (there, copy_elements-over info.k (last_size 0 elements) elements h) refl
