-- ===== src/Servers/Names.antt =====
-- The text of the servers, made of addresses by `get_servers_str` of src/utilities/helpers.c, is
-- counted and split again by src/utilities/algo_utils.c.
use mathlib.Core.List.{append_assoc, append-nil}
use colas.Common.{
  suc, ◌*◌, ◌≤◌, ◌<◌, ◌≡◌, refl, ap, sym, ◌∙◌, false, some, List, [], ◌∷◌, ◌++◌, ◌>>=◌, ◌==◌, arith,
  Bytes, length, length-append, All, fits, fits_some,
}
use colas.Servers.{
  behind_space, get_servers_str, count_spaces, count_num_servers, split_names, create_server_names,
  unless_end,
}

-- An address without a space, of 1 to 15 bytes.
pub record IsAddress (a : Bytes) : Type 0 where
  pub no_space : All (λ b. (b == b' ') ≡ false) a
  pub some_bytes : 0 < length a
  pub short : length a < 16

split-name :
    (name a s : Bytes)
    → All (λ b. (b == b' ') ≡ false) a
    → split_names name (a ++ s) ≡ split_names (name ++ a) s
unfolding split_names
split-name name [] s h = ap (λ n. split_names n s) (sym (append-nil name))
split-name name (b ∷ a) s h =
    rw h.0 (
      split-name (name ++ b ∷ []) a s h.1
      ∙ ap (λ n. split_names n s) (append_assoc name (b ∷ []) a))

count_spaces-name :
    (a s : Bytes) → All (λ b. (b == b' ') ≡ false) a → count_spaces (a ++ s) ≡ count_spaces s
unfolding count_spaces
count_spaces-name [] s h = refl
count_spaces-name (b ∷ a) s h = rw h.0 (count_spaces-name a s h.1)

count_spaces-behind :
    (addresses : List Bytes)
    → All IsAddress addresses
    → count_spaces (behind_space addresses) ≡ length addresses
unfolding count_spaces
count_spaces-behind [] h = refl
count_spaces-behind (a ∷ addresses) h =
    ap suc (
      count_spaces-name a (behind_space addresses) h.0.no_space ∙ count_spaces-behind addresses h.1)

length-behind_space :
    (addresses : List Bytes)
    → All IsAddress addresses
    → length (behind_space addresses) ≤ 16 * length addresses
length-behind_space [] h = omega arith
length-behind_space (a ∷ addresses) h =
    omega (
      arith,
      h.0.short,
      length-append a (behind_space addresses),
      length-behind_space addresses h.1,
    )

split-behind :
    (a : Bytes) (addresses : List Bytes)
    → All IsAddress (a ∷ addresses)
    → split_names [] (a ++ behind_space addresses) ≡ some (a ∷ addresses)
split-behind a [] h =
    split-name [] a [] h.0.no_space ∙ (unfold split_names in rw (fits_some 16 a h.0.short) refl)
split-behind a ([] ∷ addresses) h = absurd (omega (arith, h.1.0.some_bytes))
split-behind a ((b ∷ more) ∷ addresses) h =
    split-name [] a (behind_space ((b ∷ more) ∷ addresses)) h.0.no_space
    ∙ rw
        (
          split_at_space a ((b ∷ more) ++ behind_space addresses),
          fits_some 16 a h.0.short,
          split-behind (b ∷ more) addresses h.1,
        )
        refl
  where
    split_at_space :
        (name s : Bytes)
        → split_names name (b' ' ∷ s) ≡ (
            fits 16 name >>= λ copied.
            (unless_end s (split_names [] s) >>= λ names. some (copied ∷ names)))
    split_at_space name s = unfold split_names in refl

-- Of addresses of 1 to 15 bytes without spaces, `get_servers_str` makes a text that fits its
-- memory, in which `count_num_servers` counts them and which `create_server_names` splits into
-- them again.
pub create_server_names-get_servers_str :
    (a : Bytes) (addresses : List Bytes)
    → All IsAddress (a ∷ addresses)
    → (s : Bytes) × (get_servers_str (a ∷ addresses) ≡ some s)
      × (count_num_servers s ≡ length (a ∷ addresses))
      × (create_server_names s ≡ some (a ∷ addresses))
unfolding get_servers_str
create_server_names-get_servers_str [] addresses h = absurd (omega (arith, h.0.some_bytes))
create_server_names-get_servers_str (b ∷ a) addresses h = (
  (b ∷ a) ++ behind_space addresses,
  fits_some (16 * length ((b ∷ a) ∷ addresses)) ((b ∷ a) ++ behind_space addresses) (
      omega (
        arith,
        h.0.short,
        length-append (b ∷ a) (behind_space addresses),
        length-behind_space addresses h.1,
      )),
  unfold count_num_servers in
      omega (
        arith,
        count_spaces-name (b ∷ a) (behind_space addresses) h.0.no_space,
        count_spaces-behind addresses h.1,
      ),
  unfold create_server_names in split-behind (b ∷ a) addresses h,
)
