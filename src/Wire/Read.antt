-- ===== src/Wire/Read.antt =====
-- Reading the frames of a message from the table that holds them.
use colas.Common.{
  ℕ, ◌%◌, ◌^◌, ◌<◌, ◌≡◌, Option, none, some, [], ◌>>=◌, arith, Bytes, fits, fits_some, c_str,
  c_str_self, IsCString, length,
}
use colas.Tag.{Tag}
use colas.Tag.Text.{string_to_tag}
use colas.Wire.Uint.{zframe_uint, uint_frame, zframe_uint-uint_frame}
use colas.Words
use colas.Zhash.{Zhash}

module _ (Z : Zhash) where
  open Z use {Table, lookup}

  -- The table of a message: the frame under each name.
  abbrev pub Frames : Type 0
  Frames = Table Bytes

  -- A frame that is missing reads as the empty string.
  unfoldable pub get_string_frame : ℕ → Frames → Bytes → Option Bytes
  get_string_frame cap frames str = elim (lookup frames str) [
    | none ↦ some []
    | some frame ↦ (do buf ← fits cap frame; some (c_str buf))
  ]

  -- `get_uint_frame` and `get_int_frame`: a frame that is missing reads as 0.
  unfoldable pub get_uint_frame : Frames → Bytes → Option ℕ
  get_uint_frame frames str = elim (lookup frames str) [
    | none ↦ some 0
    | some frame ↦ zframe_uint frame
  ]

  -- `get_tag_frame`
  unfoldable pub get_tag_frame : Frames → Option Tag
  unfolding get_string_frame
  get_tag_frame frames = do
    tag_str ← get_string_frame Words.bufsize frames Words.tag
    string_to_tag tag_str

  -- A frame that holds a C string and fits the buffer reads as that string.
  pub get_string_frame_present :
      (cap : ℕ) (frames : Frames) (name s : Bytes)
      → lookup frames name ≡ some s
      → IsCString s
      → length s < cap
      → get_string_frame cap frames name ≡ some s
  unfolding get_string_frame
  get_string_frame_present cap frames name s p c h =
      ground (arith, fits_some cap s h, c_str_self s c)

  -- A frame that `uint_frame` made reads as the low 32 bits of its number.
  pub get_uint_frame_present :
      (frames : Frames) (name : Bytes) (n : ℕ)
      → lookup frames name ≡ some (uint_frame n)
      → get_uint_frame frames name ≡ some (n % 2 ^ 32)
  unfolding get_uint_frame
  get_uint_frame_present frames name n p = rw (p, get_uint_frame) (zframe_uint-uint_frame n)
