-- ===== src/Wire/Print.antt =====
-- `print_out_hash_in_order` of src/utilities/algo_utils.c, which ends the process at a payload of
-- fewer than 100 bytes.
use colas.Common.{
  Option, none, some, List, [], ◌∷◌, ◌>>=◌, if◌then◌else◌, ltb, length, Bytes, streq,
}
use colas.Wire.Read.{Frames, get_string_frame, get_uint_frame}
use colas.Words
use colas.Zhash.{Zhash}

module _ (Z : Zhash) where
  -- One line; `none` is the exit, or a read past a buffer.
  unfoldable pub print_frame : Frames Z → Bytes → Option (Unit {0})
  print_frame frames key =
      if streq key Words.opnum
      then (do temp_int ← get_uint_frame Z frames key; some tt)
      else if streq key Words.payload
      then (do frame ← Z.lookup frames key; if ltb (length frame) 100 then none else some tt)
      else (do buf ← get_string_frame Z 3000 frames key; some tt)

  unfoldable pub print_out_hash_in_order : Frames Z → List Bytes → Option (Unit {0})
  print_out_hash_in_order frames [] = some tt
  print_out_hash_in_order frames (key ∷ names) =
      let rest = print_out_hash_in_order frames names in do line ← print_frame frames key; rest
