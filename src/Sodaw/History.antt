-- ===== src/Sodaw/History.antt =====
-- The table of relayed elements of src/sodaw/sodaw_server.c: `HistoryData`,
-- `HistoryData_keystring`, `historydata_clear_by_readerid_opnum`, `historydata_lookup`.
use colas.Common.{
  ℕ, Bool, Option, some, List, [], ◌∷◌, ◌++◌, ◌&&◌, ◌>>=◌, ◌==◌, if◌then◌else◌, leb, Bytes, fits,
  streq,
}
use colas.Tag.Decimal.{print_int, to_int}
use colas.Words.{bufsize}
use colas.Zhash.{Zhash}

pub record HistoryData : Type 0 where
  pub readerid : Bytes
  pub senderid : Bytes
  pub read_tag_str : Bytes
  pub send_tag_str : Bytes
  pub opnum : ℕ

-- `reader_op_create` prints the number with `%d`.
abbrev pub reader_op_create : Bytes → ℕ → Bytes
reader_op_create readerid opnum = readerid ++ b'_' ∷ print_int (to_int opnum)

-- The key goes through a buffer of 100 bytes.
unfoldable pub history_data_keystring : HistoryData → Option Bytes
history_data_keystring m =
    fits bufsize (reader_op_create m.readerid m.opnum ++ b'_' ∷ m.senderid ++ b'_' ∷ m.send_tag_str)

-- An entry of the reader's operations up to `opnum`.
abbrev pub is_done : Bytes → ℕ → HistoryData → Bool
is_done readerid opnum his = streq readerid his.readerid && leb his.opnum opnum

-- An entry of the reader's operation `opnum` that relays the tag.
abbrev pub is_relay : Bytes → ℕ → Bytes → HistoryData → Bool
is_relay readerid opnum tag_send_str his =
    streq readerid his.readerid && opnum == his.opnum && streq tag_send_str his.send_tag_str

module _ (Z : Zhash) where
  abbrev pub History : Type 0
  History = Z.Table HistoryData

  -- The loop over the keys deletes as it goes.
  unfoldable pub clear_keys : Bytes → ℕ → List Bytes → History → Option History
  clear_keys readerid opnum [] h = some h
  clear_keys readerid opnum (key ∷ keys) h = do
    his ← Z.lookup h key
    clear_keys readerid opnum keys (if is_done readerid opnum his then Z.delete h key else h)

  unfoldable pub history_clear : Bytes → ℕ → History → Option History
  history_clear readerid opnum h = clear_keys readerid opnum (Z.keys h) h

  unfoldable pub lookup_keys : Bytes → ℕ → Bytes → List Bytes → History → Option (List Bytes)
  lookup_keys readerid opnum tag_send_str [] h = some []
  lookup_keys readerid opnum tag_send_str (key ∷ keys) h =
      let rest = lookup_keys readerid opnum tag_send_str keys h in
      do
        his ← Z.lookup h key
        found ← rest
        some (if is_relay readerid opnum tag_send_str his then key ∷ found else found)

  unfoldable pub history_lookup : Bytes → ℕ → Bytes → History → Option (List Bytes)
  history_lookup readerid opnum tag_send_str h =
      lookup_keys readerid opnum tag_send_str (Z.keys h) h
