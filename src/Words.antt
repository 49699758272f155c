-- ===== src/Words.antt =====
-- The phases, algorithms and frame names that src/utilities/algo_utils.h defines.
use colas.Common.{Bytes, codes, ℕ}

abbrev pub write_value : Bytes
write_value = codes "WRITE_VALUE"

abbrev pub get_tag : Bytes
get_tag = codes "GET_TAG"

abbrev pub get_tag_value : Bytes
get_tag_value = codes "GET_TAG_VALUE"

abbrev pub write_get : Bytes
write_get = codes "WRITE_GET"

abbrev pub write_put : Bytes
write_put = codes "WRITE_PUT"

abbrev pub read_complete : Bytes
read_complete = codes "READ_COMPLETE"

abbrev pub read_get : Bytes
read_get = codes "READ_GET"

abbrev pub read_value : Bytes
read_value = codes "READ_VALUE"

abbrev pub read_disperse : Bytes
read_disperse = codes "READ_DISPERSE"

abbrev pub meta_read_tag : Bytes
meta_read_tag = codes "META_READ_TAG"

abbrev pub meta_send_tag : Bytes
meta_send_tag = codes "META_SEND_TAG"

abbrev pub meta_readerid : Bytes
meta_readerid = codes "META_READERID"

abbrev pub serverid : Bytes
serverid = codes "SERVERID"

abbrev pub clientid : Bytes
clientid = codes "CLIENTID"

abbrev pub object : Bytes
object = codes "OBJECT"

abbrev pub algorithm : Bytes
algorithm = codes "ALGORITHM"

abbrev pub opnum : Bytes
opnum = codes "OPNUM"

abbrev pub payload : Bytes
payload = codes "PAYLOAD"

abbrev pub phase : Bytes
phase = codes "PHASE"

abbrev pub sender : Bytes
sender = codes "SENDER"

abbrev pub tag : Bytes
tag = codes "TAG"

abbrev pub acknowledge : Bytes
acknowledge = codes "acknowledge"

abbrev pub success : Bytes
success = codes "SUCCESS"

abbrev pub sodaw : Bytes
sodaw = codes "SODAW"

abbrev pub abd : Bytes
abd = codes "ABD"

abbrev pub bufsize : ℕ
bufsize = 100
