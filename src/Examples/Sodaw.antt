-- ===== src/Examples/Sodaw.antt =====
-- The server of SODAW at concrete inputs.
use colas.Common.{
  ◌≡◌, refl, arith, true, false, some, none, [], ◌||◌, if◌then◌else◌, leb, fits, codes, streq, List,
  Bytes, ◌↔◌, length,
}
use colas.Tag.{init_tag}
use colas.Tag.Decimal.{print_int, digits}
use colas.Client.Majority.{majority}
use colas.Sodaw.Dispatch.{register, record_relay}
use colas.Sodaw.Filed.{IsFiled, register-IsFiled, complete-IsFiled}
use colas.Sodaw.History.{HistoryData, history_data_keystring}
use colas.Zhash.Keys.{member, distinct}
use colas.Sodaw.Relays.{recorded, RelaysWith, record_relay_lem}
use colas.Sodaw.Server.{SodawArgs, reaches, Server, complete}
use colas.Store.{Objects, create_object}
use colas.Store.Create.{initial, create_object-Shows}
use colas.Store.Entry.{View, put_entry, Shows}
use colas.Words
use colas.Zhash.Assoc.{assoc, find}
use colas.Examples.Data.{object, blob, text, init_text}

abbrev pub server_args : SodawArgs
server_args = record { server_id = codes "s0"; init_data = blob; num_servers = 3 }

abbrev pub empty : View
empty o = none

empty-Shows : Shows assoc [] empty
unfolding find
empty-Shows o = tt

is_sodaw : (streq Words.sodaw Words.abd || streq Words.sodaw Words.sodaw) ≡ true
unfolding streq
is_sodaw = refl

-- A store with the object.
pub made :
    (objects : Objects assoc) × (create_object assoc [] object Words.sodaw blob ≡ some (objects, 1))
    × Shows assoc objects (put_entry empty object (initial blob))
made = create_object-Shows assoc [] empty object Words.sodaw blob empty-Shows is_sodaw

abbrev pub view : View
view = put_entry empty object (initial blob)

pub object_there : view object ≡ some (initial blob)
unfolding streq
object_there = refl

abbrev fresh : Server assoc
fresh = record {
  objects = made.0;
  reading = [];
  readed = [];
  history = [];
  to_clients = [];
  to_servers = [];
}

fresh-IsFiled : IsFiled assoc fresh
unfolding find
fresh-IsFiled = record { filed = λ id. tt; only_one = λ id. tt; open_history = λ k. tt }

-- Reader `r1` waits for the tag in its fifth operation.
abbrev pub waiting : Server assoc
waiting = register assoc fresh init_tag (codes "r1") 5

register-IsFiled_example : IsFiled assoc (register assoc fresh init_tag (codes "r1") 5)
register-IsFiled_example =
    register-IsFiled assoc fresh init_tag (codes "r1") 5 fresh-IsFiled (omega arith)

pub waiting-IsFiled : IsFiled assoc waiting
waiting-IsFiled = register-IsFiled assoc fresh init_tag (codes "r1") 5 fresh-IsFiled (omega arith)

pub waiting-Shows : Shows assoc waiting.objects view
unfolding register
waiting-Shows = made.2

complete-IsFiled_example :
    (s : Server assoc) × (complete assoc waiting init_tag (codes "r1") 5 ≡ some s)
    × IsFiled assoc s
    × (s.objects ≡ waiting.objects)
complete-IsFiled_example = complete-IsFiled assoc waiting init_tag (codes "r1") 5 waiting-IsFiled

abbrev relay : HistoryData
relay = record {
  readerid = codes "r1";
  senderid = codes "s2";
  read_tag_str = init_text;
  send_tag_str = text;
  opnum = 5;
}

keyed : history_data_keystring relay ≡ some (codes "r1_5_s2_3_w0")
unfolding history_data_keystring print_int digits fits
keyed = refl

not_read : reaches (find waiting.readed (codes "r1")) 5 ≡ false
unfolding register find
not_read = refl

record_relay_lem_example :
    (s : Server assoc) × (found : List Bytes) × (record_relay assoc server_args waiting relay
        init_tag
      ≡ some s)
    × (distinct found ≡ true)
    × ((k : Bytes)
        → (member k found ≡ true) ↔ (
            (entry : HistoryData) × (find
                (recorded assoc waiting (codes "r1_5_s2_3_w0") relay).history
                k
              ≡ some entry)
            × RelaysWith assoc relay entry))
    × ((if leb (majority 3) (length found)
          then complete assoc
              (recorded assoc waiting (codes "r1_5_s2_3_w0") relay)
              init_tag
              (codes "r1")
              5
          else some (recorded assoc waiting (codes "r1_5_s2_3_w0") relay))
        ≡ some s)
    × IsFiled assoc s
    × (s.objects ≡ waiting.objects)
record_relay_lem_example =
    record_relay_lem assoc server_args waiting relay init_tag (codes "r1_5_s2_3_w0") waiting-IsFiled
      not_read keyed
