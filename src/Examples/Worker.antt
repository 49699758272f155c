-- ===== src/Examples/Worker.antt =====
-- A server process that takes a write of each algorithm and a question.
use colas.Common.{◌≡◌, refl, false, arith, none, some, List, [], ◌∷◌, map, inl, inr, codes, All}
use colas.Tag.Decimal.{print_int, digits}
use colas.Tag.Text.{tag_text}
use colas.Abd.Server.{initialize_abd}
use colas.Sodaw.Dispatch.{initialize_sodaw}
use colas.Sodaw.Server.{SodawArgs}
use colas.Store.Entry.{View}
use colas.Wire.Delivery.{Request}
use colas.Worker.{Process, Served, server_worker}
use colas.Worker.Serves.{Message, IsServed, IsProcess, after, wire, server_worker-serves}
use colas.Zhash.Assoc.{assoc, find}
use colas.Examples.Data.{object, blob, written_tag, text, reads_text}

abbrev worker_args : SodawArgs
worker_args = record { server_id = codes "s0"; init_data = blob; num_servers = 3 }

abbrev nothing : View
nothing o = none

abbrev process : Process assoc
process = record {
  abd = record { initialized = false; objects = [] };
  sodaw = record {
    initialized = false;
    server = record {
      objects = [];
      reading = [];
      readed = [];
      history = [];
      to_clients = [];
      to_servers = [];
    };
  };
}

abbrev from_writer : Request → Message
from_writer q = record { sender = codes "id"; client = codes "w0"; object = object; request = q }

abbrev messages : List Message
messages =
    from_writer (Request.write_value 1 text blob)
    ∷ from_writer (Request.write_put 3 text blob)
    ∷ from_writer (Request.get_tag 4)
    ∷ []

text_printed : text ≡ tag_text written_tag
unfolding tag_text print_int digits
text_printed = refl

messages-IsServed : All IsServed messages
messages-IsServed = (
  record {
    sender = (omega arith, omega arith);
    client = (omega arith, omega arith);
    object = (omega arith, omega arith);
    request = inl (written_tag, reads_text, omega arith, omega arith);
  },
  (
    record {
      sender = (omega arith, omega arith);
      client = (omega arith, omega arith);
      object = (omega arith, omega arith);
      request = inr (written_tag, reads_text, text_printed, omega arith, omega arith);
    },
    (
      record {
        sender = (omega arith, omega arith);
        client = (omega arith, omega arith);
        object = (omega arith, omega arith);
        request = inl tt;
      },
      tt,
    ),
  ),
)

process-IsProcess : IsProcess assoc process (record { abd = nothing; sodaw = nothing })
unfolding initialize_abd initialize_sodaw find
process-IsProcess = record {
  abd = λ o. tt;
  sodaw = record {
    shows = λ o. tt;
    printed = λ name e q. absurd (cc q);
    tables = record { filed = λ id. tt; only_one = λ id. tt; open_history = λ k. tt };
  };
}

server_worker-serves_example :
    (s : Served assoc) × (server_worker assoc worker_args process (map wire messages) ≡ some s)
    × IsProcess assoc s.process
        (after blob messages messages-IsServed (record { abd = nothing; sodaw = nothing }))
server_worker-serves_example =
    server_worker-serves assoc worker_args messages messages-IsServed process
      (record { abd = nothing; sodaw = nothing }) process-IsProcess
