-- ===== src/Examples/Requests.antt =====
-- Requests of SODAW at concrete inputs.
use colas.Common.{◌≡◌, refl, arith, false, some, [], ◌∷◌, ◌++◌, Bytes, codes, ◌⊎◌, strcmp}
use colas.Tag.{init_tag, compare_tags}
use colas.Tag.Decimal.{print_int, digits}
use colas.Sodaw.Dispatch.{read_value, read_disperse, SodawState, algorithm_sodaw, initialize_sodaw}
use colas.Sodaw.Filed.{IsFiled}
use colas.Sodaw.Late.{late-read_value, late-read_disperse}
use colas.Sodaw.Put.{later_entry, if_later, write_put_lem}
use colas.Sodaw.Reads.{IsTagText}
use colas.Sodaw.Relaying.{elements, dispersals, readers_at, element, dispersal}
use colas.Sodaw.Refinement.{IsServer, algorithm_sodaw-refines}
use colas.Sodaw.Serve.{IsSodaw, entry_after}
use colas.Store.Made.{entry_at}
use colas.Sodaw.Server.{Server, read_complete, write_put}
use colas.Sodaw.Stored.{IsLate, Registered, read_value-serves}
use colas.Tag.Text.{tag_text}
use colas.Store.{Objects}
use colas.Store.Create.{initial}
use colas.Store.Entry.{put_entry, Shows}
use colas.Wire.Carries.{fill, Carries-fill_new}
use colas.Wire.Delivery.{Request, algorithm_of, phase_of, body, header}
use colas.Wire.Read.{Frames}
use colas.Wire.Uint.{uint_frame}
use colas.Words
use colas.Zhash.Assoc.{assoc, find}
use colas.Examples.Data.{object, blob, written_tag, text, init_text, reads_text, reads_init}
use colas.Examples.Sodaw.{
  server_args, empty, view, object_there, waiting, waiting-IsFiled, waiting-Shows,
}

abbrev request_frames : Bytes → Bytes → Request → Frames assoc
request_frames client phase q =
    fill assoc [] (header (codes "id") client object Words.sodaw phase ++ body q)

abbrev text-IsTagText : IsTagText text
text-IsTagText = ((omega arith, omega arith), (written_tag, reads_text))

abbrev init_text-IsTagText : IsTagText init_text
init_text-IsTagText = ((omega arith, omega arith), (init_tag, reads_init))

write_put_lem_example :
    (objects : Objects assoc) × Shows assoc objects
      (put_entry view object (later_entry (initial blob) text written_tag blob))
    × (write_put assoc server_args
          (request_frames (codes "w0") Words.write_put (Request.write_put 3 text blob))
          waiting
        ≡ some (record waiting {
          objects = objects;
          to_clients =
              waiting.to_clients
              ++ if_later (initial blob) written_tag (
                  elements server_args object written_tag text blob
                    (readers_at assoc waiting.reading (assoc.keys waiting.reading)))
              ++ (codes "id"
                  ∷ codes "s0"
                  ∷ object
                  ∷ Words.sodaw
                  ∷ Words.write_put
                  ∷ uint_frame 3
                  ∷ text
                  ∷ [])
                ∷ [];
          to_servers =
              waiting.to_servers
              ++ if_later (initial blob) written_tag (
                  dispersals server_args object written_tag text blob
                    (readers_at assoc waiting.reading (assoc.keys waiting.reading)));
        }))
write_put_lem_example =
    write_put_lem assoc server_args (codes "id") (codes "w0") object text blob 3 written_tag
      (omega arith, omega arith) (omega arith, omega arith) (omega arith, omega arith) (omega arith)
      (omega arith) reads_text
      (request_frames (codes "w0") Words.write_put (Request.write_put 3 text blob))
      (Carries-fill_new assoc _) waiting view (initial blob) waiting-IsFiled waiting-Shows
      object_there

read_value-serves_example :
    (s : Server assoc) × (read_value assoc server_args
        (request_frames (codes "r1") Words.read_value (Request.read_value 6 init_text))
        waiting
      ≡ some s)
    × ((IsLate assoc waiting (codes "r1") 6 × (s ≡ waiting))
        ⊎ ((¬ IsLate assoc waiting (codes "r1") 6)
            × Registered assoc waiting s
                (record { t_r = init_tag; reader_id = codes "r1"; opnum = 6 })
                (element server_args object (codes "id") init_tag 6 blob ∷ [])
                (dispersal server_args object
                  (tag_text init_tag)
                  (codes "r1")
                  (tag_text init_tag)
                  6)))
    × Shows assoc s.objects view
    × IsFiled assoc s
unfolding compare_tags strcmp
read_value-serves_example =
    read_value-serves assoc server_args object view (initial blob) object_there refl waiting
      (codes "id") (codes "r1") init_text 6 init_text-IsTagText
      (request_frames (codes "r1") Words.read_value (Request.read_value 6 init_text))
      (omega arith, omega arith) (omega arith, omega arith) (omega arith, omega arith) (omega arith)
      (Carries-fill_new assoc _) waiting-Shows waiting-IsFiled

late-read_value_example :
    (s : Server assoc) × (read_complete assoc
        (request_frames (codes "r1") Words.read_complete (Request.read_complete 6 init_text))
        waiting
      ≡ some s)
    × (read_value assoc server_args
          (request_frames (codes "r1") Words.read_value (Request.read_value 5 init_text))
          s
        ≡ some s)
late-read_value_example =
    late-read_value assoc server_args (codes "id") (codes "r1") object init_text 6
      (omega arith, omega arith) (omega arith, omega arith) (omega arith, omega arith)
      init_text-IsTagText
      (request_frames (codes "r1") Words.read_complete (Request.read_complete 6 init_text))
      (Carries-fill_new assoc _) waiting 5 init_text init_text-IsTagText
      (request_frames (codes "r1") Words.read_value (Request.read_value 5 init_text))
      (Carries-fill_new assoc _) (omega arith)

late-read_disperse_example :
    (s : Server assoc) × (read_complete assoc
        (request_frames (codes "r1") Words.read_complete (Request.read_complete 6 init_text))
        waiting
      ≡ some s)
    × (read_disperse assoc server_args
          (request_frames
            (codes "s1")
            Words.read_disperse
            (Request.read_disperse text (codes "r1") init_text 5))
          s
        ≡ some s)
late-read_disperse_example =
    late-read_disperse assoc server_args (codes "id") (codes "r1") object init_text 6
      (omega arith, omega arith) (omega arith, omega arith) (omega arith, omega arith)
      init_text-IsTagText
      (request_frames (codes "r1") Words.read_complete (Request.read_complete 6 init_text))
      (Carries-fill_new assoc _) waiting (codes "id") (codes "s1") text init_text 5 text-IsTagText
      init_text-IsTagText
      (request_frames (codes "s1") Words.read_disperse
        (Request.read_disperse text (codes "r1") init_text 5))
      (omega arith, omega arith) (omega arith, omega arith) (Carries-fill_new assoc _) (omega arith)

-- A server before its first message.
abbrev new_sodaw : SodawState assoc
new_sodaw = record {
  initialized = false;
  server = record {
    objects = [];
    reading = [];
    readed = [];
    history = [];
    to_clients = [];
    to_servers = [];
  };
}

new_sodaw-IsServer : IsServer assoc new_sodaw empty
unfolding initialize_sodaw find
new_sodaw-IsServer = record {
  shows = λ o. tt;
  printed = λ name e q. absurd (cc q);
  tables = record { filed = λ id. tt; only_one = λ id. tt; open_history = λ k. tt };
}

text_printed : text ≡ tag_text written_tag
unfolding tag_text print_int digits
text_printed = refl

abbrev first_write : Request
first_write = Request.write_put 3 text blob

first_write-IsSodaw : IsSodaw (codes "w0") first_write
first_write-IsSodaw = (written_tag, reads_text, text_printed, omega arith, omega arith)

algorithm_sodaw-refines_example :
    (st : SodawState assoc) × (algorithm_sodaw assoc server_args
        (request_frames (codes "w0") Words.write_put first_write)
        new_sodaw
      ≡ some st)
    × IsServer assoc st (
        put_entry empty object
          (entry_after (entry_at empty object blob) (codes "w0") first_write first_write-IsSodaw))
unfolding algorithm_of phase_of
algorithm_sodaw-refines_example =
    algorithm_sodaw-refines assoc server_args (codes "id") (codes "w0") object first_write
      first_write-IsSodaw (request_frames (codes "w0") Words.write_put first_write) new_sodaw empty
      (omega arith, omega arith) (omega arith, omega arith) (omega arith, omega arith)
      (Carries-fill_new assoc _) new_sodaw-IsServer
