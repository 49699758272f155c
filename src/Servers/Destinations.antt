-- ===== src/Servers/Destinations.antt =====
-- The destinations of src/utilities/algo_utils.c fill the memory that is allocated for them.
use colas.Common.{
  ℕ, ◌+◌, ◌≡◌, refl, some, List, [], ◌∷◌, ◌++◌, arith, Bytes, length, length-append, fits_some,
  codes,
}
use colas.Servers.{destinations_size, written_destinations, create_destinations, create_destination}

length-written_destinations :
    (mark : ℕ) (servers : List Bytes) (port : Bytes)
    → length (written_destinations mark servers port) ≡ destinations_size servers port
length-written_destinations mark [] port = refl
length-written_destinations mark (s ∷ servers) port = omega (
  arith,
  length-append s (b':' ∷ (port ++ written_destinations b',' servers port)),
  length-append port (written_destinations b',' servers port),
  length-written_destinations b',' servers port,
)

-- `create_destinations` and `create_destination` never write past the memory that they allocate;
-- the destinations of servers fill theirs exactly.
pub create_destinations_fits :
    (servers : List Bytes) (server port : Bytes) (type : ℕ)
    → (create_destinations servers port type ≡ some (written_destinations type servers port))
      × (length (written_destinations type servers port) ≡ destinations_size servers port)
      × (create_destination server port ≡ some (codes "tcp://" ++ server ++ b':' ∷ port))
unfolding create_destinations create_destination
create_destinations_fits servers server port type =
    let e = length-written_destinations type servers port in
    (
      fits_some (destinations_size servers port + 1) (written_destinations type servers port)
          (omega arith),
      e,
      fits_some (length server + length port + 8) (codes "tcp://" ++ server ++ b':' ∷ port) (
          omega (
            arith,
            length-append (codes "tcp://" ++ server) (b':' ∷ port),
            length-append (codes "tcp://") server,
          )),
    )
