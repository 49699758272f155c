-- ===== src/Examples/Servers.antt =====
-- The text of three servers, and their destinations.
use colas.Common.{fits, ◌≡◌, refl, arith, some, List, [], ◌∷◌, ◌++◌, Bytes, codes, length, All}
use colas.Servers.{
  get_servers_str, count_num_servers, create_server_names, create_destinations, create_destination,
  written_destinations, destinations_size,
}
use colas.Servers.Destinations.{create_destinations_fits}
use colas.Servers.Names.{IsAddress, create_server_names-get_servers_str}

abbrev addresses : List Bytes
addresses = codes "172.17.0.2" ∷ codes "172.17.0.3" ∷ codes "172.17.0.4" ∷ []

first-IsAddress : (b : Bytes) → (b ≡ codes "172.17.0.2") → IsAddress b
first-IsAddress b e = record {
  no_space =
      rw e (refl, (refl, (refl, (refl, (refl, (refl, (refl, (refl, (refl, (refl, tt))))))))));
  some_bytes = rw e (omega arith);
  short = rw e (omega arith);
}

addresses-IsAddress : All IsAddress addresses
addresses-IsAddress = (
  first-IsAddress _ refl,
  (
    record {
      no_space = (refl, (refl, (refl, (refl, (refl, (refl, (refl, (refl, (refl, (refl, tt))))))))));
      some_bytes = omega arith;
      short = omega arith;
    },
    (
      record {
        no_space =
            (refl, (refl, (refl, (refl, (refl, (refl, (refl, (refl, (refl, (refl, tt))))))))));
        some_bytes = omega arith;
        short = omega arith;
      },
      tt,
    ),
  ),
)

create_server_names-get_servers_str_example :
    (s : Bytes) × (get_servers_str addresses ≡ some s)
    × (count_num_servers s ≡ 3)
    × (create_server_names s ≡ some addresses)
create_server_names-get_servers_str_example =
    create_server_names-get_servers_str (codes "172.17.0.2")
      (codes "172.17.0.3" ∷ codes "172.17.0.4" ∷ []) addresses-IsAddress

create_destinations_fits_example :
    (create_destinations addresses (codes "8081") b'@'
      ≡ some (written_destinations b'@' addresses (codes "8081")))
    × (length (written_destinations b'@' addresses (codes "8081"))
        ≡ destinations_size addresses (codes "8081"))
    × (create_destination (codes "172.17.0.2") (codes "8081")
        ≡ some (codes "tcp://" ++ codes "172.17.0.2" ++ b':' ∷ codes "8081"))
create_destinations_fits_example =
    create_destinations_fits addresses (codes "172.17.0.2") (codes "8081") b'@'

-- A space at the end has no server behind it.
test_trailing : create_server_names (codes "a b ") ≡ some (codes "a" ∷ codes "b" ∷ [])
unfolding create_server_names fits
test_trailing = refl

test_destinations :
    create_destinations (codes "a" ∷ codes "b" ∷ []) (codes "81") b'@' ≡ some (codes "@a:81,b:81")
unfolding create_destinations fits
test_destinations = refl
