-- ===== src/Servers.antt =====
-- The list of servers: `get_servers_str` of src/utilities/helpers.c, and `count_num_servers`,
-- `create_server_names`, `create_destinations` and `create_destination` of
-- src/utilities/algo_utils.c. `none` is a write past a buffer or a read past an array.
pub mod Names
pub mod Destinations
use colas.Common.{
  ℕ, zero, suc, ◌+◌, ◌*◌, Option, none, some, List, [], ◌∷◌, ◌++◌, ◌>>=◌, ◌==◌, if◌then◌else◌,
  Bytes, length, fits, codes,
}

-- The addresses behind the first one, each behind a space.
abbrev pub behind_space : List Bytes → Bytes
behind_space [] = []
behind_space (a ∷ addresses) = b' ' ∷ (a ++ behind_space addresses)

-- The text goes into 16 bytes for each server; of no server, the first address is read.
unfoldable pub get_servers_str : List Bytes → Option Bytes
get_servers_str [] = none
get_servers_str (a ∷ addresses) = fits (16 * length (a ∷ addresses)) (a ++ behind_space addresses)

unfoldable pub count_spaces : Bytes → ℕ
count_spaces [] = 0
count_spaces (b ∷ s) = if b == b' ' then suc (count_spaces s) else count_spaces s

unfoldable pub count_num_servers : Bytes → ℕ
unfolding count_spaces
count_num_servers [] = 0
count_num_servers (b ∷ s) = 1 + count_spaces (b ∷ s)

-- A text that ends behind a space has no name there.
abbrev pub unless_end : Bytes → Option (List Bytes) → Option (List Bytes)
unless_end [] names = some []
unless_end (b ∷ s) names = names

-- The loops of `create_server_names`, with what has been copied of a name. A name and its NUL go into
-- 16 bytes.
unfoldable pub split_names : Bytes → Bytes → Option (List Bytes)
split_names name [] = do copied ← fits 16 name; some (copied ∷ [])
split_names name (b ∷ s) =
    let next = split_names [] s in
    let longer = split_names (name ++ b ∷ []) s in
    if b == b' '
    then (do copied ← fits 16 name; names ← unless_end s next; some (copied ∷ names))
    else longer

unfoldable pub create_server_names : Bytes → Option (List Bytes)
unfolding split_names
create_server_names [] = some []
create_server_names (b ∷ s) = split_names [] (b ∷ s)

-- The bytes that `create_destinations` allocates, but for the NUL.
abbrev pub destinations_size : List Bytes → Bytes → ℕ
destinations_size [] port = 0
destinations_size (s ∷ servers) port =
    length s + length port + 1 + 1 + destinations_size servers port

-- The first server stands behind the type, all others behind a comma.
abbrev pub written_destinations : ℕ → List Bytes → Bytes → Bytes
written_destinations mark [] port = []
written_destinations mark (s ∷ servers) port =
    mark ∷ (s ++ b':' ∷ (port ++ written_destinations b',' servers port))

unfoldable pub create_destinations : List Bytes → Bytes → ℕ → Option Bytes
create_destinations servers port type =
    fits (destinations_size servers port + 1) (written_destinations type servers port)

unfoldable pub create_destination : Bytes → Bytes → Option Bytes
create_destination server port =
    fits (length server + length port + 8) (codes "tcp://" ++ server ++ b':' ∷ port)
