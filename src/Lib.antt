-- ===== src/Lib.antt =====
-- COLAS: the ABD register and SODAW, servers and clients, their messages, tags and store.
--
-- COLAS keeps objects on several servers. A writer asks a majority for their tags, makes a greater
-- tag, and sends its value to all servers until a majority has acknowledged it. A reader asks for
-- tags and values, takes the latest, and writes back before it returns. Messages are lists of frames
-- over ZeroMQ; a server keeps the frames of a message, and its objects, in CZMQ's hash tables.
--
-- The files, and the code that each models:
--   Common   shared lists, tests, integers, and C strings (`strcmp` as the byte difference that glibc
--            returns). `none` in an `Option` is a failed `assert`, an exit, or undefined behaviour.
--   Words    the phase and frame names of src/utilities/algo_utils.h
--   Tag      `Tag`, `compare_tags`, `compare_tag_ptrs`, `get_max_tag`, `tag_to_string`,
--            `string_to_tag` of src/utilities/algo_utils.c
--   Zhash    `zhash_t` of CZMQ, which the repository only calls: a parameter, with the laws of its
--            manual, and an association list that meets them
--   Wire     frames: `send_multicast_servers`, `send_multisend_servers`,
--            `receive_message_frames_at_client` (src/baseprocess/client.c), `send_frames_at_server`,
--            `receive_message_frames_at_server` (src/baseprocess/server.c), `md_meta_send`
--            (src/utilities/md-primitive.c), `get_string_frame`, `get_uint_frame`,
--            `print_out_hash_in_order` (src/utilities/algo_utils.c)
--   Store    `create_object`, `store_payload` (src/baseprocess/server.c), `has_object`,
--            `get_object_tag` (src/utilities/algo_utils.c), and the view of a store as a map
--   Client   the loop in which every phase waits for a majority of replies, and the replies
--   Abd      Server: src/abd/abd_server.c. Spec: the abstract map. Handlers, Refinement: the server
--            implements it. Client: src/abd/abd_client.c, abd_writer.c, abd_reader.c. Phases, Ends,
--            Latest, Tags, Operations: what the clients come to. Replies, System, Quorum, Atomic,
--            Only, Whole: several servers. Faults: where the code departs from what it means to do.
--   Sodaw    src/sodaw/sodaw_server.c. History: the table of relays. Server, Dispatch: the handlers.
--            Clear, Filed, Reads, Relays, Late, Relaying, Put, Stored, Serve, Refinement: what they
--            come to. Client, Reader: src/sodaw/sodaw_client.c, sodaw_writer.c, sodaw_reader.c.
--            Phases, PutPhase, Writer, Elements, Gathered, Info, Shares, Operations, Read: what the
--            clients come to. Short: a reader with too few arrays. Ready, Tags, Asked, Sent, Sends,
--            Only: what a server sends. System, Quorum, Atomic, Whole: several servers.
--   Codec    `encode`, `decode` (src/codes/rlnc_rs.cpp), `create_EncodeData`
--            (src/utilities/helpers.c). Blocks, Stripes, Read, RoundTrip: that they undo each other
--   Servers  the text of the servers and their destinations, src/utilities/algo_utils.c and
--            src/utilities/helpers.c
--   Worker   `server_worker` of src/baseprocess/server.c
--   Examples tests and concrete inputs
--
-- State: the server is a record with the table of objects, passed through each handler, which also
-- returns the messages that it sends. The loops of the clients recurse on the list of messages that
-- arrive; a list that ends leaves them waiting. A client of SODAW that polls for 5 ms recurs on the
-- list of what its polls return, a message or nothing. Several servers are a function from their
-- number to a state, and a step lets one of them handle one request, so a run is any order of
-- requests.
--
-- Bounds: an `unsigned int` in a frame is taken modulo 2^32; numbers of tags are `int`, and an
-- increment past INT_MAX is `none`; buffers are 100 bytes (`BUFSIZE`), 64 in `get_object_tag`, 3000 in
-- the printer. `%d` prints on a fuel of ten digits, which every `int` fits. The majority is
-- computed in floating point by the source, which is exact up to 2^24 servers. The number of blocks
-- that `create_EncodeData` computes with the ceiling of a `float` is the exact quotient here, which it
-- is for sizes that a `float` holds, as the whole kilobytes are that its callers pass. The sizes of
-- the codec, `int` in src/codes/rlnc_rs.h, are numbers without a bound.
--
-- Parameters: the hash table; the encoders and decoders of kodo, with the size of their payloads,
-- where theorems that decode suppose that the payloads of a block recover it; the number of bytes of
-- the block that `malloc(sizeof(TAG))` gives the ABD writer, which is 4 where nothing but the bytes
-- that were asked for may be written, and 24 with glibc's smallest block; and what the write-back of
-- the ABD reader gets when it copies as many bytes as a value has from the struct of its `zframe_t`:
-- `none` where those may not be read, as behind a struct that is shorter.
--
-- Not modelled: sockets, threads, clocks, log lines and signals; the counters of `Server_Status`,
-- which only the log reads; the dumps of SODAW's tables for the log (`dump_regreader` among them,
-- which prints each tag into 100 bytes); base64, a copy that only src/casgc calls; src/casgc and
-- src/soda, which are not built; the programs of src/codes that try the kodo library; the Go
-- daemons, the controller, the tools and the vendored headers.
pub mod Abd
pub mod Client
pub mod Codec
pub mod Common
pub mod Examples
pub mod Servers
pub mod Sodaw
pub mod Store
pub mod Tag
pub mod Wire
pub mod Words
pub mod Worker
pub mod Zhash
