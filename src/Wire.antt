-- ===== src/Wire.antt =====
-- Messages and their frames: the `get_…_frame` and `insertIntoHash…` functions of
-- src/utilities/algo_utils.c, `send_multicast_servers`, `send_multisend_servers` and
-- `receive_message_frames_at_client` of src/baseprocess/client.c, and
-- `receive_message_frames_at_server` and `send_frames_at_server` of src/baseprocess/server.c.
--
-- A zframe is its bytes, a zmsg its frames from first to last, a zlist its items.
pub mod Uint
pub mod Read
pub mod Send
pub mod Carries
pub mod Receive
pub mod Delivery
pub mod Print
