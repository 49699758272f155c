-- ===== src/Examples.antt =====
-- Tests, and the theorems at concrete inputs: tags, messages, and a run of three servers.
mod Data
mod Tags
mod Abd
mod Messages
mod Run
mod Asked
mod Sodaw
mod Requests
mod Codec
mod Writer
mod Reader
mod Worker
mod Servers
mod Storage
mod After
mod Whole
mod Values
