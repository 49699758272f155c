-- ===== src/Sodaw.antt =====
-- The SODAW algorithm, of src/sodaw.
pub mod History
pub mod Server
pub mod Dispatch
pub mod Clear
pub mod Filed
pub mod Reads
pub mod Relays
pub mod Late
pub mod Relaying
pub mod Put
pub mod Stored
pub mod Serve
pub mod Refinement
pub mod Client
pub mod Reader
pub mod Phases
pub mod Writer
pub mod Elements
pub mod Info
pub mod Shares
pub mod Operations
pub mod Read
pub mod Short
pub mod Tags
pub mod Asked
pub mod System
pub mod Quorum
pub mod Atomic
pub mod Sent
pub mod Sends
pub mod Ready
pub mod Only
pub mod Whole
pub mod Gathered
pub mod PutPhase
