-- ===== src/Abd.antt =====
-- The ABD algorithm, of src/abd.
pub mod Server
pub mod Spec
pub mod Handlers
pub mod Refinement
pub mod Client
pub mod Phases
pub mod Ends
pub mod Latest
pub mod Operations
pub mod System
pub mod Quorum
pub mod Atomic
pub mod Faults
pub mod Replies
pub mod Tags
pub mod Only
pub mod Whole
