-- ===== src/Client.antt =====
-- What the clients of both algorithms share: the loop that receives replies until there are enough,
-- as it stands in each phase of src/abd and src/sodaw, and the size of a majority.
pub mod Loop
pub mod Polls
pub mod Reply
pub mod Print
pub mod Majority
