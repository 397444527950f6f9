-- ===== src/Mirror.antt =====
-- mirror/: the follower of a log, and the witness that signs its subtrees.
pub mod Checkpoint
pub mod Follower
pub mod Notes
pub mod Requests
pub mod Server
mod Examples
