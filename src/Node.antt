-- ===== src/Node.antt =====
-- pkg/server: a data server, one node of the chain.
pub mod State
pub mod Apply
pub mod Replay
pub mod Acks
pub mod Replicate
pub mod Writes
pub mod Reads
pub mod Neighbors
pub mod Steps
pub mod Safety
pub mod Growth
pub mod Progress
pub mod Streams
pub mod Drains
pub mod Answers
pub mod Wakeups
pub mod Joins
pub mod Stats
pub mod Told
