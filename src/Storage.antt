-- ===== src/Storage.antt =====
-- pkg/storage: the users, topics, messages and likes that a node keeps.
pub mod Types
pub mod Users
pub mod Topics
pub mod Messages
pub mod Reads
pub mod Valid
pub mod Likes
pub mod Posts
pub mod Scan
pub mod Authors
pub mod Several
pub mod Effects
