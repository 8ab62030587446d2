-- ===== src/Storage/Valid.antt =====
-- The invariant of pkg/storage: what its maps and counters say of one another. Its children show
-- that each write keeps it.
pub mod Defs
pub mod Creates
pub mod Writes
