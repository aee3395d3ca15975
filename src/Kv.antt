-- ===== src/Kv.antt =====
-- src/kvraft1: the key/value service over the replicated log.
pub mod Server
pub mod Model
pub mod Rsm
pub mod Clerk
pub mod Composed
pub mod Counter
