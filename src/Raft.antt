-- ===== src/Raft.antt =====
-- src/raft: one Raft peer. The types, and a child for each part of the peer.
pub mod Types
pub mod Order
pub mod Log
pub mod Persist
pub mod Broadcast
pub mod Election
pub mod Append
pub mod Replicate
pub mod Node
pub mod Steps
pub mod Exchange
pub mod Server
pub mod Cluster
pub mod History
