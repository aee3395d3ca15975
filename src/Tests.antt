-- ===== src/Tests.antt =====
-- Examples: concrete states and parameters, and runs of the modelled code on them.
mod Samples
mod Raft
mod Leader
mod Kv
mod Net
mod Service
mod Cluster
mod History
