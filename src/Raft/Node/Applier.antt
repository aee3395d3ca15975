-- ===== src/Raft/Node/Applier.antt =====
-- The applier: committed entries reach the service once each, in the order of the log.
use raft_kvs.Base.{ℕ, suc, pos, List, [], ◌∷◌}
use raft_kvs.Raft.Types.{Raft, LogEntry, ApplyMsg, applied}

module _ {C : Type 0} where
  -- The messages for entries that start at an index.
  messages : ℕ → List (LogEntry C) → List (ApplyMsg C)
  messages i [] = []
  messages i (e ∷ es) = applied e.command (pos i) ∷ messages (suc i) es
