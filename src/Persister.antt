-- ===== src/Persister.antt =====
-- src/tester1/persister.go: the disk of one server, which survives its crashes. A byte slice is a
-- list of bytes; `clone` copies a slice, and the nil and the empty slice are one list.
use raft_kvs.Base.{ℕ, List, [], length}

pub record Persister : Type 0 where
  pub raftstate : List ℕ
  pub snapshot : List ℕ

abbrev pub make_persister : Persister
make_persister = record { raftstate = []; snapshot = [] }

-- `Copy`: the copy that a restarted server is given.
unfoldable pub copy : Persister → Persister
copy ps = record { raftstate = ps.raftstate; snapshot = ps.snapshot }

unfoldable pub read_raft_state : Persister → List ℕ
read_raft_state ps = ps.raftstate

unfoldable pub raft_state_size : Persister → ℕ
raft_state_size ps = length ps.raftstate

-- `Save`, which replaces both parts at once.
unfoldable pub save : List ℕ → List ℕ → Persister → Persister
save raftstate snapshot ps = record { raftstate = raftstate; snapshot = snapshot }

unfoldable pub read_snapshot : Persister → List ℕ
read_snapshot ps = ps.snapshot

unfoldable pub snapshot_size : Persister → ℕ
snapshot_size ps = length ps.snapshot
