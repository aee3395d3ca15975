-- ===== src/Raft/Persist.antt =====
-- src/raft/persistence.go: what a peer writes to its disk, and reads after a crash.
use raft_kvs.Base.{ℕ, List, [], ◌∷◌, none, some, Outcome, ok, panics}
use raft_kvs.Persister.{save, raft_state_size}
use raft_kvs.Raft.Types.{Raft, Stored, Gob}

module _ {C : Type 0} ⦃g : Gob C⦄ where
  abbrev pub stored : Raft C → Stored C
  stored rf = record { term = rf.current_term; vote = rf.voted_for; log = rf.log }

  unfoldable pub persist : Raft C → Raft C
  unfolding save
  persist rf = record rf { persister = save (g.encode (stored rf)) [] rf.persister }

  -- `readPersist`: no bytes at all mean a first start.
  unfoldable pub read_persist : List ℕ → Raft C → Outcome (Raft C)
  read_persist [] rf = ok rf
  read_persist (b ∷ rest) rf = elim (g.decode (b ∷ rest)) [
    | none ↦ panics
    | some s ↦ ok (record rf { current_term = s.term; voted_for = s.vote; log = s.log })
  ]

  -- `PersistBytes`
  unfoldable pub persist_bytes : Raft C → ℕ
  unfolding raft_state_size
  persist_bytes rf = raft_state_size rf.persister
