-- ===== src/Raft/Node/Start.antt =====
-- `Start`: what a leader does with a command, and that nobody else touches its log.
use raft_kvs.Base.{
  ℤ, pos, minus_one, ◌+ℤ◌, ◌≡◌, arith, true, false, Bool, ok, List, [], ◌∷◌, ◌++◌, length,
  get_elem?, get_elem?-append_last, some,
}
use raft_kvs.Raft.Types.{Raft, LogEntry, Gob, is_leader}
use raft_kvs.Raft.Order.{IsDurable}
use raft_kvs.Raft.Log.{last_log_index}
use raft_kvs.Raft.Persist.{persist}
use raft_kvs.Raft.Broadcast.{broadcast}
use raft_kvs.Raft.Node.{start}

module _ {C : Type 0} ⦃g : Gob C⦄ where
  behind_last : (log : List (LogEntry C)) → last_log_index log +ℤ pos 1 ≡ pos (length log)
  unfolding last_log_index ◌+ℤ◌
  behind_last log = ground arith

  -- A leader's `Start` that returns puts the command at the end of the log under the leader's term,
  -- answers with the index at which it stands there and with that term, and has it on the disk.
  -- Any other peer answers -1 and false, and nothing of it changes.
  pub start_lem :
      (command : C) (rf : Raft C) {rf' : Raft C} {index term : ℤ} {leads : Bool}
      → start command rf ≡ ok (rf', (index, term, leads))
      → (leads ≡ is_leader rf.state)
        × (term ≡ rf.current_term)
        × (leads ≡ false → (rf' ≡ rf) × (index ≡ minus_one))
        × (leads ≡ true
            → (index ≡ pos (length rf.log))
              × (rf'.log ≡ rf.log ++ record { term = rf.current_term; command = some command } ∷ [])
              × (get_elem? rf'.log (length rf.log)
                  ≡ some (record { term = rf.current_term; command = some command }))
              × IsDurable rf')
  unfolding start persist broadcast
  start_lem command rf h = ground (
    arith,
    behind_last rf.log,
    get_elem?-append_last rf.log (record { term = rf.current_term; command = some command }),
  )
