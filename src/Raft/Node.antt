-- ===== src/Raft/Node.antt =====
-- src/raft/raft.go: the peer as the service and the clock see it, and its life from Make to Kill.
pub mod Later
pub mod Start
pub mod Applier
use raft_kvs.Base.{
  ℕ, ◌+◌, ◌-◌, ◌*◌, ◌%◌, ℤ, pos, minus_one, ◌+ℤ◌, ltb_ℤ, leb_ℤ, leb, Bool, true, false, ◌&&◌, not,
  List, [], ◌∷◌, ◌++◌, map, length, take, drop, none, some, Outcome, ok, blocks, to_bound, store,
  ◌>>=◌, if◌then◌else◌,
}
use raft_kvs.Persister.{Persister, read_raft_state}
use raft_kvs.Raft.Types.{Raft, follower, is_leader, LogEntry, applied, abort_msg, Gob}
use raft_kvs.Raft.Log.{last_log_index}
use raft_kvs.Raft.Persist.{persist, read_persist}
use raft_kvs.Raft.Broadcast.{broadcast}
use raft_kvs.Raft.Election.{start_election}

-- 300 to 500 ms in ns, from the random number `r`
unfoldable pub election_timeout : ℕ → ℕ
election_timeout r = (300 + r % 200) * 1_000_000

module _ {C : Type 0} where
  -- `GetState`
  unfoldable pub get_state : Raft C → ℤ × Bool
  get_state rf = (rf.current_term, is_leader rf.state)

  -- `LeaderId` (leader_election.go)
  unfoldable pub leader_id : Raft C → ℤ
  leader_id rf = rf.leader_id

  -- `Snapshot` (log_compaction.go) does nothing.
  unfoldable pub snapshot : ℤ → List ℕ → Raft C → Raft C
  snapshot index bytes rf = rf

  -- `abortPendingCommands`: the loop starts behind `lastApplied`.
  unfoldable pub abort_pending_commands : Raft C → Outcome (Raft C)
  abort_pending_commands rf =
      if ltb_ℤ (rf.last_applied +ℤ pos 1) (pos (length rf.log))
      then (do
        n ← to_bound (rf.last_applied +ℤ pos 1)
        ok (record rf { apply_ch = rf.apply_ch ++ map (λ e. abort_msg e.command) (drop n rf.log) }))
      else ok rf

  -- `Kill`
  unfoldable pub kill : Raft C → Outcome (Raft C)
  kill rf = abort_pending_commands (record rf { dead = true })

  -- `killed`
  unfoldable pub killed : Raft C → Bool
  killed rf = rf.dead

  -- `applier`, under the lock: the slice of committed entries to send, with the index of the first.
  -- It waits, `blocks` here, while the peer is alive and nothing is committed that is not applied.
  unfoldable pub applier_batch : Raft C → Outcome (ℤ × List (LogEntry C))
  unfolding killed
  applier_batch rf =
      let start = rf.last_applied +ℤ pos 1 in
      let end = rf.commit_index in
      if leb_ℤ rf.commit_index rf.last_applied && not (killed rf)
      then blocks
      else if leb_ℤ start end && leb_ℤ (pos 0) start && ltb_ℤ end (pos (length rf.log))
      then (do
        n ← to_bound start
        m ← to_bound (end +ℤ pos 1)
        ok (start, take (m - n) (drop n rf.log)))
      else ok (start, [])

  -- `applier`, for one entry of the slice: the message, then `lastApplied`.
  unfoldable pub apply_entry : ℤ → LogEntry C → Raft C → Raft C
  apply_entry index e rf = record rf {
    apply_ch = rf.apply_ch ++ applied e.command index ∷ [];
    last_applied = index;
  }

  -- `applier`, for a whole slice while nothing else runs.
  unfoldable pub apply_all : ℤ → List (LogEntry C) → Raft C → Raft C
  unfolding apply_entry
  apply_all index [] rf = rf
  apply_all index (e ∷ es) rf = apply_all (index +ℤ pos 1) es (apply_entry index e rf)

  -- The peer of `Make` before it reads its disk.
  abbrev pub fresh : ℕ → ℕ → Persister → ℕ → Raft C
  fresh peers me persister now = record {
    peers = peers;
    persister = persister;
    me = me;
    dead = false;
    current_term = pos 0;
    voted_for = minus_one;
    log = record { term = pos 0; command = none } ∷ [];
    commit_index = pos 0;
    last_applied = pos 0;
    next_index = [];
    match_index = [];
    state = follower;
    last_heartbeat_time = now;
    leader_id = pos 0;
    last_heartbeat_sent = 0;
    apply_ch = [];
    apply_cond = 0;
    calls = [];
  }

module _ {C : Type 0} ⦃g : Gob C⦄ where
  -- What a leader's `Start` does before it broadcasts.
  unfoldable pub append_command : C → ℤ → Raft C → Outcome (Raft C)
  append_command command index rf = do
    matches ← store rf.match_index rf.me index
    nexts ← store rf.next_index rf.me (index +ℤ pos 1)
    ok (
        persist (record rf {
          log = rf.log ++ record { term = rf.current_term; command = some command } ∷ [];
          match_index = matches;
          next_index = nexts;
        }))

  -- `Start`: the index and the term of the command, and whether this peer is the leader.
  unfoldable pub start : C → Raft C → Outcome (Raft C × (ℤ × ℤ × Bool))
  unfolding append_command
  start command rf =
      if is_leader rf.state
      then (do
        let index = last_log_index rf.log +ℤ pos 1
        rf1 ← append_command command index rf
        rf2 ← broadcast rf1
        ok (rf2, (index, rf.current_term, true)))
      else ok (rf, (minus_one, rf.current_term, false))

  -- `sendHeartbeats`, and the time of the last round, under a lock that the ticker takes again for it;
  -- only the ticker and a new leader write that time.
  unfoldable pub heartbeat : ℕ → Raft C → Outcome (Raft C)
  heartbeat now rf = do rf1 ← broadcast rf; ok (record rf1 { last_heartbeat_sent = now })

  -- One round of `ticker`, which takes the lock three times while other goroutines may act. First it
  -- reads the state, as `is_leader` of it. Then, at the time `now` and with the random number `r`, it
  -- finds whether something is due.
  unfoldable pub tick_due : Bool → ℕ → ℕ → Raft C → Bool
  unfolding election_timeout
  tick_due true now r rf = leb 100_000_000 (now - rf.last_heartbeat_sent)
  tick_due false now r rf = leb (election_timeout r) (now - rf.last_heartbeat_time)

  -- The end of the round, when something is due, on the state that the lock gives then: heartbeats
  -- or an election, by the state that was read first.
  unfoldable pub tick_act : Bool → ℕ → Raft C → Outcome (Raft C)
  unfolding heartbeat
  tick_act true now rf = heartbeat now rf
  tick_act false now rf = ok (start_election now rf).0

  -- `Make`
  unfoldable pub make : ℕ → ℕ → Persister → ℕ → Outcome (Raft C)
  unfolding read_persist read_raft_state
  make peers me persister now =
      read_persist (read_raft_state persister) (fresh peers me persister now)
