-- ===== src/Raft/Broadcast.antt =====
-- src/raft/log_replication.go, the sending side: the AppendEntries that a leader makes.
use raft_kvs.Base.{
  ℕ, ℤ, pos, ◌-ℤ◌, ◌==◌, List, [], ◌∷◌, ◌++◌, range, Outcome, ok, or_panic, get_elem?, ◌>>=◌,
  if◌then◌else◌,
}
use raft_kvs.Raft.Types.{Raft, is_leader, Call, send_entries, AppendEntriesArgs}
use raft_kvs.Raft.Log.{term_at, suffix}

module _ {C : Type 0} where
  -- The AppendEntries for a follower whose next index is `next`.
  unfoldable pub append_args : Raft C → ℤ → Outcome (AppendEntriesArgs C)
  append_args rf next = do
    entries ← suffix rf.log next
    ok (record {
      term = rf.current_term;
      leader_id = pos rf.me;
      prev_log_index = next -ℤ pos 1;
      prev_log_term = term_at rf.log (next -ℤ pos 1);
      entries = entries;
      leader_commit = rf.commit_index;
    })

  -- The loop of `broadcastAppendEntries` over the other peers.
  unfoldable pub send_all : Raft C → List ℕ → Outcome (List (Call C))
  send_all rf [] = ok []
  send_all rf (i ∷ is) =
      let rest = send_all rf is in
      if i == rf.me then rest else do
        next ← or_panic (get_elem? rf.next_index i)
        args ← append_args rf next
        calls ← rest
        ok (send_entries i args ∷ calls)

  -- `broadcastAppendEntries`, and `sendHeartbeats`, which makes the same test under the lock.
  unfoldable pub broadcast : Raft C → Outcome (Raft C)
  broadcast rf =
      if is_leader rf.state
      then (do calls ← send_all rf (range rf.peers); ok (record rf { calls = rf.calls ++ calls }))
      else ok rf
