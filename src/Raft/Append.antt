-- ===== src/Raft/Append.antt =====
-- src/raft/log_replication.go, the receiving side: the AppendEntries handler.
pub mod Later
pub mod Revote
pub mod Durability
pub mod Refusal
pub mod Convergence
pub mod Result
use raft_kvs.Base.{
  ℕ, suc, ℤ, pos, negsuc, minus_one, ◌+ℤ◌, ltb_ℤ, ◌==ℤ◌, true, false, List, [], ◌∷◌, ◌++◌, map,
  length, get_elem?, take, drop, Outcome, ok, or_panic, to_bound, ◌>>=◌, if◌then◌else◌,
}
use raft_kvs.Raft.Types.{
  Raft, is_candidate, AppendEntriesArgs, AppendEntriesReply, LogEntry, abort_msg, Gob,
}
use raft_kvs.Raft.Log.{last_log_index, back_up, min}
use raft_kvs.Raft.Persist.{persist}
use raft_kvs.Raft.Election.{become_follower, catch_up}

-- The tests on `PrevLogIndex` and `PrevLogTerm`.
pub data LogCheck : Type 0 where
  too_short : (conflict_index : ℤ) → LogCheck
  conflict : (conflict_term conflict_index : ℤ) → LogCheck
  matches : LogCheck

module _ {C : Type 0} where
  -- The entry at `PrevLogIndex` against `PrevLogTerm`.
  unfoldable pub check_entry : List (LogEntry C) → ℕ → ℤ → LogEntry C → Outcome LogCheck
  check_entry log prev prev_term e =
      if e.term ==ℤ prev_term
      then ok matches
      else do first ← back_up log e.term (suc prev); ok (conflict e.term (pos first))

  check_at : List (LogEntry C) → ℤ → ℤ → Outcome LogCheck
  check_at log (negsuc n) prev_term = ok matches
  check_at log (pos prev) prev_term = do
    e ← or_panic (get_elem? log prev)
    check_entry log prev prev_term e

  unfoldable pub check_log : List (LogEntry C) → ℤ → ℤ → Outcome LogCheck
  unfolding last_log_index check_at
  check_log log prev prev_term =
      if ltb_ℤ (last_log_index log) prev
      then ok (too_short (last_log_index log +ℤ pos 1))
      else check_at log prev prev_term

  -- The entries from the insertion point on are given up, each with a message to the service. A
  -- send waits, under the lock, until the service takes the message: the result is the state when
  -- it has taken all, and where it takes none the source does not come this far.
  unfoldable pub truncate : ℤ → Raft C → Outcome (Raft C)
  truncate insert_idx rf =
      if ltb_ℤ insert_idx (pos (length rf.log))
      then (do
        n ← to_bound insert_idx
        ok (record rf {
          log = take n rf.log;
          apply_ch = rf.apply_ch ++ map (λ e. abort_msg e.command) (drop n rf.log);
        }))
      else ok rf

  -- The update of `commitIndex`.
  unfoldable pub follow_commit : ℤ → Raft C → Raft C
  follow_commit leader_commit rf =
      if ltb_ℤ rf.commit_index leader_commit
      then record rf {
        commit_index = min leader_commit (last_log_index rf.log);
        apply_cond = suc rf.apply_cond;
      }
      else rf

module _ {C : Type 0} ⦃g : Gob C⦄ where
  -- New entries are appended and stored; with none, nothing is stored.
  unfoldable pub append : List (LogEntry C) → Raft C → Raft C
  append [] rf = rf
  append (e ∷ entries) rf = persist (record rf { log = rf.log ++ (e ∷ entries) })

  -- What a request of a current leader does before the tests on the log.
  unfoldable pub accept_leader : ℕ → AppendEntriesArgs C → Raft C → Raft C
  unfolding catch_up
  accept_leader now args rf =
      let rf1 =
        catch_up args.term (record rf { last_heartbeat_time = now; leader_id = args.leader_id }) in
      if is_candidate rf1.state then become_follower args.term rf1 else rf1

  -- The rest of the handler, by the outcome of the tests; `seen` is the term first replied.
  unfoldable pub apply_check :
      AppendEntriesArgs C → ℤ → LogCheck → Raft C → Outcome (Raft C × AppendEntriesReply)
  apply_check args seen (too_short i) rf =
      ok
        (rf, record { term = seen; success = false; conflict_term = minus_one; conflict_index = i })
  apply_check args seen (conflict t i) rf =
      ok (rf, record { term = seen; success = false; conflict_term = t; conflict_index = i })
  apply_check args seen matches rf = do
    rf1 ← truncate (args.prev_log_index +ℤ pos 1) rf
    let rf2 = follow_commit args.leader_commit (append args.entries rf1)
    ok (
      rf2,
      record {
        term = rf2.current_term;
        success = true;
        conflict_term = minus_one;
        conflict_index = pos 0;
      },
    )

  -- `AppendEntries`, at the time `now`
  unfoldable pub append_entries :
      ℕ → AppendEntriesArgs C → Raft C → Outcome (Raft C × AppendEntriesReply)
  append_entries now args rf =
      if ltb_ℤ args.term rf.current_term
      then ok (
        rf,
        record {
          term = rf.current_term;
          success = false;
          conflict_term = minus_one;
          conflict_index = pos 0;
        },
      )
      else (do
        let rf1 = accept_leader now args rf
        check ← check_log rf1.log args.prev_log_index args.prev_log_term
        apply_check args rf.current_term check rf1)
