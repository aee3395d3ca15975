-- ===== src/Tests/Raft.antt =====
-- Examples of a peer's operations: votes and requests of a leader.
use raft_kvs.Base.{
  ℕ, pos, minus_one, ◌+ℤ◌, ◌-ℤ◌, ◌≤ℤ◌, ◌≡◌, refl, inr, arith, true, false, List, [], ◌∷◌, ◌++◌,
  some, take, panics, ◌≢◌, In, ◌↔◌,
}
use raft_kvs.Raft.Types.{Raft, LogEntry, follower, candidate, AppendEntriesReply, abort_msg}
use raft_kvs.Raft.Order.{IsStored}
use raft_kvs.Raft.Log.{last_log_index, term_at, last_log_term, back_up, min}
use raft_kvs.Raft.Persist.{persist, read_persist}
use raft_kvs.Raft.Election.{
  become_follower, catch_up, can_vote, cast_vote, request_vote, is_log_up_to_date,
}
use raft_kvs.Raft.Append.{
  append, append_entries, accept_leader, apply_check, check_log, check_entry, truncate,
  follow_commit,
}
use raft_kvs.Raft.Election.UpToDate.{IsNoNewer, is_log_up_to_date_iff, electable}
use raft_kvs.Raft.Append.Result.{Agrees, append_entries_success}
use raft_kvs.Raft.Append.Refusal.{Refusal, append_entries_refused, append_entries_in_range}
use raft_kvs.Raft.Append.Durability.{append_entries_restart}
use raft_kvs.Raft.Append.Revote.{candidate_votes_again}
use raft_kvs.Raft.Steps.{Run, AllQuiet, here, next, restarts}
use raft_kvs.Raft.Steps.Votes.{Run-IsStored, vote_once}
use raft_kvs.Raft.Node.{make}
use raft_kvs.Tests.Samples.{
  numbers, encode, decode, encode_log, decode_log, sign, size, signed, present, content, command,
  entry, peer, ask, request,
}

abbrev pub log2 : List (LogEntry ℕ)
log2 = entry 0 0 ∷ entry 1 7 ∷ []

abbrev pub idle : Raft ℕ
idle = peer follower 1 minus_one log2

idle-IsStored : IsStored idle
idle-IsStored = inr (record { term = pos 1; vote = minus_one; log = log2 }, refl, refl, refl)

-- The peer votes for server 2 in term 2, crashes and comes back.
abbrev back : Raft ℕ
back = record (peer follower 2 (pos 2) log2) { last_heartbeat_time = 9; leader_id = pos 0 }

come_back : Run (request_vote 3 (ask 2 2) idle).0 back
unfolding request_vote cast_vote catch_up can_vote become_follower is_log_up_to_date last_log_term
    last_log_index term_at persist ◌-ℤ◌ make read_persist numbers encode decode encode_log
    decode_log sign size signed present content command
come_back = next here (restarts 9 refl)

come_back-AllQuiet : AllQuiet come_back
unfolding come_back
come_back-AllQuiet = (tt, tt)

vote_once_example : pos 2 ≡ pos 2
unfolding request_vote cast_vote catch_up can_vote become_follower is_log_up_to_date last_log_term
    last_log_index term_at persist ◌-ℤ◌
vote_once_example =
    vote_once idle back 3 12 (ask 2 2) (ask 2 2) idle-IsStored refl come_back come_back-AllQuiet
      refl refl (λ h. cc)

Run-IsStored_example : IsStored back
unfolding request_vote cast_vote catch_up can_vote become_follower is_log_up_to_date last_log_term
    last_log_index term_at persist ◌-ℤ◌ make read_persist numbers encode decode encode_log
    decode_log sign size signed present content command
Run-IsStored_example =
    Run-IsStored {a = (request_vote 3 (ask 2 2) idle).0} {b = back} come_back
      (inr (record { term = pos 2; vote = pos 2; log = log2 }, refl, refl, refl))

-- A leader of term 2 sends the follower the entries from index 1 on.
abbrev pub log3 : List (LogEntry ℕ)
log3 = entry 0 0 ∷ entry 2 8 ∷ entry 2 9 ∷ []

abbrev pub tail3 : List (LogEntry ℕ)
tail3 = entry 2 8 ∷ entry 2 9 ∷ []

abbrev pub took : Raft ℕ
took = record (peer follower 2 minus_one log3) {
  last_heartbeat_time = 4;
  apply_ch = abort_msg (some 7) ∷ [];
}

abbrev pub yes_reply : ℕ → AppendEntriesReply
yes_reply t = record {
  term = pos t;
  success = true;
  conflict_term = minus_one;
  conflict_index = pos 0;
}

append_entries_success_example :
    (pos 1 ≤ℤ pos 2)
    × Agrees log2 (pos 0) (pos 0)
    × ((n : ℕ) × (pos 0 +ℤ pos 1 ≡ pos n) × (log3 ≡ take n log2 ++ tail3))
unfolding append_entries accept_leader catch_up become_follower check_log check_entry back_up
    apply_check truncate append follow_commit min last_log_index persist ◌-ℤ◌ ◌+ℤ◌
append_entries_success_example =
    append_entries_success 4 (request 2 (pos 0) 0 tail3) idle {rf' = took} {reply = yes_reply 2}
      refl refl

append_entries_in_range_example : append_entries 4 (request 2 (pos 0) 0 tail3) idle ≢ panics
unfolding ◌+ℤ◌
append_entries_in_range_example = append_entries_in_range 4 1 (request 2 (pos 0) 0 tail3) idle refl

-- The follower's entry at index 1 is of term 1, and the leader has term 2 there.
abbrev refused : Raft ℕ
refused = record (peer follower 2 minus_one log2) { last_heartbeat_time = 4 }

append_entries_refused_example :
    (log2 ≡ log2)
    × (pos 0 ≡ pos 0)
    × (idle.apply_ch ≡ [])
    × (pos 1 ≡ pos 1)
    × Refusal log2
        (pos 1)
        (pos 2)
        (record { term = pos 1; success = false; conflict_term = pos 1; conflict_index = pos 1 })
unfolding append_entries accept_leader catch_up become_follower check_log check_entry back_up
    apply_check truncate append follow_commit min last_log_index persist ◌-ℤ◌ ◌+ℤ◌
append_entries_refused_example =
    append_entries_refused 4 (request 2 (pos 1) 2 []) idle {rf' = refused}
      {reply = record {
        term = pos 1;
        success = false;
        conflict_term = pos 1;
        conflict_index = pos 1;
      }}
      refl refl (ground arith)

-- A heartbeat for index 0 of the same term takes the entry at index 1 away, but not off the disk.
abbrev shrunk : Raft ℕ
shrunk = record idle {
  log = entry 0 0 ∷ [];
  last_heartbeat_time = 4;
  apply_ch = abort_msg (some 7) ∷ [];
}

abbrev restarted : Raft ℕ
restarted = record idle { last_heartbeat_time = 9; leader_id = pos 0 }

append_entries_restart_example : (shrunk.log ≡ take 1 idle.log) × (restarted.log ≡ idle.log)
unfolding append_entries accept_leader catch_up become_follower check_log check_entry back_up
    apply_check truncate append follow_commit min last_log_index persist ◌-ℤ◌ ◌+ℤ◌ make read_persist
    numbers encode decode encode_log decode_log sign size signed present content command
append_entries_restart_example =
    append_entries_restart 4 9 1 (request 1 (pos 0) 0 []) idle {rf' = shrunk} {b = restarted}
      {reply = yes_reply 1} refl refl refl refl refl refl

-- The candidate of term 2, which voted for itself, hears from the leader of term 2.
abbrev pub runner : Raft ℕ
runner = peer candidate 2 (pos 0) log2

abbrev beaten : Raft ℕ
beaten = record (peer follower 2 minus_one log2) { last_heartbeat_time = 4 }

candidate_votes_again_example :
    (pos 2 ≡ pos 2)
    × (minus_one ≡ minus_one)
    × ((request_vote 6 (ask 2 2) beaten).1.vote_granted ≡ true)
unfolding append_entries accept_leader catch_up become_follower check_log check_entry back_up
    apply_check truncate append follow_commit min last_log_index persist ◌-ℤ◌ ◌+ℤ◌ request_vote
    cast_vote can_vote is_log_up_to_date last_log_term term_at
candidate_votes_again_example =
    candidate_votes_again 4 6 (request 2 (pos 1) 1 []) (ask 2 2) runner {rf' = beaten}
      {reply = yes_reply 2} refl refl refl refl refl

is_log_up_to_date_iff_example :
    (is_log_up_to_date idle.log (last_log_index log2) (last_log_term log2) ≡ true)
    ↔ IsNoNewer idle.log log2
is_log_up_to_date_iff_example = is_log_up_to_date_iff idle.log log2

electable_example :
    (l : List (LogEntry ℕ)) × In l (log2 ∷ idle.log ∷ [])
    × ((m : List (LogEntry ℕ))
        → In m (log2 ∷ idle.log ∷ [])
        → is_log_up_to_date m (last_log_index l) (last_log_term l) ≡ true)
electable_example = electable log2 (idle.log ∷ [])
