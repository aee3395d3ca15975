-- ===== src/Tests/Leader.antt =====
-- Examples of a leader's operations: elections, commits, new commands, and the applier.
use raft_kvs.Base.{
  ◌-◌, ◌<◌, ℕ, zero, suc, ◌-◌, ◌*◌, ◌<◌, ℤ, pos, minus_one, ◌+ℤ◌, ◌-ℤ◌, ◌≡◌, ◌≢◌, refl, arith, true,
  false, List, [], ◌∷◌, ◌++◌, some, length, get_elem?, take,
}
use raft_kvs.Raft.Types.{
  Raft, LogEntry, follower, leader, is_leader, send_entries, AppendEntriesArgs,
}
use raft_kvs.Raft.Order.{IsDurable}
use raft_kvs.Raft.Log.{last_log_index, term_at, back_up, suffix, min}
use raft_kvs.Raft.Persist.{persist}
use raft_kvs.Raft.Broadcast.{append_args, send_all, broadcast}
use raft_kvs.Raft.Election.{become_follower, catch_up, become_leader, count_vote, on_vote_reply}
use raft_kvs.Raft.Append.{
  append, append_entries, accept_leader, apply_check, check_log, check_entry, truncate,
  follow_commit,
}
use raft_kvs.Raft.Append.Convergence.{IsMatching, append_entries_converges}
use raft_kvs.Raft.Election.Majority.{on_vote_reply_elects, become_leader_lem}
use raft_kvs.Raft.Replicate.Matches.{Learned, on_append_reply-Learned}
use raft_kvs.Raft.Log.{max}
use raft_kvs.Raft.Replicate.{
  on_append_reply, record_match, advance_commit_index, count_others, can_commit, advance_from,
}
use raft_kvs.Raft.Replicate.Commit.{Advanced, advance_commit_index-Advanced}
use raft_kvs.Raft.Node.{start, append_command}
use raft_kvs.Raft.Node.Start.{start_lem}
use raft_kvs.Tests.Samples.{numbers, entry, peer}
use raft_kvs.Tests.Raft.{log2, log3, tail3, idle, took, yes_reply, runner}

-- What a leader sends for the entries behind `prev`.
abbrev sent_args : ℤ → ℕ → List (LogEntry ℕ) → AppendEntriesArgs ℕ
sent_args prev prev_term entries = record {
  term = pos 2;
  leader_id = pos 0;
  prev_log_index = prev;
  prev_log_term = pos prev_term;
  entries = entries;
  leader_commit = pos 0;
}

-- The second of three votes makes a leader.
abbrev elected : Raft ℕ
elected = record (peer leader 2 (pos 0) log2) {
  leader_id = pos 0;
  next_index = pos 2 ∷ pos 2 ∷ pos 2 ∷ [];
  match_index = pos 1 ∷ minus_one ∷ minus_one ∷ [];
  calls = send_entries 1 (sent_args (pos 1) 1 []) ∷ send_entries 2 (sent_args (pos 1) 1 []) ∷ [];
}

on_vote_reply_elects_example :
    (true ≡ true)
    × (pos 2 ≡ pos 2)
    × (true ≡ true)
    × (2 ≡ suc 1)
    × (3 < 2 * 2)
    × (elected.current_term ≡ runner.current_term)
    × (elected.voted_for ≡ runner.voted_for)
    × (elected.log ≡ runner.log)
unfolding on_vote_reply count_vote become_leader broadcast send_all append_args suffix
    last_log_index term_at ◌-ℤ◌ ◌+ℤ◌
on_vote_reply_elects_example =
    on_vote_reply_elects (record { term = pos 2; votes = 1 })
      (record { term = pos 2; vote_granted = true }) runner {rf' = elected}
      {e' = record { term = pos 2; votes = 2 }} refl refl refl

become_leader_lem_example :
    (is_leader elected.state ≡ true)
    × (elected.leader_id ≡ pos 0)
    × (length elected.next_index ≡ 3)
    × (length elected.match_index ≡ 3)
    × (get_elem? elected.match_index 0 ≡ some (last_log_index log2))
    × ((i : ℕ)
        → i < 3
        → (get_elem? elected.next_index i ≡ some (last_log_index log2 +ℤ pos 1))
          × (i ≢ 0 → get_elem? elected.match_index i ≡ some minus_one))
unfolding become_leader broadcast send_all append_args suffix last_log_index term_at ◌-ℤ◌ ◌+ℤ◌
become_leader_lem_example = become_leader_lem runner {rf' = elected} refl

-- A leader of term 2 whose entry at index 1 is of its term, and which one follower has.
abbrev chief : Raft ℕ
chief = record (peer leader 2 (pos 0) (entry 0 0 ∷ entry 2 8 ∷ [])) {
  next_index = pos 2 ∷ pos 2 ∷ pos 1 ∷ [];
  match_index = pos 1 ∷ pos 1 ∷ pos 0 ∷ [];
}

advance_commit_index-Advanced_example :
    Advanced chief 2 (record chief { commit_index = pos 1; apply_cond = 1 })
unfolding advance_commit_index advance_from can_commit count_others
advance_commit_index-Advanced_example =
    advance_commit_index-Advanced chief
      {rf' = record chief { commit_index = pos 1; apply_cond = 1 }} (ground arith) refl

abbrev begun : Raft ℕ
begun = record (peer leader 2 (pos 0) (entry 0 0 ∷ entry 2 8 ∷ entry 2 5 ∷ [])) {
  next_index = pos 3 ∷ pos 2 ∷ pos 1 ∷ [];
  match_index = pos 2 ∷ pos 1 ∷ pos 0 ∷ [];
  calls =
      send_entries 1 (sent_args (pos 1) 2 (entry 2 5 ∷ []))
      ∷ send_entries 2 (sent_args (pos 0) 0 (entry 2 8 ∷ entry 2 5 ∷ []))
      ∷ [];
}

start_lem_example :
    (true ≡ is_leader chief.state)
    × (pos 2 ≡ chief.current_term)
    × (true ≡ false → (begun ≡ chief) × (pos 2 ≡ minus_one))
    × (true ≡ true
        → (pos 2 ≡ pos (length chief.log))
          × (begun.log ≡ chief.log ++ entry 2 5 ∷ [])
          × (get_elem? begun.log (length chief.log) ≡ some (entry 2 5))
          × IsDurable begun)
unfolding start append_command persist become_leader broadcast send_all append_args suffix
    last_log_index term_at ◌-ℤ◌ ◌+ℤ◌
start_lem_example =
    start_lem 5 chief {rf' = begun} {index = pos 2} {term = pos 2} {leads = true} refl

-- The follower converges with what the leader sends for index 1.
abbrev source : Raft ℕ
source = peer leader 2 (pos 0) log3

log2-log3 :
    (i : ℕ) (e f : LogEntry ℕ)
    → get_elem? log2 i ≡ some e
    → get_elem? log3 i ≡ some f
    → e.term ≡ f.term
    → take (suc i) log2 ≡ take (suc i) log3
log2-log3 zero e f he hf same = refl
log2-log3 (suc zero) e f he hf same = absurd (ground arith)
log2-log3 (suc (suc i)) e f he hf same = absurd (ground arith)

source-IsMatching : IsMatching log2 log3
source-IsMatching = record { prefix = λ i e f he hf same. log2-log3 i e f he hf same }

append_entries_converges_example : took.log ≡ source.log
unfolding append_entries accept_leader catch_up become_follower check_log check_entry back_up
    apply_check truncate append follow_commit min last_log_index persist ◌-ℤ◌ ◌+ℤ◌ append_args
    suffix term_at
append_entries_converges_example =
    append_entries_converges 4 1 source idle {args = sent_args (pos 0) 0 tail3}
      {rf' = record took { leader_id = pos 0 }} {reply = yes_reply 2} refl (ground arith)
      source-IsMatching refl refl

abbrev behind : Raft ℕ
behind = record (peer follower 2 minus_one log3) { commit_index = pos 2 }

abbrev learned : Raft ℕ
learned = record chief {
  next_index = pos 2 ∷ pos 2 ∷ pos 2 ∷ [];
  match_index = pos 1 ∷ pos 1 ∷ pos 1 ∷ [];
  commit_index = pos 1;
  apply_cond = 1;
}

on_append_reply-Learned_example : Learned 2 (sent_args (pos 0) 0 (entry 2 8 ∷ [])) chief learned
unfolding on_append_reply record_match advance_commit_index advance_from can_commit count_others max
    ◌+ℤ◌
on_append_reply-Learned_example =
    on_append_reply-Learned 2 (sent_args (pos 0) 0 (entry 2 8 ∷ [])) (yes_reply 2) chief
      {rf' = learned} refl refl (ground arith) refl refl
