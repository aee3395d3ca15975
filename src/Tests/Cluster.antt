-- ===== src/Tests/Cluster.antt =====
-- Examples of a cluster of three peers: peer 0 asks peer 1 for its vote, and leads.
use raft_kvs.Base.{
  ok, ◌++◌, ℕ, wrap, pos, minus_one, ◌+ℤ◌, ◌-ℤ◌, ◌≡◌, refl, inl, inr, arith, true, [], ◌∷◌,
}
use raft_kvs.Raft.Types.{Raft, leader, RequestVoteArgs, ask_vote, send_entries, AppendEntriesArgs}
use raft_kvs.Raft.Log.{suffix, last_log_index, term_at, last_log_term}
use raft_kvs.Raft.Persist.{persist}
use raft_kvs.Raft.Broadcast.{append_args, send_all, broadcast}
use raft_kvs.Raft.Election.{
  become_follower, become_leader, catch_up, can_vote, cast_vote, count_vote, request_vote,
  is_log_up_to_date, start_election, on_vote_reply, ask_all,
}
use raft_kvs.Raft.Cluster.{
  Cluster, start_cluster, put, Moves, here, next, campaigning, answers, counts, acts,
}
use raft_kvs.Raft.Cluster.Safety.{election_safety}
use raft_kvs.Raft.Append.{
  append_entries, accept_leader, check_log, check_entry, apply_check, truncate, append,
  follow_commit,
}
use raft_kvs.Raft.Append.Convergence.{IsMatching}
use raft_kvs.Raft.Node.{start, append_command}
use raft_kvs.Raft.Steps.{starts, takes_entries}
use raft_kvs.Raft.Cluster.World.{World, start_world, Ticks, still, and_then, moves, sends}
use raft_kvs.Raft.Cluster.Matching.{log-IsMatching}
use raft_kvs.Raft.Exchange.{exchange}
use raft_kvs.Raft.Cluster.Catching.{leader_catches_up}
use raft_kvs.Raft.Cluster.Senders.{one_speaker}
use raft_kvs.Tests.Samples.{entry, numbers}

abbrev pub three : Cluster ℕ
three = start_cluster 3

abbrev pub vote_args : RequestVoteArgs
vote_args = record {
  term = pos 1;
  candidate_id = pos 0;
  last_log_index = pos 0;
  last_log_term = pos 0;
}

abbrev pub asked : Cluster ℕ
asked = record three {
  nodes = put three.nodes 0 (start_election 5 (three.nodes 0)).0;
  polls =
      record { peer = 0; election = (start_election 5 (three.nodes 0)).1; voters = 0 ∷ [] } ∷ [];
  ballots = record { term = (start_election 5 (three.nodes 0)).1.term; voter = 0; choice = 0 } ∷ [];
}

abbrev pub voted : Cluster ℕ
voted = record asked {
  nodes = put asked.nodes 1 (request_vote 6 vote_args (asked.nodes 1)).0;
  ballots = record { term = pos 1; voter = 1; choice = 0 } ∷ asked.ballots;
}

abbrev pub beat : AppendEntriesArgs ℕ
beat = record {
  term = pos 1;
  leader_id = pos 0;
  prev_log_index = pos 0;
  prev_log_term = pos 0;
  entries = [];
  leader_commit = pos 0;
}

abbrev pub chosen : Raft ℕ
chosen = record (start_election 5 (three.nodes 0)).0 {
  state = leader;
  next_index = pos 1 ∷ pos 1 ∷ pos 1 ∷ [];
  match_index = pos 0 ∷ minus_one ∷ minus_one ∷ [];
  calls =
      ask_vote 1 vote_args ∷ ask_vote 2 vote_args ∷ send_entries 1 beat ∷ send_entries 2 beat ∷ [];
}

abbrev pub won : Cluster ℕ
won = record voted {
  nodes = put voted.nodes 0 chosen;
  polls =
      record { peer = 0; election = record { term = pos 1; votes = 2 }; voters = 1 ∷ 0 ∷ [] } ∷ [];
}

wins : Moves three won
unfolding request_vote cast_vote catch_up can_vote become_follower is_log_up_to_date last_log_term
    last_log_index term_at persist ◌-ℤ◌ ◌+ℤ◌ wrap start_election on_vote_reply count_vote
    become_leader broadcast send_all append_args suffix ask_all
wins =
    next
      (next (next here (campaigning 0 5 0 (ground arith) refl (ground arith) refl))
        (answers 1 0 6 vote_args (ground arith) refl refl))
      (counts 0 1
        (record { peer = 0; election = record { term = pos 1; votes = 1 }; voters = 0 ∷ [] })
        (record { term = pos 0; vote_granted = true }) chosen (record { term = pos 1; votes = 2 })
        refl (λ h. ground arith) (λ h. inl refl) refl refl)

election_safety_example : ◌≡◌ {A = ℕ} 0 0
unfolding wins start_election
election_safety_example = election_safety 3 0 0 {b = won} wins (((tt, tt), tt), tt) refl refl refl

one_speaker_example : ◌≡◌ {A = ℕ} 0 0
unfolding wins start_election
one_speaker_example =
    one_speaker 3 0 0 (pos 1) {b = won} wins (((tt, tt), tt), tt) (inl (refl, refl))
      (inr (1, beat, inr (inr (inl refl)), refl))

-- Then the leader starts a command, and peer 1 takes it.
abbrev pub news : AppendEntriesArgs ℕ
news = record beat { entries = entry 1 7 ∷ [] }

abbrev pub busy : Raft ℕ
busy = record (persist (record chosen { log = chosen.log ++ entry 1 7 ∷ [] })) {
  match_index = pos 1 ∷ minus_one ∷ minus_one ∷ [];
  next_index = pos 2 ∷ pos 1 ∷ pos 1 ∷ [];
  calls = chosen.calls ++ send_entries 1 news ∷ send_entries 2 news ∷ [];
}

abbrev pub taker : Raft ℕ
taker = persist (record (voted.nodes 1) {
  last_heartbeat_time = 9;
  leader_id = pos 0;
  log = (voted.nodes 1).log ++ entry 1 7 ∷ [];
})

abbrev pub begin_with : World ℕ
begin_with = start_world 3

abbrev pub led : World ℕ
led = record begin_with { cluster = won }

abbrev pub begun : World ℕ
begun = record led {
  cluster = record won { nodes = put won.nodes 0 busy };
  made = record { log = busy.log; term = pos 1 } ∷ begin_with.made;
}

abbrev pub sent_out : World ℕ
sent_out = record begun { sent = record { from = 0; to = 1; args = news } ∷ [] }

abbrev pub shared : World ℕ
shared = record sent_out {
  cluster = record sent_out.cluster { nodes = put sent_out.cluster.nodes 1 taker };
}

begins : Ticks begin_with begun
unfolding request_vote cast_vote catch_up can_vote become_follower is_log_up_to_date last_log_term
    last_log_index term_at persist ◌-ℤ◌ ◌+ℤ◌ wrap start_election on_vote_reply count_vote
    become_leader broadcast send_all append_args suffix ask_all start append_command append_entries
    accept_leader check_log check_entry apply_check truncate append follow_commit
begins =
    and_then {b = led}
      (and_then {b = record begin_with { cluster = voted }}
        (and_then {b = record begin_with { cluster = asked }}
          (and_then still
            (moves (campaigning 0 5 0 (ground arith) refl (ground arith) refl) tt refl refl))
          (moves (answers 1 0 6 vote_args (ground arith) refl refl) tt refl refl))
        (moves
          (counts 0 1
            (record { peer = 0; election = record { term = pos 1; votes = 1 }; voters = 0 ∷ [] })
            (record { term = pos 0; vote_granted = true }) chosen
            (record { term = pos 1; votes = 2 }) refl (λ h. ground arith) (λ h. inl refl) refl refl)
          tt refl refl))
      (moves (acts 0 busy (starts 7 (pos 1, pos 1, true) refl) tt refl) tt refl refl)

shares : Ticks begin_with shared
unfolding request_vote cast_vote catch_up can_vote become_follower is_log_up_to_date last_log_term
    last_log_index term_at persist ◌-ℤ◌ ◌+ℤ◌ wrap start_election on_vote_reply count_vote
    become_leader broadcast send_all append_args suffix ask_all start append_command append_entries
    accept_leader check_log check_entry apply_check truncate append follow_commit
shares =
    and_then {b = sent_out}
      (and_then {b = begun} begins (sends 0 1 news (inr (inr (inr (inr (inl refl))))) refl))
      (moves
        (acts 1 taker
          (takes_entries 9 news
            (record {
              term = pos 1;
              success = true;
              conflict_term = minus_one;
              conflict_index = pos 0;
            })
            refl)
          tt refl)
        (0, inl refl) refl refl)

log-IsMatching_example : IsMatching busy.log taker.log
unfolding shares begins request_vote persist
log-IsMatching_example =
    log-IsMatching 3 0 1 busy.log taker.log {b = shared} shares
      ((((((tt, tt), tt), tt), tt), tt), λ h same. cc) (inl refl)
      (inr (record { term = pos 1; vote = pos 0; log = taker.log }, refl, refl))

-- Before peer 1 has the command, the leader asks it about its own last entry.
leader_catches_up_example :
    (ld : Raft ℕ) × (fl : Raft ℕ) × (exchange 3 9 1 (pos 2) busy (begun.cluster.nodes 1)
      ≡ ok (ld, fl, true))
    × (ld.log ≡ busy.log)
    × (fl.log ≡ busy.log)
unfolding begins request_vote persist cast_vote
leader_catches_up_example =
    leader_catches_up 3 0 1 2 9 3 {b = begun} begins ((((tt, tt), tt), tt), tt) refl (ground arith)
      (ground arith) (ground arith) (ground arith)
