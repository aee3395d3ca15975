-- ===== src/Tests/History.antt =====
-- A history of three peers: peer 0 leads, and commits a command that peer 1 took; then peer 1
-- learns that it is committed.
use raft_kvs.Base.{
  ◌++◌, ℕ, wrap, pos, minus_one, ◌+ℤ◌, ◌-ℤ◌, ◌≡◌, refl, inl, inr, arith, true, [], ◌∷◌, List, take,
  length, ◌<◌, ◌≤◌, get_elem?, get_elem?_of_le, some,
}
use raft_kvs.Raft.Types.{Raft, send_entries, AppendEntriesArgs, AppendEntriesReply, LogEntry}
use raft_kvs.Raft.Log.{suffix, last_log_index, term_at, last_log_term, max, min}
use raft_kvs.Raft.Persist.{persist}
use raft_kvs.Raft.Broadcast.{append_args, send_all, broadcast}
use raft_kvs.Raft.Election.{
  become_follower, become_leader, catch_up, can_vote, cast_vote, count_vote, request_vote,
  is_log_up_to_date, start_election, on_vote_reply, ask_all,
}
use raft_kvs.Raft.Append.{
  append_entries, accept_leader, check_log, check_entry, apply_check, truncate, append,
  follow_commit,
}
use raft_kvs.Raft.Replicate.{
  on_append_reply, record_match, advance_commit_index, advance_from, can_commit, count_others,
}
use raft_kvs.Raft.Node.{start, append_command, heartbeat, applier_batch}
use raft_kvs.Raft.Steps.{starts, takes_entries, reads_match, beats}
use raft_kvs.Raft.Cluster.{campaigning, answers, counts, acts, put}
use raft_kvs.Raft.Cluster.World.{World, moves, sends}
use raft_kvs.Raft.History.{Ack, History, start_history, Events, none_yet, so_far, AllInOrder}
use raft_kvs.Raft.History.Safety.{state_machine_safety, leader_completeness}
use raft_kvs.Raft.History.Applied.{applied_once}
use raft_kvs.Tests.Samples.{entry, numbers}
use raft_kvs.Tests.Cluster.{
  vote_args, asked, voted, chosen, news, busy, taker, begin_with, led, begun, sent_out, shared,
}

abbrev success : AppendEntriesReply
success = record { term = pos 1; success = true; conflict_term = minus_one; conflict_index = pos 0 }

abbrev own_ack : Ack
own_ack = record { voter = 0; term = pos 1; length = 2 }

abbrev other_ack : Ack
other_ack = record { voter = 1; term = pos 1; length = 2 }

-- The leader reads the success, and commits.
abbrev sure : Raft ℕ
sure = record busy {
  match_index = pos 1 ∷ pos 1 ∷ minus_one ∷ [];
  next_index = pos 2 ∷ pos 2 ∷ pos 1 ∷ [];
  commit_index = pos 1;
  apply_cond = 1;
}

abbrev decided : World ℕ
decided = record shared {
  cluster = record shared.cluster { nodes = put shared.cluster.nodes 0 sure };
}

-- It beats, and peer 1 takes the heartbeat.
abbrev tells : AppendEntriesArgs ℕ
tells = record {
  term = pos 1;
  leader_id = pos 0;
  prev_log_index = pos 1;
  prev_log_term = pos 1;
  entries = [];
  leader_commit = pos 1;
}

abbrev beating : Raft ℕ
beating = record sure {
  calls =
      sure.calls
      ++ send_entries 1 tells ∷ send_entries 2 (record news { leader_commit = pos 1 }) ∷ [];
  last_heartbeat_sent = 20;
}

abbrev beaten : World ℕ
beaten = record decided {
  cluster = record decided.cluster { nodes = put decided.cluster.nodes 0 beating };
}

abbrev told_all : World ℕ
told_all = record beaten { sent = record { from = 0; to = 1; args = tells } ∷ beaten.sent }

abbrev knower : Raft ℕ
knower = record taker { last_heartbeat_time = 25; commit_index = pos 1; apply_cond = 1 }

abbrev known_all : World ℕ
known_all = record told_all {
  cluster = record told_all.cluster { nodes = put told_all.cluster.nodes 1 knower };
}

abbrev at_first : World ℕ → History ℕ
at_first w = record { world = w; asked = vote_args ∷ []; acks = [] }

abbrev at_last : World ℕ → History ℕ
at_last w = record { world = w; asked = vote_args ∷ []; acks = other_ack ∷ own_ack ∷ [] }

commits : Events (start_history 3) (at_last decided)
unfolding request_vote cast_vote catch_up can_vote become_follower is_log_up_to_date last_log_term
    last_log_index term_at persist ◌-ℤ◌ ◌+ℤ◌ wrap start_election on_vote_reply count_vote
    become_leader broadcast send_all append_args suffix ask_all start append_command append_entries
    accept_leader check_log check_entry apply_check truncate append follow_commit on_append_reply
    record_match advance_commit_index advance_from can_commit count_others max min
commits =
    so_far {b = at_last shared}
      (so_far {b = record (at_first sent_out) { acks = own_ack ∷ [] }}
        (so_far {b = record (at_first begun) { acks = own_ack ∷ [] }}
          (so_far {b = at_first led}
            (so_far {b = at_first (record begin_with { cluster = voted })}
              (so_far {b = at_first (record begin_with { cluster = asked })}
                (so_far none_yet (record {
                  tick =
                      moves (campaigning 0 5 0 (ground arith) refl (ground arith) refl) tt refl
                        refl;
                  told = tt;
                  asked = refl;
                  acks = refl;
                }))
                (record {
                  tick = moves (answers 1 0 6 vote_args (ground arith) refl refl) tt refl refl;
                  told = inl refl;
                  asked = refl;
                  acks = refl;
                }))
              (record {
                tick =
                    moves
                      (counts 0 1
                        (record {
                          peer = 0;
                          election = record { term = pos 1; votes = 1 };
                          voters = 0 ∷ [];
                        })
                        (record { term = pos 0; vote_granted = true }) chosen
                        (record { term = pos 1; votes = 2 }) refl (λ h. ground arith)
                        (λ h. inl refl) refl refl)
                      tt refl refl;
                told = tt;
                asked = refl;
                acks = refl;
              }))
            (record {
              tick = moves (acts 0 busy (starts 7 (pos 1, pos 1, true) refl) tt refl) tt refl refl;
              told = tt;
              asked = refl;
              acks = refl;
            }))
          (record {
            tick = sends 0 1 news (inr (inr (inr (inr (inl refl))))) refl;
            told = tt;
            asked = refl;
            acks = refl;
          }))
        (record {
          tick =
              moves (acts 1 taker (takes_entries 9 news success refl) tt refl) (0, inl refl) refl
                refl;
          told = tt;
          asked = refl;
          acks = refl;
        }))
      (record {
        tick = moves (acts 0 sure (reads_match 1 news success refl) tt refl) (inl refl) refl refl;
        told = λ h. (2, inl refl, omega arith);
        asked = refl;
        acks = refl;
      })

abbrev at_end : History ℕ
at_end = record (at_last known_all) { acks = other_ack ∷ other_ack ∷ own_ack ∷ [] }

spreads : Events (at_last decided) at_end
unfolding request_vote cast_vote catch_up can_vote become_follower is_log_up_to_date last_log_term
    last_log_index term_at persist ◌-ℤ◌ ◌+ℤ◌ wrap start_election on_vote_reply count_vote
    become_leader broadcast send_all append_args suffix ask_all start append_command append_entries
    accept_leader check_log check_entry apply_check truncate append follow_commit on_append_reply
    record_match advance_commit_index advance_from can_commit count_others max min heartbeat
spreads =
    so_far {b = at_last told_all}
      (so_far {b = at_last beaten}
        (so_far none_yet (record {
          tick = moves (acts 0 beating (beats 20 refl) tt refl) tt refl refl;
          told = tt;
          asked = refl;
          acks = refl;
        }))
        (record {
          tick = sends 0 1 tells (inr (inr (inr (inr (inr (inr (inl refl))))))) refl;
          told = tt;
          asked = refl;
          acks = refl;
        }))
      (record {
        tick =
            moves (acts 1 knower (takes_entries 25 tells success refl) tt refl) (0, inl refl) refl
              refl;
        told = tt;
        asked = refl;
        acks = refl;
      })

behind :
    (l : List (LogEntry ℕ)) (k : ℕ) (x : LogEntry ℕ) → length l ≤ k → get_elem? l k ≡ some x → ⊥
behind l k x le at_k = let none_there = get_elem?_of_le l k le in cc

commits-order : AllInOrder commits
unfolding commits request_vote persist start_election cast_vote
commits-order = (
  (
    ((((((tt, tt, tt), tt, tt), tt, tt), tt, tt), tt, tt)),
    (λ h same. cc),
    (λ h k x le at_k same.
        behind (((at_first sent_out).world.cluster.nodes 1).log) k x (omega arith) at_k),
  ),
  tt,
  tt,
)

spreads-order : AllInOrder spreads
unfolding spreads
spreads-order =
    (((tt, tt, tt), tt, tt), (λ h same. cc), (λ h k x le at_k same. behind knower.log k x le at_k))

state_machine_safety_example :
    (1 < length sure.log) × (1 < length knower.log) × (take 2 sure.log ≡ take 2 knower.log)
state_machine_safety_example =
    state_machine_safety 3 0 1 1 {a = at_last decided} {b = at_end} commits spreads commits-order
      spreads-order (omega arith) (omega arith) (omega arith)

leader_completeness_example : take 2 sure.log ≡ take 2 beating.log
unfolding persist
leader_completeness_example =
    leader_completeness 3 0 0 1 {a = at_last decided} {b = at_end} commits spreads commits-order
      spreads-order (omega arith) (omega arith) refl (omega arith)

applied_once_example : entry 1 7 ≡ entry 1 7
unfolding applier_batch persist start_election ◌+ℤ◌ request_vote can_vote become_follower
    is_log_up_to_date
applied_once_example =
    applied_once 3 0 1 1 1 0 0 (entry 1 7 ∷ []) (entry 1 7 ∷ []) (entry 1 7) (entry 1 7)
      {a = at_last decided} {b = at_end} commits spreads commits-order spreads-order refl refl refl
      refl refl (omega arith)
