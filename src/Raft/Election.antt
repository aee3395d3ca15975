-- ===== src/Raft/Election.antt =====
-- src/raft/leader_election.go: votes, candidacy, and becoming a leader or a follower.
-- Proofs are in the children.
pub mod Votes
pub mod Majority
pub mod Candidacy
pub mod UpToDate
use raft_kvs.Base.{
  ℕ, suc, ◌/◌, ℤ, pos, minus_one, ◌+ℤ◌, ltb_ℤ, leb_ℤ, ◌==ℤ◌, wrap, ltb, ◌==◌, Bool, true, false,
  ◌&&◌, ◌||◌, not, List, [], ◌∷◌, ◌++◌, range, replicate, Outcome, ok, store, ◌>>=◌, if◌then◌else◌,
}
use raft_kvs.Raft.Types.{
  Raft, follower, candidate, leader, is_candidate, Call, ask_vote, RequestVoteArgs,
  RequestVoteReply, LogEntry, Gob,
}
use raft_kvs.Raft.Log.{last_log_index, last_log_term}
use raft_kvs.Raft.Persist.{persist}
use raft_kvs.Raft.Broadcast.{broadcast}

-- What the goroutines of one `startElection` share: its term and the votes counted.
pub record Election : Type 0 where
  pub term : ℤ
  pub votes : ℕ

-- `isLogUpToDate`
unfoldable pub is_log_up_to_date : {C : Type 0} → List (LogEntry C) → ℤ → ℤ → Bool
unfolding last_log_term
is_log_up_to_date log candidate_index candidate_term =
    if not (candidate_term ==ℤ last_log_term log)
    then ltb_ℤ (last_log_term log) candidate_term
    else leb_ℤ (last_log_index log) candidate_index

module _ {C : Type 0} ⦃g : Gob C⦄ where
  -- `becomeFollower`
  unfoldable pub become_follower : ℤ → Raft C → Raft C
  become_follower term rf =
      persist (record rf { state = follower; current_term = term; voted_for = minus_one })

  -- The two conditions of a vote.
  unfoldable pub can_vote : RequestVoteArgs → Raft C → Bool
  can_vote args rf =
      (rf.voted_for ==ℤ minus_one || rf.voted_for ==ℤ args.candidate_id)
      && is_log_up_to_date rf.log args.last_log_index args.last_log_term

  -- A handler's step to a newer term.
  unfoldable pub catch_up : ℤ → Raft C → Raft C
  catch_up term rf = if ltb_ℤ rf.current_term term then become_follower term rf else rf

  -- The end of `RequestVote`; `seen` is the term that the reply was given at the start.
  unfoldable pub cast_vote : ℕ → RequestVoteArgs → ℤ → Raft C → Raft C × RequestVoteReply
  cast_vote now args seen rf =
      if can_vote args rf
      then (
        persist (record rf { voted_for = args.candidate_id; last_heartbeat_time = now }),
        record { term = seen; vote_granted = true },
      )
      else (rf, record { term = seen; vote_granted = false })

  -- `RequestVote`, at the time `now`
  unfoldable pub request_vote : ℕ → RequestVoteArgs → Raft C → Raft C × RequestVoteReply
  unfolding catch_up cast_vote
  request_vote now args rf =
      if ltb_ℤ args.term rf.current_term
      then (rf, record { term = rf.current_term; vote_granted = false })
      else cast_vote now args rf.current_term (catch_up args.term rf)

  -- One RequestVote to every other peer.
  unfoldable pub ask_all : ℕ → RequestVoteArgs → List ℕ → List (Call C)
  ask_all me args [] = []
  ask_all me args (i ∷ is) =
      if i == me then ask_all me args is else ask_vote i args ∷ ask_all me args is

  -- `startElection`
  unfoldable pub start_election : ℕ → Raft C → Raft C × Election
  start_election now rf =
      let term = wrap 63 (rf.current_term +ℤ pos 1) in
      let rf1 = persist (record rf {
        current_term = term;
        state = candidate;
        voted_for = pos rf.me;
        last_heartbeat_time = now;
      }) in
      let args : RequestVoteArgs = record {
        term = term;
        candidate_id = pos rf.me;
        last_log_index = last_log_index rf.log;
        last_log_term = last_log_term rf.log;
      } in
      (
        record rf1 { calls = rf1.calls ++ ask_all rf.me args (range rf.peers) },
        record { term = term; votes = 1 },
      )

  -- `becomeLeader`; `last_heartbeat_sent` becomes the zero time.
  unfoldable pub become_leader : Raft C → Outcome (Raft C)
  become_leader rf = do
    let next = last_log_index rf.log +ℤ pos 1
    matches ← store (replicate rf.peers minus_one) rf.me (last_log_index rf.log)
    nexts ← store (replicate rf.peers next) rf.me next
    broadcast (record rf {
      state = leader;
      leader_id = pos rf.me;
      next_index = nexts;
      match_index = matches;
      last_heartbeat_sent = 0;
    })

  -- A vote is counted, and with a majority of them the candidate becomes the leader.
  unfoldable pub count_vote : Election → Raft C → Outcome (Raft C × Election)
  count_vote e rf =
      if ltb (rf.peers / 2) (suc e.votes) && is_candidate rf.state
      then (do rf1 ← become_leader rf; ok (rf1, record e { votes = suc e.votes }))
      else ok (rf, record e { votes = suc e.votes })

  -- The goroutine of `startElection` after its `Call` returned true.
  unfoldable pub on_vote_reply : Election → RequestVoteReply → Raft C → Outcome (Raft C × Election)
  unfolding count_vote
  on_vote_reply e reply rf =
      if not (rf.current_term ==ℤ e.term) || not (is_candidate rf.state)
      then ok (rf, e)
      else if ltb_ℤ rf.current_term reply.term
      then ok (become_follower reply.term rf, e)
      else if reply.vote_granted
      then count_vote e rf
      else ok (rf, e)
