-- ===== src/Raft/Election/Votes.antt =====
-- `RequestVote`: what a reply and the state after it say.
use raft_kvs.Base.{ℕ, ◌≡◌, arith, true}
use raft_kvs.Raft.Types.{Raft, RequestVoteArgs, Gob}
use raft_kvs.Raft.Order.{Later, WritesAll}
use raft_kvs.Raft.Persist.{persist}
use raft_kvs.Raft.Election.{request_vote, become_follower, can_vote}

module _ {C : Type 0} ⦃g : Gob C⦄ (now : ℕ) (args : RequestVoteArgs) (rf : Raft C) where
  pub request_vote-Later : Later rf (request_vote now args rf).0
  unfolding request_vote become_follower persist can_vote
  request_vote-Later = ground arith

  -- A changed term or vote is on the disk when the reply is sent.
  pub request_vote-WritesAll : WritesAll rf (request_vote now args rf).0
  unfolding request_vote become_follower persist can_vote
  request_vote-WritesAll = ground arith

  pub request_vote_granted :
      (request_vote now args rf).1.vote_granted ≡ true
      → ((request_vote now args rf).0.current_term ≡ args.term)
        × ((request_vote now args rf).0.voted_for ≡ args.candidate_id)
  unfolding request_vote become_follower persist can_vote
  request_vote_granted h = ground arith
