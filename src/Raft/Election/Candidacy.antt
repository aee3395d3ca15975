-- ===== src/Raft/Election/Candidacy.antt =====
-- Becoming a candidate, a leader or a follower: what happens to the term and to the vote.
use raft_kvs.Base.{ℕ, suc, ◌<◌, ◌^◌, pos, wrap-incr, ◌≡◌, refl, inl, arith, ok}
use raft_kvs.Raft.Types.{Raft, Gob, RequestVoteReply}
use raft_kvs.Raft.Order.{Later, IsDurable, WritesAll}
use raft_kvs.Raft.Persist.{persist}
use raft_kvs.Raft.Broadcast.{broadcast}
use raft_kvs.Raft.Election.{Election, start_election, become_leader, become_follower, on_vote_reply}

module _ {C : Type 0} where
  -- A broadcast only spawns calls.
  pub broadcast-eq :
      (rf : Raft C) {rf' : Raft C}
      → broadcast rf ≡ ok rf'
      → (rf'.current_term ≡ rf.current_term)
        × (rf'.voted_for ≡ rf.voted_for)
        × (rf'.log ≡ rf.log)
        × (rf'.persister ≡ rf.persister)
        × (rf'.state ≡ rf.state)
        × (rf'.commit_index ≡ rf.commit_index)
  unfolding broadcast
  broadcast-eq rf h = ground arith

module _ {C : Type 0} ⦃g : Gob C⦄ where
  pub start_election-Later :
      (now n : ℕ) (rf : Raft C)
      → rf.current_term ≡ pos n
      → suc n < 2 ^ 63
      → Later rf (start_election now rf).0
  unfolding start_election persist
  start_election-Later now n rf e h = inl (rw (e, wrap-incr n h) (omega arith))

  pub become_leader-Later : (rf : Raft C) {rf' : Raft C} → become_leader rf ≡ ok rf' → Later rf rf'
  unfolding become_leader broadcast
  become_leader-Later rf h = ground arith

  pub on_vote_reply-Later :
      (e : Election) (reply : RequestVoteReply) (rf : Raft C) {rf' : Raft C} {e' : Election}
      → on_vote_reply e reply rf ≡ ok (rf', e')
      → Later rf rf'
  unfolding on_vote_reply become_follower persist become_leader broadcast
  on_vote_reply-Later e reply rf h = ground arith

  pub start_election-IsDurable : (now : ℕ) (rf : Raft C) → IsDurable (start_election now rf).0
  unfolding start_election persist
  start_election-IsDurable now rf = refl

  pub on_vote_reply-WritesAll :
      (e : Election) (reply : RequestVoteReply) (rf : Raft C) {rf' : Raft C} {e' : Election}
      → on_vote_reply e reply rf ≡ ok (rf', e')
      → WritesAll rf rf'
  unfolding on_vote_reply become_follower persist become_leader broadcast
  on_vote_reply-WritesAll e reply rf h = ground arith
