-- ===== src/Raft/Append/Revote.antt =====
-- A candidate that hears from the leader of its own term forgets its vote.
use raft_kvs.Base.{ℕ, minus_one, ◌≡◌, sym, ◌∙◌, inl, inr, arith, true, ok}
use raft_kvs.Raft.Types.{
  Raft, AppendEntriesArgs, AppendEntriesReply, RequestVoteArgs, Gob, is_candidate,
}
use raft_kvs.Raft.Persist.{persist}
use raft_kvs.Raft.Election.{request_vote, is_log_up_to_date, become_follower, can_vote}
use raft_kvs.Raft.Append.Later.{append_entries-cases, apply_check-eq}
use raft_kvs.Raft.Append.{append_entries, accept_leader}

module _ {C : Type 0} ⦃g : Gob C⦄ where
  accept_leader_candidate :
      (now : ℕ) (args : AppendEntriesArgs C) (rf : Raft C)
      → is_candidate rf.state ≡ true
      → args.term ≡ rf.current_term
      → ((accept_leader now args rf).current_term ≡ rf.current_term)
        × ((accept_leader now args rf).voted_for ≡ minus_one)
  unfolding accept_leader become_follower persist
  accept_leader_candidate now args rf c t = ground arith

  request_vote_free :
      (now : ℕ) (args : RequestVoteArgs) (rf : Raft C)
      → rf.voted_for ≡ minus_one
      → args.term ≡ rf.current_term
      → is_log_up_to_date rf.log args.last_log_index args.last_log_term ≡ true
      → (request_vote now args rf).1.vote_granted ≡ true
  unfolding request_vote can_vote
  request_vote_free now args rf v t l = ground arith

  -- A candidate, which has voted for itself, that handles an AppendEntries of its own term has its
  -- vote to give again in that term: it grants it to whatever candidate asks with a log that is up
  -- to date.
  pub candidate_votes_again :
      (now later : ℕ) (args : AppendEntriesArgs C) (ask : RequestVoteArgs) (rf : Raft C)
      {rf' : Raft C} {reply : AppendEntriesReply}
      → is_candidate rf.state ≡ true
      → args.term ≡ rf.current_term
      → append_entries now args rf ≡ ok (rf', reply)
      → ask.term ≡ rf.current_term
      → is_log_up_to_date rf'.log ask.last_log_index ask.last_log_term ≡ true
      → (rf'.current_term ≡ rf.current_term)
        × (rf'.voted_for ≡ minus_one)
        × ((request_vote later ask rf').1.vote_granted ≡ true)
  candidate_votes_again now later args ask rf {rf'} c t ran asked fresh_log =
      elim (append_entries-cases now args rf ran) [
        | inl (old, _, _) ↦ absurd (ground arith)
        | inr (_, (check, _, e)) ↦
            let rf1 = accept_leader now args rf in
            let (term, vote) = accept_leader_candidate now args rf c t in
            let (term', vote') = apply_check-eq args rf.current_term check rf1 e in
            let freed = vote' ∙ vote in
            let kept = term' ∙ term in
            (kept, freed, request_vote_free later ask rf' freed (asked ∙ sym kept) fresh_log)
      ]
