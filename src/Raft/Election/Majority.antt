-- ===== src/Raft/Election/Majority.antt =====
-- Who becomes a leader, and with what bookkeeping.
use raft_kvs.Base.{
  ℕ, suc, ◌*◌, ◌<◌, pos, minus_one, ◌+ℤ◌, ◌≡◌, ◌≢◌, sym, ◌∙◌, arith, true, false, ok, >>=-eq-ok,
  length, set, replicate, store, get_elem?, get_elem?-set_self, get_elem?-set_ne, some,
  length-replicate, length-set, get_elem?-replicate, ℕ_discrete,
}
use raft_kvs.Raft.Types.{Raft, Gob, RequestVoteReply, is_candidate, is_leader}
use raft_kvs.Raft.Persist.{persist}
use raft_kvs.Raft.Log.{last_log_index}
use raft_kvs.Raft.Broadcast.{broadcast}
use raft_kvs.Raft.Election.{Election, on_vote_reply, become_leader, become_follower}

module _ {C : Type 0} ⦃g : Gob C⦄ where
  -- A reply makes a leader only of a candidate that is still in the term of its election, by a
  -- granted vote that brings the votes counted above half of the peers; term, vote and log stay.
  pub on_vote_reply_elects :
      (e : Election) (reply : RequestVoteReply) (rf : Raft C) {rf' : Raft C} {e' : Election}
      → on_vote_reply e reply rf ≡ ok (rf', e')
      → is_leader rf.state ≡ false
      → is_leader rf'.state ≡ true
      → (is_candidate rf.state ≡ true)
        × (rf.current_term ≡ e.term)
        × (reply.vote_granted ≡ true)
        × (e'.votes ≡ suc e.votes)
        × (rf.peers < 2 * e'.votes)
        × (rf'.current_term ≡ rf.current_term)
        × (rf'.voted_for ≡ rf.voted_for)
        × (rf'.log ≡ rf.log)
  unfolding on_vote_reply become_follower persist become_leader broadcast
  on_vote_reply_elects e reply rf h before after = ground arith

  -- What a new leader assumes of the others: nothing is known to match, and the next entry to send
  -- is the one behind its own log; of itself, that it has its whole log.
  pub become_leader_lem :
      (rf : Raft C) {rf' : Raft C}
      → become_leader rf ≡ ok rf'
      → (is_leader rf'.state ≡ true)
        × (rf'.leader_id ≡ pos rf.me)
        × (length rf'.next_index ≡ rf.peers)
        × (length rf'.match_index ≡ rf.peers)
        × (get_elem? rf'.match_index rf.me ≡ some (last_log_index rf.log))
        × ((i : ℕ)
            → i < rf.peers
            → (get_elem? rf'.next_index i ≡ some (last_log_index rf.log +ℤ pos 1))
              × (i ≢ rf.me → get_elem? rf'.match_index i ≡ some minus_one))
  unfolding become_leader broadcast
  become_leader_lem rf {rf'} h =
      let next = last_log_index rf.log +ℤ pos 1 in
      let last = last_log_index rf.log in
      let (ms, m_eq, h1) = >>=-eq-ok (store (replicate rf.peers minus_one) rf.me last) _ h in
      let (ns, n_eq, h2) = >>=-eq-ok (store (replicate rf.peers next) rf.me next) _ h1 in
      let m_len = length-replicate rf.peers minus_one in
      let n_len = length-replicate rf.peers next in
      let inside : rf.me < rf.peers = ground arith in
      let m_set : rf'.match_index ≡ set (replicate rf.peers minus_one) rf.me last = ground arith in
      let n_set : rf'.next_index ≡ set (replicate rf.peers next) rf.me next = ground arith in
      (
        ground arith,
        ground arith,
        rw n_set (length-set (replicate rf.peers next) rf.me next ∙ n_len),
        rw m_set (length-set (replicate rf.peers minus_one) rf.me last ∙ m_len),
        rw m_set (get_elem?-set_self (replicate rf.peers minus_one) rf.me last (omega arith)),
        λ i l. (
          rw n_set (elim (ℕ_discrete rf.me i) [
            | yes here ↦ rw here (get_elem?-set_self (replicate rf.peers next) i next (omega arith))
            | no there ↦
                get_elem?-set_ne (replicate rf.peers next) rf.me i next there
                ∙ get_elem?-replicate rf.peers i next l
          ]),
          λ other. rw m_set (
              get_elem?-set_ne (replicate rf.peers minus_one) rf.me i last (λ e. other (sym e))
              ∙ get_elem?-replicate rf.peers i minus_one l),
        ),
      )
