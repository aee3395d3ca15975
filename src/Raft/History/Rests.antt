-- ===== src/Raft/History/Rests.antt =====
-- The operations that leave what a peer knows of the others, and of what is committed, as it is.
use raft_kvs.Base.{
  length-replicate, ◌<◌, ℕ, ℤ, pos, minus_one, ◌≡◌, ◌≢◌, refl, sym, ap, subst, ◌∙◌, inl, inr, arith,
  true, false, some, ok, dec_lt, get_elem?, get_elem?_of_le,
}
use raft_kvs.Raft.Types.{
  Raft, Gob, LogEntry, RequestVoteArgs, RequestVoteReply, is_leader, is_candidate,
}
use raft_kvs.Raft.Persist.{persist}
use raft_kvs.Raft.Broadcast.{broadcast}
use raft_kvs.Raft.Election.{
  Election, request_vote, on_vote_reply, become_follower, become_leader, can_vote,
}
use raft_kvs.Raft.Election.Majority.{become_leader_lem}
use raft_kvs.Raft.Node.{heartbeat, kill, abort_pending_commands, apply_entry}
use raft_kvs.Raft.Cluster.Effects.{on_vote_reply-cases}
use raft_kvs.Raft.History.Unmoved.{IsUnmoved}

module _ {C : Type 0} ⦃g : Gob C⦄ where
  pub IsUnmoved-refl : (a : Raft C) → IsUnmoved a a
  IsUnmoved-refl a = record { commit = refl; stood = λ h. (h, refl); matches = λ h k. refl }

  pub become_follower-IsUnmoved : (t : ℤ) (rf : Raft C) → IsUnmoved rf (become_follower t rf)
  unfolding become_follower persist
  become_follower-IsUnmoved t rf = record { commit = refl; stood = λ h. cc; matches = λ h k. refl }

  pub request_vote-IsUnmoved :
      (now : ℕ) (args : RequestVoteArgs) (rf : Raft C) → IsUnmoved rf (request_vote now args rf).0
  unfolding request_vote become_follower persist can_vote
  request_vote-IsUnmoved now args rf = record {
    commit = ground arith;
    stood = ground arith;
    matches = ground arith;
  }

  leader_counts_none :
      (e : Election) (reply : RequestVoteReply) (rf : Raft C) {b : Raft C} {e' : Election}
      → on_vote_reply e reply rf ≡ ok (b, e')
      → is_leader rf.state ≡ true
      → b ≡ rf
  unfolding on_vote_reply
  leader_counts_none e reply rf h leads =
      let idle : is_candidate rf.state ≡ false = ground arith in ground arith

  become_leader_rest :
      (rf : Raft C) {b : Raft C}
      → become_leader rf ≡ ok b
      → (b.commit_index ≡ rf.commit_index) × (is_leader b.state ≡ true)
  unfolding become_leader broadcast
  become_leader_rest rf h = ground arith

  pub on_vote_reply-IsUnmoved :
      (e : Election) (reply : RequestVoteReply) (rf : Raft C) {b : Raft C} {e' : Election}
      → on_vote_reply e reply rf ≡ ok (b, e')
      → IsUnmoved rf b
  on_vote_reply-IsUnmoved e reply rf {b} h = elim (on_vote_reply-cases e reply rf h) [
    | inl same ↦ subst (IsUnmoved rf) (sym same) (IsUnmoved-refl rf)
    | inr (inl down) ↦ subst (IsUnmoved rf) (sym down) (become_follower-IsUnmoved reply.term rf)
    | inr (inr up) ↦
        let (commit, leads) = become_leader_rest rf up in
        record {
          commit = commit;
          stood = λ runs. absurd (ground arith);
          matches =
              λ l led. ap (λ (x : Raft C). x.match_index) (leader_counts_none e reply rf h led);
        }
  ]

  none_known :
      (rf : Raft C) (j m : ℕ) {b : Raft C}
      → become_leader rf ≡ ok b
      → get_elem? b.match_index j ≡ some (pos m)
      → j ≢ rf.me
      → ⊥
  none_known rf j m {b} ran at_j other =
      let (_, _, _, long, _, each) = become_leader_lem rf ran in
      elim (dec_lt j rf.peers) [
        | yes inside ↦ let unknown = (each j inside).1 other in absurd (ground arith)
        | no out ↦
            let none_there = get_elem?_of_le b.match_index j (omega arith) in absurd (ground arith)
      ]

  down_idle : (t : ℤ) (rf : Raft C) → is_leader (become_follower t rf).state ≡ true → ⊥
  unfolding become_follower persist
  down_idle t rf h = ground arith

  -- A new leader knows of no entry that another peer has.
  pub on_vote_reply_unknown :
      (e : Election) (reply : RequestVoteReply) (rf : Raft C) {b : Raft C} {e' : Election}
      → on_vote_reply e reply rf ≡ ok (b, e')
      → is_leader b.state ≡ true
      → is_candidate rf.state ≡ true
      → (j m : ℕ) → get_elem? b.match_index j ≡ some (pos m)
      → j ≢ rf.me
      → ⊥
  on_vote_reply_unknown e reply rf {b} h leads runs = λ j m at_j other.
      elim (on_vote_reply-cases e reply rf h) [
        | inl same ↦
            let led : is_leader rf.state ≡ true =
              ap (λ (x : Raft C). is_leader x.state) (sym same) ∙ leads in
            absurd (ground arith)
        | inr (inl down) ↦
            let led = ap (λ (x : Raft C). is_leader x.state) (sym down) ∙ leads in
            absurd (down_idle reply.term rf led)
        | inr (inr up) ↦ none_known rf j m up at_j other
      ]

  become_leader_inside : (rf : Raft C) {b : Raft C} → become_leader rf ≡ ok b → rf.me < rf.peers
  unfolding become_leader
  become_leader_inside rf h = let long = length-replicate rf.peers minus_one in ground arith

  pub new_leader_inside :
      (e : Election) (reply : RequestVoteReply) (rf : Raft C) {b : Raft C} {e' : Election}
      → on_vote_reply e reply rf ≡ ok (b, e')
      → is_leader b.state ≡ true
      → is_candidate rf.state ≡ true
      → rf.me < rf.peers
  new_leader_inside e reply rf h leads runs = elim (on_vote_reply-cases e reply rf h) [
    | inl same ↦
        let led = ap (λ (x : Raft C). is_leader x.state) (sym same) ∙ leads in absurd (ground arith)
    | inr (inl down) ↦
        let led = ap (λ (x : Raft C). is_leader x.state) (sym down) ∙ leads in
        absurd (down_idle reply.term rf led)
    | inr (inr up) ↦ become_leader_inside rf up
  ]

  pub heartbeat-IsUnmoved :
      (now : ℕ) (rf : Raft C) {b : Raft C} → heartbeat now rf ≡ ok b → IsUnmoved rf b
  unfolding heartbeat broadcast
  heartbeat-IsUnmoved now rf h = record {
    commit = ground arith;
    stood = ground arith;
    matches = ground arith;
  }

  pub apply_entry-IsUnmoved :
      (index : ℤ) (e : LogEntry C) (rf : Raft C) → IsUnmoved rf (apply_entry index e rf)
  unfolding apply_entry
  apply_entry-IsUnmoved index e rf = record {
    commit = refl;
    stood = λ h. (h, refl);
    matches = λ h k. refl;
  }

  pub kill-IsUnmoved : (rf : Raft C) {b : Raft C} → kill rf ≡ ok b → IsUnmoved rf b
  unfolding kill abort_pending_commands
  kill-IsUnmoved rf h = record {
    commit = ground arith;
    stood = ground arith;
    matches = ground arith;
  }
