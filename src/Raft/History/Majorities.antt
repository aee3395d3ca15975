-- ===== src/Raft/History/Majorities.antt =====
-- An entry that a leader may commit was taken by a majority.
use raft_kvs.Base.{
  Option, negsuc, ℕ, suc, ◌*◌, ◌≤◌, ◌<◌, ℤ, pos, leb_ℤ, ◌==◌, ==_iff, ◌≡◌, ◌≢◌, refl, sym, subst,
  ◌∙◌, arith, true, false, ◌||◌, List, length, get_elem?, some, none, In, ℕ_discrete,
}
use raft_kvs.Raft.Types.{Raft}
use raft_kvs.Raft.Replicate.Commit.{acked, replicas, IsCommittable}
use raft_kvs.Raft.Cluster.Logs.{Made}
use raft_kvs.Raft.History.{Ack, History}
use raft_kvs.Raft.History.Acked.{Acked, IsCommitted}
use raft_kvs.Raft.History.Passing.{passing_lem}

-- The peer took more entries than `n` in the term.
abbrev pub HasMore : List Ack → ℕ → ℤ → ℕ → Type 0
HasMore acks j t n = (k : Ack) × In k acks × (k.voter ≡ j) × (k.term ≡ t) × (n < k.length)

acked-pos :
    (ms : List ℤ) (n j : ℕ)
    → acked ms n j ≡ true
    → (m : ℕ) × (get_elem? ms j ≡ some (pos m)) × (n ≤ m)
acked-pos ms n j h = go (get_elem? ms j) refl h
  where
    go :
        (o : Option ℤ)
        → get_elem? ms j ≡ o
        → (elim o [ none ↦ false | some m ↦ leb_ℤ (pos n) m ]) ≡ true
        → (m : ℕ) × (get_elem? ms j ≡ some (pos m)) × (n ≤ m)
    go none e h = absurd (ground arith)
    go (some (pos m)) e h = (m, e, ground arith)
    go (some (negsuc m)) e h = absurd (ground arith)

module _ {C : Type 0} where
  -- What is committable is committed: those that the leader counts took it.
  pub committable-IsCommitted :
      (b : History C) (i n : ℕ) (rf : Raft C) (p : Made C)
      → rf.peers ≡ b.world.cluster.size
      → rf.me ≡ i
      → IsCommittable rf n
      → length p.log ≤ suc n
      → p.term ≡ rf.current_term
      → Acked b.acks i p
      → ((j m : ℕ)
          → get_elem? rf.match_index j ≡ some (pos m)
          → j ≢ i
          → HasMore b.acks j rf.current_term m)
      → IsCommitted b p
  unfolding replicas
  committable-IsCommitted b i n rf p peers me fit short of_term own others =
      let ps = passing_lem (λ v. v == rf.me || acked rf.match_index n v) rf.peers in
      record {
        voters = ps.members;
        distinct = ps.distinct;
        inside = λ v h. subst (λ k. v < k) peers (ps.inside v h);
        took = λ v h. elim (ℕ_discrete v i) [
          | yes self ↦ subst (λ x. Acked b.acks x p) (sym self) own
          | no other ↦
              let differs : (v == rf.me) ≡ false = ground (arith, ==_iff v rf.me) in
              let counted : acked rf.match_index n v ≡ true =
                let passes = ps.passes v h in rw differs at passes in
              let (m, at_v, le) = acked-pos rf.match_index n v counted in
              let (k, in_k, at_k, term, more) = others v m at_v other in
              (k, in_k, at_k, term ∙ sym of_term, omega arith)
        ];
        most =
            let majority = fit.majority in
            let counted = ps.counted in
            subst (λ k. k < 2 * length ps.members) peers
              (subst (λ k. rf.peers < 2 * k) (sym counted) majority);
      }
