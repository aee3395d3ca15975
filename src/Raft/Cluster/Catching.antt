-- ===== src/Raft/Cluster/Catching.antt =====
-- A leader of a cluster brings the log of any other peer up to date.
use raft_kvs.Base.{
  take-take, subst, sym, ℕ, suc, ◌≤◌, ◌<◌, pos, ◌≤ℤ◌, ◌≡◌, ap, ◌∙◌, arith, true, List, length, take,
  ok,
}
use raft_kvs.Raft.Types.{Raft, Gob, LogEntry, is_leader}
use raft_kvs.Raft.Exchange.{exchange}
use raft_kvs.Raft.Exchange.Progress.{IsSharing}
use raft_kvs.Raft.Exchange.Catches.{exchange_catches_up}
use raft_kvs.Raft.Cluster.Logs.{Made, IsKnown, IsChain, length-take_of_get}
use raft_kvs.Raft.Cluster.World.{World, start_world, Ticks, AllQuietTicks}
use raft_kvs.Raft.Cluster.Sized.{Ticks-IsSized}
use raft_kvs.Raft.Cluster.Matching.{Ticks-IsWell}

module _ {C : Type 0} where
  IsKnown-IsSharing :
      (made : List (Made C)) (l m : List (LogEntry C))
      → IsChain made
      → IsKnown made l
      → IsKnown made m
      → IsSharing l m
  IsKnown-IsSharing made l m chain k q = record {
    prefix = λ i j e f le at_l at_m same.
        let long_l = length-take_of_get l i e at_l in
        let long_m = length-take_of_get m j f at_m in
        chain.extends _ _ (k.prefix i e at_l) (q.prefix j f at_m) same
          (omega (arith, le, long_l, long_m))
        ∙ ap (λ n. take n (take (suc j) m)) long_l
        ∙ take-take (suc i) (suc j) m (omega arith);
  }

module _ {C : Type 0} ⦃g : Gob C⦄ where
  -- If a leader sends AppendEntries to a peer whose term is not newer, first for any next index
  -- `next` within its log and after each refusal as `replicateTo` does, and nothing else happens
  -- meanwhile, then one of the first `next + 1` requests is accepted, nothing panics, and the peer
  -- then has the leader's whole log. This holds in every state that a cluster of any size reaches
  -- from empty disks, if no AppendEntries reaches a candidate in its own term and the terms fit in
  -- an `int`.
  pub leader_catches_up :
      (n i j next now rounds : ℕ) {b : World C} (r : Ticks (start_world n) b)
      → AllQuietTicks r
      → is_leader (b.cluster.nodes i).state ≡ true
      → (b.cluster.nodes j).current_term ≤ℤ (b.cluster.nodes i).current_term
      → j < (b.cluster.nodes i).peers
      → next ≤ length (b.cluster.nodes i).log
      → next < rounds
      → (ld : Raft C) × (fl : Raft C) × (exchange rounds now j
            (pos next)
            (b.cluster.nodes i)
            (b.cluster.nodes j)
          ≡ ok (ld, fl, true))
        × (ld.log ≡ (b.cluster.nodes i).log)
        × (fl.log ≡ (b.cluster.nodes i).log)
  leader_catches_up n i j next now rounds {b} r quiet leads le inside within enough =
      let w = Ticks-IsWell n r quiet in
      exchange_catches_up rounds now j next (b.cluster.nodes i) (b.cluster.nodes j) enough within
        leads le (subst (λ k. j < k) (sym (Ticks-IsSized n r i leads).0) inside)
        (IsKnown-IsSharing b.made _ _ w.chain (w.logs j) (w.logs i))
