-- ===== src/Raft/History/Same.antt =====
-- A step by which no leader makes a log, and the peer stays or wins an election, keeps a history
-- as it should be.
use raft_kvs.Base.{
  ℕ, ◌<◌, pos, ◌≡◌, ◌≢◌, sym, ap, subst, ◌⊎◌, inl, arith, true, get_elem?, some, In,
}
use raft_kvs.Raft.Types.{Raft, Gob, is_leader, is_candidate}
use raft_kvs.Raft.Order.{Later, WritesAll}
use raft_kvs.Raft.Steps.{Step, IsQuiet}
use raft_kvs.Raft.Steps.Votes.{Step-Later}
use raft_kvs.Raft.Cluster.{put, Ballot, Cluster}
use raft_kvs.Raft.Cluster.Senders.{Acts}
use raft_kvs.Raft.Cluster.Well.{IsWell}
use raft_kvs.Raft.History.{History, node}
use raft_kvs.Raft.History.Sound.{IsFine, IsSound}
use raft_kvs.Raft.History.Turns.{IsCast, Turn}
use raft_kvs.Raft.History.Settle.{settle}
use raft_kvs.Raft.History.Unmoved.{IsUnmoved, same_turn, unmoved-IsFine}

module _ {C : Type 0} ⦃g : Gob C⦄ where
  -- A step by which no leader makes a log.
  pub settle_plain :
      (a b : History C) (t : Turn a b)
      → IsSound a
      → IsWell b.world
      → b.world.sent ≡ a.world.sent
      → b.world.made ≡ a.world.made
      → IsFine b t.acts.actor t.acts.after
      → IsSound b
  settle_plain a b t s w same_sent same_made f =
      settle a b t s w same_sent (λ p h new. s.ended p (subst (In p) same_made h)) f

  -- A step by which the peer learns nothing of the others.
  pub unmoved-IsSound :
      (a b : History C) (m : Acts a.world.cluster b.world.cluster)
      → Later (node a m.actor) m.after
      → IsSound a
      → IsWell b.world
      → b.world.sent ≡ a.world.sent
      → b.world.made ≡ a.world.made
      → b.acks ≡ a.acks
      → b.asked ≡ a.asked
      → ((v : Ballot)
          → In v b.world.cluster.ballots
          → In v a.world.cluster.ballots ⊎ IsCast a m.actor m.after v)
      → (is_leader m.after.state ≡ true
          → is_candidate (node a m.actor).state ≡ true
          → (b.world.cluster.ballots ≡ a.world.cluster.ballots)
            × (m.actor < a.world.cluster.size)
            × ((j k : ℕ) → get_elem? m.after.match_index j ≡ some (pos k) → j ≢ m.actor → ⊥))
      → m.after.log ≡ (node a m.actor).log
      → WritesAll (node a m.actor) m.after
      → IsUnmoved (node a m.actor) m.after
      → IsSound b
  unfolding same_turn
  unmoved-IsSound a b m later s w sent made acks asked ballots wins log writes u =
      let t =
        same_turn a b m later made acks ballots (λ q h. inl (subst (In q) asked h))
          (λ leads. log) in
      settle_plain a b t s w sent made (unmoved-IsFine a b t s w made acks asked wins log writes u)

  -- What the moves that are a step of one peer have in common.
  abbrev pub one_acts :
      (a b : Cluster C) (i : ℕ) (rf : Raft C)
      → Step (a.nodes i) rf
      → b ≡ record a { nodes = put a.nodes i rf }
      → Acts a b
  one_acts a b i rf st e = record {
    actor = i;
    after = rf;
    taken = st;
    nodes = ap (λ (x : Cluster C). x.nodes) e;
    size = ap (λ (x : Cluster C). x.size) e;
    more = λ x h. subst (λ (y : Cluster C). In x y.ballots) (sym e) h;
  }

  -- A step that changes neither log nor what is known of the others, and makes nobody a leader.
  pub rests-IsSound :
      (a b : History C) (i : ℕ) (rf : Raft C) (st : Step (node a i) rf)
      → b.world.cluster ≡ record a.world.cluster { nodes = put a.world.cluster.nodes i rf }
      → IsQuiet st
      → (is_leader rf.state ≡ true → is_leader (node a i).state ≡ true)
      → IsSound a
      → IsWell b.world
      → b.world.sent ≡ a.world.sent
      → b.world.made ≡ a.world.made
      → b.acks ≡ a.acks
      → b.asked ≡ a.asked
      → rf.log ≡ (node a i).log
      → WritesAll (node a i) rf
      → IsUnmoved (node a i) rf
      → IsSound b
  rests-IsSound a b i rf st e quiet led s w sent made acks asked log writes u =
      unmoved-IsSound a b (one_acts a.world.cluster b.world.cluster i rf st e)
        (Step-Later st (s.well.safe.on_disk i) quiet) s w sent made acks asked
        (λ v h. inl (subst (λ (x : Cluster C). In v x.ballots) e h))
        (λ leads runs. let stays = led leads in absurd (ground arith)) log writes u
