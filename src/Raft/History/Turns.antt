-- ===== src/Raft/History/Turns.antt =====
-- What the events have in common in which a peer makes a step, and what it leaves to the others.
use raft_kvs.Base.{
  ℕ, ◌≤◌, ℤ, pos, ◌<ℤ◌, ◌≤ℤ◌, ◌≡◌, ◌≢◌, sym, ap, subst, ◌∙◌, ◌⊎◌, inl, inr, arith, true, length, In,
}
use raft_kvs.Raft.Types.{Raft, Gob, RequestVoteArgs, is_leader, is_candidate}
use raft_kvs.Raft.Order.{Later}
use raft_kvs.Raft.Cluster.{Ballot}
use raft_kvs.Raft.Cluster.Invariant.{Elected, IsSafe, Holds}
use raft_kvs.Raft.Cluster.Safety.{Elected-same}
use raft_kvs.Raft.Cluster.Senders.{Acts, Acts-here, Elected-Acts}
use raft_kvs.Raft.Cluster.Logs.{Made}
use raft_kvs.Raft.Cluster.Well.{IsPast, IsLed, IsWell}
use raft_kvs.Raft.Cluster.Plain.{ne_of_lt}
use raft_kvs.Raft.History.{Ack, History, node}
use raft_kvs.Raft.History.Acked.{Acked, IsDead, Keeps, Onward}
use raft_kvs.Raft.History.Sound.{IsStem}

module _ {C : Type 0} where
  -- A leader made the log by its step, and nobody else has it.
  pub record IsNew (a b : History C) (i : ℕ) (after : Raft C) (p : Made C) : Type 0 where
    pub led : is_leader (node a i).state ≡ true
    pub leads : is_leader after.state ≡ true
    pub before : p.term ≡ (node a i).current_term
    pub term : p.term ≡ after.current_term
    pub log : p.log ≡ after.log
    pub alone : (v : ℕ) → Acked b.acks v p → v ≡ i

  -- The peer took entries by its step, no more than the leader of the term has.
  pub record IsTaken (a b : History C) (i : ℕ) (after : Raft C) (k : Ack) : Type 0 where
    pub voter : k.voter ≡ i
    pub term : k.term ≡ after.current_term
    pub led : IsLed b.world.cluster k.term
    pub short :
        (j : ℕ)
        → i ≢ j
        → is_leader (node a j).state ≡ true
        → k.term ≡ (node a j).current_term
        → k.length ≤ length (node a j).log

  -- The peer voted by its step, for one who keeps what it has.
  pub record IsCast (a : History C) (i : ℕ) (after : Raft C) (v : Ballot) : Type 0 where
    pub voter : v.voter ≡ i
    pub known : v.term ≤ℤ after.current_term
    pub asked : (i ≢ v.choice) → v.term ≤ℤ (node a v.choice).current_term
    pub fit :
        (j : ℕ)
        → i ≢ j
        → v.choice ≡ j
        → is_candidate (node a j).state ≡ true
        → v.term ≡ (node a j).current_term
        → (p : Made C) → In p a.world.made
        → Acked a.acks i p
        → p.term <ℤ (node a j).current_term
        → Keeps a (node a j).log p

module _ {C : Type 0} ⦃g : Gob C⦄ where
  pub record Turn (a b : History C) : Type 0 where
    pub acts : Acts a.world.cluster b.world.cluster
    pub later : Later (node a acts.actor) acts.after
    pub onward : Onward a b
    pub made :
        (p : Made C) → In p b.world.made → In p a.world.made ⊎ IsNew a b acts.actor acts.after p
    pub acks : (k : Ack) → In k b.acks → In k a.acks ⊎ IsTaken a b acts.actor acts.after k
    pub ballots :
        (v : Ballot)
        → In v b.world.cluster.ballots
        → In v a.world.cluster.ballots ⊎ IsCast a acts.actor acts.after v
    pub asked :
        (q : RequestVoteArgs)
        → In q b.asked
        → In q a.asked ⊎ ((q.candidate_id ≡ pos acts.actor) × (q.term ≤ℤ acts.after.current_term))
    pub grows :
        is_leader acts.after.state ≡ true
        → is_leader (node a acts.actor).state ≡ true
        → IsStem acts.after.current_term (node a acts.actor).log acts.after.log

  -- A peer is in no earlier term than that of a vote that it gave.
  pub voted_le : (rf : Raft C) (t : ℤ) (c : ℕ) → Holds rf t c → t ≤ℤ rf.current_term
  voted_le rf t c (inl lt) = omega arith
  voted_le rf t c (inr (same, _)) = subst (λ u. u ≤ℤ rf.current_term) same (omega arith)

  pub here_term :
      (a b : History C) (t : Turn a b)
      → (node b t.acts.actor).current_term ≡ t.acts.after.current_term
  here_term a b t =
      ap (λ (x : Raft C). x.current_term) (Acts-here a.world.cluster b.world.cluster t.acts)

  -- What is made only now, in an earlier term, is dead.
  pub late-IsDead :
      (a b : History C) (t : Turn a b) (p : Made C) (u : ℤ) (c : ℕ)
      → IsSafe b.world.cluster
      → IsNew a b t.acts.actor t.acts.after p
      → Elected b.world.cluster.size b.world.cluster.ballots u c
      → p.term <ℤ u
      → IsDead b p
  late-IsDead a b t p u c safe new e lt =
      let past : (v : ℕ) → In v e.voters → p.term <ℤ (node b v).current_term =
        λ v h. let up = voted_le (node b v) u c (safe.held _ (e.chose v h)) in omega arith in
      record {
        voters = e.voters;
        distinct = e.distinct;
        inside = λ v h. safe.known _ (e.chose v h);
        past = past;
        missed = λ v h took.
            let at_actor =
              subst (λ x. p.term <ℤ (node b x).current_term) (new.alone v took) (past v h) in
            ne_of_lt p.term (node b t.acts.actor).current_term at_actor
              (new.term ∙ sym (here_term a b t));
        most = e.most;
      }

  -- A term of which a leader is past has no new leader.
  pub no_new_leader :
      (a b : History C) (t : Turn a b) (u : ℤ)
      → IsWell a.world
      → IsSafe b.world.cluster
      → IsLed a.world.cluster u
      → is_leader t.acts.after.state ≡ true
      → is_candidate (node a t.acts.actor).state ≡ true
      → t.acts.after.current_term ≡ (node a t.acts.actor).current_term
      → u ≡ t.acts.after.current_term
      → ⊥
  no_new_leader a b t u w safe (_, (c, e, past)) leads runs same_term of_term =
      let i = t.acts.actor in
      let there = Acts-here a.world.cluster b.world.cluster t.acts in
      let won : Elected b.world.cluster.size b.world.cluster.ballots t.acts.after.current_term i =
        subst
          (λ (x : Raft C). Elected b.world.cluster.size b.world.cluster.ballots x.current_term i)
          there (safe.elected i (ap (λ (x : Raft C). is_leader x.state) there ∙ leads)) in
      let same : c ≡ i =
        Elected-same b.world.cluster safe u t.acts.after.current_term c i of_term
          (Elected-Acts a.world.cluster b.world.cluster t.acts u c e) won in
      let past' : IsPast (node a i) u = subst (λ k. IsPast (node a k) u) same past in
      elim past' [
        | inl lt ↦ ne_of_lt u (node a i).current_term lt (of_term ∙ same_term)
        | inr (_, idle) ↦ ground (arith, idle, runs)
      ]
