-- ===== src/Raft/History/Unmoved.antt =====
-- The steps by which a peer commits nothing, takes no entries and does not stand for election.
use raft_kvs.Base.{
  ℕ, ◌<◌, pos, ◌<ℤ◌, ◌≤ℤ◌, ◌≡◌, ◌≢◌, sym, ap, subst, ◌∙◌, ◌⊎◌, inl, inr, arith, true, some,
  get_elem?, In,
}
use raft_kvs.Raft.Types.{Raft, Gob, RequestVoteArgs, is_leader, is_candidate}
use raft_kvs.Raft.Log.{last_log_index, last_log_term}
use raft_kvs.Raft.Order.{Later, WritesAll}
use raft_kvs.Raft.Cluster.{Ballot}
use raft_kvs.Raft.Cluster.Senders.{Acts, Acts-here, Acts-each}
use raft_kvs.Raft.Cluster.Logs.{Made}
use raft_kvs.Raft.Cluster.Well.{IsWell}
use raft_kvs.Raft.Cluster.Plain.{Step-WasActive}
use raft_kvs.Raft.History.{Ack, History, node}
use raft_kvs.Raft.History.Acked.{Acked, Keeps, Keeps-mono}
use raft_kvs.Raft.History.Sound.{IsStem, IsStem-refl, IsFinal, IsFinal-mono, IsFine, IsSound}
use raft_kvs.Raft.History.Turns.{IsNew, IsTaken, IsCast, Turn}
use raft_kvs.Raft.History.Steady.{Later-le, steady-IsFine}

-- What a peer knows of the others' logs and of what is committed stays, and nobody becomes a
-- candidate.
pub record IsUnmoved {C : Type 0} (a b : Raft C) : Type 0 where
  pub commit : b.commit_index ≡ a.commit_index
  pub stood :
      is_candidate b.state ≡ true
      → (is_candidate a.state ≡ true) × (b.current_term ≡ a.current_term)
  pub matches : is_leader b.state ≡ true → is_leader a.state ≡ true → b.match_index ≡ a.match_index

module _ {C : Type 0} ⦃g : Gob C⦄ where
  unfoldable pub make_turn :
      (a b : History C) (m : Acts a.world.cluster b.world.cluster)
      → Later (node a m.actor) m.after
      → ((p : Made C) → In p a.world.made → In p b.world.made)
      → ((p : Made C) → In p b.world.made → In p a.world.made ⊎ IsNew a b m.actor m.after p)
      → ((k : Ack) → In k a.acks → In k b.acks)
      → ((k : Ack) → In k b.acks → In k a.acks ⊎ IsTaken a b m.actor m.after k)
      → ((v : Ballot)
          → In v b.world.cluster.ballots
          → In v a.world.cluster.ballots ⊎ IsCast a m.actor m.after v)
      → ((q : RequestVoteArgs)
          → In q b.asked
          → In q a.asked ⊎ ((q.candidate_id ≡ pos m.actor) × (q.term ≤ℤ m.after.current_term)))
      → (is_leader m.after.state ≡ true
          → is_leader (node a m.actor).state ≡ true
          → IsStem m.after.current_term (node a m.actor).log m.after.log)
      → Turn a b
  make_turn a b m later more_made made more_acks acks ballots asked grows = record {
    acts = m;
    later = later;
    onward = record {
      size = m.size;
      terms =
          Acts-each a.world.cluster b.world.cluster m
            (λ v x. (node a v).current_term ≤ℤ x.current_term)
            (Later-le (node a m.actor) m.after later) (λ v. omega arith);
      made = more_made;
      acks = more_acks;
      fresh = λ k h. elim (acks k h) [
        | inl old ↦ inl old
        | inr new ↦ inr (
            new.term
            ∙ sym
                (ap (λ (x : Raft C). x.current_term) (Acts-here a.world.cluster b.world.cluster m))
            ∙ ap (λ x. (node b x).current_term) (sym new.voter))
      ];
    };
    made = made;
    acks = acks;
    ballots = ballots;
    asked = asked;
    grows = grows;
  }

  -- Nothing is made, and the log is as it was.
  unfoldable pub same_turn :
      (a b : History C) (m : Acts a.world.cluster b.world.cluster)
      → Later (node a m.actor) m.after
      → b.world.made ≡ a.world.made
      → b.acks ≡ a.acks
      → ((v : Ballot)
          → In v b.world.cluster.ballots
          → In v a.world.cluster.ballots ⊎ IsCast a m.actor m.after v)
      → ((q : RequestVoteArgs)
          → In q b.asked
          → In q a.asked ⊎ ((q.candidate_id ≡ pos m.actor) × (q.term ≤ℤ m.after.current_term)))
      → (is_leader m.after.state ≡ true → m.after.log ≡ (node a m.actor).log)
      → Turn a b
  unfolding make_turn
  same_turn a b m later made acks ballots asked same_log =
      make_turn a b m later (λ p h. subst (In p) (sym made) h) (λ p h. inl (subst (In p) made h))
        (λ k h. subst (In k) (sym acks) h) (λ k h. inl (subst (In k) acks h)) ballots asked
        (λ leads led.
          subst (IsStem m.after.current_term (node a m.actor).log) (sym (same_log leads))
            (IsStem-refl m.after.current_term (node a m.actor).log))

  unmoved_runs :
      (a b : History C) (t : Turn a b)
      → IsSound a
      → b.world.made ≡ a.world.made
      → b.acks ≡ a.acks
      → t.acts.after.log ≡ (node a t.acts.actor).log
      → IsUnmoved (node a t.acts.actor) t.acts.after
      → is_candidate t.acts.after.state ≡ true
      → (v : Ballot) → In v b.world.cluster.ballots
      → v.term ≡ t.acts.after.current_term
      → v.choice ≡ t.acts.actor
      → (p : Made C) → In p b.world.made
      → Acked b.acks v.voter p
      → p.term <ℤ t.acts.after.current_term
      → Keeps b t.acts.after.log p
  unmoved_runs a b t s same_made same_acks same_log u runs v in_v of_term choice p in_p took lt =
      let i = t.acts.actor in
      let f = s.fine i in
      let (stood, same_term) = u.stood runs in
      let there = subst (In p) same_made in_p in
      let took' = subst (λ l. Acked l v.voter p) same_acks took in
      subst (λ l. Keeps b l p) (sym same_log)
        (Keeps-mono a b (node a i).log p t.onward (elim (t.ballots v in_v) [
          | inl old ↦
              f.runs stood v old (of_term ∙ same_term) choice p there took'
                (subst (λ x. p.term <ℤ x) same_term lt)
          | inr cast ↦ f.keeps p there (subst (λ x. Acked a.acks x p) cast.voter took')
        ]))

  pub unmoved-IsFine :
      (a b : History C) (t : Turn a b)
      → IsSound a
      → IsWell b.world
      → b.world.made ≡ a.world.made
      → b.acks ≡ a.acks
      → b.asked ≡ a.asked
      → (is_leader t.acts.after.state ≡ true
          → is_candidate (node a t.acts.actor).state ≡ true
          → (b.world.cluster.ballots ≡ a.world.cluster.ballots)
            × (t.acts.actor < a.world.cluster.size)
            × ((j m : ℕ)
                → get_elem? t.acts.after.match_index j ≡ some (pos m)
                → j ≢ t.acts.actor
                → ⊥))
      → t.acts.after.log ≡ (node a t.acts.actor).log
      → WritesAll (node a t.acts.actor) t.acts.after
      → IsUnmoved (node a t.acts.actor) t.acts.after
      → IsFine b t.acts.actor t.acts.after
  unmoved-IsFine a b t s w same_made same_acks same_asked wins same_log writes u =
      let i = t.acts.actor in
      let old = node a i in
      let new = t.acts.after in
      let f = s.fine i in
      let was = Step-WasActive t.acts.taken in
      steady-IsFine a b t s w same_made same_acks
        (λ leads stood. ((wins leads stood).0, (wins leads stood).1)) same_log writes
        (subst (λ l. IsFinal b l new.commit_index new.current_term) (sym same_log)
          (subst (λ c. IsFinal b old.log c new.current_term) (sym u.commit)
            (IsFinal-mono a b old.log old.commit_index old.current_term new.current_term t.onward
              (Later-le old new t.later) f.final)))
        (λ leads j m at_j not_self.
          let (active, same_term) = was leads in
          elim active [
            | inl led ↦
                let (k, in_k, at_k, of_term, lt) =
                  f.matched led j m (ap (λ l. get_elem? l j) (sym (u.matches leads led)) ∙ at_j)
                    not_self in
                (k, t.onward.acks k in_k, at_k, of_term ∙ sym same_term, lt)
            | inr stood ↦ absurd ((wins leads stood).2 j m at_j not_self)
          ])
        (unmoved_runs a b t s same_made same_acks same_log u)
        (λ runs q h of_term mine.
          let (stood, same_term) = u.stood runs in
          subst (λ l. (q.last_log_index ≡ last_log_index l) × (q.last_log_term ≡ last_log_term l))
            (sym same_log) (f.asks stood q (subst (In q) same_asked h) (of_term ∙ same_term) mine))
