-- ===== src/Raft/History/Steady.antt =====
-- A step that leaves a peer its log: it is as it should be after it, also where it becomes the
-- leader.
use raft_kvs.Base.{
  ℕ, ◌≤◌, pos, ◌<ℤ◌, ◌≤ℤ◌, ◌≡◌, ◌≢◌, refl, sym, ap, subst, ◌∙◌, inl, inr, arith, true, some, length,
  In, get_elem?, ◌<◌,
}
use raft_kvs.Raft.Types.{Raft, Gob, Stored, is_leader, is_candidate, RequestVoteArgs}
use raft_kvs.Raft.Log.{last_log_index, last_log_term}
use raft_kvs.Raft.Order.{Later, WritesAll, IsDurable}
use raft_kvs.Persister.{Persister}
use raft_kvs.Raft.Persist.{stored}
use raft_kvs.Raft.Cluster.{Ballot}
use raft_kvs.Raft.Cluster.Invariant.{Elected}
use raft_kvs.Raft.Cluster.Senders.{Acts-here}
use raft_kvs.Raft.Cluster.Logs.{Made}
use raft_kvs.Raft.Cluster.Well.{IsActive, IsWell}
use raft_kvs.Raft.Cluster.Plain.{ne_of_lt, Step-WasActive}
use raft_kvs.Raft.History.{Ack, History, node}
use raft_kvs.Raft.History.Acked.{Acked, Acked-mono, Keeps, Keeps-mono, some-Took}
use raft_kvs.Raft.History.Prefixes.{IsPre, IsPre-refl}
use raft_kvs.Raft.History.Sound.{IsBelow, IsBelow-up, IsFinal, IsFine, IsSound}
use raft_kvs.Raft.History.Turns.{Turn, voted_le, no_new_leader}

module _ {C : Type 0} ⦃g : Gob C⦄ where
  pub encode-inj : (s s' : Stored C) → g.encode s ≡ g.encode s' → s ≡ s'
  encode-inj s s' e =
      let h = g.decode-encode s in
      let h' = g.decode-encode s' in
      let q : some s ≡ some s' = sym h ∙ ap g.decode e ∙ h' in ground arith

  pub Later-le : (a b : Raft C) → Later a b → a.current_term ≤ℤ b.current_term
  Later-le a b (inl up) = omega arith
  Later-le a b (inr (same, _)) = subst (λ t. a.current_term ≤ℤ t) (sym same) (omega arith)

  -- What the disk holds goes on where the log ends.
  abbrev pub DiskIsFine : Raft C → Type 0
  DiskIsFine rf =
      (s : Stored C)
      → rf.persister.raftstate ≡ g.encode s
      → IsBelow rf.current_term s.log × IsPre rf.log s.log

  pub durable-DiskIsFine :
      (rf : Raft C) → IsDurable rf → IsBelow rf.current_term rf.log → DiskIsFine rf
  durable-DiskIsFine rf durable below = λ s e.
      let same = encode-inj (stored rf) s (sym durable ∙ e) in
      subst (λ (x : Stored C). IsBelow rf.current_term x.log × IsPre rf.log x.log) same
        (below, IsPre-refl rf.log)

  WritesAll-DiskIsFine :
      (a b : Raft C) → WritesAll a b → IsBelow b.current_term b.log → DiskIsFine a → DiskIsFine b
  WritesAll-DiskIsFine a b (inl (same, kept)) below f = λ s e.
      subst (λ (x : Stored C). IsBelow x.term s.log × IsPre x.log s.log) (sym kept)
        (f s (ap (λ (p : Persister). p.raftstate) (sym same) ∙ e))
  WritesAll-DiskIsFine a b (inr durable) below f = durable-DiskIsFine b durable below

  -- A peer that wins an election keeps what may be committed: one of its voters has it, or none.
  winner-Keeps :
      (a b : History C) (t : Turn a b) (p : Made C)
      → IsSound a
      → IsWell b.world
      → b.acks ≡ a.acks
      → b.world.cluster.ballots ≡ a.world.cluster.ballots
      → is_leader t.acts.after.state ≡ true
      → is_candidate (node a t.acts.actor).state ≡ true
      → t.acts.after.current_term ≡ (node a t.acts.actor).current_term
      → In p a.world.made
      → p.term <ℤ (node a t.acts.actor).current_term
      → Keeps b (node a t.acts.actor).log p
  winner-Keeps a b t p s w same_acks same_ballots leads runs same_term in_p lt =
      let i = t.acts.actor in
      let old = node a i in
      let there = Acts-here a.world.cluster b.world.cluster t.acts in
      let e : Elected b.world.cluster.size b.world.cluster.ballots old.current_term i =
        subst (λ u. Elected b.world.cluster.size b.world.cluster.ballots u i) same_term
          (subst
            (λ (x : Raft C). Elected b.world.cluster.size b.world.cluster.ballots x.current_term i)
            there (w.safe.elected i (ap (λ (x : Raft C). is_leader x.state) there ∙ leads))) in
      elim (some-Took a.acks p.term (length p.log) e.voters) [
        | inl (v, in_v, took) ↦ Keeps-mono a b old.log p t.onward (
            (s.fine i).runs runs (record { term = old.current_term; voter = v; choice = i })
              (subst (In (record { term = old.current_term; voter = v; choice = i })) same_ballots
                (e.chose v in_v))
              refl refl p in_p took lt)
        | inr none_took ↦ inr (record {
          voters = e.voters;
          distinct = e.distinct;
          inside = λ v h. w.safe.known _ (e.chose v h);
          past = λ v h.
              let up = voted_le (node b v) old.current_term i (w.safe.held _ (e.chose v h)) in
              omega arith;
          missed = λ v h took. none_took v h (subst (λ l. Acked l v p) same_acks took);
          most = e.most;
        })
      ]

  -- A new leader finds nothing of its term: nothing was made, and nothing taken.
  steady_own :
      (a b : History C) (t : Turn a b) (p : Made C)
      → IsSound a
      → IsWell b.world
      → is_leader t.acts.after.state ≡ true
      → IsActive (node a t.acts.actor)
      → In p a.world.made
      → p.term ≡ t.acts.after.current_term
      → t.acts.after.current_term ≡ (node a t.acts.actor).current_term
      → Acked b.acks t.acts.actor p
  steady_own a b t p s w leads (inl led) in_p of_term same_term =
      Acked-mono a b t.acts.actor p t.onward
        ((s.fine t.acts.actor).own led p in_p (of_term ∙ same_term))
  steady_own a b t p s w leads (inr stood) in_p of_term same_term = elim (s.well.makers p in_p) [
    | inl is_root ↦ absurd (
        ne_of_lt (pos 0) (node a t.acts.actor).current_term (s.well.ranks t.acts.actor (inr stood))
          (ap (λ (x : Made C). x.term) (sym is_root) ∙ of_term ∙ same_term))
    | inr led ↦ absurd (no_new_leader a b t p.term s.well w.safe led leads stood same_term of_term)
  ]

  steady_bound :
      (a b : History C) (t : Turn a b) (k : Ack)
      → IsSound a
      → IsWell b.world
      → is_leader t.acts.after.state ≡ true
      → IsActive (node a t.acts.actor)
      → In k a.acks
      → k.term ≡ t.acts.after.current_term
      → t.acts.after.current_term ≡ (node a t.acts.actor).current_term
      → k.length ≤ length (node a t.acts.actor).log
  steady_bound a b t k s w leads (inl led) in_k of_term same_term =
      (s.fine t.acts.actor).bound led k in_k (of_term ∙ same_term)
  steady_bound a b t k s w leads (inr stood) in_k of_term same_term =
      absurd
        (no_new_leader a b t k.term s.well w.safe (s.acks k in_k).1 leads stood same_term of_term)

  pub steady-IsFine :
      (a b : History C) (t : Turn a b)
      → IsSound a
      → IsWell b.world
      → b.world.made ≡ a.world.made
      → b.acks ≡ a.acks
      → (is_leader t.acts.after.state ≡ true
          → is_candidate (node a t.acts.actor).state ≡ true
          → (b.world.cluster.ballots ≡ a.world.cluster.ballots)
            × (t.acts.actor < a.world.cluster.size))
      → t.acts.after.log ≡ (node a t.acts.actor).log
      → WritesAll (node a t.acts.actor) t.acts.after
      → IsFinal b t.acts.after.log t.acts.after.commit_index t.acts.after.current_term
      → (is_leader t.acts.after.state ≡ true
          → (j m : ℕ) → get_elem? t.acts.after.match_index j ≡ some (pos m)
          → j ≢ t.acts.actor
          → (k : Ack) × In k b.acks
            × (k.voter ≡ j)
            × (k.term ≡ t.acts.after.current_term)
            × (m < k.length))
      → (is_candidate t.acts.after.state ≡ true
          → (v : Ballot) → In v b.world.cluster.ballots
          → v.term ≡ t.acts.after.current_term
          → v.choice ≡ t.acts.actor
          → (p : Made C) → In p b.world.made
          → Acked b.acks v.voter p
          → p.term <ℤ t.acts.after.current_term
          → Keeps b t.acts.after.log p)
      → (is_candidate t.acts.after.state ≡ true
          → (q : RequestVoteArgs) → In q b.asked
          → q.term ≡ t.acts.after.current_term
          → q.candidate_id ≡ pos t.acts.actor
          → (q.last_log_index ≡ last_log_index t.acts.after.log)
            × (q.last_log_term ≡ last_log_term t.acts.after.log))
      → IsFine b t.acts.actor t.acts.after
  steady-IsFine a b t s w same_made same_acks wins same_log writes final matched runs asks =
      let i = t.acts.actor in
      let old = node a i in
      let new = t.acts.after in
      let f = s.fine i in
      let was = Step-WasActive t.acts.taken in
      let below : IsBelow new.current_term new.log =
        subst (IsBelow new.current_term) (sym same_log) (
          IsBelow-up old.current_term new.current_term old.log (Later-le old new t.later)
            f.below) in
      let before : (p : Made C) → In p b.world.made → In p a.world.made =
        λ p h. subst (In p) same_made h in
      record {
        below = below;
        disk = WritesAll-DiskIsFine old new writes below f.disk;
        keeps = λ p h took.
            subst (λ l. Keeps b l p) (sym same_log)
              (Keeps-mono a b old.log p t.onward
                (f.keeps p (before p h) (subst (λ l. Acked l i p) same_acks took)));
        final = final;
        inside = λ leads.
            subst (λ n. i < n) (sym t.onward.size)
              (elim (was leads).0 [ inl led ↦ f.inside led | inr stood ↦ (wins leads stood).1 ]);
        heir = λ leads p h lt.
            let (active, same_term) = was leads in
            let lt' = subst (λ u. p.term <ℤ u) same_term lt in
            subst (λ l. Keeps b l p) (sym same_log)
              (elim active [
                | inl led ↦ Keeps-mono a b old.log p t.onward (f.heir led p (before p h) lt')
                | inr stood ↦
                    winner-Keeps a b t p s w same_acks (wins leads stood).0 leads stood same_term
                      (before p h) lt'
              ]);
        own = λ leads p h of_term.
            let (active, same_term) = was leads in
            steady_own a b t p s w leads active (before p h) of_term same_term;
        bound = λ leads k h of_term.
            let (active, same_term) = was leads in
            subst (λ l. k.length ≤ length l) (sym same_log)
              (steady_bound a b t k s w leads active (subst (In k) same_acks h) of_term same_term);
        matched = matched;
        runs = runs;
        asks = asks;
      }
