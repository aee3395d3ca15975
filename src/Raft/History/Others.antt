-- ===== src/Raft/History/Others.antt =====
-- An event leaves the peers that do nothing, and the requests under way, as they should be.
use raft_kvs.Base.{ℕ, ◌<◌, ◌<ℤ◌, ◌≡◌, ◌≢◌, sym, ap, subst, ◌∙◌, inl, inr, arith, true, In, pos_part}
use raft_kvs.Raft.Types.{Gob, AppendEntriesArgs, is_leader, is_candidate}
use raft_kvs.Raft.Cluster.{Ballot}
use raft_kvs.Raft.Cluster.Invariant.{Elected, IsSafe}
use raft_kvs.Raft.Cluster.Safety.{Elected-same}
use raft_kvs.Raft.Cluster.Senders.{Acts-each, Elected-Acts}
use raft_kvs.Raft.Cluster.Logs.{Made, IsKnown-mono}
use raft_kvs.Raft.Cluster.Well.{IsLed-Acts, IsWell}
use raft_kvs.Raft.Cluster.Plain.{ne_of_lt, Step-WasActive}
use raft_kvs.Raft.History.{History, node}
use raft_kvs.Raft.History.Acked.{Acked, Acked-mono, Acked-back, Keeps, Keeps-mono}
use raft_kvs.Raft.History.Turns.{Turn, voted_le, here_term, late-IsDead, no_new_leader}
use raft_kvs.Raft.History.Sound.{IsStem, IsStem-trans, IsFinal-mono, IsApt, IsFine}

module _ {C : Type 0} ⦃g : Gob C⦄ where
  -- A peer that did nothing took nothing.
  not_taken :
      (a b : History C) (t : Turn a b) (j : ℕ) (p : Made C)
      → t.acts.actor ≢ j
      → Acked b.acks j p
      → Acked a.acks j p
  not_taken a b t j p other (k, h, at_j, of_term, long) = elim (t.acks k h) [
    | inl old ↦ (k, old, at_j, of_term, long)
    | inr new ↦ absurd (other (sym new.voter ∙ at_j))
  ]

  others_run :
      (a b : History C) (t : Turn a b) (j : ℕ)
      → IsFine a j (node a j)
      → IsSafe b.world.cluster
      → t.acts.actor ≢ j
      → is_candidate (node a j).state ≡ true
      → (v : Ballot) → In v b.world.cluster.ballots
      → v.term ≡ (node a j).current_term
      → v.choice ≡ j
      → (p : Made C) → In p b.world.made
      → Acked b.acks v.voter p
      → p.term <ℤ (node a j).current_term
      → Keeps b (node a j).log p
  others_run a b t j f safe other runs v in_v of_term choice p in_p took lt =
      let i = t.acts.actor in
      let up = voted_le (node b v.voter) v.term v.choice (safe.held v in_v) in
      let past : p.term <ℤ (node b v.voter).current_term =
        let lt' = subst (λ u. p.term <ℤ u) (sym of_term) lt in omega arith in
      let before = Acked-back a b v.voter p t.onward past took in
      elim (t.made p in_p) [
        | inr new ↦ absurd (
            ne_of_lt p.term (node b i).current_term
              (subst (λ x. p.term <ℤ (node b x).current_term) (new.alone v.voter took) past)
              (new.term ∙ sym (here_term a b t)))
        | inl old ↦ Keeps-mono a b (node a j).log p t.onward (elim (t.ballots v in_v) [
          | inl old_v ↦ f.runs runs v old_v of_term choice p old before lt
          | inr cast ↦
              cast.fit j other choice runs of_term p old
                (subst (λ x. Acked a.acks x p) cast.voter before) lt
        ])
      ]

  -- The peers that did nothing are fine still.
  pub others :
      (a b : History C) (t : Turn a b) (j : ℕ)
      → IsFine a j (node a j)
      → IsWell a.world
      → IsSafe b.world.cluster
      → t.acts.actor ≢ j
      → IsFine b j (node a j)
  others a b t j f w safe other =
      let i = t.acts.actor in
      let old_j = node a j in
      let won : is_leader old_j.state ≡ true
          → Elected b.world.cluster.size b.world.cluster.ballots old_j.current_term j =
        λ leads.
          Elected-Acts a.world.cluster b.world.cluster t.acts old_j.current_term j
            (w.safe.elected j leads) in
      record {
        below = f.below;
        disk = f.disk;
        keeps = λ p h took. elim (t.made p h) [
          | inl old ↦
              Keeps-mono a b old_j.log p t.onward (f.keeps p old (not_taken a b t j p other took))
          | inr new ↦ absurd (other (sym (new.alone j took)))
        ];
        final =
            IsFinal-mono a b old_j.log old_j.commit_index old_j.current_term old_j.current_term
              t.onward (omega arith) f.final;
        inside = λ leads. subst (λ n. j < n) (sym t.onward.size) (f.inside leads);
        heir = λ leads p h lt. elim (t.made p h) [
          | inl old ↦ Keeps-mono a b old_j.log p t.onward (f.heir leads p old lt)
          | inr new ↦ inr (late-IsDead a b t p old_j.current_term j safe new (won leads) lt)
        ];
        own = λ leads p h of_term. elim (t.made p h) [
          | inl old ↦ Acked-mono a b j p t.onward (f.own leads p old of_term)
          | inr new ↦ absurd (
              other (
                Elected-same b.world.cluster safe (node a i).current_term old_j.current_term i j
                  (sym new.before ∙ of_term)
                  (Elected-Acts a.world.cluster b.world.cluster t.acts (node a i).current_term i
                    (w.safe.elected i new.led))
                  (won leads)))
        ];
        bound = λ leads k h of_term. elim (t.acks k h) [
          | inl old ↦ f.bound leads k old of_term
          | inr new ↦ new.short j other leads of_term
        ];
        matched = λ leads v m at_v not_self.
            let (k, in_k, at_k, of_term, lt) = f.matched leads v m at_v not_self in
            (k, t.onward.acks k in_k, at_k, of_term, lt);
        runs = others_run a b t j f safe other;
        asks = λ runs q h of_term mine. elim (t.asked q h) [
          | inl old ↦ f.asks runs q old of_term mine
          | inr (new, _) ↦ absurd (other (ap pos_part (sym new ∙ mine)))
        ];
      }

  -- A leader only adds to its log; another's step makes no leader of a term that is past.
  grown :
      (a b : History C) (t : Turn a b) (args : AppendEntriesArgs C) (x : IsApt a args)
      → IsWell a.world
      → IsSafe b.world.cluster
      → is_leader t.acts.after.state ≡ true
      → t.acts.after.current_term ≡ args.term
      → IsStem args.term x.ld.log t.acts.after.log
  grown a b t args x w safe leads of_term =
      let old = node a t.acts.actor in
      let (active, same_term) = Step-WasActive t.acts.taken leads in
      elim active [
        | inl led ↦
            IsStem-trans args.term x.ld.log old.log t.acts.after.log
              (x.leads t.acts.actor led (sym same_term ∙ of_term))
              (subst (λ u. IsStem u old.log t.acts.after.log) of_term (t.grows leads led))
        | inr runs ↦
            absurd (no_new_leader a b t args.term w safe x.led leads runs same_term (sym of_term))
      ]

  -- A request that was made stays apt.
  pub IsApt-Turn :
      (a b : History C) (t : Turn a b) (args : AppendEntriesArgs C)
      → IsWell a.world
      → IsSafe b.world.cluster
      → IsApt a args
      → IsApt b args
  IsApt-Turn a b t args w safe x =
      let led = IsLed-Acts a.world.cluster b.world.cluster t.acts args.term t.later x.led in
      record {
        ld = x.ld;
        next = x.next;
        built = x.built;
        known = IsKnown-mono a.world.made b.world.made x.ld.log t.onward.made x.known;
        led = led;
        below = x.below;
        older = λ p h lt. elim (t.made p h) [
          | inl old ↦ Keeps-mono a b x.ld.log p t.onward (x.older p old lt)
          | inr new ↦
              let (_, (c, e, _)) = led in inr (late-IsDead a b t p args.term c safe new e lt)
        ];
        same = λ p h of_term. elim (t.made p h) [
          | inl old ↦ x.same p old of_term
          | inr new ↦ inr (
              subst (IsStem args.term x.ld.log) (sym new.log)
                (grown a b t args x w safe new.leads (sym new.term ∙ of_term)))
        ];
        leads =
            Acts-each a.world.cluster b.world.cluster t.acts
              (λ j rf.
                is_leader rf.state ≡ true
                → rf.current_term ≡ args.term
                → IsStem args.term x.ld.log rf.log)
              (grown a b t args x w safe) x.leads;
        final =
            IsFinal-mono a b x.ld.log args.leader_commit args.term args.term t.onward (omega arith)
              x.final;
      }
