-- ===== src/Raft/History/Campaigns.antt =====
-- A peer that stands for election keeps a history as it should be.
use raft_kvs.Base.{
  ℕ, suc, ◌<◌, ◌^◌, ℤ, pos, ◌+ℤ◌, ◌<ℤ◌, ◌≤ℤ◌, wrap, wrap-incr, pos_part, ◌≡◌, refl, sym, ap, subst,
  ◌∙◌, inl, inr, arith, true, [], ◌∷◌, In,
}
use raft_kvs.Raft.Types.{Raft, Gob, RequestVoteArgs, is_leader}
use raft_kvs.Raft.Log.{last_log_index, last_log_term}
use raft_kvs.Raft.Persist.{persist}
use raft_kvs.Raft.Election.{start_election}
use raft_kvs.Raft.Steps.{Step, campaigns}
use raft_kvs.Raft.Steps.Votes.{Step-Later}
use raft_kvs.Raft.Cluster.{Cluster, put}
use raft_kvs.Raft.Cluster.Effects.{Effect, start_election-Effect}
use raft_kvs.Raft.Cluster.Senders.{Acts}
use raft_kvs.Raft.Cluster.Well.{IsWell}
use raft_kvs.Raft.Cluster.Plain.{ne_of_lt}
use raft_kvs.Raft.History.{History, node, candidacy}
use raft_kvs.Raft.History.Acked.{Acked, Keeps, Keeps-mono}
use raft_kvs.Raft.History.Sound.{IsFinal, IsFinal-mono, IsFine, IsSound}
use raft_kvs.Raft.History.Turns.{IsCast, Turn}
use raft_kvs.Raft.History.Steady.{Later-le, steady-IsFine}
use raft_kvs.Raft.History.Unmoved.{same_turn}
use raft_kvs.Raft.History.Same.{settle_plain}

-- Nothing was asked for, and nobody voted, in a term that a peer is only entering.
later_than : (t u x : ℤ) → t ≤ℤ u → u <ℤ x → t ≡ x → ⊥
later_than t u x le lt same = ne_of_lt t x (omega arith) same

module _ {C : Type 0} ⦃g : Gob C⦄ where
  start_election_lem :
      (now n : ℕ) (rf : Raft C)
      → rf.current_term ≡ pos n
      → suc n < 2 ^ 63
      → (rf.current_term <ℤ (start_election now rf).0.current_term)
        × ((start_election now rf).1.term ≡ (start_election now rf).0.current_term)
        × (is_leader (start_election now rf).0.state ≡ true → ⊥)
        × ((start_election now rf).0.commit_index ≡ rf.commit_index)
  unfolding start_election persist
  start_election_lem now n rf term fits =
      let up : wrap 63 (rf.current_term +ℤ pos 1) ≡ pos (suc n) =
        ap (λ t. wrap 63 (t +ℤ pos 1)) term ∙ wrap-incr n fits in
      (rw (up, term) (omega arith), refl, (λ h. cc), refl)

  campaigning-IsFine :
      (a b : History C) (t : Turn a b) (now n : ℕ)
      → IsSound a
      → IsWell b.world
      → (node a t.acts.actor).current_term ≡ pos n
      → suc n < 2 ^ 63
      → t.acts.after ≡ (start_election now (node a t.acts.actor)).0
      → b.world.made ≡ a.world.made
      → b.acks ≡ a.acks
      → b.asked ≡ candidacy t.acts.actor now (node a t.acts.actor) ∷ a.asked
      → IsFine b t.acts.actor t.acts.after
  campaigning-IsFine a b t now n s w term fits made_by same_made same_acks asked =
      let i = t.acts.actor in
      let old = node a i in
      let new = t.acts.after in
      let f = s.fine i in
      let x =
        subst (Effect (λ _. Unit) old) (sym made_by)
          (start_election-Effect (λ _. Unit) now n old term fits) in
      let (up', at_term, nobody', commit') = start_election_lem now n old term fits in
      let up : old.current_term <ℤ new.current_term =
        subst (λ (y : Raft C). old.current_term <ℤ y.current_term) (sym made_by) up' in
      let nobody : is_leader new.state ≡ true → ⊥ =
        subst (λ (y : Raft C). is_leader y.state ≡ true → ⊥) (sym made_by) nobody' in
      let commit : new.commit_index ≡ old.commit_index =
        ap (λ (y : Raft C). y.commit_index) made_by ∙ commit' in
      steady-IsFine a b t s w same_made same_acks (λ leads. absurd (nobody leads)) x.log x.disk
        (subst (λ l. IsFinal b l new.commit_index new.current_term) (sym x.log)
          (subst (λ c. IsFinal b old.log c new.current_term) (sym commit)
            (IsFinal-mono a b old.log old.commit_index old.current_term new.current_term t.onward
              (Later-le old new t.later) f.final)))
        (λ leads. absurd (nobody leads))
        (λ runs v in_v of_term choice p in_p took lt.
          let there = subst (In p) same_made in_p in
          let took' = subst (λ l. Acked l v.voter p) same_acks took in
          subst (λ l. Keeps b l p) (sym x.log)
            (Keeps-mono a b old.log p t.onward (elim (t.ballots v in_v) [
              | inl before ↦ absurd (
                  later_than v.term old.current_term new.current_term
                    (subst (λ k. v.term ≤ℤ (node a k).current_term) choice (s.ballots v before)) up
                    of_term)
              | inr cast ↦ f.keeps p there (subst (λ y. Acked a.acks y p) cast.voter took')
            ])))
        (λ runs q h of_term mine. elim (subst (In q) asked h) [
          | inl is ↦
              subst
                (λ l. (q.last_log_index ≡ last_log_index l) × (q.last_log_term ≡ last_log_term l))
                (sym x.log)
                (
                  ap (λ (y : RequestVoteArgs). y.last_log_index) is,
                  ap (λ (y : RequestVoteArgs). y.last_log_term) is,
                )
          | inr before ↦
              let (c, of_c, le) = s.asked q before in
              absurd (
                later_than q.term old.current_term new.current_term
                  (subst (λ k. q.term ≤ℤ (node a k).current_term) (ap pos_part (sym of_c ∙ mine))
                    le)
                  up of_term)
        ])

  pub campaigning-IsSound :
      (a b : History C) (i now n : ℕ)
      → (node a i).current_term ≡ pos n
      → suc n < 2 ^ 63
      → b.world.cluster ≡ record a.world.cluster {
        nodes = put a.world.cluster.nodes i (start_election now (node a i)).0;
        polls =
            record { peer = i; election = (start_election now (node a i)).1; voters = i ∷ [] }
            ∷ a.world.cluster.polls;
        ballots =
            record { term = (start_election now (node a i)).1.term; voter = i; choice = i }
            ∷ a.world.cluster.ballots;
      }
      → IsSound a
      → IsWell b.world
      → b.world.sent ≡ a.world.sent
      → b.world.made ≡ a.world.made
      → b.acks ≡ a.acks
      → b.asked ≡ candidacy i now (node a i) ∷ a.asked
      → IsSound b
  unfolding same_turn
  campaigning-IsSound a b i now n term fits e s w sent made acks asked =
      let old = node a i in
      let new = (start_election now old).0 in
      let step : Step old new = campaigns now n term fits refl in
      let (up, at_term, nobody, _) = start_election_lem now n old term fits in
      let m : Acts a.world.cluster b.world.cluster = record {
        actor = i;
        after = new;
        taken = step;
        nodes = ap (λ (x : Cluster C). x.nodes) e;
        size = ap (λ (x : Cluster C). x.size) e;
        more = λ x h. subst (λ (y : Cluster C). In x y.ballots) (sym e) (inr h);
      } in
      let le : (start_election now old).1.term ≤ℤ new.current_term =
        subst (λ u. u ≤ℤ new.current_term) (sym at_term) (omega arith) in
      let t =
        same_turn a b m (Step-Later step (s.well.safe.on_disk i) tt) made acks
          (λ v h. elim (subst (λ (y : Cluster C). In v y.ballots) e h) [
            | inr old_v ↦ inl old_v
            | inl is ↦ inr (
                subst (IsCast a i new) (sym is) (record {
                  voter = refl;
                  known = le;
                  asked = λ other. absurd (other refl);
                  fit = λ j other choice. absurd (other choice);
                }))
          ])
          (λ q h. elim (subst (In q) asked h) [
            | inr before ↦ inl before
            | inl is ↦ inr (
                subst
                  (λ (y : RequestVoteArgs). (y.candidate_id ≡ pos i) × (y.term ≤ℤ new.current_term))
                  (sym is) (refl, le))
          ])
          (λ leads. absurd (nobody leads)) in
      settle_plain a b t s w sent made
        (campaigning-IsFine a b t now n s w term fits refl made acks asked)
