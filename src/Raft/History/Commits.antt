-- ===== src/Raft/History/Commits.antt =====
-- A leader commits only what a majority took in its term.
use raft_kvs.Base.{
  ℕ, suc, pos, ◌+ℤ◌, ◌<ℤ◌, ◌≤ℤ◌, ◌≡◌, ◌≢◌, sym, ap, subst, ◌∙◌, inl, inr, arith, true, length, take,
  set, get_elem?, get_elem?-set_self, get_elem?-set_ne, some, ok, In, ℕ_discrete, take_of_length-le,
}
use raft_kvs.Raft.Types.{Raft, Gob, AppendEntriesArgs, AppendEntriesReply, is_leader, is_candidate}
use raft_kvs.Raft.Order.{WritesAll}
use raft_kvs.Raft.Replicate.{on_append_reply}
use raft_kvs.Raft.Steps.{Step, reads_match}
use raft_kvs.Raft.Steps.Votes.{Step-Later}
use raft_kvs.Raft.Steps.Roles.{Step-Stays}
use raft_kvs.Raft.Cluster.{Cluster, put}
use raft_kvs.Raft.Cluster.Effects.{on_append_reply-Effect}
use raft_kvs.Raft.Cluster.Logs.{Made, length-take_of_get}
use raft_kvs.Raft.Cluster.Well.{IsWell}
use raft_kvs.Raft.History.{History, node}
use raft_kvs.Raft.History.Acked.{Acked-mono}
use raft_kvs.Raft.History.Prefixes.{get_of_lt}
use raft_kvs.Raft.History.Sound.{IsFinal, IsFinal-mono, IsFine, IsSound}
use raft_kvs.Raft.History.Turns.{Turn}
use raft_kvs.Raft.History.Steady.{steady-IsFine}
use raft_kvs.Raft.History.Learns.{IsMatched, on_append_reply_learns}
use raft_kvs.Raft.History.Majorities.{HasMore, committable-IsCommitted}
use raft_kvs.Raft.History.Unmoved.{same_turn}
use raft_kvs.Raft.History.Same.{one_acts, settle_plain, rests-IsSound}

module _ {C : Type 0} ⦃g : Gob C⦄ where
  module _ (a b : History C) (t : Turn a b) (server : ℕ) (args : AppendEntriesArgs C)
      (s : IsSound a) (w : IsWell b.world) (made : b.world.made ≡ a.world.made)
      (acks : b.acks ≡ a.acks) (leads : is_leader (node a t.acts.actor).state ≡ true)
      (of_term : args.term ≡ (node a t.acts.actor).current_term)
      (log : t.acts.after.log ≡ (node a t.acts.actor).log)
      (term : t.acts.after.current_term ≡ (node a t.acts.actor).current_term)
      (k : IsMatched server args (node a t.acts.actor) t.acts.after)
      (told : (n : ℕ) × In (record { voter = server; term = args.term; length = n }) a.acks
        × (args.prev_log_index +ℤ pos (length args.entries) <ℤ pos n)) where
    -- What the leader now knows that another peer has, that peer took.
    still_matched :
        (j n : ℕ)
        → get_elem? (set (node a t.acts.actor).match_index server k.known) j ≡ some (pos n)
        → j ≢ t.acts.actor
        → HasMore a.acks j (node a t.acts.actor).current_term n
    still_matched j n at_j other =
        let ms = (node a t.acts.actor).match_index in
        let f = s.fine t.acts.actor in
        elim (ℕ_discrete server j) [
          | no differs ↦
              f.matched leads j n (sym (get_elem?-set_ne ms server j k.known differs) ∙ at_j) other
          | yes same ↦
              let inside = get_of_lt ms server k.before k.was in
              let found : get_elem? (set ms server k.known) j ≡ some k.known =
                subst (λ x. get_elem? (set ms server k.known) x ≡ some k.known) same
                  (get_elem?-set_self ms server k.known inside) in
              let is_n : k.known ≡ pos n =
                let both : some k.known ≡ some (pos n) = sym found ∙ at_j in ground arith in
              elim k.which [
                | inl old ↦
                    f.matched leads j n
                      (ap (get_elem? ms) (sym same) ∙ k.was ∙ ap some (sym old ∙ is_n)) other
                | inr carried ↦
                    let (m, in_m, lt) = told in
                    let lt' : pos n <ℤ pos m = subst (λ x. x <ℤ pos m) (sym carried ∙ is_n) lt in
                    (_, in_m, same, of_term, omega arith)
              ]
        ]

    -- What the leader commits, a majority took.
    learns-IsFinal :
        IsFinal b
          (node a t.acts.actor).log
          t.acts.after.commit_index
          (node a t.acts.actor).current_term
    learns-IsFinal =
        let i = t.acts.actor in
        let old = node a i in
        let f = s.fine i in
        elim k.advanced [
          | inl (same, _) ↦
              subst (λ c. IsFinal b old.log c old.current_term)
                (sym (ap (λ (x : Raft C). x.commit_index) same ∙ k.commit))
                (IsFinal-mono a b old.log old.commit_index old.current_term old.current_term
                  t.onward (omega arith) f.final)
          | inr (n, is, _, _, fit, _) ↦
              let there : get_elem? old.log n ≡ some fit.entry =
                subst (λ l. get_elem? l n ≡ some fit.entry) k.log fit.there in
              let p : Made C = record { log = take (suc n) old.log; term = fit.entry.term } in
              let in_a : In p a.world.made = (s.well.logs i).prefix n fit.entry there in
              let now : fit.entry.term ≡ old.current_term = fit.current ∙ k.term in
              let long = length-take_of_get old.log n fit.entry there in
              inr (record {
                whole = p;
                index = n;
                is = ap (λ (x : Raft C). x.commit_index) is;
                known = subst (In p) (sym made) in_a;
                committed =
                    committable-IsCommitted b i n k.middle p
                      (k.peers ∙ s.well.safe.peers i ∙ sym t.onward.size) (k.me ∙ s.well.safe.me i)
                      fit (omega (arith, long)) fit.current
                      (Acked-mono a b i p t.onward (f.own leads p in_a now))
                      (λ j m at_j other.
                        subst (λ u. HasMore b.acks j u m) (sym k.term)
                          (subst (λ l. HasMore l j old.current_term m) (sym acks)
                            (still_matched j m (ap (λ l. get_elem? l j) (sym k.learned) ∙ at_j)
                              other)));
                early = subst (λ u. u ≤ℤ old.current_term) (sym now) (omega arith);
                inside = omega (arith, long);
                same = sym (take_of_length-le (suc n) p.log (omega (arith, long)));
              })
        ]

    learns-IsFine :
        WritesAll (node a t.acts.actor) t.acts.after
        → (is_candidate t.acts.after.state ≡ true → ⊥)
        → IsFine b t.acts.actor t.acts.after
    learns-IsFine writes idle =
        let i = t.acts.actor in
        let old = node a i in
        let new = t.acts.after in
        steady-IsFine a b t s w made acks (λ l runs. absurd (ground (arith, leads))) log writes
          (subst (λ l. IsFinal b l new.commit_index new.current_term) (sym log)
            (subst (IsFinal b old.log new.commit_index) (sym term) learns-IsFinal))
          (λ l j n at_j other.
            subst (λ u. HasMore b.acks j u n) (sym term)
              (subst (λ x. HasMore x j old.current_term n) (sym acks)
                (still_matched j n (ap (λ y. get_elem? y j) (sym k.matches) ∙ at_j) other)))
          (λ runs. absurd (idle runs)) (λ runs. absurd (idle runs))

  matched_rest :
      (server : ℕ) (args : AppendEntriesArgs C) (rf b : Raft C)
      → is_leader rf.state ≡ true
      → IsMatched server args rf b
      → (is_candidate b.state ≡ true → ⊥) × (b.current_term ≡ rf.current_term)
  matched_rest server args rf b leads k = elim k.advanced [
    | inl (same, _) ↦
        let st = ap (λ (x : Raft C). x.state) same ∙ k.state in
        ((λ runs. ground (arith, st)), ap (λ (x : Raft C). x.current_term) same ∙ k.term)
    | inr (n, is, _, _, _, _) ↦
        let st : b.state ≡ rf.state = ap (λ (x : Raft C). x.state) is ∙ k.state in
        ((λ runs. ground (arith, st)), ap (λ (x : Raft C). x.current_term) is ∙ k.term)
  ]

  pub reads_match-IsSound :
      (a b : History C) (i server : ℕ) (args : AppendEntriesArgs C) (reply : AppendEntriesReply)
      (rf : Raft C) (ran : on_append_reply server args reply (node a i) ≡ ok rf)
      → b.world.cluster ≡ record a.world.cluster { nodes = put a.world.cluster.nodes i rf }
      → IsSound a
      → IsWell b.world
      → (reply.success ≡ true
          → (n : ℕ) × In (record { voter = server; term = args.term; length = n }) a.acks
            × (args.prev_log_index +ℤ pos (length args.entries) <ℤ pos n))
      → b.world.sent ≡ a.world.sent
      → b.world.made ≡ a.world.made
      → b.acks ≡ a.acks
      → b.asked ≡ a.asked
      → IsSound b
  unfolding same_turn
  reads_match-IsSound a b i server args reply rf ran e s w told sent made acks asked =
      let st : Step (node a i) rf = reads_match server args reply ran in
      let x = on_append_reply-Effect server args reply (node a i) ran in
      elim (on_append_reply_learns server args reply (node a i) ran) [
        | inl rests ↦
            rests-IsSound a b i rf st e tt (Step-Stays st tt).led s w sent made acks asked x.log
              x.disk rests
        | inr (leads, of_term, success, learned) ↦
            let k = learned (
              let inside = (s.fine i).inside leads in
              omega (arith, inside, s.well.safe.me i, s.well.safe.peers i)) in
            let (idle, term) = matched_rest server args (node a i) rf leads k in
            let t =
              same_turn a b (one_acts a.world.cluster b.world.cluster i rf st e)
                (Step-Later st (s.well.safe.on_disk i) tt) made acks
                (λ v h. inl (subst (λ (y : Cluster C). In v y.ballots) e h))
                (λ q h. inl (subst (In q) asked h)) (λ l. x.log) in
            settle_plain a b t s w sent made (
              learns-IsFine a b t server args s w made acks leads of_term x.log term k
                (told success) x.disk idle)
      ]
