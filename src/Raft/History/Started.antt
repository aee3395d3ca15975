-- ===== src/Raft/History/Started.antt =====
-- What holds of a leader that has added an entry to its log.
use raft_kvs.Base.{
  ◌<◌, ◌<ℤ◌, ◌≡◌, refl, sym, ap, subst, ◌∙◌, inl, inr, arith, true, ◌∷◌, length, get_elem?,
  get_elem?-append_last, In,
}
use raft_kvs.Raft.Types.{Raft, Gob, LogEntry, is_leader, is_candidate}
use raft_kvs.Raft.Order.{Later}
use raft_kvs.Raft.Cluster.Senders.{Acts, Acts-here}
use raft_kvs.Raft.Cluster.Logs.{Made}
use raft_kvs.Raft.Cluster.Well.{IsWell}
use raft_kvs.Raft.Cluster.Plain.{ne_of_lt}
use raft_kvs.Raft.History.{Ack, History, node}
use raft_kvs.Raft.History.Prefixes.{IsPre, IsPre-refl}
use raft_kvs.Raft.History.Acked.{Acked, Acked-mono, Keeps, Keeps-mono, Keeps-IsPre}
use raft_kvs.Raft.History.Sound.{IsBelow, IsFinal, IsFinal-mono, IsFinal-IsPre, IsFine, IsSound}
use raft_kvs.Raft.History.Settle.{settle}
use raft_kvs.Raft.History.Steady.{Later-le, durable-DiskIsFine}
use raft_kvs.Raft.History.Starts.{IsStarted, append-IsBelow, longer, goes_on, starts_turn}

module _ {C : Type 0} ⦃g : Gob C⦄ where
  module _ (a b : History C) (m : Acts a.world.cluster b.world.cluster) (x : LogEntry C)
      (s : IsSound a) (w : IsWell b.world) (later : Later (node a m.actor) m.after)
      (st : IsStarted (node a m.actor) m.after x)
      (made : b.world.made
        ≡ record { log = m.after.log; term = m.after.current_term } ∷ a.world.made)
      (acks : b.acks
        ≡ record { voter = m.actor; term = m.after.current_term; length = length m.after.log }
          ∷ a.acks)
      (asked : b.asked ≡ a.asked)
      (ballots : b.world.cluster.ballots ≡ a.world.cluster.ballots) where
    started_has :
        (p : Made C) → In p b.world.made → p.term ≡ m.after.current_term → IsPre p.log m.after.log
    started_has p h of_term =
        let there = Acts-here a.world.cluster b.world.cluster m in
        subst (λ (y : Raft C). IsPre p.log y.log) there
          (w.full m.actor (ap (λ (y : Raft C). is_leader y.state) there ∙ st.leads) p h
            (of_term ∙ ap (λ (y : Raft C). y.current_term) (sym there)))

    started-Keeps :
        (p : Made C) → In p a.world.made → Keeps a (node a m.actor).log p → Keeps b m.after.log p
    started-Keeps p h kept =
        let t = starts_turn a b m x s w later st made acks asked ballots in
        Keeps-IsPre b (node a m.actor).log m.after.log p
          (goes_on a b m x s w later st made acks asked ballots)
          (Keeps-mono a b (node a m.actor).log p t.onward kept)

    started_all : (p : Made C) → In p b.world.made → Acked b.acks m.actor p → Keeps b m.after.log p
    started_all p h (k, in_k, at_v, of_term, le) = elim (subst (In p) made h) [
      | inl is ↦ inl (subst (IsPre p.log) (ap (λ (y : Made C). y.log) is) (IsPre-refl p.log))
      | inr old_p ↦ elim (subst (In k) acks in_k) [
        | inl is ↦ inl (started_has p h (sym of_term ∙ ap (λ (y : Ack). y.term) is))
        | inr old_k ↦
            started-Keeps p old_p ((s.fine m.actor).keeps p old_p (k, old_k, at_v, of_term, le))
      ]
    ]

    started_own :
        (p : Made C) → In p b.world.made → p.term ≡ m.after.current_term → Acked b.acks m.actor p
    started_own p h of_term = elim (subst (In p) made h) [
      | inl is ↦ (
        record { voter = m.actor; term = m.after.current_term; length = length m.after.log },
        subst (In _) (sym acks) (inl refl),
        refl,
        sym of_term,
        let same = ap (λ (y : Made C). length y.log) is in omega (arith, same),
      )
      | inr old_p ↦
          Acked-mono a b m.actor p (starts_turn a b m x s w later st made acks asked ballots).onward
            ((s.fine m.actor).own st.led p old_p (of_term ∙ st.kept))
    ]

    starts-IsFine : IsFine b m.actor m.after
    starts-IsFine =
        let i = m.actor in
        let old = node a i in
        let new = m.after in
        let f = s.fine i in
        let t = starts_turn a b m x s w later st made acks asked ballots in
        let long = longer a b m x s w later st made acks asked ballots in
        let below : IsBelow new.current_term new.log =
          subst (IsBelow new.current_term) (sym st.added) (
            append-IsBelow new.current_term old.log x
              (subst (λ u. IsBelow u old.log) (sym st.kept) f.below) (st.of_term ∙ sym st.kept)) in
        let idle : is_candidate new.state ≡ true → ⊥ =
          λ runs. let leads = st.leads in ground arith in
        record {
          below = below;
          disk = durable-DiskIsFine new st.durable below;
          keeps = started_all;
          final =
              subst (λ c. IsFinal b new.log c new.current_term) (sym st.commit)
                (IsFinal-IsPre b old.log new.log old.commit_index new.current_term
                  (goes_on a b m x s w later st made acks asked ballots)
                  (IsFinal-mono a b old.log old.commit_index old.current_term new.current_term
                    t.onward (Later-le old new later) f.final));
          inside = λ leads. subst (λ n. i < n) (sym t.onward.size) (f.inside st.led);
          heir = λ leads p h lt. elim (subst (In p) made h) [
            | inl is ↦ absurd (ne_of_lt p.term new.current_term lt (ap (λ (y : Made C). y.term) is))
            | inr old_p ↦
                started-Keeps p old_p (f.heir st.led p old_p (subst (λ u. p.term <ℤ u) st.kept lt))
          ];
          own = λ leads p h of_term. started_own p h of_term;
          bound = λ leads k h of_term. elim (subst (In k) acks h) [
            | inl is ↦ let same = ap (λ (y : Ack). y.length) is in omega (arith, same)
            | inr old_k ↦
                let short = f.bound st.led k old_k (of_term ∙ st.kept) in omega (arith, short, long)
          ];
          matched = λ leads j n at_j other.
              let (k, in_k, at_k, of_term, lt) =
                f.matched st.led j n (sym (st.matches j (λ e. other (e ∙ s.well.safe.me i))) ∙ at_j)
                  other in
              (k, t.onward.acks k in_k, at_k, of_term ∙ sym st.kept, lt);
          runs = λ runs. absurd (idle runs);
          asks = λ runs. absurd (idle runs);
        }

    pub starts-IsSound : b.world.sent ≡ a.world.sent → IsSound b
    unfolding starts_turn
    starts-IsSound same_sent =
        settle a b (starts_turn a b m x s w later st made acks asked ballots) s w same_sent
          (λ p h new. record {
            last = length (node a m.actor).log;
            entry = x;
            long = ap length new.log ∙ longer a b m x s w later st made acks asked ballots;
            there =
                ap (λ l. get_elem? l (length (node a m.actor).log)) (new.log ∙ st.added)
                ∙ get_elem?-append_last (node a m.actor).log x;
            of_term = st.of_term ∙ sym new.before;
          })
          starts-IsFine
