-- ===== src/Raft/History/Accepts.antt =====
-- A peer that takes entries, or refuses them, keeps a history as it should be.
use raft_kvs.Base.{
  ℕ, ◌≤ℤ◌, ◌≡◌, ◌≢◌, sym, ap, subst, ◌∙◌, inl, inr, arith, true, ◌∷◌, length, ok, In,
}
use raft_kvs.Raft.Types.{
  Raft, Gob, Stored, AppendEntriesArgs, AppendEntriesReply, is_leader, is_candidate,
}
use raft_kvs.Persister.{Persister}
use raft_kvs.Raft.Order.{Later}
use raft_kvs.Raft.Append.{append_entries}
use raft_kvs.Raft.Cluster.Senders.{Acts}
use raft_kvs.Raft.Cluster.Logs.{Made}
use raft_kvs.Raft.Cluster.Well.{IsLed, IsLed-Acts, IsWell}
use raft_kvs.Raft.History.{Ack, History, node}
use raft_kvs.Raft.History.Prefixes.{IsPre, IsPre-refl, IsPre-trans, IsPre-length}
use raft_kvs.Raft.History.Acked.{Acked, Keeps, Keeps-mono}
use raft_kvs.Raft.History.Sound.{IsBelow, IsBelow-up, IsFinal, IsApt, IsSound}
use raft_kvs.Raft.History.Ballots.{lt_or_eq}
use raft_kvs.Raft.History.Takes.{IsTaking}
use raft_kvs.Raft.Cluster.Changes.{append_entries-Saves}
use raft_kvs.Raft.Cluster.World.{Sent}
use raft_kvs.Raft.Cluster.Safety.{Elected-same}
use raft_kvs.Raft.Cluster.Plain.{Step-WasActive}
use raft_kvs.Raft.History.Taken.{IsInOrder, stem_short, old_ack_short, taken-IsFinal}
use raft_kvs.Raft.History.Turns.{Turn}
use raft_kvs.Raft.History.Steady.{encode-inj, durable-DiskIsFine, DiskIsFine}
use raft_kvs.Raft.History.Unmoved.{make_turn}
use raft_kvs.Raft.History.Same.{settle_plain}

module _ {C : Type 0} ⦃g : Gob C⦄ where
  -- The disk of a peer that took entries: it has the new log, or what it had, of which the new log
  -- is a part.
  pub taken-DiskIsFine :
      (now : ℕ) (args : AppendEntriesArgs C) (rf : Raft C) {b : Raft C} {reply : AppendEntriesReply}
      → append_entries now args rf ≡ ok (b, reply)
      → IsTaking args rf b
      → IsBelow rf.current_term rf.log
      → IsBelow b.current_term b.log
      → DiskIsFine rf
      → DiskIsFine b
  taken-DiskIsFine now args rf {b} ran k old_below below f = elim k.disk [
    | inr durable ↦ durable-DiskIsFine b durable below
    | inl pre ↦ λ s e.
        let le : rf.current_term ≤ℤ b.current_term =
          subst (λ t. rf.current_term ≤ℤ t) (sym k.term) k.current in
        elim (append_entries-Saves now args rf ran) [
          | inl same ↦
              let (low, goes_on) = f s (ap (λ (p : Persister). p.raftstate) (sym same) ∙ e) in
              (
                IsBelow-up rf.current_term b.current_term s.log le low,
                IsPre-trans b.log rf.log s.log pre goes_on,
              )
          | inr (s', e', which) ↦
              let same = encode-inj s' s (sym e' ∙ e) in
              subst (λ (x : Stored C). IsBelow b.current_term x.log × IsPre b.log x.log) same
                (elim which [
                  | inl old ↦
                      subst (λ l. IsBelow b.current_term l × IsPre b.log l) (sym old)
                        (IsBelow-up rf.current_term b.current_term rf.log le old_below, pre)
                  | inr new ↦
                      subst (λ l. IsBelow b.current_term l × IsPre b.log l) (sym new)
                        (below, IsPre-refl b.log)
                ])
        ]
  ]

  -- A leader gets no request of its term from another peer.
  pub nobody_leads :
      (a b : History C) (m : Acts a.world.cluster b.world.cluster) (x : Sent C)
      → IsSound a
      → In x a.world.sent
      → x.to ≡ m.actor
      → m.after.current_term ≡ x.args.term
      → is_leader m.after.state ≡ true
      → (is_candidate (node a m.actor).state ≡ true → x.args.term ≢ (node a m.actor).current_term)
      → ⊥
  nobody_leads a b m x s in_x to_i term leads quiet =
      let i = m.actor in
      let old = node a i in
      let (active, same_term) = Step-WasActive m.taken leads in
      let (_, e, other) = s.well.sent x in_x in
      elim active [
        | inl led ↦ other (
            to_i
            ∙ Elected-same a.world.cluster s.well.safe old.current_term x.args.term i x.from
                (sym same_term ∙ term) (s.well.safe.elected i led) e)
        | inr stood ↦ quiet stood (sym term ∙ same_term)
      ]

  module _ (a b : History C) (m : Acts a.world.cluster b.world.cluster) (args : AppendEntriesArgs C)
      (s : IsSound a) (w : IsWell b.world) (later : Later (node a m.actor) m.after)
      (x : IsApt a args) (k : IsTaking args (node a m.actor) m.after)
      (same : m.after.log ≡ x.ld.log) (disk : DiskIsFine m.after)
      (order : IsInOrder (node a m.actor).log m.after.log args.term)
      (nobody : is_leader m.after.state ≡ true → ⊥) (made : b.world.made ≡ a.world.made)
      (acks : b.acks
        ≡ record { voter = m.actor; term = args.term; length = length m.after.log } ∷ a.acks)
      (asked : b.asked ≡ a.asked)
      (ballots : b.world.cluster.ballots ≡ a.world.cluster.ballots) where
    unfoldable taken_turn : Turn a b
    unfolding make_turn
    taken_turn =
        make_turn a b m later (λ p h. subst (In p) (sym made) h) (λ p h. inl (subst (In p) made h))
          (λ j h. subst (In j) (sym acks) (inr h))
          (λ j h. elim (subst (In j) acks h) [
            | inr old ↦ inl old
            | inl is ↦
                let of_args = ap (λ (y : Ack). y.term) is in
                inr (record {
                  voter = ap (λ (y : Ack). y.voter) is;
                  term = of_args ∙ sym k.term;
                  led =
                      subst (IsLed b.world.cluster) (sym of_args)
                        (IsLed-Acts a.world.cluster b.world.cluster m args.term later x.led);
                  short = λ v other leads same_term.
                      let stem = x.leads v leads (sym same_term ∙ of_args) in
                      let long : j.length ≡ length x.ld.log =
                        ap (λ (y : Ack). y.length) is ∙ ap length same in
                      omega (arith, long, IsPre-length x.ld.log (node a v).log stem.pre);
                })
          ])
          (λ v h. inl (subst (In v) ballots h)) (λ q h. inl (subst (In q) asked h))
          (λ leads. absurd (nobody leads))

    taken-Keeps : (p : Made C) → In p a.world.made → Acked b.acks m.actor p → Keeps b m.after.log p
    taken-Keeps p in_p (j, in_j, at_i, of_term, le) =
        let i = m.actor in
        let old = node a i in
        let t = taken_turn in
        let l = x.ld.log in
        let order' = subst (λ y. IsInOrder old.log y args.term) same order in
        subst (λ y. Keeps b y p) (sym same)
          (elim (subst (In j) acks in_j) [
            | inl is ↦ inl (
                stem_short args.term l p.log
                  (x.same p in_p (sym of_term ∙ ap (λ (y : Ack). y.term) is))
                  (let long = ap (λ (y : Ack). y.length) is in
                    omega (arith, le, long, ap length same)))
            | inr before ↦
                let (up, _) = s.acks j before in
                let low : p.term ≤ℤ args.term =
                  let up' = subst (λ v. j.term ≤ℤ (node a v).current_term) at_i up in
                  let up'' = subst (λ u. u ≤ℤ old.current_term) of_term up' in
                  let current = k.current in omega arith in
                elim (lt_or_eq p.term args.term low) [
                  | inl lt ↦ Keeps-mono a b l p t.onward (x.older p in_p lt)
                  | inr of_args ↦ elim ((s.fine i).keeps p in_p (j, before, at_i, of_term, le)) [
                    | inl pre ↦ inl (
                        stem_short args.term l p.log (x.same p in_p of_args)
                          (old_ack_short args.term old.log l p (s.ended p in_p) of_args pre order'))
                    | inr dead ↦ Keeps-mono a b l p t.onward (inr dead)
                  ]
                ]
          ])

    pub taken-IsSound : b.world.sent ≡ a.world.sent → IsSound b
    unfolding taken_turn make_turn
    taken-IsSound same_sent =
        let i = m.actor in
        let old = node a i in
        let new = m.after in
        let t = taken_turn in
        let idle : is_candidate new.state ≡ true → ⊥ = λ runs. let e = k.idle in ground arith in
        settle_plain a b t s w same_sent made (record {
          below =
              subst (λ u. IsBelow u new.log) (sym k.term)
                (subst (IsBelow args.term) (sym same) x.below);
          disk = disk;
          keeps = λ p h took. taken-Keeps p (subst (In p) made h) took;
          final = subst (IsFinal b new.log new.commit_index) (sym k.term) (
              subst (λ l. IsFinal b l new.commit_index args.term) (sym same)
                (taken-IsFinal a b args old new x t.onward (s.fine i).final
                  (subst (λ y. IsInOrder old.log y args.term) same order) same k));
          inside = λ leads. absurd (nobody leads);
          heir = λ leads. absurd (nobody leads);
          own = λ leads. absurd (nobody leads);
          bound = λ leads. absurd (nobody leads);
          matched = λ leads. absurd (nobody leads);
          runs = λ runs. absurd (idle runs);
          asks = λ runs. absurd (idle runs);
        })
