-- ===== src/Raft/History/Restarts.antt =====
-- A peer that restarts from its disk has all that it took.
use raft_kvs.Base.{
  ℕ, zero, suc, ℤ, pos, ◌≤ℤ◌, ◌≡◌, sym, ap, subst, ◌∙◌, inl, inr, arith, true, false, get_elem?,
  some, ok, In,
}
use raft_kvs.Raft.Types.{Raft, Gob, LogEntry, Stored, is_leader, is_candidate}
use raft_kvs.Persister.{Persister}
use raft_kvs.Raft.Persist.{read_persist}
use raft_kvs.Raft.Node.{make, fresh}
use raft_kvs.Raft.Node.Later.{make_first, make_stored}
use raft_kvs.Raft.Steps.{Step, restarts}
use raft_kvs.Raft.Steps.Votes.{Step-Later}
use raft_kvs.Raft.Cluster.{Cluster, put}
use raft_kvs.Raft.Cluster.Logs.{Made, root}
use raft_kvs.Raft.Cluster.Well.{IsWell}
use raft_kvs.Raft.History.{History, node}
use raft_kvs.Raft.History.Acked.{Acked, Keeps, Keeps-mono, Keeps-IsPre, Onward}
use raft_kvs.Raft.History.Prefixes.{IsPre, IsPre-refl}
use raft_kvs.Raft.History.Sound.{IsBelow, IsSound}
use raft_kvs.Raft.History.Steady.{encode-inj, DiskIsFine}
use raft_kvs.Raft.History.Unmoved.{same_turn}
use raft_kvs.Raft.History.Same.{one_acts, settle_plain}

module _ {C : Type 0} ⦃g : Gob C⦄ where
  make_rest :
      (now : ℕ) (rf : Raft C) {b : Raft C}
      → make rf.peers rf.me rf.persister now ≡ ok b
      → (is_leader b.state ≡ false) × (is_candidate b.state ≡ false) × (b.commit_index ≡ pos 0)
  unfolding make read_persist
  make_rest now rf h = ground arith

  pub root-IsBelow : (t : ℤ) → pos 0 ≤ℤ t → IsBelow t (root {C = C}).log
  root-IsBelow t le = record { below = λ k e h. at_root k e h }
    where
      at_root : (k : ℕ) (e : LogEntry C) → get_elem? (root {C = C}).log k ≡ some e → e.term ≤ℤ t
      at_root zero e h = let first : pos 0 ≡ e.term = ground arith in subst (λ u. u ≤ℤ t) first le
      at_root (suc k) e h = cc

  -- Nobody took anything in a term that has no leader.
  nothing_at_zero :
      (a : History C) (i : ℕ) (p : Made C)
      → IsSound a
      → (node a i).current_term ≡ pos 0
      → Acked a.acks i p
      → ⊥
  nothing_at_zero a i p s zero_term (k, in_k, at_i, of_term, le) =
      let (up, (led, _)) = s.acks k in_k in
      let up' : k.term ≤ℤ pos 0 =
        subst (λ u. k.term ≤ℤ u) zero_term
          (subst (λ v. k.term ≤ℤ (node a v).current_term) at_i up) in
      omega (arith, led, up')

  -- The log that is read keeps what the peer took, and the disk has it.
  restart-Keeps :
      (a b : History C) (i now : ℕ) (rf : Raft C)
      → IsSound a
      → Onward a b
      → make (node a i).peers (node a i).me (node a i).persister now ≡ ok rf
      → IsBelow rf.current_term rf.log
        × DiskIsFine rf
        × ((p : Made C) → In p a.world.made → Acked a.acks i p → Keeps b rf.log p)
  restart-Keeps a b i now rf s o ran = elim (s.well.safe.on_disk i) [
    | inl (none_yet, zero_term, _) ↦
        let old = node a i in
        let h : make old.peers old.me old.persister now
            ≡ ok (fresh {C = C} old.peers old.me old.persister now) =
          make_first old.peers old.me now old.persister none_yet in
        let log : rf.log ≡ (root {C = C}).log = ground arith in
        let disk : rf.persister ≡ old.persister = ground arith in
        (
          subst (IsBelow rf.current_term) (sym log) (
              root-IsBelow rf.current_term (
                let term : rf.current_term ≡ pos 0 = ground arith in
                subst (λ u. pos 0 ≤ℤ u) (sym term) (omega arith))),
          (λ s' e.
              absurd
                (g.encode-ne-nil s' (sym e ∙ ap (λ (x : Persister). x.raftstate) disk ∙ none_yet))),
          (λ p h' took. absurd (nothing_at_zero a i p s zero_term took)),
        )
    | inr (st, on_disk, of_term, _) ↦
        let old = node a i in
        let f = s.fine i in
        let h = make_stored old.peers old.me now old.persister st on_disk in
        let log : rf.log ≡ st.log = ground arith in
        let disk : rf.persister ≡ old.persister = ground arith in
        let term : rf.current_term ≡ st.term = ground arith in
        let (below, goes_on) = f.disk st on_disk in
        let below' : IsBelow rf.current_term rf.log =
          subst (IsBelow rf.current_term) (sym log)
            (subst (λ u. IsBelow u st.log) (sym (term ∙ of_term)) below) in
        (
          below',
          (λ s' e.
              let same =
                encode-inj st s'
                  (sym on_disk ∙ ap (λ (x : Persister). x.raftstate) (sym disk) ∙ e) in
              subst (λ (x : Stored C). IsBelow rf.current_term x.log × IsPre rf.log x.log) same
                (subst (λ l. IsBelow rf.current_term l × IsPre rf.log l) log
                  (below', IsPre-refl rf.log))),
          (λ p h' took.
              subst (λ l. Keeps b l p) (sym log)
                (Keeps-IsPre b old.log st.log p goes_on
                  (Keeps-mono a b old.log p o (f.keeps p h' took)))),
        )
  ]

  pub restarts-IsSound :
      (a b : History C) (i now : ℕ) (rf : Raft C)
      (ran : make (node a i).peers (node a i).me (node a i).persister now ≡ ok rf)
      → b.world.cluster ≡ record a.world.cluster { nodes = put a.world.cluster.nodes i rf }
      → IsSound a
      → IsWell b.world
      → b.world.sent ≡ a.world.sent
      → b.world.made ≡ a.world.made
      → b.acks ≡ a.acks
      → b.asked ≡ a.asked
      → IsSound b
  unfolding same_turn
  restarts-IsSound a b i now rf ran e s w sent made acks asked =
      let st : Step (node a i) rf = restarts now ran in
      let (follows, idle, commit) = make_rest now (node a i) ran in
      let nobody : is_leader rf.state ≡ true → ⊥ = λ leads. ground (arith, follows) in
      let none_runs : is_candidate rf.state ≡ true → ⊥ = λ runs. ground (arith, idle) in
      let t =
        same_turn a b (one_acts a.world.cluster b.world.cluster i rf st e)
          (Step-Later st (s.well.safe.on_disk i) tt) made acks
          (λ v h. inl (subst (λ (y : Cluster C). In v y.ballots) e h))
          (λ q h. inl (subst (In q) asked h)) (λ leads. absurd (nobody leads)) in
      let (below, disk, keeps) = restart-Keeps a b i now rf s t.onward ran in
      settle_plain a b t s w sent made (record {
        below = below;
        disk = disk;
        keeps = λ p h took. keeps p (subst (In p) made h) (subst (λ l. Acked l i p) acks took);
        final = inl commit;
        inside = λ leads. absurd (nobody leads);
        heir = λ leads. absurd (nobody leads);
        own = λ leads. absurd (nobody leads);
        bound = λ leads. absurd (nobody leads);
        matched = λ leads. absurd (nobody leads);
        runs = λ runs. absurd (none_runs runs);
        asks = λ runs. absurd (none_runs runs);
      })
