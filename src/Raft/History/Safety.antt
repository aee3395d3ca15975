-- ===== src/Raft/History/Safety.antt =====
-- State machine safety: what one peer commits, every peer commits, and a leader has.
use raft_kvs.Base.{
  take-take, ℕ, suc, ◌<◌, ℤ, pos, ◌≤ℤ◌, ltb_ℤ, ◌≡◌, sym, ap, subst, ◌∙◌, inl, inr, arith, true,
  Bool-cases, List, length, length-take, take, In, dec_le,
}
use raft_kvs.Raft.Types.{Gob, LogEntry, is_leader}
use raft_kvs.Raft.Cluster.Logs.{Made}
use raft_kvs.Raft.History.{History, node, start_history, Events, AllInOrder}
use raft_kvs.Raft.History.Acked.{IsCommitted, Keeps-IsCommitted}
use raft_kvs.Raft.History.Prefixes.{IsPre, IsPre-take}
use raft_kvs.Raft.History.Sound.{IsFinal, IsSound}
use raft_kvs.Raft.History.Ballots.{lt_or_eq}
use raft_kvs.Raft.History.Steps.{Events-IsSound}
use raft_kvs.Raft.History.Going.{Events-IsCommitted}

module _ {C : Type 0} where
  -- A committed log that has the entries of `l` up to an index.
  record Held (w : History C) (l : List (LogEntry C)) (k : ℕ) (t : ℤ) : Type 0 where
    whole : Made C
    known : In whole w.world.made
    committed : IsCommitted w whole
    early : whole.term ≤ℤ t
    inside : k < length whole.log
    same : take (suc k) l ≡ take (suc k) whole.log

  IsFinal-Held :
      (w : History C) (l : List (LogEntry C)) (c t : ℤ) (k : ℕ)
      → IsFinal w l c t
      → 0 < k
      → pos k ≤ℤ c
      → Held w l k t
  IsFinal-Held w l c t k (inl none_yet) up le =
      let bad = subst (λ x. pos k ≤ℤ x) none_yet le in absurd (omega (arith, bad, up))
  IsFinal-Held w l c t k (inr d) up le =
      let below : pos k ≤ℤ pos d.index = subst (λ x. pos k ≤ℤ x) d.is le in
      let inside = d.inside in
      record {
        whole = d.whole;
        known = d.known;
        committed = d.committed;
        early = d.early;
        inside = omega (arith, inside, below);
        same =
            sym (take-take (suc k) (suc d.index) l (omega (arith, below)))
            ∙ ap (take (suc k)) d.same
            ∙ take-take (suc k) (suc d.index) d.whole.log (omega (arith, below));
      }

  long_enough :
      (l m : List (LogEntry C)) (k : ℕ)
      → take (suc k) l ≡ take (suc k) m
      → k < length m
      → k < length l
  long_enough l m k same inside =
      let cut : length (take (suc k) l) ≡ length (take (suc k) m) = ap length same in
      omega (arith, cut, inside, length-take (suc k) l, length-take (suc k) m)

module _ {C : Type 0} ⦃g : Gob C⦄ where
  -- Committed logs have the same entries.
  committed_agree :
      (w : History C) (p q : Made C) (k : ℕ)
      → IsSound w
      → In p w.world.made
      → In q w.world.made
      → IsCommitted w p
      → IsCommitted w q
      → k < length p.log
      → k < length q.log
      → take (suc k) p.log ≡ take (suc k) q.log
  committed_agree w p q k s in_p in_q c d lp lq = elim (Bool-cases (ltb_ℤ p.term q.term)) [
    | inl below ↦
        IsPre-take p.log q.log (suc k)
          (Keeps-IsCommitted w q.log p c (s.order p q in_p in_q (ground arith))) (omega arith)
    | inr not_below ↦ elim (lt_or_eq q.term p.term (ground arith)) [
      | inl above ↦ sym (
          IsPre-take q.log p.log (suc k)
            (Keeps-IsCommitted w p.log q d (s.order q p in_q in_p above)) (omega arith))
      | inr same ↦ elim (dec_le (length p.log) (length q.log)) [
        | yes shorter ↦
            IsPre-take p.log q.log (suc k) (s.well.chain.extends p q in_p in_q (sym same) shorter)
              (omega arith)
        | no longer ↦ sym (
            IsPre-take q.log p.log (suc k) (s.well.chain.extends q p in_q in_p same (omega arith))
              (omega arith))
      ]
    ]
  ]

  -- What a peer committed is held as long as the history goes on.
  Events-Held :
      {a b : History C} (r : Events a b) (l : List (LogEntry C)) (k : ℕ) (t : ℤ)
      → AllInOrder r
      → IsSound a
      → Held a l k t
      → IsSound b × Held b l k t
  Events-Held {a} {b} r l k t q s h =
      let (sound, known, committed) = Events-IsCommitted r h.whole q s h.known h.committed in
      (
        sound,
        record {
          whole = h.whole;
          known = known;
          committed = committed;
          early = h.early;
          inside = h.inside;
          same = h.same;
        },
      )

  -- If one peer has committed up to an index above 0, and the same or another peer has at that time
  -- or at any later time, whoever crashed and restarted in between, then their logs are the same up
  -- to there, and reach so far. This holds for a cluster of any size that starts from empty disks,
  -- whatever messages are lost, delayed, repeated or reordered, if AppendEntries come in order as
  -- far as that none reaches a candidate in its own term and none that a peer takes cuts off
  -- entries of its own term, and the terms fit in an `int`.
  pub state_machine_safety :
      (n i j k : ℕ) {a b : History C} (r : Events (start_history n) a) (later : Events a b)
      → AllInOrder r
      → AllInOrder later
      → 0 < k
      → pos k ≤ℤ (node a i).commit_index
      → pos k ≤ℤ (node b j).commit_index
      → (k < length (node a i).log)
        × (k < length (node b j).log)
        × (take (suc k) (node a i).log ≡ take (suc k) (node b j).log)
  state_machine_safety n i j k {a} {b} r later q q' up le_i le_j =
      let s = Events-IsSound n r q in
      let h = IsFinal-Held a _ _ _ k (s.fine i).final up le_i in
      let (s', h') = Events-Held later _ k _ q' s h in
      let x = IsFinal-Held b _ _ _ k (s'.fine j).final up le_j in
      (
        long_enough _ _ k h'.same h'.inside,
        long_enough _ _ k x.same x.inside,
        h'.same
            ∙ committed_agree b h'.whole x.whole k s' h'.known x.known h'.committed x.committed
                h'.inside x.inside
            ∙ sym x.same,
      )

  -- A leader of the term of a peer that committed up to an index above 0, or of a later term, has
  -- the same log up to there, at that time and at any later time; for a cluster of any size that
  -- starts from empty disks, whatever messages are lost, delayed, repeated or reordered and
  -- whatever peers crash and restart, if AppendEntries come in order as far as that none reaches a
  -- candidate in its own term and none that a peer takes cuts off entries of its own term, and the
  -- terms fit in an `int`.
  pub leader_completeness :
      (n i j k : ℕ) {a b : History C} (r : Events (start_history n) a) (later : Events a b)
      → AllInOrder r
      → AllInOrder later
      → 0 < k
      → pos k ≤ℤ (node a i).commit_index
      → is_leader (node b j).state ≡ true
      → (node a i).current_term ≤ℤ (node b j).current_term
      → take (suc k) (node a i).log ≡ take (suc k) (node b j).log
  leader_completeness n i j k {a} {b} r later q q' up le_i leads le =
      let s = Events-IsSound n r q in
      let h = IsFinal-Held a _ _ _ k (s.fine i).final up le_i in
      let (s', h') = Events-Held later _ k _ q' s h in
      let rf = node b j in
      let early = h'.early in
      let pre : IsPre h'.whole.log rf.log =
        elim (lt_or_eq h'.whole.term rf.current_term (omega arith)) [
          | inl lt ↦
              Keeps-IsCommitted b rf.log h'.whole h'.committed
                ((s'.fine j).heir leads h'.whole h'.known lt)
          | inr same ↦ s'.well.full j leads h'.whole h'.known same
        ] in
      let inside = h'.inside in h'.same ∙ IsPre-take h'.whole.log rf.log (suc k) pre (omega arith)
