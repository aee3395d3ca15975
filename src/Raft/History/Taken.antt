-- ===== src/Raft/History/Taken.antt =====
-- A peer that takes entries keeps what may be committed, and a history as it should be.
use raft_kvs.Base.{
  ℕ, suc, ◌≤◌, ℤ, pos, ◌<ℤ◌, ◌≤ℤ◌, ◌≡◌, ◌≢◌, sym, ap, subst, ◌∙◌, ◌⊎◌, inl, inr, arith, List,
  length, take, get_elem?, get_elem?_of_lt, length-take, some, dec_lt, dec_le,
}
use raft_kvs.Raft.Types.{Raft, Gob, LogEntry, AppendEntriesArgs}
use raft_kvs.Raft.Log.{last_log_index, min}
use raft_kvs.Raft.Cluster.Logs.{Made}
use raft_kvs.Raft.History.{History}
use raft_kvs.Raft.History.Prefixes.{
  IsPre, IsPre-refl, IsPre-get, IsPre-take, IsPre-whole, get_of_take,
}
use raft_kvs.Raft.History.Acked.{IsCommitted-mono, Keeps-IsCommitted, Onward}
use raft_kvs.Raft.History.Sound.{IsStem, IsEnded, Decided, IsFinal, IsFinal-mono, IsApt}
use raft_kvs.Raft.History.Ballots.{lt_or_eq}
use raft_kvs.Raft.History.Takes.{IsTaking}

-- No entry of the term is behind the end of the new log.
pub record IsInOrder {C : Type 0} (old new : List (LogEntry C)) (t : ℤ) : Type 0 where
  pub order : (k : ℕ) (x : LogEntry C) → length new ≤ k → get_elem? old k ≡ some x → x.term ≢ t

module _ {C : Type 0} where
  -- A log made in the term of the request that has no more entries than the log of the request.
  pub stem_short :
      (t : ℤ) (l m : List (LogEntry C)) → IsPre m l ⊎ IsStem t l m → length m ≤ length l → IsPre m l
  stem_short t l m (inl pre) le = pre
  stem_short t l m (inr stem) le =
      subst (IsPre m) (sym (IsPre-whole l m stem.pre le)) (IsPre-refl m)

  -- What a peer took before, in the term of the request, is no longer than the request's log.
  pub old_ack_short :
      (t : ℤ) (old l : List (LogEntry C)) (p : Made C)
      → IsEnded p
      → p.term ≡ t
      → IsPre p.log old
      → IsInOrder old l t
      → length p.log ≤ length l
  old_ack_short t old l p end of_term pre order = elim (dec_le (length p.log) (length l)) [
    | yes le ↦ le
    | no longer ↦
        let long = end.long in
        absurd (
          order.order end.last end.entry (omega arith)
            (IsPre-get p.log old end.last end.entry pre end.there) (end.of_term ∙ of_term))
  ]

  -- What was decided of the old log is decided of the new one.
  taken-Decided :
      (a b : History C) (args : AppendEntriesArgs C) (old : List (LogEntry C)) (c t : ℤ)
      (x : IsApt a args)
      → Onward a b
      → t ≤ℤ args.term
      → IsInOrder old x.ld.log args.term
      → Decided a old c t
      → Decided b x.ld.log c args.term
  taken-Decided a b args old c t x o le order d =
      let l = x.ld.log in
      let w = d.whole.log in
      let n = suc d.index in
      let inside = d.inside in
      let early = d.early in
      let same : take n l ≡ take n w = elim (lt_or_eq d.whole.term args.term (omega arith)) [
        | inl lt ↦ sym (
            IsPre-take w l n
              (Keeps-IsCommitted a l d.whole d.committed (x.older d.whole d.known lt))
              (omega arith))
        | inr of_term ↦ elim (x.same d.whole d.known of_term) [
          | inl pre ↦ sym (IsPre-take w l n pre (omega arith))
          | inr stem ↦ elim (dec_lt d.index (length l)) [
            | yes there ↦ IsPre-take l w n stem.pre (omega arith)
            | no behind ↦
                let (e, at_e) = get_elem?_of_lt w d.index inside in
                absurd (
                  order.order d.index e (omega arith) (get_of_take old w d.index e d.same at_e)
                    (stem.tail d.index e (omega arith) at_e))
          ]
        ]
      ] in
      record {
        whole = d.whole;
        index = d.index;
        is = d.is;
        known = o.made d.whole d.known;
        committed = IsCommitted-mono a b d.whole o d.committed;
        early = omega arith;
        inside = d.inside;
        same = same;
      }

  Decided-min :
      (w : History C) (l : List (LogEntry C)) (c t : ℤ)
      → Decided w l c t
      → min c (last_log_index l) ≡ c
  unfolding min last_log_index
  Decided-min w l c t d =
      let n = suc d.index in
      let cut : length (take n l) ≡ length (take n d.whole.log) = ap length d.same in
      let inside = d.inside in
      let is = d.is in
      let long : n ≤ length l =
        omega (arith, cut, length-take n l, length-take n d.whole.log, inside) in
      ground arith

  not_below_zero :
      (w : History C) (l : List (LogEntry C)) (c t : ℤ) → IsFinal w l c t → c <ℤ pos 0 → ⊥
  not_below_zero w l c t (inl none_yet) lt = ground arith
  not_below_zero w l c t (inr d) lt = let is = d.is in ground arith

module _ {C : Type 0} ⦃g : Gob C⦄ where
  pub taken-IsFinal :
      (a b : History C) (args : AppendEntriesArgs C) (rf new : Raft C) (x : IsApt a args)
      → Onward a b
      → IsFinal a rf.log rf.commit_index rf.current_term
      → IsInOrder rf.log x.ld.log args.term
      → new.log ≡ x.ld.log
      → IsTaking args rf new
      → IsFinal b x.ld.log new.commit_index args.term
  taken-IsFinal a b args rf new x o f order same k = elim k.commits [
    | inl kept ↦ elim f [
      | inl none_yet ↦ inl (kept ∙ none_yet)
      | inr d ↦ inr (
          subst (λ c. Decided b x.ld.log c args.term) (sym kept)
            (taken-Decided a b args rf.log rf.commit_index rf.current_term x o k.current order d))
    ]
    | inr (lt, is) ↦ elim x.final [
      | inl none_yet ↦ absurd (
          not_below_zero a rf.log rf.commit_index rf.current_term f
            (subst (λ c. rf.commit_index <ℤ c) none_yet lt))
      | inr d ↦
          let is' : new.commit_index ≡ args.leader_commit =
            is
            ∙ ap (λ l. min args.leader_commit (last_log_index l)) same
            ∙ Decided-min a x.ld.log args.leader_commit args.term d in
          subst (λ c. IsFinal b x.ld.log c args.term) (sym is')
            (IsFinal-mono a b x.ld.log args.leader_commit args.term args.term o (omega arith)
              (inr d))
    ]
  ]
