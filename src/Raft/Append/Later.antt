-- ===== src/Raft/Append/Later.antt =====
-- AppendEntries and the term and vote of the peer that handles it.
use raft_kvs.Base.{
  ℕ, ℤ, pos, ◌+ℤ◌, ltb_ℤ, ◌≡◌, ◌≢◌, refl, ◌⊎◌, inl, inr, arith, true, false, Bool-cases, ok,
  >>=-eq-ok, List, [], ◌∷◌,
}
use raft_kvs.Raft.Types.{Raft, AppendEntriesArgs, AppendEntriesReply, Gob, is_candidate, LogEntry}
use raft_kvs.Raft.Order.{
  Later, Later-same, Later-trans, Writes, Writes-trans, WritesAll, WritesAll-Writes,
}
use raft_kvs.Raft.Persist.{persist}
use raft_kvs.Raft.Election.{become_follower}
use raft_kvs.Raft.Append.{
  LogCheck, too_short, conflict, matches, append_entries, accept_leader, apply_check, truncate,
  append, follow_commit, check_log,
}

module _ {C : Type 0} ⦃g : Gob C⦄ where
  append-eq :
      (es : List (LogEntry C)) (rf : Raft C)
      → ((append es rf).current_term ≡ rf.current_term)
        × ((append es rf).voted_for ≡ rf.voted_for)
        × Writes rf (append es rf)
  unfolding append persist
  append-eq [] rf = (refl, refl, inl (refl, refl, refl))
  append-eq (e ∷ es) rf = (refl, refl, inr (_, refl, refl, refl))

  pub apply_check-eq :
      (args : AppendEntriesArgs C) (seen : ℤ) (c : LogCheck) (rf : Raft C) {rf' : Raft C}
      {reply : AppendEntriesReply}
      → apply_check args seen c rf ≡ ok (rf', reply)
      → (rf'.current_term ≡ rf.current_term) × (rf'.voted_for ≡ rf.voted_for)
  unfolding apply_check truncate follow_commit
  apply_check-eq args seen (too_short i) rf h = ground arith
  apply_check-eq args seen (conflict t i) rf h = ground arith
  apply_check-eq args seen matches rf h =
      let (rf1, t, e) = >>=-eq-ok (truncate (args.prev_log_index +ℤ pos 1) rf) _ h in
      ground (arith, append-eq args.entries rf1)

  accept_leader-Later :
      (now : ℕ) (args : AppendEntriesArgs C) (rf : Raft C)
      → ltb_ℤ args.term rf.current_term ≡ false
      → (is_candidate rf.state ≡ true → args.term ≢ rf.current_term)
      → Later rf (accept_leader now args rf)
  unfolding accept_leader become_follower persist
  accept_leader-Later now args rf le quiet = ground arith

  -- A handler call that returns either refused an older term, or went through the tests.
  pub append_entries-cases :
      (now : ℕ) (args : AppendEntriesArgs C) (rf : Raft C) {rf' : Raft C}
      {reply : AppendEntriesReply}
      → append_entries now args rf ≡ ok (rf', reply)
      → ((ltb_ℤ args.term rf.current_term ≡ true) × (rf' ≡ rf) × (reply.success ≡ false))
        ⊎ ((ltb_ℤ args.term rf.current_term ≡ false)
            × ((c : LogCheck) × (check_log
                    (accept_leader now args rf).log
                    args.prev_log_index
                    args.prev_log_term
                  ≡ ok c)
                × (apply_check args rf.current_term c (accept_leader now args rf)
                    ≡ ok (rf', reply))))
  unfolding append_entries
  append_entries-cases now args rf h = elim (Bool-cases (ltb_ℤ args.term rf.current_term)) [
    | inl old ↦ inl (old, ground arith, ground arith)
    | inr current ↦ inr (current, >>=-eq-ok _ _ (rw current at h))
  ]

  pub append_entries-Later :
      (now : ℕ) (args : AppendEntriesArgs C) (rf : Raft C) {rf' : Raft C}
      {reply : AppendEntriesReply}
      → append_entries now args rf ≡ ok (rf', reply)
      → (is_candidate rf.state ≡ true → args.term ≢ rf.current_term)
      → Later rf rf'
  append_entries-Later now args rf {rf'} h quiet = elim (append_entries-cases now args rf h) [
    | inl (old, e, _) ↦ rw e (inr (refl, λ _. refl))
    | inr (current, (c, _, e)) ↦
        let (t, v) = apply_check-eq args rf.current_term c (accept_leader now args rf) e in
        Later-trans rf (accept_leader now args rf) rf'
          (accept_leader-Later now args rf current quiet)
          (Later-same (accept_leader now args rf) rf' t v)
  ]

  apply_check-Writes :
      (args : AppendEntriesArgs C) (seen : ℤ) (c : LogCheck) (rf : Raft C) {rf' : Raft C}
      {reply : AppendEntriesReply}
      → apply_check args seen c rf ≡ ok (rf', reply)
      → Writes rf rf'
  unfolding apply_check truncate follow_commit
  apply_check-Writes args seen (too_short i) rf h = ground arith
  apply_check-Writes args seen (conflict t i) rf h = ground arith
  apply_check-Writes args seen matches rf {rf'} h =
      let (rf1, t, e) = >>=-eq-ok (truncate (args.prev_log_index +ℤ pos 1) rf) _ h in
      Writes-trans rf rf1 rf' (inl (ground arith)) (
        Writes-trans rf1 (append args.entries rf1) rf' (append-eq args.entries rf1).2
          (inl (ground arith)))

  pub accept_leader-WritesAll :
      (now : ℕ) (args : AppendEntriesArgs C) (rf : Raft C)
      → WritesAll rf (accept_leader now args rf)
  unfolding accept_leader become_follower persist
  accept_leader-WritesAll now args rf = ground arith

  pub append_entries-Writes :
      (now : ℕ) (args : AppendEntriesArgs C) (rf : Raft C) {rf' : Raft C}
      {reply : AppendEntriesReply}
      → append_entries now args rf ≡ ok (rf', reply)
      → Writes rf rf'
  append_entries-Writes now args rf {rf'} h = elim (append_entries-cases now args rf h) [
    | inl (old, e, _) ↦ rw e (inl (refl, refl, refl))
    | inr (current, (c, _, e)) ↦
        Writes-trans rf (accept_leader now args rf) rf'
          (WritesAll-Writes rf (accept_leader now args rf) (accept_leader-WritesAll now args rf))
          (apply_check-Writes args rf.current_term c (accept_leader now args rf) e)
  ]
