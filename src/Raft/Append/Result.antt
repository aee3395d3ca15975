-- ===== src/Raft/Append/Result.antt =====
-- What AppendEntries makes of the log, on every branch that returns.
use raft_kvs.Base.{
  ℕ, suc, ℤ, pos, negsuc, ◌+ℤ◌, ◌≤ℤ◌, ◌==ℤ◌, ltb_ℤ, ==ℤ_iff, ◌≡◌, refl, sym, inl, inr, arith, true,
  Bool-cases, ok, or_panic, >>=-eq-ok, List, [], ◌∷◌, ◌++◌, append-nil, some, take, get_elem?,
  take_of_length-le,
}
use raft_kvs.Raft.Types.{Raft, AppendEntriesArgs, AppendEntriesReply, Gob, LogEntry}
use raft_kvs.Raft.Persist.{persist}
use raft_kvs.Raft.Log.{last_log_index, back_up}
use raft_kvs.Raft.Election.{become_follower}
use raft_kvs.Raft.Append.Later.{append_entries-cases}
use raft_kvs.Raft.Append.{
  too_short, conflict, matches, append_entries, accept_leader, apply_check, truncate, append,
  follow_commit, check_log, check_entry,
}

module _ {C : Type 0} where
  -- The log is long enough, and agrees with the request at the index before the entries.
  abbrev pub Agrees : List (LogEntry C) → ℤ → ℤ → Type 0
  Agrees log (negsuc n) t = Unit
  Agrees log (pos p) t = (e : LogEntry C) × (get_elem? log p ≡ some e) × (e.term ≡ t)

  check_entry-matches :
      (log : List (LogEntry C)) (p : ℕ) (t : ℤ) (e : LogEntry C)
      → check_entry log p t e ≡ ok matches
      → e.term ≡ t
  unfolding check_entry
  check_entry-matches log p t e h = elim (Bool-cases (e.term ==ℤ t)) [
    | inl same ↦ (==ℤ_iff e.term t).0 same
    | inr differ ↦ let (i, _, bad) = >>=-eq-ok (back_up log e.term (suc p)) _ (rw differ at h) in cc
  ]

  pub check_log-matches :
      (log : List (LogEntry C)) (prev t : ℤ) → check_log log prev t ≡ ok matches → Agrees log prev t
  unfolding check_log
  check_log-matches log (negsuc n) t h = tt
  check_log-matches log (pos p) t h = elim (Bool-cases (ltb_ℤ (last_log_index log) (pos p))) [
    | inl short ↦ absurd (ground arith)
    | inr long ↦
        let (e, found, rest) = >>=-eq-ok (or_panic (get_elem? log p)) _ (rw long at h) in
        (e, ground arith, check_entry-matches log p t e rest)
  ]

  truncate-log :
      (i : ℤ) (rf : Raft C) {rf' : Raft C}
      → truncate i rf ≡ ok rf'
      → ((n : ℕ) × (i ≡ pos n) × (rf'.log ≡ take n rf.log))
  unfolding truncate
  truncate-log (pos n) rf h = (n, refl, ground (arith, take_of_length-le n rf.log))
  truncate-log (negsuc n) rf h = ground arith

module _ {C : Type 0} ⦃g : Gob C⦄ where
  append-log : (es : List (LogEntry C)) (rf : Raft C) → (append es rf).log ≡ rf.log ++ es
  unfolding append persist
  append-log [] rf = sym (append-nil rf.log)
  append-log (e ∷ es) rf = refl

  pub accept_leader-same :
      (now : ℕ) (args : AppendEntriesArgs C) (rf : Raft C)
      → ((accept_leader now args rf).log ≡ rf.log)
        × ((accept_leader now args rf).commit_index ≡ rf.commit_index)
        × ((accept_leader now args rf).apply_ch ≡ rf.apply_ch)
  unfolding accept_leader become_follower persist
  accept_leader-same now args rf = ground arith

  follow_commit-log : (c : ℤ) (rf : Raft C) → (follow_commit c rf).log ≡ rf.log
  unfolding follow_commit
  follow_commit-log c rf = ground arith

  -- A request that succeeds agreed with the log at the index before its entries, was of no older
  -- term, and leaves the log up to that index with the entries behind it: what stood there is gone.
  pub append_entries_success :
      (now : ℕ) (args : AppendEntriesArgs C) (rf : Raft C) {rf' : Raft C}
      {reply : AppendEntriesReply}
      → append_entries now args rf ≡ ok (rf', reply)
      → reply.success ≡ true
      → (rf.current_term ≤ℤ args.term)
        × Agrees rf.log args.prev_log_index args.prev_log_term
        × ((n : ℕ) × (args.prev_log_index +ℤ pos 1 ≡ pos n)
            × (rf'.log ≡ take n rf.log ++ args.entries))
  unfolding apply_check
  append_entries_success now args rf {rf'} {reply} h yes_reply =
      elim (append_entries-cases now args rf h) [
        | inl (_, _, no_reply) ↦ cc
        | inr (current, (too_short i, _, e)) ↦ absurd (ground arith)
        | inr (current, (conflict t i, _, e)) ↦ absurd (ground arith)
        | inr (current, (matches, tested, e)) ↦
            let rf1 = accept_leader now args rf in
            let same = (accept_leader-same now args rf).0 in
            let (rf2, t, e2) = >>=-eq-ok (truncate (args.prev_log_index +ℤ pos 1) rf1) _ e in
            let (n, i, cut) = truncate-log (args.prev_log_index +ℤ pos 1) rf1 t in
            (
              ground arith,
              rw same at (check_log-matches rf1.log args.prev_log_index args.prev_log_term tested),
              (
                n,
                i,
                ground (
                  arith,
                  follow_commit-log args.leader_commit (append args.entries rf2),
                  append-log args.entries rf2,
                  cut,
                  same,
                ),
              ),
            )
      ]
