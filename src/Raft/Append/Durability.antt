-- ===== src/Raft/Append/Durability.antt =====
-- What of an AppendEntries reaches the disk, and what a restart after it finds.
use raft_kvs.Base.{
  ℕ, ℤ, pos, ◌+ℤ◌, ◌≡◌, refl, sym, ap, ◌∙◌, inl, inr, arith, true, ok, >>=-eq-ok, List, [], ◌∷◌,
  ◌++◌, append-nil, take, pos_part,
}
use mathlib.Core.Path.{ap₂}
use raft_kvs.Persister.{Persister}
use raft_kvs.Raft.Types.{Raft, AppendEntriesArgs, AppendEntriesReply, Gob, LogEntry}
use raft_kvs.Raft.Order.{IsDurable, WritesAll, WritesAll-IsDurable}
use raft_kvs.Raft.Persist.{persist, stored}
use raft_kvs.Raft.Node.{make}
use raft_kvs.Raft.Node.Later.{make_stored}
use raft_kvs.Raft.Append.Later.{append_entries-cases, accept_leader-WritesAll}
use raft_kvs.Raft.Append.Result.{accept_leader-same, append_entries_success}
use raft_kvs.Raft.Append.{
  LogCheck, too_short, conflict, matches, append_entries, accept_leader, apply_check, truncate,
  append, follow_commit,
}

module _ {C : Type 0} ⦃g : Gob C⦄ where
  pub append-WritesAll : (es : List (LogEntry C)) (rf : Raft C) → WritesAll rf (append es rf)
  unfolding append persist
  append-WritesAll [] rf = inl (refl, refl)
  append-WritesAll (e ∷ es) rf = inr refl

  pub truncate-persister :
      (i : ℤ) (rf : Raft C) {rf' : Raft C} → truncate i rf ≡ ok rf' → rf'.persister ≡ rf.persister
  unfolding truncate
  truncate-persister i rf h = ground arith

  pub follow_commit-same :
      (c : ℤ) (rf : Raft C)
      → ((follow_commit c rf).persister ≡ rf.persister) × (stored (follow_commit c rf) ≡ stored rf)
  unfolding follow_commit
  follow_commit-same c rf = ground arith

  apply_check_keeps_disk :
      (args : AppendEntriesArgs C) (seen : ℤ) (c : LogCheck) (rf : Raft C) {rf' : Raft C}
      {reply : AppendEntriesReply}
      → args.entries ≡ []
      → apply_check args seen c rf ≡ ok (rf', reply)
      → rf'.persister ≡ rf.persister
  unfolding apply_check append
  apply_check_keeps_disk args seen (too_short i) rf h e = ground arith
  apply_check_keeps_disk args seen (conflict t i) rf h e = ground arith
  apply_check_keeps_disk args seen matches rf {rf'} h e =
      let (rf1, cut, e1) = >>=-eq-ok (truncate (args.prev_log_index +ℤ pos 1) rf) _ e in
      ground (
        arith,
        truncate-persister (args.prev_log_index +ℤ pos 1) rf cut,
        (follow_commit-same args.leader_commit rf1).0,
      )

  -- Entries that a request without entries gives up are not taken off the disk: the peer goes on
  -- with the log up to the request's index, and after a restart it has its old log again.
  pub append_entries_restart :
      (now later n : ℕ) (args : AppendEntriesArgs C) (rf : Raft C) {rf' b : Raft C}
      {reply : AppendEntriesReply}
      → IsDurable rf
      → args.entries ≡ []
      → args.prev_log_index +ℤ pos 1 ≡ pos n
      → append_entries now args rf ≡ ok (rf', reply)
      → reply.success ≡ true
      → make rf'.peers rf'.me rf'.persister later ≡ ok b
      → (rf'.log ≡ take n rf.log) × (b.log ≡ rf.log)
  append_entries_restart now later n args rf {rf'} d none_sent at_n ran success made =
      let (_, _, (k, at_k, result)) = append_entries_success now args rf ran success in
      let k_n : k ≡ n = ap pos_part (sym at_k ∙ at_n) in
      (
        result ∙ ap₂ (λ k es. take k rf.log ++ es) k_n none_sent ∙ append-nil (take n rf.log),
        elim (append_entries-cases now args rf ran) [
          | inl (_, _, refused) ↦ absurd (ground arith)
          | inr (_, (c, _, e)) ↦
              let rf1 = accept_leader now args rf in
              let kept : rf'.persister ≡ rf1.persister =
                apply_check_keeps_disk args rf.current_term c rf1 none_sent e in
              let d1 : IsDurable rf1 =
                WritesAll-IsDurable rf rf1 (accept_leader-WritesAll now args rf) d in
              let restarted =
                make_stored rf'.peers rf'.me later rf'.persister (stored rf1)
                  (ap (λ (x : Persister). x.raftstate) kept ∙ d1) in
              ground (arith, restarted, (accept_leader-same now args rf).0)
        ],
      )
