-- ===== src/Raft/History/Takes.antt =====
-- What AppendEntries does to the term, the state, the commit index and the disk of a peer.
use raft_kvs.Base.{
  ℕ, ℤ, pos, ◌+ℤ◌, ◌<ℤ◌, ◌≤ℤ◌, ◌≡◌, refl, sym, ap, subst, ◌∙◌, ◌⊎◌, inl, inr, arith, true, false,
  List, [], ◌∷◌, ◌++◌, length, take, append-nil, ok, >>=-eq-ok, dec_le, take_of_length-le,
}
use raft_kvs.Raft.Types.{Raft, Gob, LogEntry, AppendEntriesArgs, AppendEntriesReply, is_candidate}
use raft_kvs.Persister.{Persister}
use raft_kvs.Raft.Log.{last_log_index, min}
use raft_kvs.Raft.Order.{WritesAll, IsDurable}
use raft_kvs.Raft.Persist.{persist}
use raft_kvs.Raft.Election.{become_follower}
use raft_kvs.Raft.Append.{
  LogCheck, too_short, conflict, matches, append_entries, accept_leader, apply_check, truncate,
  append, follow_commit,
}
use raft_kvs.Raft.Append.Later.{append_entries-cases, accept_leader-WritesAll, apply_check-eq}
use raft_kvs.Raft.Append.Result.{accept_leader-same, append_entries_success}
use raft_kvs.Raft.Append.Durability.{follow_commit-same}
use raft_kvs.Raft.Cluster.Changes.{accept_leader-term}
use raft_kvs.Raft.History.Prefixes.{IsPre, take-IsPre, IsPre-refl}
use raft_kvs.Raft.History.Unmoved.{IsUnmoved}
use raft_kvs.Raft.History.Rests.{IsUnmoved-refl}

module _ {C : Type 0} ⦃g : Gob C⦄ where
  accept_leader-IsUnmoved :
      (now : ℕ) (args : AppendEntriesArgs C) (rf : Raft C)
      → IsUnmoved rf (accept_leader now args rf)
        × (is_candidate (accept_leader now args rf).state ≡ false)
  unfolding accept_leader become_follower persist
  accept_leader-IsUnmoved now args rf =
      (record { commit = ground arith; stood = ground arith; matches = ground arith }, ground arith)

  check_refused :
      (args : AppendEntriesArgs C) (seen : ℤ) (c : LogCheck) (rf : Raft C) {b : Raft C}
      {reply : AppendEntriesReply}
      → apply_check args seen c rf ≡ ok (b, reply)
      → reply.success ≡ false
      → b ≡ rf
  unfolding apply_check
  check_refused args seen (too_short i) rf h no_reply = ground arith
  check_refused args seen (conflict t i) rf h no_reply = ground arith
  check_refused args seen matches rf h no_reply =
      let (rf1, t, e) = >>=-eq-ok (truncate (args.prev_log_index +ℤ pos 1) rf) _ h in
      absurd (ground arith)

  -- A peer that refuses a request keeps its log, and what it knows.
  pub refused-IsUnmoved :
      (now : ℕ) (args : AppendEntriesArgs C) (rf : Raft C) {b : Raft C} {reply : AppendEntriesReply}
      → append_entries now args rf ≡ ok (b, reply)
      → reply.success ≡ false
      → IsUnmoved rf b × WritesAll rf b × (b.log ≡ rf.log)
  refused-IsUnmoved now args rf {b} ran no_reply = elim (append_entries-cases now args rf ran) [
    | inl (_, same, _) ↦
        subst (λ x. IsUnmoved rf x × WritesAll rf x × (x.log ≡ rf.log)) (sym same)
          (IsUnmoved-refl rf, inl (refl, refl), refl)
    | inr (_, (c, _, e)) ↦
        let same = check_refused args rf.current_term c (accept_leader now args rf) e no_reply in
        subst (λ x. IsUnmoved rf x × WritesAll rf x × (x.log ≡ rf.log)) (sym same)
          (
            (accept_leader-IsUnmoved now args rf).0,
            accept_leader-WritesAll now args rf,
            (accept_leader-same now args rf).0,
          )
  ]

  append_rest :
      (es : List (LogEntry C)) (rf : Raft C)
      → ((append es rf).state ≡ rf.state)
        × ((append es rf).commit_index ≡ rf.commit_index)
        × ((es ≡ []) ⊎ IsDurable (append es rf))
  unfolding append persist
  append_rest [] rf = (refl, refl, inl refl)
  append_rest (e ∷ es) rf = (refl, refl, inr refl)

  -- The commit index is as it was, or what the leader has committed of the log.
  abbrev pub Commits : AppendEntriesArgs C → Raft C → Raft C → Type 0
  Commits args rf b =
      (b.commit_index ≡ rf.commit_index)
      ⊎ ((rf.commit_index <ℤ args.leader_commit)
          × (b.commit_index ≡ min args.leader_commit (last_log_index b.log)))

  follow_commit_rest :
      (c : ℤ) (rf : Raft C)
      → ((follow_commit c rf).state ≡ rf.state)
        × ((follow_commit c rf).log ≡ rf.log)
        × (((follow_commit c rf).commit_index ≡ rf.commit_index)
            ⊎ ((rf.commit_index <ℤ c)
                × ((follow_commit c rf).commit_index ≡ min c (last_log_index rf.log))))
  unfolding follow_commit
  follow_commit_rest c rf = ground arith

  truncate_rest :
      (i : ℤ) (rf : Raft C) {b : Raft C}
      → truncate i rf ≡ ok b
      → (b.state ≡ rf.state) × (b.commit_index ≡ rf.commit_index)
  unfolding truncate
  truncate_rest i rf h = ground arith

  check_taken :
      (args : AppendEntriesArgs C) (seen : ℤ) (c : LogCheck) (rf : Raft C) {b : Raft C}
      {reply : AppendEntriesReply}
      → apply_check args seen c rf ≡ ok (b, reply)
      → reply.success ≡ true
      → (b.state ≡ rf.state) × Commits args rf b × ((args.entries ≡ []) ⊎ IsDurable b)
  unfolding apply_check
  check_taken args seen (too_short i) rf h success = absurd (ground arith)
  check_taken args seen (conflict t i) rf h success = absurd (ground arith)
  check_taken args seen matches rf {b} h success =
      let (rf1, cut, e) = >>=-eq-ok (truncate (args.prev_log_index +ℤ pos 1) rf) _ h in
      let (state1, commit1) = truncate_rest (args.prev_log_index +ℤ pos 1) rf cut in
      let rf2 = append args.entries rf1 in
      let (state2, commit2, disk2) = append_rest args.entries rf1 in
      let (disk3, all3) = follow_commit-same args.leader_commit rf2 in
      let (state3, log3, commit3) = follow_commit_rest args.leader_commit rf2 in
      let same_commit : rf2.commit_index ≡ rf.commit_index = commit2 ∙ commit1 in
      let last : follow_commit args.leader_commit rf2 ≡ b = ground arith in
      subst
        (λ (x : Raft C).
          (x.state ≡ rf.state) × Commits args rf x × ((args.entries ≡ []) ⊎ IsDurable x))
        last
        (
          state3 ∙ state2 ∙ state1,
          elim commit3 [
            | inl same ↦ inl (same ∙ same_commit)
            | inr (lt, is) ↦ inr (
              subst (λ c. c <ℤ args.leader_commit) same_commit lt,
              is ∙ ap (λ l. min args.leader_commit (last_log_index l)) (sym log3),
            )
          ],
          elim disk2 [
            | inl none_new ↦ inl none_new
            | inr durable ↦
                inr (ap (λ (x : Persister). x.raftstate) disk3 ∙ durable ∙ ap g.encode (sym all3))
          ],
        )

  -- What a peer is after it took the entries of a request: in the term of the request, no
  -- candidate, and its disk has its log, or its log is cut from what it was.
  pub record IsTaking (args : AppendEntriesArgs C) (a b : Raft C) : Type 0 where
    pub current : a.current_term ≤ℤ args.term
    pub term : b.current_term ≡ args.term
    pub idle : is_candidate b.state ≡ false
    pub commits : Commits args a b
    pub disk : IsPre b.log a.log ⊎ IsDurable b

  IsPre-of_take : (n : ℕ) (l : List (LogEntry C)) → IsPre (take n l ++ []) l
  IsPre-of_take n l =
      subst (λ m. IsPre m l) (sym (append-nil (take n l)))
        (elim (dec_le n (length l)) [
          | yes inside ↦ take-IsPre n l inside
          | no out ↦
              subst (λ m. IsPre m l) (sym (take_of_length-le n l (omega arith))) (IsPre-refl l)
        ])

  pub taken-IsTaking :
      (now : ℕ) (args : AppendEntriesArgs C) (rf : Raft C) {b : Raft C} {reply : AppendEntriesReply}
      → append_entries now args rf ≡ ok (b, reply)
      → reply.success ≡ true
      → IsTaking args rf b
  taken-IsTaking now args rf {b} ran success = elim (append_entries-cases now args rf ran) [
    | inl (_, _, refused) ↦ absurd (ground arith)
    | inr (current, (c, _, e)) ↦
        let rf1 = accept_leader now args rf in
        let (_, commit1, _) = accept_leader-same now args rf in
        let (state, commits, disk) = check_taken args rf.current_term c rf1 e success in
        let (le, _, (n, _, log)) = append_entries_success now args rf ran success in
        record {
          current = le;
          term =
              (apply_check-eq args rf.current_term c rf1 e).0
              ∙ accept_leader-term now args rf current;
          idle = ap is_candidate state ∙ (accept_leader-IsUnmoved now args rf).1;
          commits = elim commits [
            | inl same ↦ inl (same ∙ commit1)
            | inr (lt, is) ↦ inr (subst (λ x. x <ℤ args.leader_commit) commit1 lt, is)
          ];
          disk = elim disk [
            | inl none_new ↦ inl (
                subst (λ m. IsPre m rf.log) (sym (log ∙ ap (λ es. take n rf.log ++ es) none_new))
                  (IsPre-of_take n rf.log))
            | inr durable ↦ inr durable
          ];
        }
  ]
