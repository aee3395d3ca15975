-- ===== src/Raft/Cluster/Changes.antt =====
-- What each step of a peer does to its log and its disk, whose logs were made by leaders.
use raft_kvs.Base.{
  ℕ, zero, suc, ◌≤◌, ℤ, pos, negsuc, ◌+ℤ◌, ltb_ℤ, suc-minus_one, ◌≡◌, refl, sym, ap, subst, ◌∙◌,
  ◌⊎◌, inl, inr, arith, false, Bool-cases, List, [], length, get_elem?_of_le, ok, In, dec_le, true,
  >>=-eq-ok,
}
use raft_kvs.Persister.{Persister}
use raft_kvs.Raft.Types.{Raft, Gob, LogEntry, Stored, AppendEntriesArgs, AppendEntriesReply}
use raft_kvs.Raft.Log.{term_at, suffix}
use raft_kvs.Raft.Persist.{persist, stored}
use raft_kvs.Raft.Order.{WritesAll, IsDurable}
use raft_kvs.Raft.Broadcast.{append_args}
use raft_kvs.Raft.Election.{become_follower}
use raft_kvs.Raft.Append.{
  LogCheck, too_short, conflict, matches, append_entries, accept_leader, apply_check, truncate,
  append, follow_commit,
}
use raft_kvs.Raft.Append.Later.{append_entries-cases, apply_check-eq, accept_leader-WritesAll}
use raft_kvs.Raft.Append.Result.{Agrees, append_entries_success, accept_leader-same}
use raft_kvs.Raft.Append.Refusal.{append_entries_refused}
use raft_kvs.Raft.Append.Durability.{append-WritesAll, truncate-persister, follow_commit-same}
use raft_kvs.Raft.Append.Convergence.{append_entries_converges, append_args-eq}
use raft_kvs.Raft.Node.{make, fresh}
use raft_kvs.Raft.Node.Later.{make_first, make_stored}
use raft_kvs.Raft.Cluster.Logs.{
  Made, root, IsKnown, IsChain, IsKnown-IsMatching, root-IsKnown, zero_term-first,
}

-- A request that a leader built from a log that was made.
pub record IsCut {C : Type 0} (made : List (Made C)) (args : AppendEntriesArgs C) : Type 0 where
  pub ld : Raft C
  pub next : ℤ
  pub built : append_args ld next ≡ ok args
  pub known : IsKnown made ld.log

module _ {C : Type 0} ⦃g : Gob C⦄ where
  -- The disk holds nothing, or a log that was made.
  abbrev pub DiskIsKnown : List (Made C) → Persister → Type 0
  DiskIsKnown made p =
      (p.raftstate ≡ []) ⊎ ((s : Stored C) × (p.raftstate ≡ g.encode s) × IsKnown made s.log)

  -- The disk is as it was, or holds the log of before or of now.
  abbrev pub Saves : Raft C → Raft C → Type 0
  Saves a b =
      (b.persister ≡ a.persister)
      ⊎ ((s : Stored C) × (b.persister.raftstate ≡ g.encode s)
          × ((s.log ≡ a.log) ⊎ (s.log ≡ b.log)))

  Saves-DiskIsKnown :
      (made : List (Made C)) (a b : Raft C)
      → Saves a b
      → DiskIsKnown made a.persister
      → IsKnown made a.log
      → IsKnown made b.log
      → DiskIsKnown made b.persister
  Saves-DiskIsKnown made a b (inl same) disk k j = subst (DiskIsKnown made) (sym same) disk
  Saves-DiskIsKnown made a b (inr (s, e, inl old)) disk k j =
      inr (s, e, subst (IsKnown made) (sym old) k)
  Saves-DiskIsKnown made a b (inr (s, e, inr new)) disk k j =
      inr (s, e, subst (IsKnown made) (sym new) j)

  pub WritesAll-DiskIsKnown :
      (made : List (Made C)) (a b : Raft C)
      → WritesAll a b
      → DiskIsKnown made a.persister
      → IsKnown made b.log
      → DiskIsKnown made b.persister
  WritesAll-DiskIsKnown made a b (inl (same, e)) disk k = subst (DiskIsKnown made) (sym same) disk
  WritesAll-DiskIsKnown made a b (inr e) disk k = inr (stored b, e, k)

  apply_check-saves :
      (args : AppendEntriesArgs C) (seen : ℤ) (c : LogCheck) (rf : Raft C) {b : Raft C}
      {reply : AppendEntriesReply}
      → apply_check args seen c rf ≡ ok (b, reply)
      → (b.persister ≡ rf.persister) ⊎ IsDurable b
  unfolding apply_check
  apply_check-saves args seen (too_short i) rf e = ground arith
  apply_check-saves args seen (conflict t i) rf e = ground arith
  apply_check-saves args seen matches rf {b} e =
      let (rf1, cut, e1) = >>=-eq-ok (truncate (args.prev_log_index +ℤ pos 1) rf) _ e in
      let kept = truncate-persister (args.prev_log_index +ℤ pos 1) rf cut in
      let rf2 = append args.entries rf1 in
      let (disk, all) = follow_commit-same args.leader_commit rf2 in
      let last : b ≡ follow_commit args.leader_commit rf2 = ground arith in
      subst (λ (x : Raft C). (x.persister ≡ rf.persister) ⊎ IsDurable x) (sym last)
        (elim (append-WritesAll args.entries rf1) [
          | inl (same, _) ↦ inl (disk ∙ same ∙ kept)
          | inr new ↦ inr (ap (λ (x : Persister). x.raftstate) disk ∙ new ∙ ap g.encode (sym all))
        ])

  pub append_entries-Saves :
      (now : ℕ) (args : AppendEntriesArgs C) (rf : Raft C) {b : Raft C} {reply : AppendEntriesReply}
      → append_entries now args rf ≡ ok (b, reply)
      → Saves rf b
  append_entries-Saves now args rf {b} ran = elim (append_entries-cases now args rf ran) [
    | inl (_, same, _) ↦ inl (ap (λ (x : Raft C). x.persister) same)
    | inr (_, (c, _, e)) ↦
        let rf1 = accept_leader now args rf in
        elim (apply_check-saves args rf.current_term c rf1 e) [
          | inl kept ↦ elim (accept_leader-WritesAll now args rf) [
            | inl (same, _) ↦ inl (kept ∙ same)
            | inr new ↦ inr (
              stored rf1,
              ap (λ (x : Persister). x.raftstate) kept ∙ new,
              inl (accept_leader-same now args rf).0,
            )
          ]
          | inr new ↦ inr (stored b, new, inr refl)
        ]
  ]

  -- A request is never built for a next index below 0.
  append_args-pos :
      (ld : Raft C) (next : ℤ) {args : AppendEntriesArgs C}
      → append_args ld next ≡ ok args
      → (n : ℕ) × (next ≡ pos n)
  unfolding append_args suffix
  append_args-pos ld (pos n) h = (n, refl)
  append_args-pos ld (negsuc n) h = absurd (ground arith)

  term_at_beyond : (l : List (LogEntry C)) (p : ℕ) → length l ≤ p → term_at l (pos p) ≡ pos 0
  unfolding term_at
  term_at_beyond l p h = let none_there = get_elem?_of_le l p h in ground arith

  -- A request that is accepted is for a next index within the leader's log.
  accepted-within :
      (made : List (Made C)) (l : List (LogEntry C)) (ld : Raft C) (n : ℕ)
      {args : AppendEntriesArgs C}
      → ((p : Made C) → In p made → p.term ≡ pos 0 → p ≡ root)
      → IsKnown made l
      → IsKnown made ld.log
      → append_args ld (pos n) ≡ ok args
      → Agrees l args.prev_log_index args.prev_log_term
      → n ≤ length ld.log
  accepted-within made l ld zero only k j built agrees = omega arith
  accepted-within made l ld (suc p) {args = args} only k j built agrees =
      elim (dec_le (suc p) (length ld.log)) [
        | yes within ↦ within
        | no out ↦
            let (_, prev, t) = append_args-eq ld (suc p) built in
            let at_p = prev ∙ suc-minus_one p in
            let (e, found, same) = subst (λ i. Agrees l i args.prev_log_term) at_p agrees in
            let beyond : length ld.log ≤ p = omega arith in
            let zero_term : e.term ≡ pos 0 =
              same ∙ t ∙ ap (term_at ld.log) (suc-minus_one p) ∙ term_at_beyond ld.log p beyond in
            let first = zero_term-first made l p e only k found zero_term in
            absurd (omega (arith, first, j.nonempty))
      ]

  -- A peer that takes the entries of a request has the log from which the request was built.
  pub append_entries_whole :
      (made : List (Made C)) (now : ℕ) (args : AppendEntriesArgs C) (rf : Raft C) {b : Raft C}
      {reply : AppendEntriesReply} (cut : IsCut made args)
      → IsChain made
      → ((p : Made C) → In p made → p.term ≡ pos 0 → p ≡ root)
      → IsKnown made rf.log
      → append_entries now args rf ≡ ok (b, reply)
      → reply.success ≡ true
      → b.log ≡ cut.ld.log
  append_entries_whole made now args rf cut chain only k ran yes_reply =
      let (n, at_n) = append_args-pos cut.ld cut.next cut.built in
      let built = subst (λ i. append_args cut.ld i ≡ ok args) at_n cut.built in
      let (_, agrees, _) = append_entries_success now args rf ran yes_reply in
      let within = accepted-within made rf.log cut.ld n only k cut.known built agrees in
      append_entries_converges now n cut.ld rf built within
        (IsKnown-IsMatching made rf.log cut.ld.log chain k cut.known) ran yes_reply

  -- Whatever the reply, the log is as it was, or the term is that of the request; and it was made.
  pub append_entries-IsKnown :
      (made : List (Made C)) (now : ℕ) (args : AppendEntriesArgs C) (rf : Raft C) {b : Raft C}
      {reply : AppendEntriesReply}
      → IsChain made
      → ((p : Made C) → In p made → p.term ≡ pos 0 → p ≡ root)
      → IsKnown made rf.log
      → IsCut made args
      → append_entries now args rf ≡ ok (b, reply)
      → IsKnown made b.log
  append_entries-IsKnown made now args rf {b} {reply} chain only k cut ran =
      elim (Bool-cases reply.success) [
        | inl yes_reply ↦
            subst (IsKnown made)
              (sym (append_entries_whole made now args rf cut chain only k ran yes_reply)) cut.known
        | inr no_reply ↦ elim (append_entries-cases now args rf ran) [
          | inl (_, same, _) ↦ subst (λ (x : Raft C). IsKnown made x.log) (sym same) k
          | inr (current, _) ↦
              subst (IsKnown made)
                (sym (append_entries_refused now args rf ran no_reply (ground arith)).0) k
        ]
      ]

  pub accept_leader-term :
      (now : ℕ) (args : AppendEntriesArgs C) (rf : Raft C)
      → ltb_ℤ args.term rf.current_term ≡ false
      → (accept_leader now args rf).current_term ≡ args.term
  unfolding accept_leader become_follower persist
  accept_leader-term now args rf le = ground arith

  pub append_entries-term :
      (now : ℕ) (args : AppendEntriesArgs C) (rf : Raft C) {b : Raft C} {reply : AppendEntriesReply}
      → append_entries now args rf ≡ ok (b, reply)
      → (b ≡ rf) ⊎ (b.current_term ≡ args.term)
  append_entries-term now args rf ran = elim (append_entries-cases now args rf ran) [
    | inl (_, same, _) ↦ inl same
    | inr (current, (c, _, e)) ↦ inr (
        (apply_check-eq args rf.current_term c (accept_leader now args rf) e).0
        ∙ accept_leader-term now args rf current)
  ]

  pub append_entries-DiskIsKnown :
      (made : List (Made C)) (now : ℕ) (args : AppendEntriesArgs C) (rf : Raft C) {b : Raft C}
      {reply : AppendEntriesReply}
      → append_entries now args rf ≡ ok (b, reply)
      → DiskIsKnown made rf.persister
      → IsKnown made rf.log
      → IsKnown made b.log
      → DiskIsKnown made b.persister
  append_entries-DiskIsKnown made now args rf {b} ran disk k j =
      Saves-DiskIsKnown made rf b (append_entries-Saves now args rf ran) disk k j

  pub make-IsKnown :
      (made : List (Made C)) (now : ℕ) (rf : Raft C) {b : Raft C}
      → In root made
      → make rf.peers rf.me rf.persister now ≡ ok b
      → DiskIsKnown made rf.persister
      → IsKnown made b.log × DiskIsKnown made b.persister
  make-IsKnown made now rf {b} first ran (inl none_yet) =
      let same : fresh rf.peers rf.me rf.persister now ≡ b =
        let h : make rf.peers rf.me rf.persister now
            ≡ ok (fresh {C = C} rf.peers rf.me rf.persister now) =
          make_first rf.peers rf.me now rf.persister none_yet in
        ground arith in
      subst (λ (x : Raft C). IsKnown made x.log × DiskIsKnown made x.persister) same
        (root-IsKnown made first, inl none_yet)
  make-IsKnown made now rf {b} first ran (inr (s, e, k)) =
      let h = make_stored rf.peers rf.me now rf.persister s e in
      let same_log : b.log ≡ s.log = ground arith in
      let same_disk : b.persister ≡ rf.persister = ground arith in
      (
        subst (IsKnown made) (sym same_log) k,
        subst (DiskIsKnown made) (sym same_disk) (inr (s, e, k)),
      )
