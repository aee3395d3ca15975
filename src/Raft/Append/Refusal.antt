-- ===== src/Raft/Append/Refusal.antt =====
-- What a refused AppendEntries tells the leader, and that the tests on the log never panic.
use raft_kvs.Base.{
  ℕ, zero, suc, ◌<◌, ◌≤◌, ℤ, pos, negsuc, minus_one, ◌+ℤ◌, ◌==ℤ◌, ltb_ℤ, ◌≡◌, ◌≢◌, refl, sym, inl,
  inr, arith, false, Bool-cases, ok, ◌>>=◌, if◌then◌else◌, List, some, length, get_elem?,
  get_elem?_of_lt, ℕ_discrete, subst, ◌≤ℤ◌, Returns, ok-Returns, panics, ◌∙◌, take, drop, map, ◌++◌,
  if-Returns, bind-Returns,
}
use raft_kvs.Raft.Types.{Raft, AppendEntriesArgs, AppendEntriesReply, Gob, LogEntry, abort_msg}
use raft_kvs.Raft.Log.{last_log_index, back_up}
use raft_kvs.Raft.Append.Later.{append_entries-cases}
use raft_kvs.Raft.Append.Result.{accept_leader-same}
use raft_kvs.Raft.Append.{
  LogCheck, too_short, conflict, matches, append_entries, accept_leader, apply_check, check_log,
  check_entry, truncate,
}

module _ {C : Type 0} where
  -- All entries from `f` up to before `k` are of term `t`, and `f` is the first such index.
  pub record IsRun (log : List (LogEntry C)) (t : ℤ) (f k : ℕ) : Type 0 where
    pub below : f ≤ k
    pub inside : (j : ℕ) (e : LogEntry C) → f ≤ j → j < k → get_elem? log j ≡ some e → e.term ≡ t
    pub before : (j : ℕ) (e : LogEntry C) → suc j ≡ f → get_elem? log j ≡ some e → e.term ≢ t

  back_up-IsRun :
      (log : List (LogEntry C)) (t : ℤ) (k : ℕ)
      → k ≤ length log
      → (f : ℕ) × (back_up log t k ≡ ok f) × IsRun log t f k
  unfolding back_up
  back_up-IsRun log t zero h = (
    0,
    refl,
    record {
      below = omega arith;
      inside = λ j e a b _. absurd (omega arith);
      before = λ j e a _. absurd (omega arith);
    },
  )
  back_up-IsRun log t (suc i) h =
      let (e, found) = get_elem?_of_lt log i h in
      elim (Bool-cases (e.term ==ℤ t)) [
        | inl same ↦
            let (f, ran, run) = back_up-IsRun log t i (omega arith) in
            (
              f,
              ground arith,
              record {
                below = omega (arith, run.below);
                inside = λ j x a b at_j. elim (ℕ_discrete j i) [
                  | yes here ↦ ground arith
                  | no earlier ↦ run.inside j x a (omega arith) at_j
                ];
                before = run.before;
              },
            )
        | inr differ ↦ (
          suc i,
          ground arith,
          record {
            below = omega arith;
            inside = λ j x a b _. absurd (omega arith);
            before = λ j x a at_j same. ground arith;
          },
        )
      ]

  -- What a reply says of the log that refused a request behind `prev`, of term `t`.
  pub data Refusal (log : List (LogEntry C)) (prev t : ℤ) (reply : AppendEntriesReply)
      : Type 0 where
    short :
        pos (length log) ≤ℤ prev
        → reply.conflict_term ≡ minus_one
        → reply.conflict_index ≡ pos (length log)
        → Refusal log prev t reply
    differs :
        (p f : ℕ) (e : LogEntry C)
        → prev ≡ pos p
        → get_elem? log p ≡ some e
        → e.term ≢ t
        → reply.conflict_term ≡ e.term
        → reply.conflict_index ≡ pos f
        → IsRun log e.term f (suc p)
        → Refusal log prev t reply

  -- The two refusals, and agreement, by the outcome of the tests.
  Tested : List (LogEntry C) → ℤ → ℤ → LogCheck → Type 0
  Tested log prev t (too_short i) = (pos (length log) ≤ℤ prev) × (i ≡ pos (length log))
  Tested log prev t (conflict u i) =
      (p : ℕ) × (f : ℕ) × (e : LogEntry C) × (prev ≡ pos p)
      × (get_elem? log p ≡ some e)
      × (e.term ≢ t)
      × (u ≡ e.term)
      × (i ≡ pos f)
      × IsRun log e.term f (suc p)
  Tested log prev t matches = Unit

  check_entry-Tested :
      (log : List (LogEntry C)) (p : ℕ) (t : ℤ) (e : LogEntry C)
      → get_elem? log p ≡ some e
      → p < length log
      → (c : LogCheck) × (check_entry log p t e ≡ ok c) × Tested log (pos p) t c
  unfolding check_entry Tested
  check_entry-Tested log p t e found h = elim (Bool-cases (e.term ==ℤ t)) [
    | inl same ↦ (matches, ground arith, tt)
    | inr differ ↦
        let (f, ran, run) = back_up-IsRun log e.term (suc p) h in
        (
          conflict e.term (pos f),
          ground arith,
          (p, f, e, refl, found, (λ same. ground arith), refl, refl, run),
        )
  ]

  last_log_index-plus_one :
      (log : List (LogEntry C)) → last_log_index log +ℤ pos 1 ≡ pos (length log)
  unfolding last_log_index ◌+ℤ◌
  last_log_index-plus_one log = ground arith

  -- The tests always return, and say what is the case.
  check_log-Tested :
      (log : List (LogEntry C)) (prev t : ℤ)
      → (c : LogCheck) × (check_log log prev t ≡ ok c) × Tested log prev t c
  unfolding check_log Tested
  check_log-Tested log (negsuc n) t = (matches, ground arith, tt)
  check_log-Tested log (pos p) t = elim (Bool-cases (ltb_ℤ (last_log_index log) (pos p))) [
    | inl ends ↦ (
      too_short (last_log_index log +ℤ pos 1),
      ground arith,
      (ground arith, last_log_index-plus_one log),
    )
    | inr long ↦
        let within : p < length log = ground arith in
        let (e, found) = get_elem?_of_lt log p within in
        let (c, ran, tested) = check_entry-Tested log p t e found within in
        (c, ground arith, tested)
  ]

module _ {C : Type 0} ⦃g : Gob C⦄ where
  apply_check-Refusal :
      (args : AppendEntriesArgs C) (seen : ℤ) (c : LogCheck) (rf : Raft C) {rf' : Raft C}
      {reply : AppendEntriesReply}
      → Tested rf.log args.prev_log_index args.prev_log_term c
      → apply_check args seen c rf ≡ ok (rf', reply)
      → reply.success ≡ false
      → (rf' ≡ rf)
        × (reply.term ≡ seen)
        × Refusal rf.log args.prev_log_index args.prev_log_term reply
  unfolding apply_check Tested
  apply_check-Refusal args seen (too_short i) rf (h, at_end) e refused =
      (ground arith, ground arith, short h (ground arith) (ground arith))
  apply_check-Refusal args seen (conflict u i) rf (p, f, x, at_p, found, ne, at_u, at_i, run) e
        refused =
      (ground arith, ground arith, differs p f x at_p found ne (ground arith) (ground arith) run)
  apply_check-Refusal args seen matches rf tested e refused = absurd (ground arith)

  -- A request of a current leader that is refused leaves the log and the commit index alone, and
  -- the reply says where the logs part: behind the end of the log, or at the first index of the
  -- term that stands at `PrevLogIndex` instead of the leader's.
  pub append_entries_refused :
      (now : ℕ) (args : AppendEntriesArgs C) (rf : Raft C) {rf' : Raft C}
      {reply : AppendEntriesReply}
      → append_entries now args rf ≡ ok (rf', reply)
      → reply.success ≡ false
      → rf.current_term ≤ℤ args.term
      → (rf'.log ≡ rf.log)
        × (rf'.commit_index ≡ rf.commit_index)
        × (rf'.apply_ch ≡ rf.apply_ch)
        × (reply.term ≡ rf.current_term)
        × Refusal rf.log args.prev_log_index args.prev_log_term reply
  append_entries_refused now args rf {rf'} {reply} h refused current =
      elim (append_entries-cases now args rf h) [
        | inl (old, _, _) ↦ absurd (ground arith)
        | inr (_, (c, ran, e)) ↦
            let rf1 = accept_leader now args rf in
            let (log, commit, sent) = accept_leader-same now args rf in
            let (c', ran', tested) =
              check_log-Tested rf1.log args.prev_log_index args.prev_log_term in
            let same : c' ≡ c = ground arith in
            let (e1, e2, found) =
              apply_check-Refusal args rf.current_term c rf1
                (subst (Tested rf1.log args.prev_log_index args.prev_log_term) same tested) e
                refused in
            (
              rw e1 log,
              rw e1 commit,
              rw e1 sent,
              e2,
              subst (λ l. Refusal l args.prev_log_index args.prev_log_term reply) log found,
            )
      ]

  truncate-Returns : (n : ℕ) (rf : Raft C) → Returns (truncate (pos n) rf)
  unfolding truncate
  truncate-Returns n rf =
      let cut = record rf {
        log = take n rf.log;
        apply_ch = rf.apply_ch ++ map (λ e. abort_msg e.command) (drop n rf.log);
      } in
      (if ltb_ℤ (pos n) (pos (length rf.log)) then cut else rf, ground arith)

  apply_check-Returns :
      (args : AppendEntriesArgs C) (seen : ℤ) (c : LogCheck) (rf : Raft C) (n : ℕ)
      → args.prev_log_index +ℤ pos 1 ≡ pos n
      → Returns (apply_check args seen c rf)
  unfolding apply_check
  apply_check-Returns args seen (too_short i) rf n e = ok-Returns _
  apply_check-Returns args seen (conflict t i) rf n e = ok-Returns _
  apply_check-Returns args seen matches rf n e =
      bind-Returns _ _ (subst (λ i. Returns (truncate i rf)) (sym e) (truncate-Returns n rf))
        (λ _ _. ok-Returns _)

  -- Once the service has taken the messages that the handler sends, it has an answer.
  pub append_entries-Returns :
      (now n : ℕ) (args : AppendEntriesArgs C) (rf : Raft C)
      → args.prev_log_index +ℤ pos 1 ≡ pos n
      → Returns (append_entries now args rf)
  unfolding append_entries
  append_entries-Returns now n args rf e =
      let rf1 = accept_leader now args rf in
      let (c, ran, _) = check_log-Tested rf1.log args.prev_log_index args.prev_log_term in
      if-Returns (ltb_ℤ args.term rf.current_term) (ok _)
        (check_log rf1.log args.prev_log_index args.prev_log_term >>= λ c.
          apply_check args rf.current_term c rf1)
        (λ _. ok-Returns _)
        (λ _. bind-Returns _ _ (c, ran) (λ c _. apply_check-Returns args rf.current_term c rf1 n e))

  -- The handler accesses nothing out of range: it panics on no state and on no request whose
  -- `PrevLogIndex` is -1 or more. Whether it returns is up to the service, which must take the
  -- aborted commands that the handler sends.
  pub append_entries_in_range :
      (now n : ℕ) (args : AppendEntriesArgs C) (rf : Raft C)
      → args.prev_log_index +ℤ pos 1 ≡ pos n
      → append_entries now args rf ≢ panics
  append_entries_in_range now n args rf e h =
      let (a, ran) = append_entries-Returns now n args rf e in ground (arith, sym ran ∙ h)
