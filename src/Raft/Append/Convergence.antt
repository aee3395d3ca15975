-- ===== src/Raft/Append/Convergence.antt =====
-- A follower that accepts an AppendEntries has the log of the leader that made it.
use raft_kvs.Base.{
  ℕ, zero, suc, ◌≤◌, pos, ◌+ℤ◌, ◌-ℤ◌, ◌≡◌, refl, sym, ap, ◌∙◌, arith, true, ok, List, [], ◌∷◌, ◌++◌,
  some, length, take, drop, get_elem?, get_elem?_of_lt, take-append-drop, subst, pos_part,
  suc-minus_one, minus_plus_one,
}
use mathlib.Core.Path.{ap₂, subst₂}
use raft_kvs.Raft.Types.{Raft, AppendEntriesArgs, AppendEntriesReply, Gob, LogEntry}
use raft_kvs.Raft.Log.{suffix, term_at}
use raft_kvs.Raft.Broadcast.{append_args}
use raft_kvs.Raft.Append.Result.{Agrees, append_entries_success}
use raft_kvs.Raft.Append.{append_entries}

module _ {C : Type 0} where
  -- Raft's Log Matching: where two logs have entries of one term, they agree up to there.
  pub record IsMatching (l m : List (LogEntry C)) : Type 0 where
    pub prefix :
        (i : ℕ) (e f : LogEntry C)
        → get_elem? l i ≡ some e
        → get_elem? m i ≡ some f
        → e.term ≡ f.term
        → take (suc i) l ≡ take (suc i) m

  pub drop_of_length-le : (n : ℕ) (l : List (LogEntry C)) → length l ≤ n → drop n l ≡ []
  drop_of_length-le zero [] h = refl
  drop_of_length-le zero (e ∷ l) h = absurd (omega arith)
  drop_of_length-le (suc n) [] h = refl
  drop_of_length-le (suc n) (e ∷ l) h = drop_of_length-le n l (omega arith)

  pub suffix-drop : (l : List (LogEntry C)) (n : ℕ) → suffix l (pos n) ≡ ok (drop n l)
  unfolding suffix
  suffix-drop l n = ground (arith, drop_of_length-le n l)

  -- The request for a next index within the log carries all that follows.
  pub append_args-eq :
      (ld : Raft C) (n : ℕ) {args : AppendEntriesArgs C}
      → append_args ld (pos n) ≡ ok args
      → (args.entries ≡ drop n ld.log)
        × (args.prev_log_index ≡ pos n -ℤ pos 1)
        × (args.prev_log_term ≡ term_at ld.log (pos n -ℤ pos 1))
  unfolding append_args
  append_args-eq ld n h = ground (arith, suffix-drop ld.log n)

  pub term_at-pos :
      (m : List (LogEntry C)) (p : ℕ) (f : LogEntry C)
      → get_elem? m p ≡ some f
      → term_at m (pos p) ≡ f.term
  unfolding term_at
  term_at-pos m p f h = rw (h, term_at)

  take-Agrees :
      (l m : List (LogEntry C)) (n : ℕ)
      → IsMatching l m
      → n ≤ length m
      → Agrees l (pos n -ℤ pos 1) (term_at m (pos n -ℤ pos 1))
      → take n l ≡ take n m
  take-Agrees l m zero same h agrees = refl
  take-Agrees l m (suc p) same h agrees =
      let (e, found, t) = subst (λ i. Agrees l i (term_at m i)) (suc-minus_one p) agrees in
      let (f, there) = get_elem?_of_lt m p h in
      same.prefix p e f found there (t ∙ term_at-pos m p f there)

module _ {C : Type 0} ⦃g : Gob C⦄ where
  -- A request that a leader makes for a next index within its log (it carries all that follows),
  -- if a follower of matching log accepts it, leaves the follower with the leader's whole log.
  pub append_entries_converges :
      (now n : ℕ) (ld rf : Raft C) {args : AppendEntriesArgs C} {rf' : Raft C}
      {reply : AppendEntriesReply}
      → append_args ld (pos n) ≡ ok args
      → n ≤ length ld.log
      → IsMatching rf.log ld.log
      → append_entries now args rf ≡ ok (rf', reply)
      → reply.success ≡ true
      → rf'.log ≡ ld.log
  append_entries_converges now n ld rf {args} made h same ran success =
      let (es, prev, t) = append_args-eq ld n made in
      let (_, agrees, (k, at_k, result)) = append_entries_success now args rf ran success in
      let k_n : k ≡ n = ap pos_part (sym at_k ∙ ap (λ i. i +ℤ pos 1) prev ∙ minus_plus_one n) in
      let same_prefix = take-Agrees rf.log ld.log n same h (subst₂ (Agrees rf.log) prev t agrees) in
      result
      ∙ ap₂ (λ k es. take k rf.log ++ es) k_n es
      ∙ ap (λ l. l ++ drop n ld.log) same_prefix
      ∙ take-append-drop n ld.log
