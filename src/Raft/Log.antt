-- ===== src/Raft/Log.antt =====
-- src/raft/util.go and the reads of the log in src/raft: positions and terms.
use raft_kvs.Base.{
  ℕ, zero, suc, ℤ, pos, negsuc, minus_one, ◌-ℤ◌, ltb_ℤ, leb_ℤ, ◌==ℤ◌, List, [], ◌∷◌, length,
  get_elem?, drop, none, some, Bool, Outcome, ok, to_bound, ◌>>=◌, if◌then◌else◌,
}
use raft_kvs.Raft.Types.{LogEntry}

module _ {C : Type 0} where
  -- `lastLogIndex`: -1 for an empty log.
  unfoldable pub last_log_index : List (LogEntry C) → ℤ
  unfolding ◌-ℤ◌
  last_log_index log = pos (length log) -ℤ pos 1

  -- The term at an index, or 0 where the code tests that the index is in the log first.
  unfoldable pub term_at : List (LogEntry C) → ℤ → ℤ
  term_at log (negsuc n) = pos 0
  term_at log (pos n) = elim (get_elem? log n) [ none ↦ pos 0 | some e ↦ e.term ]

  -- `lastLogTerm`, as `startElection` and `isLogUpToDate` compute it.
  unfoldable pub last_log_term : List (LogEntry C) → ℤ
  unfolding last_log_index term_at
  last_log_term log = term_at log (last_log_index log)

  unfoldable pub first_index_from : ℕ → List (LogEntry C) → ℤ → ℤ
  first_index_from i [] t = minus_one
  first_index_from i (e ∷ log) t = if e.term ==ℤ t then pos i else first_index_from (suc i) log t

  -- `firstIndexOfTerm`: -1 where no entry has the term.
  unfoldable pub first_index_of_term : List (LogEntry C) → ℤ → ℤ
  unfolding first_index_from
  first_index_of_term log t = first_index_from 0 log t

  -- `for i >= 0 && log[i].Term == t { i-- }`, with k for i + 1: the final i + 1.
  unfoldable pub back_up : List (LogEntry C) → ℤ → ℕ → Outcome ℕ
  back_up log t zero = ok zero
  back_up log t (suc i) = elim (get_elem? log i) [
    | none ↦ Outcome.panics
    | some e ↦ elim (e.term ==ℤ t) [ Bool.true ↦ back_up log t i | Bool.false ↦ ok (suc i) ]
  ]

  -- The entries from an index on, as an AppendEntries to a follower carries them.
  unfoldable pub suffix : List (LogEntry C) → ℤ → Outcome (List (LogEntry C))
  unfolding last_log_index
  suffix log next =
      if leb_ℤ next (last_log_index log) then (do n ← to_bound next; ok (drop n log)) else ok []

-- `min` and `max` of util.go
unfoldable pub min : ℤ → ℤ → ℤ
min a b = if ltb_ℤ a b then a else b

unfoldable pub max : ℤ → ℤ → ℤ
max a b = if ltb_ℤ b a then a else b
