-- ===== src/Raft/Steps/Votes.antt =====
-- What every run of a peer keeps: stored terms and votes, growing terms, one vote in a term.
use raft_kvs.Base.{ℕ, minus_one, ◌≡◌, ◌≢◌, refl, sym, ◌∙◌, inl, inr, arith, true, subst}
use raft_kvs.Raft.Types.{Raft, Gob, RequestVoteArgs}
use raft_kvs.Raft.Persist.{stored}
use raft_kvs.Raft.Order.{
  Later, Later-refl, Later-same, Later-trans, IsStored, Writes-IsStored, WritesAll-Writes,
}
use raft_kvs.Raft.Election.{request_vote, start_election}
use raft_kvs.Raft.Election.Votes.{request_vote-Later, request_vote-WritesAll, request_vote_granted}
use raft_kvs.Raft.Election.Candidacy.{
  start_election-Later, start_election-IsDurable, on_vote_reply-Later, on_vote_reply-WritesAll,
}
use raft_kvs.Raft.Append.Later.{append_entries-Later, append_entries-Writes}
use raft_kvs.Raft.Replicate.Later.{on_append_reply-Later, on_append_reply-WritesAll}
use raft_kvs.Raft.Node.{apply_entry}
use raft_kvs.Raft.Node.Later.{start-same, heartbeat-same, kill-same, make-same}
use raft_kvs.Raft.Steps.{
  Step, votes, takes_entries, campaigns, reads_vote, reads_match, starts, beats, applies, dies,
  restarts, Run, here, next, IsQuiet, AllQuiet,
}

module _ {C : Type 0} ⦃g : Gob C⦄ where
  pub Step-Later : {a b : Raft C} (st : Step a b) → IsStored a → IsQuiet st → Later a b
  unfolding apply_entry
  Step-Later {a} {b} (votes now args e) s q = rw e (request_vote-Later now args a)
  Step-Later {a} {b} (takes_entries now args reply h) s q = append_entries-Later now args a h q
  Step-Later {a} {b} (campaigns now n e l h) s q = rw h (start_election-Later now n a e l)
  Step-Later {a} {b} (reads_vote e e' reply h) s q = on_vote_reply-Later e reply a h
  Step-Later {a} {b} (reads_match server args reply h) s q =
      on_append_reply-Later server args reply a h
  Step-Later {a} {b} (starts command r h) s q =
      let (t, v, _) = start-same command a h in Later-same a b t v
  Step-Later {a} {b} (beats now h) s q = ground (arith, heartbeat-same now a h)
  Step-Later {a} {b} (applies index e h) s q = ground arith
  Step-Later {a} {b} (dies h) s q = ground (arith, kill-same a h)
  Step-Later {a} {b} (restarts now h) s q =
      let (t, v, _) = make-same now a s h in Later-same a b t v

  pub Step-Writes : {a b : Raft C} → Step a b → IsStored a → IsStored b
  unfolding apply_entry
  Step-Writes {a} {b} (votes now args e) s =
      let b' = (request_vote now args a).0 in
      subst IsStored (sym e)
        (Writes-IsStored a b' (WritesAll-Writes a b' (request_vote-WritesAll now args a)) s)
  Step-Writes {a} {b} (takes_entries now args reply h) s =
      Writes-IsStored a b (append_entries-Writes now args a h) s
  Step-Writes {a} {b} (campaigns now n e l h) s =
      let b' = (start_election now a).0 in
      subst IsStored (sym h) (inr (stored b', start_election-IsDurable now a, refl, refl))
  Step-Writes {a} {b} (reads_vote e e' reply h) s =
      Writes-IsStored a b (WritesAll-Writes a b (on_vote_reply-WritesAll e reply a h)) s
  Step-Writes {a} {b} (reads_match server args reply h) s =
      Writes-IsStored a b (WritesAll-Writes a b (on_append_reply-WritesAll server args reply a h)) s
  Step-Writes {a} {b} (starts command r h) s =
      Writes-IsStored a b (WritesAll-Writes a b (start-same command a h).2) s
  Step-Writes {a} {b} (beats now h) s =
      Writes-IsStored a b (WritesAll-Writes a b (inl (heartbeat-same now a h))) s
  Step-Writes {a} {b} (applies index e h) s = rw h s
  Step-Writes {a} {b} (dies h) s =
      Writes-IsStored a b (WritesAll-Writes a b (inl (kill-same a h))) s
  Step-Writes {a} {b} (restarts now h) s =
      let (t, v, p) = make-same now a s h in Writes-IsStored a b (inl (p, t, v)) s

  -- Through every run, crashes and restarts included, the disk has the peer's term and vote.
  pub Run-IsStored : {a b : Raft C} → Run a b → IsStored a → IsStored b
  Run-IsStored here s = s
  Run-IsStored (next r st) s = Step-Writes st (Run-IsStored r s)

  Run-Later : {a b : Raft C} (r : Run a b) → IsStored a → AllQuiet r → Later a b
  Run-Later {a} here s q = Later-refl a
  Run-Later {a} {b} (next {b = m} r st) s (q, quiet) =
      Later-trans a m b (Run-Later r s q) (Step-Later st (Run-IsStored r s) quiet)

  -- A peer that granted a vote grants, in the same term, no other candidate a vote, however many
  -- operations, crashes and restarts lie between, if no AppendEntries between reached it as a
  -- candidate in its own term.
  pub vote_once :
      (a b : Raft C) (now later : ℕ) (first second : RequestVoteArgs)
      → IsStored a
      → (request_vote now first a).1.vote_granted ≡ true
      → (r : Run (request_vote now first a).0 b) → AllQuiet r
      → (request_vote later second b).1.vote_granted ≡ true
      → second.term ≡ first.term
      → first.candidate_id ≢ minus_one
      → second.candidate_id ≡ first.candidate_id
  vote_once a b now later first second s granted r quiet again same real =
      let a' = (request_vote now first a).0 in
      let b' = (request_vote later second b).0 in
      let stored_a' = Step-Writes (votes now first refl) s in
      let (t, v) = request_vote_granted now first a granted in
      let (u, w) = request_vote_granted later second b again in
      let later : Later a' b' =
        Later-trans a' b b' (Run-Later r stored_a' quiet) (request_vote-Later later second b) in
      elim later [
        | inl less ↦ absurd (ground arith)
        | inr (_, kept) ↦ sym w ∙ kept (λ e. real (sym v ∙ e)) ∙ v
      ]
