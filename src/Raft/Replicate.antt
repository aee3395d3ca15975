-- ===== src/Raft/Replicate.antt =====
-- src/raft/log_replication.go, the leader after a reply: what a follower has, what is committed.
pub mod Later
pub mod Commit
pub mod Matches
use raft_kvs.Base.{
  ℕ, zero, suc, ◌/◌, ℤ, pos, minus_one, ◌+ℤ◌, ltb_ℤ, leb_ℤ, ◌==ℤ◌, ltb, ◌==◌, Bool, false, ◌||◌,
  not, List, [], ◌∷◌, ◌++◌, range, length, get_elem?, Outcome, ok, panics, or_panic, store, ◌>>=◌,
  if◌then◌else◌,
}
use raft_kvs.Raft.Types.{Raft, is_leader, send_entries, AppendEntriesArgs, AppendEntriesReply, Gob}
use raft_kvs.Raft.Log.{first_index_of_term, max}
use raft_kvs.Raft.Broadcast.{append_args}
use raft_kvs.Raft.Election.{become_follower}

-- The loop of `advanceCommitIndex` over the peers: how many others have the entry `n`.
unfoldable pub count_others : ℕ → List ℤ → ℕ → List ℕ → Outcome ℕ
count_others me match_index n [] = ok 0
count_others me match_index n (i ∷ is) =
    let rest = count_others me match_index n is in
    if i == me then rest else do
      m ← or_panic (get_elem? match_index i)
      c ← rest
      ok (if leb_ℤ (pos n) m then suc c else c)

module _ {C : Type 0} where
  -- Whether the entry `n`, of term `t`, is to be committed.
  unfoldable pub can_commit : Raft C → ℕ → ℤ → Outcome Bool
  can_commit rf n t =
      if t ==ℤ rf.current_term
      then (do
        others ← count_others rf.me rf.match_index n (range rf.peers)
        ok (ltb (rf.peers / 2) (suc others)))
      else ok false

  -- The loop of `advanceCommitIndex`, with k for N + 1.
  unfoldable pub advance_from : Raft C → ℕ → Outcome (Raft C)
  advance_from rf zero = if ltb_ℤ rf.commit_index minus_one then panics else ok rf
  advance_from rf (suc n) =
      let rest = advance_from rf n in
      if ltb_ℤ rf.commit_index (pos n)
      then (do
        e ← or_panic (get_elem? rf.log n)
        committed ← can_commit rf n e.term
        if committed
            then ok (record rf { commit_index = pos n; apply_cond = suc rf.apply_cond })
            else rest)
      else ok rf

  -- `advanceCommitIndex`
  unfoldable pub advance_commit_index : Raft C → Outcome (Raft C)
  unfolding advance_from
  advance_commit_index rf = advance_from rf (length rf.log)

  -- A follower took the entries.
  unfoldable pub record_match : ℕ → AppendEntriesArgs C → Raft C → Outcome (Raft C)
  record_match server args rf = do
    old ← or_panic (get_elem? rf.match_index server)
    let m = max old (args.prev_log_index +ℤ pos (length args.entries))
    matches ← store rf.match_index server m
    nexts ← store rf.next_index server (m +ℤ pos 1)
    advance_commit_index (record rf { match_index = matches; next_index = nexts })

  -- Where to go on after a refusal.
  unfoldable pub backed_up : AppendEntriesReply → Raft C → ℤ
  backed_up reply rf =
      let idx = first_index_of_term rf.log reply.conflict_term in
      if not (reply.conflict_term ==ℤ minus_one)
      then (if idx ==ℤ minus_one then reply.conflict_index else idx)
      else max (pos 0) reply.conflict_index

  -- A follower refused: its next index is moved back, and the request is made again.
  unfoldable pub retry : ℕ → AppendEntriesReply → Raft C → Outcome (Raft C)
  unfolding backed_up
  retry server reply rf = do
    nexts ← store rf.next_index server (backed_up reply rf)
    let rf1 = record rf { next_index = nexts }
    args ← append_args rf1 (backed_up reply rf)
    ok (record rf1 { calls = rf1.calls ++ send_entries server args ∷ [] })

-- `replicateTo` after its `Call` returned true
unfoldable pub on_append_reply :
    {C : Type 0} ⦃g : Gob C⦄
    → ℕ
    → AppendEntriesArgs C
    → AppendEntriesReply
    → Raft C
    → Outcome (Raft C)
on_append_reply server args reply rf =
    if not (is_leader rf.state) || not (args.term ==ℤ rf.current_term)
    then ok rf
    else if ltb_ℤ rf.current_term reply.term
    then ok (become_follower reply.term rf)
    else if reply.success
    then record_match server args rf
    else retry server reply rf
