-- ===== src/Raft/Replicate/Later.antt =====
-- A reply to an AppendEntries and the term and vote of the leader that reads it.
use raft_kvs.Base.{
  ℕ, zero, suc, pos, ◌+ℤ◌, store, ◌≡◌, arith, ok, >>=-eq-ok, or_panic, get_elem?, length,
}
use raft_kvs.Raft.Types.{Raft, AppendEntriesArgs, AppendEntriesReply, Gob}
use raft_kvs.Raft.Order.{Later, WritesAll}
use raft_kvs.Raft.Log.{max}
use raft_kvs.Raft.Persist.{persist}
use raft_kvs.Raft.Election.{become_follower}
use raft_kvs.Raft.Replicate.{
  on_append_reply, record_match, retry, advance_from, advance_commit_index,
}

module _ {C : Type 0} where
  -- Committing changes the commit index and signals the applier.
  pub advance_from-eq :
      (rf : Raft C) (k : ℕ) {rf' : Raft C}
      → advance_from rf k ≡ ok rf'
      → (rf'.current_term ≡ rf.current_term)
        × (rf'.voted_for ≡ rf.voted_for)
        × (rf'.log ≡ rf.log)
        × (rf'.persister ≡ rf.persister)
        × (rf'.state ≡ rf.state)
  unfolding advance_from
  advance_from-eq rf zero h = ground arith
  advance_from-eq rf (suc n) {rf'} h = ground (arith, advance_from-eq rf n {rf' = rf'})

  record_match-eq :
      (server : ℕ) (args : AppendEntriesArgs C) (rf : Raft C) {rf' : Raft C}
      → record_match server args rf ≡ ok rf'
      → (rf'.current_term ≡ rf.current_term)
        × (rf'.voted_for ≡ rf.voted_for)
        × (rf'.log ≡ rf.log)
        × (rf'.persister ≡ rf.persister)
  unfolding record_match advance_commit_index
  record_match-eq server args rf h =
      let (old, a, h1) = >>=-eq-ok (or_panic (get_elem? rf.match_index server)) _ h in
      let m = max old (args.prev_log_index +ℤ pos (length args.entries)) in
      let (ms, b, h2) = >>=-eq-ok (store rf.match_index server m) _ h1 in
      let (ns, c, h3) = >>=-eq-ok (store rf.next_index server (m +ℤ pos 1)) _ h2 in
      let (t, v, l, p, _) =
        advance_from-eq (record rf { match_index = ms; next_index = ns }) (length rf.log) h3 in
      (t, v, l, p)

  retry-eq :
      (server : ℕ) (reply : AppendEntriesReply) (rf : Raft C) {rf' : Raft C}
      → retry server reply rf ≡ ok rf'
      → (rf'.current_term ≡ rf.current_term)
        × (rf'.voted_for ≡ rf.voted_for)
        × (rf'.log ≡ rf.log)
        × (rf'.persister ≡ rf.persister)
  unfolding retry
  retry-eq server reply rf h = ground arith

module _ {C : Type 0} ⦃g : Gob C⦄ where
  pub on_append_reply-Later :
      (server : ℕ) (args : AppendEntriesArgs C) (reply : AppendEntriesReply) (rf : Raft C)
      {rf' : Raft C}
      → on_append_reply server args reply rf ≡ ok rf'
      → Later rf rf'
  unfolding on_append_reply become_follower persist
  on_append_reply-Later server args reply rf {rf'} h =
      ground
        (arith, record_match-eq server args rf {rf' = rf'}, retry-eq server reply rf {rf' = rf'})

  pub on_append_reply-WritesAll :
      (server : ℕ) (args : AppendEntriesArgs C) (reply : AppendEntriesReply) (rf : Raft C)
      {rf' : Raft C}
      → on_append_reply server args reply rf ≡ ok rf'
      → WritesAll rf rf'
  unfolding on_append_reply become_follower persist
  on_append_reply-WritesAll server args reply rf {rf'} h =
      ground
        (arith, record_match-eq server args rf {rf' = rf'}, retry-eq server reply rf {rf' = rf'})
