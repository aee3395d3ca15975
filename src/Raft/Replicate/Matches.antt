-- ===== src/Raft/Replicate/Matches.antt =====
-- What a leader learns from a success: what the follower has only grows.
use raft_kvs.Base.{
  ℕ, zero, suc, pos, ℤ, ◌+ℤ◌, ◌≤ℤ◌, ◌==ℤ◌, ==ℤ_iff, ltb_ℤ, store, ◌≡◌, arith, true, false, some, ok,
  >>=-eq-ok, or_panic, get_elem?, length, get_elem?-set_self, List, ap, ◌∙◌,
}
use raft_kvs.Raft.Types.{Raft, AppendEntriesArgs, AppendEntriesReply, Gob, is_leader}
use raft_kvs.Raft.Log.{max}
use raft_kvs.Raft.Replicate.{on_append_reply, record_match, advance_from, advance_commit_index}

store-get :
    {A : Type 0} (xs : List A) (i : ℕ) (v : A) {ys : List A}
    → store xs i v ≡ ok ys
    → get_elem? ys i ≡ some v
store-get xs i v {ys} h = ground (arith, get_elem?-set_self xs i v)

max-le : (a b : ℤ) → (a ≤ℤ max a b) × (b ≤ℤ max a b)
unfolding max
max-le a b = ground arith

module _ {C : Type 0} where
  advance_from_keeps :
      (rf : Raft C) (k : ℕ) {rf' : Raft C}
      → advance_from rf k ≡ ok rf'
      → (rf'.match_index ≡ rf.match_index)
        × (rf'.next_index ≡ rf.next_index)
        × (rf.commit_index ≤ℤ rf'.commit_index)
  unfolding advance_from
  advance_from_keeps rf zero h = ground arith
  advance_from_keeps rf (suc n) {rf'} h = ground (arith, advance_from_keeps rf n {rf' = rf'})

  -- What the leader knows of a follower after a success: all that the request carried is there, and
  -- nothing that was there is forgotten; it goes on behind it.
  pub record Learned (server : ℕ) (args : AppendEntriesArgs C) (rf rf' : Raft C) : Type 0 where
    pub before : ℤ
    pub known : ℤ
    pub was : get_elem? rf.match_index server ≡ some before
    pub is : get_elem? rf'.match_index server ≡ some known
    pub next : get_elem? rf'.next_index server ≡ some (known +ℤ pos 1)
    pub kept : before ≤ℤ known
    pub carried : args.prev_log_index +ℤ pos (length args.entries) ≤ℤ known
    pub commit : rf.commit_index ≤ℤ rf'.commit_index

  record_match-Learned :
      (server : ℕ) (args : AppendEntriesArgs C) (rf : Raft C) {rf' : Raft C}
      → record_match server args rf ≡ ok rf'
      → Learned server args rf rf'
  unfolding record_match advance_commit_index
  record_match-Learned server args rf {rf'} h =
      let (old, a, h1) = >>=-eq-ok (or_panic (get_elem? rf.match_index server)) _ h in
      let m = max old (args.prev_log_index +ℤ pos (length args.entries)) in
      let (ms, b, h2) = >>=-eq-ok (store rf.match_index server m) _ h1 in
      let (ns, c, h3) = >>=-eq-ok (store rf.next_index server (m +ℤ pos 1)) _ h2 in
      let (same_match, same_next, grown) =
        advance_from_keeps (record rf { match_index = ms; next_index = ns }) (length rf.log) h3 in
      let (old_le, new_le) = max-le old (args.prev_log_index +ℤ pos (length args.entries)) in
      record {
        before = old;
        known = m;
        was = ground arith;
        is = ap (λ l. get_elem? l server) same_match ∙ store-get rf.match_index server m b;
        next =
            ap (λ l. get_elem? l server) same_next ∙ store-get rf.next_index server (m +ℤ pos 1) c;
        kept = old_le;
        carried = new_le;
        commit = grown;
      }

-- A leader that handles the success of a request of its own term, and does not panic, knows at
-- least that the follower has what the request carried, and at least what it knew before, however
-- late the reply comes; the next entry to send follows that, and the commit index does not fall.
pub on_append_reply-Learned :
    {C : Type 0} ⦃g : Gob C⦄ (server : ℕ) (args : AppendEntriesArgs C) (reply : AppendEntriesReply)
    (rf : Raft C) {rf' : Raft C}
    → is_leader rf.state ≡ true
    → args.term ≡ rf.current_term
    → reply.term ≤ℤ rf.current_term
    → reply.success ≡ true
    → on_append_reply server args reply rf ≡ ok rf'
    → Learned server args rf rf'
unfolding on_append_reply
on_append_reply-Learned server args reply rf leads same current success h =
    let own : (args.term ==ℤ rf.current_term) ≡ true = (==ℤ_iff args.term rf.current_term).1 same in
    let fresh : ltb_ℤ rf.current_term reply.term ≡ false = ground arith in
    record_match-Learned server args rf (rw (leads, own, fresh, success) at h)
