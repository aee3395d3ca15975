-- ===== src/Raft/History/Learns.antt =====
-- What a leader learns from a reply: which peers have an entry that it commits.
use raft_kvs.Base.{
  ℕ, ◌<◌, ℤ, pos, ◌+ℤ◌, ltb_ℤ, ◌==ℤ◌, ==ℤ_iff, ◌≡◌, refl, sym, ap, subst, ◌∙◌, ◌⊎◌, inl, inr, arith,
  true, ◌||◌, not, Bool-cases, length, set, get_elem?, or_panic, store, some, ok, >>=-eq-ok,
  if◌then◌else◌,
}
use raft_kvs.Raft.Types.{Raft, Gob, AppendEntriesArgs, AppendEntriesReply, is_leader}
use raft_kvs.Raft.Log.{max}
use raft_kvs.Raft.Election.{become_follower}
use raft_kvs.Raft.Replicate.{on_append_reply, record_match, retry}
use raft_kvs.Raft.Replicate.Commit.{Advanced, advance_commit_index-Advanced}
use raft_kvs.Raft.History.Unmoved.{IsUnmoved}
use raft_kvs.Raft.History.Rests.{IsUnmoved-refl, become_follower-IsUnmoved}

max-cases : (x y : ℤ) → (max x y ≡ x) ⊎ (max x y ≡ y)
unfolding max
max-cases x y = ground arith

module _ {C : Type 0} where
  retry-IsUnmoved :
      (server : ℕ) (reply : AppendEntriesReply) (rf : Raft C) {b : Raft C}
      → retry server reply rf ≡ ok b
      → IsUnmoved rf b
  unfolding retry
  retry-IsUnmoved server reply rf h = record {
    commit = ground arith;
    stood = ground arith;
    matches = ground arith;
  }

  -- What a leader makes of a success: it knows what the follower has, and commits.
  pub record IsMatched (server : ℕ) (args : AppendEntriesArgs C) (a b : Raft C) : Type 0 where
    pub before : ℤ
    pub known : ℤ
    pub was : get_elem? a.match_index server ≡ some before
    pub matches : b.match_index ≡ set a.match_index server known
    pub which : (known ≡ before) ⊎ (known ≡ args.prev_log_index +ℤ pos (length args.entries))
    pub middle : Raft C
    pub log : middle.log ≡ a.log
    pub state : middle.state ≡ a.state
    pub term : middle.current_term ≡ a.current_term
    pub commit : middle.commit_index ≡ a.commit_index
    pub me : middle.me ≡ a.me
    pub peers : middle.peers ≡ a.peers
    pub learned : middle.match_index ≡ set a.match_index server known
    pub advanced : Advanced middle (length a.log) b

  Advanced-keeps :
      (rf : Raft C) (k : ℕ) (b : Raft C) → Advanced rf k b → b.match_index ≡ rf.match_index
  Advanced-keeps rf k b (inl (same, _)) = ap (λ (x : Raft C). x.match_index) same
  Advanced-keeps rf k b (inr (n, made, _, _, _, _)) = ap (λ (x : Raft C). x.match_index) made

  record_match-IsMatched :
      (server : ℕ) (args : AppendEntriesArgs C) (rf : Raft C) {b : Raft C}
      → rf.me < rf.peers
      → record_match server args rf ≡ ok b
      → IsMatched server args rf b
  unfolding record_match
  record_match-IsMatched server args rf {b} inside h =
      let (old, was, h1) = >>=-eq-ok (or_panic (get_elem? rf.match_index server)) _ h in
      let m = max old (args.prev_log_index +ℤ pos (length args.entries)) in
      let (ms, put_m, h2) = >>=-eq-ok (store rf.match_index server m) _ h1 in
      let (ns, put_n, h3) = >>=-eq-ok (store rf.next_index server (m +ℤ pos 1)) _ h2 in
      let middle : Raft C = record rf { match_index = ms; next_index = ns } in
      let advanced = advance_commit_index-Advanced middle inside h3 in
      let learned : ms ≡ set rf.match_index server m = ground arith in
      record {
        before = old;
        known = m;
        was = ground arith;
        matches = Advanced-keeps middle (length rf.log) b advanced ∙ learned;
        which = max-cases old (args.prev_log_index +ℤ pos (length args.entries));
        middle = middle;
        log = refl;
        state = refl;
        term = refl;
        commit = refl;
        me = refl;
        peers = refl;
        learned = learned;
        advanced = advanced;
      }

module _ {C : Type 0} ⦃g : Gob C⦄ where
  pub on_append_reply_learns :
      (server : ℕ) (args : AppendEntriesArgs C) (reply : AppendEntriesReply) (rf : Raft C)
      {b : Raft C}
      → on_append_reply server args reply rf ≡ ok b
      → IsUnmoved rf b
        ⊎ ((is_leader rf.state ≡ true)
            × (args.term ≡ rf.current_term)
            × (reply.success ≡ true)
            × (rf.me < rf.peers → IsMatched server args rf b))
  unfolding on_append_reply retry
  on_append_reply_learns server args reply rf {b} h =
      elim (Bool-cases (not (is_leader rf.state) || not (args.term ==ℤ rf.current_term))) [
        | inl stale ↦
            let same : b ≡ rf = ground arith in
            inl (subst (IsUnmoved rf) (sym same) (IsUnmoved-refl rf))
        | inr current ↦
            let of_term : args.term ≡ rf.current_term =
              (==ℤ_iff args.term rf.current_term).0 (ground arith) in
            let leads : is_leader rf.state ≡ true = ground arith in
            elim (Bool-cases (ltb_ℤ rf.current_term reply.term)) [
              | inl newer ↦
                  let down : b ≡ become_follower reply.term rf = ground arith in
                  inl (subst (IsUnmoved rf) (sym down) (become_follower-IsUnmoved reply.term rf))
              | inr no_newer ↦
                  let h1 : (if reply.success
                        then record_match server args rf
                        else retry server reply rf)
                      ≡ ok b =
                    ground arith in
                  elim (Bool-cases reply.success) [
                    | inl success ↦ inr (
                      leads,
                      of_term,
                      success,
                      λ inside. record_match-IsMatched server args rf inside (rw success at h1),
                    )
                    | inr refused ↦ inl (retry-IsUnmoved server reply rf (rw refused at h1))
                  ]
            ]
      ]
