-- ===== src/Raft/Steps/Roles.antt =====
-- Who a peer is, and that no operation but the count of a vote makes a leader.
use raft_kvs.Base.{
  ℕ, ℤ, pos, ◌+ℤ◌, ◌≡◌, refl, ◌∙◌, ◌⊎◌, inl, inr, arith, Bool, true, false, ok, >>=-eq-ok, or_panic,
  get_elem?, store, length, List, [], ◌∷◌, subst, sym,
}
use raft_kvs.Raft.Types.{
  Raft, Gob, is_leader, RequestVoteArgs, RequestVoteReply, AppendEntriesArgs, AppendEntriesReply,
  LogEntry,
}
use raft_kvs.Raft.Persist.{persist, read_persist}
use raft_kvs.Raft.Broadcast.{broadcast}
use raft_kvs.Raft.Election.{
  Election, request_vote, start_election, on_vote_reply, become_follower, become_leader, can_vote,
  count_vote,
}
use raft_kvs.Raft.Append.{
  LogCheck, too_short, conflict, matches, append_entries, accept_leader, apply_check, truncate,
  append, follow_commit,
}
use raft_kvs.Raft.Append.Later.{append_entries-cases}
use raft_kvs.Raft.Log.{max}
use raft_kvs.Raft.Replicate.{
  on_append_reply, record_match, retry, advance_from, advance_commit_index,
}
use raft_kvs.Raft.Node.{start, heartbeat, make, kill, abort_pending_commands, apply_entry, fresh}
use raft_kvs.Raft.Steps.{
  Step, votes, takes_entries, campaigns, reads_vote, reads_match, starts, beats, applies, dies,
  restarts,
}

-- The peer is the same one, and a leader only if it was, in the same term.
pub record Stays {C : Type 0} (a b : Raft C) : Type 0 where
  pub me : b.me ≡ a.me
  pub peers : b.peers ≡ a.peers
  pub led : is_leader b.state ≡ true → is_leader a.state ≡ true
  pub term : is_leader b.state ≡ true → b.current_term ≡ a.current_term

module _ {C : Type 0} where
  Stays-trans : (a b c : Raft C) → Stays a b → Stays b c → Stays a c
  Stays-trans a b c p q = record {
    me = q.me ∙ p.me;
    peers = q.peers ∙ p.peers;
    led = λ h. p.led (q.led h);
    term = λ h. q.term h ∙ p.term (q.led h);
  }

  advance_from-Stays :
      (rf : Raft C) (k : ℕ) {rf' : Raft C} → advance_from rf k ≡ ok rf' → Stays rf rf'
  unfolding advance_from
  advance_from-Stays rf ℕ.zero h = ground arith
  advance_from-Stays rf (ℕ.suc n) {rf'} h = ground (arith, advance_from-Stays rf n {rf' = rf'})

  record_match-Stays :
      (server : ℕ) (args : AppendEntriesArgs C) (rf : Raft C) {rf' : Raft C}
      → record_match server args rf ≡ ok rf'
      → Stays rf rf'
  unfolding record_match advance_commit_index
  record_match-Stays server args rf h =
      let (old, a, h1) = >>=-eq-ok (or_panic (get_elem? rf.match_index server)) _ h in
      let m = max old (args.prev_log_index +ℤ pos (length args.entries)) in
      let (ms, b, h2) = >>=-eq-ok (store rf.match_index server m) _ h1 in
      let (ns, c, h3) = >>=-eq-ok (store rf.next_index server (m +ℤ pos 1)) _ h2 in
      let stays =
        advance_from-Stays (record rf { match_index = ms; next_index = ns }) (length rf.log) h3 in
      record { me = stays.me; peers = stays.peers; led = stays.led; term = stays.term }

  retry-Stays :
      (server : ℕ) (reply : AppendEntriesReply) (rf : Raft C) {rf' : Raft C}
      → retry server reply rf ≡ ok rf'
      → Stays rf rf'
  unfolding retry
  retry-Stays server reply rf h = ground arith

module _ {C : Type 0} ⦃g : Gob C⦄ where
  request_vote-Stays :
      (now : ℕ) (args : RequestVoteArgs) (rf : Raft C) → Stays rf (request_vote now args rf).0
  unfolding request_vote become_follower persist can_vote
  request_vote-Stays now args rf = ground arith

  accept_leader-Stays :
      (now : ℕ) (args : AppendEntriesArgs C) (rf : Raft C) → Stays rf (accept_leader now args rf)
  unfolding accept_leader become_follower persist
  accept_leader-Stays now args rf = ground arith

  append-Stays : (es : List (LogEntry C)) (rf : Raft C) → Stays rf (append es rf)
  unfolding append persist
  append-Stays [] rf = ground arith
  append-Stays (e ∷ es) rf = ground arith

  apply_check-Stays :
      (args : AppendEntriesArgs C) (seen : ℤ) (c : LogCheck) (rf : Raft C) {rf' : Raft C}
      {reply : AppendEntriesReply}
      → apply_check args seen c rf ≡ ok (rf', reply)
      → Stays rf rf'
  unfolding apply_check truncate follow_commit
  apply_check-Stays args seen (too_short i) rf h = ground arith
  apply_check-Stays args seen (conflict t i) rf h = ground arith
  apply_check-Stays args seen matches rf h =
      let (rf1, t, e) = >>=-eq-ok (truncate (args.prev_log_index +ℤ pos 1) rf) _ h in
      let stays = append-Stays args.entries rf1 in ground arith

  append_entries-Stays :
      (now : ℕ) (args : AppendEntriesArgs C) (rf : Raft C) {rf' : Raft C}
      {reply : AppendEntriesReply}
      → append_entries now args rf ≡ ok (rf', reply)
      → Stays rf rf'
  append_entries-Stays now args rf {rf'} h = elim (append_entries-cases now args rf h) [
    | inl (old, e, _) ↦ ground arith
    | inr (current, (c, _, e)) ↦
        Stays-trans rf (accept_leader now args rf) rf' (accept_leader-Stays now args rf)
          (apply_check-Stays args rf.current_term c (accept_leader now args rf) e)
  ]

  start_election-Stays : (now : ℕ) (rf : Raft C) → Stays rf (start_election now rf).0
  unfolding start_election persist
  start_election-Stays now rf = ground arith

  on_append_reply-Stays :
      (server : ℕ) (args : AppendEntriesArgs C) (reply : AppendEntriesReply) (rf : Raft C)
      {rf' : Raft C}
      → on_append_reply server args reply rf ≡ ok rf'
      → Stays rf rf'
  unfolding on_append_reply become_follower persist
  on_append_reply-Stays server args reply rf {rf'} h = ground (
    arith,
    record_match-Stays server args rf {rf' = rf'},
    retry-Stays server reply rf {rf' = rf'},
  )

  start-Stays :
      (command : C) (rf : Raft C) {rf' : Raft C} {r : ℤ × ℤ × Bool}
      → start command rf ≡ ok (rf', r)
      → Stays rf rf'
  unfolding start broadcast persist
  start-Stays command rf h = ground arith

  heartbeat-Stays :
      (now : ℕ) (rf : Raft C) {rf' : Raft C} → heartbeat now rf ≡ ok rf' → Stays rf rf'
  unfolding heartbeat broadcast
  heartbeat-Stays now rf h = ground arith

  kill-Stays : (rf : Raft C) {rf' : Raft C} → kill rf ≡ ok rf' → Stays rf rf'
  unfolding kill abort_pending_commands
  kill-Stays rf h = ground arith

  read_persist-Stays :
      (bytes : List ℕ) (rf a : Raft C) {rf' : Raft C}
      → is_leader rf.state ≡ false
      → rf.me ≡ a.me
      → rf.peers ≡ a.peers
      → read_persist bytes rf ≡ ok rf'
      → Stays a rf'
  unfolding read_persist
  read_persist-Stays [] rf a idle me peers h = ground arith
  read_persist-Stays (b ∷ rest) rf a idle me peers h = ground arith

  make-Stays :
      (now : ℕ) (rf : Raft C) {rf' : Raft C}
      → make rf.peers rf.me rf.persister now ≡ ok rf'
      → Stays rf rf'
  unfolding make
  make-Stays now rf h =
      read_persist-Stays rf.persister.raftstate (fresh rf.peers rf.me rf.persister now) rf refl refl
        refl h

  -- The count of a vote leaves the peer the same one too.
  pub on_vote_reply-same :
      (e : Election) (reply : RequestVoteReply) (rf : Raft C) {rf' : Raft C} {e' : Election}
      → on_vote_reply e reply rf ≡ ok (rf', e')
      → (rf'.me ≡ rf.me)
        × (rf'.peers ≡ rf.peers)
        × (is_leader rf.state ≡ true
            → is_leader rf'.state ≡ true
            → rf'.current_term ≡ rf.current_term)
        × (e'.term ≡ e.term)
        × ((e'.votes ≡ e.votes) ⊎ ((e'.votes ≡ ℕ.suc e.votes) × (reply.vote_granted ≡ true)))
  unfolding on_vote_reply count_vote become_follower persist become_leader broadcast
  on_vote_reply-same e reply rf h = ground arith

  -- A step that is no count of a vote.
  abbrev pub IsNoCount : {a b : Raft C} → Step a b → Type 0
  IsNoCount (reads_vote e e' reply h) = ⊥
  IsNoCount _ = Unit

  pub Step-Stays : {a b : Raft C} (st : Step a b) → IsNoCount st → Stays a b
  unfolding apply_entry
  Step-Stays {a} {b} (votes now args e) q = subst (Stays a) (sym e) (request_vote-Stays now args a)
  Step-Stays {a} {b} (takes_entries now args reply h) q = append_entries-Stays now args a h
  Step-Stays {a} {b} (campaigns now n e l h) q =
      subst (Stays a) (sym h) (start_election-Stays now a)
  Step-Stays {a} {b} (reads_vote e e' reply h) q = absurd q
  Step-Stays {a} {b} (reads_match server args reply h) q =
      on_append_reply-Stays server args reply a h
  Step-Stays {a} {b} (starts command r h) q = start-Stays command a h
  Step-Stays {a} {b} (beats now h) q = heartbeat-Stays now a h
  Step-Stays {a} {b} (applies index e h) q = ground arith
  Step-Stays {a} {b} (dies h) q = kill-Stays a h
  Step-Stays {a} {b} (restarts now h) q = make-Stays now a h
