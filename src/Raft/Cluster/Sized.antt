-- ===== src/Raft/Cluster/Sized.antt =====
-- A leader has a next index and a match index for every peer.
use raft_kvs.Base.{
  ℕ, zero, suc, ℤ, pos, ◌+ℤ◌, ◌≡◌, refl, sym, subst, ◌∙◌, inl, inr, arith, Bool, true, false, List,
  [], ◌∷◌, length, length-set, get_elem?, store, ok, or_panic, >>=-eq-ok,
}
use raft_kvs.Raft.Types.{
  Raft, Gob, LogEntry, is_leader, RequestVoteArgs, RequestVoteReply, AppendEntriesArgs,
  AppendEntriesReply,
}
use raft_kvs.Raft.Log.{last_log_index, max}
use raft_kvs.Raft.Persist.{persist, read_persist}
use raft_kvs.Raft.Broadcast.{broadcast}
use raft_kvs.Raft.Election.{
  Election, request_vote, start_election, on_vote_reply, become_follower, can_vote,
}
use raft_kvs.Raft.Append.{
  LogCheck, too_short, conflict, matches, append_entries, accept_leader, apply_check, truncate,
  append, follow_commit,
}
use raft_kvs.Raft.Append.Later.{append_entries-cases}
use raft_kvs.Raft.Replicate.{
  on_append_reply, record_match, retry, advance_from, advance_commit_index,
}
use raft_kvs.Raft.Node.{
  start, append_command, heartbeat, make, kill, abort_pending_commands, apply_entry,
}
use raft_kvs.Raft.Steps.{
  Step, votes, takes_entries, campaigns, reads_vote, reads_match, starts, beats, applies, dies,
  restarts,
}
use raft_kvs.Raft.Election.Majority.{become_leader_lem}
use raft_kvs.Raft.Steps.Roles.{on_vote_reply-same}
use raft_kvs.Raft.Cluster.Effects.{on_vote_reply-cases}
use raft_kvs.Raft.Cluster.Senders.{Acts-each, Move-Acts}
use raft_kvs.Raft.Cluster.World.{World, start_world, Tick, moves, sends, Ticks, still, and_then}

-- One index for each peer, if the peer leads.
abbrev pub IsSized : {C : Type 0} → Raft C → Type 0
IsSized rf =
    is_leader rf.state ≡ true
    → (length rf.next_index ≡ rf.peers) × (length rf.match_index ≡ rf.peers)

length-store :
    (xs : List ℤ) (i : ℕ) (v : ℤ) {ys : List ℤ} → store xs i v ≡ ok ys → length ys ≡ length xs
length-store xs i v h = ground (arith, length-set xs i v)

module _ {C : Type 0} where
  -- The indices of every peer stay, and a leader led before.
  record Same (a b : Raft C) : Type 0 where
    next : length b.next_index ≡ length a.next_index
    matching : length b.match_index ≡ length a.match_index
    peers : b.peers ≡ a.peers
    led : is_leader b.state ≡ true → is_leader a.state ≡ true

  Same-IsSized : (a b : Raft C) → Same a b → IsSized a → IsSized b
  Same-IsSized a b s h leads =
      let (n, m) = h (s.led leads) in (s.next ∙ n ∙ sym s.peers, s.matching ∙ m ∙ sym s.peers)

  advance_from-Same : (rf : Raft C) (k : ℕ) {b : Raft C} → advance_from rf k ≡ ok b → Same rf b
  unfolding advance_from
  advance_from-Same rf zero h = ground arith
  advance_from-Same rf (suc n) {b} h = ground (arith, advance_from-Same rf n {b = b})

  record_match-Same :
      (server : ℕ) (args : AppendEntriesArgs C) (rf : Raft C) {b : Raft C}
      → record_match server args rf ≡ ok b
      → Same rf b
  unfolding record_match advance_commit_index
  record_match-Same server args rf {b} h =
      let (old, _, h1) = >>=-eq-ok (or_panic (get_elem? rf.match_index server)) _ h in
      let m = max old (args.prev_log_index +ℤ pos (length args.entries)) in
      let (ms, made, h2) = >>=-eq-ok (store rf.match_index server m) _ h1 in
      let (ns, made', h3) = >>=-eq-ok (store rf.next_index server (m +ℤ pos 1)) _ h2 in
      let s =
        advance_from-Same (record rf { match_index = ms; next_index = ns }) (length rf.log) h3 in
      record {
        next = s.next ∙ length-store rf.next_index server (m +ℤ pos 1) made';
        matching = s.matching ∙ length-store rf.match_index server m made;
        peers = s.peers;
        led = s.led;
      }

  retry-Same :
      (server : ℕ) (reply : AppendEntriesReply) (rf : Raft C) {b : Raft C}
      → retry server reply rf ≡ ok b
      → Same rf b
  unfolding retry
  retry-Same server reply rf {b} h =
      let (ns, made, h1) = >>=-eq-ok (store rf.next_index server _) _ h in
      let kept = length-store rf.next_index server _ made in ground arith

module _ {C : Type 0} ⦃g : Gob C⦄ where
  request_vote-Same :
      (now : ℕ) (args : RequestVoteArgs) (rf : Raft C) → Same rf (request_vote now args rf).0
  unfolding request_vote become_follower persist can_vote
  request_vote-Same now args rf = ground arith

  append-Same : (es : List (LogEntry C)) (rf : Raft C) → Same rf (append es rf)
  unfolding append persist
  append-Same [] rf = ground arith
  append-Same (e ∷ es) rf = ground arith

  apply_check-Same :
      (args : AppendEntriesArgs C) (seen : ℤ) (c : LogCheck) (rf : Raft C) {b : Raft C}
      {reply : AppendEntriesReply}
      → apply_check args seen c rf ≡ ok (b, reply)
      → Same rf b
  unfolding apply_check truncate follow_commit
  apply_check-Same args seen (too_short i) rf h = ground arith
  apply_check-Same args seen (conflict t i) rf h = ground arith
  apply_check-Same args seen matches rf h =
      let (rf1, t, e) = >>=-eq-ok (truncate (args.prev_log_index +ℤ pos 1) rf) _ h in
      let s = append-Same args.entries rf1 in ground arith

  accept_leader-Same :
      (now : ℕ) (args : AppendEntriesArgs C) (rf : Raft C) → Same rf (accept_leader now args rf)
  unfolding accept_leader become_follower persist
  accept_leader-Same now args rf = ground arith

  on_append_reply-Same :
      (server : ℕ) (args : AppendEntriesArgs C) (reply : AppendEntriesReply) (rf : Raft C)
      {b : Raft C}
      → on_append_reply server args reply rf ≡ ok b
      → Same rf b
  unfolding on_append_reply become_follower persist
  on_append_reply-Same server args reply rf {b} h =
      ground (arith, record_match-Same server args rf {b = b}, retry-Same server reply rf {b = b})

  append_entries-Same :
      (now : ℕ) (args : AppendEntriesArgs C) (rf : Raft C) {b : Raft C} {reply : AppendEntriesReply}
      → append_entries now args rf ≡ ok (b, reply)
      → Same rf b
  append_entries-Same now args rf {b} h = elim (append_entries-cases now args rf h) [
    | inl (_, e, _) ↦ ground arith
    | inr (_, (c, _, e)) ↦
        let s = accept_leader-Same now args rf in
        let t = apply_check-Same args rf.current_term c (accept_leader now args rf) e in
        record {
          next = t.next ∙ s.next;
          matching = t.matching ∙ s.matching;
          peers = t.peers ∙ s.peers;
          led = λ l. s.led (t.led l);
        }
  ]

  start-Same :
      (command : C) (rf : Raft C) {b : Raft C} {r : ℤ × ℤ × Bool}
      → start command rf ≡ ok (b, r)
      → Same rf b
  unfolding start append_command broadcast persist
  start-Same command rf {b} h =
      let index = last_log_index rf.log +ℤ pos 1 in
      let n = length-set rf.next_index rf.me (index +ℤ pos 1) in
      let m = length-set rf.match_index rf.me index in ground arith

  heartbeat-Same : (now : ℕ) (rf : Raft C) {b : Raft C} → heartbeat now rf ≡ ok b → Same rf b
  unfolding heartbeat broadcast
  heartbeat-Same now rf h = ground arith

  kill-Same : (rf : Raft C) {b : Raft C} → kill rf ≡ ok b → Same rf b
  unfolding kill abort_pending_commands
  kill-Same rf h = ground arith

  make_follows :
      (now : ℕ) (rf : Raft C) {b : Raft C}
      → make rf.peers rf.me rf.persister now ≡ ok b
      → is_leader b.state ≡ false
  unfolding make read_persist
  make_follows now rf h = ground arith

  start_election_follows :
      (now : ℕ) (rf : Raft C) → is_leader (start_election now rf).0.state ≡ false
  unfolding start_election persist
  start_election_follows now rf = refl

  become_follower_follows : (t : ℤ) (rf : Raft C) → is_leader (become_follower t rf).state ≡ false
  unfolding become_follower persist
  become_follower_follows t rf = refl

  on_vote_reply-IsSized :
      (e : Election) (reply : RequestVoteReply) (rf : Raft C) {b : Raft C} {e' : Election}
      → on_vote_reply e reply rf ≡ ok (b, e')
      → IsSized rf
      → IsSized b
  on_vote_reply-IsSized e reply rf {b} h sized = elim (on_vote_reply-cases e reply rf h) [
    | inl same ↦ subst IsSized (sym same) sized
    | inr (inl down) ↦
        λ leads. let idle = become_follower_follows reply.term rf in absurd (ground arith)
    | inr (inr up) ↦ λ leads.
        let (_, _, next, matching, _, _) = become_leader_lem rf up in
        let same = (on_vote_reply-same e reply rf h).1 in (next ∙ sym same, matching ∙ sym same)
  ]

  Step-IsSized : {a b : Raft C} → Step a b → IsSized a → IsSized b
  unfolding apply_entry
  Step-IsSized {a} {b} (votes now args e) =
      subst (λ x. IsSized a → IsSized x) (sym e) (Same-IsSized a _ (request_vote-Same now args a))
  Step-IsSized {a} {b} (takes_entries now args reply h) =
      Same-IsSized a b (append_entries-Same now args a h)
  Step-IsSized {a} {b} (campaigns now n t l e) =
      λ s leads. let idle = start_election_follows now a in absurd (ground arith)
  Step-IsSized {a} {b} (reads_vote e e' reply h) = on_vote_reply-IsSized e reply a h
  Step-IsSized {a} {b} (reads_match server args reply h) =
      Same-IsSized a b (on_append_reply-Same server args reply a h)
  Step-IsSized {a} {b} (starts command r h) = Same-IsSized a b (start-Same command a h)
  Step-IsSized {a} {b} (beats now h) = Same-IsSized a b (heartbeat-Same now a h)
  Step-IsSized {a} {b} (applies index e h) = λ s leads. ground arith
  Step-IsSized {a} {b} (dies h) = Same-IsSized a b (kill-Same a h)
  Step-IsSized {a} {b} (restarts now h) =
      λ s leads. let idle = make_follows now a h in absurd (ground arith)

  Tick-IsSized :
      {a b : World C}
      → Tick a b
      → ((i : ℕ) → IsSized (a.cluster.nodes i))
      → (i : ℕ) → IsSized (b.cluster.nodes i)
  Tick-IsSized {a} {b} (moves m d s e) sized =
      let t = Move-Acts m in
      Acts-each a.cluster b.cluster t (λ j x. IsSized x) (Step-IsSized t.taken (sized t.actor))
        sized
  Tick-IsSized {a} {b} (sends i to args h e) sized =
      λ j. subst (λ (w : World C). IsSized (w.cluster.nodes j)) (sym e) (sized j)

  pub Ticks-IsSized :
      (n : ℕ) {b : World C} → Ticks (start_world n) b → (i : ℕ) → IsSized (b.cluster.nodes i)
  Ticks-IsSized n still i = λ leads. cc
  Ticks-IsSized n (and_then r t) i = Tick-IsSized t (Ticks-IsSized n r) i
