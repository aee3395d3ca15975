-- ===== src/Raft/Cluster/Makes.antt =====
-- The AppendEntries that a step makes: the leader builds each from its log.
use raft_kvs.Base.{
  false, ◌≢◌, true, ℕ, ℤ, pos, ◌+ℤ◌, ◌≡◌, refl, sym, ap, subst, ◌∙◌, inl, inr, arith, Bool,
  Bool-cases, List, [], ◌∷◌, ok, In, >>=-eq-ok,
}
use raft_kvs.Raft.Types.{
  LogEntry, is_candidate, Raft, Gob, send_entries, is_leader, AppendEntriesArgs, AppendEntriesReply,
}
use raft_kvs.Raft.Log.{last_log_index}
use raft_kvs.Raft.Persist.{persist, read_persist}
use raft_kvs.Raft.Broadcast.{broadcast}
use raft_kvs.Raft.Election.{become_follower}
use raft_kvs.Raft.Append.{
  LogCheck, too_short, conflict, matches, append_entries, accept_leader, apply_check, truncate,
  append, follow_commit,
}
use raft_kvs.Raft.Append.Later.{append_entries-cases}
use raft_kvs.Raft.Node.{start, append_command, make}
use raft_kvs.Raft.Steps.{
  Step, votes, takes_entries, campaigns, reads_vote, reads_match, starts, beats, applies, dies,
  restarts,
}
use raft_kvs.Raft.Cluster.Effects.{
  request_vote-Effect, start_election-Effect, on_vote_reply-Effect, on_append_reply-Effect,
  heartbeat-Effect, apply_entry-Effect, kill-Effect,
}
use raft_kvs.Raft.Cluster.Sending.{IsCalm, Sends, Sends-none, broadcast-Sends}

module _ {C : Type 0} ⦃g : Gob C⦄ where
  accept_leader_calls :
      (now : ℕ) (args : AppendEntriesArgs C) (rf : Raft C)
      → (accept_leader now args rf).calls ≡ rf.calls
  unfolding accept_leader become_follower persist
  accept_leader_calls now args rf = ground arith

  append_calls : (es : List _) (rf : Raft C) → (append es rf).calls ≡ rf.calls
  unfolding append persist
  append_calls [] rf = refl
  append_calls (e ∷ es) rf = refl

  apply_check_calls :
      (args : AppendEntriesArgs C) (seen : ℤ) (c : LogCheck) (rf : Raft C) {b : Raft C}
      {reply : AppendEntriesReply}
      → apply_check args seen c rf ≡ ok (b, reply)
      → b.calls ≡ rf.calls
  unfolding apply_check truncate follow_commit
  apply_check_calls args seen (too_short i) rf h = ground arith
  apply_check_calls args seen (conflict t i) rf h = ground arith
  apply_check_calls args seen matches rf h =
      let (rf1, t, e) = >>=-eq-ok (truncate (args.prev_log_index +ℤ pos 1) rf) _ h in
      let kept = append_calls args.entries rf1 in ground arith

  append_entries_calls :
      (now : ℕ) (args : AppendEntriesArgs C) (rf : Raft C) {b : Raft C} {reply : AppendEntriesReply}
      → append_entries now args rf ≡ ok (b, reply)
      → b.calls ≡ rf.calls
  append_entries_calls now args rf h = elim (append_entries-cases now args rf h) [
    | inl (old, e, _) ↦ ground arith
    | inr (current, (c, _, e)) ↦
        apply_check_calls args rf.current_term c (accept_leader now args rf) e
        ∙ accept_leader_calls now args rf
  ]

  start-Sends :
      (command : C) (rf : Raft C) {b : Raft C} {r : ℤ × ℤ × Bool}
      → start command rf ≡ ok (b, r)
      → Sends (λ s. s ≢ b.me) rf b
  unfolding start append_command persist
  start-Sends command rf {b} h server args i = elim (Bool-cases (is_leader rf.state)) [
    | inl leads ↦
        let index = last_log_index rf.log +ℤ pos 1 in
        let (rf1, added, h1) = >>=-eq-ok (append_command command index rf) _ (rw leads at h) in
        let (rf2, sent, h2) = >>=-eq-ok (broadcast rf1) _ h1 in
        let same : rf2 ≡ b = ground arith in
        let kept : rf1.calls ≡ rf.calls = ground arith in
        elim (broadcast-Sends rf1 (sent ∙ ap ok same) server args i) [
          | inl old ↦ inl (subst (In (send_entries server args)) kept old)
          | inr new ↦ inr new
        ]
    | inr idle ↦
        let same : b ≡ rf = ground arith in
        inl (subst (λ (x : Raft C). In (send_entries server args) x.calls) same i)
  ]

  make_calls :
      (peers me now : ℕ) (rf : Raft C) {b : Raft C}
      → make peers me rf.persister now ≡ ok b
      → b.calls ≡ []
  unfolding make read_persist
  make_calls peers me now rf h = ground arith

  -- The peers that a step may send AppendEntries to.
  abbrev pub Goes : {a b : Raft C} → Step a b → ℕ → Type 0
  Goes (reads_match server args reply h) to = to ≡ server
  Goes {b = b} _ to = to ≢ b.me

  pub Step-Sends : {a b : Raft C} (st : Step a b) → Sends (Goes st) a b
  Step-Sends {a} {b} (votes now args e) =
      subst (Sends (λ s. s ≢ b.me) a) (sym e) (request_vote-Effect (λ s. s ≢ b.me) now args a).sends
  Step-Sends {a} {b} (takes_entries now args reply h) =
      Sends-none (λ s. s ≢ b.me) a b (append_entries_calls now args a h)
  Step-Sends {a} {b} (campaigns now n term fits e) =
      subst (Sends (λ s. s ≢ b.me) a) (sym e)
        (start_election-Effect (λ s. s ≢ b.me) now n a term fits).sends
  Step-Sends {a} {b} (reads_vote e e' reply h) = (on_vote_reply-Effect e reply a h).sends
  Step-Sends {a} {b} (reads_match server args reply h) =
      (on_append_reply-Effect server args reply a h).sends
  Step-Sends {a} {b} (starts command r h) = start-Sends command a h
  Step-Sends {a} {b} (beats now h) = (heartbeat-Effect now a h).sends
  Step-Sends {a} {b} (applies index e h) =
      subst (Sends (λ s. s ≢ b.me) a) (sym h) (apply_entry-Effect (λ s. s ≢ b.me) index e a).sends
  Step-Sends {a} {b} (dies h) = (kill-Effect (λ s. s ≢ b.me) a h).sends
  Step-Sends {a} {b} (restarts now h) = λ server args i.
      absurd (subst (In (send_entries server args)) (make_calls a.peers a.me now a h) i)

  -- A candidate that was none before has a new term.
  accept_leader_state :
      (now : ℕ) (args : AppendEntriesArgs C) (rf : Raft C)
      → is_candidate (accept_leader now args rf).state ≡ false
  unfolding accept_leader become_follower persist
  accept_leader_state now args rf = ground arith

  append_state : (es : List (LogEntry C)) (rf : Raft C) → (append es rf).state ≡ rf.state
  unfolding append persist
  append_state [] rf = refl
  append_state (e ∷ es) rf = refl

  apply_check_state :
      (args : AppendEntriesArgs C) (seen : ℤ) (c : LogCheck) (rf : Raft C) {b : Raft C}
      {reply : AppendEntriesReply}
      → apply_check args seen c rf ≡ ok (b, reply)
      → b.state ≡ rf.state
  unfolding apply_check truncate follow_commit
  apply_check_state args seen (too_short i) rf h = ground arith
  apply_check_state args seen (conflict t i) rf h = ground arith
  apply_check_state args seen matches rf h =
      let (rf1, t, e) = >>=-eq-ok (truncate (args.prev_log_index +ℤ pos 1) rf) _ h in
      let kept = append_state args.entries rf1 in ground arith

  append_entries-IsCalm :
      (now : ℕ) (args : AppendEntriesArgs C) (rf : Raft C) {b : Raft C} {reply : AppendEntriesReply}
      → append_entries now args rf ≡ ok (b, reply)
      → IsCalm rf b
  append_entries-IsCalm now args rf h runs same = elim (append_entries-cases now args rf h) [
    | inl (_, e, _) ↦ subst (λ (x : Raft C). is_candidate x.state ≡ true) e runs
    | inr (_, (c, _, e)) ↦
        let kept = apply_check_state args rf.current_term c (accept_leader now args rf) e in
        let idle = accept_leader_state now args rf in absurd (ground arith)
  ]

  start-IsCalm :
      (command : C) (rf : Raft C) {b : Raft C} {r : ℤ × ℤ × Bool}
      → start command rf ≡ ok (b, r)
      → IsCalm rf b
  unfolding start append_command broadcast persist
  start-IsCalm command rf h runs same = ground arith

  make-IsCalm :
      (peers me now : ℕ) (rf : Raft C) {b : Raft C}
      → make peers me rf.persister now ≡ ok b
      → IsCalm rf b
  unfolding make read_persist
  make-IsCalm peers me now rf h runs same = ground arith

  pub Step-IsCalm : {a b : Raft C} → Step a b → IsCalm a b
  Step-IsCalm {a} {b} (votes now args e) =
      subst (IsCalm a) (sym e) (request_vote-Effect (λ s. Unit) now args a).calm
  Step-IsCalm {a} {b} (takes_entries now args reply h) = append_entries-IsCalm now args a h
  Step-IsCalm {a} {b} (campaigns now n term fits e) =
      subst (IsCalm a) (sym e) (start_election-Effect (λ s. Unit) now n a term fits).calm
  Step-IsCalm {a} {b} (reads_vote e e' reply h) = (on_vote_reply-Effect e reply a h).calm
  Step-IsCalm {a} {b} (reads_match server args reply h) =
      (on_append_reply-Effect server args reply a h).calm
  Step-IsCalm {a} {b} (starts command r h) = start-IsCalm command a h
  Step-IsCalm {a} {b} (beats now h) = (heartbeat-Effect now a h).calm
  Step-IsCalm {a} {b} (applies index e h) =
      subst (IsCalm a) (sym h) (apply_entry-Effect (λ s. Unit) index e a).calm
  Step-IsCalm {a} {b} (dies h) = (kill-Effect (λ s. Unit) a h).calm
  Step-IsCalm {a} {b} (restarts now h) = make-IsCalm a.peers a.me now a h
