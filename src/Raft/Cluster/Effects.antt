-- ===== src/Raft/Cluster/Effects.antt =====
-- What the operations of a peer do to its log and disk, and what they send.
use raft_kvs.Base.{
  ℕ, suc, ◌<◌, ◌^◌, wrap, wrap-incr, ℤ, pos, ◌+ℤ◌, ◌==◌, ◌≡◌, ◌≢◌, refl, sym, ap, subst, ◌∙◌, ◌⊎◌,
  inl, inr, arith, true, Bool-cases, List, [], ◌∷◌, range, store, ok, >>=-eq-ok, In, In-append,
  replicate, minus_one,
}
use raft_kvs.Raft.Types.{
  Raft, Gob, LogEntry, ask_vote, send_entries, is_leader, RequestVoteArgs, RequestVoteReply,
  AppendEntriesArgs, AppendEntriesReply,
}
use raft_kvs.Raft.Log.{last_log_index}
use raft_kvs.Raft.Order.{WritesAll}
use raft_kvs.Raft.Persist.{persist}
use raft_kvs.Raft.Broadcast.{append_args, broadcast}
use raft_kvs.Raft.Election.Votes.{request_vote-WritesAll}
use raft_kvs.Raft.Election.Candidacy.{broadcast-eq}
use raft_kvs.Raft.Replicate.Later.{on_append_reply-WritesAll}
use raft_kvs.Raft.Node.Later.{kill-same}
use raft_kvs.Raft.Election.{
  Election, request_vote, start_election, on_vote_reply, become_follower, become_leader, can_vote,
  count_vote, ask_all,
}
use raft_kvs.Raft.Replicate.{on_append_reply, record_match, retry}
use raft_kvs.Raft.Node.{heartbeat, kill, abort_pending_commands, apply_entry}
use raft_kvs.Raft.Cluster.Sending.{
  Sends, IsCalm, Sends-none, broadcast-Sends, record_match_sends, retry-Sends, retry_log,
  retry_calm,
}

module _ {C : Type 0} ⦃g : Gob C⦄ where
  ask_all-sent :
      (me : ℕ) (v : RequestVoteArgs) (is : List ℕ) (server : ℕ) (args : AppendEntriesArgs C)
      → In (send_entries server args) (ask_all me v is)
      → ⊥
  unfolding ask_all
  ask_all-sent me v [] server args h = h
  ask_all-sent me v (i ∷ is) server args h = elim (Bool-cases (i == me)) [
    | inl self ↦ ask_all-sent me v is server args (rw self at h)
    | inr other ↦
        let h' : In (send_entries server args) (ask_vote i v ∷ ask_all me v is) = rw other at h in
        elim h' [ inl e ↦ cc | inr rest ↦ ask_all-sent me v is server args rest ]
  ]

  -- What a step does that leaves the log alone.
  pub record Effect (Dest : ℕ → Type 0) (a b : Raft C) : Type 0 where
    pub log : b.log ≡ a.log
    pub disk : WritesAll a b
    pub calm : IsCalm a b
    pub sends : Sends Dest a b

  pub become_follower-Effect :
      (Dest : ℕ → Type 0) (t : ℤ) (rf : Raft C) → Effect Dest rf (become_follower t rf)
  unfolding become_follower persist
  become_follower-Effect Dest t rf = record {
    log = refl;
    disk = inr refl;
    calm = λ h e. cc;
    sends = λ server args h. inl h;
  }

  pub request_vote-Effect :
      (Dest : ℕ → Type 0) (now : ℕ) (args : RequestVoteArgs) (rf : Raft C)
      → Effect Dest rf (request_vote now args rf).0
  unfolding request_vote become_follower persist can_vote
  request_vote-Effect Dest now args rf = record {
    log = ground arith;
    disk = request_vote-WritesAll now args rf;
    calm = ground arith;
    sends = Sends-none Dest rf (request_vote now args rf).0 (ground arith);
  }

  pub start_election-Effect :
      (Dest : ℕ → Type 0) (now n : ℕ) (rf : Raft C)
      → rf.current_term ≡ pos n
      → suc n < 2 ^ 63
      → Effect Dest rf (start_election now rf).0
  unfolding start_election persist
  start_election-Effect Dest now n rf term fits =
      let up : wrap 63 (rf.current_term +ℤ pos 1) ≡ pos (suc n) =
        ap (λ t. wrap 63 (t +ℤ pos 1)) term ∙ wrap-incr n fits in
      record {
        log = refl;
        disk = inr refl;
        calm = λ h e. ground arith;
        sends = λ server args h. elim (In-append (send_entries server args) rf.calls _ h) [
          | inl old ↦ inl old
          | inr new ↦ absurd (ask_all-sent _ _ (range rf.peers) server args new)
        ];
      }

  become_leader-Effect :
      (rf : Raft C) {b : Raft C} → become_leader rf ≡ ok b → Effect (λ s. s ≢ b.me) rf b
  unfolding become_leader
  become_leader-Effect rf {b} h =
      let next = last_log_index rf.log +ℤ pos 1 in
      let last = last_log_index rf.log in
      let (ms, _, h1) = >>=-eq-ok (store (replicate rf.peers minus_one) rf.me last) _ h in
      let (ns, _, h2) = >>=-eq-ok (store (replicate rf.peers next) rf.me next) _ h1 in
      let (t, v, l, p, st, _) = broadcast-eq _ h2 in
      record {
        log = l;
        disk = inl (p, ground arith);
        calm = λ c e. ground arith;
        sends = broadcast-Sends _ h2;
      }

  pub on_vote_reply-cases :
      (e : Election) (reply : RequestVoteReply) (rf : Raft C) {b : Raft C} {e' : Election}
      → on_vote_reply e reply rf ≡ ok (b, e')
      → (b ≡ rf) ⊎ (b ≡ become_follower reply.term rf) ⊎ (become_leader rf ≡ ok b)
  unfolding on_vote_reply count_vote
  on_vote_reply-cases e reply rf h = ground arith

  pub Effect-refl : (Dest : ℕ → Type 0) (rf : Raft C) → Effect Dest rf rf
  Effect-refl Dest rf = record {
    log = refl;
    disk = inl (refl, refl);
    calm = λ c e. c;
    sends = λ server args h. inl h;
  }

  pub on_vote_reply-Effect :
      (e : Election) (reply : RequestVoteReply) (rf : Raft C) {b : Raft C} {e' : Election}
      → on_vote_reply e reply rf ≡ ok (b, e')
      → Effect (λ s. s ≢ b.me) rf b
  on_vote_reply-Effect e reply rf {b} h = elim (on_vote_reply-cases e reply rf h) [
    | inl same ↦ subst (λ x. Effect (λ s. s ≢ b.me) rf x) (sym same) (Effect-refl _ rf)
    | inr (inl down) ↦
        subst (λ x. Effect (λ s. s ≢ b.me) rf x) (sym down) (become_follower-Effect _ reply.term rf)
    | inr (inr up) ↦ become_leader-Effect rf up
  ]

  on_append_reply-cases :
      (server : ℕ) (args : AppendEntriesArgs C) (reply : AppendEntriesReply) (rf : Raft C)
      {b : Raft C}
      → on_append_reply server args reply rf ≡ ok b
      → (b ≡ rf)
        ⊎ (b ≡ become_follower reply.term rf)
        ⊎ (record_match server args rf ≡ ok b)
        ⊎ ((is_leader rf.state ≡ true) × (retry server reply rf ≡ ok b))
  unfolding on_append_reply
  on_append_reply-cases server args reply rf h = ground arith

  pub on_append_reply-Effect :
      (server : ℕ) (args : AppendEntriesArgs C) (reply : AppendEntriesReply) (rf : Raft C)
      {b : Raft C}
      → on_append_reply server args reply rf ≡ ok b
      → Effect (λ s. s ≡ server) rf b
  on_append_reply-Effect server args reply rf {b} h =
      let disk = on_append_reply-WritesAll server args reply rf h in
      elim (on_append_reply-cases server args reply rf h) [
        | inl same ↦ subst (λ x. Effect (λ s. s ≡ server) rf x) (sym same) (Effect-refl _ rf)
        | inr (inl down) ↦
            subst (λ x. Effect (λ s. s ≡ server) rf x) (sym down)
              (become_follower-Effect _ reply.term rf)
        | inr (inr (inl matched)) ↦
            let (calls, state, log, _) = record_match_sends server args rf matched in
            record {
              log = log;
              disk = disk;
              calm = λ c e. ground arith;
              sends = Sends-none (λ s. s ≡ server) rf b calls;
            }
        | inr (inr (inr (leads, again))) ↦ record {
          log = retry_log server reply rf again;
          disk = disk;
          calm = λ c e. retry_calm server reply rf again c;
          sends = retry-Sends server reply rf leads again;
        }
      ]

  pub heartbeat-Effect :
      (now : ℕ) (rf : Raft C) {b : Raft C} → heartbeat now rf ≡ ok b → Effect (λ s. s ≢ b.me) rf b
  unfolding heartbeat append_args
  heartbeat-Effect now rf {b} h =
      let (m, ran, e) = >>=-eq-ok (broadcast rf) _ h in
      let (t, v, l, p, st, _) = broadcast-eq rf ran in
      let all : record m { last_heartbeat_sent = now } ≡ b = ground arith in
      subst (λ x. Effect (λ s. s ≢ x.me) rf x) all
        (record {
          log = l;
          disk = inl (p, ground arith);
          calm = λ c e. ground arith;
          sends = λ server args i. elim (broadcast-Sends rf ran server args i) [
            | inl old ↦ inl old
            | inr (new, other) ↦
                inr (record { leads = new.leads; next = new.next; built = new.built }, other)
          ];
        })

  pub apply_entry-Effect :
      (Dest : ℕ → Type 0) (index : ℤ) (e : LogEntry C) (rf : Raft C)
      → Effect Dest rf (apply_entry index e rf)
  unfolding apply_entry
  apply_entry-Effect Dest index e rf = record {
    log = refl;
    disk = inl (refl, refl);
    calm = λ c e. c;
    sends = λ server args h. inl h;
  }

  pub kill-Effect :
      (Dest : ℕ → Type 0) (rf : Raft C) {b : Raft C} → kill rf ≡ ok b → Effect Dest rf b
  unfolding kill abort_pending_commands
  kill-Effect Dest rf {b} h = record {
    log = ground arith;
    disk = inl (kill-same rf h);
    calm = ground arith;
    sends = Sends-none Dest rf b (ground arith);
  }
