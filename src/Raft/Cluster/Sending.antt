-- ===== src/Raft/Cluster/Sending.antt =====
-- The AppendEntries that the leader's operations put on the way.
use raft_kvs.Base.{
  ℕ, zero, suc, ℤ, pos, ◌+ℤ◌, ◌==◌, ◌≡◌, ◌≢◌, sym, ap, subst, ◌∙◌, ◌⊎◌, inl, inr, arith, true,
  Bool-cases, List, [], ◌∷◌, ◌++◌, range, length, get_elem?, store, ok, or_panic, >>=-eq-ok, In,
  In-append,
}
use raft_kvs.Raft.Types.{
  Raft, Call, send_entries, is_leader, is_candidate, AppendEntriesArgs, AppendEntriesReply,
}
use raft_kvs.Raft.Log.{max}
use raft_kvs.Raft.Broadcast.{append_args, send_all, broadcast}
use raft_kvs.Raft.Replicate.{record_match, retry, backed_up, advance_from, advance_commit_index}

-- A call that a leader makes now: its request is built from the leader's log as it is.
pub record IsFresh {C : Type 0} (b : Raft C) (args : AppendEntriesArgs C) : Type 0 where
  pub leads : is_leader b.state ≡ true
  pub next : ℤ
  pub built : append_args b next ≡ ok args

-- Whatever AppendEntries a peer has on its way, it had before, or makes now, to a peer in `Dest`.
abbrev pub Sends : {C : Type 0} → (ℕ → Type 0) → Raft C → Raft C → Type 0
Sends {C} Dest a b =
    (server : ℕ) (args : AppendEntriesArgs C)
    → In (send_entries server args) b.calls
    → In (send_entries server args) a.calls ⊎ (IsFresh b args × Dest server)

-- No other peer becomes a candidate without a new term.
abbrev pub IsCalm : {C : Type 0} → Raft C → Raft C → Type 0
IsCalm a b =
    is_candidate b.state ≡ true → b.current_term ≡ a.current_term → is_candidate a.state ≡ true

module _ {C : Type 0} where
  pub Sends-none : (Dest : ℕ → Type 0) (a b : Raft C) → b.calls ≡ a.calls → Sends Dest a b
  Sends-none Dest a b e server args h = inl (subst (In (send_entries server args)) e h)

  send_all-sent :
      (rf : Raft C) (is : List ℕ) {calls : List (Call C)} (server : ℕ) (args : AppendEntriesArgs C)
      → send_all rf is ≡ ok calls
      → In (send_entries server args) calls
      → (server ≢ rf.me) × ((next : ℤ) × (append_args rf next ≡ ok args))
  unfolding send_all
  send_all-sent rf [] server args ran h =
      absurd (subst (In (send_entries server args)) (let e : _ ≡ [] = ground arith in e) h)
  send_all-sent rf (i ∷ is) {calls} server args ran h = elim (Bool-cases (i == rf.me)) [
    | inl self ↦ send_all-sent rf is server args (rw self at ran) h
    | inr other ↦
        let (next, _, ran1) =
          >>=-eq-ok (or_panic (get_elem? rf.next_index i)) _ (rw other at ran) in
        let (made, built, ran2) = >>=-eq-ok (append_args rf next) _ ran1 in
        let (rest, later, ran3) = >>=-eq-ok (send_all rf is) _ ran2 in
        let all : calls ≡ send_entries i made ∷ rest = ground arith in
        elim (subst (In (send_entries server args)) all h) [
          | inl e ↦
              let same_i : server ≡ i = ground arith in
              let same_args : made ≡ args = ground arith in
              ((λ m. ground arith), (next, subst (λ x. append_args rf next ≡ ok x) same_args built))
          | inr old ↦ send_all-sent rf is server args later old
        ]
  ]

  -- A broadcast: what is new is fresh, and goes to others.
  pub broadcast-Sends :
      (rf : Raft C) {b : Raft C} → broadcast rf ≡ ok b → Sends (λ s. s ≢ b.me) rf b
  unfolding broadcast append_args
  broadcast-Sends rf {b} ran server args h = elim (Bool-cases (is_leader rf.state)) [
    | inl leads ↦
        let (calls, sent, ran1) = >>=-eq-ok (send_all rf (range rf.peers)) _ (rw leads at ran) in
        let all : b ≡ record rf { calls = rf.calls ++ calls } = ground arith in
        elim (In-append (send_entries server args) rf.calls calls
          (subst (λ (x : Raft C). In (send_entries server args) x.calls) all h)) [
            | inl old ↦ inl old
            | inr new ↦
                let (other, (next, built)) =
                  send_all-sent rf (range rf.peers) server args sent new in
                inr (
                  subst (λ (x : Raft C). IsFresh x args) (sym all)
                      (record { leads = leads; next = next; built = built }),
                  λ m. other (m ∙ ap (λ (x : Raft C). x.me) all),
                )
          ]
    | inr idle ↦
        let e : b ≡ rf = ground arith in
        inl (subst (λ (x : Raft C). In (send_entries server args) x.calls) e h)
  ]

  advance_from_sends :
      (rf : Raft C) (k : ℕ) {b : Raft C}
      → advance_from rf k ≡ ok b
      → (b.calls ≡ rf.calls)
        × (b.state ≡ rf.state)
        × (b.log ≡ rf.log)
        × (b.persister ≡ rf.persister)
  unfolding advance_from
  advance_from_sends rf zero h = ground arith
  advance_from_sends rf (suc n) {b} h = ground (arith, advance_from_sends rf n {b = b})

  pub record_match_sends :
      (server : ℕ) (args : AppendEntriesArgs C) (rf : Raft C) {b : Raft C}
      → record_match server args rf ≡ ok b
      → (b.calls ≡ rf.calls)
        × (b.state ≡ rf.state)
        × (b.log ≡ rf.log)
        × (b.persister ≡ rf.persister)
  unfolding record_match advance_commit_index
  record_match_sends server args rf h =
      let (old, a, h1) = >>=-eq-ok (or_panic (get_elem? rf.match_index server)) _ h in
      let m = max old (args.prev_log_index +ℤ pos (length args.entries)) in
      let (ms, b, h2) = >>=-eq-ok (store rf.match_index server m) _ h1 in
      let (ns, c, h3) = >>=-eq-ok (store rf.next_index server (m +ℤ pos 1)) _ h2 in
      advance_from_sends (record rf { match_index = ms; next_index = ns }) (length rf.log) h3

  pub retry-Sends :
      (server : ℕ) (reply : AppendEntriesReply) (rf : Raft C) {b : Raft C}
      → is_leader rf.state ≡ true
      → retry server reply rf ≡ ok b
      → Sends (λ s. s ≡ server) rf b
  unfolding retry append_args
  retry-Sends server reply rf {b} leads ran to args h =
      let (ns, _, ran1) = >>=-eq-ok (store rf.next_index server (backed_up reply rf)) _ ran in
      let rf1 = record rf { next_index = ns } in
      let (made, built, ran2) = >>=-eq-ok (append_args rf1 (backed_up reply rf)) _ ran1 in
      let all : b ≡ record rf1 { calls = rf.calls ++ send_entries server made ∷ [] } =
        ground arith in
      elim (In-append (send_entries to args) rf.calls (send_entries server made ∷ [])
        (subst (λ (x : Raft C). In (send_entries to args) x.calls) all h)) [
          | inl old ↦ inl old
          | inr (inl e) ↦
              let same_args : made ≡ args = ground arith in
              inr (
                subst (λ (x : Raft C). IsFresh x args) (sym all)
                    (record {
                      leads = leads;
                      next = backed_up reply rf;
                      built =
                          subst (λ x. append_args rf (backed_up reply rf) ≡ ok x) same_args built;
                    }),
                ground arith,
              )
          | inr (inr none) ↦ absurd none
        ]

  pub retry_log :
      (server : ℕ) (reply : AppendEntriesReply) (rf : Raft C) {b : Raft C}
      → retry server reply rf ≡ ok b
      → b.log ≡ rf.log
  unfolding retry
  retry_log server reply rf h = ground arith

  pub retry_calm :
      (server : ℕ) (reply : AppendEntriesReply) (rf : Raft C) {b : Raft C}
      → retry server reply rf ≡ ok b
      → is_candidate b.state ≡ true
      → is_candidate rf.state ≡ true
  unfolding retry
  retry_calm server reply rf h c = ground arith
