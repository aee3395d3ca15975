-- ===== src/Raft/Exchange/Catches.antt =====
-- The exchange ends, and the follower then has the leader's log.
use raft_kvs.Base.{
  ℕ, zero, suc, ◌≤◌, ◌<◌, ℤ, pos, minus_one, ◌-ℤ◌, ◌≤ℤ◌, suc-minus_one, minus_plus_one, ◌≡◌, refl,
  sym, subst, ◌∙◌, inl, inr, arith, true, false, Bool-cases, [], ◌∷◌, ◌++◌, length, length-set,
  drop, set, get_elem?, get_elem?-set_self, some, ok, lt→ltb,
}
use mathlib.Core.Path.{subst₂}
use raft_kvs.Raft.Types.{Raft, Gob, is_leader, send_entries, AppendEntriesArgs, AppendEntriesReply}
use raft_kvs.Raft.Log.{term_at}
use raft_kvs.Raft.Broadcast.{append_args}
use raft_kvs.Raft.Append.{append_entries}
use raft_kvs.Raft.Append.Refusal.{Refusal, append_entries_refused, append_entries-Returns}
use raft_kvs.Raft.Append.Convergence.{suffix-drop, append_entries_converges}
use raft_kvs.Raft.Replicate.{on_append_reply, retry, backed_up}
use raft_kvs.Raft.Cluster.Changes.{append_entries-term}
use raft_kvs.Raft.Exchange.{exchange}
use raft_kvs.Raft.Exchange.Progress.{
  before_all-Refusal, IsSharing, IsSharing-IsMatching, backed_up-lt,
}

module _ {C : Type 0} where
  abbrev args_at : Raft C → ℕ → AppendEntriesArgs C
  args_at ld n = record {
    term = ld.current_term;
    leader_id = pos ld.me;
    prev_log_index = pos n -ℤ pos 1;
    prev_log_term = term_at ld.log (pos n -ℤ pos 1);
    entries = drop n ld.log;
    leader_commit = ld.commit_index;
  }

  append_args-args_at : (ld : Raft C) (n : ℕ) → append_args ld (pos n) ≡ ok (args_at ld n)
  unfolding append_args
  append_args-args_at ld n = rw (suffix-drop ld.log n) refl

  -- What the leader is after it has handled a refusal.
  record IsRetried (server n : ℕ) (ld ld' : Raft C) : Type 0 where
    next : get_elem? ld'.next_index server ≡ some (pos n)
    log : ld'.log ≡ ld.log
    leads : is_leader ld'.state ≡ true
    term : ld'.current_term ≡ ld.current_term
    indices : length ld'.next_index ≡ length ld.next_index

  retry-IsRetried :
      (server n : ℕ) (reply : AppendEntriesReply) (ld : Raft C)
      → is_leader ld.state ≡ true
      → server < length ld.next_index
      → backed_up reply ld ≡ pos n
      → (ld' : Raft C) × (retry server reply ld ≡ ok ld') × IsRetried server n ld ld'
  unfolding retry append_args
  retry-IsRetried server n reply ld leads inside back =
      let ns = set ld.next_index server (pos n) in
      let rf1 = record ld { next_index = ns } in
      (
        record rf1 { calls = ld.calls ++ send_entries server (args_at rf1 n) ∷ [] },
        rw (back, lt→ltb server (length ld.next_index) inside, suffix-drop ld.log n) refl,
        record {
          next = get_elem?-set_self ld.next_index server (pos n) inside;
          log = refl;
          leads = leads;
          term = refl;
          indices = length-set ld.next_index server (pos n);
        },
      )

module _ {C : Type 0} ⦃g : Gob C⦄ where
  on_append_reply_retries :
      (server : ℕ) (args : AppendEntriesArgs C) (reply : AppendEntriesReply) (ld : Raft C)
      → is_leader ld.state ≡ true
      → args.term ≡ ld.current_term
      → reply.term ≤ℤ ld.current_term
      → reply.success ≡ false
      → on_append_reply server args reply ld ≡ retry server reply ld
  unfolding on_append_reply
  on_append_reply_retries server args reply ld leads term le refused = ground arith

  exchange_accepted :
      (rounds now server : ℕ) (next : ℤ) (ld fl fl1 : Raft C) (args : AppendEntriesArgs C)
      (reply : AppendEntriesReply)
      → append_args ld next ≡ ok args
      → append_entries now args fl ≡ ok (fl1, reply)
      → reply.success ≡ true
      → exchange (suc rounds) now server next ld fl ≡ ok (ld, fl1, true)
  unfolding exchange
  exchange_accepted rounds now server next ld fl fl1 args reply built ran success =
      rw (built, ran, success) refl

  exchange_refused :
      (rounds now server : ℕ) (next next1 : ℤ) (ld ld1 fl fl1 : Raft C) (args : AppendEntriesArgs C)
      (reply : AppendEntriesReply)
      → append_args ld next ≡ ok args
      → append_entries now args fl ≡ ok (fl1, reply)
      → reply.success ≡ false
      → on_append_reply server args reply ld ≡ ok ld1
      → get_elem? ld1.next_index server ≡ some next1
      → exchange (suc rounds) now server next ld fl ≡ exchange rounds now server next1 ld1 fl1
  unfolding exchange
  exchange_refused rounds now server next next1 ld ld1 fl fl1 args reply built ran refused back
        at_s =
      rw (built, ran, refused, back, at_s) refl

  -- A follower that refuses tells the leader to go on from before.
  refused-lt :
      (now n : ℕ) (ld fl : Raft C) {fl1 : Raft C} {reply : AppendEntriesReply}
      → append_entries now (args_at ld n) fl ≡ ok (fl1, reply)
      → reply.success ≡ false
      → fl.current_term ≤ℤ ld.current_term
      → IsSharing fl.log ld.log
      → (m : ℕ) × (backed_up reply ld ≡ pos m) × (m < n)
  unfolding ◌-ℤ◌
  refused-lt now zero ld fl {reply = reply} ran refused le sharing =
      let (_, _, _, _, why) = append_entries_refused now (args_at ld 0) fl ran refused le in
      absurd (before_all-Refusal fl.log (term_at ld.log minus_one) reply why)
  refused-lt now (suc p) ld fl {reply = reply} ran refused le sharing =
      let (_, _, _, _, why) = append_entries_refused now (args_at ld (suc p)) fl ran refused le in
      let (m, e, l) =
        backed_up-lt ld fl.log p reply sharing
          (subst (λ i. Refusal fl.log i (term_at ld.log i) reply) (suc-minus_one p) why) in
      (m, e, omega (arith, l))

  -- With more rounds than the first next index, the exchange ends, and the logs are the same.
  pub exchange_catches_up :
      (rounds now server n : ℕ) (ld fl : Raft C)
      → n < rounds
      → n ≤ length ld.log
      → is_leader ld.state ≡ true
      → fl.current_term ≤ℤ ld.current_term
      → server < length ld.next_index
      → IsSharing fl.log ld.log
      → (ld' : Raft C) × (fl' : Raft C) × (exchange rounds now server (pos n) ld fl
          ≡ ok (ld', fl', true))
        × (ld'.log ≡ ld.log)
        × (fl'.log ≡ ld.log)
  exchange_catches_up zero now server n ld fl enough within leads le inside sharing =
      absurd (omega arith)
  exchange_catches_up (suc rounds) now server n ld fl enough within leads le inside sharing =
      let args = args_at ld n in
      let built = append_args-args_at ld n in
      let ((fl1, reply), ran) = append_entries-Returns now n args fl (minus_plus_one n) in
      elim (Bool-cases reply.success) [
        | inl success ↦ (
          ld,
          fl1,
          exchange_accepted rounds now server (pos n) ld fl fl1 args reply built ran success,
          refl,
          append_entries_converges now n ld fl built within
              (IsSharing-IsMatching fl.log ld.log sharing) ran success,
        )
        | inr refused ↦
            let (m, back, less) = refused-lt now n ld fl ran refused le sharing in
            let (log, _, _, seen, _) = append_entries_refused now args fl ran refused le in
            let (ld1, again, r) = retry-IsRetried server m reply ld leads inside back in
            let handled : on_append_reply server args reply ld ≡ ok ld1 =
              on_append_reply_retries server args reply ld leads refl
                (subst (λ t. t ≤ℤ ld.current_term) (sym seen) le) refused
              ∙ again in
            let le1 : fl1.current_term ≤ℤ ld1.current_term =
              subst (λ t. fl1.current_term ≤ℤ t) (sym r.term)
                (elim (append_entries-term now args fl ran) [
                  | inl same ↦
                      subst (λ (x : Raft C). x.current_term ≤ℤ ld.current_term) (sym same) le
                  | inr of_term ↦ subst (λ t. t ≤ℤ ld.current_term) (sym of_term) (omega arith)
                ]) in
            let (ld', fl', ends, same_ld, same_fl) =
              exchange_catches_up rounds now server m ld1 fl1 (omega arith)
                (subst (λ l. m ≤ length l) (sym r.log) (omega (arith, less, within))) r.leads le1
                (subst (λ k. server < k) (sym r.indices) inside)
                (subst₂ IsSharing (sym log) (sym r.log) sharing) in
            (
              ld',
              fl',
              exchange_refused rounds now server (pos n) (pos m) ld ld1 fl fl1 args reply built ran
                    refused handled r.next
                  ∙ ends,
              same_ld ∙ r.log,
              same_fl ∙ r.log,
            )
      ]
