-- ===== src/Raft/Cluster/Entries.antt =====
-- The two steps that add entries to a log: of a leader, and of a peer that takes them from one.
use raft_kvs.Base.{
  ℕ, pos, ◌≡◌, ◌≢◌, refl, sym, ap, subst, ◌∙◌, ◌⊎◌, inl, inr, arith, true, false, [], ◌∷◌, ◌++◌,
  length, take, take_of_length-le, ok, ℕ_discrete, In,
}
use raft_kvs.Raft.Types.{
  Raft, Gob, LogEntry, is_leader, is_candidate, AppendEntriesArgs, AppendEntriesReply,
}
use raft_kvs.Raft.Order.{IsDurable}
use raft_kvs.Raft.Append.{append_entries}
use raft_kvs.Raft.Steps.{takes_entries, IsQuiet}
use raft_kvs.Raft.Steps.Roles.{Step-Stays}
use raft_kvs.Raft.Persist.{stored}
use raft_kvs.Raft.Steps.Votes.{Step-Later}
use raft_kvs.Raft.Cluster.Invariant.{IsSafe}
use raft_kvs.Raft.Cluster.Safety.{Elected-same}
use raft_kvs.Raft.Cluster.Makes.{Goes}
use raft_kvs.Raft.Cluster.Senders.{Acts, Acts-here, Acts-else, Elected-Acts}
use raft_kvs.Raft.Cluster.Logs.{
  Made, root, IsKnown, IsKnown-append, IsChain, IsChain-append, IsPrefix, IsPrefix-append,
}
use raft_kvs.Raft.Cluster.Changes.{
  append_entries-IsKnown, append_entries-term, append_entries-DiskIsKnown,
}
use raft_kvs.Raft.Cluster.World.{World}
use raft_kvs.Raft.Cluster.Well.{IsFull, IsLed, IsLed-Acts, IsWell, settle}
use raft_kvs.Raft.Cluster.Plain.{ne_of_lt, IsPlain, Step-WasActive, goes_out}

module _ {C : Type 0} ⦃g : Gob C⦄ where
  pub only_root : (a : World C) → IsWell a → (p : Made C) → In p a.made → p.term ≡ pos 0 → p ≡ root
  only_root a w p h zero = elim (w.makers p h) [
    | inl e ↦ e
    | inr (up, _) ↦ absurd (ne_of_lt (pos 0) p.term up (sym zero))
  ]

  -- A peer takes the entries of a request that was sent to it; a leader gets none in its term.
  pub takes_entries-IsPlain :
      (a : World C) (i from now : ℕ) (args : AppendEntriesArgs C) (rf : Raft C)
      (reply : AppendEntriesReply)
      → IsWell a
      → In (record { from = from; to = i; args = args }) a.sent
      → append_entries now args (a.cluster.nodes i) ≡ ok (rf, reply)
      → IsPlain a.made (a.cluster.nodes i) rf
  takes_entries-IsPlain a i from now args rf reply w sent ran =
      let old = a.cluster.nodes i in
      let (cut, e, other) = w.sent _ sent in
      let known =
        append_entries-IsKnown a.made now args old w.chain (only_root a w) (w.logs i) cut ran in
      record {
        log = known;
        disk = append_entries-DiskIsKnown a.made now args old ran (w.disks i) (w.logs i) known;
        kept = λ leads. elim (append_entries-term now args old ran) [
          | inl same ↦ ap (λ (x : Raft C). x.log) same
          | inr of_term ↦
              let stays = Step-Stays (takes_entries now args reply ran) tt in
              absurd (
                other (
                  Elected-same a.cluster w.safe old.current_term args.term i from
                    (sym (stays.term leads) ∙ of_term) (w.safe.elected i (stays.led leads)) e))
        ];
      }

  pub leader_idle : (rf : Raft C) → is_leader rf.state ≡ true → is_candidate rf.state ≡ false
  leader_idle rf h = ground arith

  -- What a leader's `Start` makes is the longest log of its term.
  start-IsFull :
      (a b : World C) (m : Acts a.cluster b.cluster) (x : LogEntry C)
      → IsWell a
      → IsSafe b.cluster
      → is_leader (a.cluster.nodes m.actor).state ≡ true
      → x.term ≡ (a.cluster.nodes m.actor).current_term
      → m.after.current_term ≡ x.term
      → m.after.log ≡ (a.cluster.nodes m.actor).log ++ x ∷ []
      → b.made ≡ record { log = (a.cluster.nodes m.actor).log ++ x ∷ []; term = x.term } ∷ a.made
      → (j : ℕ) → IsFull b.made (b.cluster.nodes j)
  start-IsFull a b m x w safe leads of_term kept added made j =
      let old = a.cluster.nodes m.actor in
      let new : Made C = record { log = old.log ++ x ∷ []; term = x.term } in
      elim (ℕ_discrete m.actor j) [
        | yes self ↦
            let there : b.cluster.nodes j ≡ m.after =
              ap b.cluster.nodes (sym self) ∙ Acts-here a.cluster b.cluster m in
            subst (IsFull b.made) (sym there) (λ leads' p h same.
              subst (λ l. IsPrefix l p) (sym added)
                (elim (subst (In p) made h) [
                  | inl e ↦
                      sym (take_of_length-le (length p.log) p.log (omega arith))
                      ∙ ap (λ (q : Made C). take (length p.log) q.log) e
                  | inr before ↦
                      IsPrefix-append old.log x p
                        (w.full m.actor leads p before (same ∙ kept ∙ of_term))
                ]))
        | no other ↦
            let there = Acts-else a.cluster b.cluster m j other in
            λ leads' p h same. elim (subst (In p) made h) [
              | inl e ↦ absurd (
                  other (
                    Elected-same b.cluster safe old.current_term (b.cluster.nodes j).current_term
                      m.actor j (sym of_term ∙ sym (ap (λ (q : Made C). q.term) e) ∙ same)
                      (Elected-Acts a.cluster b.cluster m old.current_term m.actor
                        (w.safe.elected m.actor leads))
                      (safe.elected j leads')))
              | inr before ↦
                  subst (λ (y : Raft C). IsPrefix y.log p) (sym there)
                    (w.full j (ap (λ (y : Raft C). is_leader y.state) (sym there) ∙ leads') p before
                      (same ∙ ap (λ (y : Raft C). y.current_term) there))
            ]
      ]

  pub leader_starts :
      (a b : World C) (m : Acts a.cluster b.cluster) (x : LogEntry C)
      → IsWell a
      → IsSafe b.cluster
      → IsQuiet m.taken
      → b.sent ≡ a.sent
      → is_leader (a.cluster.nodes m.actor).state ≡ true
      → x.term ≡ (a.cluster.nodes m.actor).current_term
      → m.after.current_term ≡ x.term
      → m.after.log ≡ (a.cluster.nodes m.actor).log ++ x ∷ []
      → IsDurable m.after
      → b.made ≡ record { log = (a.cluster.nodes m.actor).log ++ x ∷ []; term = x.term } ∷ a.made
      → ((to : ℕ) → Goes m.taken to → (to ≢ m.after.me) ⊎ (to ≢ m.actor))
      → IsWell b
  leader_starts a b m x w safe quiet same_sent leads of_term kept added durable made goes =
      let i = m.actor in
      let old = a.cluster.nodes i in
      let new : Made C = record { log = old.log ++ x ∷ []; term = x.term } in
      let later = Step-Later m.taken (w.safe.on_disk i) quiet in
      let led : IsLed b.cluster x.term = IsLed-Acts a.cluster b.cluster m x.term later (
        subst (IsLed a.cluster) (sym of_term) (
          w.ranks i (inl leads),
          (i, w.safe.elected i leads, inr (refl, leader_idle old leads)),
        )) in
      let known : IsKnown b.made m.after.log =
        subst (λ l. IsKnown l m.after.log) (sym made)
          (subst (IsKnown (new ∷ a.made)) (sym added)
            (IsKnown-append a.made old.log x (w.logs i))) in
      settle a b m w safe later same_sent (λ p h. subst (In p) (sym made) (inr h))
        (subst IsChain (sym made)
          (IsChain-append a.made old.log x w.chain (λ p h t. w.full i leads p h (t ∙ of_term))))
        (λ p h. elim (subst (In p) made h) [
          | inl e ↦ inr (subst (IsLed b.cluster) (sym (ap (λ (q : Made C). q.term) e)) led)
          | inr before ↦ inl before
        ])
        known (inr (stored m.after, durable, known))
        (start-IsFull a b m x w safe leads of_term kept added made)
        (λ leads'. (Step-WasActive m.taken leads').0)
        (λ to h. goes_out a.cluster b.cluster m safe to (goes to h))
