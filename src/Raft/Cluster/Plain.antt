-- ===== src/Raft/Cluster/Plain.antt =====
-- The steps of a cluster in which no leader makes a log.
use raft_kvs.Base.{
  ℕ, ℤ, pos, ◌<ℤ◌, ◌≡◌, ◌≢◌, sym, ap, subst, ◌∙◌, ◌⊎◌, inl, inr, arith, true, false, Bool-cases,
  List, In,
}
use raft_kvs.Raft.Types.{Raft, Gob, is_leader, is_candidate}
use raft_kvs.Raft.Election.Majority.{on_vote_reply_elects}
use raft_kvs.Raft.Steps.{
  Step, votes, takes_entries, campaigns, reads_vote, reads_match, starts, beats, applies, dies,
  restarts, IsQuiet,
}
use raft_kvs.Raft.Steps.Votes.{Step-Later}
use raft_kvs.Raft.Steps.Roles.{Step-Stays, Stays, on_vote_reply-same}
use raft_kvs.Raft.Cluster.{Cluster}
use raft_kvs.Raft.Cluster.Invariant.{Elected, IsSafe}
use raft_kvs.Raft.Cluster.Safety.{Elected-same}
use raft_kvs.Raft.Cluster.Effects.{Effect}
use raft_kvs.Raft.Cluster.Makes.{Goes}
use raft_kvs.Raft.Cluster.Senders.{Acts, Acts-each, Acts-here, Elected-Acts}
use raft_kvs.Raft.Cluster.Logs.{Made, IsKnown, IsChain, IsPrefix}
use raft_kvs.Raft.Cluster.Changes.{DiskIsKnown, WritesAll-DiskIsKnown}
use raft_kvs.Raft.Cluster.World.{World}
use raft_kvs.Raft.Cluster.Well.{IsActive, IsFull, IsWell, settle}

pub ne_of_lt : (t u : ℤ) → t <ℤ u → t ≢ u
ne_of_lt t u l e = let bad : u <ℤ u = subst (λ x. x <ℤ u) e l in omega (arith, bad)

module _ {C : Type 0} ⦃g : Gob C⦄ where
  -- The log and the disk are of logs that were made before, and a leader's log is as it was.
  pub record IsPlain (made : List (Made C)) (a b : Raft C) : Type 0 where
    pub log : IsKnown made b.log
    pub disk : DiskIsKnown made b.persister
    pub kept : is_leader b.state ≡ true → b.log ≡ a.log

  pub Effect-IsPlain :
      (made : List (Made C)) (Dest : ℕ → Type 0) (a b : Raft C)
      → Effect Dest a b
      → IsKnown made a.log
      → DiskIsKnown made a.persister
      → IsPlain made a b
  Effect-IsPlain made Dest a b e k disk =
      let known = subst (IsKnown made) (sym e.log) k in
      record {
        log = known;
        disk = WritesAll-DiskIsKnown made a b e.disk disk known;
        kept = λ _. e.log;
      }

  -- A peer that leads after a step led or stood for election before, in the same term.
  abbrev WasActive : Raft C → Raft C → Type 0
  WasActive a b = is_leader b.state ≡ true → IsActive a × (b.current_term ≡ a.current_term)

  Stays-WasActive : (a b : Raft C) → Stays a b → WasActive a b
  Stays-WasActive a b s leads = (inl (s.led leads), s.term leads)

  pub Step-WasActive : {a b : Raft C} → Step a b → WasActive a b
  Step-WasActive {a} {b} (reads_vote e e' reply h) = λ leads.
      elim (Bool-cases (is_leader a.state)) [
        | inl led ↦ (inl led, (on_vote_reply-same e reply a h).2 led leads)
        | inr idle ↦
            let (runs, _, _, _, _, term, _, _) = on_vote_reply_elects e reply a h idle leads in
            (inr runs, term)
      ]
  Step-WasActive {a} {b} (votes now args e) = Stays-WasActive a b (Step-Stays (votes now args e) tt)
  Step-WasActive {a} {b} (takes_entries now args reply h) =
      Stays-WasActive a b (Step-Stays (takes_entries now args reply h) tt)
  Step-WasActive {a} {b} (campaigns now n e l h) =
      Stays-WasActive a b (Step-Stays (campaigns now n e l h) tt)
  Step-WasActive {a} {b} (reads_match server args reply h) =
      Stays-WasActive a b (Step-Stays (reads_match server args reply h) tt)
  Step-WasActive {a} {b} (starts command r h) =
      Stays-WasActive a b (Step-Stays (starts command r h) tt)
  Step-WasActive {a} {b} (beats now h) = Stays-WasActive a b (Step-Stays (beats now h) tt)
  Step-WasActive {a} {b} (applies index e h) =
      Stays-WasActive a b (Step-Stays (applies index e h) tt)
  Step-WasActive {a} {b} (dies h) = Stays-WasActive a b (Step-Stays (dies h) tt)
  Step-WasActive {a} {b} (restarts now h) = Stays-WasActive a b (Step-Stays (restarts now h) tt)

  -- Nothing was made in the term of a peer that is just becoming its leader.
  new_leader-IsFull :
      (a b : World C) (m : Acts a.cluster b.cluster) (p : Made C)
      → IsWell a
      → IsSafe b.cluster
      → In p a.made
      → is_leader m.after.state ≡ true
      → is_candidate (a.cluster.nodes m.actor).state ≡ true
      → m.after.current_term ≡ (a.cluster.nodes m.actor).current_term
      → p.term ≡ m.after.current_term
      → ⊥
  new_leader-IsFull a b m p w safe h leads runs same_term of_term =
      let here_now = Acts-here a.cluster b.cluster m in
      let old = a.cluster.nodes m.actor in
      let up = w.ranks m.actor (inr runs) in
      elim (w.makers p h) [
        | inl is_root ↦
            let zero : p.term ≡ pos 0 = ap (λ (q : Made C). q.term) is_root in
            let zero' : old.current_term ≡ pos 0 = sym same_term ∙ sym of_term ∙ zero in
            absurd (ne_of_lt (pos 0) old.current_term up (sym zero'))
        | inr (_, (c, e, past)) ↦
            let won : Elected b.cluster.size b.cluster.ballots m.after.current_term m.actor =
              subst
                (λ (x : Raft C). Elected b.cluster.size b.cluster.ballots x.current_term m.actor)
                here_now
                (safe.elected m.actor (ap (λ (x : Raft C). is_leader x.state) here_now ∙ leads)) in
            let same : c ≡ m.actor =
              Elected-same b.cluster safe p.term m.after.current_term c m.actor of_term
                (Elected-Acts a.cluster b.cluster m p.term c e) won in
            let gone =
              subst
                (λ k.
                  (p.term <ℤ (a.cluster.nodes k).current_term)
                  ⊎ (((a.cluster.nodes k).current_term ≡ p.term)
                      × (is_candidate (a.cluster.nodes k).state ≡ false)))
                same past in
            elim gone [
              | inl lt ↦ absurd (ne_of_lt p.term old.current_term lt (of_term ∙ same_term))
              | inr (_, idle) ↦ absurd (ground (arith, idle, runs))
            ]
      ]

  -- The peers that a step sends to are others.
  pub goes_out :
      (a b : Cluster C) (m : Acts a b)
      → IsSafe b
      → (to : ℕ) → (to ≢ m.after.me) ⊎ (to ≢ m.actor)
      → to ≢ m.actor
  goes_out a b m safe to (inr other) = other
  goes_out a b m safe to (inl other) =
      λ e. other (e ∙ sym (safe.me m.actor) ∙ ap (λ (x : Raft C). x.me) (Acts-here a b m))

  -- A plain step leaves the world well.
  pub plain :
      (a b : World C) (m : Acts a.cluster b.cluster)
      → IsWell a
      → IsSafe b.cluster
      → IsQuiet m.taken
      → b.sent ≡ a.sent
      → b.made ≡ a.made
      → IsPlain a.made (a.cluster.nodes m.actor) m.after
      → ((to : ℕ) → Goes m.taken to → (to ≢ m.after.me) ⊎ (to ≢ m.actor))
      → IsWell b
  plain a b m w safe quiet same_sent same_made p goes =
      let was = Step-WasActive m.taken in
      settle a b m w safe (Step-Later m.taken (w.safe.on_disk m.actor) quiet) same_sent
        (λ q h. subst (In q) (sym same_made) h) (subst IsChain (sym same_made) w.chain)
        (λ q h. inl (subst (In q) same_made h))
        (subst (λ l. IsKnown l m.after.log) (sym same_made) p.log)
        (subst (λ l. DiskIsKnown l m.after.persister) (sym same_made) p.disk)
        (Acts-each a.cluster b.cluster m (λ j x. IsFull b.made x)
          (λ leads q h of_term.
            let old = subst (In q) same_made h in
            let (active, same_term) = was leads in
            elim active [
              | inl led ↦
                  subst (λ l. IsPrefix l q) (sym (p.kept leads))
                    (w.full m.actor led q old (of_term ∙ same_term))
              | inr runs ↦
                  absurd (new_leader-IsFull a b m q w safe old leads runs same_term of_term)
            ])
          (λ j leads q h of_term. w.full j leads q (subst (In q) same_made h) of_term))
        (λ leads. (was leads).0) (λ to h. goes_out a.cluster b.cluster m safe to (goes to h))
