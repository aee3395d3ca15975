-- ===== src/Raft/Cluster/Ticks.antt =====
-- Every step of a cluster with messages keeps it well.
use raft_kvs.Base.{
  ℕ, ℤ, ◌≡◌, ◌≢◌, refl, sym, ap, subst, ◌∙◌, ◌⊎◌, inl, inr, arith, false, Bool, Bool-cases, [], ◌∷◌,
  ◌++◌, some, ok,
}
use raft_kvs.Raft.Types.{Raft, Gob, LogEntry, is_leader}
use raft_kvs.Raft.Persist.{read_persist}
use raft_kvs.Raft.Node.{start, make}
use raft_kvs.Raft.Node.Start.{start_lem}
use raft_kvs.Raft.Node.Later.{start-same}
use raft_kvs.Raft.Steps.{
  Step, votes, takes_entries, campaigns, reads_vote, reads_match, starts, beats, applies, dies,
  restarts, IsQuiet,
}
use raft_kvs.Raft.Cluster.{
  Cluster, Move, answers, campaigning, counts, acts, IsOther, put, record_if,
}
use raft_kvs.Raft.Cluster.Invariant.{Elected, IsSafe}
use raft_kvs.Raft.Cluster.Safety.{Move-IsSafe}
use raft_kvs.Raft.Cluster.Effects.{
  request_vote-Effect, start_election-Effect, on_vote_reply-Effect, on_append_reply-Effect,
  heartbeat-Effect, apply_entry-Effect, kill-Effect, Effect-refl, Effect,
}
use raft_kvs.Raft.Cluster.Makes.{Goes}
use raft_kvs.Raft.Cluster.Senders.{Acts, Move-Acts}
use raft_kvs.Raft.Cluster.Logs.{Made}
use raft_kvs.Raft.Cluster.Changes.{IsCut, make-IsKnown}
use raft_kvs.Raft.Cluster.World.{
  Sent, World, IsDelivered, recorded, Tick, moves, sends, IsQuietTick,
}
use raft_kvs.Raft.Cluster.Well.{IsWell}
use raft_kvs.Raft.Cluster.Plain.{IsPlain, Effect-IsPlain, plain}
use raft_kvs.Raft.Cluster.Entries.{takes_entries-IsPlain, leader_starts}

module _ {C : Type 0} ⦃g : Gob C⦄ where
  -- A step of a peer by which no leader makes a log.
  Effect-IsWell :
      (a b : World C) (m : Acts a.cluster b.cluster) (Dest : ℕ → Type 0)
      → IsWell a
      → IsSafe b.cluster
      → IsQuiet m.taken
      → b.sent ≡ a.sent
      → b.made ≡ a.made
      → Effect Dest (a.cluster.nodes m.actor) m.after
      → ((to : ℕ) → Goes m.taken to → (to ≢ m.after.me) ⊎ (to ≢ m.actor))
      → IsWell b
  Effect-IsWell a b m Dest w safe quiet same_sent same_made e goes =
      plain a b m w safe quiet same_sent same_made
        (Effect-IsPlain a.made Dest (a.cluster.nodes m.actor) m.after e (w.logs m.actor)
          (w.disks m.actor))
        goes

  starts-IsWell :
      (a b : World C) (m : Acts a.cluster b.cluster) (command : C) (r : ℤ × ℤ × Bool)
      (ran : start command (a.cluster.nodes m.actor) ≡ ok (m.after, r))
      → m.taken ≡ starts command r ran
      → IsWell a
      → IsSafe b.cluster
      → b.sent ≡ a.sent
      → b.made
        ≡ record_if
            (is_leader (a.cluster.nodes m.actor).state)
            (record { log = m.after.log; term = m.after.current_term })
            a.made
      → IsWell b
  starts-IsWell a b m command r ran taken w safe same_sent made =
      let old = a.cluster.nodes m.actor in
      let (same_leads, _, not_led, led) = start_lem command old ran in
      let quiet = subst IsQuiet (sym taken) tt in
      let goes =
        subst
          (λ (st : Step old m.after). (to : ℕ) → Goes st to → (to ≢ m.after.me) ⊎ (to ≢ m.actor))
          (sym taken) (λ to h. inl h) in
      elim (Bool-cases (is_leader old.state)) [
        | inl leads ↦
            let (_, added, _, durable) = led (same_leads ∙ leads) in
            let kept = (start-same command old ran).0 in
            let x : LogEntry C = record { term = old.current_term; command = some command } in
            leader_starts a b m x w safe quiet same_sent leads refl kept added durable
              (rw leads at made
                ∙ ap (λ (q : Made C). q ∷ a.made)
                    (ap (λ l. record { log = l; term = m.after.current_term }) added
                      ∙ ap (λ t. record { log = old.log ++ x ∷ []; term = t }) kept))
              goes
        | inr idle ↦
            let (same, _) = not_led (same_leads ∙ idle) in
            Effect-IsWell a b m (λ s. Unit) w safe quiet same_sent (rw idle at made)
              (subst (Effect (λ s. Unit) old) (sym same) (Effect-refl (λ s. Unit) old)) goes
      ]

  make_idle :
      (now : ℕ) (rf : Raft C) {b : Raft C}
      → make rf.peers rf.me rf.persister now ≡ ok b
      → is_leader b.state ≡ false
  unfolding make read_persist
  make_idle now rf h = ground arith

  restarts-IsPlain :
      (a : World C) (i now : ℕ) (rf : Raft C)
      → IsWell a
      → make (a.cluster.nodes i).peers (a.cluster.nodes i).me (a.cluster.nodes i).persister now
        ≡ ok rf
      → IsPlain a.made (a.cluster.nodes i) rf
  restarts-IsPlain a i now rf w ran =
      let (log, disk) = make-IsKnown a.made now (a.cluster.nodes i) w.first ran (w.disks i) in
      record {
        log = log;
        disk = disk;
        kept = λ leads. let idle = make_idle now (a.cluster.nodes i) ran in absurd (ground arith);
      }

  abbrev acting :
      (a b : Cluster C) (i : ℕ) (rf : Raft C) (st : Step (a.nodes i) rf)
      → IsOther st
      → b ≡ record a { nodes = put a.nodes i rf }
      → Move a b
  acting a b i rf st other e = acts i rf st other e

  acts-IsWell :
      (a b : World C) (i : ℕ) (rf : Raft C) (st : Step (a.cluster.nodes i) rf) (other : IsOther st)
      (e : b.cluster ≡ record a.cluster { nodes = put a.cluster.nodes i rf })
      → IsWell a
      → IsSafe b.cluster
      → IsQuiet st
      → IsDelivered a.sent (acting a.cluster b.cluster i rf st other e)
      → b.sent ≡ a.sent
      → b.made ≡ recorded a.made (acting a.cluster b.cluster i rf st other e)
      → IsWell b
  unfolding Move-Acts
  acts-IsWell a b i rf (takes_entries now args reply h) other e w safe quiet (from, d) same made =
      plain a b (Move-Acts (acts i rf (takes_entries now args reply h) other e)) w safe quiet same
        made (takes_entries-IsPlain a i from now args rf reply w d h) (λ to g. inl g)
  acts-IsWell a b i rf (reads_match server args reply h) other e w safe quiet d same made =
      Effect-IsWell a b (Move-Acts (acts i rf (reads_match server args reply h) other e))
        (λ s. s ≡ server) w safe quiet same made
        (on_append_reply-Effect server args reply (a.cluster.nodes i) h)
        (λ to g. inr (λ x. (w.sent _ d).2 (sym g ∙ x)))
  acts-IsWell a b i rf (starts command r h) other e w safe quiet d same made =
      starts-IsWell a b (Move-Acts (acts i rf (starts command r h) other e)) command r h refl w safe
        same made
  acts-IsWell a b i rf (beats now h) other e w safe quiet d same made =
      Effect-IsWell a b (Move-Acts (acts i rf (beats now h) other e)) _ w safe quiet same made
        (heartbeat-Effect now (a.cluster.nodes i) h) (λ to g. inl g)
  acts-IsWell a b i rf (applies index x h) other e w safe quiet d same made =
      Effect-IsWell a b (Move-Acts (acts i rf (applies index x h) other e)) (λ s. Unit) w safe quiet
        same made
        (subst (Effect (λ s. Unit) (a.cluster.nodes i)) (sym h)
          (apply_entry-Effect (λ s. Unit) index x (a.cluster.nodes i)))
        (λ to g. inl g)
  acts-IsWell a b i rf (dies h) other e w safe quiet d same made =
      Effect-IsWell a b (Move-Acts (acts i rf (dies h) other e)) (λ s. Unit) w safe quiet same made
        (kill-Effect (λ s. Unit) (a.cluster.nodes i) h) (λ to g. inl g)
  acts-IsWell a b i rf (restarts now h) other e w safe quiet d same made =
      plain a b (Move-Acts (acts i rf (restarts now h) other e)) w safe quiet same made
        (restarts-IsPlain a i now rf w h) (λ to g. inl g)
  acts-IsWell a b i rf (votes now args h) other e w safe quiet d same made = absurd other
  acts-IsWell a b i rf (campaigns now n t l h) other e w safe quiet d same made = absurd other
  acts-IsWell a b i rf (reads_vote el el' reply h) other e w safe quiet d same made = absurd other

  pub Tick-IsWell : {a b : World C} (t : Tick a b) → IsQuietTick t → IsWell a → IsWell b
  unfolding Move-Acts
  Tick-IsWell {a} {b} (moves (answers i c now args inside candidate e) d same made) q w =
      let m : Move a.cluster b.cluster = answers i c now args inside candidate e in
      Effect-IsWell a b (Move-Acts m) (λ s. Unit) w (Move-IsSafe m q w.safe) tt same made
        (request_vote-Effect (λ s. Unit) now args (a.cluster.nodes i)) (λ to g. inl g)
  Tick-IsWell {a} {b} (moves (campaigning i now n inside term fits e) d same made) q w =
      let m : Move a.cluster b.cluster = campaigning i now n inside term fits e in
      Effect-IsWell a b (Move-Acts m) (λ s. Unit) w (Move-IsSafe m q w.safe) tt same made
        (start_election-Effect (λ s. Unit) now n (a.cluster.nodes i) term fits) (λ to g. inl g)
  Tick-IsWell {a} {b} (moves (counts k v poll reply rf el there new given ran e) d same made) q w =
      let m : Move a.cluster b.cluster = counts k v poll reply rf el there new given ran e in
      Effect-IsWell a b (Move-Acts m) _ w (Move-IsSafe m q w.safe) tt same made
        (on_vote_reply-Effect poll.election reply (a.cluster.nodes poll.peer) ran) (λ to g. inl g)
  Tick-IsWell {a} {b} (moves (acts i rf st other e) d same made) q w =
      acts-IsWell a b i rf st other e w (Move-IsSafe (acts i rf st other e) q w.safe) q d same made
  Tick-IsWell {a} {b} (sends i to args h e) q w =
      let (cut, other) = w.calls i to args h in
      subst IsWell (sym e) (record {
        safe = w.safe;
        chosen = w.chosen;
        chain = w.chain;
        first = w.first;
        makers = w.makers;
        logs = w.logs;
        disks = w.disks;
        full = w.full;
        terms = w.terms;
        ranks = w.ranks;
        calls = w.calls;
        sent = λ s k. elim k [
          | inl new ↦
              subst
                (λ (x : Sent C).
                  IsCut a.made x.args
                  × Elected a.cluster.size a.cluster.ballots x.args.term x.from
                  × (x.to ≢ x.from))
                (sym new) (cut, w.chosen.chosen i to args h, other)
          | inr old ↦ w.sent s old
        ];
      })
