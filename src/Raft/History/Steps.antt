-- ===== src/Raft/History/Steps.antt =====
-- Every event keeps a history as it should be.
use raft_kvs.Base.{
  ℕ, ℤ, pos, ◌≡◌, refl, sym, ap, subst, ◌∙◌, inl, inr, arith, Bool, none, length, Bool-cases, [],
  ◌∷◌, ok, In,
}
use raft_kvs.Raft.Types.{Raft, Gob, is_leader}
use raft_kvs.Raft.Node.{start}
use raft_kvs.Raft.Node.Start.{start_lem}
use raft_kvs.Raft.Steps.{
  Step, votes, takes_entries, campaigns, reads_vote, reads_match, starts, beats, applies, dies,
  restarts,
}
use raft_kvs.Raft.Steps.Votes.{Step-Later}
use raft_kvs.Raft.Cluster.{Cluster, put, answers, campaigning, counts, acts, record_if}
use raft_kvs.Raft.Cluster.Effects.{heartbeat-Effect, apply_entry-Effect, kill-Effect, Effect}
use raft_kvs.Raft.Cluster.Logs.{Made, root}
use raft_kvs.Raft.Cluster.World.{Tick, moves, sends, IsQuietTick}
use raft_kvs.Raft.Cluster.Well.{IsWell}
use raft_kvs.Raft.Cluster.Ticks.{Tick-IsWell}
use raft_kvs.Raft.Cluster.Matching.{start_world-IsWell}
use raft_kvs.Raft.Steps.Roles.{Step-Stays}
use raft_kvs.Raft.History.{
  History, node, start_history, asking, acking, IsTold, Event, Events, none_yet, so_far, IsOrdered,
  AllInOrder,
}
use raft_kvs.Raft.History.Sound.{IsEnded, IsBelow, IsSound}
use raft_kvs.Raft.History.Same.{one_acts, rests-IsSound}
use raft_kvs.Raft.Cluster.Plain.{ne_of_lt}
use raft_kvs.Raft.Order.{WritesAll}
use raft_kvs.Raft.History.Unmoved.{IsUnmoved}
use raft_kvs.Raft.History.Rests.{
  IsUnmoved-refl, heartbeat-IsUnmoved, apply_entry-IsUnmoved, kill-IsUnmoved,
}
use raft_kvs.Raft.History.Elections.{answers-IsSound, counts-IsSound}
use raft_kvs.Raft.History.Campaigns.{campaigning-IsSound}
use raft_kvs.Raft.History.Starts.{start-IsStarted}
use raft_kvs.Raft.History.Started.{starts-IsSound}
use raft_kvs.Raft.History.Handles.{takes_entries-IsSound}
use raft_kvs.Raft.History.Commits.{reads_match-IsSound}
use raft_kvs.Raft.History.Restarts.{restarts-IsSound, root-IsBelow}
use raft_kvs.Raft.History.Outgoing.{sends-IsSound}

module _ {C : Type 0} ⦃g : Gob C⦄ where
  command-IsSound :
      (a b : History C) (i : ℕ) (rf : Raft C) (command : C) (r : ℤ × ℤ × Bool)
      (ran : start command (node a i) ≡ ok (rf, r))
      → b.world.cluster ≡ record a.world.cluster { nodes = put a.world.cluster.nodes i rf }
      → IsSound a
      → IsWell b.world
      → b.world.sent ≡ a.world.sent
      → b.world.made
        ≡ record_if
            (is_leader (node a i).state)
            (record { log = rf.log; term = rf.current_term })
            a.world.made
      → b.acks
        ≡ record_if
            (is_leader (node a i).state)
            (record { voter = i; term = rf.current_term; length = length rf.log })
            a.acks
      → b.asked ≡ a.asked
      → IsSound b
  command-IsSound a b i rf command r ran e s w sent made acks asked =
      let st : Step (node a i) rf = starts command r ran in
      elim (Bool-cases (is_leader (node a i).state)) [
        | inl leads ↦
            starts-IsSound a b (one_acts a.world.cluster b.world.cluster i rf st e) _ s w
              (Step-Later st (s.well.safe.on_disk i) tt)
              (start-IsStarted command (node a i) ran leads) (rw leads at made) (rw leads at acks)
              asked (ap (λ (y : Cluster C). y.ballots) e) sent
        | inr idle ↦
            let (leads_same, _, not_led, _) = start_lem command (node a i) ran in
            let same = (not_led (leads_same ∙ idle)).0 in
            rests-IsSound a b i rf st e tt (Step-Stays st tt).led s w sent (rw idle at made)
              (rw idle at acks) asked (ap (λ (y : Raft C). y.log) same)
              (subst (WritesAll (node a i)) (sym same) (inl (refl, refl)))
              (subst (IsUnmoved (node a i)) (sym same) (IsUnmoved-refl (node a i)))
      ]

  Tick-IsSound :
      (a b : History C) (t : Tick a.world b.world)
      → IsTold a.asked a.acks t
      → b.asked ≡ asking a.asked t
      → b.acks ≡ acking a.acks t
      → IsQuietTick t
      → IsOrdered t
      → IsSound a
      → IsSound b
  Tick-IsSound a b (sends i to args h e) told asked acks quiet order s =
      sends-IsSound a b i to args h e asked acks s (Tick-IsWell (sends i to args h e) quiet s.well)
  Tick-IsSound a b (moves (answers i c now args inside of_c e) d sent made) told asked acks quiet
        order s =
      answers-IsSound a b i c now args inside of_c e s
        (Tick-IsWell (moves (answers i c now args inside of_c e) d sent made) quiet s.well) told
        sent made acks asked
  Tick-IsSound a b (moves (campaigning i now n inside term fits e) d sent made) told asked acks
        quiet order s =
      campaigning-IsSound a b i now n term fits e s
        (Tick-IsWell (moves (campaigning i now n inside term fits e) d sent made) quiet s.well) sent
        made acks asked
  Tick-IsSound a b (moves (counts k v poll reply rf el there new given ran e) d sent made) told
        asked acks quiet order s =
      counts-IsSound a b k v poll reply rf el ran e s
        (Tick-IsWell (moves (counts k v poll reply rf el there new given ran e) d sent made) quiet
          s.well)
        sent made acks asked
  Tick-IsSound a b (moves (acts i rf (takes_entries now args reply ran) other e) d sent made) told
        asked acks quiet order s =
      takes_entries-IsSound a b i d.0 now args reply rf ran e s
        (Tick-IsWell (moves (acts i rf (takes_entries now args reply ran) other e) d sent made)
          quiet s.well)
        quiet d.1 order sent made acks asked
  Tick-IsSound a b (moves (acts i rf (reads_match server args reply ran) other e) d sent made) told
        asked acks quiet order s =
      reads_match-IsSound a b i server args reply rf ran e s
        (Tick-IsWell (moves (acts i rf (reads_match server args reply ran) other e) d sent made)
          quiet s.well)
        told sent made acks asked
  Tick-IsSound a b (moves (acts i rf (starts command r ran) other e) d sent made) told asked acks
        quiet order s =
      command-IsSound a b i rf command r ran e s
        (Tick-IsWell (moves (acts i rf (starts command r ran) other e) d sent made) quiet s.well)
        sent made acks asked
  Tick-IsSound a b (moves (acts i rf (restarts now ran) other e) d sent made) told asked acks quiet
        order s =
      restarts-IsSound a b i now rf ran e s
        (Tick-IsWell (moves (acts i rf (restarts now ran) other e) d sent made) quiet s.well) sent
        made acks asked
  Tick-IsSound a b (moves (acts i rf (beats now ran) other e) d sent made) told asked acks quiet
        order s =
      let x = heartbeat-Effect now (node a i) ran in
      rests-IsSound a b i rf (beats now ran) e tt (Step-Stays (beats now ran) tt).led s
        (Tick-IsWell (moves (acts i rf (beats now ran) other e) d sent made) quiet s.well) sent made
        acks asked x.log x.disk (heartbeat-IsUnmoved now (node a i) ran)
  Tick-IsSound a b (moves (acts i rf (applies index y h) other e) d sent made) told asked acks quiet
        order s =
      let x =
        subst (Effect (λ _. Unit) (node a i)) (sym h)
          (apply_entry-Effect (λ _. Unit) index y (node a i)) in
      rests-IsSound a b i rf (applies index y h) e tt (Step-Stays (applies index y h) tt).led s
        (Tick-IsWell (moves (acts i rf (applies index y h) other e) d sent made) quiet s.well) sent
        made acks asked x.log x.disk
        (subst (IsUnmoved (node a i)) (sym h) (apply_entry-IsUnmoved index y (node a i)))
  Tick-IsSound a b (moves (acts i rf (dies ran) other e) d sent made) told asked acks quiet order
        s =
      let x = kill-Effect (λ _. Unit) (node a i) ran in
      rests-IsSound a b i rf (dies ran) e tt (Step-Stays (dies ran) tt).led s
        (Tick-IsWell (moves (acts i rf (dies ran) other e) d sent made) quiet s.well) sent made acks
        asked x.log x.disk (kill-IsUnmoved (node a i) ran)
  Tick-IsSound a b (moves (acts i rf (votes now args h) other e) d sent made) told asked acks quiet
        order s =
      absurd other
  Tick-IsSound a b (moves (acts i rf (campaigns now n x l h) other e) d sent made) told asked acks
        quiet order s =
      absurd other
  Tick-IsSound a b (moves (acts i rf (reads_vote x y reply h) other e) d sent made) told asked acks
        quiet order s =
      absurd other

  start_history-IsSound : (n : ℕ) → IsSound {C = C} (start_history n)
  start_history-IsSound n =
      let only : (p : Made C) → In p (root ∷ []) → p ≡ root =
        λ p h. elim h [ inl e ↦ e | inr none_there ↦ absurd none_there ] in
      record {
        well = start_world-IsWell n;
        rising = λ p h.
            subst (λ (x : Made C). IsBelow x.term x.log) (sym (only p h))
              (root-IsBelow (pos 0) (omega arith));
        ended = λ p h. subst IsEnded (sym (only p h)) (record {
          last = 0;
          entry = record { term = pos 0; command = none };
          long = refl;
          there = refl;
          of_term = refl;
        });
        order = λ p q hp hq lt.
            absurd (
              ne_of_lt p.term q.term lt
                (ap (λ (x : Made C). x.term) (only p hp ∙ sym (only q hq))));
        acks = λ k h. absurd h;
        asked = λ q h. absurd h;
        ballots = λ v h. absurd h;
        fine = λ i. record {
          below = root-IsBelow (pos 0) (omega arith);
          disk = λ s e. absurd (g.encode-ne-nil s (sym e));
          keeps = λ p h took. absurd took.1;
          final = inl refl;
          inside = λ leads. cc;
          heir = λ leads. cc;
          own = λ leads. cc;
          bound = λ leads. cc;
          matched = λ leads. cc;
          runs = λ runs. cc;
          asks = λ runs. cc;
        };
        calls = λ i to args h. absurd h;
        sent = λ x h. absurd h;
      }

  pub Event-IsSound :
      {a b : History C} (x : Event a b)
      → IsQuietTick x.tick
      → IsOrdered x.tick
      → IsSound a
      → IsSound b
  Event-IsSound {a} {b} x quiet order s =
      Tick-IsSound a b x.tick x.told x.asked x.acks quiet order s

  pub Events-IsSound :
      (n : ℕ) {b : History C} (r : Events (start_history n) b) → AllInOrder r → IsSound b
  Events-IsSound n none_yet q = start_history-IsSound n
  Events-IsSound n (so_far r x) (q, quiet, order) =
      Event-IsSound x quiet order (Events-IsSound n r q)
