-- ===== src/Raft/History/Going.antt =====
-- What every event leaves as it was: what was made and taken, and that terms only grow.
use raft_kvs.Base.{◌≤ℤ◌, ◌≡◌, refl, sym, ap, subst, ◌∙◌, ◌⊎◌, inl, inr, arith, true, Bool, In}
use raft_kvs.Raft.Types.{Raft, Gob, is_leader}
use raft_kvs.Raft.Steps.{
  votes, takes_entries, campaigns, reads_vote, reads_match, starts, beats, applies, dies, restarts,
  IsQuiet,
}
use raft_kvs.Raft.Steps.Votes.{Step-Later}
use raft_kvs.Raft.Cluster.{Move, answers, campaigning, counts, acts, record_if, IsQuietMove}
use raft_kvs.Raft.Cluster.Senders.{
  In-record_if, record_if-cases, Acts, Acts-here, Acts-each, Move-Acts,
}
use raft_kvs.Raft.Cluster.Logs.{Made}
use raft_kvs.Raft.Cluster.World.{World, Tick, moves, sends, IsQuietTick}
use raft_kvs.Raft.History.{Ack, History, node, acking, Events, none_yet, so_far, AllInOrder}
use raft_kvs.Raft.History.Acked.{IsCommitted, IsCommitted-mono, Onward}
use raft_kvs.Raft.History.Sound.{IsSound}
use raft_kvs.Raft.History.Steady.{Later-le}
use raft_kvs.Raft.History.Takes.{taken-IsTaking}
use raft_kvs.Raft.History.Steps.{Event-IsSound}

module _ {C : Type 0} ⦃g : Gob C⦄ where
  -- What a step takes is of the term of its peer.
  acts-Onward :
      (a b : History C) (m : Acts a.world.cluster b.world.cluster)
      → IsSound a
      → IsQuiet m.taken
      → ((p : Made C) → In p a.world.made → In p b.world.made)
      → ((k : Ack) → In k a.acks → In k b.acks)
      → ((k : Ack)
          → In k b.acks
          → In k a.acks ⊎ ((k.voter ≡ m.actor) × (k.term ≡ m.after.current_term)))
      → Onward a b
  acts-Onward a b m s quiet made acks fresh = record {
    size = m.size;
    terms =
        Acts-each a.world.cluster b.world.cluster m
          (λ v x. (node a v).current_term ≤ℤ x.current_term)
          (Later-le (node a m.actor) m.after
            (Step-Later m.taken (s.well.safe.on_disk m.actor) quiet))
          (λ v. omega arith);
    made = made;
    acks = acks;
    fresh = λ k h. elim (fresh k h) [
      | inl old ↦ inl old
      | inr (voter, term) ↦ inr (
          term
          ∙ sym (ap (λ (x : Raft C). x.current_term) (Acts-here a.world.cluster b.world.cluster m))
          ∙ ap (λ x. (node b x).current_term) (sym voter))
    ];
  }

  IsQuiet-taken :
      (a b : World C) (m : Move a.cluster b.cluster) → IsQuietMove m → IsQuiet (Move-Acts m).taken
  unfolding Move-Acts
  IsQuiet-taken a b (answers i c now args inside candidate e) q = tt
  IsQuiet-taken a b (campaigning i now n inside term fits e) q = tt
  IsQuiet-taken a b (counts k v poll reply rf el there new given ran e) q = tt
  IsQuiet-taken a b (acts i rf st other e) q = q

  -- A step of which no record is kept.
  unrecorded :
      (a b : History C) (m : Move a.world.cluster b.world.cluster)
      → IsSound a
      → IsQuietMove m
      → b.world.made ≡ a.world.made
      → b.acks ≡ a.acks
      → Onward a b
  unrecorded a b m s quiet made acks =
      acts-Onward a b (Move-Acts m) s (IsQuiet-taken a.world b.world m quiet)
        (λ p h. subst (In p) (sym made) h) (λ k h. subst (In k) (sym acks) h)
        (λ k h. inl (subst (In k) acks h))

  recorded_by :
      (a b : History C) (m : Move a.world.cluster b.world.cluster) (taken : Bool) (x : Ack)
      → IsSound a
      → IsQuietMove m
      → ((p : Made C) → In p a.world.made → In p b.world.made)
      → b.acks ≡ record_if taken x a.acks
      → (taken ≡ true
          → (x.voter ≡ (Move-Acts m).actor) × (x.term ≡ (Move-Acts m).after.current_term))
      → Onward a b
  recorded_by a b m taken x s quiet made acks is =
      acts-Onward a b (Move-Acts m) s (IsQuiet-taken a.world b.world m quiet) made
        (λ k h. subst (In k) (sym acks) (In-record_if taken x k a.acks h))
        (λ k h. elim (record_if-cases taken x k a.acks (subst (In k) acks h)) [
          | inl old ↦ inl old
          | inr (yes_taken, same) ↦
              let (voter, term) = is yes_taken in
              inr (ap (λ (y : Ack). y.voter) same ∙ voter, ap (λ (y : Ack). y.term) same ∙ term)
        ])

  Tick-Onward :
      (a b : History C) (t : Tick a.world b.world)
      → b.acks ≡ acking a.acks t
      → IsQuietTick t
      → IsSound a
      → Onward a b
  unfolding Move-Acts
  Tick-Onward a b (sends i to args h e) acks quiet s = record {
    size = ap (λ (x : World C). x.cluster.size) e;
    terms = λ v.
        subst (λ (x : World C). (node a v).current_term ≤ℤ (x.cluster.nodes v).current_term) (sym e)
          (omega arith);
    made = λ p h'. subst (λ (x : World C). In p x.made) (sym e) h';
    acks = λ k h'. subst (In k) (sym acks) h';
    fresh = λ k h'. inl (subst (In k) acks h');
  }
  Tick-Onward a b (moves (answers i c now args inside of_c e) d sent made) acks quiet s =
      unrecorded a b (answers i c now args inside of_c e) s tt made acks
  Tick-Onward a b (moves (campaigning i now n inside term fits e) d sent made) acks quiet s =
      unrecorded a b (campaigning i now n inside term fits e) s tt made acks
  Tick-Onward a b (moves (counts k v poll reply rf el there new given ran e) d sent made) acks quiet
        s =
      unrecorded a b (counts k v poll reply rf el there new given ran e) s tt made acks
  Tick-Onward a b (moves (acts i rf (takes_entries now args reply ran) other e) d sent made) acks
        quiet s =
      recorded_by a b (acts i rf (takes_entries now args reply ran) other e) reply.success _ s quiet
        (λ p h. subst (In p) (sym made) h) acks
        (λ success. (refl, sym (taken-IsTaking now args (node a i) ran success).term))
  Tick-Onward a b (moves (acts i rf (starts command r ran) other e) d sent made) acks quiet s =
      recorded_by a b (acts i rf (starts command r ran) other e) (is_leader (node a i).state) _ s tt
        (λ p h. subst (In p) (sym made) (In-record_if _ _ p a.world.made h)) acks
        (λ leads. (refl, refl))
  Tick-Onward a b (moves (acts i rf (reads_match server args reply ran) other e) d sent made) acks
        quiet s =
      unrecorded a b (acts i rf (reads_match server args reply ran) other e) s tt made acks
  Tick-Onward a b (moves (acts i rf (restarts now ran) other e) d sent made) acks quiet s =
      unrecorded a b (acts i rf (restarts now ran) other e) s tt made acks
  Tick-Onward a b (moves (acts i rf (beats now ran) other e) d sent made) acks quiet s =
      unrecorded a b (acts i rf (beats now ran) other e) s tt made acks
  Tick-Onward a b (moves (acts i rf (applies index y h) other e) d sent made) acks quiet s =
      unrecorded a b (acts i rf (applies index y h) other e) s tt made acks
  Tick-Onward a b (moves (acts i rf (dies ran) other e) d sent made) acks quiet s =
      unrecorded a b (acts i rf (dies ran) other e) s tt made acks
  Tick-Onward a b (moves (acts i rf (votes now args h) other e) d sent made) acks quiet s =
      absurd other
  Tick-Onward a b (moves (acts i rf (campaigns now n x l h) other e) d sent made) acks quiet s =
      absurd other
  Tick-Onward a b (moves (acts i rf (reads_vote x y reply h) other e) d sent made) acks quiet s =
      absurd other

  -- What is committed stays so.
  pub Events-IsCommitted :
      {a b : History C} (r : Events a b) (p : Made C)
      → AllInOrder r
      → IsSound a
      → In p a.world.made
      → IsCommitted a p
      → IsSound b × In p b.world.made × IsCommitted b p
  Events-IsCommitted none_yet p q s in_p most = (s, in_p, most)
  Events-IsCommitted (so_far {b} {c} r x) p (q, quiet, order) s in_p most =
      let (sound, there, committed) = Events-IsCommitted r p q s in_p most in
      let o = Tick-Onward b c x.tick x.acks quiet sound in
      (Event-IsSound x quiet order sound, o.made p there, IsCommitted-mono b c p o committed)
