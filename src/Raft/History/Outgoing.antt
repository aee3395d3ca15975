-- ===== src/Raft/History/Outgoing.antt =====
-- A request that is sent leaves a history as it should be.
use raft_kvs.Base.{ℕ, ◌≡◌, refl, sym, ap, subst, ◌∙◌, inl, inr, arith, List, ◌∷◌, In}
use raft_kvs.Raft.Types.{Gob, RequestVoteArgs, AppendEntriesArgs, send_entries}
use raft_kvs.Raft.Cluster.World.{Sent, World}
use raft_kvs.Raft.Cluster.Well.{IsWell}
use raft_kvs.Raft.History.{Ack, History, node}
use raft_kvs.Raft.History.Acked.{Keeps-mono, Onward}
use raft_kvs.Raft.History.Sound.{IsFinal-mono, IsApt, IsFine, IsSound}

module _ {C : Type 0} where
  abbrev with_sent : History C → Sent C → History C
  with_sent a x = record {
    world = record a.world { sent = x ∷ a.world.sent };
    asked = a.asked;
    acks = a.acks;
  }

  Onward-with_sent : (a : History C) (x : Sent C) → Onward a (with_sent a x)
  Onward-with_sent a x = record {
    size = refl;
    terms = λ v. omega arith;
    made = λ p h. h;
    acks = λ k h. h;
    fresh = λ k h. inl h;
  }

  IsApt-with_sent :
      (a : History C) (x : Sent C) (args : AppendEntriesArgs C)
      → IsApt a args
      → IsApt (with_sent a x) args
  IsApt-with_sent a x args r = record {
    ld = r.ld;
    next = r.next;
    built = r.built;
    known = r.known;
    led = r.led;
    below = r.below;
    older =
        λ p h lt. Keeps-mono a (with_sent a x) r.ld.log p (Onward-with_sent a x) (r.older p h lt);
    same = r.same;
    leads = r.leads;
    final =
        IsFinal-mono a (with_sent a x) r.ld.log args.leader_commit args.term args.term
          (Onward-with_sent a x) (omega arith) r.final;
  }

module _ {C : Type 0} ⦃g : Gob C⦄ where
  IsFine-with_sent :
      (a : History C) (x : Sent C) (i : ℕ)
      → IsFine a i (node a i)
      → IsFine (with_sent a x) i (node a i)
  IsFine-with_sent a x i f =
      let rf = node a i in
      let o = Onward-with_sent a x in
      record {
        below = f.below;
        disk = f.disk;
        keeps = λ p h took. Keeps-mono a (with_sent a x) rf.log p o (f.keeps p h took);
        final =
            IsFinal-mono a (with_sent a x) rf.log rf.commit_index rf.current_term rf.current_term o
              (omega arith) f.final;
        inside = f.inside;
        heir = λ leads p h lt. Keeps-mono a (with_sent a x) rf.log p o (f.heir leads p h lt);
        own = f.own;
        bound = f.bound;
        matched = f.matched;
        runs = λ runs v h of_term mine p in_p took lt.
            Keeps-mono a (with_sent a x) rf.log p o (f.runs runs v h of_term mine p in_p took lt);
        asks = f.asks;
      }

  pub sends-IsSound :
      (a b : History C) (i to : ℕ) (args : AppendEntriesArgs C)
      → In (send_entries to args) (node a i).calls
      → b.world ≡ record a.world { sent = record { from = i; to = to; args = args } ∷ a.world.sent }
      → b.asked ≡ a.asked
      → b.acks ≡ a.acks
      → IsSound a
      → IsWell b.world
      → IsSound b
  sends-IsSound a b i to args there e asked acks s w =
      let x : Sent C = record { from = i; to = to; args = args } in
      let c = with_sent a x in
      let o = Onward-with_sent a x in
      let same : c ≡ b =
        ap (λ (y : World C). record { world = y; asked = a.asked; acks = a.acks }) (sym e)
        ∙ ap (λ (y : List RequestVoteArgs). record { world = b.world; asked = y; acks = a.acks })
            (sym asked)
        ∙ ap (λ (y : List Ack). record { world = b.world; asked = b.asked; acks = y }) (sym acks) in
      subst IsSound same (record {
        well = subst IsWell e w;
        rising = s.rising;
        ended = s.ended;
        order = λ p q hp hq lt. Keeps-mono a c q.log p o (s.order p q hp hq lt);
        acks = s.acks;
        asked = s.asked;
        ballots = s.ballots;
        fine = λ j. IsFine-with_sent a x j (s.fine j);
        calls = λ j v r h. IsApt-with_sent a x r (s.calls j v r h);
        sent = λ y h. elim h [
          | inl is ↦
              IsApt-with_sent a x y.args
                (subst (λ (z : Sent C). IsApt a z.args) (sym is) (s.calls i to args there))
          | inr old ↦ IsApt-with_sent a x y.args (s.sent y old)
        ];
      })
