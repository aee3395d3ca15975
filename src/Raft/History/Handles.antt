-- ===== src/Raft/History/Handles.antt =====
-- The AppendEntries handler keeps a history as it should be.
use raft_kvs.Base.{
  ℕ, ◌≤◌, ◌≡◌, ◌≢◌, refl, sym, ap, subst, ◌∙◌, inl, inr, true, length, get_elem?, some, ok, In,
  Bool-cases,
}
use raft_kvs.Raft.Types.{Raft, Gob, LogEntry, AppendEntriesArgs, AppendEntriesReply, is_candidate}
use raft_kvs.Raft.Append.{append_entries}
use raft_kvs.Raft.Steps.{Step, takes_entries}
use raft_kvs.Raft.Steps.Votes.{Step-Later}
use raft_kvs.Raft.Cluster.{Cluster, put, record_if}
use raft_kvs.Raft.Steps.Roles.{Step-Stays}
use raft_kvs.Raft.Cluster.Well.{IsWell}
use raft_kvs.Raft.History.{History, node}
use raft_kvs.Raft.History.Sound.{IsBelow, IsSound}
use raft_kvs.Raft.Cluster.Changes.{IsCut, append_entries_whole}
use raft_kvs.Raft.Cluster.Entries.{only_root}
use raft_kvs.Raft.History.Takes.{taken-IsTaking, refused-IsUnmoved}
use raft_kvs.Raft.History.Same.{one_acts, rests-IsSound}
use raft_kvs.Raft.History.Accepts.{taken-DiskIsFine, nobody_leads, taken-IsSound}

module _ {C : Type 0} ⦃g : Gob C⦄ where
  -- A peer handles a request that was sent to it, and takes its entries in order, or refuses it.
  pub takes_entries-IsSound :
      (a b : History C) (i from now : ℕ) (args : AppendEntriesArgs C) (reply : AppendEntriesReply)
      (rf : Raft C) (ran : append_entries now args (node a i) ≡ ok (rf, reply))
      → b.world.cluster ≡ record a.world.cluster { nodes = put a.world.cluster.nodes i rf }
      → IsSound a
      → IsWell b.world
      → (is_candidate (node a i).state ≡ true → args.term ≢ (node a i).current_term)
      → In (record { from = from; to = i; args = args }) a.world.sent
      → (reply.success ≡ true
          → (k : ℕ) (x : LogEntry C) → length rf.log ≤ k
          → get_elem? (node a i).log k ≡ some x
          → x.term ≢ args.term)
      → b.world.sent ≡ a.world.sent
      → b.world.made ≡ a.world.made
      → b.acks
        ≡ record_if reply.success
            (record { voter = i; term = args.term; length = length rf.log })
            a.acks
      → b.asked ≡ a.asked
      → IsSound b
  takes_entries-IsSound a b i from now args reply rf ran e s w quiet in_x order sent made acks
        asked =
      let old = node a i in
      let st : Step old rf = takes_entries now args reply ran in
      let m = one_acts a.world.cluster b.world.cluster i rf st e in
      elim (Bool-cases reply.success) [
        | inr refused ↦
            let (u, writes, log) = refused-IsUnmoved now args old ran refused in
            rests-IsSound a b i rf st e quiet (Step-Stays st tt).led s w sent made
              (acks ∙ rw refused refl) asked log writes u
        | inl success ↦
            let x = s.sent _ in_x in
            let k = taken-IsTaking now args old ran success in
            let cut : IsCut a.world.made args = record {
              ld = x.ld;
              next = x.next;
              built = x.built;
              known = x.known;
            } in
            let same =
              append_entries_whole a.world.made now args old cut s.well.chain
                (only_root a.world s.well) (s.well.logs i) ran success in
            let below : IsBelow rf.current_term rf.log =
              subst (λ u. IsBelow u rf.log) (sym k.term)
                (subst (IsBelow args.term) (sym same) x.below) in
            let f = s.fine i in
            taken-IsSound a b m args s w (Step-Later st (s.well.safe.on_disk i) quiet) x k same
              (taken-DiskIsFine now args old ran k f.below below f.disk)
              (record { order = λ j y le there. order success j y le there })
              (λ leads. nobody_leads a b m _ s in_x refl k.term leads quiet) made
              (acks ∙ rw success refl) asked (ap (λ (y : Cluster C). y.ballots) e) sent
      ]
