-- ===== src/Raft/Cluster/Matching.antt =====
-- Log Matching: logs that have an entry of one term at one index agree up to it.
use raft_kvs.Base.{
  ℕ, ◌≡◌, ◌⊎◌, refl, sym, ap, subst, ◌∙◌, inl, inr, arith, List, [], ◌∷◌, length, take,
  take_of_length-le, some,
}
use raft_kvs.Raft.Types.{Gob, Stored, LogEntry}
use raft_kvs.Raft.Append.Convergence.{IsMatching}
use raft_kvs.Persister.{Persister}
use raft_kvs.Raft.Cluster.Safety.{start_cluster-IsSafe}
use raft_kvs.Raft.Cluster.Logs.{Made, root, IsKnown, IsKnown-IsMatching, root-IsKnown}
use raft_kvs.Raft.Cluster.Changes.{DiskIsKnown}
use raft_kvs.Raft.Cluster.World.{World, start_world, Ticks, still, and_then, AllQuietTicks}
use raft_kvs.Raft.Cluster.Well.{IsWell}
use raft_kvs.Raft.Cluster.Ticks.{Tick-IsWell}

module _ {C : Type 0} ⦃g : Gob C⦄ where
  DiskIsKnown-holds :
      (made : List (Made C)) (p : Persister) (s : Stored C)
      → DiskIsKnown made p
      → p.raftstate ≡ g.encode s
      → IsKnown made s.log
  DiskIsKnown-holds made p s (inl none_yet) e = absurd (g.encode-ne-nil s (sym e ∙ none_yet))
  DiskIsKnown-holds made p s (inr (s', e', k)) e =
      let h = g.decode-encode s in
      let h' = g.decode-encode s' in
      let same : g.encode s ≡ g.encode s' = sym e ∙ e' in
      let q : some s' ≡ some s = sym h' ∙ ap g.decode (sym same) ∙ h in
      let eq : s' ≡ s = ground arith in subst (λ (x : Stored C). IsKnown made x.log) eq k

  pub start_world-IsWell : (n : ℕ) → IsWell {C = C} (start_world n)
  start_world-IsWell n = record {
    safe = start_cluster-IsSafe n;
    chosen = record { chosen = λ i to args h. absurd h };
    chain = record {
      extends = λ p q hp hq same le. elim hp [
        | inl e ↦ elim hq [
          | inl f ↦
              sym (take_of_length-le (length p.log) p.log (omega arith))
              ∙ ap (λ (m : Made C). take (length p.log) m.log) (e ∙ sym f)
          | inr none_yet ↦ absurd none_yet
        ]
        | inr none_yet ↦ absurd none_yet
      ];
    };
    first = inl refl;
    makers = λ p h. elim h [ inl e ↦ inl e | inr none_yet ↦ absurd none_yet ];
    logs = λ i. root-IsKnown (root ∷ []) (inl refl);
    disks = λ i. inl refl;
    full = λ i leads p h same. cc;
    terms = λ i. omega arith;
    ranks = λ i active. elim active [ inl leads ↦ cc | inr runs ↦ cc ];
    calls = λ i to args h. absurd h;
    sent = λ s h. absurd h;
  }

  pub Ticks-IsWell :
      (n : ℕ) {b : World C} (r : Ticks (start_world n) b) → AllQuietTicks r → IsWell b
  Ticks-IsWell n still q = start_world-IsWell n
  Ticks-IsWell n (and_then r t) (q, quiet) = Tick-IsWell t quiet (Ticks-IsWell n r q)

  -- The log is a peer's, in its memory or on its disk.
  abbrev pub HasLog : World C → ℕ → List (LogEntry C) → Type 0
  HasLog b i l =
      (l ≡ (b.cluster.nodes i).log)
      ⊎ ((s : Stored C) × ((b.cluster.nodes i).persister.raftstate ≡ g.encode s) × (l ≡ s.log))

  HasLog-IsKnown :
      (b : World C) (i : ℕ) (l : List (LogEntry C)) → IsWell b → HasLog b i l → IsKnown b.made l
  HasLog-IsKnown b i l w (inl e) = subst (IsKnown b.made) (sym e) (w.logs i)
  HasLog-IsKnown b i l w (inr (s, on_disk, e)) =
      subst (IsKnown b.made) (sym e)
        (DiskIsKnown-holds b.made (b.cluster.nodes i).persister s (w.disks i) on_disk)

  -- Where two logs, each in a peer's memory or on a peer's disk, have entries of one term at one
  -- index, they agree up to there, in every state that a cluster of any size reaches from empty
  -- disks, whatever messages are lost, delayed, repeated or reordered and whatever peers crash and
  -- restart, if no AppendEntries reaches a candidate in its own term and the terms fit in an `int`.
  pub log-IsMatching :
      (n i j : ℕ) (l m : List (LogEntry C)) {b : World C} (r : Ticks (start_world n) b)
      → AllQuietTicks r
      → HasLog b i l
      → HasLog b j m
      → IsMatching l m
  log-IsMatching n i j l m {b} r quiet p q =
      let w = Ticks-IsWell n r quiet in
      IsKnown-IsMatching b.made l m w.chain (HasLog-IsKnown b i l w p) (HasLog-IsKnown b j m w q)
