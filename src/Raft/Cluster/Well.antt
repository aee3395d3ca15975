-- ===== src/Raft/Cluster/Well.antt =====
-- What holds between the steps of a cluster with messages: every log was made by leaders.
use raft_kvs.Base.{
  ℕ, ℤ, pos, ◌<ℤ◌, ◌≤ℤ◌, ◌≡◌, ◌≢◌, refl, sym, subst, ◌∙◌, ◌⊎◌, inl, inr, arith, true, false,
  Bool-cases, List, In,
}
use raft_kvs.Persister.{Persister}
use raft_kvs.Raft.Types.{Raft, Gob, send_entries, is_leader, is_candidate, AppendEntriesArgs}
use raft_kvs.Raft.Order.{Later}
use raft_kvs.Raft.Cluster.{Cluster}
use raft_kvs.Raft.Cluster.Invariant.{Elected, IsSafe}
use raft_kvs.Raft.Cluster.Sending.{IsCalm}
use raft_kvs.Raft.Cluster.Makes.{Goes, Step-Sends, Step-IsCalm}
use raft_kvs.Raft.Cluster.Senders.{Acts, Acts-each, Elected-Acts, IsChosen, Move-IsChosen}
use raft_kvs.Raft.Cluster.Logs.{Made, root, IsKnown, IsKnown-mono, IsChain, IsPrefix}
use raft_kvs.Raft.Cluster.Changes.{IsCut, DiskIsKnown}
use raft_kvs.Raft.Cluster.World.{Sent, World}

-- The peer may not become a leader of the term any more.
abbrev pub IsPast : {C : Type 0} → Raft C → ℤ → Type 0
IsPast rf t = (t <ℤ rf.current_term) ⊎ ((rf.current_term ≡ t) × (is_candidate rf.state ≡ false))

-- A peer that was chosen in the term was its leader.
abbrev pub IsLed : {C : Type 0} → Cluster C → ℤ → Type 0
IsLed a t = (pos 0 <ℤ t) × ((c : ℕ) × Elected a.size a.ballots t c × IsPast (a.nodes c) t)

abbrev pub IsActive : {C : Type 0} → Raft C → Type 0
IsActive rf = (is_leader rf.state ≡ true) ⊎ (is_candidate rf.state ≡ true)

-- A leader's log has all that was made in its term.
abbrev pub IsFull : {C : Type 0} → List (Made C) → Raft C → Type 0
IsFull {C} made rf =
    is_leader rf.state ≡ true
    → (p : Made C) → In p made
    → p.term ≡ rf.current_term
    → IsPrefix rf.log p

module _ {C : Type 0} ⦃g : Gob C⦄ where
  pub record IsWell (w : World C) : Type 0 where
    pub safe : IsSafe w.cluster
    pub chosen : IsChosen w.cluster
    pub chain : IsChain w.made
    pub first : In root w.made
    pub makers : (p : Made C) → In p w.made → (p ≡ root) ⊎ IsLed w.cluster p.term
    pub logs : (i : ℕ) → IsKnown w.made (w.cluster.nodes i).log
    pub disks : (i : ℕ) → DiskIsKnown w.made (w.cluster.nodes i).persister
    pub full : (i : ℕ) → IsFull w.made (w.cluster.nodes i)
    pub terms : (i : ℕ) → pos 0 ≤ℤ (w.cluster.nodes i).current_term
    pub ranks : (i : ℕ) → IsActive (w.cluster.nodes i) → pos 0 <ℤ (w.cluster.nodes i).current_term
    pub calls :
        (i to : ℕ) (args : AppendEntriesArgs C)
        → In (send_entries to args) (w.cluster.nodes i).calls
        → IsCut w.made args × (to ≢ i)
    pub sent :
        (s : Sent C)
        → In s w.sent
        → IsCut w.made s.args
          × Elected w.cluster.size w.cluster.ballots s.args.term s.from
          × (s.to ≢ s.from)

  IsCut-mono :
      (old made : List (Made C)) (args : AppendEntriesArgs C)
      → ((p : Made C) → In p old → In p made)
      → IsCut old args
      → IsCut made args
  IsCut-mono old made args more c = record {
    ld = c.ld;
    next = c.next;
    built = c.built;
    known = IsKnown-mono old made c.ld.log more c.known;
  }

  DiskIsKnown-mono :
      (old made : List (Made C)) (p : Persister)
      → ((q : Made C) → In q old → In q made)
      → DiskIsKnown old p
      → DiskIsKnown made p
  DiskIsKnown-mono old made p more (inl none_yet) = inl none_yet
  DiskIsKnown-mono old made p more (inr (s, e, k)) = inr (s, e, IsKnown-mono old made s.log more k)

  IsPast-Later : (a b : Raft C) (t : ℤ) → Later a b → IsCalm a b → IsPast a t → IsPast b t
  IsPast-Later a b t (inl up) calm (inl lt) = inl (omega arith)
  IsPast-Later a b t (inl up) calm (inr (e, idle)) = inl (ground arith)
  IsPast-Later a b t (inr (same, _)) calm (inl lt) = inl (ground arith)
  IsPast-Later a b t (inr (same, _)) calm (inr (e, idle)) =
      elim (Bool-cases (is_candidate b.state)) [
        | inl runs ↦ let was = calm runs same in absurd (ground arith)
        | inr idle' ↦ inr (same ∙ e, idle')
      ]

  pub IsLed-Acts :
      (a b : Cluster C) (m : Acts a b) (t : ℤ)
      → Later (a.nodes m.actor) m.after
      → IsLed a t
      → IsLed b t
  IsLed-Acts a b m t later (up, (c, e, past)) = (
    up,
    (
      c,
      Elected-Acts a b m t c e,
      Acts-each a b m (λ j x. j ≡ c → IsPast x t)
          (λ same.
            IsPast-Later (a.nodes m.actor) m.after t later (Step-IsCalm m.taken)
              (subst (λ k. IsPast (a.nodes k) t) (sym same) past))
          (λ j same. subst (λ k. IsPast (a.nodes k) t) (sym same) past) c refl,
    ),
  )

  -- A step whose peer ends up with a log that was made leaves the world well.
  pub settle :
      (a b : World C) (m : Acts a.cluster b.cluster)
      → IsWell a
      → IsSafe b.cluster
      → Later (a.cluster.nodes m.actor) m.after
      → b.sent ≡ a.sent
      → ((p : Made C) → In p a.made → In p b.made)
      → IsChain b.made
      → ((p : Made C) → In p b.made → In p a.made ⊎ IsLed b.cluster p.term)
      → IsKnown b.made m.after.log
      → DiskIsKnown b.made m.after.persister
      → ((i : ℕ) → IsFull b.made (b.cluster.nodes i))
      → (is_leader m.after.state ≡ true → IsActive (a.cluster.nodes m.actor))
      → ((to : ℕ) → Goes m.taken to → to ≢ m.actor)
      → IsWell b
  settle a b m w safe later same more chain makers log disk full was goes = record {
    safe = safe;
    chosen = Move-IsChosen m safe w.chosen;
    chain = chain;
    first = more root w.first;
    makers = λ p h. elim (makers p h) [
      | inl old ↦ elim (w.makers p old) [
        | inl e ↦ inl e
        | inr led ↦ inr (IsLed-Acts a.cluster b.cluster m p.term later led)
      ]
      | inr led ↦ inr led
    ];
    logs =
        Acts-each a.cluster b.cluster m (λ j x. IsKnown b.made x.log) log
          (λ j. IsKnown-mono a.made b.made (a.cluster.nodes j).log more (w.logs j));
    disks =
        Acts-each a.cluster b.cluster m (λ j x. DiskIsKnown b.made x.persister) disk
          (λ j. DiskIsKnown-mono a.made b.made (a.cluster.nodes j).persister more (w.disks j));
    full = full;
    terms =
        Acts-each a.cluster b.cluster m (λ j x. pos 0 ≤ℤ x.current_term)
          (let old = w.terms m.actor in
            elim later [ inl up ↦ omega arith | inr (t, _) ↦ subst (λ t. pos 0 ≤ℤ t) (sym t) old ])
          w.terms;
    ranks =
        Acts-each a.cluster b.cluster m (λ j x. IsActive x → pos 0 <ℤ x.current_term)
          (λ active.
            let old = w.terms m.actor in
            elim later [
              | inl up ↦ omega arith
              | inr (t, _) ↦
                  subst (λ t. pos 0 <ℤ t) (sym t)
                    (w.ranks m.actor (elim active [
                      | inl leads ↦ was leads
                      | inr runs ↦ inr (Step-IsCalm m.taken runs t)
                    ]))
            ])
          w.ranks;
    calls = λ i to args.
        Acts-each a.cluster b.cluster m
          (λ j x. In (send_entries to args) x.calls → IsCut b.made args × (to ≢ j))
          (λ h. elim (Step-Sends m.taken to args h) [
            | inl old ↦
                let (cut, other) = w.calls m.actor to args old in
                (IsCut-mono a.made b.made args more cut, other)
            | inr (new, dest) ↦ (
              record { ld = m.after; next = new.next; built = new.built; known = log },
              goes to dest,
            )
          ])
          (λ j h.
            let (cut, other) = w.calls j to args h in
            (IsCut-mono a.made b.made args more cut, other))
          i;
    sent = λ s h.
        let (cut, e, other) = w.sent s (subst (λ l. In s l) same h) in
        (
          IsCut-mono a.made b.made s.args more cut,
          Elected-Acts a.cluster b.cluster m s.args.term s.from e,
          other,
        );
  }
