-- ===== src/Raft/Order.antt =====
-- The order in which a peer may go through terms and votes.
use raft_kvs.Base.{pos, minus_one, ◌<ℤ◌, ◌≡◌, ◌≢◌, refl, ◌⊎◌, inl, inr, arith, ◌∙◌, sym, ap, []}
use raft_kvs.Persister.{Persister}
use raft_kvs.Raft.Types.{Raft, Stored, Gob}
use raft_kvs.Raft.Persist.{stored}

-- The term has grown, or is the same and a vote that was given is kept.
abbrev pub Later : {C : Type 0} → Raft C → Raft C → Type 0
Later a b =
    (a.current_term <ℤ b.current_term)
    ⊎ ((b.current_term ≡ a.current_term) × (a.voted_for ≢ minus_one → b.voted_for ≡ a.voted_for))

module _ {C : Type 0} where
  pub Later-refl : (a : Raft C) → Later a a
  Later-refl a = inr (refl, λ _. refl)

  pub Later-same :
      (a b : Raft C) → b.current_term ≡ a.current_term → b.voted_for ≡ a.voted_for → Later a b
  Later-same a b t v = inr (t, λ _. v)

  pub Later-trans : (a b c : Raft C) → Later a b → Later b c → Later a c
  Later-trans a b c (inl p) (inl q) = inl (omega arith)
  Later-trans a b c (inl p) (inr q) = inl (ground arith)
  Later-trans a b c (inr p) (inl q) = inl (ground arith)
  Later-trans a b c (inr p) (inr q) = inr (q.0 ∙ p.0, λ h. q.1 (λ e. h (sym (p.1 h) ∙ e)) ∙ p.1 h)

-- The disk has the term and the vote: from the last write, or of a peer that never wrote.
abbrev pub IsStored : {C : Type 0} ⦃g : Gob C⦄ → Raft C → Type 0
IsStored {C} ⦃g⦄ rf =
    ((rf.persister.raftstate ≡ []) × (rf.current_term ≡ pos 0) × (rf.voted_for ≡ minus_one))
    ⊎ ((s : Stored C) × (rf.persister.raftstate ≡ g.encode s)
        × (s.term ≡ rf.current_term)
        × (s.vote ≡ rf.voted_for))

-- An operation changes neither the disk nor what it is to hold, or it writes at the end.
abbrev pub Writes : {C : Type 0} ⦃g : Gob C⦄ → Raft C → Raft C → Type 0
Writes {C} ⦃g⦄ a b =
    ((b.persister ≡ a.persister) × (b.current_term ≡ a.current_term) × (b.voted_for ≡ a.voted_for))
    ⊎ ((s : Stored C) × (b.persister.raftstate ≡ g.encode s)
        × (s.term ≡ b.current_term)
        × (s.vote ≡ b.voted_for))

module _ {C : Type 0} ⦃g : Gob C⦄ where
  pub Writes-trans : (a b c : Raft C) → Writes a b → Writes b c → Writes a c
  Writes-trans a b c (inl (p, t, v)) (inl (q, u, w)) = inl (q ∙ p, u ∙ t, w ∙ v)
  Writes-trans a b c (inr (s, e, t, v)) (inl (q, u, w)) =
      inr (s, ap (λ (x : Persister). x.raftstate) q ∙ e, t ∙ sym u, v ∙ sym w)
  Writes-trans a b c x (inr y) = inr y

  pub Writes-IsStored : (a b : Raft C) → Writes a b → IsStored a → IsStored b
  Writes-IsStored a b (inl (p, t, v)) (inl (q, u, w)) =
      inl (ap (λ (x : Persister). x.raftstate) p ∙ q, t ∙ u, v ∙ w)
  Writes-IsStored a b (inl (p, t, v)) (inr (s, e, u, w)) =
      inr (s, ap (λ (x : Persister). x.raftstate) p ∙ e, u ∙ sym t, w ∙ sym v)
  Writes-IsStored a b (inr y) x = inr y

-- The disk has all that it is to hold, the log too.
abbrev pub IsDurable : {C : Type 0} ⦃g : Gob C⦄ → Raft C → Type 0
IsDurable ⦃g⦄ rf = rf.persister.raftstate ≡ g.encode (stored rf)

-- As `Writes`, for the log too.
abbrev pub WritesAll : {C : Type 0} ⦃g : Gob C⦄ → Raft C → Raft C → Type 0
WritesAll ⦃g⦄ a b = ((b.persister ≡ a.persister) × (stored b ≡ stored a)) ⊎ IsDurable b

module _ {C : Type 0} ⦃g : Gob C⦄ where
  pub WritesAll-Writes : (a b : Raft C) → WritesAll a b → Writes a b
  WritesAll-Writes a b (inl (p, e)) =
      inl (p, ap (λ (s : Stored C). s.term) e, ap (λ (s : Stored C). s.vote) e)
  WritesAll-Writes a b (inr e) = inr (stored b, e, refl, refl)

  pub WritesAll-IsDurable : (a b : Raft C) → WritesAll a b → IsDurable a → IsDurable b
  WritesAll-IsDurable a b (inl (p, e)) d =
      ap (λ (x : Persister). x.raftstate) p ∙ d ∙ ap g.encode (sym e)
  WritesAll-IsDurable a b (inr e) d = e
