-- ===== src/Raft/History/Acked.antt =====
-- What peers took of a log that a leader made: whether it is committed, or never will be.
use raft_kvs.Base.{
  ℕ, ◌*◌, ◌≤◌, ◌<◌, ℤ, ◌<ℤ◌, ◌≤ℤ◌, ◌==ℤ◌, ==ℤ_iff, ◌≡◌, refl, sym, ap, subst, ◌∙◌, ◌⊎◌, inl, inr,
  arith, Bool-cases, List, [], ◌∷◌, length, In, Distinct, majorities_meet, dec_le, ℕ_discrete,
}
use raft_kvs.Raft.Types.{LogEntry}
use raft_kvs.Raft.Cluster.Logs.{Made}
use raft_kvs.Raft.History.{Ack, History, node}
use raft_kvs.Raft.History.Prefixes.{IsPre, IsPre-trans}

-- The voter took `n` entries at least of the leader of term `t`.
abbrev pub Took : List Ack → ℕ → ℤ → ℕ → Type 0
Took acks v t n = (k : Ack) × In k acks × (k.voter ≡ v) × (k.term ≡ t) × (n ≤ k.length)

Took-there :
    (k : Ack) (acks : List Ack) (v : ℕ) (t : ℤ) (n : ℕ) → Took acks v t n → Took (k ∷ acks) v t n
Took-there k acks v t n (j, h, at_v, of_term, long) = (j, inr h, at_v, of_term, long)

-- It took them, or it did not.
pub dec-Took : (acks : List Ack) (v : ℕ) (t : ℤ) (n : ℕ) → Took acks v t n ⊎ (Took acks v t n → ⊥)
dec-Took [] v t n = inr (λ h. absurd h.1)
dec-Took (k ∷ acks) v t n = elim (dec-Took acks v t n) [
  | inl old ↦ inl (Took-there k acks v t n old)
  | inr none_old ↦
      let skip : ((k.voter ≡ v) × (k.term ≡ t) × (n ≤ k.length) → ⊥) → Took (k ∷ acks) v t n → ⊥ =
        λ miss. λ h. elim h.1 [
          | inl e ↦
              miss (
                subst (λ (x : Ack). (x.voter ≡ v) × (x.term ≡ t) × (n ≤ x.length)) e
                  (h.2, h.3, h.4))
          | inr old ↦ none_old (h.0, old, h.2, h.3, h.4)
        ] in
      elim (ℕ_discrete k.voter v) [
        | no other ↦ inr (skip (λ h. other h.0))
        | yes same ↦ elim (Bool-cases (k.term ==ℤ t)) [
          | inr differ ↦ inr (skip (λ h. let x = (==ℤ_iff k.term t).1 h.1 in cc))
          | inl of_term ↦ elim (dec_le n k.length) [
            | no short ↦ inr (skip (λ h. short h.2))
            | yes long ↦ inl (k, inl refl, same, (==ℤ_iff k.term t).0 of_term, long)
          ]
        ]
      ]
]

-- One of the peers took them, or none did.
pub some-Took :
    (acks : List Ack) (t : ℤ) (n : ℕ) (vs : List ℕ)
    → ((v : ℕ) × In v vs × Took acks v t n) ⊎ ((v : ℕ) → In v vs → Took acks v t n → ⊥)
some-Took acks t n [] = inr (λ v h took. h)
some-Took acks t n (v ∷ vs) = elim (dec-Took acks v t n) [
  | inl took ↦ inl (v, inl refl, took)
  | inr missed ↦ elim (some-Took acks t n vs) [
    | inl (w, h, took) ↦ inl (w, inr h, took)
    | inr others ↦ inr (λ w h took. elim h [
      | inl e ↦ missed (subst (λ x. Took acks x t n) e took)
      | inr old ↦ others w old took
    ])
  ]
]

not_back : (t u y : ℤ) → t <ℤ y → u ≡ y → u ≡ t → ⊥
not_back t u y lt e f =
    let back : y <ℤ y = subst (λ z. z <ℤ y) (sym f ∙ e) lt in omega (arith, back)

module _ {C : Type 0} where
  -- The peer took the log that was made, in the term in which it was made.
  abbrev pub Acked : List Ack → ℕ → Made C → Type 0
  Acked acks v p = Took acks v p.term (length p.log)

  -- A majority took the log in the term in which it was made.
  pub record IsCommitted (w : History C) (p : Made C) : Type 0 where
    pub voters : List ℕ
    pub distinct : Distinct voters
    pub inside : (v : ℕ) → In v voters → v < w.world.cluster.size
    pub took : (v : ℕ) → In v voters → Acked w.acks v p
    pub most : w.world.cluster.size < 2 * length voters

  -- A majority is in a later term, and did not take the log.
  pub record IsDead (w : History C) (p : Made C) : Type 0 where
    pub voters : List ℕ
    pub distinct : Distinct voters
    pub inside : (v : ℕ) → In v voters → v < w.world.cluster.size
    pub past : (v : ℕ) → In v voters → p.term <ℤ (node w v).current_term
    pub missed : (v : ℕ) → In v voters → Acked w.acks v p → ⊥
    pub most : w.world.cluster.size < 2 * length voters

  pub committed_or_dead : (w : History C) (p : Made C) → IsCommitted w p → IsDead w p → ⊥
  committed_or_dead w p c d =
      let (v, in_c, in_d) =
        majorities_meet w.world.cluster.size c.voters d.voters c.distinct d.distinct c.inside
          d.inside c.most d.most in
      d.missed v in_d (c.took v in_c)

  -- The log has what was made, if that may be committed.
  abbrev pub Keeps : History C → List (LogEntry C) → Made C → Type 0
  Keeps w l p = IsPre p.log l ⊎ IsDead w p

  -- What becomes of the peers: terms grow, and what a peer takes is of its term.
  pub record Onward (a b : History C) : Type 0 where
    pub size : b.world.cluster.size ≡ a.world.cluster.size
    pub terms : (v : ℕ) → (node a v).current_term ≤ℤ (node b v).current_term
    pub made : (p : Made C) → In p a.world.made → In p b.world.made
    pub acks : (k : Ack) → In k a.acks → In k b.acks
    pub fresh : (k : Ack) → In k b.acks → In k a.acks ⊎ (k.term ≡ (node b k.voter).current_term)

  pub Acked-mono :
      (a b : History C) (v : ℕ) (p : Made C) → Onward a b → Acked a.acks v p → Acked b.acks v p
  Acked-mono a b v p o (k, h, at_v, of_term, long) = (k, o.acks k h, at_v, of_term, long)

  -- A peer takes nothing of an earlier term than its own.
  pub Acked-back :
      (a b : History C) (v : ℕ) (p : Made C)
      → Onward a b
      → p.term <ℤ (node b v).current_term
      → Acked b.acks v p
      → Acked a.acks v p
  Acked-back a b v p o past (k, h, at_v, of_term, long) = elim (o.fresh k h) [
    | inl old ↦ (k, old, at_v, of_term, long)
    | inr now ↦ absurd (
        not_back p.term k.term (node b v).current_term past
          (now ∙ ap (λ x. (node b x).current_term) at_v) of_term)
  ]

  pub IsDead-mono : (a b : History C) (p : Made C) → Onward a b → IsDead a p → IsDead b p
  IsDead-mono a b p o d = record {
    voters = d.voters;
    distinct = d.distinct;
    inside = λ v h. subst (λ n. v < n) (sym o.size) (d.inside v h);
    past = λ v h. let past = d.past v h in let up = o.terms v in omega arith;
    missed = λ v h took.
        d.missed v h
          (Acked-back a b v p o (let past = d.past v h in let up = o.terms v in omega arith) took);
    most = subst (λ n. n < 2 * length d.voters) (sym o.size) d.most;
  }

  pub Keeps-mono :
      (a b : History C) (l : List (LogEntry C)) (p : Made C)
      → Onward a b
      → Keeps a l p
      → Keeps b l p
  Keeps-mono a b l p o (inl pre) = inl pre
  Keeps-mono a b l p o (inr dead) = inr (IsDead-mono a b p o dead)

  pub Keeps-IsPre :
      (w : History C) (l m : List (LogEntry C)) (p : Made C) → IsPre l m → Keeps w l p → Keeps w m p
  Keeps-IsPre w l m p h (inl pre) = inl (IsPre-trans p.log l m pre h)
  Keeps-IsPre w l m p h (inr dead) = inr dead

  pub IsCommitted-mono :
      (a b : History C) (p : Made C) → Onward a b → IsCommitted a p → IsCommitted b p
  IsCommitted-mono a b p o c = record {
    voters = c.voters;
    distinct = c.distinct;
    inside = λ v h. subst (λ n. v < n) (sym o.size) (c.inside v h);
    took = λ v h. Acked-mono a b v p o (c.took v h);
    most = subst (λ n. n < 2 * length c.voters) (sym o.size) c.most;
  }

  -- A committed log is kept by whatever keeps it if it may be committed.
  pub Keeps-IsCommitted :
      (w : History C) (l : List (LogEntry C)) (p : Made C)
      → IsCommitted w p
      → Keeps w l p
      → IsPre p.log l
  Keeps-IsCommitted w l p c (inl pre) = pre
  Keeps-IsCommitted w l p c (inr dead) = absurd (committed_or_dead w p c dead)
