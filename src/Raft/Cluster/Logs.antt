-- ===== src/Raft/Cluster/Logs.antt =====
-- The logs that leaders made, and the logs that are put together of them.
use raft_kvs.Base.{
  ℕ, zero, suc, ◌≤◌, ◌<◌, ℤ, pos, ◌≡◌, refl, sym, ap, subst, ◌∙◌, ◌⊎◌, inl, inr, arith, List, [],
  ◌∷◌, ◌++◌, length, take, get_elem?, length-take, length-append, take_of_length-le, none, some, In,
}
use raft_kvs.Raft.Types.{LogEntry}
use raft_kvs.Raft.Append.Convergence.{IsMatching}

-- A log that a leader made by adding an entry of its term.
pub record Made (C : Type 0) : Type 0 where
  pub log : List (LogEntry C)
  pub term : ℤ

module _ {C : Type 0} where
  -- What every peer starts with.
  abbrev pub root : Made C
  root = record { log = record { term = pos 0; command = none } ∷ []; term = pos 0 }

  -- Up to each of its entries, the log was made.
  pub record IsKnown (made : List (Made C)) (l : List (LogEntry C)) : Type 0 where
    pub nonempty : 0 < length l
    pub prefix :
        (i : ℕ) (e : LogEntry C)
        → get_elem? l i ≡ some e
        → In (record { log = take (suc i) l; term = e.term }) made

  -- The logs made in one term are prefixes of each other.
  pub record IsChain (made : List (Made C)) : Type 0 where
    pub extends :
        (p q : Made C)
        → In p made
        → In q made
        → p.term ≡ q.term
        → length p.log ≤ length q.log
        → p.log ≡ take (length p.log) q.log

  pub length-take_of_get :
      (l : List (LogEntry C)) (i : ℕ) (e : LogEntry C)
      → get_elem? l i ≡ some e
      → length (take (suc i) l) ≡ suc i
  length-take_of_get [] i e h = cc
  length-take_of_get (x ∷ l) zero e h = refl
  length-take_of_get (x ∷ l) (suc i) e h = ap suc (length-take_of_get l i e h)

  pub IsKnown-IsMatching :
      (made : List (Made C)) (l m : List (LogEntry C))
      → IsChain made
      → IsKnown made l
      → IsKnown made m
      → IsMatching l m
  IsKnown-IsMatching made l m chain k j = record {
    prefix = λ i e f at_l at_m same.
        let long_l = length-take_of_get l i e at_l in
        let long_m = length-take_of_get m i f at_m in
        chain.extends _ _ (k.prefix i e at_l) (j.prefix i f at_m) same
          (omega (arith, long_l, long_m))
        ∙ take_of_length-le _ (take (suc i) m) (omega (arith, long_l, long_m));
  }

  pub IsKnown-mono :
      (old made : List (Made C)) (l : List (LogEntry C))
      → ((p : Made C) → In p old → In p made)
      → IsKnown old l
      → IsKnown made l
  IsKnown-mono old made l more k = record {
    nonempty = k.nonempty;
    prefix = λ i e h. more _ (k.prefix i e h);
  }

  at_root :
      (made : List (Made C))
      → In root made
      → (i : ℕ) (e : LogEntry C) → get_elem? root.log i ≡ some e
      → In (record { log = take (suc i) root.log; term = e.term }) made
  at_root made h zero e at_i =
      let first : pos 0 ≡ e.term = ground arith in
      subst (λ t. In (record { log = root.log; term = t }) made) first h
  at_root made h (suc i) e at_i = cc

  pub root-IsKnown : (made : List (Made C)) → In root made → IsKnown made root.log
  root-IsKnown made h = record {
    nonempty = omega arith;
    prefix = λ i e at_i. at_root made h i e at_i;
  }

  -- An entry whose term is 0 is the first.
  pub zero_term-first :
      (made : List (Made C)) (l : List (LogEntry C)) (i : ℕ) (e : LogEntry C)
      → ((p : Made C) → In p made → p.term ≡ pos 0 → p ≡ root)
      → IsKnown made l
      → get_elem? l i ≡ some e
      → e.term ≡ pos 0
      → i ≡ 0
  zero_term-first made l i e only k at_i none_yet =
      let whole = only _ (k.prefix i e at_i) none_yet in
      let short : length (take (suc i) l) ≡ 1 = ap (λ (p : Made C). length p.log) whole in
      omega (arith, length-take_of_get l i e at_i, short)

  get_elem?-append-cases :
      (l : List (LogEntry C)) (x : LogEntry C) (i : ℕ) (e : LogEntry C)
      → get_elem? (l ++ x ∷ []) i ≡ some e
      → ((get_elem? l i ≡ some e) × (take (suc i) (l ++ x ∷ []) ≡ take (suc i) l))
        ⊎ ((x ≡ e) × (take (suc i) (l ++ x ∷ []) ≡ l ++ x ∷ []))
  get_elem?-append-cases [] x zero e h = inr (ground arith, refl)
  get_elem?-append-cases [] x (suc i) e h = cc
  get_elem?-append-cases (y ∷ l) x zero e h = inl (h, refl)
  get_elem?-append-cases (y ∷ l) x (suc i) e h = elim (get_elem?-append-cases l x i e h) [
    | inl (old, same) ↦ inl (old, ap (◌∷◌ y) same)
    | inr (new, whole) ↦ inr (new, ap (◌∷◌ y) whole)
  ]

  take-append :
      (l : List (LogEntry C)) (x : LogEntry C) (n : ℕ)
      → n ≤ length l
      → take n (l ++ x ∷ []) ≡ take n l
  take-append l x zero h = refl
  take-append [] x (suc n) h = absurd (omega arith)
  take-append (y ∷ l) x (suc n) h = ap (◌∷◌ y) (take-append l x n (omega arith))

  -- A leader adds an entry of its term `x.term`.
  pub IsKnown-append :
      (made : List (Made C)) (l : List (LogEntry C)) (x : LogEntry C)
      → IsKnown made l
      → IsKnown (record { log = l ++ x ∷ []; term = x.term } ∷ made) (l ++ x ∷ [])
  IsKnown-append made l x k = record {
    nonempty = omega (arith, length-append l (x ∷ []), k.nonempty);
    prefix = λ i e h. elim (get_elem?-append-cases l x i e h) [
      | inl (old, same) ↦
          inr
            (subst (λ m. In (record { log = m; term = e.term }) made) (sym same) (k.prefix i e old))
      | inr (new, whole) ↦ inl (ground arith)
    ];
  }

  -- The log was made, or is to be, as a prefix of `l`.
  abbrev pub IsPrefix : List (LogEntry C) → Made C → Type 0
  IsPrefix l p = p.log ≡ take (length p.log) l

  pub IsPrefix-append :
      (l : List (LogEntry C)) (x : LogEntry C) (p : Made C)
      → IsPrefix l p
      → IsPrefix (l ++ x ∷ []) p
  IsPrefix-append l x p h =
      let cut : length p.log ≡ length (take (length p.log) l) = ap length h in
      h ∙ sym (take-append l x (length p.log) (omega (arith, cut, length-take (length p.log) l)))

  pub IsChain-append :
      (made : List (Made C)) (l : List (LogEntry C)) (x : LogEntry C)
      → IsChain made
      → ((p : Made C) → In p made → p.term ≡ x.term → IsPrefix l p)
      → IsChain (record { log = l ++ x ∷ []; term = x.term } ∷ made)
  IsChain-append made l x chain all = record {
    extends = λ p q hp hq same le. elim hp [
      | inl e ↦ elim hq [
        | inl f ↦
            sym (take_of_length-le (length p.log) p.log (omega arith))
            ∙ ap (λ (m : Made C). take (length p.log) m.log) (e ∙ sym f)
        | inr old ↦
            let cut : length q.log ≡ length (take (length q.log) l) =
              ap length (all q old (ground arith)) in
            let long : length p.log ≡ length (l ++ x ∷ []) = ap (λ (m : Made C). length m.log) e in
            absurd
              (omega (arith, cut, long, le, length-take (length q.log) l, length-append l (x ∷ [])))
      ]
      | inr old ↦ elim hq [
        | inl f ↦
            subst (λ m. p.log ≡ take (length p.log) m) (sym (ap (λ (m : Made C). m.log) f))
              (IsPrefix-append l x p (all p old (same ∙ ap (λ (m : Made C). m.term) f)))
        | inr old' ↦ chain.extends p q old old' same le
      ]
    ];
  }
