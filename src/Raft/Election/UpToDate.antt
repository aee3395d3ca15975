-- ===== src/Raft/Election/UpToDate.antt =====
-- `isLogUpToDate` as an order of logs.
use raft_kvs.Base.{
  ◌≤◌, ◌<ℤ◌, ◌≤ℤ◌, ◌==ℤ◌, ==ℤ_iff, ltb_ℤ, dec_le, ◌∙◌, ◌≡◌, ◌↔◌, refl, sym, subst, ◌⊎◌, inl, inr,
  arith, true, Bool-cases, List, [], ◌∷◌, length, In,
}
use raft_kvs.Raft.Types.{LogEntry}
use raft_kvs.Raft.Log.{last_log_index, last_log_term}
use raft_kvs.Raft.Election.{is_log_up_to_date}

module _ {C : Type 0} where
  -- The order of Raft: by the last term, then by the length.
  pub IsNoNewer : List (LogEntry C) → List (LogEntry C) → Type 0
  IsNoNewer l m =
      (last_log_term l <ℤ last_log_term m)
      ⊎ ((last_log_term l ≡ last_log_term m) × (length l ≤ length m))

  index_le :
      (l m : List (LogEntry C))
      → (last_log_index l ≤ℤ last_log_index m → length l ≤ length m)
        × (length l ≤ length m → last_log_index l ≤ℤ last_log_index m)
  unfolding last_log_index
  index_le l m = (ground arith, ground arith)

  IsNoNewer-trans : (l m n : List (LogEntry C)) → IsNoNewer l m → IsNoNewer m n → IsNoNewer l n
  unfolding IsNoNewer
  IsNoNewer-trans l m n (inl p) (inl q) = inl (omega arith)
  IsNoNewer-trans l m n (inl p) (inr (e, q)) = inl (subst (λ t. last_log_term l <ℤ t) e p)
  IsNoNewer-trans l m n (inr (e, p)) (inl q) = inl (subst (λ t. t <ℤ last_log_term n) (sym e) q)
  IsNoNewer-trans l m n (inr (e, p)) (inr (f, q)) = inr (e ∙ f, omega arith)

  IsNoNewer-refl : (l : List (LogEntry C)) → IsNoNewer l l
  unfolding IsNoNewer
  IsNoNewer-refl l = inr (refl, omega arith)

  IsNoNewer-total : (l m : List (LogEntry C)) → IsNoNewer l m ⊎ IsNoNewer m l
  unfolding IsNoNewer
  IsNoNewer-total l m = elim (Bool-cases (ltb_ℤ (last_log_term l) (last_log_term m))) [
    | inl lt ↦ inl (inl (ground arith))
    | inr ge ↦ elim (Bool-cases (last_log_term m ==ℤ last_log_term l)) [
      | inr differ ↦ inr (inl (ground arith))
      | inl same ↦
          let e = (==ℤ_iff (last_log_term m) (last_log_term l)).0 same in
          elim (dec_le (length l) (length m)) [
            | yes le ↦ inl (inr (sym e, le))
            | no longer ↦ inr (inr (e, omega arith))
          ]
    ]
  ]

  -- A peer's test of the last index and the last term of a candidate's log is exactly the order of
  -- the two logs, by the last term and then by the length.
  pub is_log_up_to_date_iff :
      (l m : List (LogEntry C))
      → (is_log_up_to_date l (last_log_index m) (last_log_term m) ≡ true) ↔ IsNoNewer l m
  unfolding is_log_up_to_date IsNoNewer
  is_log_up_to_date_iff l m =
      let (down, up) = index_le l m in
      elim (Bool-cases (last_log_term m ==ℤ last_log_term l)) [
        | inl same ↦
            let e = (==ℤ_iff (last_log_term m) (last_log_term l)).0 same in
            (
              λ h. inr (sym e, down (ground arith)),
              λ x. elim x [
                | inl lt ↦
                    let bad = subst (λ t. last_log_term l <ℤ t) e lt in absurd (omega (arith, bad))
                | inr (_, le) ↦ let le' = up le in ground arith
              ],
            )
        | inr differ ↦ (
          λ h. inl (ground arith),
          λ x. elim x [ inl lt ↦ ground arith | inr (e, _) ↦ absurd (ground arith) ],
        )
      ]

  -- Among any peers, one at least, there is one whose log passes the test of all of them: if it
  -- stands for election, no log keeps a vote from it.
  pub electable :
      (first : List (LogEntry C)) (rest : List (List (LogEntry C)))
      → (l : List (LogEntry C)) × In l (first ∷ rest)
        × ((m : List (LogEntry C))
            → In m (first ∷ rest)
            → is_log_up_to_date m (last_log_index l) (last_log_term l) ≡ true)
  electable first [] = (
    first,
    inl refl,
    λ m h. elim h [
      | inl e ↦ (is_log_up_to_date_iff m first).1 (subst (IsNoNewer m) e (IsNoNewer-refl m))
      | inr none_there ↦ absurd none_there
    ],
  )
  electable first (second ∷ rest) =
      let (l, in_l, best) = electable second rest in
      elim (IsNoNewer-total first l) [
        | inl older ↦ (
          l,
          inr in_l,
          λ m h. elim h [
            | inl e ↦ (is_log_up_to_date_iff m l).1 (subst (λ x. IsNoNewer x l) (sym e) older)
            | inr there ↦ best m there
          ],
        )
        | inr newer ↦ (
          first,
          inl refl,
          λ m h. elim h [
            | inl e ↦ (is_log_up_to_date_iff m first).1 (subst (IsNoNewer m) e (IsNoNewer-refl m))
            | inr there ↦
                (is_log_up_to_date_iff m first).1
                  (IsNoNewer-trans m l first ((is_log_up_to_date_iff m l).0 (best m there)) newer)
          ],
        )
      ]
