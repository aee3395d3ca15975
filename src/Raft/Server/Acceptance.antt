-- ===== src/Raft/Server/Acceptance.antt =====
-- The tester accepts what it should: the entries of one log, in their order.
use raft_kvs.Base.{
  ℕ, zero, suc, ℤ, pos, ◌-ℤ◌, ltb_ℤ, suc-minus_one, ◌≡◌, refl, sym, ap, ◌∙◌, ◌⊎◌, inl, inr, arith,
  true, false, List, [], ◌∷◌, get_elem?, set, Option, none, some, Eq, insert, ok, if◌then◌else◌,
}
use raft_kvs.Raft.Types.{ApplyMsg, applied}
use raft_kvs.Raft.Server.{
  Rfsrv, Test, int_eq, logs_at, is_other, check_logs, check_message, unless_error, applier_message,
  applier,
}
use raft_kvs.Raft.Server.Accepted.{Holds, message-cases, Accepted-Holds, Accepted-new}

-- The messages for the `n` entries behind index `a`.
abbrev pub entries_behind : {C : Type 0} → (ℤ → Option C) → ℕ → ℕ → List (ApplyMsg C)
entries_behind entry_at a zero = []
entries_behind entry_at a (suc n) =
    applied (entry_at (pos (suc a))) (pos (suc a)) ∷ entries_behind entry_at (suc a) n

-- Every server has entries of that log only.
abbrev pub AllHold : {C : Type 0} → (ℤ → Option C) → Test C → Type 0
AllHold {C} entry_at ts = (j : ℕ) (k : ℤ) (v : Option C) → Holds ts j k v → v ≡ entry_at k

Option-cases {ℓ} : {A : Type ℓ} (o : Option A) → (o ≡ none) ⊎ ((x : A) × (o ≡ some x))
Option-cases none = inl refl
Option-cases (some x) = inr (x, refl)

module _ {C : Type 0} ⦃e : Eq (Option C)⦄ where
  is_other_of_same :
      (k : ℤ) (v : Option C) (srvs : List (Rfsrv C))
      → ((j : ℕ) (rs : Rfsrv C) (old : Option C)
          → get_elem? srvs j ≡ some rs
          → rs.logs k ≡ some old
          → old ≡ v)
      → is_other k v srvs ≡ false
  unfolding is_other logs_at
  is_other_of_same k v [] same = refl
  is_other_of_same k v (rs ∷ srvs) same =
      let rest : is_other k v srvs ≡ false =
        is_other_of_same k v srvs (λ j r old at_j at_k. same (suc j) r old at_j at_k) in
      elim (Option-cases (rs.logs k)) [
        | inl nothing ↦ ground arith
        | inr (old, at_k) ↦
            let eq : e.test old v ≡ true = (e.test_iff old v).1 (same 0 rs old refl at_k) in
            ground arith
      ]

  -- A message for the entry behind those that the server has is accepted.
  message_accepted :
      (i a : ℕ) (c : Option C) (ts : Test C) (rs : Rfsrv C)
      → get_elem? ts.srvs i ≡ some rs
      → (a ≡ 0) ⊎ ((w : Option C) × (rs.logs (pos a) ≡ some w))
      → is_other (pos (suc a)) c ts.srvs ≡ false
      → (ts' : Test C) × (applier_message i (applied c (pos (suc a))) ts ≡ ok ts')
  unfolding applier_message check_message check_logs unless_error
  message_accepted i a c ts rs there before same =
      let back = suc-minus_one a in
      let at_back : rs.logs (pos (suc a) -ℤ pos 1) ≡ rs.logs (pos a) = ap rs.logs back in
      let ts' : Test C = record {
        srvs = set ts.srvs i (record rs { logs = insert (pos (suc a)) c rs.logs });
        max_index = if ltb_ℤ ts.max_index (pos (suc a)) then pos (suc a) else ts.max_index;
      } in
      elim before [
        | inl first ↦
            let low : ltb_ℤ (pos 1) (pos (suc a)) ≡ false = ground arith in
            (ts', rw (there, same, low) refl)
        | inr (w, at_a) ↦
            let found : rs.logs (pos (suc a) -ℤ pos 1) ≡ some w = at_back ∙ at_a in
            (ts', ground arith)
      ]

  -- The tester gets through the messages of any server for the entries of one log, from behind those
  -- that the server has, if the servers have entries of that log only; and they still do then.
  pub applier_accepts :
      (i a n : ℕ) (entry_at : ℤ → Option C) (ts : Test C) (rs : Rfsrv C)
      → AllHold entry_at ts
      → get_elem? ts.srvs i ≡ some rs
      → (a ≡ 0) ⊎ ((w : Option C) × (rs.logs (pos a) ≡ some w))
      → (ts' : Test C) × (applier i (entries_behind entry_at a n) ts ≡ ok ts')
        × AllHold entry_at ts'
  unfolding applier
  applier_accepts i a zero entry_at ts rs all there before = (ts, refl, all)
  applier_accepts i a (suc n) entry_at ts rs all there before =
      let k = pos (suc a) in
      let m = applied (entry_at k) k in
      let fits =
        is_other_of_same k (entry_at k) ts.srvs
          (λ j r old at_j at_k. all j k old (r, at_j, at_k)) in
      let (ts1, one) = message_accepted i a (entry_at k) ts rs there before fits in
      elim (message-cases i m ts one) [
        | inl (other, _) ↦ absurd (ground arith)
        | inr acc ↦
            let all1 : AllHold entry_at ts1 = λ j k' v h.
              elim (Accepted-Holds i m ts ts1 acc j k' v h) [
                | inl old ↦ all j k' v old
                | inr (at_k, new) ↦ new ∙ ap entry_at (sym at_k)
              ] in
            let (rs1, there1, at_k) = Accepted-new i m ts ts1 acc in
            let (ts', rest, all') =
              applier_accepts i (suc a) n entry_at ts1 rs1 all1 there1 (inr (entry_at k, at_k)) in
            (ts', rw one rest, all')
      ]
