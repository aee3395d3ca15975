-- ===== src/Raft/Server/Accepted.antt =====
-- What a message changes that the tester accepts.
use raft_kvs.Base.{
  ℕ, zero, suc, ℤ, ◌==ℤ◌, ==ℤ_iff, ◌≡◌, refl, sym, ap, subst, ◌∙◌, ◌⊎◌, inl, inr, arith, true,
  false, Bool-cases, List, [], ◌∷◌, get_elem?, set, get_elem?-set_self, get_elem?-set_ne,
  get_elem?_of_le, length, ◌<◌, dec_lt, ℕ_discrete, Option, some, Eq, insert, ok, or_panic,
  >>=-eq-ok, ◌>>=◌,
}
use raft_kvs.Raft.Types.{ApplyMsg}
use raft_kvs.Raft.Server.{
  Rfsrv, Test, int_eq, logs_at, is_other, check_logs, check_message, unless_error, applier_message,
}

module _ {C : Type 0} where
  -- The service of server `j` has the command at the index.
  abbrev pub Holds : Test C → ℕ → ℤ → Option C → Type 0
  Holds ts j k v = (rs : Rfsrv C) × (get_elem? ts.srvs j ≡ some rs) × (rs.logs k ≡ some v)

  -- No two servers have different commands at one index.
  abbrev pub IsAgreed : Test C → Type 0
  IsAgreed ts = (i j : ℕ) (k : ℤ) (v w : Option C) → Holds ts i k v → Holds ts j k w → v ≡ w

  get_elem?-lt :
      (xs : List (Rfsrv C)) (i : ℕ) (x : Rfsrv C) → get_elem? xs i ≡ some x → i < length xs
  get_elem?-lt xs i x h = elim (dec_lt i (length xs)) [
    | yes l ↦ l
    | no out ↦ let none_at = get_elem?_of_le xs i (omega arith) in absurd (ground arith)
  ]

module _ {C : Type 0} ⦃e : Eq (Option C)⦄ where
  is_other-false :
      (k : ℤ) (v : Option C) (srvs : List (Rfsrv C))
      → is_other k v srvs ≡ false
      → (j : ℕ) (rs : Rfsrv C) (old : Option C) → get_elem? srvs j ≡ some rs
      → rs.logs k ≡ some old
      → old ≡ v
  unfolding is_other logs_at
  is_other-false k v [] h j rs old at_j at_k = cc
  is_other-false k v (r ∷ srvs) h zero rs old at_j at_k =
      let same : r ≡ rs = ground arith in
      let at_k' : r.logs k ≡ some old = ap (λ (x : Rfsrv C). x.logs k) same ∙ at_k in
      elim (Bool-cases (e.test old v)) [
        | inl eq ↦ (e.test_iff old v).0 eq
        | inr differ ↦ absurd (ground arith)
      ]
  is_other-false k v (r ∷ srvs) h (suc j) rs old at_j at_k =
      let rest : is_other k v srvs ≡ false = ground arith in
      is_other-false k v srvs rest j rs old at_j at_k

  -- What an accepted message changes.
  pub record IsAccepted (i : ℕ) (m : ApplyMsg C) (ts ts' : Test C) : Type 0 where
    me : Rfsrv C
    there : get_elem? ts.srvs i ≡ some me
    agrees : is_other m.command_index m.command ts.srvs ≡ false
    changed :
        ts'.srvs ≡ set ts.srvs i (record me { logs = insert m.command_index m.command me.logs })

  pub message-cases :
      (i : ℕ) (m : ApplyMsg C) (ts : Test C) {ts' : Test C}
      → applier_message i m ts ≡ ok ts'
      → ((m.command_valid ≡ false) × (ts' ≡ ts)) ⊎ IsAccepted i m ts ts'
  unfolding applier_message check_message check_logs unless_error
  message-cases i m ts {ts'} h = elim (Bool-cases m.command_valid) [
    | inl valid ↦
        let ((err, ts1), ran, h1) =
          >>=-eq-ok (check_message i m ts) (λ x. unless_error x.0 x.1)
            (let h' : (check_message i m ts >>= λ x. unless_error x.0 x.1) ≡ ok ts' =
                ground arith in
              h') in
        let ((err0, prevok, ts0), ran0, h2) = >>=-eq-ok (check_logs i m ts) _ ran in
        let (me, there, h3) = >>=-eq-ok (or_panic (get_elem? ts.srvs i)) _ ran0 in
        let found : get_elem? ts.srvs i ≡ some me = ground arith in
        inr (record { me = me; there = found; agrees = ground arith; changed = ground arith })
    | inr other ↦ inl (other, ground arith)
  ]

  pub Accepted-Holds :
      (i : ℕ) (m : ApplyMsg C) (ts ts' : Test C)
      → IsAccepted i m ts ts'
      → (j : ℕ) (k : ℤ) (v : Option C) → Holds ts' j k v
      → Holds ts j k v ⊎ ((k ≡ m.command_index) × (v ≡ m.command))
  Accepted-Holds i m ts ts' a j k v (rs, at_j, at_k) =
      let me1 = record a.me { logs = insert m.command_index m.command a.me.logs } in
      let at_j' : get_elem? (set ts.srvs i me1) j ≡ some rs =
        ap (λ l. get_elem? l j) (sym a.changed) ∙ at_j in
      elim (ℕ_discrete i j) [
        | yes same ↦
            let here_now : get_elem? (set ts.srvs i me1) j ≡ some me1 =
              subst (λ k. get_elem? (set ts.srvs i me1) k ≡ some me1) same
                (get_elem?-set_self ts.srvs i me1 (get_elem?-lt ts.srvs i a.me a.there)) in
            let is_me : me1 ≡ rs = ground arith in
            let at_k' : me1.logs k ≡ some v = ap (λ (x : Rfsrv C). x.logs k) is_me ∙ at_k in
            elim (Bool-cases (m.command_index ==ℤ k)) [
              | inl at_m ↦ inr (sym ((==ℤ_iff m.command_index k).0 at_m), ground arith)
              | inr other ↦
                  let old : a.me.logs k ≡ some v = ground arith in
                  inl (a.me, subst (λ k. get_elem? ts.srvs k ≡ some a.me) same a.there, old)
            ]
        | no other ↦ inl (rs, sym (get_elem?-set_ne ts.srvs i j me1 other) ∙ at_j', at_k)
      ]

  pub Accepted-same :
      (i : ℕ) (m : ApplyMsg C) (ts ts' : Test C)
      → IsAccepted i m ts ts'
      → (j : ℕ) (v : Option C) → Holds ts j m.command_index v
      → v ≡ m.command
  Accepted-same i m ts ts' a j v (rs, at_j, at_k) =
      is_other-false m.command_index m.command ts.srvs a.agrees j rs v at_j at_k

  pub Accepted-keeps :
      (i : ℕ) (m : ApplyMsg C) (ts ts' : Test C)
      → IsAccepted i m ts ts'
      → (j : ℕ) (k : ℤ) (v : Option C) → Holds ts j k v
      → Holds ts' j k v
  Accepted-keeps i m ts ts' a j k v (rs, at_j, at_k) =
      let me1 = record a.me { logs = insert m.command_index m.command a.me.logs } in
      elim (ℕ_discrete i j) [
        | yes same ↦
            let here_now : get_elem? ts'.srvs j ≡ some me1 =
              ap (λ l. get_elem? l j) a.changed
              ∙ subst (λ k. get_elem? (set ts.srvs i me1) k ≡ some me1) same
                  (get_elem?-set_self ts.srvs i me1 (get_elem?-lt ts.srvs i a.me a.there)) in
            let is_me : a.me ≡ rs =
              let at_me = subst (λ k. get_elem? ts.srvs k ≡ some a.me) same a.there in
              ground arith in
            let at_k' : a.me.logs k ≡ some v = ap (λ (x : Rfsrv C). x.logs k) is_me ∙ at_k in
            (
              me1,
              here_now,
              elim (Bool-cases (m.command_index ==ℤ k)) [
                | inl at_m ↦
                    let eq = (==ℤ_iff m.command_index k).0 at_m in
                    let v_m : v ≡ m.command =
                      Accepted-same i m ts ts' a j v (rs, at_j, ap rs.logs eq ∙ at_k) in
                    ground arith
                | inr other ↦ ground arith
              ],
            )
        | no other ↦ (
          rs,
          ap (λ l. get_elem? l j) a.changed ∙ get_elem?-set_ne ts.srvs i j me1 other ∙ at_j,
          at_k,
        )
      ]

  pub Accepted-new :
      (i : ℕ) (m : ApplyMsg C) (ts ts' : Test C)
      → IsAccepted i m ts ts'
      → Holds ts' i m.command_index m.command
  Accepted-new i m ts ts' a =
      let me1 = record a.me { logs = insert m.command_index m.command a.me.logs } in
      let self : (m.command_index ==ℤ m.command_index) ≡ true =
        (==ℤ_iff m.command_index m.command_index).1 refl in
      (
        me1,
        ap (λ l. get_elem? l i) a.changed
            ∙ get_elem?-set_self ts.srvs i me1 (get_elem?-lt ts.srvs i a.me a.there),
        ground arith,
      )
