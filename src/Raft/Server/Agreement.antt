-- ===== src/Raft/Server/Agreement.antt =====
-- What the messages that the tester accepts say of the servers.
use raft_kvs.Base.{
  ℕ, ℤ, ◌≡◌, sym, subst, ◌∙◌, ◌⊎◌, inl, inr, arith, false, List, [], ◌∷◌, All, Option, Eq, ok,
  >>=-eq-ok,
}
use raft_kvs.Raft.Types.{ApplyMsg}
use raft_kvs.Raft.Server.{Test, int_eq, applier_message, applier}
use raft_kvs.Raft.Server.Accepted.{
  Holds, IsAgreed, message-cases, Accepted-Holds, Accepted-same, Accepted-keeps, Accepted-new,
}

module _ {C : Type 0} ⦃e : Eq (Option C)⦄ where
  message-IsAgreed :
      (i : ℕ) (m : ApplyMsg C) (ts : Test C) {ts' : Test C}
      → applier_message i m ts ≡ ok ts'
      → IsAgreed ts
      → IsAgreed ts'
  message-IsAgreed i m ts {ts'} ran agreed = elim (message-cases i m ts ran) [
    | inl (_, same) ↦ subst IsAgreed (sym same) agreed
    | inr a ↦ λ x y k v w p q. elim (Accepted-Holds i m ts ts' a x k v p) [
      | inl old ↦ elim (Accepted-Holds i m ts ts' a y k w q) [
        | inl old' ↦ agreed x y k v w old old'
        | inr (at_m, new) ↦
            Accepted-same i m ts ts' a x v (subst (λ k. Holds ts x k v) at_m old) ∙ sym new
      ]
      | inr (at_m, new) ↦ elim (Accepted-Holds i m ts ts' a y k w q) [
        | inl old ↦
            new ∙ sym (Accepted-same i m ts ts' a y w (subst (λ k. Holds ts y k w) at_m old))
        | inr (_, new') ↦ new ∙ sym new'
      ]
    ]
  ]

  applier-keeps :
      (i : ℕ) (ms : List (ApplyMsg C)) (ts : Test C) {ts' : Test C}
      → applier i ms ts ≡ ok ts'
      → (j : ℕ) (k : ℤ) (v : Option C) → Holds ts j k v
      → Holds ts' j k v
  unfolding applier
  applier-keeps i [] ts {ts'} ran j k v h =
      let same : ts ≡ ts' = ground arith in subst (λ t. Holds t j k v) same h
  applier-keeps i (m ∷ ms) ts {ts'} ran j k v h =
      let (ts1, one, rest) = >>=-eq-ok (applier_message i m ts) _ ran in
      applier-keeps i ms ts1 rest j k v (elim (message-cases i m ts one) [
        | inl (_, same) ↦ subst (λ t. Holds t j k v) (sym same) h
        | inr a ↦ Accepted-keeps i m ts ts1 a j k v h
      ])

  -- The service of server `i` has the command of each message that carries one.
  abbrev pub IsRecorded : ℕ → Test C → List (ApplyMsg C) → Type 0
  IsRecorded i ts ms =
      All (λ m. (m.command_valid ≡ false) ⊎ Holds ts i m.command_index m.command) ms

  -- If the tester gets through the messages that server `i` applies with no error, then after them
  -- the server has each command at its index, and still no two servers have different commands at
  -- one index, if none had before.
  pub applier-IsAgreed :
      (i : ℕ) (ms : List (ApplyMsg C)) (ts : Test C) {ts' : Test C}
      → IsAgreed ts
      → applier i ms ts ≡ ok ts'
      → IsAgreed ts' × IsRecorded i ts' ms
  unfolding applier
  applier-IsAgreed i [] ts {ts'} agreed ran =
      let same : ts ≡ ts' = ground arith in (subst IsAgreed same agreed, tt)
  applier-IsAgreed i (m ∷ ms) ts agreed ran =
      let (ts1, one, rest) = >>=-eq-ok (applier_message i m ts) _ ran in
      let (agreed', recorded) =
        applier-IsAgreed i ms ts1 (message-IsAgreed i m ts one agreed) rest in
      (
        agreed',
        (
          elim (message-cases i m ts one) [
            | inl (other, _) ↦ inl other
            | inr a ↦ inr (
                applier-keeps i ms ts1 rest i m.command_index m.command (Accepted-new i m ts ts1 a))
          ],
          recorded,
        ),
      )
