-- ===== src/Kv/Rsm/Feed.antt =====
-- What the reader goroutine makes of the state machine: the committed commands, in order, and
-- nothing else, so that replicas agree.
use raft_kvs.Base.{
  ℕ, suc, ◌≡◌, inl, inr, subst, sym, Option-cases, arith, false, Bool-cases, List, [], ◌∷◌, All,
  none, some, ok, >>=-eq-ok, if◌then◌else◌,
}
use raft_kvs.Raft.Types.{ApplyMsg}
use raft_kvs.Kv.Rsm.{Op, StateMachine, Rsm, Answer, result, aborted, notify, read_msg, read_all}

-- The requests of the messages that carry a committed command.
unfoldable pub requests : {Q : Type 0} → List (ApplyMsg (Op Q)) → List Q
requests [] = []
requests (msg ∷ msgs) =
    let rest = requests msgs in
    if msg.command_valid then elim msg.command [ none ↦ rest | some op ↦ op.req ∷ rest ] else rest

notify-sm : {A S : Type 0} (id : ℕ) (a : Answer A) (r : Rsm A S) → (notify id a r).sm ≡ r.sm
unfolding notify
notify-sm id a r = ground arith

-- No message installs a snapshot.
abbrev pub NoSnapshot : {Q : Type 0} → List (ApplyMsg (Op Q)) → Type 0
NoSnapshot {Q} msgs = All (λ (msg : ApplyMsg (Op Q)). msg.snapshot_valid ≡ false) msgs

module _ {Q A S : Type 0} where
  -- The state machine goes through a list of requests, with some random number for each.
  abbrev pub Runs : StateMachine Q A S → List Q → S → S → Type 0
  Runs m [] s u = s ≡ u
  Runs m (q ∷ qs) s u =
      let rest = λ (t : S). Runs m qs t u in
      (draw : ℕ) × (t : S) × (a : A) × (m.do_op draw q s ≡ ok (t, a)) × rest t

  -- A message that carries no command and no snapshot leaves the state machine alone.
  read_msg-idle :
      (m : StateMachine Q A S) (draw : ℕ) (msg : ApplyMsg (Op Q)) (r : Rsm A S) {r1 : Rsm A S}
      → msg.snapshot_valid ≡ false
      → msg.command_valid ≡ false
      → read_msg m draw msg r ≡ ok r1
      → r1.sm ≡ r.sm
  unfolding read_msg
  read_msg-idle m draw msg r {r1} plain other ran = elim (Bool-cases msg.aborted) [
    | inl gone ↦ elim (Option-cases msg.command) [
      | inl nothing ↦ cc (rw (other, plain, gone, nothing) at ran)
      | inr (op, found) ↦
          let e : ok (notify op.id aborted r) ≡ ok r1 = rw (other, plain, gone, found) at ran in
          ground (arith, notify-sm op.id aborted r)
    ]
    | inr nothing ↦ let e : ok r ≡ ok r1 = rw (other, plain, nothing) at ran in ground arith
  ]

  -- One message runs its request, or leaves the state machine alone.
  read_msg-Runs :
      (m : StateMachine Q A S) (draw : ℕ) (msg : ApplyMsg (Op Q)) (msgs : List (ApplyMsg (Op Q)))
      (r : Rsm A S) {r1 : Rsm A S} (u : S)
      → msg.snapshot_valid ≡ false
      → read_msg m draw msg r ≡ ok r1
      → Runs m (requests msgs) r1.sm u
      → Runs m (requests (msg ∷ msgs)) r.sm u
  unfolding read_msg requests
  read_msg-Runs m draw msg msgs r {r1} u plain ran rest = elim (Bool-cases msg.command_valid) [
    | inl valid ↦ elim (Option-cases msg.command) [
      | inl nothing ↦ cc (rw (valid, nothing) at ran)
      | inr (op, found) ↦
          let ((s, a), did, told) =
            >>=-eq-ok (m.do_op draw op.req r.sm) _ (rw (valid, found) at ran) in
          let kept : s ≡ r1.sm = ground (arith, notify-sm op.id (result a) (record r { sm = s })) in
          rw (valid, found)
            (draw, s, a, did, subst (λ x. Runs m (requests msgs) x u) (sym kept) rest)
    ]
    | inr other ↦
        let kept : r1.sm ≡ r.sm = read_msg-idle m draw msg r plain other ran in
        rw other (subst (λ x. Runs m (requests msgs) x u) kept rest)
  ]

  -- The reader goroutine runs the committed requests in order, and nothing else.
  pub read_all-Runs :
      (m : StateMachine Q A S) (draw : ℕ → ℕ) (n : ℕ) (msgs : List (ApplyMsg (Op Q))) (r : Rsm A S)
      {r' : Rsm A S}
      → NoSnapshot msgs
      → read_all m draw n msgs r ≡ ok r'
      → Runs m (requests msgs) r.sm r'.sm
  unfolding read_all requests
  read_all-Runs m draw n [] r h e = ground arith
  read_all-Runs m draw n (msg ∷ msgs) r {r'} (plain, h) e =
      let (r1, ran, e1) = >>=-eq-ok (read_msg m (draw n) msg r) _ e in
      read_msg-Runs m (draw n) msg msgs r r'.sm plain ran
        (read_all-Runs m draw (suc n) msgs r1 h e1)

  -- Every operation keeps `Same`, whatever random numbers the two sides draw.
  abbrev pub IsKept : StateMachine Q A S → (S → S → Type 0) → Type 0
  IsKept m Same =
      (x y : ℕ) (q : Q) (s t s' t' : S) (a b : A)
      → Same s t
      → m.do_op x q s ≡ ok (s', a)
      → m.do_op y q t ≡ ok (t', b)
      → Same s' t'

  pub Runs-related :
      (m : StateMachine Q A S) (Same : S → S → Type 0)
      → IsKept m Same
      → (qs : List Q) (s t s' t' : S) → Runs m qs s s'
      → Runs m qs t t'
      → Same s t
      → Same s' t'
  Runs-related m Same keep [] s t s' t' e e' h = subst (Same s') e' (subst (λ x. Same x t) e h)
  Runs-related m Same keep (q ∷ qs) s t s' t' (x, s1, a, p, ps) (y, t1, b, q1, qs1) h =
      Runs-related m Same keep qs s1 t1 s' t' ps qs1 (keep x y q s t s1 t1 a b h p q1)
