-- ===== src/Kv/Rsm.antt =====
-- src/kvraft1/rsm/rsm.go: a state machine that is fed from Raft's log, and the clients that wait.
-- Proofs are in the child.
pub mod Feed
use raft_kvs.Base.{
  ℕ, ℤ, ◌==ℤ◌, ◌&&◌, Bool, true, false, Map, nat_eq, empty, insert, delete, List, [], ◌∷◌, ◌++◌,
  Option, none, some, Outcome, ok, or_panic, ◌>>=◌, if◌then◌else◌,
}
use raft_kvs.Rpc.{Err}
use raft_kvs.Raft.Types.{Raft, ApplyMsg, Gob}
use raft_kvs.Raft.Node.{start, get_state}

-- `Op`, the command of a log entry
pub record Op (Q : Type 0) : Type 0 where
  pub id : ℕ
  pub me : ℕ
  pub req : Q

-- What a waiting `Submit` is sent: the result, or the text "aborted".
pub data Answer (A : Type 0) : Type 0 where
  result : A → Answer A
  aborted : Answer A

-- `StateMachine`, over the states `S`. `do_op` is given the random number that it may draw.
pub record StateMachine (Q A S : Type 0) : Type 0 where
  pub do_op : ℕ → Q → S → Outcome (S × A)
  pub snapshot : S → List ℕ
  pub restore : List ℕ → S → Outcome S

-- `RSM`, with the state machine's state. `op_chs` are the ids for which a `Submit` waits; `sent`
-- is what was sent to them, oldest first.
pub record Rsm (A S : Type 0) : Type 0 where
  pub me : ℕ
  pub maxraftstate : ℤ
  pub sm : S
  pub op_chs : Map ℕ (Unit {0})
  pub sent : List (ℕ × Answer A)

module _ {A S : Type 0} where
  -- `MakeRSM`, without the peer and the goroutine that it starts
  unfoldable pub make_rsm : ℕ → ℤ → S → Rsm A S
  make_rsm me maxraftstate sm = record {
    me = me;
    maxraftstate = maxraftstate;
    sm = sm;
    op_chs = empty;
    sent = [];
  }

  -- `if ch, ok := opChs[id]; ok { ch <- answer }`
  unfoldable pub notify : ℕ → Answer A → Rsm A S → Rsm A S
  notify id a r = elim (r.op_chs id) [
    | none ↦ r
    | some _ ↦ record r { sent = r.sent ++ (id, a) ∷ [] }
  ]

module _ {Q A S : Type 0} where
  -- The reader goroutine, for one message; a command that is no `Op` panics.
  unfoldable pub read_msg : StateMachine Q A S → ℕ → ApplyMsg (Op Q) → Rsm A S → Outcome (Rsm A S)
  unfolding notify
  read_msg m draw msg r =
      if msg.command_valid
      then (do
        op ← or_panic msg.command
        (s, a) ← m.do_op draw op.req r.sm
        ok (notify op.id (result a) (record r { sm = s })))
      else if msg.snapshot_valid
      then (do s ← m.restore msg.snapshot r.sm; ok (record r { sm = s }))
      else if msg.aborted
      then (do op ← or_panic msg.command; ok (notify op.id aborted r))
      else ok r

  -- The reader goroutine over the messages of `applyCh`, in order.
  unfoldable pub read_all :
      StateMachine Q A S → (ℕ → ℕ) → ℕ → List (ApplyMsg (Op Q)) → Rsm A S → Outcome (Rsm A S)
  read_all m draw n [] r = ok r
  read_all m draw n (msg ∷ msgs) r =
      let rest = read_all m draw (ℕ.suc n) msgs in do r1 ← read_msg m (draw n) msg r; rest r1

  -- `Submit` up to its wait, under the random id of its channel: the term of the command, if the
  -- peer is the leader.
  unfoldable pub begin_submit :
      ⦃g : Gob (Op Q)⦄ → ℕ → Q → Rsm A S → Raft (Op Q) → Outcome (Rsm A S × Raft (Op Q) × Option ℤ)
  begin_submit id req r rf = do
    let waiting = record r { op_chs = insert id tt r.op_chs }
    (rf1, (_, term, is_leader)) ← start (record { id = id; me = r.me; req = req }) rf
    ok (
        if is_leader
        then (waiting, rf1, some term)
        else (record waiting { op_chs = delete id waiting.op_chs }, rf1, none))

  -- `Submit` after the answer: the channel is given up, and the answer passed on only if the peer
  -- still leads in the term in which it took the command.
  unfoldable pub end_submit : ℕ → ℤ → Answer A → Raft (Op Q) → Rsm A S → Rsm A S × Err × Option A
  end_submit id term aborted rf r =
      (record r { op_chs = delete id r.op_chs }, Err.wrong_leader, none)
  end_submit id term (result a) rf r =
      let (now, is_leader) = get_state rf in
      if is_leader && (term ==ℤ now)
      then (record r { op_chs = delete id r.op_chs }, Err.ok, some a)
      else (record r { op_chs = delete id r.op_chs }, Err.wrong_leader, none)
