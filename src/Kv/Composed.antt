-- ===== src/Kv/Composed.antt =====
-- src/kvraft1/server.go on src/kvraft1/rsm/rsm.go: servers that are fed from their logs.
use raft_kvs.Base.{
  ℕ, ℤ, pos, ◌≡◌, ◌≢◌, ◌⊎◌, refl, arith, ==ℤ_iff, true, false, String, delete, nat_eq, List, [],
  ◌∷◌, ◌++◌, Option, none, some, Outcome, ok, panics, ◌>>=◌, subst, if◌then◌else◌,
}
use raft_kvs.Rpc.{Err, is_ok, PutArgs, PutReply}
use raft_kvs.Raft.Types.{Raft, Gob, ApplyMsg, applied, is_leader}
use raft_kvs.Raft.Node.{get_state}
use raft_kvs.Kv.Model.{step}
use raft_kvs.Kv.Server.{
  KvServer, Reply, get_reply, put_reply, nil, Fmt, MapGob, do_op, snapshot, restore,
}
use raft_kvs.Kv.Server as Server
use raft_kvs.Kv.Server.Replica.{SameMap, do_op-SameMap, do_op-step, view, put_input, put_output}
use raft_kvs.Kv.Rsm.{
  StateMachine, Rsm, Op, Answer, result, aborted, notify, read_msg, read_all, begin_submit,
  end_submit,
}
use raft_kvs.Kv.Rsm.Feed.{requests, NoSnapshot, read_all-Runs, Runs-related, Runs}

-- The server as the state machine that `StartKVServer` hands to `MakeRSM`.
unfoldable pub kv_machine : ⦃f : Fmt⦄ → ⦃g : MapGob⦄ → StateMachine Server.Op Reply KvServer
kv_machine = record { do_op = do_op; snapshot = snapshot; restore = restore }

-- What `Put` submits.
abbrev pub put_command : PutArgs → Server.Op
put_command args = record {
  op_type = "Put";
  get_args = record { key = "" };
  put_args = args;
  id = 0;
}

-- `Put` up to its wait, under the random id of its channel
unfoldable pub begin_put :
    ⦃g : Gob (Op Server.Op)⦄
    → ℕ
    → PutArgs
    → Rsm Reply KvServer
    → Raft (Op Server.Op)
    → Outcome (Rsm Reply KvServer × Raft (Op Server.Op) × Option ℤ)
begin_put id args r rf = begin_submit id (put_command args) r rf

-- What `Put` makes of what `Submit` returned; a result that is no `PutReply` panics.
unfoldable pub put_reply_of : Err → Option Reply → Outcome PutReply
put_reply_of e found =
    if is_ok e
    then elim found [
      | none ↦ panics
      | some a ↦ elim a [ put_reply r ↦ ok r | get_reply _ ↦ panics | nil ↦ panics ]
    ]
    else ok (record { err = Err.wrong_leader })

-- `Put` after the answer to its command, which was taken in `term`
unfoldable pub end_put :
    ℕ
    → ℤ
    → Answer Reply
    → Raft (Op Server.Op)
    → Rsm Reply KvServer
    → Outcome (Rsm Reply KvServer × PutReply)
unfolding put_reply_of
end_put id term answer rf r = do
  let (r1, e, found) = end_submit id term answer rf r
  reply ← put_reply_of e found
  ok (r1, reply)

-- Two servers whose readers return, and whose messages carry the same committed requests in the
-- same order and no snapshot, have one map at the end if they had one at the start, whatever
-- aborted commands and other messages stand between and whatever random numbers they draw.
pub servers_agree :
    ⦃f : Fmt⦄ ⦃g : MapGob⦄ (x y : ℕ → ℕ) (i j : ℕ) (p q : List (ApplyMsg (Op Server.Op)))
    (a b : Rsm Reply KvServer) {a' b' : Rsm Reply KvServer}
    → NoSnapshot p
    → NoSnapshot q
    → requests p ≡ requests q
    → SameMap a.sm b.sm
    → read_all kv_machine x i p a ≡ ok a'
    → read_all kv_machine y j q b ≡ ok b'
    → SameMap a'.sm b'.sm
unfolding kv_machine
servers_agree x y i j p q a b {a'} {b'} np nq same h ra rb =
    Runs-related kv_machine SameMap
      (λ x y op s t s' t' r r' k e e'. do_op-SameMap x y op s t k e e') (requests q) a.sm b.sm a'.sm
      b'.sm
      (subst (λ l. Runs kv_machine l a.sm a'.sm) same (read_all-Runs kv_machine x i p a np ra))
      (read_all-Runs kv_machine y j q b nq rb) h

end_put_leads :
    (id : ℕ) (term : ℤ) (reply : PutReply) (rf : Raft (Op Server.Op)) (r : Rsm Reply KvServer)
    → is_leader rf.state ≡ true
    → rf.current_term ≡ term
    → end_put id term (result (put_reply reply)) rf r
      ≡ ok (record r { op_chs = delete id r.op_chs }, reply)
unfolding end_put end_submit put_reply_of get_state
end_put_leads id term reply rf r leads now = ground (arith, ==ℤ_iff term rf.current_term)

end_put_lost :
    (id : ℕ) (term : ℤ) (answer : Answer Reply) (rf : Raft (Op Server.Op)) (r : Rsm Reply KvServer)
    → (is_leader rf.state ≡ false) ⊎ (rf.current_term ≢ term)
    → end_put id term answer rf r
      ≡ ok (record r { op_chs = delete id r.op_chs }, record { err = Err.wrong_leader })
unfolding end_put end_submit put_reply_of get_state
end_put_lost id term aborted rf r lost = refl
end_put_lost id term (result a) rf r lost = ground (arith, ==ℤ_iff term rf.current_term)

-- When the reader takes the command of a Put that waits, for any key but "sync", it sends the Put an
-- answer that the checker's model allows, and the server's map makes the model's step. The Put
-- returns that answer if its peer leads then in the term in which it took the command, and
-- ErrWrongLeader if not, although the map has made the step.
pub applied_put :
    ⦃f : Fmt⦄ ⦃g : MapGob⦄ (draw id me i : ℕ) (term : ℤ) (args : PutArgs) (rf : Raft (Op Server.Op))
    (r : Rsm Reply KvServer)
    → args.key ≢ "sync"
    → r.op_chs id ≡ some tt
    → (r1 : Rsm Reply KvServer) × (reply : PutReply) × (read_msg kv_machine draw
          (applied (some (record { id = id; me = me; req = put_command args })) (pos i))
          r
        ≡ ok r1)
      × (r1.sent ≡ r.sent ++ (id, result (put_reply reply)) ∷ [])
      × (step (view r.sm args.key) (put_input args) (put_output reply)
          ≡ (true, some (view r1.sm args.key)))
      × ((j : String) → args.key ≢ j → view r1.sm j ≡ view r.sm j)
      × (is_leader rf.state ≡ true
          → rf.current_term ≡ term
          → end_put id term (result (put_reply reply)) rf r1
            ≡ ok (record r1 { op_chs = delete id r1.op_chs }, reply))
      × ((is_leader rf.state ≡ false) ⊎ (rf.current_term ≢ term)
          → end_put id term (result (put_reply reply)) rf r1
            ≡ ok (record r1 { op_chs = delete id r1.op_chs }, record { err = Err.wrong_leader }))
unfolding kv_machine read_msg notify
applied_put draw id me i term args rf r key waits =
    let (t, reply, ran, stepped, others) = do_op-step draw (put_command args) r.sm refl key in
    let r1 = record r { sm = t; sent = r.sent ++ (id, result (put_reply reply)) ∷ [] } in
    (
      r1,
      reply,
      rw (ran, waits) refl,
      refl,
      stepped,
      others,
      λ leads now. end_put_leads id term reply rf r1 leads now,
      λ lost. end_put_lost id term (result (put_reply reply)) rf r1 lost,
    )
