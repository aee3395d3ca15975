-- ===== src/Kv/Counter.antt =====
-- src/kvraft1/rsm/server.go: the counter that the replicated state machine is tried with.
use raft_kvs.Base.{
  ℕ, suc, ◌+◌, ◌<◌, ◌^◌, ℤ, pos, ◌+ℤ◌, wrap, wrap-incr, ◌≡◌, ap, ◌∙◌, arith, Bool, true, false,
  List, [], ◌∷◌, Option, Outcome, ok, panics, or_panic, ◌>>=◌,
}
use raft_kvs.Raft.Types.{ApplyMsg}
use raft_kvs.Kv.Rsm.{StateMachine, Rsm, Op, read_all}
use raft_kvs.Kv.Rsm.Feed.{requests, NoSnapshot, Runs, read_all-Runs}

-- The requests of the tests: `Inc`, `Null`, and `Dec`, which `DoOp` does not know.
pub data Req : Type 0 where
  inc null dec : Req

-- `IncRep` and `NullRep`
pub data CounterReply : Type 0 where
  inc_rep : ℤ → CounterReply
  null_rep : CounterReply

-- `rsmSrv`; `running` if it has its RSM.
pub record RsmSrv : Type 0 where
  pub me : ℕ
  pub running : Bool
  pub counter : ℤ

-- encoding/gob for one number. It decodes in place: what comes out may depend on the number that
-- the variable had. Nothing here relies on what it writes or reads.
pub record IntGob : Type 0 where
  pub encode : ℤ → List ℕ
  pub decode : List ℕ → ℤ → Option ℤ

unfoldable pub make_rsm_srv : ℕ → RsmSrv
make_rsm_srv srv = record { me = srv; running = true; counter = pos 0 }

-- `DoOp`; a request that is neither `Inc` nor `Null` ends the program.
unfoldable pub do_op : ℕ → Req → RsmSrv → Outcome (RsmSrv × CounterReply)
do_op draw inc rs =
    let counter = wrap 63 (rs.counter +ℤ pos 1) in
    ok (record rs { counter = counter }, inc_rep counter)
do_op draw null rs = ok (rs, null_rep)
do_op draw dec rs = panics

unfoldable pub snapshot : ⦃g : IntGob⦄ → RsmSrv → List ℕ
snapshot ⦃g⦄ rs = g.encode rs.counter

unfoldable pub restore : ⦃g : IntGob⦄ → List ℕ → RsmSrv → Outcome RsmSrv
restore ⦃g⦄ bytes rs = do n ← or_panic (g.decode bytes rs.counter); ok (record rs { counter = n })

unfoldable pub kill_srv : RsmSrv → RsmSrv
kill_srv rs = record rs { running = false }

abbrev pub counter_machine : ⦃g : IntGob⦄ → StateMachine Req CounterReply RsmSrv
counter_machine = record { do_op = do_op; snapshot = snapshot; restore = restore }

-- How many requests are `Inc`.
unfoldable pub incs : List Req → ℕ
incs [] = 0
incs (inc ∷ qs) = suc (incs qs)
incs (null ∷ qs) = incs qs
incs (dec ∷ qs) = incs qs

Runs-count :
    ⦃g : IntGob⦄ (qs : List Req) (n : ℕ) (s t : RsmSrv)
    → Runs counter_machine qs s t
    → s.counter ≡ pos n
    → n + incs qs < 2 ^ 63
    → t.counter ≡ pos (n + incs qs)
unfolding do_op incs
Runs-count [] n s t run h fits = ground arith
Runs-count (inc ∷ qs) n s t (draw, s1, a, did, rest) h fits =
    let counted : s1.counter ≡ wrap 63 (s.counter +ℤ pos 1) = ground arith in
    let one_more : s1.counter ≡ pos (suc n) =
      counted ∙ ap (λ z. wrap 63 (z +ℤ pos 1)) h ∙ wrap-incr n (omega arith) in
    Runs-count qs (suc n) s1 t rest one_more (omega arith) ∙ ap pos (omega arith)
Runs-count (null ∷ qs) n s t (draw, s1, a, did, rest) h fits =
    Runs-count qs n s1 t rest (ground arith) fits
Runs-count (dec ∷ qs) n s t (draw, s1, a, did, rest) h fits = cc

-- Fed with messages of which none is a snapshot, a server that returns has counted each committed
-- `Inc` once, whatever other messages stand between, as long as the count fits in an `int`.
pub read_all_counts :
    ⦃g : IntGob⦄ (draw : ℕ → ℕ) (i n : ℕ) (msgs : List (ApplyMsg (Op Req)))
    (r : Rsm CounterReply RsmSrv) {r' : Rsm CounterReply RsmSrv}
    → NoSnapshot msgs
    → r.sm.counter ≡ pos n
    → n + incs (requests msgs) < 2 ^ 63
    → read_all counter_machine draw i msgs r ≡ ok r'
    → r'.sm.counter ≡ pos (n + incs (requests msgs))
read_all_counts draw i n msgs r {r'} plain h fits ran =
    Runs-count (requests msgs) n r.sm r'.sm (read_all-Runs counter_machine draw i msgs r plain ran)
      h fits
