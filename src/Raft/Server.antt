-- ===== src/Raft/Server.antt =====
-- src/raft/server.go, the service of the Raft tests, and checkLogs of src/raft/test.go: what the
-- peers apply is compared at every index. `log.Fatalf`, which ends the process, is `panics`.
pub mod Accepted
pub mod Agreement
pub mod Acceptance
pub mod Snapshots
use raft_kvs.Base.{
  ◌≡◌, ℕ, zero, suc, ◌+◌, ◌%◌, ◌==◌, ℤ, pos, negsuc, minus_one, ◌+ℤ◌, ◌-ℤ◌, ltb_ℤ, ◌==ℤ◌, ==ℤ_iff,
  Bool, true, false, not, ◌&&◌, List, [], ◌∷◌, get_elem?, set, length, Option, none, some, Map, Eq,
  empty, insert, Outcome, ok, panics, or_panic, ◌>>=◌, if◌then◌else◌,
}
use raft_kvs.Persister.{Persister, read_snapshot, read_raft_state, save}
use raft_kvs.Raft.Types.{Raft, ApplyMsg}
use raft_kvs.Raft.Node.{get_state, snapshot}

instance abbrev pub int_eq : Eq ℤ
int_eq = record { test = ◌==ℤ◌; test_iff = ==ℤ_iff }

-- labgob as the service uses it: the last index and the commands of a snapshot.
pub record SnapGob (C : Type 0) : Type 0 where
  pub encode : ℤ → List (Option C) → List ℕ
  pub decode : List ℕ → Option (ℤ × List (Option C))
  pub decode-encode :
      (index : ℤ) (xlog : List (Option C)) → decode (encode index xlog) ≡ some (index, xlog)

-- What the error messages say.
pub data ApplyError : Type 0 where
  differs out_of_order unexpected_index snapshot_mismatch : ApplyError

-- `rfsrv`; the command of a missing entry of `logs` is nil. `raft` is what `Make` returned.
pub record Rfsrv (C : Type 0) : Type 0 where
  pub me : ℕ
  pub last_applied : ℤ
  pub persister : Persister
  pub raft : Option (Raft C)
  pub logs : Map ℤ (Option C)

-- `Test`: the services of all servers, and the largest index applied. The slots of `srvs` are filled
-- here: one that is still nil, before `mksrv` has made its server, is not represented, and
-- `checkLogs` would panic on it.
pub record Test (C : Type 0) : Type 0 where
  pub srvs : List (Rfsrv C)
  pub max_index : ℤ

module _ {C : Type 0} where
  -- `Logs`
  unfoldable pub logs_at : ℤ → Rfsrv C → Option (Option C)
  logs_at i rs = rs.logs i

  -- `for j := range xlog { rs.logs[j] = xlog[j] }`
  unfoldable pub fill : ℕ → List (Option C) → Map ℤ (Option C) → Map ℤ (Option C)
  fill j [] logs = logs
  fill j (c ∷ xlog) logs = fill (suc j) xlog (insert (pos j) c logs)

  -- `Kill`: the persister is saved as it is.
  unfoldable pub kill_service : Rfsrv C → Rfsrv C
  unfolding read_snapshot read_raft_state save
  kill_service rs = record rs {
    raft = none;
    persister = save (read_raft_state rs.persister) (read_snapshot rs.persister) rs.persister;
  }

  -- The end of the loops below: an error ends the process.
  unfoldable pub unless_error : Option ApplyError → Test C → Outcome (Test C)
  unless_error none ts = ok ts
  unless_error (some err) ts = panics

module _ {C : Type 0} where
  -- `GetState`
  unfoldable pub service_state : Rfsrv C → Outcome (ℤ × Bool)
  unfolding get_state
  service_state rs = do rf ← or_panic rs.raft; ok (get_state rf)

module _ {C : Type 0} ⦃e : Eq (Option C)⦄ where
  -- The loop of `checkLogs`: whether some server has another command at the index.
  unfoldable pub is_other : ℤ → Option C → List (Rfsrv C) → Bool
  unfolding logs_at
  is_other i v [] = false
  is_other i v (rs ∷ srvs) =
      let rest = is_other i v srvs in
      elim (logs_at i rs) [ none ↦ rest | some old ↦ if e.test old v then rest else true ]

  -- `checkLogs`: the error, whether the server has the entry before, and the tester after it.
  unfoldable pub check_logs : ℕ → ApplyMsg C → Test C → Outcome (Option ApplyError × Bool × Test C)
  unfolding is_other
  check_logs i m ts = do
    me ← or_panic (get_elem? ts.srvs i)
    let err : Option ApplyError =
        if is_other m.command_index m.command ts.srvs then some differs else none
    let prevok : Bool = elim (me.logs (m.command_index -ℤ pos 1)) [ none ↦ false | some v ↦ true ]
    let me1 = record me { logs = insert m.command_index m.command me.logs }
    ok (
      err,
      prevok,
      record {
        srvs = set ts.srvs i me1;
        max_index = if ltb_ℤ ts.max_index m.command_index then m.command_index else ts.max_index;
      },
    )

  -- `checkLogs` and the test of the order behind it
  unfoldable pub check_message : ℕ → ApplyMsg C → Test C → Outcome (Option ApplyError × Test C)
  unfolding check_logs
  check_message i m ts = do
    (err, prevok, ts1) ← check_logs i m ts
    ok ((if ltb_ℤ (pos 1) m.command_index && not prevok then some out_of_order else err), ts1)

  -- `applier`, for one message
  unfoldable pub applier_message : ℕ → ApplyMsg C → Test C → Outcome (Test C)
  unfolding check_message unless_error
  applier_message i m ts =
      if not m.command_valid
      then ok ts
      else (do (err, ts1) ← check_message i m ts; unless_error err ts1)

  -- `applier`, for the messages on the channel
  unfoldable pub applier : ℕ → List (ApplyMsg C) → Test C → Outcome (Test C)
  unfolding applier_message
  applier i [] ts = ok ts
  applier i (m ∷ ms) ts = do ts1 ← applier_message i m ts; applier i ms ts1

module _ {C : Type 0} where
  -- The commands of the snapshot: those at the indices `j` and on, nil where there is none.
  unfoldable pub collect : ℕ → ℕ → Map ℤ (Option C) → List (Option C)
  collect j zero logs = []
  collect j (suc n) logs = elim (logs (pos j)) [ none ↦ none | some c ↦ c ] ∷ collect (suc j) n logs

-- Whether `i % 10 == 0`, as for `SnapShotInterval`.
unfoldable pub is_interval : ℤ → Bool
is_interval (pos n) = n % 10 == 0
is_interval (negsuc n) = (suc n) % 10 == 0

module _ {C : Type 0} ⦃s : SnapGob C⦄ where
  -- `ingestSnap`: the error, and the service after it. A nil snapshot and one that does not decode
  -- end the process.
  unfoldable pub ingest_snap : List ℕ → ℤ → Rfsrv C → Outcome (Option ApplyError × Rfsrv C)
  unfolding fill
  ingest_snap bytes index rs = elim (s.decode bytes) [
    | none ↦ panics
    | some (last, xlog) ↦
        if not (index ==ℤ minus_one) && not (index ==ℤ last)
        then ok (some snapshot_mismatch, rs)
        else ok (none, record rs { logs = fill 0 xlog empty; last_applied = last })
  ]

  -- `newRfsrv` with snapshots, behind `Make`
  unfoldable pub new_rfsrv : ℕ → Persister → Raft C → Outcome (Rfsrv C)
  unfolding ingest_snap read_snapshot
  new_rfsrv me persister raft =
      let rs : Rfsrv C = record {
        me = me;
        last_applied = pos 0;
        persister = persister;
        raft = some raft;
        logs = empty;
      } in
      elim (read_snapshot persister) [
        | [] ↦ ok rs
        | b ∷ rest ↦ (do
          (err, rs1) ← ingest_snap (b ∷ rest) minus_one rs
          elim err [ none ↦ ok rs1 | some e ↦ panics ])
      ]

  -- `applierSnap`, every tenth command: `Snapshot` of the peer, which panics once it is nil.
  unfoldable pub take_snapshot : ℤ → Rfsrv C → Outcome (Rfsrv C)
  unfolding is_interval collect snapshot
  take_snapshot index rs =
      if is_interval (index +ℤ pos 1)
      then (do
        rf ← or_panic rs.raft
        let xlog : List (Option C) = elim index [
          | pos n ↦ collect 0 (suc n) rs.logs
          | negsuc n ↦ []
        ]
        ok (record rs { raft = some (snapshot index (s.encode index xlog) rf) }))
      else ok rs

module _ {C : Type 0} ⦃e : Eq (Option C)⦄ ⦃s : SnapGob C⦄ where
  -- `applierSnap`, for a message that carries a command
  unfoldable pub snap_command : ℕ → ApplyMsg C → Test C → Outcome (Test C)
  unfolding check_message take_snapshot unless_error
  snap_command i m ts = do
    rs ← or_panic (get_elem? ts.srvs i)
    (err, ts1) ←
        (if m.command_index ==ℤ rs.last_applied +ℤ pos 1
          then check_message i m ts
          else ok (some unexpected_index, ts))
    rs1 ← or_panic (get_elem? ts1.srvs i)
    rs2 ← take_snapshot m.command_index (record rs1 { last_applied = m.command_index })
    unless_error err (record ts1 { srvs = set ts1.srvs i rs2 })

  -- `applierSnap`, for one message
  unfoldable pub applier_snap_message : ℕ → ApplyMsg C → Test C → Outcome (Test C)
  unfolding snap_command ingest_snap unless_error
  applier_snap_message i m ts =
      if m.snapshot_valid
      then (do
        rs ← or_panic (get_elem? ts.srvs i)
        (err, rs1) ← ingest_snap m.snapshot m.snapshot_index rs
        unless_error err (record ts { srvs = set ts.srvs i rs1 }))
      else if m.command_valid
      then snap_command i m ts
      else ok ts

  -- `applierSnap`, for the messages on the channel; a service whose peer is nil reads none.
  snap_loop : ℕ → List (ApplyMsg C) → Test C → Outcome (Test C)
  unfolding applier_snap_message
  snap_loop i [] ts = ok ts
  snap_loop i (m ∷ ms) ts = do ts1 ← applier_snap_message i m ts; snap_loop i ms ts1

  unfoldable pub applier_snap : ℕ → List (ApplyMsg C) → Test C → Outcome (Test C)
  unfolding snap_loop
  applier_snap i ms ts = do
    rs ← or_panic (get_elem? ts.srvs i)
    elim rs.raft [ none ↦ ok ts | some rf ↦ snap_loop i ms ts ]
