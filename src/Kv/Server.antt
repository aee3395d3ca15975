-- ===== src/Kv/Server.antt =====
-- src/kvraft1/server.go: the state machine of one server, and the queue of its local reads.
-- Proofs are in the children.
pub mod Queue
pub mod Replica
use text.Mathlib.Text.{◌==◌ as str_eq}
use raft_kvs.Base.{
  ℕ, zero, suc, ◌+◌, ◌%◌, ℤ, pos, ◌+ℤ◌, ◌-ℤ◌, ◌==ℤ◌, wrap, ltb, ◌==◌, not, pos_part, ◌≡◌, Bool,
  true, false, String, Map, nat_eq, string_eq, empty, insert, delete, get_or, List, [], ◌∷◌, ◌++◌,
  length, Option, none, some, Outcome, ok, panics, blocks, or_panic, to_bound, ◌>>=◌, if◌then◌else◌,
}
use raft_kvs.Rpc.{Err, is_ok, version_mod, PutArgs, PutReply, GetArgs, GetReply}

pub record Op : Type 0 where
  pub op_type : String
  pub get_args : GetArgs
  pub put_args : PutArgs
  pub id : ℕ

-- What `DoOp` returns.
pub data Reply : Type 0 where
  get_reply : GetReply → Reply
  put_reply : PutReply → Reply
  nil : Reply

-- `KVServer`. `answers` are the replies sent to waiting Gets, by the id of their channel; their
-- order says nothing.
pub record KvServer : Type 0 where
  pub me : ℕ
  pub dead : Bool
  pub kv : Map String String
  pub versions : Map String ℕ
  pub sync_version : ℕ
  pub get_queue : List Op
  pub get_queue_len : ℤ
  pub op_chs : Map ℕ (Unit {0})
  pub answers : List (ℕ × GetReply)

-- Go's fmt, as the sync writes use it: `Sprintf("%d %d")`, and `Sscanf` into two variables that
-- were 0. It is documented to scan what it printed.
pub record Fmt : Type 0 where
  pub sprintf : ℕ → ℤ → String
  pub sscanf : String → ℤ × ℤ
  pub sscanf-sprintf : (m : ℕ) (n : ℤ) → sscanf (sprintf m n) ≡ (pos m, n)

abbrev pub queue_capacity : ℕ
queue_capacity = 10000

-- The Get of `DoOp`
unfoldable pub do_get : String → KvServer → GetReply
do_get key s = elim (s.kv key) [
  | none ↦ record { value = ""; version = 0; err = Err.no_key }
  | some val ↦ record { value = val; version = get_or s.versions key 0; err = Err.ok }
]

-- What the goroutine of one queued operation does.
unfoldable pub answer : Op → KvServer → Outcome KvServer
answer op s =
    if str_eq op.op_type "Get"
    then ok (record s { answers = s.answers ++ (op.id, do_get op.get_args.key s) ∷ [] })
    else if str_eq op.op_type "Put"
    then blocks
    else panics

-- `for i := 0; i < queuelen; i++`: the reads for which a goroutine is started, and what is left of
-- the queue. An empty channel blocks.
unfoldable pub drain : ℕ → List Op → KvServer → Outcome (List Op × List Op)
drain zero queue s = ok ([], queue)
drain (suc n) [] s = blocks
drain (suc n) (op ∷ queue) s =
    let rest = drain n queue s in
    do waiting ← or_panic (s.op_chs op.id); (started, left) ← rest; ok (op ∷ started, left)

-- The goroutines in one of the orders in which they may run, up to the `wg.Wait()`. They only read
-- the map, and each sends on a channel of its own.
unfoldable pub answer_all : List Op → KvServer → Outcome KvServer
answer_all [] s = ok s
answer_all (op ∷ order) s = let rest = answer_all order in do t ← answer op s; rest t

-- The sync write that this server asked for; `fresh` is the new random version. The goroutines run
-- in the order of the queue here.
unfoldable pub process_queue : ℕ → ℤ → KvServer → Outcome KvServer
process_queue fresh queuelen s = do
  n ← to_bound queuelen
  (started, left) ← drain n s.get_queue s
  answer_all started (record s {
    sync_version = fresh;
    get_queue_len = wrap 31 (s.get_queue_len -ℤ wrap 31 queuelen);
    get_queue = left;
  })

-- The branch of the key "sync" in `DoOp`
unfoldable pub do_sync : ⦃f : Fmt⦄ → ℕ → PutArgs → KvServer → Outcome KvServer
do_sync ⦃f⦄ fresh args s =
    let (sync_server, queuelen) = f.sscanf args.value in
    if not (sync_server ==ℤ pos s.me)
    then ok s
    else if args.version == s.sync_version
    then process_queue fresh queuelen s
    else ok s

unfoldable pub write : String → String → ℕ → KvServer → KvServer
write key value version s = record s {
  kv = insert key value s.kv;
  versions = insert key version s.versions;
}

unfoldable pub put_over : Option ℕ → PutArgs → KvServer → KvServer × PutReply
put_over none args s =
    if args.version == 0
    then (write args.key args.value 1 s, record { err = Err.ok })
    else (s, record { err = Err.version })
put_over (some current) args s =
    if args.version == current
    then (write args.key args.value ((current + 1) % version_mod) s, record { err = Err.ok })
    else (s, record { err = Err.version })

-- The Put of `DoOp` for any other key
unfoldable pub do_put : PutArgs → KvServer → KvServer × PutReply
unfolding put_over write
do_put args s = put_over (s.versions args.key) args s

-- `DoOp`, with the random number that it may draw
unfoldable pub do_op : ⦃f : Fmt⦄ → ℕ → Op → KvServer → Outcome (KvServer × Reply)
do_op fresh op s =
    if str_eq op.op_type "Get"
    then ok (s, get_reply (do_get op.get_args.key s))
    else if str_eq op.op_type "Put"
    then (if str_eq op.put_args.key "sync"
        then (do t ← do_sync fresh op.put_args s; ok (t, put_reply (record { err = Err.ok })))
        else let (t, r) = do_put op.put_args s in ok (t, put_reply r))
    else ok (s, nil)

-- encoding/gob for the two maps; nothing here relies on what it writes.
pub record MapGob : Type 0 where
  pub encode : Map String String → Map String ℕ → List ℕ
  pub decode : List ℕ → Option (Map String String × Map String ℕ)

unfoldable pub snapshot : ⦃g : MapGob⦄ → KvServer → List ℕ
snapshot ⦃g⦄ s = g.encode s.kv s.versions

unfoldable pub restore : ⦃g : MapGob⦄ → List ℕ → KvServer → Outcome KvServer
restore [] s = ok s
restore ⦃g⦄ (b ∷ bytes) s = elim (g.decode (b ∷ bytes)) [
  | none ↦ panics
  | some (kv, versions) ↦ ok (record s { kv = kv; versions = versions })
]

-- `Get` up to its wait for the reply, under the random id of its channel
unfoldable pub begin_get : ℕ → GetArgs → KvServer → Outcome KvServer
begin_get id args s =
    if ltb (length s.get_queue) queue_capacity
    then ok (record s {
      op_chs = insert id tt s.op_chs;
      get_queue_len = wrap 31 (s.get_queue_len +ℤ pos 1);
      get_queue =
          s.get_queue
          ++ record {
            op_type = "Get";
            get_args = args;
            put_args = record { key = ""; value = ""; version = 0 };
            id = id;
          }
            ∷ [];
    })
    else blocks

-- `Get` after the reply
unfoldable pub end_get : ℕ → KvServer → KvServer
end_get id s = record s { op_chs = delete id s.op_chs }

unfoldable pub kill : KvServer → KvServer
kill s = record s { dead = true }

unfoldable pub killed : KvServer → Bool
killed s = s.dead

-- `StartKVServer`: the server before its goroutine runs.
unfoldable pub start_server : ℕ → ℕ → KvServer
start_server me fresh = record {
  me = me;
  dead = false;
  kv = empty;
  versions = empty;
  sync_version = fresh;
  get_queue = [];
  get_queue_len = pos 0;
  op_chs = empty;
  answers = [];
}

-- The goroutine of `StartKVServer`: the sync write of one round, if reads are waiting.
unfoldable pub sync_request : ⦃f : Fmt⦄ → KvServer → Option PutArgs
sync_request ⦃f⦄ s =
    if ltb 0 (pos_part s.get_queue_len)
    then some
        (record { key = "sync"; value = f.sprintf s.me s.get_queue_len; version = s.sync_version })
    else none

-- The same after the reply: it waits until the write is applied here, or draws a new version.
unfoldable pub sync_replied : ℕ → PutArgs → PutReply → KvServer → Outcome KvServer
sync_replied fresh args reply s =
    if is_ok reply.err
    then (if s.sync_version == args.version then blocks else ok s)
    else ok (record s { sync_version = fresh })
