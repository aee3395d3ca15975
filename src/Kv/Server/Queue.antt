-- ===== src/Kv/Server/Queue.antt =====
-- The queue of local reads: who is answered by a sync write, and with what.
use text.Mathlib.TextEquality.{eq_iff}
use raft_kvs.Base.{
  ℕ, zero, suc, ◌≤◌, pos, ◌-ℤ◌, wrap, ◌≡◌, refl, sym, subst, ap, ◌∙◌, arith, String, some, ok, List,
  [], ◌∷◌, ◌++◌, map, append-nil, append_assoc, length, take, drop, All,
}
use mathlib.Core.List.{Permᴰ}
use mathlib.Core.List.Permᴰ
use mathlib.Core.Path.{ap₂}
use raft_kvs.Rpc.{PutArgs, GetReply}
use raft_kvs.Kv.Server.{
  KvServer, Op, Fmt, do_sync, process_queue, drain, answer, answer_all, do_get,
}

-- A queued read whose `Get` waits for the answer.
pub record IsWaiting (s : KvServer) (op : Op) : Type 0 where
  pub reads : op.op_type ≡ "Get"
  pub channel : s.op_chs op.id ≡ some tt

-- The answers to queued reads, from the map as it is.
abbrev pub read_all : KvServer → List Op → List (ℕ × GetReply)
read_all s ops = map (λ op. (op.id, do_get op.get_args.key s)) ops

answered : Op → KvServer → KvServer
answered op s = record s { answers = s.answers ++ (op.id, do_get op.get_args.key s) ∷ [] }

answer_waiting : (op : Op) (s : KvServer) → IsWaiting s op → answer op s ≡ ok (answered op s)
unfolding answer answered
answer_waiting op s w = ground (arith, eq_iff op.op_type "Get", w.reads)

do_get-answered : (k : String) (op : Op) (s : KvServer) → do_get k (answered op s) ≡ do_get k s
unfolding do_get answered
do_get-answered k op s = refl

read_all-answered :
    (op : Op) (s : KvServer) (ops : List Op) → read_all (answered op s) ops ≡ read_all s ops
read_all-answered op s [] = refl
read_all-answered op s (x ∷ ops) =
    ap₂ (λ (r : GetReply) (rest : List (ℕ × GetReply)). (x.id, r) ∷ rest)
      (do_get-answered x.get_args.key op s) (read_all-answered op s ops)

All-answered :
    (op : Op) (s : KvServer) (ops : List Op)
    → All (IsWaiting s) ops
    → All (IsWaiting (answered op s)) ops
unfolding answered
All-answered op s [] w = tt
All-answered op s (x ∷ ops) (w, ws) =
    (record { reads = w.reads; channel = w.channel }, All-answered op s ops ws)

drain_waiting :
    (n : ℕ) (queue : List Op) (s : KvServer)
    → n ≤ length queue
    → All (IsWaiting s) (take n queue)
    → drain n queue s ≡ ok (take n queue, drop n queue)
unfolding drain
drain_waiting zero queue s h w = refl
drain_waiting (suc n) [] s h w = absurd (omega arith)
drain_waiting (suc n) (op ∷ queue) s h (w, ws) =
    rw (w.channel, drain_waiting n queue s (omega arith) ws) refl

answer_all_waiting :
    (order : List Op) (s : KvServer)
    → All (IsWaiting s) order
    → answer_all order s ≡ ok (record s { answers = s.answers ++ read_all s order })
unfolding answer_all answered
answer_all_waiting [] s w =
    ap (λ (l : List (ℕ × GetReply)). ok (record s { answers = l })) (sym (append-nil s.answers))
answer_all_waiting (op ∷ order) s (w, ws) =
    let s1 = answered op s in
    let rest = answer_all_waiting order s1 (All-answered op s order ws) in
    let all_answers : s1.answers ++ read_all s1 order ≡ s.answers ++ read_all s (op ∷ order) =
      ap (◌++◌ s1.answers) (read_all-answered op s order)
      ∙ append_assoc s.answers ((op.id, do_get op.get_args.key s) ∷ []) (read_all s order) in
    rw (answer_waiting op s w)
      (rest ∙ ap (λ (l : List (ℕ × GetReply)). ok (record s { answers = l })) all_answers)

-- Whoever waits first, the same reads wait.
All-order : (s : KvServer) {l m : List Op} → Permᴰ l m → All (IsWaiting s) l → All (IsWaiting s) m
All-order s Permᴰ.nil w = tt
All-order s (Permᴰ.cons same p) (w, ws) = (subst (IsWaiting s) same w, All-order s p ws)
All-order s (Permᴰ.swap same same') (w, (w', ws)) =
    (subst (IsWaiting s) same' w', (subst (IsWaiting s) same w, ws))
All-order s (Permᴰ.trans p q) ws = All-order s q (All-order s p ws)

-- The server when the goroutines of one sync write have been started.
abbrev pub drawn : ℕ → ℕ → KvServer → KvServer
drawn fresh n s = record s {
  sync_version = fresh;
  get_queue_len = wrap 31 (s.get_queue_len -ℤ wrap 31 (pos n));
  get_queue = drop n s.get_queue;
}

do_get-drawn : (fresh n : ℕ) (k : String) (s : KvServer) → do_get k (drawn fresh n s) ≡ do_get k s
unfolding do_get
do_get-drawn fresh n k s = refl

read_all-drawn :
    (fresh n : ℕ) (s : KvServer) (ops : List Op) → read_all (drawn fresh n s) ops ≡ read_all s ops
read_all-drawn fresh n s [] = refl
read_all-drawn fresh n s (x ∷ ops) =
    ap₂ (λ (r : GetReply) (rest : List (ℕ × GetReply)). (x.id, r) ∷ rest)
      (do_get-drawn fresh n x.get_args.key s) (read_all-drawn fresh n s ops)

All-drawn :
    (fresh n : ℕ) (s : KvServer) (ops : List Op)
    → All (IsWaiting s) ops
    → All (IsWaiting (drawn fresh n s)) ops
All-drawn fresh n s [] w = tt
All-drawn fresh n s (x ∷ ops) (w, ws) =
    (record { reads = w.reads; channel = w.channel }, All-drawn fresh n s ops ws)

-- What one sync write leaves of the server `s`: the oldest `n` reads are answered from the map of
-- `s`, in some order, and off the queue and its count, and nothing is written to the map.
pub record IsAnswered (fresh n : ℕ) (s t : KvServer) : Type 0 where
  pub answers : Permᴰ t.answers (s.answers ++ read_all s (take n s.get_queue))
  pub queue : t.get_queue ≡ drop n s.get_queue
  pub count : t.get_queue_len ≡ wrap 31 (s.get_queue_len -ℤ wrap 31 (pos n))
  pub version : t.sync_version ≡ fresh
  pub kv : t.kv ≡ s.kv
  pub versions : t.versions ≡ s.versions

answer_all-IsAnswered :
    (fresh n : ℕ) (order : List Op) (s : KvServer)
    → All (IsWaiting s) (take n s.get_queue)
    → Permᴰ order (take n s.get_queue)
    → (t : KvServer) × (answer_all order (drawn fresh n s) ≡ ok t) × IsAnswered fresh n s t
answer_all-IsAnswered fresh n order s w p =
    let ws = All-drawn fresh n s order (All-order s (Permᴰ.symm p) w) in
    (
      _,
      answer_all_waiting order (drawn fresh n s) ws,
      record {
        answers =
            subst (λ l. Permᴰ (s.answers ++ l) (s.answers ++ read_all s (take n s.get_queue)))
              (sym (read_all-drawn fresh n s order))
              (Permᴰ.append_left s.answers (Permᴰ.map (λ op. (op.id, do_get op.get_args.key s)) p));
        queue = refl;
        count = refl;
        version = refl;
        kv = refl;
        versions = refl;
      },
    )

process_queue_waiting :
    (fresh n : ℕ) (s : KvServer)
    → n ≤ length s.get_queue
    → All (IsWaiting s) (take n s.get_queue)
    → process_queue fresh (pos n) s ≡ answer_all (take n s.get_queue) (drawn fresh n s)
unfolding process_queue
process_queue_waiting fresh n s h w = rw (drain_waiting n s.get_queue s h w) refl

module _ ⦃f : Fmt⦄ where
  do_sync_mine :
      (fresh n : ℕ) (args : PutArgs) (s : KvServer)
      → f.sscanf args.value ≡ (pos s.me, pos n)
      → args.version ≡ s.sync_version
      → do_sync fresh args s ≡ process_queue fresh (pos n) s
  unfolding do_sync
  do_sync_mine fresh n args s mine current = ground arith

  -- The sync write that a server asked for, when it is applied there at the version at which it
  -- was asked for and at least n reads wait in the queue, answers the oldest n, each once and from
  -- the map that all writes before it have made, in whatever order the goroutines run; it takes
  -- them off the queue and off its count, and draws a new version.
  pub do_sync_answers :
      (fresh n : ℕ) (args : PutArgs) (s : KvServer)
      → f.sscanf args.value ≡ (pos s.me, pos n)
      → args.version ≡ s.sync_version
      → n ≤ length s.get_queue
      → All (IsWaiting s) (take n s.get_queue)
      → ((u : KvServer) × (do_sync fresh args s ≡ ok u) × IsAnswered fresh n s u)
        × (do_sync fresh args s ≡ answer_all (take n s.get_queue) (drawn fresh n s))
        × ((order : List Op)
            → Permᴰ order (take n s.get_queue)
            → (t : KvServer) × (answer_all order (drawn fresh n s) ≡ ok t) × IsAnswered fresh n s t)
  do_sync_answers fresh n args s mine current h w =
      let ops = take n s.get_queue in
      let runs = do_sync_mine fresh n args s mine current ∙ process_queue_waiting fresh n s h w in
      let (u, ran, done) = answer_all-IsAnswered fresh n ops s w (Permᴰ.refl ops) in
      ((u, runs ∙ ran, done), runs, λ order p. answer_all-IsAnswered fresh n order s w p)
