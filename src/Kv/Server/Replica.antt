-- ===== src/Kv/Server/Replica.antt =====
-- The map of a server: it follows the checker's model, and it is the same on every replica.
use text.Mathlib.Text.{◌==◌ as str_eq}
use text.Mathlib.TextEquality.{eq_iff}
use raft_kvs.Base.{
  ℕ, ◌+◌, ◌%◌, ◌≡◌, ◌≢◌, refl, sym, ap, ◌∙◌, inl, inr, arith, true, false, Bool, Bool-cases, String,
  get_or, insert, Option, some, none, ok, >>=-eq-ok, List, [], ◌∷◌, ◌==◌, string_eq, not, ◌&&◌,
  subst, ℤ, pos, negsuc,
}
use raft_kvs.Rpc.{version_mod, PutArgs, PutReply, GetReply}
use raft_kvs.Kv.Model.{KvState, KvInput, KvOutput, step}
use raft_kvs.Kv.Server.{
  KvServer, Op, Fmt, Reply, do_op, do_put, do_sync, process_queue, drain, answer, answer_all,
  put_reply, write, put_over,
}

-- What the checker's model sees of a server, at one key.
abbrev pub view : KvServer → String → KvState
view s k = record { value = get_or s.kv k ""; version = get_or s.versions k 0 }

abbrev pub put_input : PutArgs → KvInput
put_input args = record { op = 1; key = args.key; value = args.value; version = args.version }

abbrev pub get_input : String → KvInput
get_input k = record { op = 0; key = k; value = ""; version = 0 }

abbrev pub put_output : PutReply → KvOutput
put_output r = record { value = ""; version = 0; err = r.err }

abbrev pub get_output : GetReply → KvOutput
get_output r = record { value = r.value; version = r.version; err = r.err }

do_put-step :
    (args : PutArgs) (s : KvServer)
    → (step (view s args.key) (put_input args) (put_output (do_put args s).1)
        ≡ (true, some (view (do_put args s).0 args.key)))
      × ((j : String) → args.key ≢ j → view (do_put args s).0 j ≡ view s j)
unfolding do_put step
do_put-step args s =
    (ground (arith, eq_iff args.key args.key), λ j ne. ground (arith, eq_iff args.key j))

-- The queue of reads and its bookkeeping leave the map alone.
answer-same :
    (op : Op) (s : KvServer) {t : KvServer}
    → answer op s ≡ ok t
    → (t.kv ≡ s.kv) × (t.versions ≡ s.versions)
unfolding answer
answer-same op s h = ground arith

answer_all-same :
    (order : List Op) (s : KvServer) {t : KvServer}
    → answer_all order s ≡ ok t
    → (t.kv ≡ s.kv) × (t.versions ≡ s.versions)
unfolding answer_all
answer_all-same [] s h = ground arith
answer_all-same (op ∷ order) s h =
    let (u, e, h2) = >>=-eq-ok (answer op s) _ h in
    let (a, b) = answer-same op s e in let (c, d) = answer_all-same order u h2 in (c ∙ a, d ∙ b)

-- Two servers with the same map.
pub record SameMap (a b : KvServer) : Type 0 where
  pub kv : a.kv ≡ b.kv
  pub versions : a.versions ≡ b.versions

write-SameMap :
    (k v : String) (n : ℕ) (a b : KvServer) → SameMap a b → SameMap (write k v n a) (write k v n b)
unfolding write
write-SameMap k v n a b h = record {
  kv = ap (insert k v) h.kv;
  versions = ap (insert k n) h.versions;
}

put_over-SameMap :
    (o : Option ℕ) (args : PutArgs) (a b : KvServer)
    → SameMap a b
    → SameMap (put_over o args a).0 (put_over o args b).0
unfolding put_over
put_over-SameMap none args a b h = elim (Bool-cases (args.version == 0)) [
  | inl first ↦ rw first (write-SameMap args.key args.value 1 a b h)
  | inr late ↦ rw late h
]
put_over-SameMap (some v) args a b h = elim (Bool-cases (args.version == v)) [
  | inl same ↦ rw same (write-SameMap args.key args.value ((v + 1) % version_mod) a b h)
  | inr differs ↦ rw differs h
]

do_put-SameMap :
    (args : PutArgs) (a b : KvServer) → SameMap a b → SameMap (do_put args a).0 (do_put args b).0
unfolding do_put
do_put-SameMap args a b h =
    subst (λ o. SameMap (do_put args a).0 (put_over o args b).0) (ap (λ m. m args.key) h.versions)
      (put_over-SameMap (a.versions args.key) args a b h)

queued_same :
    (fresh : ℕ) (args : PutArgs) (queuelen : ℤ) (s : KvServer) {t : KvServer}
    → process_queue fresh queuelen s ≡ ok t
    → (t.kv ≡ s.kv) × (t.versions ≡ s.versions)
unfolding process_queue
queued_same fresh args (pos n) s h =
    let ((started, left), _, h1) = >>=-eq-ok (drain n s.get_queue s) _ h in
    answer_all-same started _ h1
queued_same fresh args (negsuc n) s h = cc

-- The operations of the log that write to the map.
writes : Op → Bool
writes op =
    not (str_eq op.op_type "Get") && str_eq op.op_type "Put" && not (str_eq op.put_args.key "sync")

module _ ⦃f : Fmt⦄ where
  do_sync-same :
      (fresh : ℕ) (args : PutArgs) (s : KvServer) {t : KvServer}
      → do_sync fresh args s ≡ ok t
      → (t.kv ≡ s.kv) × (t.versions ≡ s.versions)
  unfolding do_sync
  do_sync-same fresh args s {t} h =
      ground (arith, queued_same fresh args (f.sscanf args.value).1 s {t = t})

  do_op_writes :
      (fresh : ℕ) (op : Op) (s : KvServer) {t : KvServer} {r : Reply}
      → do_op fresh op s ≡ ok (t, r)
      → writes op ≡ true
      → t ≡ (do_put op.put_args s).0
  unfolding do_op writes
  do_op_writes fresh op s h w = ground arith

  do_op_reads :
      (fresh : ℕ) (op : Op) (s : KvServer) {t : KvServer} {r : Reply}
      → do_op fresh op s ≡ ok (t, r)
      → writes op ≡ false
      → (t.kv ≡ s.kv) × (t.versions ≡ s.versions)
  unfolding do_op writes
  do_op_reads fresh op s {t} h w = ground (arith, do_sync-same fresh op.put_args s {t = t})

  pub do_op-SameMap :
      (x y : ℕ) (op : Op) (a b : KvServer) {a' b' : KvServer} {r r' : Reply}
      → SameMap a b
      → do_op x op a ≡ ok (a', r)
      → do_op y op b ≡ ok (b', r')
      → SameMap a' b'
  do_op-SameMap x y op a b {a'} {b'} h p q = elim (Bool-cases (writes op)) [
    | inl w ↦
        rw (do_op_writes x op a p w, do_op_writes y op b q w) (do_put-SameMap op.put_args a b h)
    | inr w ↦
        let (k, v) = do_op_reads x op a p w in
        let (k', v') = do_op_reads y op b q w in
        record { kv = k ∙ h.kv ∙ sym k'; versions = v ∙ h.versions ∙ sym v' }
  ]

  -- A Put of any key but "sync" is answered, and what `DoOp` does to its key and answers is what the
  -- checker's model does and allows; it changes no other key.
  pub do_op-step :
      (fresh : ℕ) (op : Op) (s : KvServer)
      → op.op_type ≡ "Put"
      → op.put_args.key ≢ "sync"
      → (t : KvServer) × (r : PutReply) × (do_op fresh op s ≡ ok (t, put_reply r))
        × (step (view s op.put_args.key) (put_input op.put_args) (put_output r)
            ≡ (true, some (view t op.put_args.key)))
        × ((j : String) → op.put_args.key ≢ j → view t j ≡ view s j)
  unfolding do_op
  do_op-step fresh op s puts key =
      let args = op.put_args in
      let (stepped, others) = do_put-step args s in
      let is_put = subst (λ x. str_eq x "Put" ≡ true) (sym puts) (ground arith) in
      let no_get = subst (λ x. str_eq x "Get" ≡ false) (sym puts) (ground arith) in
      let other : str_eq args.key "sync" ≡ false = ground (arith, eq_iff args.key "sync") in
      ((do_put args s).0, (do_put args s).1, rw (no_get, is_put, other) refl, stepped, others)
