-- ===== src/Tests/Kv.antt =====
-- Examples of the store: servers, the feed from the log, and clerks.
use text.Mathlib.TextEquality.{eq_iff}
use mathlib.Core.List.{Permᴰ}
use raft_kvs.Base.{
  false, ◌⊎◌, delete, ℕ, ◌+◌, pos, ◌≡◌, ◌≢◌, refl, arith, true, String, List, [], ◌∷◌, ◌++◌, some,
  ok, take, empty, insert, string_eq, nat_eq,
}
use raft_kvs.Rpc.{Err, PutReply}
use raft_kvs.Raft.Types.{ApplyMsg, applied, abort_msg, Raft, leader, is_leader}
use raft_kvs.Persister.{make_persister}
use raft_kvs.Kv.Model.{step}
use raft_kvs.Kv.Server.{
  Reply, KvServer, Op, put_reply, do_op, do_put, do_sync, write, put_over, answer_all,
}
use raft_kvs.Kv.Server.Queue.{IsAnswered, drawn, do_sync_answers}
use raft_kvs.Kv.Server.Replica.{SameMap, view, do_op-step, put_input, put_output}
use raft_kvs.Kv.Rsm as Feed
use raft_kvs.Kv.Rsm.{Rsm, result, read_msg, notify, make_rsm}
use raft_kvs.Kv.Rsm.Feed.{requests}
use raft_kvs.Kv.Composed.{kv_machine, put_command, servers_agree, end_put, applied_put}
use raft_kvs.Kv.Clerk.{Clerk, replied, failed, put}
use raft_kvs.Kv.Clerk.Puts.{put_lem}
use raft_kvs.Tests.Samples.{
  marks, no_bytes, print, scan, strokes, print_second, count, server, put_args, put_op, get_op,
}

do_op-step_example :
    (t : KvServer) × (r : PutReply) × (do_op 7 (put_op "x" "b" 1) server ≡ ok (t, put_reply r))
    × (step (view server "x") (put_input (put_args "x" "b" 1)) (put_output r)
        ≡ (true, some (view t "x")))
    × ((j : String) → "x" ≢ j → view t j ≡ view server j)
do_op-step_example =
    do_op-step 7 (put_op "x" "b" 1) server refl (λ h. ground (arith, eq_iff "x" "sync"))

-- Two servers with one map, of which one has a read in its queue.
abbrev other : KvServer
other = record server { me = 2; get_queue = get_op "x" 3 ∷ []; get_queue_len = pos 1 }

abbrev updated : KvServer → KvServer
updated s = record s { kv = insert "x" "b" s.kv; versions = insert "x" 2 s.versions }

abbrev msg : Op → ℕ → ApplyMsg (Feed.Op Op)
msg op i = applied (some (record { id = i; me = 0; req = op })) (pos i)

-- The second server is sent an aborted command first.
servers_agree_example : SameMap (updated server) (updated other)
unfolding requests kv_machine Feed.read_all read_msg notify do_op do_put put_over write make_rsm
servers_agree_example =
    servers_agree (λ n. n) (λ n. n + 7) 0 0 (msg (put_op "x" "b" 1) 1 ∷ [])
      (abort_msg (some (record { id = 9; me = 0; req = get_op "x" 4 }))
        ∷ msg (put_op "x" "b" 1) 1
        ∷ [])
      (make_rsm 1 (pos 0) server) (make_rsm 2 (pos 0) other)
      {a' = record (make_rsm 1 (pos 0) server) { sm = updated server }}
      {b' = record (make_rsm 2 (pos 0) other) { sm = updated other }} (refl, tt) (refl, (refl, tt))
      refl (record { kv = refl; versions = refl }) refl refl

-- The leader of term 2, and the server on it, where the command with the id 3 waits.
abbrev lead : Raft (Feed.Op Op)
lead = record {
  peers = 3;
  persister = make_persister;
  me = 1;
  dead = false;
  current_term = pos 2;
  voted_for = pos 1;
  log = [];
  commit_index = pos 0;
  last_applied = pos 0;
  next_index = [];
  match_index = [];
  state = leader;
  last_heartbeat_time = 0;
  leader_id = pos 1;
  last_heartbeat_sent = 0;
  apply_ch = [];
  apply_cond = 0;
  calls = [];
}

abbrev holder : Rsm Reply KvServer
holder = record { me = 1; maxraftstate = pos 0; sm = server; op_chs = insert 3 tt empty; sent = [] }

applied_put_example :
    (r1 : Rsm Reply KvServer) × (reply : PutReply) × (read_msg kv_machine 7
        (applied (some (record { id = 3; me = 1; req = put_command (put_args "x" "b" 1) })) (pos 4))
        holder
      ≡ ok r1)
    × (r1.sent ≡ holder.sent ++ (3, result (put_reply reply)) ∷ [])
    × (step (view server "x") (put_input (put_args "x" "b" 1)) (put_output reply)
        ≡ (true, some (view r1.sm "x")))
    × ((j : String) → "x" ≢ j → view r1.sm j ≡ view server j)
    × (is_leader lead.state ≡ true
        → lead.current_term ≡ pos 2
        → end_put 3 (pos 2) (result (put_reply reply)) lead r1
          ≡ ok (record r1 { op_chs = delete 3 r1.op_chs }, reply))
    × ((is_leader lead.state ≡ false) ⊎ (lead.current_term ≢ pos 2)
        → end_put 3 (pos 2) (result (put_reply reply)) lead r1
          ≡ ok (record r1 { op_chs = delete 3 r1.op_chs }, record { err = Err.wrong_leader }))
applied_put_example =
    applied_put 7 3 1 4 (pos 2) (put_args "x" "b" 1) lead holder
      (λ h. ground (arith, eq_iff "x" "sync")) refl

-- One read waits, and the sync write that was made for it is applied.
abbrev reader : KvServer
reader = record server {
  get_queue = get_op "x" 3 ∷ [];
  get_queue_len = pos 1;
  op_chs = insert 3 tt empty;
}

do_sync_answers_example :
    ((u : KvServer) × (do_sync 8 (put_args "sync" (print 1 (pos 1)) 5) reader ≡ ok u)
      × IsAnswered 8 1 reader u)
    × (do_sync 8 (put_args "sync" (print 1 (pos 1)) 5) reader
        ≡ answer_all (take 1 reader.get_queue) (drawn 8 1 reader))
    × ((order : List Op)
        → Permᴰ order (take 1 reader.get_queue)
        → (t : KvServer) × (answer_all order (drawn 8 1 reader) ≡ ok t) × IsAnswered 8 1 reader t)
unfolding marks print scan strokes print_second count
do_sync_answers_example =
    do_sync_answers 8 1 (put_args "sync" (print 1 (pos 1)) 5) reader refl refl (ground arith)
      (record { reads = refl; channel = refl }, tt)

abbrev names : List String
names = "a" ∷ "b" ∷ "c" ∷ []

-- The first server's reply is lost, the second answers with ErrVersion.
put_lem_example :
    (ck' : Clerk) × (put
        (failed ∷ replied (record { err = Err.version }) ∷ [])
        (record { servers = names })
      ≡ ok (ck', Err.version))
put_lem_example =
    put_lem (failed ∷ []) (replied (record { err = Err.version })) [] (record { servers = names })
      Err.version (tt, tt) (ground arith) refl
