-- ===== src/Tests/Net.antt =====
-- Examples of the network and of the counter.
use raft_kvs.Base.{
  ℕ, suc, ◌+◌, pos, wrap, ◌+ℤ◌, ◌≡◌, ◌≢◌, ◌⊎◌, inl, refl, arith, true, false, get_or, insert, empty,
  nat_eq, string_eq, [], ◌∷◌, some, ok, String,
}
use raft_kvs.Raft.Types.{ApplyMsg, applied}
use raft_kvs.Net.{
  Network, Server, Service, ReqMsg, ReplyMsg, failure, reached, receive, end_req, arrive,
  send_reply, at_once, delayed, is_server_dead, call, dispatch, dispatch_service, split_last,
}
use raft_kvs.Net.Delivery.{handled, end_req_alive, call_unreachable, call_reliable}
use raft_kvs.Kv.Rsm.{Rsm, Op, read_all, read_msg, notify}
use raft_kvs.Kv.Rsm.Feed.{requests}
use raft_kvs.Kv.Counter.{Req, inc, null, CounterReply, RsmSrv, incs, do_op, read_all_counts}
use raft_kvs.Tests.Samples.{ints}

-- A service whose one method adds one to its receiver and replies with the arguments.
abbrev echo : Service ℕ
echo = record { name = "Kv"; rcvr = 4; methods = insert "Echo" (λ args n. ok (suc n, args)) empty }

abbrev host : Server ℕ
host = record { services = insert "Kv" echo empty; count = 2 }

abbrev net : Network ℕ
net = record {
  reliable = true;
  long_delays = false;
  long_reordering = false;
  ends = insert "e" tt empty;
  enabled = insert "e" true empty;
  servers = insert "s" 1 empty;
  connections = insert "e" "s" empty;
  count = 0;
  bytes = 0;
  store = insert 1 host empty;
}

abbrev ping : String → ReqMsg
ping endname = record { endname = endname; svc_meth = "Kv.Echo"; args = 7 ∷ [] }

abbrev pong : ReplyMsg
pong = record { ok = true; reply = 7 ∷ [] }

-- While the reply waits the server is deleted; a reply that the network has delayed still arrives.
abbrev gone : Network ℕ → Network ℕ
gone rn = record rn { servers = empty }

end_req_alive_example :
    (get_or net.enabled "e" false ≡ true)
    × (net.servers "s" ≡ some 1)
    × (true ≡ true)
    × (((delayed pong ≡ at_once pong)
          × (arrive gone (net, delayed pong) ≡ (send_reply pong net, pong)))
        ⊎ ((true ≡ true)
            × (delayed pong ≡ delayed pong)
            × (arrive gone (net, delayed pong) ≡ (send_reply pong (gone net), pong))))
unfolding end_req is_server_dead arrive
end_req_alive_example =
    end_req_alive 50 100 true true true (ping "e") "s" 1 pong net net (delayed pong) refl gone refl

call_unreachable_example :
    call 3 4 5 true true gone gone (ping "f") net ≡ ok (gone (receive (ping "f") net), failure)
call_unreachable_example = call_unreachable 3 4 5 true gone gone (ping "f") net (inl refl)

abbrev echoed : Server ℕ
echoed = record { services = insert "Kv" (record echo { rcvr = 5 }) host.services; count = 3 }

call_reliable_example :
    (rn1 : Network ℕ) × (rn1 ≡ handled (ping "e") 1 echoed net)
    × (echoed.count ≡ suc host.count)
    × (rn1.count ≡ suc net.count)
    × (true ≡ true
        → get_or (gone rn1).enabled "e" false ≡ true
        → (gone rn1).servers "s" ≡ some 1
        → (rn2 : Network ℕ) × (call 3 4 5 true true gone gone (ping "e") net ≡ ok (rn2, pong))
          × ((rn2 ≡ send_reply pong (gone rn1))
              ⊎ ((net.long_reordering ≡ true) × (rn2 ≡ send_reply pong (gone (gone rn1))))))
    × ((true ≡ false)
          ⊎ (get_or (gone rn1).enabled "e" false ≡ false)
          ⊎ ((gone rn1).servers "s" ≢ some 1)
        → call 3 4 5 true true gone gone (ping "e") net ≡ ok (gone rn1, failure))
unfolding reached dispatch dispatch_service split_last
call_reliable_example =
    call_reliable 3 4 5 1 true gone gone "s" (ping "e") net host echoed pong refl refl refl refl

abbrev msg : Req → ApplyMsg (Op Req)
msg q = applied (some (record { id = 3; me = 0; req = q })) (pos 1)

abbrev initial : Rsm CounterReply RsmSrv
initial = record {
  me = 1;
  maxraftstate = pos 0;
  sm = record { me = 1; running = true; counter = pos 0 };
  op_chs = empty;
  sent = [];
}

abbrev counted : Rsm CounterReply RsmSrv
counted = record initial { sm = record { me = 1; running = true; counter = pos 2 } }

read_all_counts_example :
    counted.sm.counter ≡ pos (0 + incs (requests (msg inc ∷ msg null ∷ msg inc ∷ [])))
unfolding requests incs do_op read_all read_msg notify wrap ◌+ℤ◌
read_all_counts_example =
    read_all_counts (λ n. n) 0 0 (msg inc ∷ msg null ∷ msg inc ∷ []) initial {r' = counted}
      (refl, (refl, (refl, tt))) refl (ground arith) refl
