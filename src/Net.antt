-- ===== src/Net.antt =====
-- src/labrpc/labrpc.go: the network between clients and servers, which loses, delays and reorders.
-- Names of end points and servers are strings; a `*Server` is its place in a store of servers.
-- Proofs are in the child.
pub mod Delivery
use Prim.Native.Char.{code}
use Prim.Native.String.{[] as no_text, ◌∷◌ as put_char}
use raft_kvs.Base.{
  ℕ, suc, ◌+◌, ◌%◌, ◌==◌, ltb, Bool, true, false, ◌&&◌, not, ◌||◌, String, Map, string_eq, nat_eq,
  empty, insert, delete, get_or, List, [], length, Option, none, some, Outcome, ok, panics,
  or_panic, ◌>>=◌, if◌then◌else◌,
}

-- `reqMsg`, without its reply channel; the arguments are encoded.
pub record ReqMsg : Type 0 where
  pub endname : String
  pub svc_meth : String
  pub args : List ℕ

pub record ReplyMsg : Type 0 where
  pub ok : Bool
  pub reply : List ℕ

-- `Service`, with the state of its receiver. A method decodes its arguments, changes the receiver
-- and encodes its reply.
pub record Service (S : Type 0) : Type 0 where
  pub name : String
  pub rcvr : S
  pub methods : Map String (List ℕ → S → Outcome (S × List ℕ))

pub record Server (S : Type 0) : Type 0 where
  pub services : Map String (Service S)
  pub count : ℕ

-- `Network`. `connections` and `servers` hold no nil: a name that stands for nil is absent.
pub record Network (S : Type 0) : Type 0 where
  pub reliable : Bool
  pub long_delays : Bool
  pub long_reordering : Bool
  pub ends : Map String (Unit {0})
  pub enabled : Map String Bool
  pub servers : Map String ℕ
  pub connections : Map String String
  pub count : ℕ
  pub bytes : ℕ
  pub store : Map ℕ (Server S)

abbrev pub failure : ReplyMsg
failure = record { ok = false; reply = [] }

-- How `processReq` replies: now, or by a timer after 200 ms or more.
pub data Sent : Type 0 where
  at_once delayed : ReplyMsg → Sent

module _ {S : Type 0} where
  unfoldable pub make_network : Network S
  make_network = record {
    reliable = true;
    long_delays = false;
    long_reordering = false;
    ends = empty;
    enabled = empty;
    servers = empty;
    connections = empty;
    count = 0;
    bytes = 0;
    store = empty;
  }

  unfoldable pub set_reliable : Bool → Network S → Network S
  set_reliable b rn = record rn { reliable = b }

  unfoldable pub is_reliable : Network S → Bool
  is_reliable rn = rn.reliable

  unfoldable pub set_long_reordering : Bool → Network S → Network S
  set_long_reordering b rn = record rn { long_reordering = b }

  unfoldable pub set_long_delays : Bool → Network S → Network S
  set_long_delays b rn = record rn { long_delays = b }

  unfoldable pub is_long_delays : Network S → Bool
  is_long_delays rn = rn.long_delays

  -- `MakeEnd`; a name that is taken ends the program.
  unfoldable pub make_end : String → Network S → Outcome (Network S)
  make_end endname rn = elim (rn.ends endname) [
    | some _ ↦ panics
    | none ↦ ok (record rn {
      ends = insert endname tt rn.ends;
      enabled = insert endname false rn.enabled;
      connections = delete endname rn.connections;
    })
  ]

  unfoldable pub delete_end : String → Network S → Outcome (Network S)
  delete_end endname rn = elim (rn.ends endname) [
    | none ↦ panics
    | some _ ↦ ok (record rn {
      ends = delete endname rn.ends;
      enabled = delete endname rn.enabled;
      connections = delete endname rn.connections;
    })
  ]

  unfoldable pub add_server : String → ℕ → Network S → Network S
  add_server servername rs rn = record rn { servers = insert servername rs rn.servers }

  unfoldable pub delete_server : String → Network S → Network S
  delete_server servername rn = record rn { servers = delete servername rn.servers }

  unfoldable pub connect : String → String → Network S → Network S
  connect endname servername rn = record rn {
    connections = insert endname servername rn.connections;
  }

  unfoldable pub enable : String → Bool → Network S → Network S
  enable endname enabled rn = record rn { enabled = insert endname enabled rn.enabled }

  -- `GetCount` of a server by its name; nil panics.
  unfoldable pub get_count : String → Network S → Outcome ℕ
  get_count servername rn = do
    id ← or_panic (rn.servers servername)
    rs ← or_panic (rn.store id)
    ok rs.count

  unfoldable pub get_total_count : Network S → ℕ
  get_total_count rn = rn.count

  unfoldable pub get_total_bytes : Network S → ℕ
  get_total_bytes rn = rn.bytes

  unfoldable pub make_server : Server S
  make_server = record { services = empty; count = 0 }

  unfoldable pub add_service : Service S → Server S → Server S
  add_service svc rs = record rs { services = insert svc.name svc rs.services }

  -- A service's `dispatch`; an unknown method ends the program.
  unfoldable pub dispatch_service : String → List ℕ → Service S → Outcome (Service S × ReplyMsg)
  dispatch_service methname args svc = do
    method ← or_panic (svc.methods methname)
    (rcvr, reply) ← method args svc.rcvr
    ok (record svc { rcvr = rcvr }, record { ok = true; reply = reply })

-- The service and the method: what stands before and behind the last dot.
unfoldable pub split_last : String → Option (String × String)
split_last no_text = none
split_last (put_char ch s) =
    let rest = split_last s in
    elim rest [
      | some (service, method) ↦ some (put_char ch service, method)
      | none ↦ if code ch == 46 then some (no_text, s) else none
    ]

module _ {S : Type 0} where
  -- A server's `dispatch`; a method without a dot and an unknown service end the program.
  unfoldable pub dispatch : String → List ℕ → Server S → Outcome (Server S × ReplyMsg)
  unfolding dispatch_service
  dispatch svc_meth args rs = do
    (service_name, method_name) ← or_panic (split_last svc_meth)
    svc ← or_panic (rs.services service_name)
    (svc1, reply) ← dispatch_service method_name args svc
    ok (record rs { count = suc rs.count; services = insert service_name svc1 rs.services }, reply)

  -- `readEndnameInfo`: the server that an end point reaches, if it is enabled and connected.
  unfoldable pub reached : String → Network S → Option (String × ℕ)
  reached endname rn =
      if get_or rn.enabled endname false
      then elim (rn.connections endname) [
        | none ↦ none
        | some servername ↦ elim (rn.servers servername) [
          | none ↦ none
          | some id ↦ some (servername, id)
        ]
      ]
      else none

  -- `isServerDead`
  unfoldable pub is_server_dead : String → String → ℕ → Network S → Bool
  is_server_dead endname servername id rn =
      not (get_or rn.enabled endname false)
      || elim (rn.servers servername) [ none ↦ true | some now ↦ not (now == id) ]

  -- The goroutine of `MakeNetwork`: a request is counted.
  unfoldable pub receive : ReqMsg → Network S → Network S
  receive req rn = record rn { count = suc rn.count; bytes = rn.bytes + length req.args }

  -- The handler runs on the server; what it makes of the receiver is stored.
  unfoldable pub run_handler : ReqMsg → ℕ → Network S → Outcome (Network S × ReplyMsg)
  run_handler req id rn = do
    rs ← or_panic (rn.store id)
    (rs1, reply) ← dispatch req.svc_meth req.args rs
    ok (record rn { store = insert id rs1 rn.store }, reply)

  -- `processReq` up to its wait for the handler: the failure that is replied, or the
  -- server and what its handler will reply. `chance` is a random number below 1000.
  unfoldable pub begin_req :
      ℕ → ReqMsg → Network S → Outcome (Network S × Option (String × ℕ × ReplyMsg))
  unfolding receive
  begin_req chance req rn = elim (reached req.endname rn) [
    | none ↦ ok (receive req rn, none)
    | some (servername, id) ↦
        if not rn.reliable && ltb chance 100 then ok (receive req rn, none) else do
          (rn1, reply) ← run_handler req id (receive req rn)
          ok (rn1, some (servername, id, reply))
  ]

  -- The end of `processReq` for a reply that is sent: its bytes are counted.
  unfoldable pub send_reply : ReplyMsg → Network S → Network S
  send_reply reply rn = record rn { bytes = rn.bytes + length reply.reply }

  -- `processReq` after the wait, with the network as the second `isServerDead` finds it: `answered`
  -- if the handler returned before the server was found dead, `was_reliable` and `reorders` what was
  -- read at the start. `chance` is a random number below 1000 and `late` one below 900.
  unfoldable pub end_req :
      ℕ → ℕ → Bool → Bool → Bool → ReqMsg → String → ℕ → ReplyMsg → Network S → Network S × Sent
  unfolding is_server_dead send_reply
  end_req chance late was_reliable reorders answered req servername id reply rn =
      if not answered || is_server_dead req.endname servername id rn
      then (rn, at_once failure)
      else if not was_reliable && ltb chance 100
      then (rn, at_once failure)
      else if reorders && ltb late 600
      then (rn, delayed reply)
      else (send_reply reply rn, at_once reply)

  -- The reply as it arrives: one that was delayed is sent by a timer, which looks at nothing.
  -- `later` is what has happened to the network meanwhile.
  unfoldable pub arrive : (Network S → Network S) → Network S × Sent → Network S × ReplyMsg
  unfolding send_reply
  arrive later (rn, at_once reply) = (rn, reply)
  arrive later (rn, delayed reply) = (send_reply reply (later rn), reply)

  -- `Call`: `sent` is false if the network was destroyed before it took the request. The random
  -- numbers are those of `begin_req` and `end_req`. Other goroutines change the network by `during`
  -- from the end of the handler (or from the failure that stands already) to the second
  -- `isServerDead`, and by `later` while a reply is delayed.
  unfoldable pub call :
      ℕ
      → ℕ
      → ℕ
      → Bool
      → Bool
      → (Network S → Network S)
      → (Network S → Network S)
      → ReqMsg
      → Network S
      → Outcome (Network S × ReplyMsg)
  unfolding begin_req end_req arrive
  call c d late sent answered during later req rn = if not sent then ok (rn, failure) else do
    (rn1, begun) ← begin_req c req rn
    ok (elim begun [
      | none ↦ (during rn1, failure)
      | some (servername, id, reply) ↦ arrive later (
          end_req d late rn.reliable rn.long_reordering answered req servername id reply
            (during rn1))
    ])
