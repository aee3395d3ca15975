-- ===== src/Net/Delivery.antt =====
-- What a caller may conclude from the reply of the network.
use raft_kvs.Base.{
  ℕ, suc, ◌≡◌, ◌≢◌, ◌⊎◌, inl, inr, refl, arith, Bool, true, false, String, get_or, insert, nat_eq,
  Option, Bool-cases, ◌==◌, ltb, ◌&&◌, ◌∙◌, List, none, some, ok, or_panic, >>=-eq-ok, ==_iff, ap,
  string_eq,
}
use raft_kvs.Net.{
  Network, Server, ReqMsg, ReplyMsg, failure, reached, is_server_dead, receive, begin_req, end_req,
  call, arrive, send_reply, Sent, at_once, delayed, run_handler, dispatch, dispatch_service,
  split_last,
}

module _ {S : Type 0} where
  -- A request is answered with success only if the handler had returned, and if, when the network
  -- was checked after that, its end point was enabled and the server that ran the handler was still
  -- the one of that name; and then with what the handler replied. Only if the network reorders can
  -- the reply be delayed, and then it arrives later as it is, whatever has happened to the end point
  -- and the server since that check.
  pub end_req_alive :
      (chance late : ℕ) (was_reliable reorders answered : Bool) (req : ReqMsg) (servername : String)
      (id : ℕ) (reply : ReplyMsg) (rn rn1 : Network S) (sent : Sent)
      → end_req chance late was_reliable reorders answered req servername id reply rn ≡ (rn1, sent)
      → (later : Network S → Network S) → (arrive later (rn1, sent)).1.ok ≡ true
      → (get_or rn.enabled req.endname false ≡ true)
        × (rn.servers servername ≡ some id)
        × (answered ≡ true)
        × (((sent ≡ at_once reply) × (arrive later (rn1, sent) ≡ (send_reply reply rn, reply)))
            ⊎ ((reorders ≡ true)
                × (sent ≡ delayed reply)
                × (arrive later (rn1, sent) ≡ (send_reply reply (later rn), reply))))
  unfolding end_req is_server_dead arrive
  end_req_alive chance late was_reliable reorders answered req servername id reply rn rn1 sent e
        later h =
      ground arith

  -- The ways in which an end point leads nowhere: it is not enabled, it is connected to no server,
  -- or there is no server of the name that it is connected to.
  abbrev pub IsUnreachable : String → Network S → Type 0
  IsUnreachable endname rn =
      (get_or rn.enabled endname false ≡ false)
      ⊎ (rn.connections endname ≡ none)
      ⊎ ((servername : String) × (rn.connections endname ≡ some servername)
          × (rn.servers servername ≡ none))

  begin_unreachable :
      (c : ℕ) (req : ReqMsg) (rn : Network S)
      → IsUnreachable req.endname rn
      → begin_req c req rn ≡ ok (receive req rn, none)
  unfolding begin_req reached
  begin_unreachable c req rn (inl off) = ground arith
  begin_unreachable c req rn (inr (inl loose)) = ground arith
  begin_unreachable c req rn (inr (inr (servername, ends_at, gone))) = ground arith

  -- A call by how `begin_req` ends.
  call-begun :
      (c d late : ℕ) (answered : Bool) (during later : Network S → Network S) (req : ReqMsg)
      (rn rn1 : Network S) (begun : Option (String × ℕ × ReplyMsg))
      → begin_req c req rn ≡ ok (rn1, begun)
      → call c d late true answered during later req rn
        ≡ ok (elim begun [
          | none ↦ (during rn1, failure)
          | some (servername, id, reply) ↦ arrive later (
              end_req d late rn.reliable rn.long_reordering answered req servername id reply
                (during rn1))
        ])
  unfolding call
  call-begun c d late answered during later req rn rn1 begun e = rw e refl

  -- A call on an end point that is disabled, or is connected to no server or to a name without a
  -- server, fails without any handler being run, if the network is not destroyed: apart from what
  -- others do to the network while it waits, the request is counted and nothing else changes.
  pub call_unreachable :
      (c d late : ℕ) (answered : Bool) (during later : Network S → Network S) (req : ReqMsg)
      (rn : Network S)
      → IsUnreachable req.endname rn
      → call c d late true answered during later req rn ≡ ok (during (receive req rn), failure)
  call_unreachable c d late answered during later req rn h =
      call-begun c d late answered during later req rn (receive req rn) none
        (begin_unreachable c req rn h)

  dispatch-count :
      (svc_meth : String) (args : List ℕ) (rs : Server S) {rs1 : Server S} {reply : ReplyMsg}
      → dispatch svc_meth args rs ≡ ok (rs1, reply)
      → rs1.count ≡ suc rs.count
  unfolding dispatch
  dispatch-count svc_meth args rs ran =
      let ((service_name, method_name), _, ran1) =
        >>=-eq-ok (or_panic (split_last svc_meth)) _ ran in
      let (svc, _, ran2) = >>=-eq-ok (or_panic (rs.services service_name)) _ ran1 in
      let ((svc1, r), _, ran3) = >>=-eq-ok (dispatch_service method_name args svc) _ ran2 in
      ground arith

  -- Where the handler leaves the network, before others act.
  abbrev pub handled : ReqMsg → ℕ → Server S → Network S → Network S
  handled req id rs1 rn = record (receive req rn) { store = insert id rs1 rn.store }

  begin_req_reliable :
      (c id : ℕ) (servername : String) (req : ReqMsg) (rn : Network S) (rs rs1 : Server S)
      (reply : ReplyMsg)
      → rn.reliable ≡ true
      → reached req.endname rn ≡ some (servername, id)
      → rn.store id ≡ some rs
      → dispatch req.svc_meth req.args rs ≡ ok (rs1, reply)
      → begin_req c req rn ≡ ok (handled req id rs1 rn, some (servername, id, reply))
  unfolding begin_req run_handler receive
  begin_req_reliable c id servername req rn rs rs1 reply steady there stored ran = ground arith

  end_req_live :
      (d late id : ℕ) (steady reorders answered : Bool) (later : Network S → Network S)
      (servername : String) (req : ReqMsg) (reply : ReplyMsg) (rn : Network S)
      → steady ≡ true
      → answered ≡ true
      → get_or rn.enabled req.endname false ≡ true
      → rn.servers servername ≡ some id
      → (rn2 : Network S) × (arrive later
            (end_req d late steady reorders answered req servername id reply rn)
          ≡ (rn2, reply))
        × ((rn2 ≡ send_reply reply rn) ⊎ ((reorders ≡ true) × (rn2 ≡ send_reply reply (later rn))))
  unfolding end_req is_server_dead arrive
  end_req_live d late id steady reorders answered later servername req reply rn sure back ends_at
        servers_at =
      let live : (id == id) ≡ true = ground (arith, ==_iff id id) in
      elim (Bool-cases (reorders && ltb late 600)) [
        | inl slow ↦
            let e : end_req d late steady reorders answered req servername id reply rn
                ≡ (rn, delayed reply) =
              ground arith in
            (send_reply reply (later rn), ap (arrive later) e, inr (ground arith, refl))
        | inr quick ↦
            let e : end_req d late steady reorders answered req servername id reply rn
                ≡ (send_reply reply rn, at_once reply) =
              ground arith in
            (send_reply reply rn, ap (arrive later) e, inl refl)
      ]

  end_req_dead :
      (d late id : ℕ) (steady reorders answered : Bool) (later : Network S → Network S)
      (servername : String) (req : ReqMsg) (reply : ReplyMsg) (rn : Network S)
      → (answered ≡ false)
        ⊎ (get_or rn.enabled req.endname false ≡ false)
        ⊎ (rn.servers servername ≢ some id)
      → arrive later (end_req d late steady reorders answered req servername id reply rn)
        ≡ (rn, failure)
  unfolding end_req is_server_dead arrive
  end_req_dead d late id steady reorders answered later servername req reply rn h =
      let same : rn.servers servername ≢ some id
          → (now : ℕ) → rn.servers servername ≡ some now
          → (now == id) ≡ false =
        λ h now e. ground (arith, ==_iff now id) in
      let e : end_req d late steady reorders answered req servername id reply rn
          ≡ (rn, at_once failure) =
        ground arith in
      ap (arrive later) e

  -- In a reliable network that is not destroyed, a call that reaches a server runs the handler
  -- there once, if nothing else changes the network before that. Whatever others do to the network
  -- from then on: if the handler was found to have returned, and when the network is checked after
  -- it the end point is enabled and the server still the one of its name, then the call returns
  -- the handler's reply, late if the network reorders; if not, it fails although the handler runs.
  pub call_reliable :
      (c d late id : ℕ) (answered : Bool) (during later : Network S → Network S)
      (servername : String) (req : ReqMsg) (rn : Network S) (rs rs1 : Server S) (reply : ReplyMsg)
      → rn.reliable ≡ true
      → reached req.endname rn ≡ some (servername, id)
      → rn.store id ≡ some rs
      → dispatch req.svc_meth req.args rs ≡ ok (rs1, reply)
      → (rn1 : Network S) × (rn1 ≡ handled req id rs1 rn)
        × (rs1.count ≡ suc rs.count)
        × (rn1.count ≡ suc rn.count)
        × (answered ≡ true
            → get_or (during rn1).enabled req.endname false ≡ true
            → (during rn1).servers servername ≡ some id
            → (rn2 : Network S) × (call c d late true answered during later req rn
                ≡ ok (rn2, reply))
              × ((rn2 ≡ send_reply reply (during rn1))
                  ⊎ ((rn.long_reordering ≡ true) × (rn2 ≡ send_reply reply (later (during rn1))))))
        × ((answered ≡ false)
              ⊎ (get_or (during rn1).enabled req.endname false ≡ false)
              ⊎ ((during rn1).servers servername ≢ some id)
            → call c d late true answered during later req rn ≡ ok (during rn1, failure))
  unfolding receive
  call_reliable c d late id answered during later servername req rn rs rs1 reply steady there stored
        ran =
      let rn1 = handled req id rs1 rn in
      let ended =
        call-begun c d late answered during later req rn rn1 (some (servername, id, reply))
          (begin_req_reliable c id servername req rn rs rs1 reply steady there stored ran) in
      (
        rn1,
        refl,
        dispatch-count req.svc_meth req.args rs ran,
        refl,
        λ back ends_at servers_at.
            let (rn2, arrived, how) =
              end_req_live d late id rn.reliable rn.long_reordering answered later servername req
                reply (during rn1) steady back ends_at servers_at in
            (rn2, ended ∙ ap ok arrived, how),
        λ dead.
            ended
            ∙ ap ok (
                end_req_dead d late id rn.reliable rn.long_reordering answered later servername req
                  reply (during rn1) dead),
      )
