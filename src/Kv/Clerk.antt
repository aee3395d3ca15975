-- ===== src/Kv/Clerk.antt =====
-- src/kvraft1/client.go: the clerk, against whatever the network makes of its calls.
-- Proofs are in the children.
pub mod Moves
pub mod Puts
use raft_kvs.Base.{
  ℕ, zero, suc, ◌+◌, ◌-◌, ◌==◌, Bool, true, false, String, List, [], ◌∷◌, ◌++◌, length, get_elem?,
  take, drop, Option, none, some, Outcome, ok, blocks, or_panic, panics, ◌>>=◌, if◌then◌else◌,
}
use raft_kvs.Rpc.{Err, is_ok, is_version, is_no_key, PutReply, GetReply}

-- One `Call` under a limit of ten seconds: a reply, `false` from the network, or no answer in time.
pub data Attempt (R : Type 0) : Type 0 where
  replied : R → Attempt R
  failed : Attempt R
  timed_out : Attempt R

-- `Clerk`, over the names of its servers
pub record Clerk : Type 0 where
  pub servers : List String

-- `moveServerToFront`
unfoldable pub move_server_to_front : List String → ℕ → Clerk → Outcome Clerk
move_server_to_front servers zero ck = ok ck
move_server_to_front servers (suc i) ck = do
  srv ← or_panic (get_elem? servers (suc i))
  ok (record ck { servers = srv ∷ (take (suc i) servers ++ drop (suc (suc i)) servers) })

-- `moveServerToBack`
unfoldable pub move_server_to_back : List String → ℕ → Clerk → Outcome Clerk
move_server_to_back servers i ck = if suc i == length servers then ok ck else do
  srv ← or_panic (get_elem? servers i)
  ok (record ck { servers = (take i servers ++ drop (suc i) servers) ++ srv ∷ [] })

-- A reply that ends `Put`; the error, if it does
unfoldable pub put_result : Bool → Err → Option Err
put_result first e =
    if is_ok e
    then some Err.ok
    else if is_version e
    then (if first then some Err.version else some Err.maybe)
    else none

put_return : List String → ℕ → Clerk → Err → Outcome (Clerk × Err)
put_return servers i ck e = do ck1 ← move_server_to_front servers i ck; ok (ck1, e)

-- The loops of `Put`: at server `i` of this round's copy of the list, `first` in the first round,
-- against the outcomes of the calls to come. Without any more outcomes it still waits.
unfoldable pub put_loop :
    List (Attempt PutReply) → List String → ℕ → Bool → Clerk → Outcome (Clerk × Err)
unfolding put_return
put_loop [] servers i first ck = blocks
put_loop (timed_out ∷ rest) servers i first ck = do
  ck1 ← move_server_to_back servers i ck
  ok (ck1, Err.maybe)
put_loop (failed ∷ rest) servers i first ck =
    let last = suc i == length servers in
    put_loop rest (if last then ck.servers else servers) (if last then 0 else suc i)
      (if last then false else first) ck
put_loop (replied r ∷ rest) servers i first ck =
    let last = suc i == length servers in
    let more =
      put_loop rest (if last then ck.servers else servers) (if last then 0 else suc i)
        (if last then false else first) ck in
    elim (put_result first r.err) [ none ↦ more | some e ↦ put_return servers i ck e ]

-- `Put`; with no server at all its loop goes on for ever.
unfoldable pub put : List (Attempt PutReply) → Clerk → Outcome (Clerk × Err)
put attempts ck = elim ck.servers [
  | [] ↦ blocks
  | s ∷ servers ↦ put_loop attempts (s ∷ servers) 0 true ck
]

-- A reply that ends `Get`
unfoldable pub get_result : GetReply → Option (String × ℕ × Err)
get_result r =
    if is_ok r.err
    then some (r.value, r.version, Err.ok)
    else if is_no_key r.err
    then some ("", 0, Err.no_key)
    else none

-- The loop of `Get`, which asks a random server each time
unfoldable pub get : List (Attempt GetReply) → Outcome (String × ℕ × Err)
get [] = blocks
get (failed ∷ rest) = get rest
get (timed_out ∷ rest) = get rest
get (replied r ∷ rest) = let more = get rest in elim (get_result r) [ none ↦ more | some x ↦ ok x ]
