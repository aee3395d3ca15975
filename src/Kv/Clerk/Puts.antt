-- ===== src/Kv/Clerk/Puts.antt =====
-- What `Put` reports: the result of the first request that ends its loops.
use raft_kvs.Base.{
  ℕ, zero, suc, ◌+◌, ◌<◌, ◌≡◌, refl, arith, ltb, Bool, true, false, String, List, [], ◌∷◌, ◌++◌,
  length, All, none, some, ok, Option, get_elem?_of_lt, if◌then◌else◌, ◌==◌, ◌∙◌, inl, inr,
  Bool-cases, ◌&&◌, Returns, get_elem?, or_panic, bind-Returns, or_panic-Returns, ok-Returns,
  if-Returns,
}
use raft_kvs.Rpc.{Err, PutReply, is_ok, is_version}
use raft_kvs.Kv.Clerk.{
  Attempt, replied, failed, timed_out, Clerk, put, put_loop, put_return, put_result,
  move_server_to_front, move_server_to_back,
}

-- An outcome after which `Put` goes on: no reply, or one that is neither OK nor ErrVersion.
abbrev pub GoesOn : Attempt PutReply → Type 0
GoesOn failed = Unit {0}
GoesOn timed_out = ⊥
GoesOn (replied r) = (is_ok r.err ≡ false) × (is_version r.err ≡ false)

-- What `Put` reports of the outcome that ends it, `first` in the first round of its list.
abbrev pub verdict : Bool → Attempt PutReply → Option Err
verdict first failed = none
verdict first timed_out = some Err.maybe
verdict first (replied r) =
    if is_ok r.err
    then some Err.ok
    else if is_version r.err
    then (if first then some Err.version else some Err.maybe)
    else none

move_server_to_front-Returns :
    (servers : List String) (i : ℕ) (ck : Clerk)
    → i < length servers
    → Returns (move_server_to_front servers i ck)
unfolding move_server_to_front
move_server_to_front-Returns servers zero ck h = (ck, refl)
move_server_to_front-Returns servers (suc i) ck h =
    let (x, e) = get_elem?_of_lt servers (suc i) h in
    bind-Returns (or_panic (get_elem? servers (suc i))) _
      (or_panic-Returns (get_elem? servers (suc i)) e) (λ srv m. ok-Returns _)

move_server_to_back-Returns :
    (servers : List String) (i : ℕ) (ck : Clerk)
    → i < length servers
    → Returns (move_server_to_back servers i ck)
unfolding move_server_to_back
move_server_to_back-Returns servers i ck h =
    if-Returns (suc i == length servers) _ _ (λ last. ok-Returns ck)
      (λ inside.
        let (x, e) = get_elem?_of_lt servers i h in
        bind-Returns (or_panic (get_elem? servers i)) _ (or_panic-Returns (get_elem? servers i) e)
          (λ srv m. ok-Returns _))

-- One outcome after which the loops go on.
put_loop-step :
    (x : Attempt PutReply) (rest : List (Attempt PutReply)) (servers : List String) (i : ℕ)
    (first : Bool) (ck : Clerk)
    → GoesOn x
    → put_loop (x ∷ rest) servers i first ck
      ≡ put_loop rest
          (if suc i == length servers then ck.servers else servers)
          (if suc i == length servers then 0 else suc i)
          (if suc i == length servers then false else first)
          ck
unfolding put_loop put_result
put_loop-step failed rest servers i first ck g = refl
put_loop-step timed_out rest servers i first ck g = absurd g
put_loop-step (replied r) rest servers i first ck (g, g1) = ground arith

-- The outcome that ends the loops.
put_loop-ends :
    (a : Attempt PutReply) (rest : List (Attempt PutReply)) (servers : List String) (i : ℕ)
    (first : Bool) (ck : Clerk) (e : Err)
    → i < length servers
    → verdict first a ≡ some e
    → (ck' : Clerk) × (put_loop (a ∷ rest) servers i first ck ≡ ok (ck', e))
unfolding put_loop put_result put_return
put_loop-ends failed rest servers i first ck e l v = cc
put_loop-ends timed_out rest servers i first ck e l v =
    let (ck', m) = move_server_to_back-Returns servers i ck l in (ck', ground arith)
put_loop-ends (replied r) rest servers i first ck e l v =
    let (ck', m) = move_server_to_front-Returns servers i ck l in (ck', ground arith)

put_loop_lem :
    (pre : List (Attempt PutReply)) (a : Attempt PutReply) (rest : List (Attempt PutReply)) (i : ℕ)
    (first : Bool) (ck : Clerk) (e : Err)
    → All GoesOn pre
    → i < length ck.servers
    → verdict (first && ltb (i + length pre) (length ck.servers)) a ≡ some e
    → (ck' : Clerk) × (put_loop (pre ++ a ∷ rest) ck.servers i first ck ≡ ok (ck', e))
put_loop_lem [] a rest i first ck e h l v =
    put_loop-ends a rest ck.servers i first ck e l (ground arith)
put_loop_lem (x ∷ pre) a rest i first ck e (g, h) l v =
    elim (Bool-cases (suc i == length ck.servers)) [
      | inl last ↦
          let (ck', r) = put_loop_lem pre a rest 0 false ck e h (ground arith) (ground arith) in
          (ck', put_loop-step x (pre ++ a ∷ rest) ck.servers i first ck g ∙ rw last r)
      | inr inside ↦
          let (ck', r) =
            put_loop_lem pre a rest (suc i) first ck e h (ground arith) (ground arith) in
          (ck', put_loop-step x (pre ++ a ∷ rest) ck.servers i first ck g ∙ rw inside r)
    ]

put_starts :
    (attempts : List (Attempt PutReply)) (ck : Clerk)
    → 0 < length ck.servers
    → put attempts ck ≡ put_loop attempts ck.servers 0 true ck
unfolding put
put_starts attempts ck l = ground arith

-- With a server, `Put` returns at the first request that times out or is answered with OK or
-- ErrVersion, whatever else the requests before it met. It reports OK for OK, ErrMaybe for the
-- timeout, and for ErrVersion it reports ErrVersion if fewer requests came before than there are
-- servers, and ErrMaybe otherwise.
pub put_lem :
    (pre : List (Attempt PutReply)) (a : Attempt PutReply) (rest : List (Attempt PutReply))
    (ck : Clerk) (e : Err)
    → All GoesOn pre
    → 0 < length ck.servers
    → verdict (ltb (length pre) (length ck.servers)) a ≡ some e
    → (ck' : Clerk) × (put (pre ++ a ∷ rest) ck ≡ ok (ck', e))
put_lem pre a rest ck e h l v =
    let (ck', r) = put_loop_lem pre a rest 0 true ck e h l (ground arith) in
    (ck', put_starts (pre ++ a ∷ rest) ck l ∙ r)
