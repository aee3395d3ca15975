-- ===== src/Raft/Node/Later.antt =====
-- The service's calls, the clock's and a restart: the term, the vote and the disk.
use raft_kvs.Base.{ℕ, ℤ, ◌≡◌, sym, inl, inr, arith, Bool, ok, List, [], ◌∷◌, ◌∙◌, ap}
use raft_kvs.Persister.{Persister}
use raft_kvs.Raft.Types.{Raft, Gob, Stored}
use raft_kvs.Raft.Order.{IsStored, WritesAll}
use raft_kvs.Raft.Persist.{persist, read_persist, stored}
use raft_kvs.Raft.Broadcast.{broadcast}
use raft_kvs.Raft.Node.{start, heartbeat, make, kill, abort_pending_commands, fresh}

module _ {C : Type 0} ⦃g : Gob C⦄ where
  pub start-same :
      (command : C) (rf : Raft C) {rf' : Raft C} {r : ℤ × ℤ × Bool}
      → start command rf ≡ ok (rf', r)
      → (rf'.current_term ≡ rf.current_term) × (rf'.voted_for ≡ rf.voted_for) × WritesAll rf rf'
  unfolding start broadcast persist
  start-same command rf h = ground arith

  pub heartbeat-same :
      (now : ℕ) (rf : Raft C) {rf' : Raft C}
      → heartbeat now rf ≡ ok rf'
      → (rf'.persister ≡ rf.persister) × (stored rf' ≡ stored rf)
  unfolding heartbeat broadcast
  heartbeat-same now rf h = ground arith

  pub kill-same :
      (rf : Raft C) {rf' : Raft C}
      → kill rf ≡ ok rf'
      → (rf'.persister ≡ rf.persister) × (stored rf' ≡ stored rf)
  unfolding kill abort_pending_commands
  kill-same rf h = ground arith

  -- A first start.
  pub make_first :
      (peers me now : ℕ) (p : Persister)
      → p.raftstate ≡ []
      → make peers me p now ≡ ok (fresh {C = C} peers me p now)
  unfolding make
  make_first peers me now p e = rw (e, read_persist)

  read_stored :
      (bytes : List ℕ) (rf : Raft C) (s : Stored C)
      → bytes ≡ g.encode s
      → read_persist bytes rf
        ≡ ok (record rf { current_term = s.term; voted_for = s.vote; log = s.log })
  unfolding read_persist
  read_stored [] rf s e = absurd (g.encode-ne-nil s (sym e))
  read_stored (b ∷ rest) rf s e = rw (ap g.decode e ∙ g.decode-encode s, read_persist)

  -- What a restart reads is what was stored.
  pub make_stored :
      (peers me now : ℕ) (p : Persister) (s : Stored C)
      → p.raftstate ≡ g.encode s
      → make peers me p now
        ≡ ok (record (fresh {C = C} peers me p now) {
          current_term = s.term;
          voted_for = s.vote;
          log = s.log;
        })
  unfolding make
  make_stored peers me now p s e = read_stored p.raftstate (fresh peers me p now) s e

  -- A restart from a disk that has the term and the vote goes on with them.
  pub make-same :
      (now : ℕ) (rf : Raft C) {rf' : Raft C}
      → IsStored rf
      → make rf.peers rf.me rf.persister now ≡ ok rf'
      → (rf'.current_term ≡ rf.current_term)
        × (rf'.voted_for ≡ rf.voted_for)
        × (rf'.persister ≡ rf.persister)
  make-same now rf (inl (e, t, v)) h = ground (arith, make_first rf.peers rf.me now rf.persister e)
  make-same now rf (inr (s, e, t, v)) h =
      ground (arith, make_stored rf.peers rf.me now rf.persister s e)
