-- ===== src/Raft/Exchange.antt =====
-- A leader and a follower alone, for as long as the follower refuses: each AppendEntries is answered
-- and each refusal handled by `replicateTo`, which makes the next request.
pub mod Progress
pub mod Catches
use raft_kvs.Base.{
  ℕ, zero, suc, ℤ, pos, Bool, true, false, get_elem?, or_panic, Outcome, ok, ◌>>=◌, if◌then◌else◌,
}
use raft_kvs.Raft.Types.{Raft, Gob}
use raft_kvs.Raft.Broadcast.{append_args}
use raft_kvs.Raft.Append.{append_entries}
use raft_kvs.Raft.Replicate.{on_append_reply}

module _ {C : Type 0} ⦃g : Gob C⦄ where
  -- The two peers after at most `rounds` requests, the first for the next index `next`, and whether
  -- the last one was accepted.
  unfoldable pub exchange : ℕ → ℕ → ℕ → ℤ → Raft C → Raft C → Outcome (Raft C × Raft C × Bool)
  exchange zero now server next ld fl = ok (ld, fl, false)
  exchange (suc rounds) now server next ld fl = do
    args ← append_args ld next
    (fl1, reply) ← append_entries now args fl
    elim reply.success [
      | true ↦ ok (ld, fl1, true)
      | false ↦ (do
        ld1 ← on_append_reply server args reply ld
        next1 ← or_panic (get_elem? ld1.next_index server)
        exchange rounds now server next1 ld1 fl1)
    ]
