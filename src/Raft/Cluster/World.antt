-- ===== src/Raft/Cluster/World.antt =====
-- A cluster with the AppendEntries that are under way: a request that a peer handles was sent to
-- it, and a reply that a leader reads is to a request that it sent; again messages may be lost,
-- delayed, repeated and reordered at will.
use raft_kvs.Base.{ℕ, ◌≡◌, List, [], ◌∷◌, In}
use raft_kvs.Raft.Types.{Gob, send_entries, is_leader, AppendEntriesArgs}
use raft_kvs.Raft.Steps.{takes_entries, reads_match, starts}
use raft_kvs.Raft.Cluster.{Cluster, start_cluster, record_if, Move, acts, IsQuietMove}
use raft_kvs.Raft.Cluster.Logs.{Made, root}

pub record Sent (C : Type 0) : Type 0 where
  pub from : ℕ
  pub to : ℕ
  pub args : AppendEntriesArgs C

-- `made` has, for the proofs, each log that the `Start` of a leader made.
pub record World (C : Type 0) : Type 0 where
  pub cluster : Cluster C
  pub sent : List (Sent C)
  pub made : List (Made C)

module _ {C : Type 0} where
  abbrev pub start_world : ℕ → World C
  start_world n = record { cluster = start_cluster n; sent = []; made = root ∷ [] }

module _ {C : Type 0} ⦃g : Gob C⦄ where
  -- The request was sent to the peer that handles it, or by the peer that reads the reply.
  abbrev pub IsDelivered : {a b : Cluster C} → List (Sent C) → Move a b → Type 0
  IsDelivered sent (acts i rf (takes_entries now args reply h) other e) =
      (from : ℕ) × In (record { from = from; to = i; args = args }) sent
  IsDelivered sent (acts i rf (reads_match server args reply h) other e) =
      In (record { from = i; to = server; args = args }) sent
  IsDelivered sent _ = Unit

  abbrev pub recorded : {a b : Cluster C} → List (Made C) → Move a b → List (Made C)
  recorded {a} made (acts i rf (starts command r h) other e) =
      record_if (is_leader (a.nodes i).state) (record { log = rf.log; term = rf.current_term }) made
  recorded made _ = made

  pub data Tick (a b : World C) : Type 0 where
    moves :
        (m : Move a.cluster b.cluster)
        → IsDelivered a.sent m
        → b.sent ≡ a.sent
        → b.made ≡ recorded a.made m
        → Tick a b
    -- A goroutine of peer `i` sends its request.
    sends :
        (i to : ℕ) (args : AppendEntriesArgs C)
        → In (send_entries to args) (a.cluster.nodes i).calls
        → b ≡ record a { sent = record { from = i; to = to; args = args } ∷ a.sent }
        → Tick a b

  pub data Ticks (a : World C) : World C → Type 0 where
    still : Ticks a a
    and_then : {b c : World C} → Ticks a b → Tick b c → Ticks a c

  abbrev pub IsQuietTick : {a b : World C} → Tick a b → Type 0
  IsQuietTick (moves m d s e) = IsQuietMove m
  IsQuietTick (sends i to args h e) = Unit

  -- No AppendEntries reaches a candidate in its own term.
  abbrev pub AllQuietTicks : {a b : World C} → Ticks a b → Type 0
  AllQuietTicks still = Unit
  AllQuietTicks (and_then r t) = AllQuietTicks r × IsQuietTick t
