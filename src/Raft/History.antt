-- ===== src/Raft/History.antt =====
-- A cluster with messages, and what its peers said: the RequestVotes that candidates made, and
-- what each peer took of a leader's log. A RequestVote that a peer answers was made, and a success
-- that a leader reads is of a peer that took the entries.
pub mod Accepts
pub mod Acked
pub mod Applied
pub mod Ballots
pub mod Campaigns
pub mod Commits
pub mod Elections
pub mod Going
pub mod Handles
pub mod Learns
pub mod Majorities
pub mod Others
pub mod Outgoing
pub mod Passing
pub mod Prefixes
pub mod Rests
pub mod Restarts
pub mod Safety
pub mod Same
pub mod Settle
pub mod Sound
pub mod Started
pub mod Starts
pub mod Steady
pub mod Taken
pub mod Takes
pub mod Steps
pub mod Turns
pub mod Unmoved
use raft_kvs.Base.{
  ℕ, ◌≤◌, ℤ, pos, ◌+ℤ◌, ◌<ℤ◌, ◌≡◌, ◌≢◌, true, List, [], ◌∷◌, length, get_elem?, some, In,
}
use raft_kvs.Raft.Types.{Raft, Gob, LogEntry, RequestVoteArgs, is_leader}
use raft_kvs.Raft.Log.{last_log_index, last_log_term}
use raft_kvs.Raft.Election.{start_election}
use raft_kvs.Raft.Steps.{takes_entries, reads_match, starts}
use raft_kvs.Raft.Cluster.{answers, campaigning, acts, record_if}
use raft_kvs.Raft.Cluster.World.{World, start_world, Tick, moves, IsQuietTick}

-- The voter has the first `length` entries of the log of the leader of the term.
pub record Ack : Type 0 where
  pub voter : ℕ
  pub term : ℤ
  pub length : ℕ

pub record History (C : Type 0) : Type 0 where
  pub world : World C
  pub asked : List RequestVoteArgs
  pub acks : List Ack

module _ {C : Type 0} where
  abbrev pub node : History C → ℕ → Raft C
  node w i = w.world.cluster.nodes i

  abbrev pub start_history : ℕ → History C
  start_history n = record { world = start_world n; asked = []; acks = [] }

module _ {C : Type 0} ⦃g : Gob C⦄ where
  -- The RequestVote that a candidate makes.
  abbrev pub candidacy : ℕ → ℕ → Raft C → RequestVoteArgs
  candidacy i now rf = record {
    term = (start_election now rf).1.term;
    candidate_id = pos i;
    last_log_index = last_log_index rf.log;
    last_log_term = last_log_term rf.log;
  }

  abbrev pub asking : {a b : World C} → List RequestVoteArgs → Tick a b → List RequestVoteArgs
  asking {a} asked (moves (campaigning i now n inside term fits e) d s m) =
      candidacy i now (a.cluster.nodes i) ∷ asked
  asking asked _ = asked

  -- A peer that takes the entries of a request, and a leader that adds an entry, has its whole log.
  abbrev pub acking : {a b : World C} → List Ack → Tick a b → List Ack
  acking acks (moves (acts i rf (takes_entries now args reply h) other e) d s m) =
      record_if reply.success (record { voter = i; term = args.term; length = length rf.log }) acks
  acking {a} acks (moves (acts i rf (starts command r h) other e) d s m) =
      record_if (is_leader (a.cluster.nodes i).state)
        (record { voter = i; term = rf.current_term; length = length rf.log }) acks
  acking acks _ = acks

  -- The request was made; the entries were taken.
  abbrev pub IsTold : {a b : World C} → List RequestVoteArgs → List Ack → Tick a b → Type 0
  IsTold asked acks (moves (answers i c now args inside candidate e) d s m) = In args asked
  IsTold asked acks (moves (acts i rf (reads_match server args reply h) other e) d s m) =
      reply.success ≡ true
      → (n : ℕ) × In (record { voter = server; term = args.term; length = n }) acks
        × (args.prev_log_index +ℤ pos (length args.entries) <ℤ pos n)
  IsTold asked acks _ = Unit

  pub record Event (a b : History C) : Type 0 where
    pub tick : Tick a.world b.world
    pub told : IsTold a.asked a.acks tick
    pub asked : b.asked ≡ asking a.asked tick
    pub acks : b.acks ≡ acking a.acks tick

  pub data Events (a : History C) : History C → Type 0 where
    none_yet : Events a a
    so_far : {b c : History C} → Events a b → Event b c → Events a c

  -- A request whose entries are taken cuts off no entry of its own term.
  abbrev pub IsOrdered : {a b : World C} → Tick a b → Type 0
  IsOrdered {a} (moves (acts i rf (takes_entries now args reply h) other e) d s m) =
      reply.success ≡ true
      → (k : ℕ) (x : LogEntry C) → length rf.log ≤ k
      → get_elem? (a.cluster.nodes i).log k ≡ some x
      → x.term ≢ args.term
  IsOrdered _ = Unit

  -- AppendEntries come in the order in which their leader sent them, as far as it matters: none
  -- reaches a candidate in its own term, and none cuts off entries of its own term.
  abbrev pub AllInOrder : {a b : History C} → Events a b → Type 0
  AllInOrder none_yet = Unit
  AllInOrder (so_far r x) = AllInOrder r × IsQuietTick x.tick × IsOrdered x.tick
