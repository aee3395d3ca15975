-- ===== src/Raft/Types.antt =====
-- src/raft/structs.go and raftapi/raftapi.go: the state of a peer, its RPCs, and what it sends.
-- `C` is the type of commands (Go's `interface{}`); a nil command is `none`.
use raft_kvs.Base.{ℕ, ℤ, pos, ◌≡◌, ◌≢◌, Bool, true, false, Option, some, List, []}
use raft_kvs.Persister.{Persister}

pub data ServerState : Type 0 where
  follower candidate leader : ServerState

abbrev pub is_leader : ServerState → Bool
is_leader leader = true
is_leader _ = false

abbrev pub is_candidate : ServerState → Bool
is_candidate candidate = true
is_candidate _ = false

pub record LogEntry (C : Type 0) : Type 0 where
  pub term : ℤ
  pub command : Option C

pub record RequestVoteArgs : Type 0 where
  pub term : ℤ
  pub candidate_id : ℤ
  pub last_log_index : ℤ
  pub last_log_term : ℤ

pub record RequestVoteReply : Type 0 where
  pub term : ℤ
  pub vote_granted : Bool

pub record AppendEntriesArgs (C : Type 0) : Type 0 where
  pub term : ℤ
  pub leader_id : ℤ
  pub prev_log_index : ℤ
  pub prev_log_term : ℤ
  pub entries : List (LogEntry C)
  pub leader_commit : ℤ

pub record AppendEntriesReply : Type 0 where
  pub term : ℤ
  pub success : Bool
  pub conflict_term : ℤ
  pub conflict_index : ℤ

-- raftapi.ApplyMsg
pub record ApplyMsg (C : Type 0) : Type 0 where
  pub command_valid : Bool
  pub command : Option C
  pub command_index : ℤ
  pub snapshot_valid : Bool
  pub snapshot : List ℕ
  pub snapshot_term : ℤ
  pub snapshot_index : ℤ
  pub aborted : Bool

-- The two messages that a peer sends on `applyCh`; a field that the literal leaves out is zero.
abbrev pub applied : {C : Type 0} → Option C → ℤ → ApplyMsg C
applied c i = record {
  command_valid = true;
  command = c;
  command_index = i;
  snapshot_valid = false;
  snapshot = [];
  snapshot_term = pos 0;
  snapshot_index = pos 0;
  aborted = false;
}

abbrev pub abort_msg : {C : Type 0} → Option C → ApplyMsg C
abort_msg c = record {
  command_valid = false;
  command = c;
  command_index = pos 0;
  snapshot_valid = false;
  snapshot = [];
  snapshot_term = pos 0;
  snapshot_index = pos 0;
  aborted = true;
}

-- An RPC that a goroutine of the peer is to make, with its destination.
pub data Call (C : Type 0) : Type 0 where
  ask_vote : ℕ → RequestVoteArgs → Call C
  send_entries : ℕ → AppendEntriesArgs C → Call C

-- `Raft`. `peers` is the number of end points; `apply_ch` the messages sent so far, oldest first;
-- `apply_cond` the number of signals given; `calls` the RPCs spawned so far, oldest first. A
-- clock reading is the time in ns since Go's zero `time.Time`, which is 0 then and so lies ages
-- behind every reading of a running clock.
pub record Raft (C : Type 0) : Type 0 where
  pub peers : ℕ
  pub persister : Persister
  pub me : ℕ
  pub dead : Bool
  pub current_term : ℤ
  pub voted_for : ℤ
  pub log : List (LogEntry C)
  pub commit_index : ℤ
  pub last_applied : ℤ
  pub next_index : List ℤ
  pub match_index : List ℤ
  pub state : ServerState
  pub last_heartbeat_time : ℕ
  pub leader_id : ℤ
  pub last_heartbeat_sent : ℕ
  pub apply_ch : List (ApplyMsg C)
  pub apply_cond : ℕ
  pub calls : List (Call C)

-- What is stored of a peer: term, vote and log.
pub record Stored (C : Type 0) : Type 0 where
  pub term : ℤ
  pub vote : ℤ
  pub log : List (LogEntry C)

-- encoding/gob as the peer uses it: the bytes that one encoder writes for the three values, and
-- the three values that one decoder reads back, `none` where a `Decode` fails. It is documented to
-- read back what it wrote, and it writes something.
pub record Gob (C : Type 0) : Type 0 where
  pub encode : Stored C → List ℕ
  pub decode : List ℕ → Option (Stored C)
  pub decode-encode : (s : Stored C) → decode (encode s) ≡ some s
  pub encode-ne-nil : (s : Stored C) → encode s ≢ []
