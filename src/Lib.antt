-- ===== src/Lib.antt =====
-- A key-value store that is replicated with Raft. Each server runs a Raft peer (src/raft), which
-- agrees with the others on a log of commands; a replicated state machine (src/kvraft1/rsm), which
-- feeds the committed commands to the server and answers the callers that wait; and the server
-- itself (src/kvraft1/server.go), a map with versions, whose reads are queued until a write of the
-- key "sync" has gone through the log. Clerks (src/kvraft1/client.go) call the servers.
--
-- Base: names shared by all modules. Base/Int: Go's signed integers, with `wrap` for the places
--   where the width shows. Base/Go: what Go code does (`Outcome`): it returns, panics or blocks.
--   Base/Lists, Base/Maps, Base/Tests: slices, maps and Boolean tests. Base/Members: members of
--   lists, and that two majorities meet.
-- Persister: src/tester1/persister.go, the disk.
-- Raft/Types: src/raft/structs.go and src/raftapi/raftapi.go. Raft/Log: src/raft/util.go.
--   Raft/Persist: src/raft/persistence.go. Raft/Election: src/raft/leader_election.go.
--   Raft/Append: the AppendEntries handler of src/raft/log_replication.go; Raft/Broadcast and
--   Raft/Replicate: the leader's side of that file. Raft/Node: src/raft/raft.go and
--   src/raft/log_compaction.go. Raft/Order: the order of terms and votes, and what the disk holds.
--   Raft/Steps: the operations of one peer in any order, with crashes, as a step relation.
--   Raft/Cluster: the peers together, with the votes they gave; Raft/Cluster/World adds the
--   AppendEntries under way. A message may be lost, delayed, repeated and reordered, but a vote
--   counts only if it was given, and once for each call, and a request is handled only if sent.
--   Raft/History adds what the peers said: a RequestVote is answered only if a candidate made it,
--   and a success is read only of a peer that took the entries; there, what is committed stays.
--   Raft/Exchange: a leader and a follower alone, while the follower refuses. Raft/Server:
--   src/raft/server.go, the service of the Raft tests, and checkLogs of src/raft/test.go.
-- Rpc: src/rpc/rpc.go. Kv/Model: src/models1/kv.go. Kv/Server: src/kvraft1/server.go.
--   Kv/Rsm: src/kvraft1/rsm/rsm.go. Kv/Clerk: src/kvraft1/client.go. Kv/Composed: the server as
--   the state machine of Kv/Rsm, and its Put handler. Kv/Counter: src/kvraft1/rsm/server.go, the
--   other state machine.
-- Net: src/labrpc/labrpc.go, the network, whose processReq is `begin_req`, `end_req` and `arrive`.
--   What others do to the network while a call waits is an argument of `call`.
-- Tests: concrete parameters and runs.
--
-- Operations are named after the Go functions: AppendEntries is `append_entries`, startElection
-- is `start_election`, DoOp is `do_op`. A function that holds its lock throughout is one
-- definition on the record of its receiver; one that waits in the middle is two, before and
-- after the wait (`begin_submit` and `end_submit`, `begin_get` and `end_get`, `begin_put` and
-- `end_put`), and so is one that takes the lock again (`tick_due` and `tick_act`). A loop of a
-- goroutine is modelled by one round. Goroutines that run at once run in any order
-- (`answer_all`). What a channel or the network is sent is recorded in the state, oldest first
-- (`apply_ch`, `calls`, `sent`, `answers`). Time and random numbers are arguments. Loops over
-- the log and over the peers are structural recursion, with no fuel; those of a clerk run over
-- the list of the outcomes of its calls, and wait where it ends. The exchange of a leader and a
-- follower has fuel, and ends with one round more than the first next index.
--
-- An `int` is an unbounded integer, except that a term is counted up modulo 2 ^ 64; lengths and
-- indices of a log are far below that. Versions are counted modulo 2 ^ 64, the length of the read
-- queue is a signed word of 32 bits.
--
-- Parameters: encoding/gob with its round trip (`Gob`, `SnapGob`; of `IntGob` and `MapGob`
-- nothing is assumed), and fmt as the sync writes use it (`Fmt`). Not modelled: how long a send
-- waits. A function that sends on the channel of the service, also one that holds the lock of
-- the peer (AppendEntries, Kill), is given by the state when the service has taken the
-- messages; if it takes none, the function does not return. Nor are the data races between
-- goroutines that share a field without its lock, a server slot of the Raft tests that is still
-- nil, src/labgob, and the harness in src/tester1, src/kvtest1 and the tests, which only drive
-- the code.
pub mod Base
pub mod Persister
pub mod Raft
pub mod Rpc
pub mod Kv
pub mod Net
pub mod Tests
