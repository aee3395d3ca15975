-- ===== src/Raft/Steps.antt =====
-- One peer as a step relation: each of its operations, in any order, crashes and restarts between.
pub mod Votes
pub mod Roles
use raft_kvs.Base.{ℕ, suc, ◌<◌, ◌^◌, ℤ, pos, ◌≡◌, ◌≢◌, Bool, true, ok}
use raft_kvs.Raft.Types.{
  Raft, Gob, LogEntry, RequestVoteArgs, RequestVoteReply, AppendEntriesArgs, AppendEntriesReply,
  is_candidate,
}
use raft_kvs.Raft.Election.{Election, request_vote, start_election, on_vote_reply}
use raft_kvs.Raft.Append.{append_entries}
use raft_kvs.Raft.Replicate.{on_append_reply}
use raft_kvs.Raft.Node.{start, heartbeat, apply_entry, kill, make}

module _ {C : Type 0} ⦃g : Gob C⦄ where
  -- The operations that return. A term is counted up only while it fits in an `int`.
  pub data Step (rf rf' : Raft C) : Type 0 where
    votes : (now : ℕ) (args : RequestVoteArgs) → rf' ≡ (request_vote now args rf).0 → Step rf rf'
    takes_entries :
        (now : ℕ) (args : AppendEntriesArgs C) (reply : AppendEntriesReply)
        → append_entries now args rf ≡ ok (rf', reply)
        → Step rf rf'
    campaigns :
        (now n : ℕ)
        → rf.current_term ≡ pos n
        → suc n < 2 ^ 63
        → rf' ≡ (start_election now rf).0
        → Step rf rf'
    reads_vote :
        (e e' : Election) (reply : RequestVoteReply)
        → on_vote_reply e reply rf ≡ ok (rf', e')
        → Step rf rf'
    reads_match :
        (server : ℕ) (args : AppendEntriesArgs C) (reply : AppendEntriesReply)
        → on_append_reply server args reply rf ≡ ok rf'
        → Step rf rf'
    starts : (command : C) (r : ℤ × ℤ × Bool) → start command rf ≡ ok (rf', r) → Step rf rf'
    beats : (now : ℕ) → heartbeat now rf ≡ ok rf' → Step rf rf'
    applies : (index : ℤ) (e : LogEntry C) → rf' ≡ apply_entry index e rf → Step rf rf'
    dies : kill rf ≡ ok rf' → Step rf rf'
    restarts : (now : ℕ) → make rf.peers rf.me rf.persister now ≡ ok rf' → Step rf rf'

  pub data Run (a : Raft C) : Raft C → Type 0 where
    here : Run a a
    next : {b c : Raft C} → Run a b → Step b c → Run a c

  -- The step is no AppendEntries that reaches a candidate in its own term.
  abbrev pub IsQuiet : {a b : Raft C} → Step a b → Type 0
  IsQuiet {a} (takes_entries now args reply h) =
      is_candidate a.state ≡ true → args.term ≢ a.current_term
  IsQuiet _ = Unit

  abbrev pub AllQuiet : {a b : Raft C} → Run a b → Type 0
  AllQuiet here = Unit
  AllQuiet (next r st) = AllQuiet r × IsQuiet st
