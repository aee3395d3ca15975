-- ===== src/Raft/Cluster.antt =====
-- The peers of src/raft together: each step is an operation of one peer, and messages may be lost,
-- delayed, repeated and reordered at will, except that a granted vote is counted only if it was
-- given, and once (a `Call` returns at most one reply).
pub mod Catching
pub mod Changes
pub mod Effects
pub mod Entries
pub mod Invariant
pub mod Logs
pub mod Makes
pub mod Matching
pub mod Plain
pub mod Safety
pub mod Sending
pub mod Sized
pub mod Senders
pub mod Ticks
pub mod Well
pub mod World
use raft_kvs.Base.{
  ℕ, suc, ◌<◌, ◌^◌, ℤ, pos, ◌==◌, ◌≡◌, refl, Bool, true, List, [], ◌∷◌, get_elem?, set, some, ok,
  if◌then◌else◌, In,
}
use raft_kvs.Persister.{make_persister}
use raft_kvs.Raft.Types.{Raft, Gob, RequestVoteArgs, RequestVoteReply}
use raft_kvs.Raft.Election.{Election, request_vote, start_election, on_vote_reply}
use raft_kvs.Raft.Node.{fresh}
use raft_kvs.Raft.Steps.{
  Step, votes, takes_entries, campaigns, reads_vote, reads_match, starts, beats, applies, dies,
  restarts, IsQuiet,
}

-- A vote that was given.
pub record Ballot : Type 0 where
  pub term : ℤ
  pub voter : ℕ
  pub choice : ℕ

-- One call of `startElection`: its peer, what its goroutines share, and whose grants they counted.
pub record Poll : Type 0 where
  pub peer : ℕ
  pub election : Election
  pub voters : List ℕ

pub record Cluster (C : Type 0) : Type 0 where
  pub size : ℕ
  pub nodes : ℕ → Raft C
  pub polls : List Poll
  pub ballots : List Ballot

-- A ballot is recorded, and a voter counted, if the vote was granted.
abbrev pub record_if {ℓ} : {A : Type ℓ} → Bool → A → List A → List A
record_if granted x xs = if granted then x ∷ xs else xs

module _ {C : Type 0} where
  abbrev pub put : (ℕ → Raft C) → ℕ → Raft C → ℕ → Raft C
  put nodes i rf j = if i == j then rf else nodes j

  -- A cluster of `n` peers that start with empty disks.
  abbrev pub start_cluster : ℕ → Cluster C
  start_cluster n = record {
    size = n;
    nodes = λ i. fresh n i make_persister 0;
    polls = [];
    ballots = [];
  }

module _ {C : Type 0} ⦃g : Gob C⦄ where
  -- The steps of a peer that have nothing to do with votes.
  abbrev pub IsOther : {a b : Raft C} → Step a b → Type 0
  IsOther (votes now args h) = ⊥
  IsOther (campaigns now n e l h) = ⊥
  IsOther (reads_vote e e' reply h) = ⊥
  IsOther _ = Unit

  pub data Move (a b : Cluster C) : Type 0 where
    -- Peer `i` handles a RequestVote of candidate `c`.
    answers :
        (i c now : ℕ) (args : RequestVoteArgs)
        → i < a.size
        → args.candidate_id ≡ pos c
        → b ≡ record a {
          nodes = put a.nodes i (request_vote now args (a.nodes i)).0;
          ballots =
              record_if
                (request_vote now args (a.nodes i)).1.vote_granted
                (record { term = args.term; voter = i; choice = c })
                a.ballots;
        }
        → Move a b
    -- Peer `i` starts an election, and votes for itself.
    campaigning :
        (i now n : ℕ)
        → i < a.size
        → (a.nodes i).current_term ≡ pos n
        → suc n < 2 ^ 63
        → b ≡ record a {
          nodes = put a.nodes i (start_election now (a.nodes i)).0;
          polls =
              record { peer = i; election = (start_election now (a.nodes i)).1; voters = i ∷ [] }
              ∷ a.polls;
          ballots =
              record { term = (start_election now (a.nodes i)).1.term; voter = i; choice = i }
              ∷ a.ballots;
        }
        → Move a b
    -- The reply of voter `v` to a poll is read.
    counts :
        (k v : ℕ) (poll : Poll) (reply : RequestVoteReply) (rf : Raft C) (e : Election)
        → get_elem? a.polls k ≡ some poll
        → (In v poll.voters → ⊥)
        → (reply.vote_granted ≡ true
            → In (record { term = poll.election.term; voter = v; choice = poll.peer }) a.ballots)
        → on_vote_reply poll.election reply (a.nodes poll.peer) ≡ ok (rf, e)
        → b ≡ record a {
          nodes = put a.nodes poll.peer rf;
          polls =
              set a.polls k
                (record poll { election = e; voters = record_if reply.vote_granted v poll.voters });
        }
        → Move a b
    -- Any other step of peer `i`, whatever message it reads.
    acts :
        (i : ℕ) (rf : Raft C) (st : Step (a.nodes i) rf)
        → IsOther st
        → b ≡ record a { nodes = put a.nodes i rf }
        → Move a b

  pub data Moves (a : Cluster C) : Cluster C → Type 0 where
    here : Moves a a
    next : {b c : Cluster C} → Moves a b → Move b c → Moves a c

  -- No AppendEntries reaches a candidate in its own term.
  abbrev pub IsQuietMove : {a b : Cluster C} → Move a b → Type 0
  IsQuietMove (acts i rf st other e) = IsQuiet st
  IsQuietMove _ = Unit

  abbrev pub AllQuietMoves : {a b : Cluster C} → Moves a b → Type 0
  AllQuietMoves here = Unit
  AllQuietMoves (next r m) = AllQuietMoves r × IsQuietMove m
