-- ===== src/Raft/Cluster/Invariant.antt =====
-- What holds between the steps of a cluster: ballots are kept, and leaders have a majority of them.
use raft_kvs.Base.{
  ℕ, suc, ◌*◌, ◌≤◌, ◌<◌, ℤ, pos, ◌<ℤ◌, ◌==◌, ==_iff, ◌≡◌, refl, sym, ap, subst, ◌∙◌, ◌⊎◌, inl, inr,
  arith, true, Bool-cases, List, ◌∷◌, length, In, Distinct,
}
use raft_kvs.Raft.Types.{Raft, Gob, is_leader, RequestVoteReply}
use raft_kvs.Raft.Order.{Later, IsStored}
use raft_kvs.Raft.Election.{Election}
use raft_kvs.Raft.Steps.{Step, IsQuiet}
use raft_kvs.Raft.Steps.Votes.{Step-Later, Step-Writes}
use raft_kvs.Raft.Steps.Roles.{Step-Stays, IsNoCount}
use raft_kvs.Raft.Cluster.{Ballot, Poll, Cluster, put, record_if}

-- The peer has voted so, in its term or in an earlier one.
abbrev pub Holds : {C : Type 0} → Raft C → ℤ → ℕ → Type 0
Holds rf t c = (t <ℤ rf.current_term) ⊎ ((rf.current_term ≡ t) × (rf.voted_for ≡ pos c))

Holds-Later : {C : Type 0} (a b : Raft C) (t : ℤ) (c : ℕ) → Later a b → Holds a t c → Holds b t c
Holds-Later a b t c (inl up) (inl l) = inl (omega arith)
Holds-Later a b t c (inl up) (inr (e, v)) = inl (ground arith)
Holds-Later a b t c (inr (e, k)) (inl l) = inl (ground arith)
Holds-Later a b t c (inr (e, k)) (inr (u, v)) = inr (e ∙ u, k (λ m. ground arith) ∙ v)

-- A majority of the ballots of a term chose the peer.
pub record Elected (size : ℕ) (ballots : List Ballot) (t : ℤ) (c : ℕ) : Type 0 where
  pub voters : List ℕ
  pub distinct : Distinct voters
  pub chose : (v : ℕ) → In v voters → In (record { term = t; voter = v; choice = c }) ballots
  pub most : size < 2 * length voters

-- The grants that a poll counted were given, each once.
pub record IsHonest (ballots : List Ballot) (p : Poll) : Type 0 where
  pub distinct : Distinct p.voters
  pub chose :
      (v : ℕ)
      → In v p.voters
      → In (record { term = p.election.term; voter = v; choice = p.peer }) ballots
  pub counted : p.election.votes ≤ length p.voters

-- A counted reply keeps the poll honest.
pub counted-IsHonest :
    (ballots : List Ballot) (v : ℕ) (poll : Poll) (reply : RequestVoteReply) (e : Election)
    → IsHonest ballots poll
    → (In v poll.voters → ⊥)
    → (reply.vote_granted ≡ true
        → In (record { term = poll.election.term; voter = v; choice = poll.peer }) ballots)
    → e.term ≡ poll.election.term
    → (e.votes ≡ poll.election.votes)
      ⊎ ((e.votes ≡ suc poll.election.votes) × (reply.vote_granted ≡ true))
    → IsHonest ballots
        (record poll { election = e; voters = record_if reply.vote_granted v poll.voters })
counted-IsHonest ballots v poll reply e honest new given term sum =
    let named =
      λ (t : ℤ). λ (w : ℕ). In (record { term = t; voter = w; choice = poll.peer }) ballots in
    elim (Bool-cases reply.vote_granted) [
      | inl granted ↦ rw granted (record {
        distinct = (new, honest.distinct);
        chose = λ w m.
            subst (λ t. named t w) (sym term)
              (elim m [
                | inl same ↦ subst (named poll.election.term) (sym same) (given granted)
                | inr old ↦ honest.chose w old
              ]);
        counted = ground (arith, honest.counted);
      })
      | inr refused ↦ rw refused (record {
        distinct = honest.distinct;
        chose = λ w m. subst (λ t. named t w) (sym term) (honest.chose w m);
        counted = ground (arith, honest.counted);
      })
    ]

module _ {C : Type 0} ⦃g : Gob C⦄ where
  pub record IsSafe (a : Cluster C) : Type 0 where
    pub on_disk : (i : ℕ) → IsStored (a.nodes i)
    pub me : (i : ℕ) → (a.nodes i).me ≡ i
    pub peers : (i : ℕ) → (a.nodes i).peers ≡ a.size
    pub held : (b : Ballot) → In b a.ballots → Holds (a.nodes b.voter) b.term b.choice
    pub known : (b : Ballot) → In b a.ballots → b.voter < a.size
    pub once :
        (b c : Ballot)
        → In b a.ballots
        → In c a.ballots
        → b.term ≡ c.term
        → b.voter ≡ c.voter
        → b.choice ≡ c.choice
    pub honest : (p : Poll) → In p a.polls → IsHonest a.ballots p
    pub elected :
        (i : ℕ)
        → is_leader (a.nodes i).state ≡ true
        → Elected a.size a.ballots (a.nodes i).current_term i

  pub put-each :
      (P : ℕ → Raft C → Type 0) (nodes : ℕ → Raft C) (i : ℕ) (rf : Raft C)
      → P i rf
      → ((j : ℕ) → P j (nodes j))
      → (j : ℕ) → P j (put nodes i rf j)
  put-each P nodes i rf new old j = elim (Bool-cases (i == j)) [
    | inl same ↦ rw same (subst (λ k. P k rf) ((==_iff i j).0 same) new)
    | inr other ↦ rw other (old j)
  ]

  -- One peer changes: what has to be shown of it.
  pub change :
      (a : Cluster C) (i : ℕ) (rf : Raft C)
      → IsSafe a
      → Later (a.nodes i) rf
      → IsStored rf
      → rf.me ≡ i
      → rf.peers ≡ a.size
      → (is_leader rf.state ≡ true → Elected a.size a.ballots rf.current_term i)
      → IsSafe (record a { nodes = put a.nodes i rf })
  change a i rf s later stored me peers elected = record {
    on_disk = put-each (λ j x. IsStored x) a.nodes i rf stored s.on_disk;
    me = put-each (λ j x. x.me ≡ j) a.nodes i rf me s.me;
    peers = put-each (λ j x. x.peers ≡ a.size) a.nodes i rf peers s.peers;
    held = λ b h.
        put-each (λ j x. b.voter ≡ j → Holds x b.term b.choice) a.nodes i rf
          (λ e.
            Holds-Later (a.nodes i) rf b.term b.choice later
              (subst (λ k. Holds (a.nodes k) b.term b.choice) e (s.held b h)))
          (λ j e. subst (λ k. Holds (a.nodes k) b.term b.choice) e (s.held b h)) b.voter refl;
    known = s.known;
    once = s.once;
    honest = s.honest;
    elected =
        put-each (λ j x. is_leader x.state ≡ true → Elected a.size a.ballots x.current_term j)
          a.nodes i rf elected s.elected;
  }

  -- A peer that has just voted in its term: the ballot is the only one of that term and voter.
  pub add_ballot :
      (a : Cluster C) (t : ℤ) (v c : ℕ)
      → IsSafe a
      → v < a.size
      → (a.nodes v).current_term ≡ t
      → (a.nodes v).voted_for ≡ pos c
      → IsSafe (record a { ballots = record { term = t; voter = v; choice = c } ∷ a.ballots })
  add_ballot a t v c s inside term vote =
      let new : Ballot = record { term = t; voter = v; choice = c } in
      let only : (b : Ballot) → In b a.ballots → b.term ≡ t → b.voter ≡ v → b.choice ≡ c =
        λ b h te ve.
          let kept : Holds (a.nodes v) b.term b.choice =
            subst (λ k. Holds (a.nodes k) b.term b.choice) ve (s.held b h) in
          elim kept [ inl old ↦ absurd (ground arith) | inr (_, w) ↦ ground arith ] in
      record {
        on_disk = s.on_disk;
        me = s.me;
        peers = s.peers;
        held = λ b h. elim h [
          | inl e ↦
              subst (λ (x : Ballot). Holds (a.nodes x.voter) x.term x.choice) (sym e)
                (inr (term, vote))
          | inr old ↦ s.held b old
        ];
        known = λ b h. elim h [
          | inl e ↦ subst (λ (x : Ballot). x.voter < a.size) (sym e) inside
          | inr old ↦ s.known b old
        ];
        once = λ b d hb hd te ve. elim hb [
          | inl e ↦ elim hd [
            | inl f ↦ ap (λ (x : Ballot). x.choice) (e ∙ sym f)
            | inr old ↦ ground (arith, only d old)
          ]
          | inr old ↦ elim hd [
            | inl f ↦ ground (arith, only b old)
            | inr old' ↦ s.once b d old old' te ve
          ]
        ];
        honest = λ p h.
            let x = s.honest p h in
            record { distinct = x.distinct; chose = λ w m. inr (x.chose w m); counted = x.counted };
        elected = λ i h.
            let x = s.elected i h in
            record {
              voters = x.voters;
              distinct = x.distinct;
              chose = λ w m. inr (x.chose w m);
              most = x.most;
            };
      }

  -- The polls change, and each of them is honest still.
  pub with_polls :
      (a : Cluster C) (polls : List Poll)
      → IsSafe a
      → ((p : Poll) → In p polls → IsHonest a.ballots p)
      → IsSafe (record a { polls = polls })
  with_polls a polls s honest = record {
    on_disk = s.on_disk;
    me = s.me;
    peers = s.peers;
    held = s.held;
    known = s.known;
    once = s.once;
    honest = honest;
    elected = s.elected;
  }

  -- A step of one peer that counts no vote.
  pub step :
      (a : Cluster C) (i : ℕ) (rf : Raft C) (st : Step (a.nodes i) rf)
      → IsSafe a
      → IsNoCount st
      → IsQuiet st
      → IsSafe (record a { nodes = put a.nodes i rf })
  step a i rf st s none quiet =
      let stays = Step-Stays st none in
      change a i rf s (Step-Later st (s.on_disk i) quiet) (Step-Writes st (s.on_disk i))
        (stays.me ∙ s.me i) (stays.peers ∙ s.peers i)
        (λ h.
          subst (λ t. Elected a.size a.ballots t i) (sym (stays.term h))
            (s.elected i (stays.led h)))
