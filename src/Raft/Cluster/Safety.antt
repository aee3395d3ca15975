-- ===== src/Raft/Cluster/Safety.antt =====
-- Election safety: two leaders of one term are one peer.
use raft_kvs.Base.{
  ℕ, suc, ◌<◌, ◌^◌, ℤ, pos, ◌≡◌, refl, sym, ap, subst, ◌∙◌, inl, inr, arith, true, Bool-cases, [],
  ◌∷◌, get_elem?, set, some, ok, In, In-get_elem?, In-set, majorities_meet,
}
use raft_kvs.Raft.Types.{Raft, Gob, is_leader, RequestVoteArgs, RequestVoteReply}
use raft_kvs.Raft.Persist.{persist}
use raft_kvs.Raft.Election.{Election, request_vote, start_election, on_vote_reply}
use raft_kvs.Raft.Election.Votes.{request_vote_granted}
use raft_kvs.Raft.Election.Majority.{on_vote_reply_elects}
use raft_kvs.Raft.Steps.{
  Step, votes, takes_entries, campaigns, reads_vote, reads_match, starts, beats, applies, dies,
  restarts,
}
use raft_kvs.Raft.Steps.Votes.{Step-Later, Step-Writes}
use raft_kvs.Raft.Steps.Roles.{IsNoCount, on_vote_reply-same}
use raft_kvs.Raft.Cluster.{
  Poll, Cluster, put, start_cluster, record_if, IsOther, Move, answers, campaigning, counts, acts,
  Moves, here, next, IsQuietMove, AllQuietMoves,
}
use raft_kvs.Raft.Cluster.Invariant.{
  Elected, IsHonest, counted-IsHonest, IsSafe, change, add_ballot, with_polls, step,
}

module _ {C : Type 0} ⦃g : Gob C⦄ where
  put-same : (nodes : ℕ → Raft C) (i : ℕ) (rf : Raft C) → put nodes i rf i ≡ rf
  put-same nodes i rf = ground arith

  answers-IsSafe :
      (a : Cluster C) (i c now : ℕ) (args : RequestVoteArgs)
      → IsSafe a
      → i < a.size
      → args.candidate_id ≡ pos c
      → IsSafe (record a {
        nodes = put a.nodes i (request_vote now args (a.nodes i)).0;
        ballots =
            record_if
              (request_vote now args (a.nodes i)).1.vote_granted
              (record { term = args.term; voter = i; choice = c })
              a.ballots;
      })
  answers-IsSafe a i c now args s inside candidate =
      let rf = (request_vote now args (a.nodes i)).0 in
      let s0 = step a i rf (votes now args refl) s tt tt in
      elim (Bool-cases (request_vote now args (a.nodes i)).1.vote_granted) [
        | inl granted ↦
            let (t, v) = request_vote_granted now args (a.nodes i) granted in
            rw granted (
              add_ballot (record a { nodes = put a.nodes i rf }) args.term i c s0 inside
                (ap (λ (x : Raft C). x.current_term) (put-same a.nodes i rf) ∙ t)
                (ap (λ (x : Raft C). x.voted_for) (put-same a.nodes i rf) ∙ v ∙ candidate))
        | inr refused ↦ rw refused s0
      ]

  start_election-vote :
      (now : ℕ) (rf : Raft C)
      → ((start_election now rf).0.current_term ≡ (start_election now rf).1.term)
        × ((start_election now rf).0.voted_for ≡ pos rf.me)
        × ((start_election now rf).1.votes ≡ 1)
  unfolding start_election persist
  start_election-vote now rf = (refl, refl, refl)

  campaigning-IsSafe :
      (a : Cluster C) (i now n : ℕ)
      → IsSafe a
      → i < a.size
      → (a.nodes i).current_term ≡ pos n
      → suc n < 2 ^ 63
      → IsSafe (record a {
        nodes = put a.nodes i (start_election now (a.nodes i)).0;
        polls =
            record { peer = i; election = (start_election now (a.nodes i)).1; voters = i ∷ [] }
            ∷ a.polls;
        ballots =
            record { term = (start_election now (a.nodes i)).1.term; voter = i; choice = i }
            ∷ a.ballots;
      })
  campaigning-IsSafe a i now n s inside term fits =
      let rf = (start_election now (a.nodes i)).0 in
      let e = (start_election now (a.nodes i)).1 in
      let (t, v, one) = start_election-vote now (a.nodes i) in
      let a0 = record a { nodes = put a.nodes i rf } in
      let s0 : IsSafe a0 = step a i rf (campaigns now n term fits refl) s tt tt in
      let s1 =
        add_ballot a0 e.term i i s0 inside
          (ap (λ (x : Raft C). x.current_term) (put-same a.nodes i rf) ∙ t)
          (ap (λ (x : Raft C). x.voted_for) (put-same a.nodes i rf) ∙ v ∙ ap pos (s.me i)) in
      with_polls
        (record a0 { ballots = record { term = e.term; voter = i; choice = i } ∷ a.ballots })
        (record { peer = i; election = e; voters = i ∷ [] } ∷ a.polls) s1
        (λ p h. elim h [
          | inl same ↦ subst (IsHonest _) (sym same) (record {
            distinct = ((λ h. h), tt);
            chose = λ w m. elim m [
              | inl w_i ↦ inl (ap (λ k. record { term = e.term; voter = k; choice = i }) w_i)
              | inr none ↦ absurd none
            ];
            counted = omega (arith, one);
          })
          | inr old ↦ s1.honest p old
        ])

  counts-IsSafe :
      (a : Cluster C) (k v : ℕ) (poll : Poll) (reply : RequestVoteReply) (rf : Raft C)
      (e : Election)
      → IsSafe a
      → get_elem? a.polls k ≡ some poll
      → (In v poll.voters → ⊥)
      → (reply.vote_granted ≡ true
          → In (record { term = poll.election.term; voter = v; choice = poll.peer }) a.ballots)
      → on_vote_reply poll.election reply (a.nodes poll.peer) ≡ ok (rf, e)
      → IsSafe (record a {
        nodes = put a.nodes poll.peer rf;
        polls =
            set a.polls k
              (record poll { election = e; voters = record_if reply.vote_granted v poll.voters });
      })
  counts-IsSafe a k v poll reply rf e s there new given ran =
      let i = poll.peer in
      let before = a.nodes i in
      let st : Step before rf = reads_vote poll.election e reply ran in
      let (same_me, same_peers, same_term, term, sum) =
        on_vote_reply-same poll.election reply before ran in
      let open_poll = s.honest poll (In-get_elem? a.polls k poll there) in
      let counted = counted-IsHonest a.ballots v poll reply e open_poll new given term sum in
      let elected : is_leader rf.state ≡ true → Elected a.size a.ballots rf.current_term i =
        λ leads. elim (Bool-cases (is_leader before.state)) [
          | inl led ↦
              subst (λ t. Elected a.size a.ballots t i) (sym (same_term led leads))
                (s.elected i led)
          | inr idle ↦
              let (_, own, granted, one_more, most, kept, _, _) =
                on_vote_reply_elects poll.election reply before ran idle leads in
              record {
                voters = v ∷ poll.voters;
                distinct = (new, open_poll.distinct);
                chose = λ w m.
                    subst (λ t. In (record { term = t; voter = w; choice = i }) a.ballots)
                      (sym (kept ∙ own))
                      (elim m [
                        | inl w_v ↦
                            subst
                              (λ x.
                                In (record { term = poll.election.term; voter = x; choice = i })
                                  a.ballots)
                              (sym w_v) (given granted)
                        | inr old ↦ open_poll.chose w old
                      ]);
                most = ground (arith, open_poll.counted, s.peers i);
              }
        ] in
      with_polls (record a { nodes = put a.nodes i rf }) _
        (change a i rf s (Step-Later st (s.on_disk i) tt) (Step-Writes st (s.on_disk i))
          (same_me ∙ s.me i) (same_peers ∙ s.peers i) elected)
        (λ p h. elim (In-set p _ a.polls k h) [
          | inl same ↦ subst (IsHonest a.ballots) (sym same) counted
          | inr old ↦ s.honest p old
        ])

  no_count : {a b : Raft C} (st : Step a b) → IsOther st → IsNoCount st
  no_count (votes now args e) o = absurd o
  no_count (takes_entries now args reply h) o = tt
  no_count (campaigns now n e l h) o = absurd o
  no_count (reads_vote e e' reply h) o = absurd o
  no_count (reads_match server args reply h) o = tt
  no_count (starts command r h) o = tt
  no_count (beats now h) o = tt
  no_count (applies index e h) o = tt
  no_count (dies h) o = tt
  no_count (restarts now h) o = tt

  pub Move-IsSafe : {a b : Cluster C} (m : Move a b) → IsQuietMove m → IsSafe a → IsSafe b
  Move-IsSafe {a} (answers i c now args inside candidate e) q s =
      subst IsSafe (sym e) (answers-IsSafe a i c now args s inside candidate)
  Move-IsSafe {a} (campaigning i now n inside term fits e) q s =
      subst IsSafe (sym e) (campaigning-IsSafe a i now n s inside term fits)
  Move-IsSafe {a} (counts k v poll reply rf el there new given ran e) q s =
      subst IsSafe (sym e) (counts-IsSafe a k v poll reply rf el s there new given ran)
  Move-IsSafe {a} (acts i rf st other e) q s =
      subst IsSafe (sym e) (step a i rf st s (no_count st other) q)

  pub start_cluster-IsSafe : (n : ℕ) → IsSafe {C = C} (start_cluster n)
  start_cluster-IsSafe n = record {
    on_disk = λ i. inl (refl, refl, refl);
    me = λ i. refl;
    peers = λ i. refl;
    held = λ b h. absurd h;
    known = λ b h. absurd h;
    once = λ b c h k t v. absurd h;
    honest = λ p h. absurd h;
    elected = λ i h. cc;
  }

  pub Moves-IsSafe : {a b : Cluster C} (r : Moves a b) → AllQuietMoves r → IsSafe a → IsSafe b
  Moves-IsSafe here q s = s
  Moves-IsSafe (next r m) (q, quiet) s = Move-IsSafe m quiet (Moves-IsSafe r q s)

  -- A term has one winner.
  pub Elected-same :
      (b : Cluster C) (s : IsSafe b) (t u : ℤ) (i j : ℕ)
      → t ≡ u
      → Elected b.size b.ballots t i
      → Elected b.size b.ballots u j
      → i ≡ j
  Elected-same b s t u i j same p q =
      let (v, in_p, in_q) =
        majorities_meet b.size p.voters q.voters p.distinct q.distinct
          (λ x h. s.known _ (p.chose x h)) (λ x h. s.known _ (q.chose x h)) p.most q.most in
      s.once _ _ (p.chose v in_p) (q.chose v in_q) same refl

  -- Two peers that lead in the same term are one peer, in every state that a cluster of any size
  -- reaches from empty disks, whatever messages are lost, delayed, repeated or reordered and
  -- whatever peers crash and restart, if no AppendEntries reaches a candidate in its own term and
  -- the terms fit in an `int`.
  pub election_safety :
      (n i j : ℕ) {b : Cluster C} (r : Moves (start_cluster n) b)
      → AllQuietMoves r
      → is_leader (b.nodes i).state ≡ true
      → is_leader (b.nodes j).state ≡ true
      → (b.nodes i).current_term ≡ (b.nodes j).current_term
      → i ≡ j
  election_safety n i j {b} r quiet led_i led_j same =
      let s = Moves-IsSafe r quiet (start_cluster-IsSafe n) in
      Elected-same b s (b.nodes i).current_term (b.nodes j).current_term i j same
        (s.elected i led_i) (s.elected j led_j)
