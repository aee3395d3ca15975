-- ===== src/Raft/History/Elections.antt =====
-- The steps of an election keep a history as it should be.
use raft_kvs.Base.{
  ℕ, ◌<◌, pos, ◌≤ℤ◌, pos_part, ◌≡◌, refl, sym, ap, subst, ◌∙◌, inl, inr, arith, true, set, ok, In,
}
use raft_kvs.Raft.Types.{Raft, Gob, RequestVoteArgs, RequestVoteReply, is_leader, is_candidate}
use raft_kvs.Raft.Log.{last_log_index}
use raft_kvs.Raft.Persist.{persist}
use raft_kvs.Raft.Election.{Election, request_vote, on_vote_reply, is_log_up_to_date}
use raft_kvs.Raft.Election.{become_follower, can_vote}
use raft_kvs.Raft.Steps.{Step, votes, reads_vote}
use raft_kvs.Raft.Steps.Votes.{Step-Later}
use raft_kvs.Raft.Cluster.{put, Poll, Cluster, Move, answers, record_if}
use raft_kvs.Raft.Cluster.Effects.{request_vote-Effect, on_vote_reply-Effect}
use raft_kvs.Raft.Cluster.Senders.{record_if-cases, Acts, Move-Acts}
use raft_kvs.Raft.Cluster.Well.{IsWell}
use raft_kvs.Raft.History.{History, node}
use raft_kvs.Raft.History.Sound.{IsSound}
use raft_kvs.Raft.History.Turns.{IsCast}
use raft_kvs.Raft.History.Same.{unmoved-IsSound}
use raft_kvs.Raft.History.Rests.{
  request_vote-IsUnmoved, on_vote_reply-IsUnmoved, on_vote_reply_unknown, new_leader_inside,
}
use raft_kvs.Raft.History.Ballots.{up_to_date-Keeps, granted_lem}

module _ {C : Type 0} ⦃g : Gob C⦄ where
  -- A vote is for a candidate that keeps what the voter has.
  granted-IsCast :
      (a : History C) (i c now : ℕ) (args : RequestVoteArgs)
      → IsSound a
      → args.candidate_id ≡ pos c
      → In args a.asked
      → (request_vote now args (node a i)).1.vote_granted ≡ true
      → IsCast a i
          (request_vote now args (node a i)).0
          (record { term = args.term; voter = i; choice = c })
  granted-IsCast a i c now args s of_c told granted =
      let (fit, term) = granted_lem now args (node a i) granted in
      record {
        voter = refl;
        known = subst (λ t. args.term ≤ℤ t) (sym term) (omega arith);
        asked = λ other.
            let (d, of_d, le) = s.asked args told in
            subst (λ k. args.term ≤ℤ (node a k).current_term) (ap pos_part (sym of_d ∙ of_c)) le;
        fit = λ j other choice runs of_term p in_p took lt.
            let (at_index, at_term) =
              (s.fine j).asks runs args told of_term (of_c ∙ ap pos choice) in
            up_to_date-Keeps a i j p s
              (subst
                (λ t. is_log_up_to_date (node a i).log (last_log_index (node a j).log) t ≡ true)
                at_term
                (subst (λ x. is_log_up_to_date (node a i).log x args.last_log_term ≡ true) at_index
                  fit))
              in_p ((s.fine i).keeps p in_p took);
      }

  votes_lead_nobody :
      (now : ℕ) (args : RequestVoteArgs) (rf : Raft C)
      → is_leader (request_vote now args rf).0.state ≡ true
      → is_candidate rf.state ≡ true
      → ⊥
  unfolding request_vote become_follower persist can_vote
  votes_lead_nobody now args rf leads runs = ground arith

  pub answers-IsSound :
      (a b : History C) (i c now : ℕ) (args : RequestVoteArgs) (inside : i < a.world.cluster.size)
      (of_c : args.candidate_id ≡ pos c)
      (e : b.world.cluster ≡ record a.world.cluster {
        nodes = put a.world.cluster.nodes i (request_vote now args (node a i)).0;
        ballots =
            record_if
              (request_vote now args (node a i)).1.vote_granted
              (record { term = args.term; voter = i; choice = c })
              a.world.cluster.ballots;
      })
      → IsSound a
      → IsWell b.world
      → In args a.asked
      → b.world.sent ≡ a.world.sent
      → b.world.made ≡ a.world.made
      → b.acks ≡ a.acks
      → b.asked ≡ a.asked
      → IsSound b
  unfolding Move-Acts
  answers-IsSound a b i c now args inside of_c e s w told sent made acks asked =
      let m : Move a.world.cluster b.world.cluster = answers i c now args inside of_c e in
      let x = request_vote-Effect (λ _. Unit) now args (node a i) in
      unmoved-IsSound a b (Move-Acts m)
        (Step-Later (votes now args refl) (s.well.safe.on_disk i) tt) s w sent made acks asked
        (λ v h.
          elim (record_if-cases _ _ v a.world.cluster.ballots
            (subst (λ (y : Cluster C). In v y.ballots) e h)) [
              | inl old ↦ inl old
              | inr (granted, same) ↦ inr (
                  subst (IsCast a i (request_vote now args (node a i)).0) (sym same)
                    (granted-IsCast a i c now args s of_c told granted))
            ])
        (λ leads runs. absurd (votes_lead_nobody now args (node a i) leads runs)) x.log x.disk
        (request_vote-IsUnmoved now args (node a i))

  on_vote_reply_inside :
      (a : History C) (i : ℕ) (e : Election) (reply : RequestVoteReply) {b : Raft C} {e' : Election}
      → IsSound a
      → on_vote_reply e reply (node a i) ≡ ok (b, e')
      → is_leader b.state ≡ true
      → is_candidate (node a i).state ≡ true
      → i < a.world.cluster.size
  on_vote_reply_inside a i e reply s ran leads runs =
      let inside = new_leader_inside e reply (node a i) ran leads runs in
      omega (arith, inside, s.well.safe.me i, s.well.safe.peers i)

  pub counts-IsSound :
      (a b : History C) (k v : ℕ) (poll : Poll) (reply : RequestVoteReply) (rf : Raft C)
      (el : Election) (ran : on_vote_reply poll.election reply (node a poll.peer) ≡ ok (rf, el))
      (e : b.world.cluster ≡ record a.world.cluster {
        nodes = put a.world.cluster.nodes poll.peer rf;
        polls =
            set a.world.cluster.polls k
              (record poll { election = el; voters = record_if reply.vote_granted v poll.voters });
      })
      → IsSound a
      → IsWell b.world
      → b.world.sent ≡ a.world.sent
      → b.world.made ≡ a.world.made
      → b.acks ≡ a.acks
      → b.asked ≡ a.asked
      → IsSound b
  counts-IsSound a b k v poll reply rf el ran e s w sent made acks asked =
      let i = poll.peer in
      let step : Step (node a i) rf = reads_vote poll.election el reply ran in
      let acts : Acts a.world.cluster b.world.cluster = record {
        actor = i;
        after = rf;
        taken = step;
        nodes = ap (λ (x : Cluster C). x.nodes) e;
        size = ap (λ (x : Cluster C). x.size) e;
        more = λ x h. subst (λ (y : Cluster C). In x y.ballots) (sym e) h;
      } in
      let x = on_vote_reply-Effect poll.election reply (node a i) ran in
      let same : b.world.cluster.ballots ≡ a.world.cluster.ballots =
        ap (λ (y : Cluster C). y.ballots) e in
      unmoved-IsSound a b acts (Step-Later step (s.well.safe.on_disk i) tt) s w sent made acks asked
        (λ y h. inl (subst (In y) same h))
        (λ leads runs. (
          same,
          on_vote_reply_inside a i poll.election reply s ran leads runs,
          λ j n at_j other.
              on_vote_reply_unknown poll.election reply (node a i) ran leads runs j n at_j
                (λ h. other (h ∙ s.well.safe.me i)),
        ))
        x.log x.disk (on_vote_reply-IsUnmoved poll.election reply (node a i) ran)
