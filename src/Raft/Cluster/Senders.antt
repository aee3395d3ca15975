-- ===== src/Raft/Cluster/Senders.antt =====
-- Who sends AppendEntries: only a peer that a majority of the ballots of the term chose.
use raft_kvs.Base.{
  ℕ, ℤ, ◌≡◌, ◌⊎◌, ◌≢◌, refl, sym, ap, subst, ◌∙◌, inl, inr, arith, Bool, true, false, List, In,
}
use raft_kvs.Raft.Types.{Raft, Gob, send_entries, is_leader, AppendEntriesArgs}
use raft_kvs.Raft.Broadcast.{append_args}
use raft_kvs.Raft.Election.{request_vote, start_election}
use raft_kvs.Raft.Steps.{Step, votes, campaigns, reads_vote}
use raft_kvs.Raft.Cluster.{
  Ballot, Cluster, put, start_cluster, record_if, Move, answers, campaigning, counts, acts, Moves,
  here, next, AllQuietMoves,
}
use raft_kvs.Raft.Cluster.Invariant.{Elected, IsSafe, put-each}
use raft_kvs.Raft.Cluster.Safety.{Elected-same, Move-IsSafe, Moves-IsSafe, start_cluster-IsSafe}
use raft_kvs.Raft.Cluster.Makes.{Step-Sends}
use raft_kvs.Raft.Cluster.Sending.{IsFresh}

pub Elected-mono :
    (size : ℕ) (old ballots : List Ballot) (t : ℤ) (i : ℕ)
    → ((b : Ballot) → In b old → In b ballots)
    → Elected size old t i
    → Elected size ballots t i
Elected-mono size old ballots t i more e = record {
  voters = e.voters;
  distinct = e.distinct;
  chose = λ v h. more _ (e.chose v h);
  most = e.most;
}

pub In-record_if :
    {A : Type 0} (granted : Bool) (x y : A) (xs : List A) → In y xs → In y (record_if granted x xs)
In-record_if true x y xs h = inr h
In-record_if false x y xs h = h

pub record_if-cases :
    {A : Type 0} (granted : Bool) (x y : A) (xs : List A)
    → In y (record_if granted x xs)
    → In y xs ⊎ ((granted ≡ true) × (y ≡ x))
record_if-cases true x y xs (inl e) = inr (refl, e)
record_if-cases true x y xs (inr h) = inl h
record_if-cases false x y xs h = inl h

module _ {C : Type 0} ⦃g : Gob C⦄ where
  -- Every AppendEntries on its way is of a peer that was chosen in its term.
  pub record IsChosen (a : Cluster C) : Type 0 where
    pub chosen :
        (i server : ℕ) (args : AppendEntriesArgs C)
        → In (send_entries server args) (a.nodes i).calls
        → Elected a.size a.ballots args.term i

  pub IsFresh-term :
      (rf : Raft C) (args : AppendEntriesArgs C) → IsFresh rf args → args.term ≡ rf.current_term
  unfolding append_args
  IsFresh-term rf args new = let h = new.built in ground arith

  -- What the moves have in common: one peer makes a step, and ballots may be added.
  pub record Acts (a b : Cluster C) : Type 0 where
    pub actor : ℕ
    pub after : Raft C
    pub taken : Step (a.nodes actor) after
    pub nodes : b.nodes ≡ put a.nodes actor after
    pub size : b.size ≡ a.size
    pub more : (x : Ballot) → In x a.ballots → In x b.ballots

  unfoldable pub Move-Acts : {a b : Cluster C} → Move a b → Acts a b
  Move-Acts {a} {b} (answers i c now args inside candidate e) = record {
    actor = i;
    after = (request_vote now args (a.nodes i)).0;
    taken = votes now args refl;
    nodes = ap (λ (x : Cluster C). x.nodes) e;
    size = ap (λ (x : Cluster C). x.size) e;
    more =
        λ x h. subst (λ (y : Cluster C). In x y.ballots) (sym e) (In-record_if _ _ x a.ballots h);
  }
  Move-Acts {a} {b} (campaigning i now n inside term fits e) = record {
    actor = i;
    after = (start_election now (a.nodes i)).0;
    taken = campaigns now n term fits refl;
    nodes = ap (λ (x : Cluster C). x.nodes) e;
    size = ap (λ (x : Cluster C). x.size) e;
    more = λ x h. subst (λ (y : Cluster C). In x y.ballots) (sym e) (inr h);
  }
  Move-Acts {a} {b} (counts k v poll reply rf el there new given ran e) = record {
    actor = poll.peer;
    after = rf;
    taken = reads_vote poll.election el reply ran;
    nodes = ap (λ (x : Cluster C). x.nodes) e;
    size = ap (λ (x : Cluster C). x.size) e;
    more = λ x h. subst (λ (y : Cluster C). In x y.ballots) (sym e) h;
  }
  Move-Acts {a} {b} (acts i rf st other e) = record {
    actor = i;
    after = rf;
    taken = st;
    nodes = ap (λ (x : Cluster C). x.nodes) e;
    size = ap (λ (x : Cluster C). x.size) e;
    more = λ x h. subst (λ (y : Cluster C). In x y.ballots) (sym e) h;
  }

  pub Acts-here : (a b : Cluster C) (m : Acts a b) → b.nodes m.actor ≡ m.after
  Acts-here a b m = ap (λ f. f m.actor) m.nodes ∙ ground arith

  pub Acts-else : (a b : Cluster C) (m : Acts a b) (j : ℕ) → m.actor ≢ j → b.nodes j ≡ a.nodes j
  Acts-else a b m j other = ap (λ f. f j) m.nodes ∙ ground arith

  -- What holds of all peers holds after a step, if it holds of the one that made it.
  pub Acts-each :
      (a b : Cluster C) (m : Acts a b) (P : ℕ → Raft C → Type 0)
      → P m.actor m.after
      → ((j : ℕ) → P j (a.nodes j))
      → (j : ℕ) → P j (b.nodes j)
  Acts-each a b m P new old j =
      subst (λ f. P j (f j)) (sym m.nodes) (put-each P a.nodes m.actor m.after new old j)

  pub Elected-Acts :
      (a b : Cluster C) (m : Acts a b) (t : ℤ) (i : ℕ)
      → Elected a.size a.ballots t i
      → Elected b.size b.ballots t i
  Elected-Acts a b m t i e =
      subst (λ n. Elected n b.ballots t i) (sym m.size)
        (Elected-mono a.size a.ballots b.ballots t i m.more e)

  pub Move-IsChosen : {a b : Cluster C} (m : Acts a b) → IsSafe b → IsChosen a → IsChosen b
  Move-IsChosen {a} {b} m safe c =
      let old = λ (j : ℕ) (server : ℕ) (args : AppendEntriesArgs C).
        λ (h : In (send_entries server args) (a.nodes j).calls).
          Elected-Acts a b m args.term j (c.chosen j server args h) in
      let here_now = Acts-here a b m in
      record {
        chosen = λ j server args.
            Acts-each a b m
              (λ j x. In (send_entries server args) x.calls → Elected b.size b.ballots args.term j)
              (λ h. elim (Step-Sends m.taken server args h) [
                | inl kept ↦ old m.actor server args kept
                | inr (new, to) ↦
                    subst (λ t. Elected b.size b.ballots t m.actor)
                      (ap (λ (x : Raft C). x.current_term) here_now
                        ∙ sym (IsFresh-term m.after args new))
                      (safe.elected m.actor
                        (ap (λ (x : Raft C). is_leader x.state) here_now ∙ new.leads))
              ])
              (λ j h. old j server args h) j;
      }

  pub Moves-IsChosen :
      (n : ℕ) {b : Cluster C} (r : Moves (start_cluster n) b) → AllQuietMoves r → IsChosen b
  Moves-IsChosen n here q = record { chosen = λ i server args h. absurd h }
  Moves-IsChosen n (next r m) (q, quiet) =
      Move-IsChosen (Move-Acts m) (Move-IsSafe m quiet (Moves-IsSafe r q (start_cluster-IsSafe n)))
        (Moves-IsChosen n r q)

  -- The peer leads in the term, or has AppendEntries of the term on its way.
  abbrev pub Speaks : Cluster C → ℕ → ℤ → Type 0
  Speaks a i t =
      ((is_leader (a.nodes i).state ≡ true) × ((a.nodes i).current_term ≡ t))
      ⊎ ((to : ℕ) × (args : AppendEntriesArgs C) × In (send_entries to args) (a.nodes i).calls
          × (args.term ≡ t))

  Speaks-Elected :
      (a : Cluster C) (i : ℕ) (t : ℤ)
      → IsSafe a
      → IsChosen a
      → Speaks a i t
      → Elected a.size a.ballots t i
  Speaks-Elected a i t s c (inl (leads, same)) =
      subst (λ u. Elected a.size a.ballots u i) same (s.elected i leads)
  Speaks-Elected a i t s c (inr (to, args, sent, same)) =
      subst (λ u. Elected a.size a.ballots u i) same (c.chosen i to args sent)

  -- Two peers of which each leads in a term, or has AppendEntries of it on its way, are one peer:
  -- the requests of one term come from its only leader, however late they are sent. This holds in
  -- every state that a cluster of any size reaches from empty disks, if no AppendEntries reaches a
  -- candidate in its own term and the terms fit in an `int`.
  pub one_speaker :
      (n i j : ℕ) (t : ℤ) {b : Cluster C} (r : Moves (start_cluster n) b)
      → AllQuietMoves r
      → Speaks b i t
      → Speaks b j t
      → i ≡ j
  one_speaker n i j t {b} r quiet p q =
      let s = Moves-IsSafe r quiet (start_cluster-IsSafe n) in
      let c = Moves-IsChosen n r quiet in
      Elected-same b s t t i j refl (Speaks-Elected b i t s c p) (Speaks-Elected b j t s c q)
