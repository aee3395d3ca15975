-- ===== src/Raft/History/Ballots.antt =====
-- A vote goes to a candidate whose log keeps all that the voter's keeps.
use raft_kvs.Base.{
  [], ◌∷◌, ℕ, suc, ◌≤◌, ℤ, pos, ◌<ℤ◌, ◌≤ℤ◌, ◌==ℤ◌, ==ℤ_iff, ◌≡◌, refl, sym, ap, subst, ◌∙◌, ◌⊎◌,
  inl, inr, arith, true, Bool-cases, List, length, take_of_length-le, get_elem?, get_elem?_of_lt,
  some, In,
}
use raft_kvs.Raft.Types.{Raft, Gob, LogEntry, RequestVoteArgs}
use raft_kvs.Raft.Log.{last_log_index, last_log_term, term_at}
use raft_kvs.Raft.Persist.{persist}
use raft_kvs.Raft.Append.Convergence.{term_at-pos}
use raft_kvs.Raft.Election.{request_vote, become_follower, can_vote, is_log_up_to_date}
use raft_kvs.Raft.Cluster.Logs.{Made, IsKnown}
use raft_kvs.Raft.History.{History, node}
use raft_kvs.Raft.History.Acked.{Keeps}
use raft_kvs.Raft.History.Prefixes.{IsPre-length, IsPre-get}
use raft_kvs.Raft.History.Sound.{IsSound}

pub lt_or_eq : (t u : ℤ) → t ≤ℤ u → (t <ℤ u) ⊎ (t ≡ u)
lt_or_eq t u le = elim (Bool-cases (t ==ℤ u)) [
  | inl same ↦ inr ((==ℤ_iff t u).0 same)
  | inr differ ↦ inl (ground arith)
]

module _ {C : Type 0} where
  last_lem :
      (l : List (LogEntry C)) (n : ℕ) (e : LogEntry C)
      → length l ≡ suc n
      → get_elem? l n ≡ some e
      → (last_log_index l ≡ pos n) × (last_log_term l ≡ e.term)
  unfolding last_log_index last_log_term
  last_lem l n e long there =
      let is : last_log_index l ≡ pos n = ground arith in
      (is, ap (term_at l) is ∙ term_at-pos l n e there)

  -- A log that was made up to each of its entries was made as a whole.
  whole_made :
      (made : List (Made C)) (l : List (LogEntry C))
      → IsKnown made l
      → (n : ℕ) × (length l ≡ suc n)
        × (last_log_index l ≡ pos n)
        × In (record { log = l; term = last_log_term l }) made
  whole_made made [] k = absurd (let x = k.nonempty in omega arith)
  whole_made made (x ∷ rest) k =
      let l = x ∷ rest in
      let n = length rest in
      let (e, there) = get_elem?_of_lt l n (omega arith) in
      let (index, term) = last_lem l n e refl there in
      (
        n,
        refl,
        index,
        subst (λ t. In (record { log = l; term = t }) made) (sym term)
            (subst (λ m. In (record { log = m; term = e.term }) made)
              (take_of_length-le (suc n) l (omega arith)) (k.prefix n e there)),
      )

  up_to_date-cases :
      (v : List (LogEntry C)) (i t : ℤ)
      → is_log_up_to_date v i t ≡ true
      → (last_log_term v <ℤ t) ⊎ ((t ≡ last_log_term v) × (last_log_index v ≤ℤ i))
  unfolding is_log_up_to_date
  up_to_date-cases v i t h = elim (Bool-cases (t ==ℤ last_log_term v)) [
    | inl same ↦ inr ((==ℤ_iff t (last_log_term v)).0 same, ground arith)
    | inr differ ↦ inl (ground arith)
  ]

module _ {C : Type 0} ⦃g : Gob C⦄ where
  -- What the voter's log keeps, a log that is up to date for it keeps.
  pub up_to_date-Keeps :
      (a : History C) (i j : ℕ) (p : Made C)
      → IsSound a
      → is_log_up_to_date
          (node a i).log
          (last_log_index (node a j).log)
          (last_log_term (node a j).log)
        ≡ true
      → In p a.world.made
      → Keeps a (node a i).log p
      → Keeps a (node a j).log p
  up_to_date-Keeps a i j p s fit in_p (inr dead) = inr dead
  up_to_date-Keeps a i j p s fit in_p (inl pre) =
      let v = (node a i).log in
      let l = (node a j).log in
      let (n, long_v, at_v, made_v) = whole_made a.world.made v (s.well.logs i) in
      let (m, long_l, at_l, made_l) = whole_made a.world.made l (s.well.logs j) in
      let end = s.ended p in_p in
      let in_v = IsPre-get p.log v end.last end.entry pre end.there in
      let low : p.term ≤ℤ last_log_term v =
        subst (λ t. t ≤ℤ last_log_term v) end.of_term
          ((s.rising _ made_v).below end.last end.entry in_v) in
      elim (up_to_date-cases v (last_log_index l) (last_log_term l) fit) [
        | inl later ↦ s.order p _ in_p made_l (omega arith)
        | inr (same, longer) ↦
            let low_l : p.term ≤ℤ last_log_term l = subst (λ t. p.term ≤ℤ t) (sym same) low in
            elim (lt_or_eq p.term (last_log_term l) low_l) [
              | inl lt ↦ s.order p _ in_p made_l lt
              | inr of_term ↦
                  let more : n ≤ m =
                    let x = subst (λ y. y ≤ℤ last_log_index l) at_v longer in
                    let y = subst (λ z. pos n ≤ℤ z) at_l x in omega arith in
                  inl (
                    s.well.chain.extends p _ in_p made_l of_term
                      (omega (arith, IsPre-length p.log v pre, long_v, long_l, more)))
            ]
      ]

  pub granted_lem :
      (now : ℕ) (args : RequestVoteArgs) (rf : Raft C)
      → (request_vote now args rf).1.vote_granted ≡ true
      → (is_log_up_to_date rf.log args.last_log_index args.last_log_term ≡ true)
        × ((request_vote now args rf).0.current_term ≡ args.term)
  unfolding request_vote become_follower persist can_vote
  granted_lem now args rf h = ground arith
