-- ===== src/Raft/Replicate/Commit.antt =====
-- `advanceCommitIndex` finds the last entry of the current term that a majority holds.
use raft_kvs.Base.{
  ℕ, zero, suc, ◌+◌, ◌*◌, ◌<◌, ◌≤◌, ℤ, pos, ◌<ℤ◌, leb_ℤ, ltb_ℤ, ◌==ℤ◌, ==ℤ_iff, ◌==◌, ◌≡◌, refl,
  sym, ap, ◌∙◌, ◌⊎◌, inl, inr, arith, true, false, Bool, not, ◌&&◌, ◌||◌, Bool-cases, ok, or_panic,
  >>=-eq-ok, if◌then◌else◌, List, [], ◌∷◌, some, none, length, get_elem?, range, range_from,
  ℕ_discrete, subst,
}
use raft_kvs.Raft.Types.{Raft, LogEntry}
use raft_kvs.Raft.Replicate.{count_others, can_commit, advance_from, advance_commit_index}

-- How many of a list of peers pass a test.
unfoldable pub count_if : (ℕ → Bool) → List ℕ → ℕ
count_if p [] = 0
count_if p (i ∷ is) = if p i then suc (count_if p is) else count_if p is

-- The leader knows that peer `i` has the entries up to `n`.
abbrev pub acked : List ℤ → ℕ → ℕ → Bool
acked match_index n i = elim (get_elem? match_index i) [ none ↦ false | some m ↦ leb_ℤ (pos n) m ]

-- The peers that hold the entries up to `n`, the leader itself among them.
unfoldable pub replicas : {C : Type 0} → Raft C → ℕ → ℕ
replicas rf n = count_if (λ i. i == rf.me || acked rf.match_index n i) (range rf.peers)

-- An entry of the current term that a majority of the peers holds.
pub record IsCommittable {C : Type 0} (rf : Raft C) (n : ℕ) : Type 0 where
  pub entry : LogEntry C
  pub there : get_elem? rf.log n ≡ some entry
  pub current : entry.term ≡ rf.current_term
  pub majority : rf.peers < 2 * replicas rf n

count_others-eq :
    (me : ℕ) (ms : List ℤ) (n : ℕ) (is : List ℕ) {c : ℕ}
    → count_others me ms n is ≡ ok c
    → c ≡ count_if (λ i. not (i == me) && acked ms n i) is
unfolding count_others count_if
count_others-eq me ms n [] h = ground arith
count_others-eq me ms n (i ∷ is) {c} h = elim (Bool-cases (i == me)) [
  | inl self ↦ rw self (count_others-eq me ms n is (rw self at h))
  | inr other ↦
      let (m, a, h1) = >>=-eq-ok (or_panic (get_elem? ms i)) _ (rw other at h) in
      let (c1, b, h2) = >>=-eq-ok (count_others me ms n is) _ h1 in
      ground (arith, count_others-eq me ms n is b)
]

module _ (me : ℕ) (p : ℕ → Bool) where
  count-beyond :
      (a k : ℕ)
      → me < a
      → count_if (λ i. i == me || p i) (range_from a k)
        ≡ count_if (λ i. not (i == me) && p i) (range_from a k)
  unfolding count_if
  count-beyond a zero h = refl
  count-beyond a (suc k) h = ground (arith, count-beyond (suc a) k (omega arith))

  -- Of the peers from `a` on, with itself among them, a server counts one more than the others.
  count_self :
      (a k : ℕ)
      → a ≤ me
      → me < a + k
      → count_if (λ i. i == me || p i) (range_from a k)
        ≡ suc (count_if (λ i. not (i == me) && p i) (range_from a k))
  unfolding count_if
  count_self a zero h l = absurd (omega arith)
  count_self a (suc k) h l = elim (ℕ_discrete a me) [
    | yes here ↦ ground (arith, count-beyond (suc a) k (omega arith))
    | no earlier ↦ ground (arith, count_self (suc a) k (omega arith) (omega arith))
  ]

replicas-suc :
    {C : Type 0} (rf : Raft C) (n : ℕ) {c : ℕ}
    → rf.me < rf.peers
    → count_others rf.me rf.match_index n (range rf.peers) ≡ ok c
    → replicas rf n ≡ suc c
unfolding replicas
replicas-suc rf n {c} h e =
    count_self rf.me (acked rf.match_index n) 0 rf.peers (omega arith) (omega arith)
    ∙ ap suc (sym (count_others-eq rf.me rf.match_index n (range rf.peers) e))

module _ {C : Type 0} where
  can_commit_sound :
      (rf : Raft C) (n : ℕ) (e : LogEntry C)
      → rf.me < rf.peers
      → get_elem? rf.log n ≡ some e
      → can_commit rf n e.term ≡ ok true
      → IsCommittable rf n
  unfolding can_commit
  can_commit_sound rf n e h found ran = elim (Bool-cases (e.term ==ℤ rf.current_term)) [
    | inl same ↦
        let (c, counted, most) =
          >>=-eq-ok (count_others rf.me rf.match_index n (range rf.peers)) _ (rw same at ran) in
        record {
          entry = e;
          there = found;
          current = (==ℤ_iff e.term rf.current_term).0 same;
          majority = ground (arith, replicas-suc rf n h counted);
        }
    | inr differ ↦ absurd (ground arith)
  ]

  can_commit_complete :
      (rf : Raft C) (n : ℕ) (e : LogEntry C)
      → rf.me < rf.peers
      → get_elem? rf.log n ≡ some e
      → can_commit rf n e.term ≡ ok false
      → ¬ IsCommittable rf n
  unfolding can_commit
  can_commit_complete rf n e h found ran x = elim (Bool-cases (e.term ==ℤ rf.current_term)) [
    | inl same ↦
        let (c, counted, most) =
          >>=-eq-ok (count_others rf.me rf.match_index n (range rf.peers)) _ (rw same at ran) in
        absurd (ground (arith, replicas-suc rf n h counted, x.majority))
    | inr differ ↦ absurd (ground (arith, x.there, x.current))
  ]

  -- Nothing to commit above the commit index and below `k`, or the last such entry is committed.
  abbrev pub Advanced : Raft C → ℕ → Raft C → Type 0
  Advanced rf k rf' =
      ((rf' ≡ rf) × ((m : ℕ) → rf.commit_index <ℤ pos m → m < k → ¬ IsCommittable rf m))
      ⊎ ((n : ℕ) × (rf' ≡ record rf { commit_index = pos n; apply_cond = suc rf.apply_cond })
          × (rf.commit_index <ℤ pos n)
          × (n < k)
          × IsCommittable rf n
          × ((m : ℕ) → n < m → m < k → ¬ IsCommittable rf m))

  -- One more entry that is not to be committed changes nothing.
  skip :
      (rf : Raft C) (n : ℕ) {rf' : Raft C}
      → ¬ IsCommittable rf n
      → Advanced rf n rf'
      → Advanced rf (suc n) rf'
  skip rf n unfit (inl (same, below)) = inl (
    same,
    λ m l u x. elim (ℕ_discrete m n) [
      | yes here ↦ unfit (subst (IsCommittable rf) here x)
      | no under ↦ below m l (omega arith) x
    ],
  )
  skip rf n unfit (inr (k, made, above, under, fit, last)) = inr (
    k,
    made,
    above,
    omega arith,
    fit,
    λ m l u x. elim (ℕ_discrete m n) [
      | yes here ↦ unfit (subst (IsCommittable rf) here x)
      | no before ↦ last m l (omega arith) x
    ],
  )

  can_commit-Advanced :
      (rf : Raft C) (n : ℕ) (b : Bool) (e : LogEntry C) {rf' : Raft C}
      → rf.me < rf.peers
      → get_elem? rf.log n ≡ some e
      → rf.commit_index <ℤ pos n
      → can_commit rf n e.term ≡ ok b
      → (advance_from rf n ≡ ok rf' → Advanced rf n rf')
      → (if b
          then ok (record rf { commit_index = pos n; apply_cond = suc rf.apply_cond })
          else advance_from rf n)
        ≡ ok rf'
      → Advanced rf (suc n) rf'
  can_commit-Advanced rf n true e h found above test ih ran = inr (
    n,
    ground arith,
    above,
    omega arith,
    can_commit_sound rf n e h found test,
    λ m l u _. absurd (omega arith),
  )
  can_commit-Advanced rf n false e h found above test ih ran =
      skip rf n (can_commit_complete rf n e h found test) (ih ran)

  advance_from-Advanced :
      (rf : Raft C) (k : ℕ) {rf' : Raft C}
      → rf.me < rf.peers
      → advance_from rf k ≡ ok rf'
      → Advanced rf k rf'
  unfolding advance_from
  advance_from-Advanced rf zero h ran = inl (ground arith, λ m _ l. absurd (omega arith))
  advance_from-Advanced rf (suc n) {rf'} h ran = elim (Bool-cases (ltb_ℤ rf.commit_index (pos n))) [
    | inl above ↦
        let (e, there, ran1) = >>=-eq-ok (or_panic (get_elem? rf.log n)) _ (rw above at ran) in
        let found : get_elem? rf.log n ≡ some e = ground arith in
        let (b, test, ran2) = >>=-eq-ok (can_commit rf n e.term) _ ran1 in
        can_commit-Advanced rf n b e h found (ground arith) test (advance_from-Advanced rf n h) ran2
    | inr at_end ↦ inl (ground arith, λ m l u _. absurd (ground arith))
  ]

  -- When `advanceCommitIndex` returns, either no entry above the commit index is of the current
  -- term and held by a majority, and nothing has changed; or the last such entry is committed, the
  -- applier is signalled, and nothing else has changed.
  pub advance_commit_index-Advanced :
      (rf : Raft C) {rf' : Raft C}
      → rf.me < rf.peers
      → advance_commit_index rf ≡ ok rf'
      → Advanced rf (length rf.log) rf'
  unfolding advance_commit_index
  advance_commit_index-Advanced rf h ran = advance_from-Advanced rf (length rf.log) h ran
