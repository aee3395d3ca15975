-- ===== src/Raft/Exchange/Progress.antt =====
-- A refusal moves a leader's next index back.
use raft_kvs.Base.{
  ◌+◌, ℕ, suc, ◌≤◌, ℤ, pos, minus_one, ◌==ℤ◌, ==ℤ_iff, pos_part, ◌≡◌, ◌≢◌, refl, sym, ap, subst,
  ◌∙◌, ◌⊎◌, inl, inr, arith, Bool-cases, List, [], ◌∷◌, length, take, get_elem?, get_elem?-take,
  some, dec_le,
}
use raft_kvs.Raft.Types.{LogEntry, Raft, AppendEntriesReply}
use raft_kvs.Raft.Log.{first_index_of_term, first_index_from, term_at, max}
use raft_kvs.Raft.Append.Refusal.{Refusal, short, differs}
use raft_kvs.Raft.Append.Convergence.{IsMatching, term_at-pos}
use raft_kvs.Raft.Replicate.{backed_up}

module _ {C : Type 0} where
  -- As Raft's Log Matching, where the entry of the term may stand further on in the second log.
  pub record IsSharing (l m : List (LogEntry C)) : Type 0 where
    pub prefix :
        (i j : ℕ) (e f : LogEntry C)
        → i ≤ j
        → get_elem? l i ≡ some e
        → get_elem? m j ≡ some f
        → e.term ≡ f.term
        → take (suc i) l ≡ take (suc i) m

  pub IsSharing-IsMatching : (l m : List (LogEntry C)) → IsSharing l m → IsMatching l m
  IsSharing-IsMatching l m s = record {
    prefix = λ i e f at_l at_m same. s.prefix i i e f (omega arith) at_l at_m same;
  }

  first_index_from-cases :
      (k : ℕ) (log : List (LogEntry C)) (t : ℤ)
      → (first_index_from k log t ≡ minus_one)
        ⊎ ((j : ℕ) × (e : LogEntry C) × (first_index_from k log t ≡ pos (k + j))
            × (get_elem? log j ≡ some e)
            × (e.term ≡ t))
  unfolding first_index_from
  first_index_from-cases k [] t = inl refl
  first_index_from-cases k (x ∷ log) t = elim (Bool-cases (x.term ==ℤ t)) [
    | inl same ↦ inr (0, x, ground arith, refl, (==ℤ_iff x.term t).0 same)
    | inr differ ↦ elim (first_index_from-cases (suc k) log t) [
      | inl none_at ↦ inl (ground arith)
      | inr (j, e, at_j, found, of_term) ↦ inr (suc j, e, ground arith, found, of_term)
    ]
  ]

  -- The term that a follower has at `p` instead of the leader's: the leader has none of it behind.
  none_behind :
      (l m : List (LogEntry C)) (p j : ℕ) (e f : LogEntry C)
      → IsSharing l m
      → get_elem? l p ≡ some e
      → get_elem? m j ≡ some f
      → f.term ≡ e.term
      → e.term ≢ term_at m (pos p)
      → j ≤ p
  none_behind l m p j e f sharing at_p at_j same differ = elim (dec_le j p) [
    | yes within ↦ within
    | no out ↦
        let shared = sharing.prefix p j e f (omega arith) at_p at_j (sym same) in
        let there : get_elem? m p ≡ some e =
          sym (get_elem?-take (suc p) p m (omega arith))
          ∙ ap (λ k. get_elem? k p) (sym shared)
          ∙ get_elem?-take (suc p) p l (omega arith)
          ∙ at_p in
        absurd (differ (sym (term_at-pos m p e there)))
  ]

  pub backed_up-lt :
      (ld : Raft C) (l : List (LogEntry C)) (p : ℕ) (reply : AppendEntriesReply)
      → IsSharing l ld.log
      → Refusal l (pos p) (term_at ld.log (pos p)) reply
      → (n : ℕ) × (backed_up reply ld ≡ pos n) × (n ≤ p)
  unfolding backed_up first_index_of_term max
  backed_up-lt ld l p reply sharing (short le t i) = (length l, ground arith, omega arith)
  backed_up-lt ld l p reply sharing (differs q f e at_q found ne t i run) =
      let same : p ≡ q = ap pos_part at_q in
      let found_p = subst (λ k. get_elem? l k ≡ some e) (sym same) found in
      let f_le : f ≤ p = elim (dec_le f p) [
        | yes within ↦ within
        | no out ↦
            let start : suc q ≡ f = omega (arith, run.below) in
            absurd (run.before q e start found refl)
      ] in
      elim (first_index_from-cases 0 ld.log e.term) [
        | inl none_at ↦
            let none_at' : first_index_from 0 ld.log reply.conflict_term ≡ minus_one =
              ap (first_index_from 0 ld.log) t ∙ none_at in
            (f, ground arith, f_le)
        | inr (j, x, at_j, there, of_term) ↦
            let at_j' : first_index_from 0 ld.log reply.conflict_term ≡ pos j =
              ap (first_index_from 0 ld.log) t
              ∙ at_j
              ∙ ap pos (let z : 0 + j ≡ j = omega arith in z) in
            let le = none_behind l ld.log p j e x sharing found_p there of_term ne in
            elim (Bool-cases (reply.conflict_term ==ℤ minus_one)) [
              | inl nothing ↦ (f, ground arith, f_le)
              | inr term ↦ (j, ground arith, le)
            ]
      ]

  pub before_all-Refusal :
      (l : List (LogEntry C)) (t : ℤ) (reply : AppendEntriesReply) → Refusal l minus_one t reply → ⊥
  before_all-Refusal l t reply (short le term i) = omega arith
  before_all-Refusal l t reply (differs p f e at_p found ne term i run) = ground arith
