-- ===== src/Raft/History/Passing.antt =====
-- The peers that pass a test, as many as a count of them says.
use raft_kvs.Base.{
  ℕ, zero, suc, ◌+◌, ◌≤◌, ◌<◌, ◌≡◌, refl, ap, ◌∙◌, inl, inr, arith, true, Bool, Bool-cases, List,
  [], ◌∷◌, length, In, Distinct, if◌then◌else◌, range, range_from,
}
use raft_kvs.Raft.Replicate.Commit.{count_if}

-- The members of a list that pass a test.
passing : (ℕ → Bool) → List ℕ → List ℕ
passing p [] = []
passing p (i ∷ is) = if p i then i ∷ passing p is else passing p is

length-passing : (p : ℕ → Bool) (is : List ℕ) → length (passing p is) ≡ count_if p is
unfolding passing count_if
length-passing p [] = refl
length-passing p (i ∷ is) = ground (arith, length-passing p is)

In-passing : (p : ℕ → Bool) (is : List ℕ) (v : ℕ) → In v (passing p is) → In v is × (p v ≡ true)
unfolding passing
In-passing p [] v h = absurd h
In-passing p (i ∷ is) v h = elim (Bool-cases (p i)) [
  | inl yes_p ↦
      let h' : In v (i ∷ passing p is) = rw yes_p at h in
      elim h' [
        | inl e ↦ (inl e, ap p e ∙ yes_p)
        | inr rest ↦ let (there, passes) = In-passing p is v rest in (inr there, passes)
      ]
  | inr no_p ↦ let (there, passes) = In-passing p is v (rw no_p at h) in (inr there, passes)
]

Distinct-passing : (p : ℕ → Bool) (is : List ℕ) → Distinct is → Distinct (passing p is)
unfolding passing
Distinct-passing p [] d = d
Distinct-passing p (i ∷ is) (new, d) = elim (Bool-cases (p i)) [
  | inl yes_p ↦ rw yes_p ((λ h. new (In-passing p is i h).0), Distinct-passing p is d)
  | inr no_p ↦ rw no_p (Distinct-passing p is d)
]

In-range_from : (i n v : ℕ) → In v (range_from i n) → (i ≤ v) × (v < i + n)
In-range_from i zero v h = absurd h
In-range_from i (suc n) v (inl e) = (omega arith, omega arith)
In-range_from i (suc n) v (inr h) =
    let (le, lt) = In-range_from (suc i) n v h in (omega arith, omega arith)

Distinct-range_from : (i n : ℕ) → Distinct (range_from i n)
Distinct-range_from i zero = tt
Distinct-range_from i (suc n) = (
  λ h. let (le, _) = In-range_from (suc i) n i h in omega (arith, le),
  Distinct-range_from (suc i) n,
)

-- The peers that pass a test, each once.
pub record Passing (p : ℕ → Bool) (n : ℕ) : Type 0 where
  pub members : List ℕ
  pub distinct : Distinct members
  pub inside : (v : ℕ) → In v members → v < n
  pub passes : (v : ℕ) → In v members → p v ≡ true
  pub counted : length members ≡ count_if p (range n)

pub passing_lem : (p : ℕ → Bool) (n : ℕ) → Passing p n
passing_lem p n = record {
  members = passing p (range n);
  distinct = Distinct-passing p (range n) (Distinct-range_from 0 n);
  inside =
      λ v h. let (_, lt) = In-range_from 0 n v (In-passing p (range n) v h).0 in omega (arith, lt);
  passes = λ v h. (In-passing p (range n) v h).1;
  counted = length-passing p (range n);
}
