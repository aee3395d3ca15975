-- ===== src/Base/Members.antt =====
-- Members of a list, lists without repetition, and majorities among the first `n` numbers.
use Prim.Native.Nat.{ℕ, zero, suc, ◌+◌, ◌*◌, ◌≤◌, ◌<◌}
use mathlib.Core.Path.{◌≡◌, refl, sym, subst}
use mathlib.Core.Logic.{◌⊎◌, inl, inr}
use mathlib.Core.List.{List, [], ◌∷◌, ◌++◌}
use mathlib.Core.Option.{some}
use native.Mathlib.Omega.{arith}
use native.Mathlib.Decide.{ℕ_discrete}
use raft_kvs.Base.Tests.{◌==◌, if◌then◌else◌, Bool-cases, ==_iff}
use raft_kvs.Base.Lists.{length, get_elem?, set}

abbrev pub In : {A : Type 0} → A → List A → Type 0
In x [] = ⊥
In x (y ∷ ys) = (x ≡ y) ⊎ In x ys

abbrev pub Distinct : {A : Type 0} → List A → Type 0
Distinct [] = Unit
Distinct (x ∷ xs) = (In x xs → ⊥) × Distinct xs

module _ {A : Type 0} where
  pub In-append : (x : A) (xs ys : List A) → In x (xs ++ ys) → In x xs ⊎ In x ys
  In-append x [] ys h = inr h
  In-append x (y ∷ xs) ys (inl e) = inl (inl e)
  In-append x (y ∷ xs) ys (inr h) = elim (In-append x xs ys h) [
    | inl a ↦ inl (inr a)
    | inr b ↦ inr b
  ]

  -- What is at an index is a member, and a write brings at most the new element in.
  pub In-get_elem? : (xs : List A) (i : ℕ) (x : A) → get_elem? xs i ≡ some x → In x xs
  In-get_elem? [] i x h = cc
  In-get_elem? (y ∷ xs) zero x h = inl (ground arith)
  In-get_elem? (y ∷ xs) (suc i) x h = inr (In-get_elem? xs i x h)

  pub In-set : (x v : A) (xs : List A) (i : ℕ) → In x (set xs i v) → (x ≡ v) ⊎ In x xs
  In-set x v [] i h = absurd h
  In-set x v (y ∷ xs) zero (inl e) = inl e
  In-set x v (y ∷ xs) zero (inr h) = inr (inr h)
  In-set x v (y ∷ xs) (suc i) (inl e) = inr (inl e)
  In-set x v (y ∷ xs) (suc i) (inr h) = elim (In-set x v xs i h) [
    | inl e ↦ inl e
    | inr old ↦ inr (inr old)
  ]

  Distinct-append :
      (xs ys : List A)
      → Distinct xs
      → Distinct ys
      → ((x : A) → In x xs → In x ys → ⊥)
      → Distinct (xs ++ ys)
  Distinct-append [] ys p q apart = q
  Distinct-append (x ∷ xs) ys (new, p) q apart = (
    λ h. elim (In-append x xs ys h) [ inl a ↦ new a | inr b ↦ apart x (inl refl) b ],
    Distinct-append xs ys p q (λ z a b. apart z (inr a) b),
  )

  length_of_append : (xs ys : List A) → length (xs ++ ys) ≡ length xs + length ys
  length_of_append [] ys = omega arith
  length_of_append (x ∷ xs) ys = omega (arith, length_of_append xs ys)

remove : ℕ → List ℕ → List ℕ
remove k [] = []
remove k (x ∷ xs) = if x == k then xs else x ∷ remove k xs

length-remove : (k : ℕ) (xs : List ℕ) → length xs ≤ suc (length (remove k xs))
unfolding remove
length-remove k [] = omega arith
length-remove k (x ∷ xs) = ground (arith, length-remove k xs)

In-remove : (z k : ℕ) (xs : List ℕ) → In z (remove k xs) → In z xs
unfolding remove
In-remove z k [] h = h
In-remove z k (x ∷ xs) h = elim (Bool-cases (x == k)) [
  | inl here ↦ inr (rw here at h)
  | inr other ↦
      let h' : In z (x ∷ remove k xs) = rw other at h in
      elim h' [ inl e ↦ inl e | inr rest ↦ inr (In-remove z k xs rest) ]
]

remove-gone : (k : ℕ) (xs : List ℕ) → Distinct xs → In k (remove k xs) → ⊥
unfolding remove
remove-gone k [] d h = h
remove-gone k (x ∷ xs) (new, d) h = elim (Bool-cases (x == k)) [
  | inl here ↦ new (subst (λ z. In z xs) (sym ((==_iff x k).0 here)) (rw here at h))
  | inr other ↦
      let h' : In k (x ∷ remove k xs) = rw other at h in
      elim h' [ inl e ↦ ground arith | inr rest ↦ remove-gone k xs d rest ]
]

remove-Distinct : (k : ℕ) (xs : List ℕ) → Distinct xs → Distinct (remove k xs)
unfolding remove
remove-Distinct k [] d = tt
remove-Distinct k (x ∷ xs) (new, d) = elim (Bool-cases (x == k)) [
  | inl here ↦ rw here d
  | inr other ↦ rw other ((λ h. new (In-remove x k xs h)), remove-Distinct k xs d)
]

-- The pigeonhole principle.
length-le_of_Distinct :
    (n : ℕ) (xs : List ℕ) → Distinct xs → ((x : ℕ) → In x xs → x < n) → length xs ≤ n
length-le_of_Distinct zero [] d below = omega arith
length-le_of_Distinct zero (x ∷ xs) d below = let l = below x (inl refl) in absurd (omega arith)
length-le_of_Distinct (suc n) xs d below =
    let shorter = length-le_of_Distinct n (remove n xs) (remove-Distinct n xs d) (λ x h.
      elim (ℕ_discrete x n) [
        | yes e ↦ absurd (remove-gone n xs d (subst (λ z. In z (remove n xs)) e h))
        | no ne ↦ let l = below x (In-remove x n xs h) in omega arith
      ]) in
    omega (arith, length-remove n xs)

member : (x : ℕ) (xs : List ℕ) → In x xs ⊎ (In x xs → ⊥)
member x [] = inr (λ h. h)
member x (y ∷ ys) = elim (ℕ_discrete x y) [
  | yes e ↦ inl (inl e)
  | no ne ↦ elim (member x ys) [
    | inl h ↦ inl (inr h)
    | inr out ↦ inr (λ h. elim h [ inl e ↦ ne e | inr rest ↦ out rest ])
  ]
]

common : (xs ys : List ℕ) → ((x : ℕ) × In x xs × In x ys) ⊎ ((x : ℕ) → In x xs → In x ys → ⊥)
common [] ys = inr (λ x h k. h)
common (x ∷ xs) ys = elim (member x ys) [
  | inl h ↦ inl (x, inl refl, h)
  | inr out ↦ elim (common xs ys) [
    | inl (z, a, b) ↦ inl (z, inr a, b)
    | inr apart ↦
        inr (λ z a b. elim a [ inl e ↦ out (subst (λ w. In w ys) e b) | inr rest ↦ apart z rest b ])
  ]
]

-- Two majorities have a common member.
pub majorities_meet :
    (n : ℕ) (xs ys : List ℕ)
    → Distinct xs
    → Distinct ys
    → ((x : ℕ) → In x xs → x < n)
    → ((x : ℕ) → In x ys → x < n)
    → n < 2 * length xs
    → n < 2 * length ys
    → (x : ℕ) × In x xs × In x ys
majorities_meet n xs ys p q a b l m = elim (common xs ys) [
  | inl found ↦ found
  | inr apart ↦
      let bound =
        length-le_of_Distinct n (xs ++ ys) (Distinct-append xs ys p q apart)
          (λ x h. elim (In-append x xs ys h) [ inl i ↦ a x i | inr j ↦ b x j ]) in
      absurd (omega (arith, length_of_append xs ys))
]
