-- ===== src/Raft/History/Prefixes.antt =====
-- Lists that are prefixes of others.
use raft_kvs.Base.{
  take-take, ℕ, zero, suc, ◌≤◌, ◌<◌, ◌≡◌, refl, sym, ap, ◌∙◌, arith, List, [], ◌∷◌, ◌++◌, length,
  take, get_elem?, length-take, take_of_length-le, get_elem?-take, some,
}

module _ {A : Type 0} where
  abbrev pub IsPre : List A → List A → Type 0
  IsPre p l = p ≡ take (length p) l

  pub IsPre-refl : (l : List A) → IsPre l l
  IsPre-refl l = sym (take_of_length-le (length l) l (omega arith))

  pub IsPre-length : (p l : List A) → IsPre p l → length p ≤ length l
  IsPre-length p l h =
      let cut : length p ≡ length (take (length p) l) = ap length h in
      omega (arith, cut, length-take (length p) l)

  pub IsPre-take : (p l : List A) (n : ℕ) → IsPre p l → n ≤ length p → take n p ≡ take n l
  IsPre-take p l n h le = ap (take n) h ∙ take-take n (length p) l le

  -- The shorter one of two prefixes is a prefix of the other.
  pub IsPre-same : (p q l : List A) → IsPre p l → IsPre q l → length p ≤ length q → IsPre p q
  IsPre-same p q l hp hq le = hp ∙ sym (IsPre-take q l (length p) hq le)

  pub IsPre-trans : (p q l : List A) → IsPre p q → IsPre q l → IsPre p l
  IsPre-trans p q l h k = h ∙ IsPre-take q l (length p) k (IsPre-length p q h)

  -- A prefix that is no shorter is the whole list.
  pub IsPre-whole : (p l : List A) → IsPre p l → length l ≤ length p → p ≡ l
  IsPre-whole p l h le = h ∙ take_of_length-le (length p) l le

  pub get_of_lt : (l : List A) (k : ℕ) (x : A) → get_elem? l k ≡ some x → k < length l
  get_of_lt [] k x h = cc
  get_of_lt (y ∷ l) zero x h = omega arith
  get_of_lt (y ∷ l) (suc k) x h = omega (arith, get_of_lt l k x h)

  pub IsPre-get :
      (p l : List A) (k : ℕ) (x : A) → IsPre p l → get_elem? p k ≡ some x → get_elem? l k ≡ some x
  IsPre-get p l k x h there =
      sym (get_elem?-take (length p) k l (get_of_lt p k x there))
      ∙ ap (λ q. get_elem? q k) (sym h)
      ∙ there

  pub IsPre-get_back :
      (p l : List A) (k : ℕ) (x : A)
      → IsPre p l
      → k < length p
      → get_elem? l k ≡ some x
      → get_elem? p k ≡ some x
  IsPre-get_back p l k x h inside there =
      ap (λ q. get_elem? q k) h ∙ get_elem?-take (length p) k l inside ∙ there

  pub take-IsPre : (n : ℕ) (l : List A) → n ≤ length l → IsPre (take n l) l
  take-IsPre n l h =
      let long : length (take n l) ≡ n = omega (arith, length-take n l) in
      ap (λ m. take m l) (sym long)

  -- Lists that agree up to an index agree in what stands there.
  pub get_of_take :
      (p l : List A) (k : ℕ) (x : A)
      → take (suc k) p ≡ take (suc k) l
      → get_elem? l k ≡ some x
      → get_elem? p k ≡ some x
  get_of_take p l k x h there =
      sym (get_elem?-take (suc k) k p (omega arith))
      ∙ ap (λ q. get_elem? q k) h
      ∙ get_elem?-take (suc k) k l (omega arith)
      ∙ there

  pub append-IsPre : (l : List A) (x : A) → IsPre l (l ++ x ∷ [])
  append-IsPre [] x = refl
  append-IsPre (y ∷ l) x = ap (◌∷◌ y) (append-IsPre l x)

  -- What stands behind a list in the list with one more element is that element.
  pub get_behind :
      (l : List A) (x y : A) (k : ℕ) → length l ≤ k → get_elem? (l ++ x ∷ []) k ≡ some y → y ≡ x
  get_behind [] x y zero le h = ground arith
  get_behind [] x y (suc k) le h = cc
  get_behind (z ∷ l) x y zero le h = absurd (omega arith)
  get_behind (z ∷ l) x y (suc k) le h = get_behind l x y k (omega arith) h
