-- ===== src/Kv/Clerk/Moves.antt =====
-- Moving a server in the clerk's list loses none.
use mathlib.Core.List.{Perm, perm_middle, perm_append_comm}
use mathlib.Core.List.Perm
use raft_kvs.Base.{
  ℕ, zero, suc, ◌≡◌, sym, ap, subst, String, List, [], ◌∷◌, ◌++◌, length, get_elem?, take, drop,
  some, ok, arith, or_panic, >>=-eq-ok, ◌==◌, Bool-cases, inl, inr,
}
use raft_kvs.Kv.Clerk.{Clerk, move_server_to_front, move_server_to_back}

split_at :
    {A : Type 0} (l : List A) (i : ℕ) (x : A)
    → get_elem? l i ≡ some x
    → l ≡ take i l ++ x ∷ drop (suc i) l
split_at [] i x h = absurd (ground arith)
split_at (y ∷ l) zero x h = ground arith
split_at (y ∷ l) (suc i) x h = ap (◌∷◌ y) (split_at l i x h)

-- The move of a server to the front, if it does not panic, keeps every server of a list that is
-- the clerk's own: the list is permuted.
pub move_server_to_front-perm :
    (servers : List String) (i : ℕ) (ck : Clerk) {ck' : Clerk}
    → ck.servers ≡ servers
    → move_server_to_front servers i ck ≡ ok ck'
    → Perm ck'.servers servers
unfolding move_server_to_front
move_server_to_front-perm servers zero ck {ck'} same h =
    subst (λ (l : List String). Perm l servers) (ground arith) (Perm.refl servers)
move_server_to_front-perm servers (suc i) ck {ck'} same h =
    let (x, e, h1) = >>=-eq-ok (or_panic (get_elem? servers (suc i))) _ h in
    let there : get_elem? servers (suc i) ≡ some x = ground arith in
    let before = take (suc i) servers in
    let behind = drop (suc (suc i)) servers in
    let moved : x ∷ (before ++ behind) ≡ ck'.servers = ground arith in
    subst (λ (l : List String). Perm l servers) moved
      (subst (λ (l : List String). Perm (x ∷ (before ++ behind)) l)
        (sym (split_at servers (suc i) x there)) (Perm.symm (perm_middle before behind)))

-- The move of a server to the back, if it does not panic, keeps every server of a list that is
-- the clerk's own: the list is permuted.
pub move_server_to_back-perm :
    (servers : List String) (i : ℕ) (ck : Clerk) {ck' : Clerk}
    → ck.servers ≡ servers
    → move_server_to_back servers i ck ≡ ok ck'
    → Perm ck'.servers servers
unfolding move_server_to_back
move_server_to_back-perm servers i ck {ck'} same h = elim (Bool-cases (suc i == length servers)) [
  | inl last ↦ subst (λ (l : List String). Perm l servers) (ground arith) (Perm.refl servers)
  | inr inside ↦
      let (x, e, h1) = >>=-eq-ok (or_panic (get_elem? servers i)) _ (rw inside at h) in
      let there : get_elem? servers i ≡ some x = ground arith in
      let before = take i servers in
      let behind = drop (suc i) servers in
      let moved : (before ++ behind) ++ x ∷ [] ≡ ck'.servers = ground arith in
      subst (λ (l : List String). Perm l servers) moved
        (subst (λ (l : List String). Perm ((before ++ behind) ++ x ∷ []) l)
          (sym (split_at servers i x there))
          (Perm.trans (perm_append_comm (before ++ behind) (x ∷ []))
            (Perm.symm (perm_middle before behind))))
]
