-- ===== src/Raft/Server/Snapshots.antt =====
-- What a service restores of a snapshot that it made.
use raft_kvs.Base.{
  ℕ, zero, suc, ◌+◌, ◌<◌, ◌≤◌, ℤ, pos, minus_one, ◌==ℤ◌, ==ℤ_iff, ◌≡◌, refl, sym, ap, ◌∙◌, ◌⊎◌,
  arith, true, false, List, [], ◌∷◌, get_elem?, Option, none, some, Map, empty, insert, ok, not,
  ◌&&◌,
}
use raft_kvs.Raft.Server.{SnapGob, Rfsrv, int_eq, fill, collect, ingest_snap}

module _ {C : Type 0} where
  fill_below :
      (j : ℕ) (xs : List (Option C)) (logs : Map ℤ (Option C)) (k : ℕ)
      → k < j
      → fill j xs logs (pos k) ≡ logs (pos k)
  unfolding fill
  fill_below j [] logs k h = refl
  fill_below j (x ∷ xs) logs k h =
      let other : (pos j ==ℤ pos k) ≡ false = ground arith in
      fill_below (suc j) xs (insert (pos j) x logs) k (omega arith) ∙ ground arith

  fill_at :
      (j : ℕ) (xs : List (Option C)) (logs : Map ℤ (Option C)) (k : ℕ) (c : Option C)
      → get_elem? xs k ≡ some c
      → fill j xs logs (pos (j + k)) ≡ some c
  unfolding fill
  fill_at j [] logs k c h = cc
  fill_at j (x ∷ xs) logs zero c h =
      let self : (pos j ==ℤ pos j) ≡ true = (==ℤ_iff (pos j) (pos j)).1 refl in
      ap (λ n. fill (suc j) xs (insert (pos j) x logs) (pos n))
        (let z : j + 0 ≡ j = omega arith in z)
      ∙ fill_below (suc j) xs (insert (pos j) x logs) j (omega arith)
      ∙ ground arith
  fill_at j (x ∷ xs) logs (suc k) c h =
      ap (λ n. fill (suc j) xs (insert (pos j) x logs) (pos n))
        (let z : j + suc k ≡ suc j + k = omega arith in z)
      ∙ fill_at (suc j) xs (insert (pos j) x logs) k c h

  collect_at :
      (j n : ℕ) (logs : Map ℤ (Option C)) (k : ℕ) (c : Option C)
      → k < n
      → logs (pos (j + k)) ≡ some c
      → get_elem? (collect j n logs) k ≡ some c
  unfolding collect
  collect_at j zero logs k c h at_k = absurd (omega arith)
  collect_at j (suc n) logs zero c h at_k =
      let at_j : logs (pos j) ≡ some c =
        ap (λ n. logs (pos n)) (let z : j ≡ j + 0 = omega arith in z) ∙ at_k in
      ground arith
  collect_at j (suc n) logs (suc k) c h at_k =
      collect_at (suc j) n logs k c (omega arith)
        (ap (λ n. logs (pos n)) (let z : suc j + k ≡ j + suc k = omega arith in z) ∙ at_k)

module _ {C : Type 0} ⦃s : SnapGob C⦄ where
  ingest_decoded :
      (bytes : List ℕ) (last index : ℤ) (xlog : List (Option C)) (rs : Rfsrv C)
      → s.decode bytes ≡ some (last, xlog)
      → (not (index ==ℤ minus_one) && not (index ==ℤ last)) ≡ false
      → ingest_snap bytes index rs
        ≡ ok (none, record rs { logs = fill 0 xlog empty; last_applied = last })
  unfolding ingest_snap
  ingest_decoded bytes last index xlog rs h fits = rw (h, fits, ingest_snap) refl

  -- A service that ingests the snapshot made of a service's log up to the index `n`, at its start or
  -- from a message for that index, accepts it, is at that index, and has each command that the log
  -- had up to there at the same index.
  pub ingest_snap-collect :
      (n k : ℕ) (index : ℤ) (logs : Map ℤ (Option C)) (rs : Rfsrv C) (c : Option C)
      → (index ≡ minus_one) ⊎ (index ≡ pos n)
      → k ≤ n
      → logs (pos k) ≡ some c
      → (rs' : Rfsrv C) × (ingest_snap (s.encode (pos n) (collect 0 (suc n) logs)) index rs
          ≡ ok (none, rs'))
        × (rs'.last_applied ≡ pos n)
        × (rs'.logs (pos k) ≡ some c)
  ingest_snap-collect n k index logs rs c which le at_k =
      let xlog = collect 0 (suc n) logs in
      let rs' = record rs { logs = fill 0 xlog empty; last_applied = pos n } in
      let fits : (not (index ==ℤ minus_one) && not (index ==ℤ pos n)) ≡ false = ground arith in
      let first : 0 + k ≡ k = omega arith in
      let found =
        collect_at 0 (suc n) logs k c (omega arith) (ap (λ i. logs (pos i)) first ∙ at_k) in
      (
        rs',
        ingest_decoded (s.encode (pos n) xlog) (pos n) index xlog rs (s.decode-encode (pos n) xlog)
            fits,
        refl,
        ap (λ i. fill 0 xlog empty (pos i)) (sym first) ∙ fill_at 0 xlog empty k c found,
      )
