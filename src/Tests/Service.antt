-- ===== src/Tests/Service.antt =====
-- Examples of the service of the Raft tests, with commands that are numbers.
use raft_kvs.Base.{
  ℕ, zero, suc, ◌==◌, ==_iff, ℤ, pos, minus_one, ◌≡◌, refl, ap, ◌↔◌, inl, arith, Bool, true, false,
  List, [], ◌∷◌, Option, none, some, Map, Eq, empty, insert, ok,
}
use raft_kvs.Persister.{make_persister}
use raft_kvs.Raft.Types.{applied}
use raft_kvs.Raft.Server.{
  SnapGob, Rfsrv, Test, int_eq, logs_at, is_other, check_logs, check_message, unless_error,
  applier_message, applier, collect, ingest_snap,
}
use raft_kvs.Raft.Server.Accepted.{IsAgreed, Holds}
use raft_kvs.Raft.Server.Agreement.{IsRecorded, applier-IsAgreed}
use raft_kvs.Raft.Server.Acceptance.{entries_behind, AllHold, applier_accepts}
use raft_kvs.Raft.Server.Snapshots.{ingest_snap-collect}
use raft_kvs.Tests.Samples.{
  sign, size, signed, signed-sign, present, content, command, command-present,
}

unfoldable same_option : Option ℕ → Option ℕ → Bool
same_option none none = true
same_option (some m) (some n) = m == n
same_option _ _ = false

same_option_iff : (a b : Option ℕ) → (same_option a b ≡ true) ↔ (a ≡ b)
unfolding same_option
same_option_iff none none = ((λ h. refl), (λ h. refl))
same_option_iff none (some n) = ((λ h. cc), (λ h. cc))
same_option_iff (some m) none = ((λ h. cc), (λ h. cc))
same_option_iff (some m) (some n) =
    ((λ h. ap some ((==_iff m n).0 h)), (λ h. (==_iff m n).1 (ground arith)))

instance unfoldable option_eq : Eq (Option ℕ)
option_eq = record { test = same_option; test_iff = same_option_iff }

unfoldable encode_commands : List (Option ℕ) → List ℕ
encode_commands [] = []
encode_commands (c ∷ cs) = present c ∷ content c ∷ encode_commands cs

unfoldable decode_commands : List ℕ → List (Option ℕ)
decode_commands (p ∷ c ∷ rest) = command p c ∷ decode_commands rest
decode_commands _ = []

decode_commands-encode_commands : (cs : List (Option ℕ)) → decode_commands (encode_commands cs) ≡ cs
unfolding encode_commands decode_commands
decode_commands-encode_commands [] = refl
decode_commands-encode_commands (c ∷ cs) =
    ground (arith, command-present c, decode_commands-encode_commands cs)

unfoldable encode_snap : ℤ → List (Option ℕ) → List ℕ
encode_snap index xlog = sign index ∷ size index ∷ encode_commands xlog

unfoldable decode_snap : List ℕ → Option (ℤ × List (Option ℕ))
decode_snap (s ∷ n ∷ rest) = some (signed s n, decode_commands rest)
decode_snap _ = none

decode_snap-encode_snap :
    (index : ℤ) (xlog : List (Option ℕ)) → decode_snap (encode_snap index xlog) ≡ some (index, xlog)
unfolding encode_snap decode_snap
decode_snap-encode_snap index xlog =
    ground (arith, signed-sign index, decode_commands-encode_commands xlog)

instance unfoldable snaps : SnapGob ℕ
snaps = record {
  encode = encode_snap;
  decode = decode_snap;
  decode-encode = decode_snap-encode_snap;
}

abbrev service : ℕ → Map ℤ (Option ℕ) → Rfsrv ℕ
service me logs = record {
  me = me;
  last_applied = pos 0;
  persister = make_persister;
  raft = none;
  logs = logs;
}

abbrev nobody : Test ℕ
nobody = record { srvs = service 0 empty ∷ service 1 empty ∷ []; max_index = pos 0 }

nothing_held : (i : ℕ) (k : ℤ) (v : Option ℕ) → Holds nobody i k v → ⊥
nothing_held zero k v (rs, at_i, at_k) =
    let e : service 0 empty ≡ rs = ground arith in let n = ap (λ (x : Rfsrv ℕ). x.logs k) e in cc
nothing_held (suc zero) k v (rs, at_i, at_k) =
    let e : service 1 empty ≡ rs = ground arith in let n = ap (λ (x : Rfsrv ℕ). x.logs k) e in cc
nothing_held (suc (suc i)) k v (rs, at_i, at_k) = cc

abbrev one_applied : Test ℕ
one_applied = record {
  srvs = service 0 (insert (pos 1) (some 7) empty) ∷ service 1 empty ∷ [];
  max_index = pos 1;
}

applier-IsAgreed_example :
    IsAgreed one_applied × IsRecorded 0 one_applied (applied (some 7) (pos 1) ∷ [])
unfolding applier applier_message check_message check_logs is_other logs_at unless_error option_eq
    same_option
applier-IsAgreed_example =
    applier-IsAgreed 0 (applied (some 7) (pos 1) ∷ []) nobody {ts' = one_applied}
      (λ i j k v w p q. absurd (nothing_held i k v p)) refl

ingest_snap-collect_example :
    (rs' : Rfsrv ℕ) × (ingest_snap
        (snaps.encode (pos 1) (collect 0 2 (insert (pos 1) (some 7) empty)))
        minus_one
        (service 0 empty)
      ≡ ok (none, rs'))
    × (rs'.last_applied ≡ pos 1)
    × (rs'.logs (pos 1) ≡ some (some 7))
ingest_snap-collect_example =
    ingest_snap-collect 1 1 minus_one (insert (pos 1) (some 7) empty) (service 0 empty) (some 7)
      (inl refl) (ground arith) refl

abbrev sevens : ℤ → Option ℕ
sevens k = some 7

applier_accepts_example :
    (ts : Test ℕ) × (applier 0 (entries_behind sevens 0 2) nobody ≡ ok ts) × AllHold sevens ts
applier_accepts_example =
    applier_accepts 0 0 2 sevens nobody (service 0 empty) (λ j k v h. absurd (nothing_held j k v h))
      refl (inl refl)
