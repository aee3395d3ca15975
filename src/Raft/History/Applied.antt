-- ===== src/Raft/History/Applied.antt =====
-- What the appliers of the peers hand to their services, entry by entry, is the same.
use raft_kvs.Base.{
  negsuc, pos_part, ◌⊎◌, ℕ, ◌+◌, ◌-◌, ◌<◌, ℤ, pos, ◌+ℤ◌, ◌≤ℤ◌, ◌≡◌, refl, sym, ap, subst, ◌∙◌, inl,
  inr, arith, List, [], take, drop, length-take, get_elem?, get_elem?-take, get_elem?-drop, some,
  ok, Outcome, ◌>>=◌, to_bound, plus-one,
}
use raft_kvs.Raft.Types.{Raft, Gob, LogEntry}
use raft_kvs.Raft.Node.{applier_batch}
use raft_kvs.Raft.History.{History, node, start_history, Events, AllInOrder}
use raft_kvs.Raft.History.Prefixes.{get_of_lt, get_of_take}
use raft_kvs.Raft.History.Safety.{state_machine_safety}

below_stop : (c : ℤ) (k x : ℕ) → c +ℤ pos 1 ≡ pos k → x < k → pos x ≤ℤ c
unfolding ◌+ℤ◌
below_stop (pos c) k x h lt = ground (arith, plus-one c)
below_stop (negsuc c) k x h lt = ground arith

module _ {C : Type 0} where
  -- The slice that the applier takes, with its first index.
  abbrev slice : ℤ → ℤ → List (LogEntry C) → Outcome (ℤ × List (LogEntry C))
  slice start stop l = do n ← to_bound start; k ← to_bound stop; ok (start, take (k - n) (drop n l))

  slice_lem :
      (start stop i : ℤ) (l es : List (LogEntry C))
      → slice start stop l ≡ ok (i, es)
      → (n : ℕ) × (k : ℕ) × (start ≡ pos n)
        × (stop ≡ pos k)
        × (i ≡ start)
        × (es ≡ take (k - n) (drop n l))
  slice_lem (pos n) (pos k) i l es h = (n, k, refl, refl, ground arith, ground arith)
  slice_lem (pos n) (negsuc k) i l es h = absurd (ground arith)
  slice_lem (negsuc n) stop i l es h = absurd (ground arith)

  batch-cases :
      (rf : Raft C) (i : ℤ) (es : List (LogEntry C))
      → applier_batch rf ≡ ok (i, es)
      → (es ≡ [])
        ⊎ (slice (rf.last_applied +ℤ pos 1) (rf.commit_index +ℤ pos 1) rf.log ≡ ok (i, es))
  unfolding applier_batch
  batch-cases rf i es ran = ground arith

  -- Each entry of a batch is committed, and stands in the log at its index.
  batch_entry :
      (rf : Raft C) (s m : ℕ) (es : List (LogEntry C)) (e : LogEntry C)
      → applier_batch rf ≡ ok (pos s, es)
      → get_elem? es m ≡ some e
      → (pos (s + m) ≤ℤ rf.commit_index) × (get_elem? rf.log (s + m) ≡ some e)
  batch_entry rf s m es e ran at_m = elim (batch-cases rf (pos s) es ran) [
    | inl none_taken ↦
        let x : get_elem? {A = LogEntry C} [] m ≡ some e =
          ap (λ l. get_elem? l m) (sym none_taken) ∙ at_m in
        absurd (ground arith)
    | inr h ↦
        let (n, k, at_n, at_k, from, taken) =
          slice_lem (rf.last_applied +ℤ pos 1) (rf.commit_index +ℤ pos 1) (pos s) rf.log es h in
        let n_is : s ≡ n = ap pos_part (from ∙ at_n) in
        let there = ap (λ l. get_elem? l m) (sym taken) ∙ at_m in
        let lt = get_of_lt (take (k - n) (drop n rf.log)) m e there in
        let below : m < k - n = omega (arith, lt, length-take (k - n) (drop n rf.log)) in
        (
          below_stop rf.commit_index k (s + m) at_k (omega (arith, below, n_is)),
          ap (get_elem? rf.log) (omega (arith, n_is))
              ∙ sym (get_elem?-drop n m rf.log)
              ∙ sym (get_elem?-take (k - n) m (drop n rf.log) below)
              ∙ there,
        )
  ]

module _ {C : Type 0} ⦃g : Gob C⦄ where
  -- If the applier of one peer takes an entry for an index above 0, and the applier of the same or
  -- another peer takes one for that index at that time or at any later time, whoever crashed and
  -- restarted in between, then it is the same entry. This holds for a cluster of any size that
  -- starts from empty disks, whatever messages are lost, delayed, repeated or reordered, if
  -- AppendEntries come in order as far as that none reaches a candidate in its own term and none
  -- that a peer takes cuts off entries of its own term, and the terms fit in an `int`.
  pub applied_once :
      (n i j s t m o : ℕ) (es fs : List (LogEntry C)) (e f : LogEntry C) {a b : History C}
      (r : Events (start_history n) a) (later : Events a b)
      → AllInOrder r
      → AllInOrder later
      → applier_batch (node a i) ≡ ok (pos s, es)
      → applier_batch (node b j) ≡ ok (pos t, fs)
      → get_elem? es m ≡ some e
      → get_elem? fs o ≡ some f
      → s + m ≡ t + o
      → 0 < s + m
      → e ≡ f
  applied_once n i j s t m o es fs e f {a} {b} r later q q' batch batch' at_m at_o same up =
      let (le, there) = batch_entry (node a i) s m es e batch at_m in
      let (le', there') = batch_entry (node b j) t o fs f batch' at_o in
      let k = s + m in
      let le_b = subst (λ x. pos x ≤ℤ (node b j).commit_index) (sym same) le' in
      let there_b = subst (λ x. get_elem? (node b j).log x ≡ some f) (sym same) there' in
      let (_, _, agree) = state_machine_safety n i j k r later q q' up le le_b in
      let both : some e ≡ some f =
        sym there ∙ get_of_take (node a i).log (node b j).log k f agree there_b in
      ground arith
