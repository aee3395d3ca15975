-- ===== src/Raft/History/Sound.antt =====
-- What holds between the events of a history: peers keep what may be committed.
use raft_kvs.Base.{
  [], ◌∷◌, ◌++◌, length-take, ℕ, suc, ◌≤◌, ◌<◌, ℤ, pos, ◌<ℤ◌, ◌≤ℤ◌, ◌≡◌, ◌≢◌, sym, ap, ◌∙◌, ◌⊎◌,
  inl, inr, arith, true, List, length, take, get_elem?, some, ok, In, dec_lt,
}
use raft_kvs.Raft.Types.{
  Raft, Gob, LogEntry, Stored, RequestVoteArgs, AppendEntriesArgs, send_entries, is_leader,
  is_candidate,
}
use raft_kvs.Raft.Log.{last_log_index, last_log_term}
use raft_kvs.Raft.Broadcast.{append_args}
use raft_kvs.Raft.Cluster.{Ballot}
use raft_kvs.Raft.Cluster.Logs.{Made, IsKnown}
use raft_kvs.Raft.Cluster.World.{Sent}
use raft_kvs.Raft.Cluster.Well.{IsLed, IsWell}
use raft_kvs.Raft.History.{Ack, History, node}
use raft_kvs.Raft.History.Prefixes.{
  append-IsPre, get_behind, IsPre-take, IsPre, IsPre-refl, IsPre-trans, IsPre-get_back, get_of_lt,
}
use raft_kvs.Raft.History.Acked.{Acked, IsCommitted, IsCommitted-mono, Keeps, Onward}

module _ {C : Type 0} where
  -- No entry is of a later term.
  pub record IsBelow (t : ℤ) (l : List (LogEntry C)) : Type 0 where
    pub below : (k : ℕ) (e : LogEntry C) → get_elem? l k ≡ some e → e.term ≤ℤ t

  pub IsBelow-up : (t u : ℤ) (l : List (LogEntry C)) → t ≤ℤ u → IsBelow t l → IsBelow u l
  IsBelow-up t u l le h = record { below = λ k e at_k. let x = h.below k e at_k in omega arith }

  -- The log goes on with entries of one term.
  pub record IsStem (t : ℤ) (l m : List (LogEntry C)) : Type 0 where
    pub pre : IsPre l m
    pub tail : (k : ℕ) (e : LogEntry C) → length l ≤ k → get_elem? m k ≡ some e → e.term ≡ t

  -- What a leader made ends with an entry of its term.
  pub record IsEnded (p : Made C) : Type 0 where
    pub last : ℕ
    pub entry : LogEntry C
    pub long : length p.log ≡ suc last
    pub there : get_elem? p.log last ≡ some entry
    pub of_term : entry.term ≡ p.term

  -- The log has the entries up to an index as a committed one has them.
  pub record Decided (w : History C) (l : List (LogEntry C)) (c t : ℤ) : Type 0 where
    pub whole : Made C
    pub index : ℕ
    pub is : c ≡ pos index
    pub known : In whole w.world.made
    pub committed : IsCommitted w whole
    pub early : whole.term ≤ℤ t
    pub inside : index < length whole.log
    pub same : take (suc index) l ≡ take (suc index) whole.log

  abbrev pub IsFinal : History C → List (LogEntry C) → ℤ → ℤ → Type 0
  IsFinal w l c t = (c ≡ pos 0) ⊎ Decided w l c t

  pub IsFinal-mono :
      (a b : History C) (l : List (LogEntry C)) (c t u : ℤ)
      → Onward a b
      → t ≤ℤ u
      → IsFinal a l c t
      → IsFinal b l c u
  IsFinal-mono a b l c t u o le (inl none_yet) = inl none_yet
  IsFinal-mono a b l c t u o le (inr d) = inr (record {
    whole = d.whole;
    index = d.index;
    is = d.is;
    known = o.made d.whole d.known;
    committed = IsCommitted-mono a b d.whole o d.committed;
    early = let x = d.early in omega arith;
    inside = d.inside;
    same = d.same;
  })

  -- A request was built from a log that keeps what may be committed; its leader only added to it.
  pub record IsApt (w : History C) (args : AppendEntriesArgs C) : Type 0 where
    pub ld : Raft C
    pub next : ℤ
    pub built : append_args ld next ≡ ok args
    pub known : IsKnown w.world.made ld.log
    pub led : IsLed w.world.cluster args.term
    pub below : IsBelow args.term ld.log
    pub older : (p : Made C) → In p w.world.made → p.term <ℤ args.term → Keeps w ld.log p
    pub same :
        (p : Made C)
        → In p w.world.made
        → p.term ≡ args.term
        → IsPre p.log ld.log ⊎ IsStem args.term ld.log p.log
    pub leads :
        (j : ℕ)
        → is_leader (node w j).state ≡ true
        → (node w j).current_term ≡ args.term
        → IsStem args.term ld.log (node w j).log
    pub final : IsFinal w ld.log args.leader_commit args.term

module _ {C : Type 0} ⦃g : Gob C⦄ where
  -- What holds of the state `rf` of peer `i`.
  pub record IsFine (w : History C) (i : ℕ) (rf : Raft C) : Type 0 where
    pub below : IsBelow rf.current_term rf.log
    pub disk :
        (s : Stored C)
        → rf.persister.raftstate ≡ g.encode s
        → IsBelow rf.current_term s.log × IsPre rf.log s.log
    -- What it took, its log has.
    pub keeps : (p : Made C) → In p w.world.made → Acked w.acks i p → Keeps w rf.log p
    pub final : IsFinal w rf.log rf.commit_index rf.current_term
    pub inside : is_leader rf.state ≡ true → i < w.world.cluster.size
    -- A leader has all of earlier terms, and has taken all of its own.
    pub heir :
        is_leader rf.state ≡ true
        → (p : Made C) → In p w.world.made
        → p.term <ℤ rf.current_term
        → Keeps w rf.log p
    pub own :
        is_leader rf.state ≡ true
        → (p : Made C) → In p w.world.made
        → p.term ≡ rf.current_term
        → Acked w.acks i p
    pub bound :
        is_leader rf.state ≡ true
        → (k : Ack) → In k w.acks
        → k.term ≡ rf.current_term
        → k.length ≤ length rf.log
    pub matched :
        is_leader rf.state ≡ true
        → (j m : ℕ) → get_elem? rf.match_index j ≡ some (pos m)
        → j ≢ i
        → (k : Ack) × In k w.acks × (k.voter ≡ j) × (k.term ≡ rf.current_term) × (m < k.length)
    -- Who votes for a candidate has no more than it has, of what may be committed.
    pub runs :
        is_candidate rf.state ≡ true
        → (v : Ballot) → In v w.world.cluster.ballots
        → v.term ≡ rf.current_term
        → v.choice ≡ i
        → (p : Made C) → In p w.world.made
        → Acked w.acks v.voter p
        → p.term <ℤ rf.current_term
        → Keeps w rf.log p
    pub asks :
        is_candidate rf.state ≡ true
        → (q : RequestVoteArgs) → In q w.asked
        → q.term ≡ rf.current_term
        → q.candidate_id ≡ pos i
        → (q.last_log_index ≡ last_log_index rf.log) × (q.last_log_term ≡ last_log_term rf.log)

  pub record IsSound (w : History C) : Type 0 where
    pub well : IsWell w.world
    pub rising : (p : Made C) → In p w.world.made → IsBelow p.term p.log
    pub ended : (p : Made C) → In p w.world.made → IsEnded p
    pub order :
        (p q : Made C) → In p w.world.made → In q w.world.made → p.term <ℤ q.term → Keeps w q.log p
    pub acks :
        (k : Ack)
        → In k w.acks
        → (k.term ≤ℤ (node w k.voter).current_term) × IsLed w.world.cluster k.term
    pub asked :
        (q : RequestVoteArgs)
        → In q w.asked
        → (c : ℕ) × (q.candidate_id ≡ pos c) × (q.term ≤ℤ (node w c).current_term)
    pub ballots :
        (v : Ballot) → In v w.world.cluster.ballots → v.term ≤ℤ (node w v.choice).current_term
    pub fine : (i : ℕ) → IsFine w i (node w i)
    pub calls :
        (i to : ℕ) (args : AppendEntriesArgs C)
        → In (send_entries to args) (node w i).calls
        → IsApt w args
    pub sent : (s : Sent C) → In s w.world.sent → IsApt w s.args

module _ {C : Type 0} where
  pub IsStem-refl : (t : ℤ) (l : List (LogEntry C)) → IsStem t l l
  IsStem-refl t l = record {
    pre = IsPre-refl l;
    tail = λ k e le h. let lt = get_of_lt l k e h in absurd (omega arith);
  }

  pub IsStem-trans :
      (t : ℤ) (l m n : List (LogEntry C)) → IsStem t l m → IsStem t m n → IsStem t l n
  IsStem-trans t l m n s r = record {
    pre = IsPre-trans l m n s.pre r.pre;
    tail = λ k e le h. elim (dec_lt k (length m)) [
      | yes inside ↦ s.tail k e le (IsPre-get_back m n k e r.pre inside h)
      | no behind ↦ r.tail k e (omega arith) h
    ];
  }

  pub append-IsStem :
      (t : ℤ) (l : List (LogEntry C)) (x : LogEntry C) → x.term ≡ t → IsStem t l (l ++ x ∷ [])
  append-IsStem t l x same = record {
    pre = append-IsPre l x;
    tail = λ k e le h. ap (λ (y : LogEntry C). y.term) (get_behind l x e k le h) ∙ same;
  }

  -- A log that goes on as it was has what was decided.
  pub IsFinal-IsPre :
      (w : History C) (l m : List (LogEntry C)) (c t : ℤ)
      → IsPre l m
      → IsFinal w l c t
      → IsFinal w m c t
  IsFinal-IsPre w l m c t pre (inl none_yet) = inl none_yet
  IsFinal-IsPre w l m c t pre (inr d) =
      let n = suc d.index in
      let cut : length (take n l) ≡ length (take n d.whole.log) = ap length d.same in
      let inside = d.inside in
      let long : n ≤ length l =
        omega (arith, cut, length-take n l, length-take n d.whole.log, inside) in
      inr (record {
        whole = d.whole;
        index = d.index;
        is = d.is;
        known = d.known;
        committed = d.committed;
        early = d.early;
        inside = d.inside;
        same = sym (IsPre-take l m n pre long) ∙ d.same;
      })
