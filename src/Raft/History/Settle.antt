-- ===== src/Raft/History/Settle.antt =====
-- A step after which its peer is as it should be leaves the whole history so.
use raft_kvs.Base.{
  ℕ, ℤ, pos, ◌<ℤ◌, ◌≤ℤ◌, ◌≡◌, refl, sym, ap, subst, ◌∙◌, inl, inr, arith, true, In, ℕ_discrete,
}
use raft_kvs.Raft.Types.{RequestVoteArgs, Raft, Gob, AppendEntriesArgs, send_entries, is_leader}
use raft_kvs.Raft.Broadcast.{append_args}
use raft_kvs.Raft.Cluster.{Ballot}
use raft_kvs.Raft.Cluster.Sending.{IsFresh}
use raft_kvs.Raft.Cluster.Makes.{Step-Sends}
use raft_kvs.Raft.Cluster.Safety.{Elected-same}
use raft_kvs.Raft.Cluster.Senders.{IsFresh-term, Acts-here, Acts-else, Acts-each}
use raft_kvs.Raft.Cluster.Logs.{Made}
use raft_kvs.Raft.Cluster.Entries.{leader_idle}
use raft_kvs.Raft.Cluster.Well.{IsLed, IsLed-Acts, IsWell}
use raft_kvs.Raft.History.{Ack, History, node}
use raft_kvs.Raft.History.Acked.{Keeps, Keeps-mono}
use raft_kvs.Raft.History.Sound.{
  IsBelow, IsEnded, IsStem, IsStem-refl, IsFinal, IsApt, IsFine, IsSound,
}
use raft_kvs.Raft.History.Turns.{IsNew, Turn, here_term, late-IsDead}
use raft_kvs.Raft.History.Others.{others, IsApt-Turn}

up_to : (t u x : ℤ) → t ≤ℤ u → u ≡ x → t ≤ℤ x
up_to t u x le e = subst (λ y. t ≤ℤ y) e le

module _ {C : Type 0} ⦃g : Gob C⦄ where
  IsFresh-commit :
      (rf : Raft C) (args : AppendEntriesArgs C)
      → IsFresh rf args
      → args.leader_commit ≡ rf.commit_index
  unfolding append_args
  IsFresh-commit rf args new = let h = new.built in ground arith

  -- A leader is past standing for election in its term.
  pub leader-IsLed :
      (b : History C) (i : ℕ)
      → IsWell b.world
      → is_leader (node b i).state ≡ true
      → IsLed b.world.cluster (node b i).current_term
  leader-IsLed b i w leads =
      (w.ranks i (inl leads), (i, w.safe.elected i leads, inr (refl, leader_idle (node b i) leads)))

  -- A request that a leader makes now is apt.
  fresh-IsApt :
      (b : History C) (i : ℕ) (args : AppendEntriesArgs C)
      → IsWell b.world
      → IsFine b i (node b i)
      → IsFresh (node b i) args
      → IsApt b args
  fresh-IsApt b i args w f new =
      let rf = node b i in
      let of_term : args.term ≡ rf.current_term = IsFresh-term rf args new in
      record {
        ld = rf;
        next = new.next;
        built = new.built;
        known = w.logs i;
        led = subst (IsLed b.world.cluster) (sym of_term) (leader-IsLed b i w new.leads);
        below = subst (λ t. IsBelow t rf.log) (sym of_term) f.below;
        older = λ p h lt. f.heir new.leads p h (subst (λ t. p.term <ℤ t) of_term lt);
        same = λ p h same_term. inl (w.full i new.leads p h (same_term ∙ of_term));
        leads = λ j leads same_term.
            let same : i ≡ j =
              Elected-same b.world.cluster w.safe rf.current_term (node b j).current_term i j
                (sym of_term ∙ sym same_term) (w.safe.elected i new.leads)
                (w.safe.elected j leads) in
            subst (λ k. IsStem args.term rf.log (node b k).log) same (IsStem-refl args.term rf.log);
        final =
            subst (λ c. IsFinal b rf.log c args.term) (sym (IsFresh-commit rf args new))
              (subst (IsFinal b rf.log rf.commit_index) (sym of_term) f.final);
      }

  Turn-order :
      (a b : History C) (t : Turn a b)
      → IsSound a
      → IsWell b.world
      → IsFine b t.acts.actor t.acts.after
      → (p q : Made C) → In p b.world.made
      → In q b.world.made
      → p.term <ℤ q.term
      → Keeps b q.log p
  Turn-order a b t s w f p q hp hq lt = elim (t.made q hq) [
    | inr new_q ↦
        subst (λ l. Keeps b l p) (sym new_q.log)
          (f.heir new_q.leads p hp (subst (λ u. p.term <ℤ u) new_q.term lt))
    | inl old_q ↦ elim (t.made p hp) [
      | inl old_p ↦ Keeps-mono a b q.log p t.onward (s.order p q old_p old_q lt)
      | inr new_p ↦ elim (w.makers q hq) [
        | inl is_root ↦
            let low : p.term <ℤ pos 0 = subst (λ (x : Made C). p.term <ℤ x.term) is_root lt in
            let high : pos 0 ≤ℤ p.term =
              subst (λ u. pos 0 ≤ℤ u) (sym new_p.before) (s.well.terms t.acts.actor) in
            absurd (omega (arith, low, high))
        | inr (_, (c, e, _)) ↦ inr (late-IsDead a b t p q.term c w.safe new_p e lt)
      ]
    ]
  ]

  Turn-IsFine :
      (a b : History C) (t : Turn a b)
      → IsSound a
      → IsWell b.world
      → IsFine b t.acts.actor t.acts.after
      → (j : ℕ) → IsFine b j (node b j)
  Turn-IsFine a b t s w f j = elim (ℕ_discrete t.acts.actor j) [
    | yes self ↦
        subst (λ k. IsFine b k (node b k)) self
          (subst (IsFine b t.acts.actor) (sym (Acts-here a.world.cluster b.world.cluster t.acts)) f)
    | no other ↦
        subst (IsFine b j) (sym (Acts-else a.world.cluster b.world.cluster t.acts j other))
          (others a b t j (s.fine j) s.well w.safe other)
  ]

  Turn-acks :
      (a b : History C) (t : Turn a b)
      → IsSound a
      → (k : Ack) → In k b.acks
      → (k.term ≤ℤ (node b k.voter).current_term) × IsLed b.world.cluster k.term
  Turn-acks a b t s k h = elim (t.acks k h) [
    | inl old ↦
        let (le, led) = s.acks k old in
        let up = t.onward.terms k.voter in
        (omega arith, IsLed-Acts a.world.cluster b.world.cluster t.acts k.term t.later led)
    | inr new ↦ (
      up_to k.term k.term (node b k.voter).current_term (omega arith)
          (new.term ∙ sym (here_term a b t) ∙ ap (λ x. (node b x).current_term) (sym new.voter)),
      new.led,
    )
  ]

  Turn-asked :
      (a b : History C) (t : Turn a b)
      → IsSound a
      → (q : RequestVoteArgs) → In q b.asked
      → (c : ℕ) × (q.candidate_id ≡ pos c) × (q.term ≤ℤ (node b c).current_term)
  Turn-asked a b t s q h = elim (t.asked q h) [
    | inl old ↦
        let (c, of_c, le) = s.asked q old in let up = t.onward.terms c in (c, of_c, omega arith)
    | inr (of_i, le) ↦ (
      t.acts.actor,
      of_i,
      up_to q.term t.acts.after.current_term (node b t.acts.actor).current_term le
          (sym (here_term a b t)),
    )
  ]

  Turn-ballots :
      (a b : History C) (t : Turn a b)
      → IsSound a
      → (v : Ballot) → In v b.world.cluster.ballots
      → v.term ≤ℤ (node b v.choice).current_term
  Turn-ballots a b t s v h = elim (t.ballots v h) [
    | inl old ↦ let le = s.ballots v old in let up = t.onward.terms v.choice in omega arith
    | inr cast ↦ elim (ℕ_discrete t.acts.actor v.choice) [
      | yes self ↦
          up_to v.term t.acts.after.current_term (node b v.choice).current_term cast.known
            (sym (here_term a b t) ∙ ap (λ x. (node b x).current_term) self)
      | no other ↦ let le = cast.asked other in let up = t.onward.terms v.choice in omega arith
    ]
  ]

  pub settle :
      (a b : History C) (t : Turn a b)
      → IsSound a
      → IsWell b.world
      → b.world.sent ≡ a.world.sent
      → ((p : Made C) → In p b.world.made → IsNew a b t.acts.actor t.acts.after p → IsEnded p)
      → IsFine b t.acts.actor t.acts.after
      → IsSound b
  settle a b t s w same_sent ends f =
      let i = t.acts.actor in
      let fine = Turn-IsFine a b t s w f in
      let there = Acts-here a.world.cluster b.world.cluster t.acts in
      let apt = λ (args : AppendEntriesArgs C). IsApt-Turn a b t args s.well w.safe in
      record {
        well = w;
        rising = λ p h. elim (t.made p h) [
          | inl old ↦ s.rising p old
          | inr new ↦
              subst (λ u. IsBelow u p.log) (sym new.term)
                (subst (IsBelow t.acts.after.current_term) (sym new.log) f.below)
        ];
        ended = λ p h. elim (t.made p h) [ inl old ↦ s.ended p old | inr new ↦ ends p h new ];
        order = Turn-order a b t s w f;
        acks = Turn-acks a b t s;
        asked = Turn-asked a b t s;
        ballots = Turn-ballots a b t s;
        fine = fine;
        calls = λ j to args.
            Acts-each a.world.cluster b.world.cluster t.acts
              (λ k x. In (send_entries to args) x.calls → IsApt b args)
              (λ h. elim (Step-Sends t.acts.taken to args h) [
                | inl old ↦ apt args (s.calls i to args old)
                | inr (new, _) ↦
                    fresh-IsApt b i args w (fine i) (subst (λ x. IsFresh x args) (sym there) new)
              ])
              (λ k h. apt args (s.calls k to args h)) j;
        sent = λ x h. apt x.args (s.sent x (subst (In x) same_sent h));
      }
