-- ===== src/Raft/History/Starts.antt =====
-- A leader that adds an entry to its log keeps a history as it should be.
use raft_kvs.Base.{
  ℕ, suc, ℤ, pos, ◌+ℤ◌, ◌≤ℤ◌, ◌≡◌, ◌≢◌, refl, sym, ap, subst, ◌∙◌, inl, inr, arith, true, Bool,
  List, [], ◌∷◌, ◌++◌, length, length-append, get_elem?, get_elem?-set_ne, some, ok, In, dec_lt,
}
use raft_kvs.Raft.Types.{Raft, Gob, LogEntry, is_leader}
use raft_kvs.Raft.Order.{Later, IsDurable}
use raft_kvs.Raft.Log.{last_log_index}
use raft_kvs.Raft.Persist.{persist}
use raft_kvs.Raft.Broadcast.{broadcast}
use raft_kvs.Raft.Node.{start, append_command}
use raft_kvs.Raft.Node.Start.{start_lem}
use raft_kvs.Raft.Node.Later.{start-same}
use raft_kvs.Raft.Cluster.Safety.{Elected-same}
use raft_kvs.Raft.Cluster.Senders.{Acts, Acts-here}
use raft_kvs.Raft.Cluster.Logs.{Made}
use raft_kvs.Raft.Cluster.Well.{IsLed, IsWell}
use raft_kvs.Raft.History.{Ack, History, node}
use raft_kvs.Raft.History.Prefixes.{IsPre, IsPre-get_back, append-IsPre, get_behind}
use raft_kvs.Raft.History.Acked.{Acked}
use raft_kvs.Raft.History.Sound.{IsBelow, IsStem, IsSound, append-IsStem}
use raft_kvs.Raft.History.Turns.{Turn}
use raft_kvs.Raft.History.Settle.{leader-IsLed}
use raft_kvs.Raft.History.Unmoved.{make_turn}

-- What a leader's `Start` did: the entry `x` is new in its log.
pub record IsStarted {C : Type 0} ⦃g : Gob C⦄ (old new : Raft C) (x : LogEntry C) : Type 0 where
  pub led : is_leader old.state ≡ true
  pub leads : is_leader new.state ≡ true
  pub of_term : x.term ≡ old.current_term
  pub kept : new.current_term ≡ old.current_term
  pub added : new.log ≡ old.log ++ x ∷ []
  pub durable : IsDurable new
  pub commit : new.commit_index ≡ old.commit_index
  pub matches : (j : ℕ) → j ≢ old.me → get_elem? new.match_index j ≡ get_elem? old.match_index j

module _ {C : Type 0} ⦃g : Gob C⦄ where
  start_rest :
      (command : C) (rf : Raft C) {rf' : Raft C} {r : ℤ × ℤ × Bool}
      → start command rf ≡ ok (rf', r)
      → is_leader rf.state ≡ true
      → (is_leader rf'.state ≡ true) × (rf'.commit_index ≡ rf.commit_index)
  unfolding start append_command broadcast persist
  start_rest command rf h leads = ground arith

  start_matches :
      (command : C) (rf : Raft C) (j : ℕ) {rf' : Raft C} {r : ℤ × ℤ × Bool}
      → start command rf ≡ ok (rf', r)
      → is_leader rf.state ≡ true
      → j ≢ rf.me
      → get_elem? rf'.match_index j ≡ get_elem? rf.match_index j
  unfolding start append_command broadcast persist
  start_matches command rf j h leads other =
      let kept =
        get_elem?-set_ne rf.match_index rf.me j (last_log_index rf.log +ℤ pos 1)
          (λ e. other (sym e)) in
      ground (arith, kept)

  pub start-IsStarted :
      (command : C) (rf : Raft C) {rf' : Raft C} {r : ℤ × ℤ × Bool}
      → start command rf ≡ ok (rf', r)
      → is_leader rf.state ≡ true
      → IsStarted rf rf' (record { term = rf.current_term; command = some command })
  start-IsStarted command rf h leads =
      let (same, _, _, led) = start_lem command rf h in
      let (_, added, _, durable) = led (same ∙ leads) in
      let (leads', commit) = start_rest command rf h leads in
      record {
        led = leads;
        leads = leads';
        of_term = refl;
        kept = (start-same command rf h).0;
        added = added;
        durable = durable;
        commit = commit;
        matches = λ j other. start_matches command rf j h leads other;
      }

  pub append-IsBelow :
      (t : ℤ) (l : List (LogEntry C)) (x : LogEntry C)
      → IsBelow t l
      → x.term ≡ t
      → IsBelow t (l ++ x ∷ [])
  append-IsBelow t l x f same = record {
    below = λ k e h. elim (dec_lt k (length l)) [
      | yes inside ↦ f.below k e (IsPre-get_back l (l ++ x ∷ []) k e (append-IsPre l x) inside h)
      | no behind ↦
          let is = get_behind l x e k (omega arith) h in
          subst (λ u. u ≤ℤ t) (sym (ap (λ (y : LogEntry C). y.term) is ∙ same)) (omega arith)
    ];
  }

  module _ (a b : History C) (m : Acts a.world.cluster b.world.cluster) (x : LogEntry C)
      (s : IsSound a) (w : IsWell b.world) (later : Later (node a m.actor) m.after)
      (st : IsStarted (node a m.actor) m.after x)
      (made : b.world.made
        ≡ record { log = m.after.log; term = m.after.current_term } ∷ a.world.made)
      (acks : b.acks
        ≡ record { voter = m.actor; term = m.after.current_term; length = length m.after.log }
          ∷ a.acks)
      (asked : b.asked ≡ a.asked)
      (ballots : b.world.cluster.ballots ≡ a.world.cluster.ballots) where
    pub longer : length m.after.log ≡ suc (length (node a m.actor).log)
    longer =
        ap length st.added ∙ let long = length-append (node a m.actor).log (x ∷ []) in omega arith

    pub goes_on : IsPre (node a m.actor).log m.after.log
    goes_on =
        subst (IsPre (node a m.actor).log) (sym st.added) (append-IsPre (node a m.actor).log x)

    -- Nobody else can have taken what is only made.
    pub new_alone :
        (p : Made C) (v : ℕ)
        → p.log ≡ m.after.log
        → p.term ≡ m.after.current_term
        → Acked b.acks v p
        → v ≡ m.actor
    new_alone p v log term (k, in_k, at_v, of_term, long) = elim (subst (In k) acks in_k) [
      | inl is ↦ sym at_v ∙ ap (λ (y : Ack). y.voter) is
      | inr old ↦
          let short = (s.fine m.actor).bound st.led k old (of_term ∙ term ∙ st.kept) in
          absurd (omega (arith, short, long, ap length log, longer))
    ]

    unfoldable pub starts_turn : Turn a b
    unfolding make_turn
    starts_turn =
        make_turn a b m later (λ p h. subst (In p) (sym made) (inr h))
          (λ p h. elim (subst (In p) made h) [
            | inr old ↦ inl old
            | inl is ↦
                let term = ap (λ (y : Made C). y.term) is in
                let log = ap (λ (y : Made C). y.log) is in
                inr (record {
                  led = st.led;
                  leads = st.leads;
                  before = term ∙ st.kept;
                  term = term;
                  log = log;
                  alone = λ v took. new_alone p v log term took;
                })
          ])
          (λ k h. subst (In k) (sym acks) (inr h))
          (λ k h. elim (subst (In k) acks h) [
            | inr old ↦ inl old
            | inl is ↦
                let term = ap (λ (y : Ack). y.term) is in
                inr (record {
                  voter = ap (λ (y : Ack). y.voter) is;
                  term = term;
                  led =
                      subst (IsLed b.world.cluster)
                        (ap (λ (y : Raft C). y.current_term)
                            (Acts-here a.world.cluster b.world.cluster m)
                          ∙ sym term)
                        (leader-IsLed b m.actor w (
                          ap (λ (y : Raft C). is_leader y.state)
                            (Acts-here a.world.cluster b.world.cluster m)
                          ∙ st.leads));
                  short = λ j other leads same. absurd (
                      other (
                        Elected-same a.world.cluster s.well.safe (node a m.actor).current_term
                          (node a j).current_term m.actor j (sym st.kept ∙ sym term ∙ same)
                          (s.well.safe.elected m.actor st.led) (s.well.safe.elected j leads)));
                })
          ])
          (λ v h. inl (subst (In v) ballots h)) (λ q h. inl (subst (In q) asked h))
          (λ leads led.
            subst (IsStem m.after.current_term (node a m.actor).log) (sym st.added) (
              append-IsStem m.after.current_term (node a m.actor).log x (st.of_term ∙ sym st.kept)))
