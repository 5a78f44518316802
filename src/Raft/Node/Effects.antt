-- ===== src/Raft/Node/Effects.antt =====
-- internal/raft/node.go: what the helpers of a handler keep of the node.
use shard_zero.Prelude.{
  ℕ, ◌≤◌, ◌≡◌, refl, sym, ap, subst, ◌∙◌, Bool, true, false, arith, Text, if◌then◌else◌, inl, inr,
}
use shard_zero.StateMachine.Invariant
use shard_zero.Raft.Commit.Replay.{replayed}
use shard_zero.Raft.Store
use shard_zero.Raft.Store.{Store, save, entry}
use shard_zero.Raft.Store.Shape.{IsLog}
use shard_zero.Raft.Store.Durability.{Extends, Extends-refl, Extends-trans}
use shard_zero.Raft.Commit.Answers.{
  Answering, Answering-trans, Answering-still, Answering-lapse, IsFailure,
}
use shard_zero.Raft.Store.Recalling.{Recalls}
use shard_zero.Raft.Node.{
  Node, NodeError, unavailable, leader_error, emit, reset_timer, fail_pending, fail_storage,
  become_follower,
}

-- The log has its shape, what is applied is committed and not below the snapshot, and the machine is
-- well formed and is what the snapshot and the applied entries give.
pub record IsReady (n : Node) : Type 0 where
  pub log : IsLog n.store.state
  pub above_base : n.store.state.base ≤ n.applied
  pub committed : n.applied ≤ n.store.state.commit
  pub machine : Invariant.IsValid n.machine
  pub replayed : n.machine ≡ replayed n.store n.applied

-- And all that is committed is applied, as between two handlers.
pub record IsSound (n : Node) : Type 0 where
  pub ready : IsReady n
  pub caught_up : n.applied ≡ n.store.state.commit

-- The durable state moves on as `Extends` says, what is applied stays applied, the configuration is
-- the same, who waits gets the answer that is meant for it, and the journal recalls the state if it
-- did before.
pub record Evolves (n m : Node) : Type 0 where
  pub cfg : m.cfg ≡ n.cfg
  pub peers : m.peers ≡ n.peers
  pub state : Extends n.store.state m.store.state
  pub applied : n.applied ≤ m.applied
  pub answering : Answering n m
  pub recalls : Recalls n.store → Recalls m.store

pub Evolves-trans : {n m k : Node} → Evolves n m → Evolves m k → Evolves n k
Evolves-trans p q = record {
  cfg = q.cfg ∙ p.cfg;
  peers = q.peers ∙ p.peers;
  state = Extends-trans p.state q.state;
  applied = omega (arith, p.applied, q.applied);
  answering = Answering-trans p.answering q.answering;
  recalls = λ h. q.recalls (p.recalls h);
}

-- What a handler does to a sound node.
abbrev pub Good : Node → Node → Type 0
Good n m = IsSound n → Evolves n m × IsSound m

pub Good-trans : {n m k : Node} → Good n m → Good m k → Good n k
Good-trans p q s = let (e, s') = p s in let (e', s'') = q s' in (Evolves-trans e e', s'')

-- The fields that a handler must account for.
pub record Same (n m : Node) : Type 0 where
  pub cfg : m.cfg ≡ n.cfg
  pub peers : m.peers ≡ n.peers
  pub state : m.store.state ≡ n.store.state
  pub snapshot : m.store.snapshot ≡ n.store.snapshot
  pub machine : m.machine ≡ n.machine
  pub applied : m.applied ≡ n.applied
  pub answering : Answering n m
  pub recalls : Recalls n.store → Recalls m.store

-- A step that touches none of them.
pub Same-kept :
    {n m : Node}
    → m.cfg ≡ n.cfg
    → m.peers ≡ n.peers
    → m.store ≡ n.store
    → m.machine ≡ n.machine
    → m.applied ≡ n.applied
    → m.pending ≡ n.pending
    → m.outcomes ≡ n.outcomes
    → m.channels ≡ n.channels
    → Same n m
Same-kept cfg peers store machine applied pending outcomes channels = record {
  cfg = cfg;
  peers = peers;
  state = ap (λ (s : Store). s.state) store;
  snapshot = ap (λ (s : Store). s.snapshot) store;
  machine = machine;
  applied = applied;
  answering =
      Answering-still pending outcomes channels applied (ap (λ (s : Store). s.state) store)
        (ap (λ (s : Store). s.snapshot) store);
  recalls = λ h. subst Recalls (sym store) h;
}

pub Same-Evolves : {n m : Node} → Same n m → Evolves n m
Same-Evolves {n} {m} h = record {
  cfg = h.cfg;
  peers = h.peers;
  state = rw h.state (Extends-refl n.store.state);
  applied = omega (arith, h.applied);
  answering = h.answering;
  recalls = h.recalls;
}

pub Same-IsReady : {n m : Node} → Same n m → IsReady n → IsReady m
Same-IsReady h r = record {
  log = rw h.state r.log;
  above_base = rw (h.state, h.applied) r.above_base;
  committed = rw (h.state, h.applied) r.committed;
  machine = rw h.machine r.machine;
  replayed = h.machine ∙ r.replayed ∙ sym (rw (h.snapshot, h.state, h.applied));
}

pub Same-Good : {n m : Node} → Same n m → Good n m
Same-Good h s = (
  Same-Evolves h,
  record { ready = Same-IsReady h s.ready; caught_up = rw (h.state, h.applied) s.caught_up },
)

pub Same-refl : (n : Node) → Same n n
Same-refl n = Same-kept refl refl refl refl refl refl refl refl

pub Good-refl : (n : Node) → Good n n
Good-refl n = Same-Good (Same-refl n)

pub Same-trans : {n m k : Node} → Same n m → Same m k → Same n k
Same-trans p q = record {
  cfg = q.cfg ∙ p.cfg;
  peers = q.peers ∙ p.peers;
  state = q.state ∙ p.state;
  snapshot = q.snapshot ∙ p.snapshot;
  machine = q.machine ∙ p.machine;
  applied = q.applied ∙ p.applied;
  answering = Answering-trans p.answering q.answering;
  recalls = λ h. q.recalls (p.recalls h);
}

pub Same-if : {n m k : Node} (b : Bool) → Same n m → Same n k → Same n (if b then m else k)
Same-if true p q = p
Same-if false p q = q

pub Good-if : {n m k : Node} (b : Bool) → Good n m → Good n k → Good n (if b then m else k)
Good-if true p q = p
Good-if false p q = q

-- The same where a branch returns the node among other things.
pub Good-pick :
    {A : Type 0} {n : Node} {p q : A} (f : A → Node) (b : Bool)
    → Good n (f p)
    → Good n (f q)
    → Good n (f (if b then p else q))
Good-pick f true p q = p
Good-pick f false p q = q

pub Same-emit :
    (n : Node) (kind : Text) (index : ℕ) (peer message : Text)
    → Same n (emit n kind index peer message)
unfolding emit
Same-emit n kind index peer message = Same-kept refl refl refl refl refl refl refl refl

pub Same-reset_timer : (n : Node) → Same n (reset_timer n)
unfolding reset_timer
Same-reset_timer n = Same-kept refl refl refl refl refl refl refl refl

pub Same-fail_pending : (n : Node) (e : NodeError) → IsFailure e → Same n (fail_pending n e)
unfolding fail_pending
Same-fail_pending n e f = record {
  cfg = refl;
  peers = refl;
  state = refl;
  snapshot = refl;
  machine = refl;
  applied = refl;
  answering = Answering-lapse e f refl refl refl refl;
  recalls = λ h. h;
}

pub Same-fail_storage : (n : Node) (e : Store.Error) → Same n (fail_storage n e)
unfolding fail_storage
Same-fail_storage n e = record {
  cfg = refl;
  peers = refl;
  state = refl;
  snapshot = refl;
  machine = refl;
  applied = refl;
  answering = Answering-lapse unavailable (inl refl) refl refl refl refl;
  recalls = λ h. h;
}

pub Same-become_follower :
    (n : Node) (changed : Bool) (id : Text) → Same n (become_follower n changed id)
unfolding become_follower leader_error
Same-become_follower n true id = record {
  cfg = refl;
  peers = refl;
  state = refl;
  snapshot = refl;
  machine = refl;
  applied = refl;
  answering =
      Answering-lapse {n = n} {m = become_follower n true id}
        (leader_error (record n { leader = id })) (inr (_, _, refl)) refl refl refl refl;
  recalls = λ h. h;
}
Same-become_follower n false id = record {
  cfg = refl;
  peers = refl;
  state = refl;
  snapshot = refl;
  machine = refl;
  applied = refl;
  answering =
      Answering-lapse {n = n} {m = become_follower n false id}
        (leader_error (record n { leader = id })) (inr (_, _, refl)) refl refl refl refl;
  recalls = λ h. h;
}
