-- ===== src/Raft/Open/Beginning.antt =====
-- internal/raft/node.go, OpenWithRuntime: what holds of a node that begins from its store.
use shard_zero.Prelude.{
  ◌≡◌, ◌≢◌, refl, sym, ap, ◌∙◌, Bool, true, false, Option, none, some, [], Text, text_eq,
  text_eq_iff, if◌then◌else◌, inc64, Attempt, done, failed, Bool-cases, inl, inr,
}
use shard_zero.Prelude.Dict.{Dict, text_key}
use shard_zero.Raft.Types.{Config}
use shard_zero.Raft.Store
use shard_zero.Raft.Store.{Durable, Store, open_store, empty_state}
use shard_zero.Raft.Store.Recalling.{Remembers, Remembers-trans, Recalls}
use shard_zero.Raft.Node.{Node, follower, reset_timer}
use shard_zero.Raft.Node.Roles.{Humble, follows, as_before}
use shard_zero.Raft.Commit.Roles.{apply_locked-Humble}
use shard_zero.Raft.Node.Effects.{
  Same-kept, IsReady, IsSound, Good, Good-trans, Good-refl, Good-if, Same, Same-Good,
  Same-reset_timer,
}
use shard_zero.Raft.Node.Persisting.{persist-Good}
use shard_zero.Raft.Commit.{apply_locked}
use shard_zero.Raft.Commit.Effects.{apply_locked-IsSound}
use shard_zero.Raft.Election.Effects.{become_leader-Good}
use shard_zero.Raft.Open.{
  OpenError, finish_with, finish_open, lead_fixed, start_fixed, begin, add_wakes,
}

-- A node that has begun from a journal: it is sound, remembers a state that the journal recalls, its
-- journal goes on to recall its state, and it follows if no leader is fixed.
pub record Begins (before : Durable) (n : Node) : Type 0 where
  pub sound : IsSound n
  pub following : n.cfg.fixed_leader ≡ [] → n.cfg.id ≢ [] → n.role ≡ follower
  pub remembers : Remembers before n.store.state
  pub recalls : Recalls n.store

-- An error, or such a node.
pub data Opens (before : Durable) : Attempt Node OpenError → Type 0 where
  refuses : (e : OpenError) → Opens before (failed e)
  opens : (n : Node) → Begins before n → Opens before (done n)

-- A step that changes neither the role nor the configuration, or leaves a follower alone.
Begins-Good :
    {before : Durable} {n m : Node}
    → Good n m
    → (n.cfg.fixed_leader ≡ [] → n.cfg.id ≢ [] → n.role ≡ follower → m.role ≡ follower)
    → Begins before n
    → Begins before m
Begins-Good {before} {n} {m} good role b =
    let (e, s) = good b.sound in
    record {
      sound = s;
      following = λ f real.
          let fixed : n.cfg.fixed_leader ≡ [] =
            ap (λ (g : Config). g.fixed_leader) (sym e.cfg) ∙ f in
          let named : n.cfg.id ≢ [] = λ z. real (ap (λ (g : Config). g.id) e.cfg ∙ z) in
          role fixed named (b.following fixed named);
      remembers =
          Remembers-trans b.remembers
            (record { term_up = e.state.term_up; one_vote = e.state.one_vote });
      recalls = e.recalls b.recalls;
    }

pub guard-Opens :
    {before : Durable} (b : Bool) (e : OpenError) (q : Attempt Node OpenError)
    → Opens before q
    → Opens before (if b then failed e else q)
guard-Opens true e q h = refuses e
guard-Opens false e q h = h

finish_with-Opens :
    {before : Durable} (n : Node) (o : Option Store.Error)
    → Begins before n
    → Opens before (finish_with n o)
unfolding finish_with
finish_with-Opens n (some e) b = refuses _
finish_with-Opens n none b = opens _ (
    Begins-Good
      (Good-if n.runtime.manual (Good-refl n)
        (Same-Good (Same-wake n (add_wakes n.cfg.id n.wake n.cfg.peers))))
      (λ _ _ f. waking-role n.runtime.manual n _ f) b)
  where
    Same-wake : (n : Node) (wakes : Dict Text Bool) → Same n (record n { wake = wakes })
    Same-wake n wakes = Same-kept refl refl refl refl refl refl refl refl

    waking-role :
        (manual : Bool) (n : Node) (wakes : Dict Text Bool)
        → n.role ≡ follower
        → (if manual then n else record n { wake = wakes }).role ≡ follower
    waking-role true n wakes f = f
    waking-role false n wakes f = f

finish_open-Opens : {before : Durable} (n : Node) → Begins before n → Opens before (finish_open n)
unfolding finish_open
finish_open-Opens n b = finish_with-Opens n n.failed b

lead_fixed-Good : (n : Node) (durable : Bool) → Good n (lead_fixed n durable)
unfolding lead_fixed
lead_fixed-Good n durable = Good-if durable (become_leader-Good n) (Good-refl n)

start_fixed-Good : (n : Node) → Good n (start_fixed n)
unfolding start_fixed
start_fixed-Good n =
    Good-if (text_eq n.cfg.fixed_leader n.cfg.id)
      (Good-trans
        (persist-Good n (inc64 n.store.state.term) n.cfg.id n.store.state.commit 0 [] refl
          (inl refl))
        (lead_fixed-Good _ _))
      (Good-refl n)

-- Without a fixed leader nobody leads from the start.
start_fixed_idle : (n : Node) → n.cfg.fixed_leader ≡ [] → n.cfg.id ≢ [] → start_fixed n ≡ n
unfolding start_fixed
start_fixed_idle n f real = elim (Bool-cases (text_eq n.cfg.fixed_leader n.cfg.id)) [
  | inl t ↦ absurd (real (sym ((text_eq_iff n.cfg.fixed_leader n.cfg.id).0 t) ∙ f))
  | inr other ↦ rw other refl
]

-- A node before the replay of its committed entries.
pub record Prepared (before : Durable) (n : Node) : Type 0 where
  pub ready : IsReady n
  pub following : n.role ≡ follower
  pub remembers : Remembers before n.store.state
  pub recalls : Recalls n.store

applied-Begins : {before : Durable} (n : Node) → Prepared before n → Begins before (apply_locked n)
applied-Begins n p =
    let (e, s) = apply_locked-IsSound n p.ready in
    record {
      sound = s;
      following = λ _ _. still (apply_locked-Humble n);
      remembers =
          Remembers-trans p.remembers
            (record { term_up = e.state.term_up; one_vote = e.state.one_vote });
      recalls = e.recalls p.recalls;
    }
  where
    still : Humble n (apply_locked n) → (apply_locked n).role ≡ follower
    still (follows f) = f
    still (as_before r _ _) = r ∙ p.following

pub begin-Opens : {before : Durable} (n : Node) → Prepared before n → Opens before (begin n)
unfolding begin reset_timer
begin-Opens n p =
    let m = reset_timer (apply_locked n) in
    let timed =
      Begins-Good {m = m} (Same-Good (Same-reset_timer (apply_locked n))) (λ _ _ f. f)
        (applied-Begins n p) in
    finish_open-Opens (start_fixed m) (
      Begins-Good (start_fixed-Good m)
        (λ fixed real f. ap (λ (x : Node). x.role) (start_fixed_idle m fixed real) ∙ f) timed)
