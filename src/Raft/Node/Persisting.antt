-- ===== src/Raft/Node/Persisting.antt =====
-- internal/raft/node.go, persistLocked: on every branch.
use shard_zero.Prelude.{
  sym, ap, ◌∙◌, length, get_or, ℕ, ◌+◌, ◌-◌, ◌<◌, ◌≤◌, ◌≡◌, ◌≢◌, ◌⊎◌, refl, Bool, true, false, none,
  some, List, [], arith, Text, inl, inr, Option-cases,
}
use shard_zero.Raft.Types.{Entry, no_entry}
use shard_zero.Raft.Store
use shard_zero.Raft.Store.{Durable, Store, save, entry, entry_at, last_index}
use shard_zero.Raft.Store.Shape.{IsLog, inside_kept}
use shard_zero.Raft.Commit.Answers.{Answering, Answering-kept}
use shard_zero.Raft.Commit.Replay.{replayed_same}
use shard_zero.Raft.Store.Recalling.{save-Recalls}
use shard_zero.Raft.Store.Durability.{
  snapshot-save, save-Extends, entry-save_below, save_outcome, base-save, log-save,
}
use shard_zero.Raft.Node.{Node, fail_storage, persist}
use shard_zero.Raft.Node.Effects.{
  IsReady, IsSound, Evolves, Evolves-trans, Good, Same-Evolves, Same-IsReady, Same-fail_storage,
}

-- What `persist` can do: store the record, or leave the durable state and fail the node.
pub data PersistCases (n : Node) (term : ℕ) (vote : Text) (commit from : ℕ) (entries : List Entry)
    (out : Node × Bool) : Type 0 where
  stored :
      (save n.store term vote commit from entries).1 ≡ none
      → out ≡ (record n { store = (save n.store term vote commit from entries).0 }, true)
      → PersistCases n term vote commit from entries out
  unstored :
      (e : Store.Error)
      → (save n.store term vote commit from entries).1 ≡ some e
      → out ≡ (
        fail_storage (record n { store = (save n.store term vote commit from entries).0 }) e,
        false,
      )
      → PersistCases n term vote commit from entries out

-- A write that takes no entry away for which somebody waits.
abbrev pub Spares : Node → ℕ → Type 0
Spares n from = (from ≡ 0) ⊎ (last_index n.store.state < from) ⊎ (n.pending ≡ [])

module _ (n : Node) (term : ℕ) (vote : Text) (commit from : ℕ) (entries : List Entry) where
  pub persist_cases :
      PersistCases n term vote commit from entries (persist n term vote commit from entries)
  unfolding persist
  persist_cases = elim (Option-cases (save n.store term vote commit from entries).1) [
    | inl ok ↦ stored ok (ground arith)
    | inr (e, bad) ↦ unstored e bad (ground arith)
  ]

  abbrev pub after_save : Node
  after_save = record n { store = (save n.store term vote commit from entries).0 }

  after_save-IsReady : IsReady n → IsReady after_save
  after_save-IsReady r =
      let (x, l) = save-Extends n.store term vote commit from entries r.log in
      record {
        log = l;
        above_base = rw (base-save n.store term vote commit from entries) r.above_base;
        committed = omega (arith, x.commit_up, r.committed);
        machine = r.machine;
        replayed =
            r.replayed
            ∙ sym (
                replayed_same n.store after_save.store n.applied r.above_base
                  (snapshot-save n.store term vote commit from entries)
                  (base-save n.store term vote commit from entries)
                  (λ i lo hi.
                    x.committed_kept i
                      (rw (base-save n.store term vote commit from entries) (omega (arith, lo)))
                      (omega (arith, hi, r.committed))));
      }

  -- Whatever is waited for is still in the log.
  after_save-Answering : IsReady n → Spares n from → Answering n after_save
  after_save-Answering r spare =
      let (x, l) = save-Extends n.store term vote commit from entries r.log in
      Answering-kept refl refl refl refl x (λ j w h lo hi.
        let below : (i : ℕ)
            → n.store.state.base ≤ i
            → i ≤ j
            → entry_at after_save.store.state i ≡ entry_at n.store.state i =
          λ i low high. entry-save_below n.store term vote commit from entries i low (elim spare [
            | inl none_new ↦ inl none_new
            | inr (inl above) ↦ inr (omega (arith, above, hi, high))
            | inr (inr nobody) ↦ absurd (rw nobody at h)
          ]) in
        let same = below j (omega (arith, lo, r.above_base)) (omega arith) in
        (
          same,
          inside_kept n.store.state after_save.store.state j r.log (omega (arith, lo, r.above_base))
              hi same,
          replayed_same n.store after_save.store (j - 1) (omega (arith, lo, r.above_base))
              (snapshot-save n.store term vote commit from entries)
              (base-save n.store term vote commit from entries)
              (λ i low high. below i (omega (arith, low)) (omega (arith, high, lo))),
        ))

  after_save-Evolves : IsReady n → Spares n from → Evolves n after_save
  after_save-Evolves r spare = record {
    cfg = refl;
    peers = refl;
    state = (save-Extends n.store term vote commit from entries r.log).0;
    applied = omega arith;
    answering = after_save-Answering r spare;
    recalls = save-Recalls n.store term vote commit from entries;
  }

  -- A ready node that persists stays ready.
  pub persist-IsReady : IsReady n → IsReady (persist n term vote commit from entries).0
  persist-IsReady r = elim persist_cases [
    | stored ok k ↦ rw k (after_save-IsReady r)
    | unstored e bad k ↦ rw k (Same-IsReady (Same-fail_storage after_save e) (after_save-IsReady r))
  ]

  -- Its durable state extends the one before.
  pub persist-Evolves :
      IsReady n → Spares n from → Evolves n (persist n term vote commit from entries).0
  persist-Evolves r spare = elim persist_cases [
    | stored ok k ↦ rw k (after_save-Evolves r spare)
    | unstored e bad k ↦
        rw k (
          Evolves-trans (after_save-Evolves r spare)
            (Same-Evolves (Same-fail_storage after_save e)))
  ]

  -- Either the node has only a new store, with the state and the entries that it was given and with
  -- success reported, or failure is reported and the durable state is the one before.
  abbrev pub Persisted : Type 0
  Persisted =
      ((persist n term vote commit from entries ≡ (after_save, true))
        × (after_save.store.state.term ≡ term)
        × (after_save.store.state.vote ≡ vote)
        × (after_save.store.state.commit ≡ commit)
        × ((j : ℕ)
            → j < length entries
            → entry after_save.store (from + j) ≡ get_or entries j no_entry))
      ⊎ (((persist n term vote commit from entries).1 ≡ false)
          × ((persist n term vote commit from entries).0.store.state ≡ n.store.state))

  pub persist_outcome : IsLog n.store.state → Persisted
  persist_outcome h = go persist_cases (save_outcome n.store term vote commit from entries h)
    where
      go :
          PersistCases n term vote commit from entries (persist n term vote commit from entries)
          → (((save n.store term vote commit from entries).1 ≡ none)
              × (after_save.store.state.term ≡ term)
              × (after_save.store.state.vote ≡ vote)
              × (after_save.store.state.commit ≡ commit)
              × ((j : ℕ)
                  → j < length entries
                  → entry after_save.store (from + j) ≡ get_or entries j no_entry))
            ⊎ (((save n.store term vote commit from entries).1 ≢ none)
                × (after_save.store.state ≡ n.store.state))
          → Persisted
      go (stored ok k) (inl o) = inl (k, o.1, o.2, o.3, o.4)
      go (stored ok k) (inr o) = absurd (o.0 ok)
      go (unstored e bad k) (inl o) = cc
      go (unstored e bad k) (inr o) =
          inr (rw k, rw k ((Same-fail_storage after_save e).state ∙ o.1))

  pub applied-persist : (persist n term vote commit from entries).0.applied ≡ n.applied
  applied-persist = elim persist_cases [
    | stored ok k ↦ rw k
    | unstored e bad k ↦ rw k (Same-fail_storage after_save e).applied
  ]

  -- A sound node that keeps its commit index stays sound.
  IsSound-if_same :
      IsSound n
      → (persist n term vote commit from entries).0.store.state.commit ≡ n.store.state.commit
      → IsSound (persist n term vote commit from entries).0
  IsSound-if_same s same = record {
    ready = persist-IsReady s.ready;
    caught_up = applied-persist ∙ s.caught_up ∙ sym same;
  }

  pub unstored-IsSound :
      IsSound n
      → (persist n term vote commit from entries).1 ≡ false
      → IsSound (persist n term vote commit from entries).0
  unstored-IsSound s f = go (persist_outcome s.ready.log)
    where
      go : Persisted → IsSound (persist n term vote commit from entries).0
      go (inl o) = cc o.0
      go (inr o) = IsSound-if_same s (ap (λ (d : Durable). d.commit) o.1)

  pub persist-Good :
      commit ≡ n.store.state.commit
      → Spares n from
      → Good n (persist n term vote commit from entries).0
  persist-Good same spare s =
      (persist-Evolves s.ready spare, IsSound-if_same s (go (persist_outcome s.ready.log)))
    where
      go :
          Persisted
          → (persist n term vote commit from entries).0.store.state.commit ≡ n.store.state.commit
      go (inl o) = rw o.0 (o.3 ∙ same)
      go (inr o) = rw o.1

-- Without entries, the log and its base stay as they are.
abbrev pub SameLog : Node → Node → Type 0
SameLog n m = (m.store.state.log ≡ n.store.state.log) × (m.store.state.base ≡ n.store.state.base)

module _ (n : Node) (term : ℕ) (vote : Text) (commit : ℕ) where
  pub SameLog-persist : SameLog n (persist n term vote commit 0 []).0
  SameLog-persist = elim (persist_cases n term vote commit 0 []) [
    | stored ok k ↦
        rw k (log-save n.store term vote commit 0 [] refl, base-save n.store term vote commit 0 [])
    | unstored e bad k ↦
        let same =
          Same-fail_storage (record n { store = (save n.store term vote commit 0 []).0 }) e in
        rw k (
          ap (λ (d : Durable). d.log) same.state ∙ log-save n.store term vote commit 0 [] refl,
          ap (λ (d : Durable). d.base) same.state ∙ base-save n.store term vote commit 0 [],
        )
  ]
