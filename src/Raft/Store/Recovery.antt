-- ===== src/Raft/Store/Recovery.antt =====
-- internal/raft/store.go: what `openStoreUsing` finds in the journal that `save` and `checkpoint`
-- have written.
use shard_zero.Prelude.{
  if◌then◌else◌, Bool, true, false, Attempt, done, failed, ℕ, ◌≡◌, ◌⊎◌, refl, sym, ap, ◌∙◌, subst,
  false, Option, none, some, List, [], ◌∷◌, ◌++◌, arith, Text, Option-cases, inl, inr,
}
use shard_zero.Raft.Types.{Entry, Transaction}
use shard_zero.Raft.Store.{
  first_save, Store, Error, empty_state, is_empty, fresh_store, validate, transaction, accept,
  accept_record, save, replay, open_store,
}
use shard_zero.Raft.Store.Journal.{Wal}
use shard_zero.Raft.Store.Shape.{IsLog}
use shard_zero.Raft.Store.Accept.{accept-IsLog}
use shard_zero.Raft.Store.Durability.{save-Extends, SaveCases, refused, lost, saved, save_cases}

pub replay_step :
    (s : Store) (r : Transaction) (rs : List Transaction)
    → validate s.identity s.state r ≡ none
    → replay s (r ∷ rs) ≡ replay (accept s r) rs
unfolding replay
replay_step s r rs v = rw (v, replay)

pub replay_stop :
    (s : Store) (r : Transaction) (rs : List Transaction) (e : Error)
    → validate s.identity s.state r ≡ some e
    → replay s (r ∷ rs) ≡ failed e
unfolding replay
replay_stop s r rs e v = rw (v, replay)

pub replay_nil : (s t : Store) → replay s [] ≡ done t → s ≡ t
unfolding replay
replay_nil s t h = cc

replay-append :
    (s t : Store) (rs : List Transaction) (r : Transaction)
    → replay s rs ≡ done t
    → validate t.identity t.state r ≡ none
    → replay s (rs ++ (r ∷ [])) ≡ done (accept t r)
replay-append s t [] r h v =
    let e : s ≡ t = replay_nil s t h in replay_step s r [] (rw e v) ∙ (unfold replay in rw e)
replay-append s t (x ∷ rs) r h v = elim (Option-cases (validate s.identity s.state x)) [
  | inl ok ↦
      replay_step s x (rs ++ (r ∷ [])) ok
      ∙ replay-append (accept s x) t rs r (sym (replay_step s x rs ok) ∙ h) v
  | inr (e, bad) ↦ cc (replay_stop s x rs e bad)
]

-- The journal of `s` replays to `s`.
pub record IsDurable (s : Store) : Type 0 where
  pub replays :
      (w : Wal) → replay (fresh_store s.identity w) s.wal.records ≡ done (record s { wal = w })
  pub started : is_empty s.wal.records ≡ false

accept-wal :
    (s : Store) (r : Transaction) (w : Wal)
    → accept (record s { wal = w }) r ≡ record (accept s r) { wal = w }
unfolding accept
accept-wal s r w = ground arith

replay_more :
    (s : Store) (r : Transaction) (w : Wal)
    → IsDurable s
    → validate s.identity s.state r ≡ none
    → replay (fresh_store s.identity w) (s.wal.records ++ (r ∷ []))
      ≡ done (record (accept s r) { wal = w })
replay_more s r w d v =
    replay-append (fresh_store s.identity w) (record s { wal = w }) s.wal.records r (d.replays w) v
    ∙ ap done (accept-wal s r w)

module _ (s : Store) (term : ℕ) (vote : Text) (commit from : ℕ) (entries : List Entry) where
  abbrev out : Store × Option Error
  out = save s term vote commit from entries

  abbrev written : Transaction
  written = transaction s term vote commit from entries

  -- What the journal replays to after a `save`.
  Crashed : Wal → Store × Option Error → Type 0
  Crashed w p =
      ((replay (fresh_store s.identity w) p.0.wal.records ≡ done (record s { wal = w }))
        ⊎ (replay (fresh_store s.identity w) p.0.wal.records
            ≡ done (record (accept s written) { wal = w })))
      × (p.1 ≡ none
          → replay (fresh_store s.identity w) p.0.wal.records ≡ done (record (p.0) { wal = w }))

  -- If the journal of a store replays to it, then after a `save`, with an error or with none, the
  -- journal replays to the store before, or to that store with the whole of the new record accepted; and
  -- if there is no error, it replays to the new store.
  pub save_crash :
      IsDurable s
      → (w : Wal)
      → ((replay (fresh_store s.identity w) out.0.wal.records ≡ done (record s { wal = w }))
          ⊎ (replay (fresh_store s.identity w) out.0.wal.records
              ≡ done (record (accept s written) { wal = w })))
        × (out.1 ≡ none
            → replay (fresh_store s.identity w) out.0.wal.records
              ≡ done (record (out.0) { wal = w }))
  unfolding Crashed accept accept_record
  save_crash d w = go (save_cases s term vote commit from entries)
    where
      go : SaveCases s written out → Crashed w out
      go (refused e k) = rw k (inl (d.replays w), λ x. cc)
      go (lost w' v (inl rs) k) = rw k (inl (rw rs (d.replays w)), λ x. cc)
      go (lost w' v (inr rs) k) = rw k (inr (rw rs (replay_more s written w d v)), λ x. cc)
      go (saved w' v rs k) =
          rw k (inr (rw rs (replay_more s written w d v)), λ _. rw rs (replay_more s written w d v))

pub replay-IsLog :
    (s t : Store) (rs : List Transaction) → replay s rs ≡ done t → IsLog s.state → IsLog t.state
replay-IsLog s t [] h l = subst (λ (u : Store). IsLog u.state) (replay_nil s t h) l
replay-IsLog s t (r ∷ rs) h l = elim (Option-cases (validate s.identity s.state r)) [
  | inl v ↦ replay-IsLog (accept s r) t rs (sym (replay_step s r rs v) ∙ h) (accept-IsLog s r v l)
  | inr (e, bad) ↦ cc (replay_stop s r rs e bad)
]

pub empty_state-IsLog : IsLog empty_state
empty_state-IsLog = record {
  nonempty = omega arith;
  sentinel = refl;
  chain = tt;
  base_committed = omega arith;
  commit_in = omega arith;
}

done-injective : (s t : Store) → ◌≡◌ {A = Attempt Store Error} (done s) (done t) → s ≡ t
done-injective s t h = cc

first_save-IsLog :
    (p : Store × Option Error) (t : Store) → first_save p ≡ done t → IsLog p.0.state → IsLog t.state
first_save-IsLog (s, none) t h l = subst (λ (u : Store). IsLog u.state) (done-injective s t h) l
first_save-IsLog (s, some e) t h l = cc

opened-IsLog :
    (b : Bool) (s t : Store)
    → (if b then first_save (save s 0 [] 0 0 []) else done s) ≡ done t
    → IsLog s.state
    → IsLog t.state
opened-IsLog true s t h l =
    first_save-IsLog (save s 0 [] 0 0 []) t h (save-Extends s 0 [] 0 0 [] l).1
opened-IsLog false s t h l = subst (λ (u : Store). IsLog u.state) (done-injective s t h) l

-- A store that opens has a log with its shape, whatever records the journal holds.
pub open_store-IsLog :
    (identity : Text) (wal : Wal) (t : Store) → open_store identity wal ≡ done t → IsLog t.state
unfolding open_store
open_store-IsLog identity wal t h = go (replay (fresh_store identity wal) wal.records) refl
  where
    go :
        (a : Attempt Store Error)
        → replay (fresh_store identity wal) wal.records ≡ a
        → IsLog t.state
    go (failed e) k = cc (rw (k, open_store) at h)
    go (done s) k =
        opened-IsLog (is_empty wal.records) s t (rw (k, open_store) at h)
          (replay-IsLog (fresh_store identity wal) s wal.records k empty_state-IsLog)
