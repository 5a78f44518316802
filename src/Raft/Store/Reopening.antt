-- ===== src/Raft/Store/Reopening.antt =====
-- internal/raft/store.go, openStoreUsing: a store that opens its journal again.
use shard_zero.Prelude.{
  ◌≡◌, inl, inr, refl, sym, ap, ◌∙◌, subst, arith, Text, Option, none, some, List, [], ◌∷◌, Attempt,
  done, failed, Option-cases, Bool, true, false, if◌then◌else◌,
}
use shard_zero.Raft.Types.{Transaction}
use shard_zero.Raft.Store.{
  Durable, Store, Error, validate, accept, accept_record, accept_checkpoint, save, replay,
  fresh_store, open_store, is_empty, first_save,
}
use shard_zero.Raft.Store.Journal.{Wal}
use shard_zero.Raft.Store.Shape.{IsLog}
use shard_zero.Raft.Store.Durability.{save-Extends, Extends}
use shard_zero.Raft.Store.Recovery.{
  replay_step, replay_stop, replay_nil, replay-IsLog, empty_state-IsLog,
}
use shard_zero.Raft.Store.Recalling.{
  Remembers, Remembers-same, Remembers-trans, RecallsOn, Recalls, save-Recalls,
}

accept_same :
    (s u : Store) (r : Transaction)
    → ((accept s r).state.term ≡ (accept u r).state.term)
      × ((accept s r).state.vote ≡ (accept u r).state.vote)
      × ((accept s r).wal ≡ s.wal)
unfolding accept accept_record accept_checkpoint
accept_same s u r = ground arith

-- Records set the term and the vote, wherever they are replayed; the journal stays.
replay_same :
    (s s' t t' : Store) (rs : List Transaction)
    → s.state.term ≡ s'.state.term
    → s.state.vote ≡ s'.state.vote
    → replay s rs ≡ done t
    → replay s' rs ≡ done t'
    → (t.state.term ≡ t'.state.term) × (t.state.vote ≡ t'.state.vote) × (t.wal ≡ s.wal)
replay_same s s' t t' [] term vote h h' =
    let e = replay_nil s t h in
    let e' = replay_nil s' t' h' in
    (
      ap (λ (x : Store). x.state.term) (sym e) ∙ term ∙ ap (λ (x : Store). x.state.term) e',
      ap (λ (x : Store). x.state.vote) (sym e) ∙ vote ∙ ap (λ (x : Store). x.state.vote) e',
      ap (λ (x : Store). x.wal) (sym e),
    )
replay_same s s' t t' (r ∷ rs) term vote h h' =
    elim (Option-cases (validate s.identity s.state r)) [
      | inr (e, bad) ↦ cc (replay_stop s r rs e bad, h)
      | inl ok ↦ elim (Option-cases (validate s'.identity s'.state r)) [
        | inr (e, bad) ↦ cc (replay_stop s' r rs e bad, h')
        | inl ok' ↦
            let (same_term, same_vote, wal) = accept_same s s' r in
            let (terms, votes, kept) =
              replay_same (accept s r) (accept s' r) t t' rs same_term same_vote
                (sym (replay_step s r rs ok) ∙ h) (sym (replay_step s' r rs ok') ∙ h') in
            (terms, votes, kept ∙ wal)
      ]
    ]

replay-Recalls :
    (identity : Text) (w : Wal) (s : Store)
    → replay (fresh_store identity w) w.records ≡ done s
    → Recalls s
replay-Recalls identity w s h name w' t e =
    let (_, _, wal) =
      replay_same (fresh_store identity w) (fresh_store identity w) s s w.records refl refl h h in
    let records : s.wal.records ≡ w.records = ap (λ (x : Wal). x.records) wal in
    let (terms, votes, _) =
      replay_same (fresh_store name w') (fresh_store identity w) t s w.records refl refl
        (rw records at e) h in
    Remembers-same terms votes

opened-Recalls :
    (empty : Bool) (s t : Store)
    → (if empty then first_save (save s 0 [] 0 0 []) else done s) ≡ done t
    → IsLog s.state
    → Recalls s
    → Remembers s.state t.state × Recalls t
opened-Recalls false s t h l r =
    let e : s ≡ t = cc h in
    subst (λ v. Remembers s.state v.state × Recalls v) e (Remembers-same refl refl, r)
opened-Recalls true s t h l r =
    go (save s 0 [] 0 0 []) h (save-Extends s 0 [] 0 0 [] l).0 (save-Recalls s 0 [] 0 0 [] r)
  where
    go :
        (p : Store × Option Error)
        → first_save p ≡ done t
        → Extends s.state p.0.state
        → Recalls p.0
        → Remembers s.state t.state × Recalls t
    go (u, none) h x recalls =
        let e : u ≡ t = cc h in
        let kept : Remembers s.state u.state = record {
          term_up = x.term_up;
          one_vote = x.one_vote;
        } in
        subst (λ v. Remembers s.state v.state × Recalls v) e (kept, recalls)
    go (u, some e) h x recalls = cc h

-- A store that opens remembers what the journal recalls, and its journal recalls it.
pub open_store-Recalls :
    (before : Durable) (identity : Text) (w : Wal) (t : Store)
    → RecallsOn w.records before
    → open_store identity w ≡ done t
    → Remembers before t.state × Recalls t
unfolding open_store
open_store-Recalls before identity w t recalls h =
    go (replay (fresh_store identity w) w.records) refl
  where
    go :
        (a : Attempt Store Error)
        → replay (fresh_store identity w) w.records ≡ a
        → Remembers before t.state × Recalls t
    go (failed e) k = cc (rw (k, open_store) at h)
    go (done s) k =
        let (kept, recalls') =
          opened-Recalls (is_empty w.records) s t (rw (k, open_store) at h)
            (replay-IsLog (fresh_store identity w) s w.records k empty_state-IsLog)
            (replay-Recalls identity w s k) in
        (Remembers-trans (recalls identity w s k) kept, recalls')
