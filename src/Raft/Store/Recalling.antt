-- ===== src/Raft/Store/Recalling.antt =====
-- internal/raft/store.go: what a journal recalls of the term and the vote, whatever writes failed.
use shard_zero.Prelude.{
  ℕ, ◌≤◌, ◌≡◌, ◌≢◌, inl, inr, refl, sym, ap, ◌∙◌, subst, arith, Text, Option, none, List, [], ◌∷◌,
  ◌++◌, done, Option-cases,
}
use shard_zero.StateMachine.{Snapshot}
use shard_zero.Raft.Types.{Entry, Transaction}
use shard_zero.Raft.Store.{
  Durable, Store, Error, validate, transaction, accept, accept_record, save, replay, fresh_store,
  checkpoint, checkpoint_record,
}
use shard_zero.Raft.Store.Journal.{Wal}
use shard_zero.Raft.Store.Accept.{accept_without}
use shard_zero.Raft.Store.Durability.{refused, lost, saved, save_cases, passes}
use shard_zero.Raft.Store.Compaction.{CheckpointCases, compacted, checkpoint_cases}
use shard_zero.Raft.Store.Compaction
use shard_zero.Raft.Store.Recovery.{replay_step, replay_stop, replay_nil}

-- The term is not before, and a vote given in it is kept.
pub record Remembers (s t : Durable) : Type 0 where
  pub term_up : s.term ≤ t.term
  pub one_vote : t.term ≡ s.term → s.vote ≢ [] → t.vote ≡ s.vote

pub Remembers-same : {s t : Durable} → t.term ≡ s.term → t.vote ≡ s.vote → Remembers s t
Remembers-same term vote = record { term_up = omega (arith, term); one_vote = λ _ _. vote }

pub Remembers-trans : {s t u : Durable} → Remembers s t → Remembers t u → Remembers s u
Remembers-trans {s} {t} {u} p q = record {
  term_up = omega (arith, p.term_up, q.term_up);
  one_vote = λ same voted.
      let early : t.term ≡ s.term = omega (arith, p.term_up, q.term_up) in
      let late : u.term ≡ t.term = omega (arith, p.term_up, q.term_up) in
      let kept : t.vote ≡ s.vote = p.one_vote early voted in
      q.one_vote late (λ e. voted (sym kept ∙ e)) ∙ kept;
}

-- Whatever the journal replays to, under whatever name, remembers the state.
abbrev pub RecallsOn : List Transaction → Durable → Type 0
RecallsOn rs s =
    (identity : Text) (w : Wal) (t : Store)
    → replay (fresh_store identity w) rs ≡ done t
    → Remembers s t.state

abbrev pub Recalls : Store → Type 0
Recalls s = RecallsOn s.wal.records s.state

-- The last record of a replay.
replay_last :
    (s u : Store) (rs : List Transaction) (r : Transaction)
    → replay s (rs ++ (r ∷ [])) ≡ done u
    → (t : Store) × (replay s rs ≡ done t)
      × (validate t.identity t.state r ≡ none)
      × (u ≡ accept t r)
replay_last s u [] r h = elim (Option-cases (validate s.identity s.state r)) [
  | inl ok ↦ (
    s,
    (unfold replay in refl),
    ok,
    sym (replay_nil (accept s r) u (sym (replay_step s r [] ok) ∙ h)),
  )
  | inr (e, bad) ↦ cc (replay_stop s r [] e bad, h)
]
replay_last s u (x ∷ rs) r h = elim (Option-cases (validate s.identity s.state x)) [
  | inl ok ↦
      let (t, before, fine, last) =
        replay_last (accept s x) u rs r (sym (replay_step s x (rs ++ (r ∷ [])) ok) ∙ h) in
      (t, replay_step s x rs ok ∙ before, fine, last)
  | inr (e, bad) ↦ cc (replay_stop s x (rs ++ (r ∷ [])) e bad, h)
]

-- A record without a checkpoint sets the term and the vote.
ballot-accept :
    (t : Store) (r : Transaction)
    → r.checkpoint ≡ none
    → ((accept t r).state.term ≡ r.term) × ((accept t r).state.vote ≡ r.vote)
ballot-accept t r e = rw (accept_without t r e) (unfold accept_record in (refl, refl))

-- The last record of a journal, without a checkpoint, has the state's term and vote.
pub last_record-Recalls :
    (rs : List Transaction) (r : Transaction) (s : Durable)
    → r.checkpoint ≡ none
    → r.term ≡ s.term
    → r.vote ≡ s.vote
    → RecallsOn (rs ++ (r ∷ [])) s
last_record-Recalls rs r s plain term vote identity w u e =
    let (t, _, _, last) = replay_last (fresh_store identity w) u rs r e in
    let (its_term, its_vote) = ballot-accept t r plain in
    rw last (Remembers-same (its_term ∙ term) (its_vote ∙ vote))

module _ (s : Store) (term : ℕ) (vote : Text) (commit from : ℕ) (entries : List Entry) where
  -- The record of `save` at the end of the journal.
  replay_saved :
      (identity : Text) (w : Wal) (u : Store)
      → replay
          (fresh_store identity w)
          (s.wal.records ++ (transaction s term vote commit from entries ∷ []))
        ≡ done u
      → (t : Store) × (replay (fresh_store identity w) s.wal.records ≡ done t)
        × (validate t.identity t.state (transaction s term vote commit from entries) ≡ none)
        × (u.state.term ≡ term)
        × (u.state.vote ≡ vote)
  replay_saved identity w u e =
      let r = transaction s term vote commit from entries in
      let (t, before, fine, last) = replay_last (fresh_store identity w) u s.wal.records r e in
      let (its_term, its_vote) = ballot-accept t r refl in
      (
        t,
        before,
        fine,
        ap (λ (x : Store). x.state.term) last ∙ its_term,
        ap (λ (x : Store). x.state.vote) last ∙ its_vote,
      )

  -- Whatever becomes of its write, `save` keeps this.
  pub save-Recalls : Recalls s → Recalls (save s term vote commit from entries).0
  save-Recalls h = elim (save_cases s term vote commit from entries) [
    | refused e k ↦ subst (λ (p : Store × Option Error). Recalls p.0) (sym k) h
    | lost w v (inl same) k ↦ rw k (λ identity w' t e. h identity w' t (rw same at e))
    | lost w v (inr all) k ↦ rw k (λ identity w' u e.
        let (t, before, fine, its_term, its_vote) = replay_saved identity w' u (rw all at e) in
        let p = passes t (transaction s term vote commit from entries) refl fine in
        Remembers-trans (h identity w' t before) (record {
          term_up = omega (arith, its_term, p.term_up);
          one_vote = λ same voted. its_vote ∙ p.one_vote (sym its_term ∙ same) voted;
        }))
    | saved w v all k ↦ rw k (λ identity w' u e.
        let (_, _, _, its_term, its_vote) = replay_saved identity w' u (rw all at e) in
        unfold accept_record in Remembers-same its_term its_vote)
  ]

module _ (s : Store) (machine : Snapshot) (index : ℕ) where
  recalled :
      (identity : Text) (w : Wal) (u : Store)
      → replay (fresh_store identity w) (checkpoint_record s machine index ∷ []) ≡ done u
      → Remembers s.state u.state
  unfolding accept
  recalled identity w u e =
      let (t, before, fine, last) =
        replay_last (fresh_store identity w) u [] (checkpoint_record s machine index) e in
      rw last (Remembers-same refl refl)

  pub checkpoint-Recalls : Recalls s → Recalls (checkpoint s machine index).0
  unfolding accept
  checkpoint-Recalls h = elim (checkpoint_cases s machine index) [
    | Compaction.refused e k ↦ rw k h
    | Compaction.lost w (inl same) k ↦ rw k (λ identity w' t e. h identity w' t (rw same at e))
    | Compaction.lost w (inr all) k ↦ rw k (λ identity w' t e. recalled identity w' t (rw all at e))
    | compacted w _ _ _ _ all k ↦ rw k (λ identity w' t e.
        let r = recalled identity w' t (rw all at e) in
        record { term_up = r.term_up; one_vote = r.one_vote })
  ]
