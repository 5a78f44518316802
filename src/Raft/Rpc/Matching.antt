-- ===== src/Raft/Rpc/Matching.antt =====
-- internal/raft/rpc.go, AppendEntries: after a success the log agrees with the request.
use shard_zero.Prelude.{
  ℕ, ◌+◌, ◌<◌, ◌≤◌, ◌≡◌, ◌≢◌, ◌⊎◌, refl, sym, ap, ◌∙◌, subst, Bool, true, false, ◌&&◌, ◌||◌, not,
  List, [], arith, Text, bytes, text_eq, length, get_or, ltb, leb, ◌==◌, Bool-cases, inl, inr,
}
use shard_zero.Raft.Types.{Entry, no_entry, AppendRequest}
use shard_zero.Raft.Store.{Durable, entry_at, entry}
use shard_zero.Raft.Store.Shape.{IsLog}
use shard_zero.Raft.Store.Durability.{base-save, entry-save_below}
use shard_zero.Raft.Node.{
  Node, available, member, is_leader, emit, reset_timer, persist, step_down, last_locked,
  entry_locked,
}
use shard_zero.Raft.Node.Effects.{IsSound, Same-emit, Same-Good}
use shard_zero.Raft.Node.Persisting.{persist_outcome}
use shard_zero.Raft.Node.Stepping.{step_down_outcome, step_down-Good, role-step_down}
use shard_zero.Raft.Commit.{apply_locked}
use shard_zero.Raft.Commit.Keeping.{state-apply_locked_follower}
use shard_zero.Raft.Rpc.{
  Scan, scan_entries, append_answer, note_repair, next_commit, store_entries, store_scan, match_log,
  follow_leader, answer_leader, append_entries,
}
use shard_zero.Raft.Rpc.Effects.{Same-note_repair}
use shard_zero.Raft.Rpc.Scanning.{
  Stands, ScanCases, refused, all_there, missing, scan_entries_lem, Stands-below, Stands-stored,
  Stands-append,
}

-- How the durable state after a success stands to the one before: the entries from `from` on are
-- those given, and the log below is as it was; `from` is 0 if there is nothing new.
record Stores (s t : Durable) (from : ℕ) (es : List Entry) : Type 0 where
  base : t.base ≡ s.base
  term : t.term ≡ s.term
  below : (i : ℕ) → s.base ≤ i → (from ≡ 0) ⊎ (i < from) → entry_at t i ≡ entry_at s i
  above : from ≢ 0 → (j : ℕ) → j < length es → entry_at t (from + j) ≡ get_or es j no_entry

Stores-none : (s : Durable) (from : ℕ) (es : List Entry) → from ≡ 0 → Stores s s from es
Stores-none s from es z = record {
  base = refl;
  term = refl;
  below = λ i lo hi. refl;
  above = λ nz. absurd (nz z);
}

module _ (n : Node) (term : ℕ) (vote : Text) (commit from : ℕ) (es : List Entry) where
  abbrev persisted : Node × Bool
  persisted = persist n term vote commit from es

  -- What a success of `persist` leaves.
  Stores-persist :
      IsLog n.store.state
      → term ≡ n.store.state.term
      → persisted.1 ≡ true
      → Stores n.store.state persisted.0.store.state from es × (persisted.0.role ≡ n.role)
  unfolding entry
  Stores-persist h same ok = elim (persist_outcome n term vote commit from es h) [
    | inr o ↦ cc (o.0, ok)
    | inl o ↦ rw o.0 (
      record {
        base = base-save n.store term vote commit from es;
        term = o.1 ∙ same;
        below = λ i lo hi. entry-save_below n.store term vote commit from es i lo hi;
        above = λ _. o.4;
      },
      refl,
    )
  ]

success-append_answer :
    (n : Node) (durable : Bool) (req : AppendRequest)
    → (append_answer n durable req).1.success ≡ true
    → (durable ≡ true) × ((append_answer n durable req).0 ≡ apply_locked n)
unfolding append_answer
success-append_answer n true req ok = (refl, refl)
success-append_answer n false req ok = cc

role-note_repair :
    (n : Node) (req : AppendRequest) (from : ℕ) → (note_repair n req from).role ≡ n.role
unfolding note_repair emit
role-note_repair n req from = ground arith

module _ (n : Node) (req : AppendRequest) (from : ℕ) (es : List Entry) where
  abbrev noted : Node
  noted = note_repair n req from

  abbrev write : Node × Bool
  write =
      persist noted n.store.state.term n.store.state.vote (next_commit n.store.state req) from es

  written :
      IsLog n.store.state
      → is_leader n.role ≡ false
      → write.1 ≡ true
      → Stores n.store.state (apply_locked write.0).store.state from es
  written h follows ok =
      let same = (Same-note_repair n req from).state in
      let (stores, role) =
        Stores-persist noted n.store.state.term n.store.state.vote (next_commit n.store.state req)
          from es (rw same h) (ap (λ (d : Durable). d.term) (sym same)) ok in
      subst (λ (d : Durable). Stores d (apply_locked write.0).store.state from es) same
        (rw
          (state-apply_locked_follower write.0
            (ap is_leader (role ∙ role-note_repair n req from) ∙ follows))
          stores)

  Stores-store_entries :
      IsLog n.store.state
      → is_leader n.role ≡ false
      → (store_entries n req from es).1.success ≡ true
      → Stores n.store.state (store_entries n req from es).0.store.state from es
  unfolding store_entries
  Stores-store_entries h follows ok =
      elim (Bool-cases (not (from == 0) && leb from n.store.state.commit)) [
        | inl t ↦ cc (rw t at ok)
        | inr f ↦
            elim (Bool-cases
              (not (from == 0) || not (next_commit n.store.state req == n.store.state.commit))) [
                | inr idle ↦ rw (f, idle) (Stores-none n.store.state from es (ground (arith, idle)))
                | inl new ↦
                    let (durable, done) =
                      success-append_answer write.0 write.1 req (rw (f, new) at ok) in
                    rw (f, new) (rw done (written h follows durable))
              ]
      ]

-- The log of `m` agrees with the request: the entry before those of the request has the term that
-- the request gives, and the entries of the request stand after it.
pub record Agrees (m : Durable) (req : AppendRequest) : Type 0 where
  pub prev_term : (entry_at m req.prev_log_index).term ≡ req.prev_log_term
  pub entries : Stands m (req.prev_log_index + 1) req.entries

module _ (n : Node) (req : AppendRequest) (h : IsLog n.store.state)
    (follows : is_leader n.role ≡ false) (reaches : n.store.state.base ≤ req.prev_log_index)
    (prev : (entry_at n.store.state req.prev_log_index).term ≡ req.prev_log_term) where
  Agrees-store_scan :
      (scan : Scan)
      → ScanCases n.store.state (req.prev_log_index + 1) req.entries scan
      → (store_scan n req scan).1.success ≡ true
      → Agrees (store_scan n req scan).0.store.state req
        × ((store_scan n req scan).0.store.state.term ≡ n.store.state.term)
  unfolding store_scan
  Agrees-store_scan _ (refused e) ok = cc
  Agrees-store_scan _ (all_there there) ok =
      let w = Stores-store_entries n req 0 [] h follows ok in
      (
        record {
          prev_term =
              ap (λ (e : Entry). e.term) (w.below req.prev_log_index reaches (inl refl)) ∙ prev;
          entries =
              Stands-below n.store.state (store_entries n req 0 []).0.store.state w.base
                (req.prev_log_index + 1 + length req.entries) _ req.entries (omega arith)
                (λ i lo hi. w.below i lo (inl refl)) there;
        },
        w.term,
      )
  Agrees-store_scan _ (missing from known rest split at_from above there) ok =
      let w = Stores-store_entries n req from rest h follows ok in
      let t = (store_entries n req from rest).0.store.state in
      (
        record {
          prev_term =
              ap (λ (e : Entry). e.term)
                (w.below req.prev_log_index reaches (inr (omega (arith, at_from))))
              ∙ prev;
          entries = subst (Stands t (req.prev_log_index + 1)) (sym split) (
              Stands-append t (req.prev_log_index + 1) from known rest at_from
                (Stands-below n.store.state t w.base from (req.prev_log_index + 1) known
                  (omega (arith, at_from)) (λ i lo hi. w.below i lo (inr hi)) there)
                (Stands-stored t from rest (w.above (λ z. absurd (omega (arith, at_from, z))))));
        },
        w.term,
      )

Agrees-match_log :
    (n : Node) (req : AppendRequest)
    → IsLog n.store.state
    → is_leader n.role ≡ false
    → (match_log n req).1.success ≡ true
    → Agrees (match_log n req).0.store.state req
      × ((match_log n req).0.store.state.term ≡ n.store.state.term)
unfolding match_log
Agrees-match_log n req h follows ok = elim (Bool-cases (ltb (last_locked n) req.prev_log_index)) [
  | inl t ↦ cc (rw t at ok)
  | inr short ↦ elim (Bool-cases (ltb req.prev_log_index n.store.state.base)) [
    | inl t ↦ cc (rw (short, t) at ok)
    | inr low ↦
        elim (Bool-cases (not ((entry_locked n req.prev_log_index).term == req.prev_log_term))) [
          | inl t ↦ cc (rw (short, low, t) at ok)
          | inr equal ↦
              rw (short, low, equal)
                (Agrees-store_scan n req h follows (ground (arith, low)) (ground (arith, equal))
                  (scan_entries n.store.state req.term (req.prev_log_index + 1) req.entries)
                  (scan_entries_lem n.store.state req.term (req.prev_log_index + 1) req.entries)
                  (rw (short, low, equal) at ok))
        ]
  ]
]

Agrees-follow_leader :
    (n : Node) (durable : Bool) (req : AppendRequest)
    → IsLog n.store.state
    → (durable ≡ true → is_leader n.role ≡ false)
    → (follow_leader n durable req).1.success ≡ true
    → (durable ≡ true)
      × Agrees (follow_leader n durable req).0.store.state req
      × ((follow_leader n durable req).0.store.state.term ≡ n.store.state.term)
unfolding follow_leader reset_timer
Agrees-follow_leader n true req h follows ok =
    let (agrees, term) = Agrees-match_log (reset_timer n) req h (follows refl) ok in
    (refl, agrees, term)
Agrees-follow_leader n false req h follows ok = cc

Agrees-answer_leader :
    (n : Node) (req : AppendRequest)
    → IsSound n
    → (answer_leader n req).1.success ≡ true
    → Agrees (answer_leader n req).0.store.state req
      × ((answer_leader n req).0.store.state.term ≡ req.term)
unfolding answer_leader
Agrees-answer_leader n req s ok = elim (Bool-cases (ltb req.term n.store.state.term)) [
  | inl t ↦ cc (rw t at ok)
  | inr current ↦
      let down = step_down n req.term req.leader_id in
      let (durable, agrees, term) =
        Agrees-follow_leader down.0 down.1 req
          (step_down-Good n req.term req.leader_id s).1.ready.log
          (λ ok. role-step_down n req.term req.leader_id ok) (rw current at ok) in
      rw current (
        agrees,
        term
            ∙ (step_down_outcome n req.term req.leader_id s.ready.log durable
                (ground (arith, current))).0,
      )
]

-- If AppendEntries on a sound node reports success, then the node is in the term of the request, the
-- entry before those of the request has the term that the request gives for it, and every entry of
-- the request that is above the base stands at its place in the log, command included.
pub success-append_entries :
    (n : Node) (req : AppendRequest)
    → IsSound n
    → (append_entries n req).1.success ≡ true
    → Agrees (append_entries n req).0.store.state req
      × ((append_entries n req).0.store.state.term ≡ req.term)
unfolding append_entries
success-append_entries n req s ok = elim (Bool-cases (not (available n))) [
  | inl t ↦ cc (rw t at ok)
  | inr up ↦
      elim (Bool-cases (
        not (member n req.leader_id req.cluster_id)
        || (not (text_eq n.cfg.fixed_leader [])
            && not (text_eq req.leader_id n.cfg.fixed_leader)))) [
              | inl t ↦ cc (rw (up, t) at ok)
              | inr known ↦
                  let heard =
                    emit n (bytes "APPEND_RECEIVED") req.prev_log_index req.leader_id
                      req.message_id in
                  let same =
                    Same-emit n (bytes "APPEND_RECEIVED") req.prev_log_index req.leader_id
                      req.message_id in
                  rw (up, known)
                    (Agrees-answer_leader heard req (Same-Good same s).1 (rw (up, known) at ok))
            ]
]
