-- ===== src/Raft/Inspect/Window.antt =====
-- internal/raft/runtime.go, Inspect: which entries it shows, and when it cannot.
use shard_zero.Prelude.{
  ℕ, zero, suc, ◌+◌, ◌-◌, ◌<◌, ◌≤◌, ◌≡◌, refl, ap, ◌∙◌, true, false, none, some, List, [], ◌∷◌,
  arith, Text, length, get_or, ltb, ltb→lt, Bool-cases, ◌⊎◌, ◌↔◌, inl, inr, min, bytes,
}
use shard_zero.Events
use shard_zero.StateMachine.{Machine, Command}
use shard_zero.Raft.Types.{Entry}
use shard_zero.Raft.Node.{Node, last_locked, entry_locked}
use shard_zero.Raft.Client.{status}
use shard_zero.Raft.Inspect.{
  LogMeta, Inspection, first_shown, operation_name, key_name, log_meta, log_metas, inspect,
}

module _ (entry_hash : Entry → Text) (digest : Machine → Text) where
  log_metas_below :
      (n : Node) (index count : ℕ)
      → index < n.store.state.base
      → 0 < count
      → log_metas entry_hash digest n index count ≡ none
  unfolding log_metas
  log_metas_below n index zero below some_left = elim some_left [ ]
  log_metas_below n index (suc count) below some_left =
      let low : ltb index n.store.state.base ≡ true = ground (arith, below) in rw low

  inspect-none :
      (n : Node) (after : ℕ)
      → log_metas entry_hash digest n (first_shown n) (last_locked n + 1 - first_shown n) ≡ none
      → inspect entry_hash digest n after ≡ none
  unfolding inspect
  inspect-none n after h = rw (h, inspect)

  first_shown_range : (n : Node) → 0 < last_locked n → first_shown n ≤ last_locked n
  unfolding first_shown
  first_shown_range n h = omega (arith, h)

  -- If the base is above the first of the last 100 indexes, then Inspect reads an entry below the
  -- base, and so shows nothing.
  inspect_below_base :
      (n : Node) (after : ℕ)
      → first_shown n < n.store.state.base
      → inspect entry_hash digest n after ≡ none
  inspect_below_base n after below = inspect-none n after (
      log_metas_below n (first_shown n) (last_locked n + 1 - first_shown n) below
        (omega (arith, first_shown_range n (omega (arith, below)))))

  -- What is shown of the entry at an index.
  pub record Describes (n : Node) (index : ℕ) (meta : LogMeta) : Type 0 where
    pub at : meta.index ≡ index
    pub term : meta.term ≡ (entry_locked n index).term
    pub barrier :
        (entry_locked n index).command ≡ none → (meta.operation ≡ bytes "BARRIER") × (meta.key ≡ [])
    pub named :
        (c : Command)
        → (entry_locked n index).command ≡ some c
        → (meta.operation ≡ c.operation) × (meta.key ≡ c.key)
    pub hash : meta.hash ≡ entry_hash (entry_locked n index)
    pub committed : (meta.committed ≡ true) ↔ (index ≤ n.store.state.commit)
    pub applied : (meta.applied ≡ true) ↔ (index ≤ n.applied)

  log_meta-Describes :
      (n : Node) (index : ℕ) → Describes n index (log_meta entry_hash digest n index)
  unfolding log_meta operation_name key_name
  log_meta-Describes n index = record {
    at = refl;
    term = refl;
    barrier = λ e. (rw e refl, rw e refl);
    named = λ c e. (rw e refl, rw e refl);
    hash = refl;
    committed = (λ h. ground (arith, h), λ h. ground (arith, h));
    applied = (λ h. ground (arith, h), λ h. ground (arith, h));
  }

  -- The entries that Inspect shows: the last 100 of the log, or all of it, in order.
  pub record Shows (n : Node) (metas : List LogMeta) : Type 0 where
    pub count : length metas ≡ min (last_locked n) 100
    pub entries :
        (j : ℕ) (d : LogMeta)
        → j < length metas
        → Describes n (last_locked n + 1 - length metas + j) (get_or metas j d)

  log_metas_lem :
      (n : Node) (index count : ℕ)
      → n.store.state.base ≤ index
      → (metas : List LogMeta) × (log_metas entry_hash digest n index count ≡ some metas)
        × (length metas ≡ count)
        × ((j : ℕ) (d : LogMeta)
            → j < count
            → get_or metas j d ≡ log_meta entry_hash digest n (index + j))
  unfolding log_metas
  log_metas_lem n index zero above = ([], refl, refl, λ j d h. elim h [ ])
  log_metas_lem n index (suc count) above =
      let (metas, found, size, at) = log_metas_lem n (index + 1) count (omega (arith, above)) in
      let not_below : ltb index n.store.state.base ≡ false = ground (arith, above) in
      (
        log_meta entry_hash digest n index ∷ metas,
        rw not_below (rw (found, log_metas)),
        ap suc size,
        shown n index count metas at,
      )
    where
      shown :
          (n : Node) (index count : ℕ) (metas : List LogMeta)
          → ((j : ℕ) (d : LogMeta)
              → j < count
              → get_or metas j d ≡ log_meta entry_hash digest n (index + 1 + j))
          → (j : ℕ) (d : LogMeta) → j < suc count
          → get_or (log_meta entry_hash digest n index ∷ metas) j d
            ≡ log_meta entry_hash digest n (index + j)
      shown n index count metas at zero d h = ap (log_meta entry_hash digest n) (omega arith)
      shown n index count metas at (suc j) d h =
          at j d (omega (arith, h)) ∙ ap (log_meta entry_hash digest n) (omega arith)

  inspect-some :
      (n : Node) (after : ℕ) (metas : List LogMeta)
      → log_metas entry_hash digest n (first_shown n) (last_locked n + 1 - first_shown n)
        ≡ some metas
      → (shown : Inspection) × (inspect entry_hash digest n after ≡ some shown)
        × (shown.log ≡ metas)
  unfolding inspect
  inspect-some n after metas h = (
    record {
      status = status n;
      boot_id = n.boot_id;
      state_hash = digest n.machine;
      log = metas;
      events = Events.after n.events after;
    },
    rw (h, inspect),
    refl,
  )

  shown_count : (n : Node) → last_locked n + 1 - first_shown n ≡ min (last_locked n) 100
  unfolding first_shown
  shown_count n = omega arith

  shown_from :
      (n : Node)
      → 0 < last_locked n + 1 - first_shown n
      → last_locked n + 1 - (last_locked n + 1 - first_shown n) ≡ first_shown n
  unfolding first_shown
  shown_from n h = omega (arith, h)

  -- If the base is not above the first of the last 100 indexes, then Inspect shows the entries from
  -- that index to the last, in order.
  inspect-Shows :
      (n : Node) (after : ℕ)
      → n.store.state.base ≤ first_shown n
      → (shown : Inspection) × (inspect entry_hash digest n after ≡ some shown) × Shows n shown.log
  inspect-Shows n after above =
      let (metas, found, size, at) =
        log_metas_lem n (first_shown n) (last_locked n + 1 - first_shown n) above in
      let (shown, e, log) = inspect-some n after metas found in
      (
        shown,
        e,
        rw log (record {
          count = size ∙ shown_count n;
          entries = λ j d h.
              let from : last_locked n + 1 - length metas + j ≡ first_shown n + j =
                ap (λ k. last_locked n + 1 - k + j) size
                ∙ ap (λ k. k + j) (shown_from n (omega (arith, h, size))) in
              rw (from, at j d (omega (arith, h, size))) (log_meta-Describes n (first_shown n + j));
        }),
      )

  below_lem :
      (n : Node)
      → first_shown n < n.store.state.base
      → (1 < n.store.state.base) × (last_locked n < n.store.state.base + 99)
  unfolding first_shown
  below_lem n h = (omega (arith, h), omega (arith, h))

  not_below_lem :
      (n : Node)
      → n.store.state.base ≤ first_shown n
      → (n.store.state.base ≤ 1) ⊎ (n.store.state.base + 99 ≤ last_locked n)
  unfolding first_shown
  not_below_lem n h = ground (arith, h)

  -- What Inspect shows. If the base is above 1 and the log has fewer than 99 entries above it, then
  -- nothing, since it reads an entry below the base. Otherwise the last 100 entries, or all if there
  -- are fewer, in order, each with its index, term, operation and key, its hash, and whether it is
  -- committed and applied.
  pub inspect_window :
      (n : Node) (after : ℕ)
      → ((1 < n.store.state.base)
          × (last_locked n < n.store.state.base + 99)
          × (inspect entry_hash digest n after ≡ none))
        ⊎ (((n.store.state.base ≤ 1) ⊎ (n.store.state.base + 99 ≤ last_locked n))
            × (shown : Inspection) × (inspect entry_hash digest n after ≡ some shown)
            × Shows n shown.log)
  inspect_window n after = elim (Bool-cases (ltb (first_shown n) n.store.state.base)) [
    | inl low ↦
        let below = ltb→lt (first_shown n) n.store.state.base low in
        let (moved, short) = below_lem n below in
        inl (moved, short, inspect_below_base n after below)
    | inr high ↦
        let above : n.store.state.base ≤ first_shown n = ground (arith, high) in
        let (shown, found, shows) = inspect-Shows n after above in
        inr (not_below_lem n above, shown, found, shows)
  ]
