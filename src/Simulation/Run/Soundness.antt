-- ===== src/Simulation/Run/Soundness.antt =====
-- internal/simulation/simulation.go, Run: every node of a run is sound, and the run is in order.
use shard_zero.Prelude.{
  ℕ, zero, suc, ◌+◌, ◌*◌, ◌≤◌, ◌≡◌, inl, inr, refl, sym, not, ◌||◌, none, some, List, [], ◌∷◌,
  arith, ltb, is_none, Bool-cases, subst, Bool, false, true, ◌&&◌, ap, ◌∙◌, if◌then◌else◌, ◌==◌,
}
use shard_zero.Raft.Store.Recovery.{empty_state-IsLog}
use shard_zero.Raft.Node.Effects.{IsSound}
use shard_zero.Raft.Open.Restoring.{new-IsReady}
use shard_zero.Raft.Steps.{clock}
use shard_zero.Raft.Steps.Safety.{Step-Good}
use shard_zero.Simulation.{Fault, Scenario}
use shard_zero.Simulation.Checker.{converged, Checked, check}
use shard_zero.Simulation.Checker.Clock.{now-check}
use shard_zero.Simulation.Schedule.{
  Item, Task, injects, submits, expires, recovers, ticks, times_out, delivers, duplicates, responds,
  IsDue, IsDue-nil, IsDue-tail, IsDue-earlier,
}
use shard_zero.Simulation.Runner.{World, Runner, count_of, operation_count, node_count, each}
use shard_zero.Simulation.Runner.Places.{start}
use shard_zero.Simulation.Runner.Clients.{collect_from}
use shard_zero.Simulation.Runner.Network.{no_reply, drain}
use shard_zero.Simulation.Runner.Fine.{
  count_done, Fine, Fine-kept, Fine-log_event, Fine-schedule, Fine-each,
}
use shard_zero.Simulation.Runner.Reviving.{Fine-start, Fine-fault, Fine-recover_all}
use shard_zero.Simulation.Runner.Asking.{
  Fine-expire, Fine-collect_from, Fine-tick_all, Fine-first_try,
}
use shard_zero.Simulation.Runner.Carrying.{Fine-finish, Fine-deliver, Fine-respond, Fine-drain}
use shard_zero.Simulation.Run.{
  run_task, members, members_from, judged, begin_turn, turn, Next, stops, takes, next_item, next_of,
  loop, recover_at, limit_of, schedule_faults, schedule_client, operation_of, unused, first_runner,
  prepared, final,
}

module _ {many count limit taken : ℕ} {over : Bool} where
  Fine-run_task :
      (w : World) (r : Runner) (t : Task)
      → Fine many count limit taken over r
      → Fine many count limit taken over (run_task w r t)
  unfolding run_task
  Fine-run_task w r (injects f) h = Fine-fault w r f h
  Fine-run_task w r (submits j) h = Fine-first_try r j h
  Fine-run_task w r (expires j g best) h = Fine-expire r j g best h
  Fine-run_task w r recovers h = Fine-recover_all w r h
  Fine-run_task w r ticks h = Fine-tick_all r h
  Fine-run_task w r (times_out c) h = Fine-finish r c no_reply h
  Fine-run_task w r (delivers c) h = Fine-deliver w r c h
  Fine-run_task w r (duplicates c) h = Fine-deliver w r c h
  Fine-run_task w r (responds c v) h = Fine-respond r c v h

  Fine-judged :
      (r : Runner) (c : Checked)
      → c.0.now ≡ r.ledger.now
      → Fine many count limit taken over r
      → Fine many count limit taken over (judged r c)
  unfolding judged
  Fine-judged r (l, none) now h = Fine-kept refl refl now refl refl refl refl refl h
  Fine-judged r (l, some e) now h = Fine-kept refl refl now refl refl refl refl refl h

  Fine-begin_turn :
      (r : Runner) (item : Item) (rest : List Item)
      → r.queue ≡ item ∷ rest
      → item.at ≤ limit
      → Fine many count limit taken over r
      → Fine many count limit (taken + 1) over (begin_turn r item rest)
  unfolding begin_turn
  Fine-begin_turn r item rest e early h = Fine-log_event _ _ _ _ (record {
    width = h.width;
    size = h.size;
    sound = λ p. (Step-Good (clock (r.heap p) (item.at * 1000000)) (h.sound p)).1;
    due = (IsDue-tail r.ledger.now item rest (subst (IsDue r.ledger.now) e h.due)).1;
    counted = h.counted;
    waiting = h.waiting;
    early = early;
    stepped = omega (arith, h.stepped);
    ended = h.ended;
  })

-- The members are the same for all that a runner has besides.
members_from_same :
    (r : Runner) (over : Bool) (i k : ℕ)
    → members_from (record r { converged = over }) i k ≡ members_from r i k
unfolding members_from
members_from_same r over i zero = refl
members_from_same r over i (suc k) = rw (members_from_same r over (suc i) k) refl

-- A runner is fine, and if it has converged then so have its members.
abbrev pub Whole : World → ℕ → ℕ → ℕ → ℕ → Runner → Type 0
Whole w many count limit taken r =
    (over : Bool) × Fine many count limit taken over r
    × (over ≡ true → converged w.digest (members r) ≡ true)

-- The loop stops, or takes the first item.
data Goes (w : World) (many count limit taken : ℕ) (r : Runner) : Next → Type 0 where
  ends :
      (r' : Runner) → Whole w many count limit taken r' → Goes w many count limit taken r (stops r')
  goes :
      (item : Item) (rest : List Item)
      → r.queue ≡ item ∷ rest
      → item.at ≤ limit
      → Fine many count limit taken false r
      → Goes w many count limit taken r (takes item rest)

module _ {many count limit taken : ℕ} (w : World) where
  Whole-running :
      (r : Runner) → Fine many count limit taken false r → Whole w many count limit taken r
  Whole-running r h = (false, h, λ z. cc z)

  Whole-turn :
      (recover_at : ℕ) (r : Runner) (item : Item) (rest : List Item)
      → r.queue ≡ item ∷ rest
      → item.at ≤ limit
      → Fine many count limit taken false r
      → Whole w many count limit (taken + 1) (turn w recover_at r item rest)
  unfolding turn
  Whole-turn recover_at r item rest e early h =
      let ran = run_task w (begin_turn r item rest) item.task in
      let fine = Fine-run_task w _ item.task (Fine-begin_turn r item rest e early h) in
      let collected = collect_from 0 (operation_count ran) ran in
      let sent = drain w collected in
      let kept =
        Fine-drain w collected
          (Fine-collect_from 0 (operation_count ran) ran (omega (arith, fine.size)) fine) in
      let checked = check w.entry_hash w.chain_hash sent.ledger 0 (members sent) in
      ended recover_at (judged sent checked) (
        Fine-judged sent checked
          (now-check w.entry_hash w.chain_hash sent.ledger.now sent.ledger 0 (members sent) refl)
          kept)
    where
      ended :
          (recover_at : ℕ) (r : Runner)
          → Fine many count limit (taken + 1) false r
          → Whole w many count limit (taken + 1) (
              if ltb (recover_at + 1500) r.ledger.now
                && r.acknowledged == operation_count r
                && converged w.digest (members r)
              then record r { converged = true }
              else r)
      ended recover_at r f =
          elim (Bool-cases (
            ltb (recover_at + 1500) r.ledger.now
            && r.acknowledged == operation_count r
            && converged w.digest (members r))) [
              | inl t ↦ rw t (
                true,
                record {
                  width = f.width;
                  size = f.size;
                  sound = f.sound;
                  due = f.due;
                  counted = f.counted;
                  waiting = f.waiting;
                  early = f.early;
                  stepped = f.stepped;
                  ended = refl;
                },
                λ _.
                    ap (converged w.digest) (members_from_same r true 0 (node_count r))
                    ∙ ground (arith, t),
              )
              | inr g ↦ rw g (false, f, λ z. cc z)
            ]

  next_item-Goes :
      (r : Runner) (items : List Item)
      → r.queue ≡ items
      → Fine many count limit taken false r
      → Goes w many count limit taken r (next_item w limit r items)
  unfolding next_item
  next_item-Goes r [] e h = ends r (Whole-running r h)
  next_item-Goes r (item ∷ rest) e h = elim (Bool-cases (w.cancelled r.steps)) [
    | inl over ↦
        rw over (ends _ (Whole-running _ (Fine-kept refl refl refl refl refl refl refl refl h)))
    | inr lives ↦ elim (Bool-cases (ltb limit item.at)) [
      | inl late ↦
          let (first, due) =
            IsDue-tail r.ledger.now item rest (subst (IsDue r.ledger.now) e h.due) in
          rw (lives, late)
            (ends _ (
              Whole-running _ (record {
                width = h.width;
                size = h.size;
                sound = h.sound;
                due = IsDue-earlier r.ledger.now item.at rest first due;
                counted = h.counted;
                waiting = h.waiting;
                early = h.early;
                stepped = h.stepped;
                ended = h.ended;
              })))
      | inr now ↦ rw (lives, now) (goes item rest e (ground (arith, now)) h)
    ]
  ]

  next_of-Goes :
      (r : Runner)
      → Whole w many count limit taken r
      → Goes w many count limit taken r (next_of w limit r)
  unfolding next_of
  next_of-Goes r (over, h, met) = elim (Bool-cases (r.converged || not (is_none r.err))) [
    | inl stop ↦ rw stop (ends r (over, h, met))
    | inr on ↦
        let running : over ≡ false = sym h.ended ∙ ground (arith, on) in
        rw on
          (next_item-Goes r r.queue refl (subst (λ b. Fine many count limit taken b r) running h))
  ]

-- Any number of turns of the loop.
Whole-loop :
    {many count limit : ℕ} (w : World) (recover_at k taken : ℕ) (r : Runner)
    → Whole w many count limit taken r
    → (after : ℕ) × (after ≤ taken + k)
      × Whole w many count limit after (loop w recover_at limit k r)
unfolding loop
Whole-loop w recover_at zero taken r h = (taken, omega arith, h)
Whole-loop {many} {count} {limit} w recover_at (suc k) taken r h =
    go (next_of w limit r) (next_of-Goes w r h)
      (λ item rest. Whole-loop w recover_at k (taken + 1) (turn w recover_at r item rest))
  where
    go :
        (n : Next)
        → Goes w many count limit taken r n
        → ((item : Item) (rest : List Item)
            → Whole w many count limit (taken + 1) (turn w recover_at r item rest)
            → (after : ℕ) × (after ≤ taken + 1 + k)
              × Whole w many count limit after
                  (loop w recover_at limit k (turn w recover_at r item rest)))
        → (after : ℕ) × (after ≤ taken + suc k)
          × Whole w many count limit after (elim n [
            | stops r' ↦ r'
            | takes item rest ↦ loop w recover_at limit k (turn w recover_at r item rest)
          ])
    go _ (ends r' h') again = (taken, omega arith, h')
    go _ (goes item rest e early f) again =
        let (after, below, whole) =
          again item rest (Whole-turn w recover_at r item rest e early f) in
        (after, omega (arith, below), whole)

unused-IsSound : IsSound unused
unused-IsSound = record {
  ready = new-IsReady unused empty_state-IsLog refl refl refl;
  caught_up = refl;
}

none_done : (k : ℕ) → count_done operation_of k ≡ 0
unfolding count_done operation_of
none_done zero = refl
none_done (suc k) = omega (arith, none_done k)

-- Before the loop the clock shows 0.
Fine-first :
    (s : Scenario) → Fine (count_of s.nodes) (count_of s.operations) 0 0 false (first_runner s)
unfolding operation_of
Fine-first s = record {
  width = refl;
  size = refl;
  sound = λ _. unused-IsSound;
  due = IsDue-nil 0;
  counted = sym (none_done (count_of s.operations));
  waiting = λ j h. refl;
  early = omega arith;
  stepped = refl;
  ended = refl;
}

module _ {many count : ℕ} where
  Fine-schedule_faults :
      (faults : List Fault) (r : Runner)
      → Fine many count 0 0 false r
      → Fine many count 0 0 false (schedule_faults faults r)
  unfolding schedule_faults
  Fine-schedule_faults [] r h = h
  Fine-schedule_faults (f ∷ faults) r h =
      Fine-schedule_faults faults _ (Fine-schedule r _ (injects f) (omega (arith, h.early)) h)

  Fine-schedule_client :
      (r : Runner) (i : ℕ)
      → Fine many count 0 0 false r
      → Fine many count 0 0 false (schedule_client r i)
  unfolding schedule_client
  Fine-schedule_client r i h = Fine-schedule r _ (submits i) (omega (arith, h.early)) h

Fine-prepared :
    (w : World) (s : Scenario)
    → Fine (count_of s.nodes) (count_of s.operations) 0 0 false (prepared w s)
unfolding prepared
Fine-prepared w s =
    let begun = each (start w) 0 (count_of s.nodes) (first_runner s) in
    let fine = Fine-each (start w) (Fine-start w) 0 (count_of s.nodes) _ (Fine-first s) in
    let faults = Fine-schedule_faults s.faults begun fine in
    let clients =
      Fine-each schedule_client Fine-schedule_client 0 (count_of s.operations)
        (schedule_faults s.faults begun) faults in
    let recovery = Fine-schedule _ (recover_at s) recovers (omega (arith, clients.early)) clients in
    Fine-schedule _ 50 ticks (omega (arith, recovery.early)) recovery

-- The end of a run.
pub Whole-final :
    (w : World) (s : Scenario)
    → (after : ℕ) × (after ≤ 2000000)
      × Whole w (count_of s.nodes) (count_of s.operations) (limit_of s) after (final w s)
unfolding final
Whole-final w s =
    let h = Fine-prepared w s in
    let (after, below, whole) = Whole-loop w (recover_at s) 2000000 0 (prepared w s) (
      Whole-running w _ (record {
        width = h.width;
        size = h.size;
        sound = h.sound;
        due = h.due;
        counted = h.counted;
        waiting = h.waiting;
        early = omega (arith, h.early);
        stepped = h.stepped;
        ended = h.ended;
      })) in
    (after, omega (arith, below), whole)

-- Whatever the scenario, the random numbers and the hashes, and whenever the context ends, every node
-- that the simulator has started is sound when its run ends, also one that has crashed since.
pub run-IsSound : (w : World) (s : Scenario) (p : ℕ) → IsSound ((final w s).heap p)
run-IsSound w s p = let (_, _, (_, fine, _)) = Whole-final w s in fine.sound p
