-- ===== src/Simulation/Runner/Reviving.antt =====
-- internal/simulation/simulation.go, start, fault and the recovery of all: what they keep.
use shard_zero.Prelude.{
  ℕ, ◌≡◌, inl, inr, refl, Bool, true, false, not, [], Text, bytes, text_eq, Option-cases,
  if◌then◌else◌, Attempt, done, failed,
}
use shard_zero.Raft.Store.Journal
use shard_zero.Raft.Store.Journal.{failed_before, failed_after, stored}
use shard_zero.Raft.Commit.Answers.{Answering-still}
use shard_zero.Raft.Node.{Node}
use shard_zero.Raft.Node.Effects.{IsSound, Same, Same-Good}
use shard_zero.Raft.Client.{close, set_paused, status}
use shard_zero.Raft.Client.Effects.{close-Good, set_paused-Good}
use shard_zero.Raft.Open.{OpenError}
use shard_zero.Raft.Open.Soundness.{open_node-IsSound}
use shard_zero.Simulation.{Fault}
use shard_zero.Simulation.Runner.{World, Runner, count_of, name_of, node_count, put_node}
use shard_zero.Simulation.Runner.Places.{
  break_disk, on_place, opened, start, crash, strike, fault, revive_node, revive, recover_all,
}
use shard_zero.Simulation.Runner.Fine.{
  Fine, Fine-kept, Fine-put_node, Fine-log_event, Fine-if, Fine-each,
}

break_disk-IsSound :
    (n : Node) (failure : Journal.Outcome) → IsSound n → IsSound (break_disk n failure)
break_disk-IsSound n failure s = (Same-Good same s).1
  where
    same : Same n (break_disk n failure)
    same = record {
      cfg = refl;
      peers = refl;
      state = refl;
      snapshot = refl;
      machine = refl;
      applied = refl;
      answering = Answering-still refl refl refl refl refl refl;
      recalls = λ h. h;
    }

module _ {many count limit taken : ℕ} {over : Bool} where
  Fine-on_place :
      (r : Runner) (i : ℕ) (f : Node → Node)
      → ((n : Node) → IsSound n → IsSound (f n))
      → Fine many count limit taken over r
      → Fine many count limit taken over (on_place r i f)
  unfolding on_place
  Fine-on_place r i f keeps h = elim (Option-cases (r.place i)) [
    | inl e ↦ rw (e, on_place) h
    | inr (p, e) ↦ rw (e, on_place) (Fine-put_node r p (f (r.heap p)) (keeps _ (h.sound p)) h)
  ]

  Fine-close :
      (r : Runner) (i : ℕ)
      → Fine many count limit taken over r
      → Fine many count limit taken over (on_place r i close)
  Fine-close r i h = Fine-on_place r i close (λ n s. (close-Good n s).1) h

  Fine-pause :
      (r : Runner) (i : ℕ) (value : Bool)
      → Fine many count limit taken over r
      → Fine many count limit taken over (on_place r i (λ n. set_paused n value))
  Fine-pause r i value h =
      Fine-on_place r i (λ n. set_paused n value) (λ n s. (set_paused-Good n value s).1) h

  Fine-break :
      (r : Runner) (i : ℕ) (failure : Journal.Outcome)
      → Fine many count limit taken over r
      → Fine many count limit taken over (on_place r i (λ n. break_disk n failure))
  Fine-break r i failure h =
      Fine-on_place r i (λ n. break_disk n failure) (λ n s. break_disk-IsSound n failure s) h

  Fine-opened :
      (r : Runner) (i : ℕ) (a : Attempt Node OpenError)
      → ((n : Node) → a ≡ done n → IsSound n)
      → Fine many count limit taken over r
      → Fine many count limit taken over (opened r i a)
  unfolding opened
  Fine-opened r i (failed e) sound h = Fine-kept refl refl refl refl refl refl refl refl h
  Fine-opened r i (done n) sound h = Fine-log_event _ (bytes "RESTART") (name_of i) [] (
      Fine-kept refl refl refl refl refl refl refl refl (Fine-put_node r r.next n (sound n refl) h))

  pub Fine-start :
      (w : World) (r : Runner) (i : ℕ)
      → Fine many count limit taken over r
      → Fine many count limit taken over (start w r i)
  unfolding start
  Fine-start w r i h =
      Fine-opened _ i _ (λ n e. open_node-IsSound _ _ _ _ _ _ n e)
        (Fine-kept refl refl refl refl refl refl refl refl (Fine-close r i h))

  Fine-crash :
      (r : Runner) (i : ℕ)
      → Fine many count limit taken over r
      → Fine many count limit taken over (crash r i)
  unfolding crash
  Fine-crash r i h = Fine-kept refl refl refl refl refl refl refl refl (Fine-close r i h)

  Fine-strike :
      (w : World) (r : Runner) (kind : Text) (i : ℕ)
      → Fine many count limit taken over r
      → Fine many count limit taken over (strike w r kind i)
  unfolding strike
  Fine-strike w r kind i h = Fine-if (text_eq kind (bytes "crash")) (Fine-crash r i h) (
      Fine-if (text_eq kind (bytes "restart")) (Fine-start w r i h) (
        Fine-if (text_eq kind (bytes "pause")) (Fine-pause r i true h) (
          Fine-if (text_eq kind (bytes "resume")) (Fine-pause r i false h) (
            Fine-if (text_eq kind (bytes "partition"))
              (Fine-kept refl refl refl refl refl refl refl refl h)
              (Fine-if (text_eq kind (bytes "heal"))
                (Fine-kept refl refl refl refl refl refl refl refl h)
                (Fine-if (text_eq kind (bytes "disk-before")) (Fine-break r i failed_before h) (
                  Fine-if (text_eq kind (bytes "disk-after")) (Fine-break r i failed_after h)
                    h)))))))

  pub Fine-fault :
      (w : World) (r : Runner) (f : Fault)
      → Fine many count limit taken over r
      → Fine many count limit taken over (fault w r f)
  unfolding fault
  Fine-fault w r f h = Fine-strike w _ f.kind (count_of f.node) (Fine-log_event r _ _ f.kind h)

  Fine-revive_node :
      (w : World) (r : Runner) (i p : ℕ)
      → Fine many count limit taken over r
      → Fine many count limit taken over (revive_node w r i p)
  unfolding revive_node
  Fine-revive_node w r i p h =
      let n = break_disk (r.heap p) stored in
      let sound : IsSound n = break_disk-IsSound (r.heap p) stored (h.sound p) in
      let awake : IsSound (set_paused n false) = (set_paused-Good n false sound).1 in
      elim (status n).is_paused
        as (λ was. Fine many count limit taken over (
          let m = if was then set_paused n false else n in
          let r = put_node r p m in
          if not (status m).healthy
          then start w r i
          else if not was
          then put_node r p (set_paused m false)
          else r)) [
            | true ↦
                let kept = Fine-put_node r p _ awake h in Fine-if _ (Fine-start w _ i kept) kept
            | false ↦
                let kept = Fine-put_node r p _ sound h in
                Fine-if _ (Fine-start w _ i kept) (Fine-put_node _ p _ awake kept)
          ]

  Fine-revive :
      (w : World) (r : Runner) (i : ℕ)
      → Fine many count limit taken over r
      → Fine many count limit taken over (revive w r i)
  unfolding revive
  Fine-revive w r i h = elim (Option-cases (r.place i)) [
    | inl e ↦ rw (e, revive) (Fine-start w r i h)
    | inr (p, e) ↦ rw (e, revive) (Fine-revive_node w r i p h)
  ]

  pub Fine-recover_all :
      (w : World) (r : Runner)
      → Fine many count limit taken over r
      → Fine many count limit taken over (recover_all w r)
  unfolding recover_all
  Fine-recover_all w r h = Fine-log_event _ _ _ _ (
      Fine-each (revive w) (Fine-revive w) 0 (node_count r) _
        (Fine-kept refl refl refl refl refl refl refl refl h))
