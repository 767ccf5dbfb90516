-- ===== src/Tests/Runtime.antt =====
-- A run of the loop of crates/example/async_runtime/src/executor.rs.
use rust_root_task_demo.Common.{
  Bool-cases, ==_ne, inr, inl, refl, sym, subst, ap, ret, Outcome, Bool, [], arith, if◌then◌else◌,
  length, ◌==◌, ◌∙◌, ◌∷◌, ◌≡◌, ◌<◌, ℕ,
}
use rust_root_task_demo.Coroutine.{Poll, ready, pending}
use rust_root_task_demo.Executor
use rust_root_task_demo.Executor.{Runtime}
use rust_root_task_demo.Executor.Invariant.{waiting, new-waiting, new-WellFormed}
use rust_root_task_demo.Executor.Drain.{has}
use rust_root_task_demo.Executor.Dispatch.{new-IsLive}
use rust_root_task_demo.Executor.Liveness.{Spawned-IsLive}
use rust_root_task_demo.Executor.Reach.{Reachable-IsSound}
use rust_root_task_demo.Runtime.{run_until_blocked}
use rust_root_task_demo.Runtime.Turns.{IsDistinct, turns, turns_taken, turns_idle}
use rust_root_task_demo.Runtime.Rounds.{CanRun}
use rust_root_task_demo.Runtime.Blocked.{Ran, run_until_blocked-Ran}
use rust_root_task_demo.Tests.Reach.{
  at_start, one_spawned, one_spawned-Spawned, one_spawned-Reachable, new_cid, new_cid_lt,
}

-- Future 9 finishes when it is polled.
abbrev is_9 : ℕ → Bool
is_9 f = f == 9

abbrev poll_9 : Runtime ℕ → ℕ → Outcome (Poll × Runtime ℕ)
poll_9 r f = ret (if is_9 f then ready else pending, r)

-- The id of the new coroutine has the only turn.
one_turn : turns one_spawned.executor ≡ new_cid ∷ []
one_turn =
    turns_taken one_spawned.executor at_start.executor 1 new_cid [] below front each (omega arith)
    ∙ ap (λ xs. new_cid ∷ xs) (turns_idle at_start.executor (new-waiting ℕ))
  where
    front : waiting one_spawned.executor 1 ≡ new_cid ∷ []
    front = rw (one_spawned-Spawned.queue 1, new-waiting ℕ 1) refl

    each :
        (q : ℕ)
        → waiting at_start.executor q ≡ (if 1 == q then [] else waiting one_spawned.executor q)
    each q = elim (Bool-cases (1 == q)) [
      | inl same ↦ rw (same, new-waiting ℕ q) refl
      | inr apart ↦ rw (one_spawned-Spawned.queue q, apart) refl
    ]

    below : (q : ℕ) → q < 1 → waiting one_spawned.executor q ≡ []
    below q lt =
        rw (one_spawned-Spawned.queue q, ==_ne 1 q (λ e. omega (arith, e, lt)), new-waiting ℕ q)
          refl

one_spawned-CanRun : CanRun is_9 one_spawned
unfolding has
one_spawned-CanRun = record {
  sound = Reachable-IsSound one_spawned one_spawned-Reachable;
  live =
      Spawned-IsLive at_start one_spawned 9 1 new_cid new-WellFormed new_cid_lt one_spawned-Spawned
        new-IsLive;
  quiet = one_spawned-Spawned.same_delays ∙ (unfold Executor.new in refl);
  distinct = subst IsDistinct (sym one_turn) (refl, tt);
}

run_until_blocked-Ran_example :
    (r' : Runtime ℕ) × (run_until_blocked poll_9 2 one_spawned ≡ ret r')
    × Ran is_9 (turns one_spawned.executor) one_spawned r'
run_until_blocked-Ran_example =
    run_until_blocked-Ran is_9 poll_9 (λ r f. refl) 2 one_spawned one_spawned-CanRun
      (omega (arith, ap length one_turn))
