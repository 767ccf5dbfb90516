-- ===== src/Runtime.antt =====
-- crates/example/async_runtime/src/lib.rs: the functions through which a thread's code reaches its
-- executor.
pub mod Turns
pub mod Rounds
pub mod Blocked
use rust_root_task_demo.Common.{
  panic, ret, Outcome, some, none, Bool, suc, zero, ◌>>=◌, if◌then◌else◌, ℕ,
}
use rust_root_task_demo.Coroutine.{Poll, ready, pending}
use rust_root_task_demo.Executor
use rust_root_task_demo.Executor.{Executor, Runtime}

module _ {ℓ} {F : Type ℓ} where
  -- `runtime_init`: the thread's executor is new, its ids stay.
  pub runtime_init : Runtime F → Runtime F
  runtime_init r = record r { executor = Executor.new }

  pub coroutine_spawn : Runtime F → F → Outcome (ℕ × Runtime F)
  coroutine_spawn r future = Executor.spawn r future 1

  pub coroutine_spawn_with_prio : Runtime F → F → ℕ → Outcome (ℕ × Runtime F)
  coroutine_spawn_with_prio = Executor.spawn

  pub coroutine_possible_switch : Runtime F → Outcome (Bool × Runtime F)
  coroutine_possible_switch r = do
    (possible, e) ← Executor.switch_possible r.executor
    ret (possible, record r { executor = e })

  pub coroutine_delay_wake : Runtime F → ℕ → Outcome (Runtime F)
  coroutine_delay_wake r cid = do
    e ← Executor.delay_wake r.executor cid
    ret (record r { executor = e })

  pub coroutine_wake : Runtime F → ℕ → Outcome (Runtime F)
  coroutine_wake r cid = do e ← Executor.wake r.executor cid; ret (record r { executor = e })

  pub get_ready_num : Runtime F → Outcome ℕ
  get_ready_num r = Executor.get_ready_num r.executor

  pub coroutine_is_empty : Runtime F → Bool
  coroutine_is_empty r = Executor.is_empty r.executor

  module _ (poll : Runtime F → F → Outcome (Poll × Runtime F)) where
    -- `run_until_blocked`, with `fuel` rounds to go; `poll` is what polling a future does to the
    -- runtime. `panic` also stands for a loop that has used up its rounds.
    pub run_until_blocked : ℕ → Runtime F → Outcome (Runtime F)
    run_until_blocked zero r = panic
    run_until_blocked (suc fuel) r = do
      (fetched, e) ← Executor.fetch r.executor
      let r' = record r { executor = e }
      elim fetched [
        | none ↦ ret r'
        | some task ↦ do
          (polled, r₁) ← poll r' task.future
          r₂ ← finish polled r₁ task.cid
          run_until_blocked fuel r₂
      ]
      where
        finish : Poll → Runtime F → ℕ → Outcome (Runtime F)
        finish ready r cid = Executor.remove_task r cid
        finish pending r cid = ret r

    -- `run_until_complete`, with `fuel` rounds to go for each of the two loops
    pub run_until_complete : ℕ → ℕ → Runtime F → Outcome (Runtime F)
    run_until_complete zero rounds r = panic
    run_until_complete (suc fuel) rounds r =
        let again = (do r' ← run_until_blocked rounds r; run_until_complete fuel rounds r') in
        if Executor.is_empty r.executor then ret r else again
