-- ===== src/Tests/Reach.antt =====
-- A run of the scheduler of crates/example/async_runtime/src/executor.rs.
use rust_root_task_demo.Common.{◌<◌, get_or-replicate, arith, ret, Outcome, refl, ◌≡◌, ℕ}
use rust_root_task_demo.Tests.Executor.{room}
use rust_root_task_demo.Common.Bits.{bit}
use rust_root_task_demo.Common.Words.{set_bit}
use rust_root_task_demo.Utils.IndexAllocator
use rust_root_task_demo.Utils.IndexAllocator.Bitmap.{used, new-IsValid}
use rust_root_task_demo.Coroutine.{max_cid_num}
use rust_root_task_demo.Executor
use rust_root_task_demo.Executor.{Executor, Runtime, max_task_num}
use rust_root_task_demo.Executor.Spawn.{
  Spawned, no_room, no_slot, no_id, Spawns, spawned, spawn-Spawns,
}
use rust_root_task_demo.Executor.Invariant.{new-WellFormed}
use rust_root_task_demo.Executor.Soundness.{IsSound}
use rust_root_task_demo.Executor.Reach.{Reachable, starts, goes, spawns, delays, Reachable-IsSound}

abbrev pub at_start : Runtime ℕ
at_start = record { executor = Executor.new; cids = IndexAllocator.new max_cid_num }

-- A coroutine is spawned at priority 1.
abbrev Returned : Type 0
Returned =
    (c : ℕ) × ((r : Runtime ℕ) × ((Executor.spawn at_start 9 1 ≡ ret (c, r))
        × (c < max_task_num)
        × Spawned at_start 9 1 c r))

pub spawn_returns : Returned
unfolding bit
spawn_returns =
    returned (spawn-Spawns at_start 9 1 new-WellFormed (omega arith) (new-IsValid max_cid_num)) refl
  where
    free : used (IndexAllocator.new max_cid_num) 0 ≡ 0
    free = unfold IndexAllocator.new in omega (arith, get_or-replicate {A = ℕ} 512 0 0)

    returned :
        {o : Outcome (ℕ × Runtime ℕ)}
        → Spawns at_start 9 1 o
        → Executor.spawn at_start 9 1 ≡ o
        → Returned
    returned (no_id h) eq = absurd (omega (arith, free, h 0 (omega arith)))
    returned (no_slot c past h) eq = absurd (omega (arith, free, h 0 (omega (arith, past))))
    returned (no_room h) eq = absurd (omega (arith, h, room 1))
    returned (spawned c r lt h below d) eq = (c, (r, (eq, lt, d)))

abbrev pub one_spawned : Runtime ℕ
one_spawned = spawn_returns.1.0

abbrev pub new_cid : ℕ
new_cid = spawn_returns.0

pub new_cid_lt : new_cid < max_task_num
new_cid_lt = spawn_returns.1.1.1

pub one_spawned-Spawned : Spawned at_start 9 1 new_cid one_spawned
one_spawned-Spawned = spawn_returns.1.1.2

pub one_spawned-Reachable : Reachable one_spawned
one_spawned-Reachable =
    goes at_start one_spawned (starts (IndexAllocator.new max_cid_num) (new-IsValid max_cid_num))
      (spawns 9 1 new_cid one_spawned spawn_returns.1.1.0)

-- A wake of id 3 is delayed after that.
abbrev one_delayed : Runtime ℕ
one_delayed = record one_spawned {
  executor = record (one_spawned.executor) {
    delay_wake_cids = set_bit one_spawned.executor.delay_wake_cids 3;
  };
}

one_delayed-Reachable : Reachable one_delayed
one_delayed-Reachable =
    goes one_spawned one_delayed one_spawned-Reachable
      (delays 3 one_delayed.executor (unfold Executor.delay_wake in refl))

Reachable-IsSound_example : IsSound one_delayed
Reachable-IsSound_example = Reachable-IsSound one_delayed one_delayed-Reachable
