-- ===== src/Tests/Executor.antt =====
-- The scheduler of crates/example/async_runtime/src/executor.rs on concrete values.
use rust_root_task_demo.Common.{
  length, subst, sym, ret, replicate, ltb, arith, [], List, none, not, ap, refl, ◌∙◌, if◌then◌else◌,
  ◌==◌, ◌&&◌, ◌++◌, ◌∷◌, ◌≡◌, ◌%◌, ◌/◌, ℕ,
}
use rust_root_task_demo.Common.Bits.{bit}
use rust_root_task_demo.Common.Words.{trailing_zeros, set_bit}
use rust_root_task_demo.Utils.BitMap64
use rust_root_task_demo.Utils.BitMap64.{BitMap64}
use rust_root_task_demo.Utils.IndexAllocator
use rust_root_task_demo.Utils.IndexAllocator.Bitmap
use rust_root_task_demo.Coroutine.{Coroutine, max_cid_num}
use rust_root_task_demo.Utils.RingBuffer.Laws.{length-contents}
use rust_root_task_demo.Executor
use rust_root_task_demo.Executor.{Executor, Runtime, max_task_num, max_prio_num}
use rust_root_task_demo.Executor.Invariant.{
  waiting, WellFormed, new-WellFormed, new-waiting, ring_size, ring_of,
}
use rust_root_task_demo.Executor.Schedule.{
  HasRoom, result, result-WellFormed, waiting-result, schedule_lem, Scheduled, Wakes, wake-Wakes,
}
use rust_root_task_demo.Executor.Spawn.{registered, registered-WellFormed, Spawns, spawn-Spawns}
use rust_root_task_demo.Executor.Dispatch.{
  All, IsRegistered, IsLive, new-IsLive, Scheduled-IsLive, Dispatches, fetch-Dispatches,
}
use rust_root_task_demo.Executor.Remove.{Removed, remove_task-Removed}
use rust_root_task_demo.Executor.Starve.{actual_wake-quiet, stale-Starves}
use rust_root_task_demo.Executor.Drain.{IsRising, has, wake_all}
use rust_root_task_demo.Executor.Returns.{actual_wake_returns}
use rust_root_task_demo.Executor.Lost.{actual_wake_lem}

abbrev pub idle : Executor ℕ
idle = Executor.new

-- There is room at every priority of a new executor.
pub room : (q : ℕ) → HasRoom idle q
room q =
    let no_item : ring_size (ring_of idle q) ≡ 0 =
      sym (length-contents 0 max_task_num (ring_of idle q) ((new-WellFormed {F = ℕ}).rings q))
      ∙ ap length (new-waiting ℕ q) in
    omega (arith, no_item)

-- Id 3, at priority 1, has a task.
abbrev task_3 : Coroutine ℕ
task_3 = record { cid = 3; prio = 1; future = 9 }

abbrev pub one_task : Executor ℕ
one_task = registered idle new-WellFormed task_3 1 (task_3 ∷ [])

pub one_task-WellFormed : WellFormed one_task
one_task-WellFormed =
    registered-WellFormed idle new-WellFormed task_3 1 (task_3 ∷ []) (omega arith) (omega arith)

one_task-IsLive : IsLive one_task
one_task-IsLive = record {
  backed = unfold registered in (new-IsLive {F = ℕ}).backed;
  registered = λ p.
      subst (All (IsRegistered one_task)) (sym (new-waiting ℕ p) ∙ (unfold registered in refl)) tt;
}

pub one_task-room : HasRoom one_task 1
one_task-room = unfold registered in room 1

-- Id 3 waits.
abbrev pub one_ready : Executor ℕ
one_ready = (schedule_lem one_task one_task-WellFormed 1 3 (omega arith) one_task-room).0

pub one_ready-Scheduled : Scheduled one_task 1 3 one_ready
one_ready-Scheduled = (schedule_lem one_task one_task-WellFormed 1 3 (omega arith) one_task-room).2

pub one_ready-IsLive : IsLive one_ready
one_ready-IsLive =
    Scheduled-IsLive one_task one_ready 1 3 one_task-IsLive
      (omega arith, (task_3, (unfold registered Executor.new replicate in refl)))
      one_task-WellFormed one_ready-Scheduled

pub one_ready_quiet : one_ready.delay_wake_cids ≡ 0
one_ready_quiet = one_ready-Scheduled.same_delays ∙ (unfold registered Executor.new in refl)

fetch-Dispatches_example : Dispatches one_ready (Executor.fetch one_ready)
fetch-Dispatches_example =
    fetch-Dispatches one_ready one_ready (actual_wake-quiet one_ready one_ready_quiet)
      one_ready-Scheduled.well_formed one_ready-IsLive

wake-Wakes_example : Wakes one_task 3 (Executor.wake one_task 3)
wake-Wakes_example = wake-Wakes one_task 3 one_task-WellFormed (omega arith)

-- Id 5 waits at priority 2 without a task.
abbrev one_stale : Executor ℕ
one_stale = result idle new-WellFormed 2 5 (omega arith) (room 2)

stale-Starves_example :
    (e' : Executor ℕ) × (Executor.fetch one_stale ≡ ret (none, e'))
    × (Executor.fetch e' ≡ ret (none, e'))
    × ((q : ℕ) → waiting e' q ≡ (if 2 == q then [] else waiting one_stale q))
stale-Starves_example =
    stale-Starves one_stale 2 5 (result-WellFormed idle new-WellFormed 2 5 (omega arith) (room 2))
      (unfold Executor.new in refl)
      (unfold Executor.new BitMap64.new BitMap64.find_first_one trailing_zeros set_bit in refl)
      (omega arith)
      (waiting-result idle new-WellFormed 2 5 (omega arith) (room 2) 2
        ∙ ap (λ (l : List ℕ). l ++ (5 ∷ [])) (new-waiting ℕ 2))
      (omega arith) (unfold Executor.new replicate in refl)

abbrev new_runtime : Runtime ℕ
new_runtime = record { executor = idle; cids = IndexAllocator.new max_cid_num }

spawn-Spawns_example : Spawns new_runtime 9 1 (Executor.spawn new_runtime 9 1)
spawn-Spawns_example =
    spawn-Spawns new_runtime 9 1 new-WellFormed (omega arith) (Bitmap.new-IsValid max_cid_num)

-- With ids 1 and 2 delayed, the wake of 2 is lost.
abbrev two_delayed : Executor ℕ
two_delayed = record idle { delay_wake_cids = 6 }

two_delayed-WellFormed : WellFormed two_delayed
two_delayed-WellFormed =
    let v = new-WellFormed {F = ℕ} in
    record {
      queues = v.queues;
      rings = v.rings;
      bits = v.bits;
      high_bits = v.high_bits;
      slots = v.slots;
      task_prio = v.task_prio;
      task_cid = v.task_cid;
      marked = v.marked;
      delays = omega arith;
    }

actual_wake_lem_example :
    (ids : List ℕ) × IsRising 0 ids
    × (Executor.actual_wake two_delayed ≡ wake_all ids (record two_delayed { delay_wake_cids = 0 }))
    × ((k : ℕ)
        → has k ids ≡ (
            (bit two_delayed.delay_wake_cids k == 1)
            && not (ltb 0 k && ((k % 2 == 0) && has (k / 2) ids))))
actual_wake_lem_example = actual_wake_lem two_delayed (omega arith)

actual_wake_returns_example :
    (e' : Executor ℕ) × (Executor.actual_wake two_delayed ≡ ret e')
    × WellFormed e'
    × (e'.delay_wake_cids ≡ 0)
    × (e'.tasks ≡ two_delayed.tasks)
actual_wake_returns_example =
    actual_wake_returns two_delayed two_delayed-WellFormed λ q. omega (arith, none_waiting q)
  where
    none_waiting : (q : ℕ) → ring_size (ring_of idle q) ≡ 0
    none_waiting q =
        sym (length-contents 0 max_task_num (ring_of idle q) ((new-WellFormed {F = ℕ}).rings q))
        ∙ ap length (new-waiting ℕ q)

abbrev busy_runtime : Runtime ℕ
busy_runtime = record { executor = one_task; cids = IndexAllocator.new max_cid_num }

remove_task-Removed_example :
    (r' : Runtime ℕ) × (Executor.remove_task busy_runtime 3 ≡ ret r') × Removed busy_runtime 3 r'
remove_task-Removed_example =
    remove_task-Removed busy_runtime 3 one_task-WellFormed (Bitmap.new-IsValid max_cid_num)
      (omega arith) (unfold registered in omega arith)
