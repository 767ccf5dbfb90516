-- ===== src/Executor/Remove.antt =====
-- `remove_task`: a coroutine that has ended gives its slot and its id back.
use native.Mathlib.Decide.{ℕ_discrete}
use rust_root_task_demo.Common.{
  write_in_range, ret, get_or-set_ne, get_or-set_self, length-set, set, Bool-cases, ltb_of_lt,
  ==_ne, ==_self, arith, some, none, inr, inl, refl, ◌∙◌, if◌then◌else◌, ◌==◌, ◌≡◌, ◌<◌, ◌-◌, ◌+◌,
  ℕ,
}
use rust_root_task_demo.Utils.IndexAllocator.Bitmap.{used, IsValid}
use rust_root_task_demo.Utils.IndexAllocator.Laws.{release_lem}
use rust_root_task_demo.Coroutine
use rust_root_task_demo.Coroutine.{Coroutine, max_cid_num}
use rust_root_task_demo.Executor.{Executor, Runtime, max_task_num, remove_task}
use rust_root_task_demo.Executor.Invariant.{waiting, task_of, WellFormed}

module _ {ℓ} {F : Type ℓ} where
  -- What `remove_task` leaves: the id has no task and is free, the count is one less, and all else
  -- is as it was. The id may still wait in a queue.
  pub record Removed (r : Runtime F) (c : ℕ) (r' : Runtime F) : Type ℓ where
    pub task : (i : ℕ) → task_of r'.executor i ≡ (if c == i then none else task_of r.executor i)
    pub same_queues : r'.executor.ready_queue ≡ r.executor.ready_queue
    pub same_bits : r'.executor.prio_bitmap ≡ r.executor.prio_bitmap
    pub same_current : r'.executor.current ≡ r.executor.current
    pub same_delays : r'.executor.delay_wake_cids ≡ r.executor.delay_wake_cids
    pub same_bak : r'.executor.tasks_bak ≡ r.executor.tasks_bak
    pub queue : (q : ℕ) → waiting r'.executor q ≡ waiting r.executor q
    pub one_less : r'.executor.coroutine_num + 1 ≡ r.executor.coroutine_num
    pub ids : (j : ℕ) → used r'.cids j ≡ (if c == j then 0 else used r.cids j)
    pub well_formed : WellFormed r'.executor
    pub ids_valid : IsValid max_cid_num r'.cids

  module _ (e : Executor F) (v : WellFormed e) (c : ℕ) (lt : c < max_task_num) where
    without : Executor F
    without = record e { tasks = set e.tasks c none; coroutine_num = e.coroutine_num - 1 }

    task_of-without : (i : ℕ) → task_of without i ≡ (if c == i then none else task_of e i)
    unfolding without
    task_of-without i = elim (ℕ_discrete c i) [
      | yes same ↦
          rw (← same, ==_self c) (get_or-set_self e.tasks c none none (omega (arith, v.slots, lt)))
      | no apart ↦ rw (==_ne c i apart) (get_or-set_ne e.tasks c i none none apart)
    ]

    -- Any task left was there before.
    task_before : (i : ℕ) (u : Coroutine F) → task_of without i ≡ some u → task_of e i ≡ some u
    task_before i u h = elim (Bool-cases (c == i)) [
      | inl same ↦
          let gone : task_of without i ≡ none = rw (task_of-without i, same) refl in absurd (cc)
      | inr apart ↦ rw (← h, task_of-without i, apart) refl
    ]

    without-WellFormed : WellFormed without
    without-WellFormed = record {
      queues = unfold without in v.queues;
      rings = unfold without in v.rings;
      bits = unfold without in v.bits;
      high_bits = unfold without in v.high_bits;
      slots = unfold without in (length-set e.tasks c none ∙ v.slots);
      task_prio = λ i u h. v.task_prio i u (task_before i u h);
      task_cid = λ i u h. v.task_cid i u (task_before i u h);
      marked = unfold without in v.marked;
      delays = unfold without in v.delays;
    }

  -- `remove_task` of an id below `MAX_TASK_NUM` in a well-formed runtime that counts a coroutine does
  -- not panic: the id has no task any more and is free, the count is one less, and the other tasks,
  -- the other ids, the queues, the bits, the current id, the delayed wakes and the list of all tasks
  -- are as before. The runtime stays well formed.
  pub remove_task-Removed :
      (r : Runtime F) (c : ℕ)
      → WellFormed r.executor
      → IsValid max_cid_num r.cids
      → c < max_task_num
      → 0 < r.executor.coroutine_num
      → (r' : Runtime F) × (remove_task r c ≡ ret r') × Removed r c r'
  unfolding remove_task without Coroutine.release
  remove_task-Removed r c v valid lt some_left =
      let (ids, releases, frees, valid') =
        release_lem max_cid_num r.cids valid c (omega (arith, lt)) in
      (
        record { executor = without r.executor v c lt; cids = ids },
        rw
            (
              write_in_range r.executor.tasks c none (omega (arith, v.slots, lt)),
              ltb_of_lt 0 r.executor.coroutine_num some_left,
              releases,
            )
            refl,
        record {
          task = task_of-without r.executor v c lt;
          same_queues = refl;
          same_bits = refl;
          same_current = refl;
          same_delays = refl;
          same_bak = refl;
          queue = λ q. refl;
          one_less = omega (arith, some_left);
          ids = frees;
          well_formed = without-WellFormed r.executor v c lt;
          ids_valid = valid';
        },
      )
