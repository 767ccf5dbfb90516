-- ===== src/Executor/Reach.antt =====
-- The runtimes that the operations of crates/example/async_runtime/src/executor.rs lead to from a
-- new one. A thread calls them one after the other.
use native.Mathlib.Decide.{dec_lt}
use rust_root_task_demo.Common.{
  read, Outcome, get_or-past, assert, ltb_of_le, read_out_of_range, Outcome-cases, panic,
  Option-cases, ltb_of_lt, inr, inl, subst, refl, ◌<◌, ◌≤◌, ret, ltb, arith, some, none, Option,
  Bool, ap, ◌∙◌, ◌≡◌, ℕ,
}
use rust_root_task_demo.Common.Words.{set_bit, set_bit_lt}
use rust_root_task_demo.Utils.BitMap64
use rust_root_task_demo.Utils.IndexAllocator.{IndexAllocator}
use rust_root_task_demo.Utils.IndexAllocator.Bitmap.{IsValid}
use rust_root_task_demo.Coroutine
use rust_root_task_demo.Coroutine.{Coroutine, max_cid_num}
use rust_root_task_demo.Executor.{
  Executor, Runtime, new, max_task_num, max_prio_num, spawn, schedule, push_ready, wake,
  actual_wake, delay_wake, switch_possible, fetch, remove_task,
}
use rust_root_task_demo.Executor.Invariant.{task_of, WellFormed}
use rust_root_task_demo.Executor.Spawn.{Spawns, spawn-Spawns, spawned, no_id, no_slot, no_room}
use rust_root_task_demo.Executor.Remove.{remove_task-Removed}
use rust_root_task_demo.Executor.Keeps.{IsSlot, IsSafe, Keeps, wake-Keeps, actual_wake-Keeps}
use rust_root_task_demo.Executor.Keeps.Fetch.{fetch-Keeps}
use rust_root_task_demo.Executor.Soundness.{
  IsSound, new-IsSound, kept-IsSound, Spawned-IsSound, Removed-IsSound, some_counted,
}

module _ {ℓ} {F : Type ℓ} where
  -- One call that returns. A coroutine is removed only when the run loop has polled its task, so
  -- the task is there.
  pub data Step (r : Runtime F) : Runtime F → Type ℓ where
    spawns :
        (future : F) (prio c : ℕ) (r' : Runtime F) → spawn r future prio ≡ ret (c, r') → Step r r'
    wakes :
        (c : ℕ) (e : Executor F) → wake r.executor c ≡ ret e → Step r (record r { executor = e })
    delays :
        (c : ℕ) (e : Executor F)
        → delay_wake r.executor c ≡ ret e
        → Step r (record r { executor = e })
    switches :
        (possible : Bool) (e : Executor F)
        → switch_possible r.executor ≡ ret (possible, e)
        → Step r (record r { executor = e })
    fetches :
        (t : Option (Coroutine F)) (e : Executor F)
        → fetch r.executor ≡ ret (t, e)
        → Step r (record r { executor = e })
    removes :
        (c : ℕ) (t : Coroutine F) (r' : Runtime F)
        → task_of r.executor c ≡ some t
        → remove_task r c ≡ ret r'
        → Step r r'

  -- The runtimes that a thread may reach from a new executor, with the ids that others have taken.
  pub data Reachable : Runtime F → Type ℓ where
    starts :
        (ids : IndexAllocator)
        → IsValid max_cid_num ids
        → Reachable (record { executor = new; cids = ids })
    goes : (r r' : Runtime F) → Reachable r → Step r r' → Reachable r'

  -- At a priority past the last one `schedule` panics.
  schedule_past :
      (e : Executor F) (p c : ℕ) → WellFormed e → max_prio_num ≤ p → schedule e p c ≡ panic
  unfolding schedule push_ready
  schedule_past e p c v past = elim (Outcome-cases (BitMap64.set e.prio_bitmap p)) [
    | inl panics ↦ rw panics refl
    | inr (bits, sets) ↦
        rw (sets, read_out_of_range e.ready_queue p (omega (arith, past, v.queues))) refl
  ]

  spawn_low :
      (r r' : Runtime F) (future : F) (prio c : ℕ)
      → WellFormed r.executor
      → spawn r future prio ≡ ret (c, r')
      → prio < max_prio_num
  unfolding spawn
  spawn_low r r' future prio c v eq = elim (dec_lt prio max_prio_num) [
    | yes lt ↦ lt
    | no past ↦ let fails = panics (omega (arith, past)) in absurd (cc)
  ]
    where
      panics : max_prio_num ≤ prio → spawn r future prio ≡ panic
      panics past = elim (Outcome-cases (Coroutine.new r.cids future prio)) [
        | inl fails ↦ rw fails refl
        | inr ((task, ids), makes) ↦ rw (makes, schedule_past r.executor prio task.cid v past) refl
      ]

  pub found_in_slots :
      (e : Executor F) (c : ℕ) (t : Coroutine F) → WellFormed e → task_of e c ≡ some t → IsSlot c
  found_in_slots e c t v found = elim (dec_lt c max_task_num) [
    | yes lt ↦ lt
    | no past ↦ let gone = get_or-past e.tasks c none (omega (arith, past, v.slots)) in absurd (cc)
  ]

  delay_wake-Keeps : (e e' : Executor F) (c : ℕ) → IsSafe e → delay_wake e c ≡ ret e' → Keeps e e'
  unfolding delay_wake
  delay_wake-Keeps e e' c s eq = elim (dec_lt c 64) [
    | yes lt ↦ subst (Keeps e) (same lt) (record {
      safe = record { well_formed = delayed lt; in_slots = s.in_slots };
      same_tasks = refl;
      same_num = refl;
    })
    | no past ↦
        let fails : assert (ltb c 64) ≡ panic = ap assert (ltb_of_le c 64 (omega (arith, past))) in
        absurd (cc)
  ]
    where
      same : c < 64 → record e { delay_wake_cids = set_bit e.delay_wake_cids c } ≡ e'
      same lt = let passes : assert (ltb c 64) ≡ ret tt = ap assert (ltb_of_lt c 64 lt) in cc

      delayed : c < 64 → WellFormed (record e { delay_wake_cids = set_bit e.delay_wake_cids c })
      delayed lt = record {
        queues = s.well_formed.queues;
        rings = s.well_formed.rings;
        bits = s.well_formed.bits;
        high_bits = s.well_formed.high_bits;
        slots = s.well_formed.slots;
        task_prio = s.well_formed.task_prio;
        task_cid = s.well_formed.task_cid;
        marked = s.well_formed.marked;
        delays = set_bit_lt 64 e.delay_wake_cids c lt s.well_formed.delays;
      }

  -- `switch_possible` leaves what `actual_wake` leaves.
  switch_possible-actual_wake :
      (e e' : Executor F) (possible : Bool)
      → switch_possible e ≡ ret (possible, e')
      → actual_wake e ≡ ret e'
  unfolding switch_possible
  switch_possible-actual_wake e e' possible eq = elim (Outcome-cases (actual_wake e)) [
    | inl fails ↦ let all_fails : switch_possible e ≡ panic = rw fails refl in absurd (cc)
    | inr (a, wakes_them) ↦ elim (Option-cases a.current) [
      | inl idle ↦
          let all_fails : switch_possible e ≡ panic = rw (wakes_them, idle) refl in absurd (cc)
      | inr (cid, at) ↦ elim (Outcome-cases (read a.tasks cid)) [
        | inl fails ↦
            let all_fails : switch_possible e ≡ panic = rw (wakes_them, at, fails) refl in
            absurd (cc)
        | inr (none, reads) ↦
            let all_fails : switch_possible e ≡ panic = rw (wakes_them, at, reads) refl in
            absurd (cc)
        | inr (some task, reads) ↦
            let returns : switch_possible e
                ≡ ret (ltb (BitMap64.find_first_one a.prio_bitmap) task.prio, a) =
              rw (wakes_them, at, reads) refl in
            let same : a ≡ e' = cc in wakes_them ∙ ap ret same
      ]
    ]
  ]

  step-IsSound : (r r' : Runtime F) → IsSound r → Step r r' → IsSound r'
  step-IsSound r r' s (spawns future prio c _ eq) =
      sound (spawn-Spawns r future prio s.safe.well_formed low s.ids_valid) eq
    where
      low : prio < max_prio_num
      low = spawn_low r r' future prio c s.safe.well_formed eq

      sound : {o : Outcome (ℕ × Runtime F)} → Spawns r future prio o → o ≡ ret (c, r') → IsSound r'
      sound (spawned c₁ r₁ lt free below d) q =
          subst IsSound (cc) (Spawned-IsSound r r₁ future prio c₁ s lt free d)
      sound (no_id h) q = cc
      sound (no_slot c₁ past h) q = cc
      sound (no_room h) q = cc
  step-IsSound r r' s (wakes c e eq) = kept-IsSound r e s (wake-Keeps r.executor e c s.safe eq)
  step-IsSound r r' s (delays c e eq) =
      kept-IsSound r e s (delay_wake-Keeps r.executor e c s.safe eq)
  step-IsSound r r' s (switches possible e eq) =
      kept-IsSound r e s (
        actual_wake-Keeps r.executor e s.safe
          (switch_possible-actual_wake r.executor e possible eq))
  step-IsSound r r' s (fetches t e eq) = kept-IsSound r e s (fetch-Keeps r.executor e t s.safe eq)
  step-IsSound r r' s (removes c t _ found eq) =
      let lt = found_in_slots r.executor c t s.safe.well_formed found in
      let some_left : 0 < r.executor.coroutine_num = some_counted r c t s lt found in
      let (r₁, returns, d) = remove_task-Removed r c s.safe.well_formed s.ids_valid lt some_left in
      subst IsSound (cc) (Removed-IsSound r r₁ c t s lt found d)

  -- In every runtime that calls of `spawn`, `wake`, `delay_wake`, `switch_possible`, `fetch` and
  -- `remove_task` of a registered coroutine lead to from a new executor, the executor is well
  -- formed, every waiting id has a slot, every task holds its id, and `coroutine_num` is the number
  -- of tasks.
  pub Reachable-IsSound : (r : Runtime F) → Reachable r → IsSound r
  Reachable-IsSound r (starts ids valid) = new-IsSound ids valid
  Reachable-IsSound _ (goes r r' before step) = step-IsSound r r' (Reachable-IsSound r before) step
