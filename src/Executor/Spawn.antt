-- ===== src/Executor/Spawn.antt =====
-- `spawn` of crates/example/async_runtime/src/executor.rs, on each of its branches.
use native.Mathlib.Decide.{dec_lt, ℕ_discrete}
use native.Mathlib.Nat.{mod-eq_of_lt}
use rust_root_task_demo.Common.{
  write_out_of_range, write_in_range, get_or, length, ap, ◌^◌, Option, inr, inl, refl, ◌⊎◌, panic,
  ret, Outcome, get_or-set_ne, get_or-set_self, length-set, set, ==_ne, ==_self, arith, [], List,
  some, none, ◌∙◌, if◌then◌else◌, ◌==◌, ◌++◌, ◌∷◌, ◌≡◌, ◌<◌, ◌≤◌, ◌+◌, ℕ,
}
use rust_root_task_demo.Utils.IndexAllocator
use rust_root_task_demo.Utils.IndexAllocator.Bitmap.{used, IsValid}
use rust_root_task_demo.Utils.IndexAllocator.Laws.{Allocates, allocate-Allocates, full, fresh}
use rust_root_task_demo.Utils.RingBuffer.Laws.{size_lt}
use rust_root_task_demo.Coroutine
use rust_root_task_demo.Coroutine.{Coroutine, max_cid_num}
use rust_root_task_demo.Utils.BitMap64.{member}
use rust_root_task_demo.Executor.{
  IndexAllocator, Executor, Runtime, max_task_num, max_prio_num, spawn,
}
use rust_root_task_demo.Executor.Invariant.{ring_size, ring_of, waiting, task_of, WellFormed}
use rust_root_task_demo.Executor.Schedule.{Scheduled, schedule_lem, schedule_full}

module _ {ℓ} {F : Type ℓ} where
  -- What a `spawn` that returns leaves: the new task stands under its id, the id waits last at its
  -- priority, and there is one coroutine more.
  pub record Spawned (r : Runtime F) (future : F) (prio c : ℕ) (r' : Runtime F) : Type ℓ where
    pub queue :
        (q : ℕ)
        → waiting r'.executor q
          ≡ (if prio == q then waiting r.executor q ++ (c ∷ []) else waiting r.executor q)
    pub task :
        (i : ℕ)
        → task_of r'.executor i ≡ (
            if c == i
            then some (record { cid = c; prio = prio; future = future })
            else task_of r.executor i)
    pub bit_set :
        (q : ℕ)
        → member r'.executor.prio_bitmap q
          ≡ (if prio == q then 1 else member r.executor.prio_bitmap q)
    pub same_current : r'.executor.current ≡ r.executor.current
    pub same_delays : r'.executor.delay_wake_cids ≡ r.executor.delay_wake_cids
    pub one_more : r'.executor.coroutine_num ≡ r.executor.coroutine_num + 1
    pub ids : (j : ℕ) → used r'.cids j ≡ (if c == j then 1 else used r.cids j)
    pub well_formed : WellFormed r'.executor
    pub ids_valid : IsValid max_cid_num r'.cids

  pub data Spawns (r : Runtime F) (future : F) (prio : ℕ) : Outcome (ℕ × Runtime F) → Type ℓ where
    no_id : ((j : ℕ) → j < max_cid_num → used r.cids j ≡ 1) → Spawns r future prio panic
    no_slot :
        (c : ℕ)
        → max_task_num ≤ c
        → ((j : ℕ) → j < c → used r.cids j ≡ 1)
        → Spawns r future prio panic
    no_room : ring_size (ring_of r.executor prio) + 1 ≡ max_task_num → Spawns r future prio panic
    spawned :
        (c : ℕ) (r' : Runtime F)
        → c < max_task_num
        → used r.cids c ≡ 0
        → ((j : ℕ) → j < c → used r.cids j ≡ 1)
        → Spawned r future prio c r'
        → Spawns r future prio (ret (c, r'))

  -- A task under its own id, and the books of `spawn`, leave an executor well formed.
  module _ (e : Executor F) (v : WellFormed e) (t : Coroutine F) (n : ℕ)
      (bak : List (Coroutine F)) where
    unfoldable pub registered : Executor F
    registered = record e { tasks = set e.tasks t.cid (some t); coroutine_num = n; tasks_bak = bak }

    task_of-registered :
        t.cid < max_task_num
        → (i : ℕ) → task_of registered i ≡ (if t.cid == i then some t else task_of e i)
    unfolding registered
    task_of-registered lt i = elim (ℕ_discrete t.cid i) [
      | yes same ↦
          rw (← same, ==_self t.cid)
            (get_or-set_self e.tasks t.cid (some t) none (omega (arith, v.slots, lt)))
      | no apart ↦ rw (==_ne t.cid i apart) (get_or-set_ne e.tasks t.cid i (some t) none apart)
    ]

    -- Any task there is the new one under its id, or an old one.
    task_cases :
        t.cid < max_task_num
        → (i : ℕ) (u : Coroutine F) → task_of registered i ≡ some u
        → ((t.cid ≡ i) × (u ≡ t)) ⊎ (task_of e i ≡ some u)
    task_cases lt i u h = elim (ℕ_discrete t.cid i) [
      | yes same ↦
          let there : some t ≡ some u = rw (← h, task_of-registered lt i, same, ==_self i) refl in
          inl (same, cc)
      | no apart ↦ inr (rw (← h, task_of-registered lt i, ==_ne t.cid i apart) refl)
    ]

    pub registered-WellFormed : t.cid < max_task_num → t.prio < max_prio_num → WellFormed registered
    registered-WellFormed lt low =
        unfold registered in
        record {
          queues = v.queues;
          rings = v.rings;
          bits = v.bits;
          high_bits = v.high_bits;
          slots = length-set e.tasks t.cid (some t) ∙ v.slots;
          task_prio = λ i u h. prio_in i u (task_cases lt i u h);
          task_cid = λ i u h. cid_in i u (task_cases lt i u h);
          marked = v.marked;
          delays = v.delays;
        }
      where
        prio_in :
            (i : ℕ) (u : Coroutine F)
            → ((t.cid ≡ i) × (u ≡ t)) ⊎ (task_of e i ≡ some u)
            → u.prio < max_prio_num
        prio_in i u (inl (_, same)) = rw same low
        prio_in i u (inr old) = v.task_prio i u old

        cid_in :
            (i : ℕ) (u : Coroutine F) → ((t.cid ≡ i) × (u ≡ t)) ⊎ (task_of e i ≡ some u) → u.cid ≡ i
        cid_in i u (inl (at, same)) = rw same at
        cid_in i u (inr old) = v.task_cid i u old

  module _ (r : Runtime F) (future : F) (prio : ℕ) (v : WellFormed r.executor)
      (low : prio < max_prio_num) where
    abbrev task_at : ℕ → Coroutine F
    task_at c = record { cid = c; prio = prio; future = future }

    below_2_32 : (c : ℕ) → c < max_cid_num → c < 2 ^ 32
    below_2_32 c lt = omega (arith, lt)

    slot_in :
        (e' : Executor F) {c : ℕ}
        → Scheduled r.executor prio c e'
        → (i : ℕ) → i < max_task_num
        → i < length e'.tasks
    slot_in e' done i lt = omega (arith, done.well_formed.slots, lt)

    spawned_runtime : Executor F → ℕ → IndexAllocator → Runtime F
    spawned_runtime e' c ids = record {
      executor = record e' {
        tasks = set e'.tasks c (some (task_at c));
        coroutine_num = e'.coroutine_num + 1;
        tasks_bak = e'.tasks_bak ++ (task_at c ∷ []);
      };
      cids = ids;
    }

    spawned_runtime-Spawned :
        (e' : Executor F) (c : ℕ) (ids : IndexAllocator) (done : Scheduled r.executor prio c e')
        → c < max_task_num
        → ((j : ℕ) → used ids j ≡ (if c == j then 1 else used r.cids j))
        → IsValid max_cid_num ids
        → Spawned r future prio c (spawned_runtime e' c ids)
    unfolding spawned_runtime registered
    spawned_runtime-Spawned e' c ids done lt marks valid = record {
      queue = done.queue;
      task = λ i.
          task_of-registered e' done.well_formed (task_at c) 0 [] lt i
          ∙ ap
              (λ (ts : List (Option (Coroutine F))).
                if c == i then some (task_at c) else get_or ts i none)
              done.same_tasks;
      bit_set = done.bit_set;
      same_current = done.same_current;
      same_delays = done.same_delays;
      one_more = ap (λ (n : ℕ). n + 1) done.same_num;
      ids = marks;
      well_formed =
          registered-WellFormed e' done.well_formed (task_at c) (e'.coroutine_num + 1)
            (e'.tasks_bak ++ (task_at c ∷ [])) lt low;
      ids_valid = valid;
    }

    spawn_found :
        (o : Outcome (Option ℕ × IndexAllocator))
        → Allocates max_cid_num r.cids o
        → IndexAllocator.allocate max_cid_num r.cids ≡ o
        → Spawns r future prio (spawn r future prio)
    unfolding spawn Coroutine.new Coroutine.generate spawned_runtime
    spawn_found (ret (none, _)) (full used_up) e = rw e (no_id used_up)
    spawn_found (ret (some _, _)) (fresh c ids lt free below marks valid) e =
        rw (e, mod-eq_of_lt (below_2_32 c lt))
          (elim (dec_lt (ring_size (ring_of r.executor prio) + 1) max_task_num) [
            | yes room ↦
                let (e', eq, done) = schedule_lem r.executor v prio c low room in
                rw eq (elim (dec_lt c max_task_num) [
                  | yes in_slots ↦
                      rw (write_in_range e'.tasks c (some (task_at c)) (slot_in e' done c in_slots))
                        (spawned c (spawned_runtime e' c ids) in_slots free below
                          (spawned_runtime-Spawned e' c ids done in_slots marks valid))
                  | no past ↦
                      rw
                        (write_out_of_range e'.tasks c (some (task_at c))
                          (omega (arith, past, done.well_formed.slots)))
                        (no_slot c (omega (arith, past)) below)
                ])
            | no none_left ↦
                let at_end : ring_size (ring_of r.executor prio) + 1 ≡ max_task_num = omega (
                  arith,
                  none_left,
                  size_lt 0 max_task_num (ring_of r.executor prio) (v.rings prio),
                ) in
                rw (schedule_full r.executor prio c v low at_end) (no_room at_end)
          ])
    spawn_found panic a e = elim a [ ]

    -- `spawn` at a priority below 8 in a well-formed runtime: it panics when every id is in use,
    -- when the lowest free id is not below `MAX_TASK_NUM`, or when the queue has no room; otherwise
    -- it returns the lowest free id, with the task registered under it and the id queued last.
    pub spawn-Spawns : IsValid max_cid_num r.cids → Spawns r future prio (spawn r future prio)
    spawn-Spawns valid =
        spawn_found (IndexAllocator.allocate max_cid_num r.cids)
          (allocate-Allocates max_cid_num r.cids valid) refl
