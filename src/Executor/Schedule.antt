-- ===== src/Executor/Schedule.antt =====
-- Putting an id into the ready queue of a priority: `wake`, and the first half of `spawn`.
use native.Mathlib.Decide.{dec_lt, ℕ_discrete}
use rust_root_task_demo.Common.{
  panic, Outcome, some, none, Option, write_in_range, read_in_range, ret, get_or-set_ne,
  get_or-set_self, length-set, set, Bool-cases, ==_ne, ==_self, arith, [], inr, inl, subst, refl,
  ◌∙◌, if◌then◌else◌, ◌==◌, ◌++◌, ◌∷◌, ◌≡◌, ◌<◌, ◌+◌, ℕ,
}
use rust_root_task_demo.Utils.BitMap64.{
  member, with_set, set_in_range, member-with_set, with_set-IsWord,
}
use rust_root_task_demo.Utils.RingBuffer.{RingBuffer}
use rust_root_task_demo.Utils.RingBuffer.Laws.{written, written-IsValid, contents-written, size_lt}
use rust_root_task_demo.Utils.RingBuffer.Refine.{push_room, push_full}
use rust_root_task_demo.Coroutine.{Coroutine}
use rust_root_task_demo.Executor.{
  Executor, max_task_num, max_prio_num, push_ready, schedule, wake_task, wake,
}
use rust_root_task_demo.Executor.Invariant.{
  fresh_ring, IsRing, ring_size, ring_of, waiting, task_of, WellFormed,
}

module _ {ℓ} {F : Type ℓ} where
  -- There is room for one more id at a priority.
  abbrev pub HasRoom : Executor F → ℕ → Type 0
  HasRoom e p = ring_size (ring_of e p) + 1 < max_task_num

  -- What `schedule` leaves: the id stands last in the queue of its priority, whose bit is set, and
  -- nothing else has changed.
  pub record Scheduled (e : Executor F) (p c : ℕ) (e' : Executor F) : Type ℓ where
    pub queue : (q : ℕ) → waiting e' q ≡ (if p == q then waiting e q ++ (c ∷ []) else waiting e q)
    pub bit_set : (q : ℕ) → member e'.prio_bitmap q ≡ (if p == q then 1 else member e.prio_bitmap q)
    pub same_tasks : e'.tasks ≡ e.tasks
    pub same_num : e'.coroutine_num ≡ e.coroutine_num
    pub same_current : e'.current ≡ e.current
    pub same_delays : e'.delay_wake_cids ≡ e.delay_wake_cids
    pub same_bak : e'.tasks_bak ≡ e.tasks_bak
    pub well_formed : WellFormed e'

  module _ (e : Executor F) (v : WellFormed e) (p c : ℕ) (low : p < max_prio_num)
      (room : HasRoom e p) where
    pub new_ring : RingBuffer ℕ
    new_ring = written 0 max_task_num (ring_of e p) (v.rings p) c

    abbrev pub result : Executor F
    result = record e {
      prio_bitmap = with_set e.prio_bitmap p;
      ready_queue = set e.ready_queue p new_ring;
    }

    ring_of-result : (q : ℕ) → ring_of result q ≡ (if p == q then new_ring else ring_of e q)
    ring_of-result q = elim (ℕ_discrete p q) [
      | yes same ↦
          rw (← same, ==_self p)
            (get_or-set_self e.ready_queue p new_ring fresh_ring (omega (arith, v.queues, low)))
      | no apart ↦ rw (==_ne p q apart) (get_or-set_ne e.ready_queue p q new_ring fresh_ring apart)
    ]

    pub waiting-result :
        (q : ℕ) → waiting result q ≡ (if p == q then waiting e q ++ (c ∷ []) else waiting e q)
    unfolding new_ring
    waiting-result q = elim (ℕ_discrete p q) [
      | yes same ↦
          rw (ring_of-result q, ← same, ==_self p)
            (contents-written 0 max_task_num (ring_of e p) (v.rings p) c room)
      | no apart ↦ rw (ring_of-result q, ==_ne p q apart) refl
    ]

    result-rings : (q : ℕ) → IsRing (ring_of result q)
    unfolding new_ring
    result-rings q = elim (Bool-cases (p == q)) [
      | inl same ↦
          rw (ring_of-result q, same) (written-IsValid 0 max_task_num (ring_of e p) (v.rings p) c)
      | inr apart ↦ rw (ring_of-result q, apart) (v.rings q)
    ]

    result-marked :
        (q : ℕ) → 0 < ring_size (ring_of result q) → member (with_set e.prio_bitmap p) q ≡ 1
    result-marked q some_item = elim (Bool-cases (p == q)) [
      | inl same ↦ rw (member-with_set e.prio_bitmap p q, same) refl
      | inr apart ↦
          rw (member-with_set e.prio_bitmap p q, apart)
            (v.marked q (
              subst (λ (r : RingBuffer ℕ). 0 < ring_size r) (rw (ring_of-result q, apart) refl)
                some_item))
    ]

    pub result-WellFormed : WellFormed result
    result-WellFormed = record {
      queues = length-set e.ready_queue p new_ring ∙ v.queues;
      rings = result-rings;
      bits = with_set-IsWord e.prio_bitmap p (omega arith) v.bits;
      high_bits = λ q h. ground (arith, member-with_set e.prio_bitmap p q, v.high_bits q h);
      slots = v.slots;
      task_prio = v.task_prio;
      task_cid = v.task_cid;
      marked = result-marked;
      delays = v.delays;
    }

    schedule-eq : schedule e p c ≡ ret result
    unfolding schedule push_ready new_ring
    schedule-eq =
        rw
          (
            set_in_range e.prio_bitmap p (omega arith),
            read_in_range e.ready_queue p fresh_ring (omega (arith, v.queues, low)),
            push_room 0 max_task_num (ring_of e p) (v.rings p) c room,
            write_in_range e.ready_queue p (written 0 max_task_num (ring_of e p) (v.rings p) c)
                (omega (arith, v.queues, low)),
          )
          refl

    pub schedule_lem : (e' : Executor F) × (schedule e p c ≡ ret e') × Scheduled e p c e'
    schedule_lem = (
      result,
      schedule-eq,
      record {
        queue = waiting-result;
        bit_set = member-with_set e.prio_bitmap p;
        same_tasks = refl;
        same_num = refl;
        same_current = refl;
        same_delays = refl;
        same_bak = refl;
        well_formed = result-WellFormed;
      },
    )

  -- With no room left the push fails, and its `unwrap` panics.
  pub schedule_full :
      (e : Executor F) (p c : ℕ)
      → WellFormed e
      → p < max_prio_num
      → ring_size (ring_of e p) + 1 ≡ max_task_num
      → schedule e p c ≡ panic
  unfolding schedule push_ready
  schedule_full e p c v low at_end =
      rw
        (
          set_in_range e.prio_bitmap p (omega arith),
          read_in_range e.ready_queue p fresh_ring (omega (arith, v.queues, low)),
          push_full 0 max_task_num (ring_of e p) (v.rings p) c at_end,
        )
        refl

  -- What `wake` does with the task that it finds: nothing without one; otherwise the id goes last
  -- into the queue of the task's priority, or the call panics if that queue is full.
  pub data Wakes (e : Executor F) (c : ℕ) : Outcome (Executor F) → Type ℓ where
    no_task : task_of e c ≡ none → Wakes e c (ret e)
    queued :
        (t : Coroutine F) (e' : Executor F)
        → task_of e c ≡ some t
        → HasRoom e t.prio
        → Scheduled e t.prio c e'
        → Wakes e c (ret e')
    overflow :
        (t : Coroutine F)
        → task_of e c ≡ some t
        → ring_size (ring_of e t.prio) + 1 ≡ max_task_num
        → Wakes e c panic

  wake_found :
      (e : Executor F) (c : ℕ)
      → WellFormed e
      → (o : Option (Coroutine F)) → task_of e c ≡ o
      → Wakes e c (wake_task e c o)
  unfolding wake_task
  wake_found e c v none e₀ = no_task e₀
  wake_found e c v (some t) e₀ =
      let low = v.task_prio c t e₀ in
      elim (dec_lt (ring_size (ring_of e t.prio) + 1) max_task_num) [
        | yes room ↦
            let (e', eq, done) = schedule_lem e v t.prio c low room in
            rw eq (queued t e' e₀ room done)
        | no full ↦
            let at_end : ring_size (ring_of e t.prio) + 1 ≡ max_task_num =
              omega (arith, full, size_lt 0 max_task_num (ring_of e t.prio) (v.rings t.prio)) in
            rw (schedule_full e t.prio c v low at_end) (overflow t e₀ at_end)
      ]

  -- `wake` of an id below `MAX_TASK_NUM` in a well-formed executor: without a task under the id it
  -- changes nothing; otherwise the id goes last into the queue of the task's priority, whose bit is
  -- set, and nothing else changes, or the call panics if that queue is full.
  pub wake-Wakes : (e : Executor F) (c : ℕ) → WellFormed e → c < max_task_num → Wakes e c (wake e c)
  unfolding wake
  wake-Wakes e c v lt =
      rw (read_in_range e.tasks c none (omega (arith, v.slots, lt)))
        (wake_found e c v (task_of e c) refl)

  -- Whatever `wake` returns is well formed.
  pub wake-WellFormed :
      (e e' : Executor F) (c : ℕ)
      → WellFormed e
      → c < max_task_num
      → wake e c ≡ ret e'
      → WellFormed e'
  wake-WellFormed e e' c v lt eq = kept (wake-Wakes e c v lt) eq
    where
      kept : {o : Outcome (Executor F)} → Wakes e c o → o ≡ ret e' → WellFormed e'
      kept (no_task h) q = subst WellFormed (cc) v
      kept (queued t e₁ h room done) q = subst WellFormed (cc) done.well_formed
      kept (overflow t h full) q = cc
