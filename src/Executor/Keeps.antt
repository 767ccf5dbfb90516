-- ===== src/Executor/Keeps.antt =====
-- What `wake` and `actual_wake` of crates/example/async_runtime/src/executor.rs keep, on
-- every branch that returns.
pub mod Fetch
use native.Mathlib.Decide.{dec_lt}
use rust_root_task_demo.Common.{
  false, Bool, ap, read_out_of_range, read, panic, ret, Outcome, Bool-cases, arith, [], List, some,
  none, Option, inr, inl, subst, sym, refl, ◌∙◌, if◌then◌else◌, ◌>>=◌, ◌==◌, ◌∷◌, ◌≡◌, ◌<◌, ℕ,
}
use rust_root_task_demo.Common.Words.{IsLowestOne}
use rust_root_task_demo.Utils.BitMap64
use rust_root_task_demo.Utils.BitMap64.{member, find_first_one_lem}
use rust_root_task_demo.Coroutine.{Coroutine}
use rust_root_task_demo.Executor.{
  Executor, new, max_task_num, max_prio_num, wake, wake_task, actual_wake, fetch, fetch_at,
}
use rust_root_task_demo.Executor.Invariant.{
  new-waiting, new-WellFormed, waiting, task_of, WellFormed,
}
use rust_root_task_demo.Executor.Schedule.{Scheduled, Wakes, wake-Wakes, no_task, queued, overflow}
use rust_root_task_demo.Executor.Drain.{wake_all, drained, actual_wake-eq-wake_all}
use rust_root_task_demo.Executor.Dispatch.{All, All_append}
use rust_root_task_demo.Executor.Fetch.{
  fetch_at_empty, fetch_at_stale, fetch_at_runs, popped, popped-WellFormed, waiting-popped,
}

-- The id has a slot for a task.
abbrev pub IsSlot : ℕ → Type 0
IsSlot c = c < max_task_num

module _ {ℓ} {F : Type ℓ} where
  -- A well-formed executor whose waiting ids all have slots.
  pub record IsSafe (e : Executor F) : Type ℓ where
    pub well_formed : WellFormed e
    pub in_slots : (q : ℕ) → All IsSlot (waiting e q)

  -- Safe as before, with the same tasks.
  pub record Keeps (e e' : Executor F) : Type ℓ where
    pub safe : IsSafe e'
    pub same_tasks : e'.tasks ≡ e.tasks
    pub same_num : e'.coroutine_num ≡ e.coroutine_num

  pub Keeps-itself : (e : Executor F) → IsSafe e → Keeps e e
  Keeps-itself e s = record { safe = s; same_tasks = refl; same_num = refl }

  pub Keeps-trans : (a b c : Executor F) → Keeps a b → Keeps b c → Keeps a c
  Keeps-trans a b c k l = record {
    safe = l.safe;
    same_tasks = l.same_tasks ∙ k.same_tasks;
    same_num = l.same_num ∙ k.same_num;
  }

  pub new-IsSafe : IsSafe (new {F = F})
  new-IsSafe = record {
    well_formed = new-WellFormed;
    in_slots = λ q. subst (All IsSlot) (sym (new-waiting F q)) tt;
  }

  -- Queueing an id that has a slot.
  pub Scheduled-Keeps :
      (e e' : Executor F) (p c : ℕ) → IsSafe e → IsSlot c → Scheduled e p c e' → Keeps e e'
  Scheduled-Keeps e e' p c s lt d = record {
    safe = record {
      well_formed = d.well_formed;
      in_slots = λ q. subst (All IsSlot) (sym (d.queue q)) (elim (Bool-cases (p == q)) [
        | inl same ↦ rw same (All_append IsSlot (waiting e q) c (s.in_slots q) lt)
        | inr apart ↦ rw apart (s.in_slots q)
      ]);
    };
    same_tasks = d.same_tasks;
    same_num = d.same_num;
  }

  -- An executor whose queue of `p` has lost its first id.
  pub shorter-IsSafe :
      (e e' : Executor F) (p c : ℕ) (rest : List ℕ)
      → IsSafe e
      → waiting e p ≡ c ∷ rest
      → ((q : ℕ) → waiting e' q ≡ (if p == q then rest else waiting e q))
      → WellFormed e'
      → IsSafe e'
  shorter-IsSafe e e' p c rest s front each v = record {
    well_formed = v;
    in_slots = λ q. subst (All IsSlot) (sym (each q)) (elim (Bool-cases (p == q)) [
      | inl same ↦ rw same ((subst (All IsSlot) front (s.in_slots p)).1)
      | inr apart ↦ rw apart (s.in_slots q)
    ]);
  }

  -- `wake` returns only for an id that has a slot.
  wake_in_slots : (e e' : Executor F) (c : ℕ) → WellFormed e → wake e c ≡ ret e' → IsSlot c
  unfolding wake
  wake_in_slots e e' c v eq = elim (dec_lt c max_task_num) [
    | yes lt ↦ lt
    | no past ↦
        let out : read e.tasks c ≡ panic =
          read_out_of_range e.tasks c (omega (arith, past, v.slots)) in
        absurd (panics (read e.tasks c) out eq)
  ]
    where
      panics : (o : Outcome (Option (Coroutine F))) → o ≡ panic → (o >>= wake_task e c) ≡ ret e' → ⊥
      panics (ret a) h q = cc
      panics panic h q = cc

  pub wake-Keeps : (e e' : Executor F) (c : ℕ) → IsSafe e → wake e c ≡ ret e' → Keeps e e'
  wake-Keeps e e' c s eq = kept (wake-Wakes e c s.well_formed lt) eq
    where
      lt : IsSlot c
      lt = wake_in_slots e e' c s.well_formed eq

      kept : {o : Outcome (Executor F)} → Wakes e c o → o ≡ ret e' → Keeps e e'
      kept (no_task h) q = subst (Keeps e) (cc) (Keeps-itself e s)
      kept (queued t e₁ h room d) q = subst (Keeps e) (cc) (Scheduled-Keeps e e₁ t.prio c s lt d)
      kept (overflow t h full) q = cc

  pub wake_all-Keeps :
      (ids : List ℕ) (e e' : Executor F) → IsSafe e → wake_all ids e ≡ ret e' → Keeps e e'
  unfolding wake_all
  wake_all-Keeps [] e e' s eq = subst (Keeps e) (cc) (Keeps-itself e s)
  wake_all-Keeps (c ∷ cs) e e' s eq =
      each (λ e₁ k q. Keeps-trans e e₁ e' k (wake_all-Keeps cs e₁ e' k.safe q)) (wake e c) refl eq
    where
      each :
          ((e₁ : Executor F) → Keeps e e₁ → wake_all cs e₁ ≡ ret e' → Keeps e e')
          → (o : Outcome (Executor F)) → wake e c ≡ o
          → (o >>= wake_all cs) ≡ ret e'
          → Keeps e e'
      each others panic h q = cc
      each others (ret e₁) h q = others e₁ (wake-Keeps e e₁ c s h) q

  -- Without delayed wakes
  abbrev pub quiet : Executor F → Executor F
  quiet e = record e { delay_wake_cids = 0 }

  pub quiet-WellFormed : (e : Executor F) → WellFormed e → WellFormed (quiet e)
  quiet-WellFormed e v = record {
    queues = v.queues;
    rings = v.rings;
    bits = v.bits;
    high_bits = v.high_bits;
    slots = v.slots;
    task_prio = v.task_prio;
    task_cid = v.task_cid;
    marked = v.marked;
    delays = omega arith;
  }

  quiet-IsSafe : (e : Executor F) → IsSafe e → IsSafe (quiet e)
  quiet-IsSafe e s = record {
    well_formed = quiet-WellFormed e s.well_formed;
    in_slots = s.in_slots;
  }

  pub actual_wake-Keeps : (e e' : Executor F) → IsSafe e → actual_wake e ≡ ret e' → Keeps e e'
  actual_wake-Keeps e e' s eq =
      let k =
        wake_all-Keeps (drained 64 0 e.delay_wake_cids) (quiet e) e' (quiet-IsSafe e s)
          (sym (actual_wake-eq-wake_all e s.well_formed.delays) ∙ eq) in
      record { safe = k.safe; same_tasks = k.same_tasks; same_num = k.same_num }
