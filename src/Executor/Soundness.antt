-- ===== src/Executor/Soundness.antt =====
-- The invariant of the executor of crates/example/async_runtime/src/executor.rs, with the ids and the
-- count of its coroutines.
use rust_root_task_demo.Common.{
  Option-cases, Bool-cases, ltb_of_lt, inr, inl, subst, refl, ◌<◌, get_or-replicate, get_or, arith,
  List, some, none, Option, Bool, ap, sym, ◌∙◌, if◌then◌else◌, ◌==◌, ◌≡◌, ℕ,
}
use rust_root_task_demo.Utils.IndexAllocator.{IndexAllocator}
use rust_root_task_demo.Utils.IndexAllocator.Bitmap.{used, IsValid}
use rust_root_task_demo.Coroutine.{Coroutine, max_cid_num}
use rust_root_task_demo.Executor.{Executor, Runtime, new, max_task_num}
use rust_root_task_demo.Executor.Invariant.{waiting, task_of}
use rust_root_task_demo.Executor.Spawn.{Spawned}
use rust_root_task_demo.Executor.Remove.{Removed}
use rust_root_task_demo.Executor.Dispatch.{All, All_append}
use rust_root_task_demo.Executor.Keeps.{IsSlot, IsSafe, Keeps, new-IsSafe}
use rust_root_task_demo.Executor.Count.{
  occupied, count_below, count_below_write, count_below-none, count_below_pos,
}

module _ {ℓ} {F : Type ℓ} where
  -- The invariant: the executor is well formed and its waiting ids have slots; the ids are valid;
  -- every task holds its id; and the count of coroutines is the number of tasks.
  pub record IsSound (r : Runtime F) : Type ℓ where
    pub safe : IsSafe r.executor
    pub ids_valid : IsValid max_cid_num r.cids
    pub holds : (c : ℕ) (t : Coroutine F) → task_of r.executor c ≡ some t → used r.cids c ≡ 1
    pub counted : r.executor.coroutine_num ≡ count_below (task_of r.executor) max_task_num

  pub new-IsSound :
      (ids : IndexAllocator)
      → IsValid max_cid_num ids
      → IsSound (record { executor = new {F = F}; cids = ids })
  unfolding new
  new-IsSound ids valid = record {
    safe = new-IsSafe;
    ids_valid = valid;
    holds = λ c t h. absurd (no_task c t h);
    counted = sym (none_counted max_task_num);
  }
    where
      empty : (c : ℕ) → task_of (new {F = F}) c ≡ none
      empty c = get_or-replicate {A = Option (Coroutine F)} max_task_num c none

      no_task : (c : ℕ) (t : Coroutine F) → task_of new c ≡ some t → ⊥
      no_task c t h = let e = empty c in cc

      none_counted : (n : ℕ) → count_below (task_of (new {F = F})) n ≡ 0
      none_counted n = count_below-none (task_of (new {F = F})) empty n

  -- A step of the executor alone that keeps its tasks.
  pub kept-IsSound :
      (r : Runtime F) (e : Executor F)
      → IsSound r
      → Keeps r.executor e
      → IsSound (record r { executor = e })
  kept-IsSound r e s k = record {
    safe = k.safe;
    ids_valid = s.ids_valid;
    holds = λ c t h.
        s.holds c t
          (ap (λ (ts : List (Option (Coroutine F))). get_or ts c none) (sym k.same_tasks) ∙ h);
    counted =
        k.same_num
        ∙ s.counted
        ∙ ap
            (λ (ts : List (Option (Coroutine F))).
              count_below (λ (i : ℕ). get_or ts i none) max_task_num)
            (sym k.same_tasks);
  }

  pub Spawned-IsSound :
      (r r' : Runtime F) (future : F) (prio c : ℕ)
      → IsSound r
      → IsSlot c
      → used r.cids c ≡ 0
      → Spawned r future prio c r'
      → IsSound r'
  Spawned-IsSound r r' future prio c s lt free d = record {
    safe = record {
      well_formed = d.well_formed;
      in_slots = λ q. subst (All IsSlot) (sym (d.queue q)) (elim (Bool-cases (prio == q)) [
        | inl same ↦ rw same (All_append IsSlot (waiting r.executor q) c (s.safe.in_slots q) lt)
        | inr apart ↦ rw apart (s.safe.in_slots q)
      ]);
    };
    ids_valid = d.ids_valid;
    holds = λ i t h. elim (Bool-cases (c == i)) [
      | inl same ↦ rw (d.ids i, same) refl
      | inr apart ↦
          rw (d.ids i, apart)
            (s.holds i t (
              sym (
                d.task i
                ∙ ap
                    (λ (b : Bool).
                      if b
                      then some (record { cid = c; prio = prio; future = future })
                      else task_of r.executor i)
                    apart)
              ∙ h))
    ];
    counted = ground (
      arith,
      s.counted,
      d.one_more,
      unused,
      ltb_of_lt c max_task_num lt,
      count_below_write (task_of r.executor) (task_of r'.executor) c
          (some (record { cid = c; prio = prio; future = future })) d.task max_task_num,
    );
  }
    where
      unused : occupied (task_of r.executor c) ≡ 0
      unused = elim (Option-cases (task_of r.executor c)) [
        | inl none_there ↦ rw none_there refl
        | inr (t, found) ↦ absurd (omega (arith, free, s.holds c t found))
      ]

  pub Removed-IsSound :
      (r r' : Runtime F) (c : ℕ) (t : Coroutine F)
      → IsSound r
      → IsSlot c
      → task_of r.executor c ≡ some t
      → Removed r c r'
      → IsSound r'
  Removed-IsSound r r' c t s lt found d = record {
    safe = record {
      well_formed = d.well_formed;
      in_slots = λ q. subst (All IsSlot) (sym (d.queue q)) (s.safe.in_slots q);
    };
    ids_valid = d.ids_valid;
    holds = λ i u h. elim (Bool-cases (c == i)) [
      | inl same ↦ let gone : task_of r'.executor i ≡ none = rw (d.task i, same) refl in absurd (cc)
      | inr apart ↦
          rw (d.ids i, apart)
            (s.holds i u (
              sym (d.task i ∙ ap (λ (b : Bool). if b then none else task_of r.executor i) apart)
              ∙ h))
    ];
    counted = ground (
      arith,
      s.counted,
      d.one_less,
      ap occupied found,
      ltb_of_lt c max_task_num lt,
      count_below_write (task_of r.executor) (task_of r'.executor) c none d.task max_task_num,
    );
  }

  -- A count that takes in an occupied slot is positive.
  pub some_counted :
      (r : Runtime F) (c : ℕ) (t : Coroutine F)
      → IsSound r
      → IsSlot c
      → task_of r.executor c ≡ some t
      → 0 < r.executor.coroutine_num
  some_counted r c t s lt found =
      omega (arith, s.counted, count_below_pos (task_of r.executor) c t found max_task_num lt)
