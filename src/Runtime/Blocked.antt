-- ===== src/Runtime/Blocked.antt =====
-- `run_until_blocked` of crates/example/async_runtime/src/executor.rs, while the coroutines that it
-- polls only answer whether they have finished.
use rust_root_task_demo.Common.{
  length, zero, ret, Outcome, Bool-cases, ==_iff, true, false, arith, [], List, none, Option, Bool,
  ap, sym, refl, subst, suc, inl, inr, if◌then◌else◌, ◌==◌, ◌&&◌, ◌∙◌, ◌≡◌, ◌<◌, ℕ,
}
use rust_root_task_demo.Utils.IndexAllocator.Bitmap.{used}
use rust_root_task_demo.Coroutine.{Poll, Coroutine}
use rust_root_task_demo.Executor
use rust_root_task_demo.Executor.{Executor, Runtime, max_prio_num, remove_task}
use rust_root_task_demo.Executor.Invariant.{waiting, task_of}
use rust_root_task_demo.Executor.Drain.{has}
use rust_root_task_demo.Executor.Dispatch.{fetch-Dispatches, runs, idle, Dispatches}
use rust_root_task_demo.Executor.Soundness.{IsSound}
use rust_root_task_demo.Runtime.{run_until_blocked}
use rust_root_task_demo.Runtime.Turns.{turns_idle, IsDistinct, turns}
use rust_root_task_demo.Executor.Starve.{actual_wake-quiet}
use rust_root_task_demo.Runtime.Rounds.{answer, ends, CanRun, Round, round}

module _ {ℓ} {F : Type ℓ} (finishes : F → Bool) where
  -- What the run loop leaves when the ids `ids` had waited: no id waits; of these ids, those whose
  -- coroutine has finished have no task and are free; every other task and id is as it was.
  pub record Ran (ids : List ℕ) (r r' : Runtime F) : Type ℓ where
    pub none_ready : (q : ℕ) → waiting r'.executor q ≡ []
    pub task :
        (i : ℕ)
        → task_of r'.executor i ≡ (
            if has i ids && ends finishes (task_of r.executor i)
            then none
            else task_of r.executor i)
    pub ids_left :
        (i : ℕ)
        → used r'.cids i
          ≡ (if has i ids && ends finishes (task_of r.executor i) then 0 else used r.cids i)
    pub sound : IsSound r'

  -- A round, and the rounds after it.
  Round-Ran :
      (r r₁ r' : Runtime F) (c : ℕ)
      → Round finishes r c r₁
      → has c (turns r₁.executor) ≡ false
      → Ran (turns r₁.executor) r₁ r'
      → Ran (turns r.executor) r r'
  unfolding has
  Round-Ran r r₁ r' c d absent later =
      subst (λ (ids : List ℕ). Ran ids r r') (sym d.first)
        (record {
          none_ready = later.none_ready;
          task = λ i. elim (Bool-cases (c == i)) [
            | inl same ↦ rw (later.task i, d.task i, same, gone i same) refl
            | inr apart ↦ rw (later.task i, d.task i, apart) refl
          ];
          ids_left = λ i. elim (Bool-cases (c == i)) [
            | inl same ↦ rw (later.ids_left i, d.ids_left i, same, gone i same) refl
            | inr apart ↦ rw (later.ids_left i, d.ids_left i, d.task i, apart) refl
          ];
          sound = later.sound;
        })
    where
      gone : (i : ℕ) → (c == i) ≡ true → has i (turns r₁.executor) ≡ false
      gone i same = ap (λ (k : ℕ). has k (turns r₁.executor)) (sym ((==_iff c i).0 same)) ∙ absent

  module _ (poll : Runtime F → F → Outcome (Poll × Runtime F))
      (answers : (r : Runtime F) (f : F) → poll r f ≡ ret (answer finishes f, r)) where
    idle_Ran :
        (r : Runtime F)
        → CanRun finishes r
        → ((q : ℕ) → waiting r.executor q ≡ [])
        → Ran (turns r.executor) r r
    unfolding has
    idle_Ran r run none_left =
        subst (λ (ids : List ℕ). Ran ids r r) (sym (turns_idle r.executor none_left))
          (record {
            none_ready = none_left;
            task = λ i. refl;
            ids_left = λ i. refl;
            sound = run.sound;
          })

    -- In a sound runtime with no delayed wakes, where every bit stands for a queue that is not empty,
    -- every waiting id has a task and none waits twice, and if polling a coroutine leaves the runtime
    -- as it is and answers by its future whether it has finished, then `run_until_blocked` ends within
    -- one round more than ids wait: no id waits any more; of those that did, the coroutines that have
    -- finished have lost their tasks and their ids are free; every other task and id is as it was; and
    -- the runtime is sound.
    pub run_until_blocked-Ran :
        (fuel : ℕ) (r : Runtime F)
        → CanRun finishes r
        → length (turns r.executor) < fuel
        → (r' : Runtime F) × (run_until_blocked poll fuel r ≡ ret r') × Ran (turns r.executor) r r'
    unfolding run_until_blocked
    run_until_blocked-Ran zero r run enough = absurd (omega (arith, enough))
    run_until_blocked-Ran (suc fuel) r run enough =
        after (λ r₁ run₁ enough₁. run_until_blocked-Ran fuel r₁ run₁ enough₁)
          (Executor.fetch r.executor) refl
          (fetch-Dispatches r.executor r.executor (actual_wake-quiet r.executor run.quiet)
            run.sound.safe.well_formed run.live)
      where
        after :
            ((r₁ : Runtime F)
              → CanRun finishes r₁
              → length (turns r₁.executor) < fuel
              → (r' : Runtime F) × (run_until_blocked poll fuel r₁ ≡ ret r')
                × Ran (turns r₁.executor) r₁ r')
            → (o : Outcome (Option (Coroutine F) × Executor F)) → Executor.fetch r.executor ≡ o
            → Dispatches r.executor o
            → (r' : Runtime F) × (run_until_blocked poll (suc fuel) r ≡ ret r')
              × Ran (turns r.executor) r r'
        after later _ fetched (idle none_left) = (r, rw fetched refl, idle_Ran r run none_left)
        after later _ fetched (runs p c rest t e low below front found f live) =
            let (r₁, d, goes) =
              round finishes poll answers r p c rest t e run low below front found fetched f live in
            let (r', returns, b) = later r₁ d.next (omega (arith, enough, ap length d.first)) in
            let absent = (subst IsDistinct d.first run.distinct).0 in
            (r', goes fuel ∙ returns, Round-Ran r r₁ r' c d absent b)
