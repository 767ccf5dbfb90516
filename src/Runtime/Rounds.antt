-- ===== src/Runtime/Rounds.antt =====
-- A round of `run_until_blocked` of crates/example/async_runtime/src/executor.rs: a coroutine is
-- fetched, polled, and removed if it has finished.
use rust_root_task_demo.Common.{
  get_or, ◌≤◌, ret, Outcome, Bool-cases, ==_iff, get_or, true, false, get_or-past, arith, [], List,
  some, none, Option, Bool, ap, sym, refl, subst, suc, inl, inr, if◌then◌else◌, ◌==◌, ◌&&◌, ◌∙◌,
  ◌∷◌, ◌≡◌, ◌<◌, ℕ,
}
use native.Mathlib.Decide.{dec_lt}
use rust_root_task_demo.Utils.BitMap64.{BitMap64, member}
use rust_root_task_demo.Utils.RingBuffer.{RingBuffer}
use rust_root_task_demo.Utils.IndexAllocator.Bitmap.{used}
use rust_root_task_demo.Coroutine.{Poll, ready, pending, Coroutine}
use rust_root_task_demo.Executor
use rust_root_task_demo.Executor.{Executor, Runtime, max_prio_num, remove_task}
use rust_root_task_demo.Executor.Invariant.{
  waiting, task_of, WellFormed, ring_size, fresh_ring, ids_of, no_ids,
}
use rust_root_task_demo.Executor.Drain.{has}
use rust_root_task_demo.Executor.Fetch.{Fetched}
use rust_root_task_demo.Executor.Dispatch.{All, IsRegistered, IsLive}
use rust_root_task_demo.Executor.Keeps.Fetch.{fetch-Keeps}
use rust_root_task_demo.Executor.Remove.{Removed, remove_task-Removed}
use rust_root_task_demo.Executor.Soundness.{IsSound, kept-IsSound, Removed-IsSound, some_counted}
use rust_root_task_demo.Executor.Reach.{found_in_slots}
use rust_root_task_demo.Runtime.{run_until_blocked}
use rust_root_task_demo.Runtime.Turns.{turns_same, IsDistinct, turns, turns_taken, absent_at}

module _ {ℓ} {F : Type ℓ} (finishes : F → Bool) where
  -- What polling a future answers, when it only depends on the future.
  abbrev pub answer : F → Poll
  answer f = if finishes f then ready else pending

  abbrev pub ends : Option (Coroutine F) → Bool
  ends none = false
  ends (some t) = finishes t.future

  -- A thread that the loop can go on with.
  pub record CanRun (r : Runtime F) : Type ℓ where
    pub sound : IsSound r
    pub live : IsLive r.executor
    pub quiet : r.executor.delay_wake_cids ≡ 0
    pub distinct : IsDistinct (turns r.executor)

  -- One round: the first id has its turn.
  pub record Round (r : Runtime F) (c : ℕ) (r' : Runtime F) : Type ℓ where
    pub next : CanRun r'
    pub first : turns r.executor ≡ c ∷ turns r'.executor
    pub task :
        (i : ℕ)
        → task_of r'.executor i
          ≡ (if (c == i) && ends (task_of r.executor i) then none else task_of r.executor i)
    pub ids_left :
        (i : ℕ)
        → used r'.cids i ≡ (if (c == i) && ends (task_of r.executor i) then 0 else used r.cids i)

  high_empty : (e : Executor F) (p : ℕ) → WellFormed e → max_prio_num ≤ p → waiting e p ≡ []
  high_empty e p v high =
      ap ids_of (get_or-past e.ready_queue p fresh_ring (omega (arith, high, v.queues))) ∙ no_ids

  absent_everywhere :
      (e : Executor F) (c p : ℕ)
      → WellFormed e
      → has c (turns e) ≡ false
      → has c (waiting e p) ≡ false
  unfolding has
  absent_everywhere e c p v absent = elim (dec_lt p max_prio_num) [
    | yes low ↦ absent_at e c p absent low
    | no high ↦ ap (has c) (high_empty e p v (omega (arith, high)))
  ]

  -- The ids other than one that has lost its task still have theirs.
  still_registered :
      (r r' : Runtime F) (c : ℕ)
      → Removed r c r'
      → (xs : List ℕ) → has c xs ≡ false
      → All (IsRegistered r.executor) xs
      → All (IsRegistered r'.executor) xs
  unfolding has
  still_registered r r' c d [] absent all = tt
  still_registered r r' c d (x ∷ xs) absent ((lt, (t, found)), all) =
      let apart : (c == x) ≡ false = ground (arith, absent) in
      let kept : task_of r'.executor x ≡ task_of r.executor x = rw (d.task x, apart) refl in
      ((lt, (t, kept ∙ found)), still_registered r r' c d xs (ground (arith, absent)) all)

  Removed-IsLive :
      (r r' : Runtime F) (c : ℕ)
      → WellFormed r.executor
      → IsLive r.executor
      → has c (turns r.executor) ≡ false
      → Removed r c r'
      → IsLive r'.executor
  Removed-IsLive r r' c v live absent d = record {
    backed = λ p h.
        subst (λ (qs : List (RingBuffer ℕ)). 0 < ring_size (get_or qs p fresh_ring))
          (sym d.same_queues)
          (live.backed p (ap (λ (b : BitMap64). member b p) (sym d.same_bits) ∙ h));
    registered = λ p. subst (All (IsRegistered r'.executor)) (sym (d.queue p)) (
        still_registered r r' c d (waiting r.executor p) (absent_everywhere r.executor c p v absent)
          (live.registered p));
  }

  module _ (poll : Runtime F → F → Outcome (Poll × Runtime F))
      (answers : (r : Runtime F) (f : F) → poll r f ≡ ret (answer f, r)) where
    -- A round with a coroutine, up to the next one
    pub round :
        (r : Runtime F) (p c : ℕ) (rest : List ℕ) (t : Coroutine F) (e : Executor F)
        → CanRun r
        → p < max_prio_num
        → ((q : ℕ) → q < p → waiting r.executor q ≡ [])
        → waiting r.executor p ≡ c ∷ rest
        → task_of r.executor c ≡ some t
        → Executor.fetch r.executor ≡ ret (some t, e)
        → Fetched r.executor p c rest e
        → IsLive e
        → (r' : Runtime F) × Round r c r'
          × ((fuel : ℕ) → run_until_blocked poll (suc fuel) r ≡ run_until_blocked poll fuel r')
    unfolding run_until_blocked
    round r p c rest t e run low below front found fetched f live =
        elim (Bool-cases (finishes t.future)) [
          | inl over ↦
              let (r', removes, d) =
                remove_task-Removed r₁ c f.well_formed run.sound.ids_valid
                  (found_in_slots e c t f.well_formed found₁)
                  (some_counted r₁ c t sound₁ (found_in_slots e c t f.well_formed found₁) found₁) in
              let same = turns_same e r'.executor d.queue in
              (
                r',
                record {
                  next = record {
                    sound =
                        Removed-IsSound r₁ r' c t sound₁ (found_in_slots e c t f.well_formed found₁)
                          found₁ d;
                    live = Removed-IsLive r₁ r' c f.well_formed live distinct.0 d;
                    quiet = d.same_delays ∙ f.same_delays ∙ run.quiet;
                    distinct = subst IsDistinct (sym same) distinct.1;
                  };
                  first = taken ∙ ap (λ (xs : List ℕ). c ∷ xs) (sym same);
                  task = λ i. d.task i ∙ gone_task over i;
                  ids_left = λ i. d.ids i ∙ gone_id over i;
                },
                λ fuel. rw (fetched, answers r₁ t.future, over, same_cid, removes) refl,
              )
          | inr goes_on ↦ (
            r₁,
            record {
              next = record {
                sound = sound₁;
                live = live;
                quiet = f.same_delays ∙ run.quiet;
                distinct = distinct.1;
              };
              first = taken;
              task = λ i. same_task i ∙ kept_task goes_on i;
              ids_left = kept_id goes_on;
            },
            λ fuel. rw (fetched, answers r₁ t.future, goes_on) refl,
          )
        ]
      where
        r₁ : Runtime F
        r₁ = record r { executor = e }

        same_task : (i : ℕ) → task_of e i ≡ task_of r.executor i
        same_task i = ap (λ (ts : List (Option (Coroutine F))). get_or ts i none) f.same_tasks

        found₁ : task_of e c ≡ some t
        found₁ = same_task c ∙ found

        sound₁ : IsSound r₁
        sound₁ =
            kept-IsSound r e run.sound (fetch-Keeps r.executor e (some t) run.sound.safe fetched)

        taken : turns r.executor ≡ c ∷ turns e
        taken = turns_taken r.executor e p c rest below front f.queue low

        distinct : (has c (turns e) ≡ false) × IsDistinct (turns e)
        distinct = subst IsDistinct taken run.distinct

        same_cid : t.cid ≡ c
        same_cid = run.sound.safe.well_formed.task_cid c t found

        ends_at : (i : ℕ) → (c == i) ≡ true → ends (task_of r.executor i) ≡ finishes t.future
        ends_at i same =
            ap (λ (j : ℕ). ends (task_of r.executor j)) (sym ((==_iff c i).0 same)) ∙ ap ends found

        over_here :
            finishes t.future ≡ true
            → (i : ℕ) → ((c == i) && ends (task_of r.executor i)) ≡ (c == i)
        over_here over i = elim (Bool-cases (c == i)) [
          | inl same ↦ ground (arith, same, ends_at i same, over)
          | inr apart ↦ rw apart refl
        ]

        none_over :
            finishes t.future ≡ false → (i : ℕ) → ((c == i) && ends (task_of r.executor i)) ≡ false
        none_over goes_on i = elim (Bool-cases (c == i)) [
          | inl same ↦ ground (arith, same, ends_at i same, goes_on)
          | inr apart ↦ rw apart refl
        ]

        gone_task :
            finishes t.future ≡ true
            → (i : ℕ)
            → (if c == i then none else task_of e i)
              ≡ (if (c == i) && ends (task_of r.executor i) then none else task_of r.executor i)
        gone_task over i = rw (over_here over i, same_task i) refl

        gone_id :
            finishes t.future ≡ true
            → (i : ℕ)
            → (if c == i then 0 else used r.cids i)
              ≡ (if (c == i) && ends (task_of r.executor i) then 0 else used r.cids i)
        gone_id over i = rw (over_here over i) refl

        kept_task :
            finishes t.future ≡ false
            → (i : ℕ)
            → task_of r.executor i
              ≡ (if (c == i) && ends (task_of r.executor i) then none else task_of r.executor i)
        kept_task goes_on i = rw (none_over goes_on i) refl

        kept_id :
            finishes t.future ≡ false
            → (i : ℕ)
            → used r.cids i ≡ (if (c == i) && ends (task_of r.executor i) then 0 else used r.cids i)
        kept_id goes_on i = rw (none_over goes_on i) refl
