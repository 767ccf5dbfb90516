-- ===== src/Executor/Keeps/Fetch.antt =====
-- What `fetch` of crates/example/async_runtime/src/executor.rs keeps, on every branch that returns.
use native.Mathlib.Decide.{dec_lt}
use rust_root_task_demo.Common.{
  false, Bool, ap, panic, ret, Outcome, Bool-cases, arith, [], List, some, none, Option, inr, inl,
  subst, refl, ◌∙◌, if◌then◌else◌, ◌>>=◌, ◌==◌, ◌∷◌, ◌≡◌, ◌<◌, ℕ,
}
use rust_root_task_demo.Common.Words.{IsLowestOne}
use rust_root_task_demo.Utils.BitMap64
use rust_root_task_demo.Utils.BitMap64.{member, find_first_one_lem}
use rust_root_task_demo.Coroutine.{Coroutine}
use rust_root_task_demo.Executor.{Executor, max_prio_num, actual_wake, fetch, fetch_at}
use rust_root_task_demo.Executor.Invariant.{waiting, task_of}
use rust_root_task_demo.Executor.Dispatch.{All}
use rust_root_task_demo.Executor.Fetch.{
  fetch_at_empty, fetch_at_stale, fetch_at_runs, popped, popped-WellFormed, waiting-popped,
}
use rust_root_task_demo.Executor.Keeps.{
  IsSlot, IsSafe, Keeps, Keeps-itself, Keeps-trans, shorter-IsSafe, actual_wake-Keeps,
}

module _ {ℓ} {F : Type ℓ} where
  -- `fetch` at one priority always returns.
  fetch_at-Keeps :
      (e : Executor F) (p : ℕ)
      → IsSafe e
      → p < max_prio_num
      → (t : Option (Coroutine F)) × ((e' : Executor F) × (fetch_at e p ≡ ret (t, e')) × Keeps e e')
  fetch_at-Keeps e p s low = at_front (waiting e p) refl
    where
      at_task :
          (c : ℕ) (rest : List ℕ) (front : waiting e p ≡ c ∷ rest)
          → IsSlot c
          → (o : Option (Coroutine F)) → task_of e c ≡ o
          → (t : Option (Coroutine F)) × ((e' : Executor F) × (fetch_at e p ≡ ret (t, e'))
              × Keeps e e')
      at_task c rest front lt none gone = (
        none,
        (
          popped e s.well_formed p low c rest front,
          fetch_at_stale e s.well_formed p low c rest front lt gone,
          record {
            safe =
                shorter-IsSafe e (popped e s.well_formed p low c rest front) p c rest s front
                  (waiting-popped e s.well_formed p low c rest front)
                  (unfold popped in
                    popped-WellFormed e s.well_formed p low c rest front e.prio_bitmap e.current
                      s.well_formed.bits λ q. inl refl);
            same_tasks = unfold popped in refl;
            same_num = unfold popped in refl;
          },
        ),
      )
      at_task c rest front lt (some t) found =
          let (e', returns, f) = fetch_at_runs e s.well_formed p low c rest front t lt found in
          (
            some t,
            (
              e',
              returns,
              record {
                safe = shorter-IsSafe e e' p c rest s front f.queue f.well_formed;
                same_tasks = f.same_tasks;
                same_num = f.same_num;
              },
            ),
          )

      at_front :
          (xs : List ℕ)
          → waiting e p ≡ xs
          → (t : Option (Coroutine F)) × ((e' : Executor F) × (fetch_at e p ≡ ret (t, e'))
              × Keeps e e')
      at_front [] h = (none, (e, fetch_at_empty e s.well_formed p low h, Keeps-itself e s))
      at_front (c ∷ rest) h =
          at_task c rest h ((subst (All IsSlot) h (s.in_slots p)).0) (task_of e c) refl

  same_executor :
      {o : Outcome (Option (Coroutine F) × Executor F)} (t t' : Option (Coroutine F))
      (a a' : Executor F)
      → o ≡ ret (t, a)
      → o ≡ ret (t', a')
      → a ≡ a'
  same_executor t t' a a' h h' = cc

  fetch_found :
      (e : Executor F)
      → IsSafe e
      → (t : Option (Coroutine F)) (e' : Executor F)
      → (if BitMap64.find_first_one e.prio_bitmap == 64
          then ret (none, e)
          else fetch_at e (BitMap64.find_first_one e.prio_bitmap))
        ≡ ret (t, e')
      → Keeps e e'
  fetch_found e s t e' eq = elim (Bool-cases ((BitMap64.find_first_one e.prio_bitmap) == 64)) [
    | inl none_set ↦
        let same : e ≡ e' =
          same_executor none t e e'
            (ap
              (λ (b : Bool).
                if b then ret (none, e) else fetch_at e (BitMap64.find_first_one e.prio_bitmap))
              none_set)
            eq in
        subst (Keeps e) same (Keeps-itself e s)
    | inr some_set ↦
        let (t₁, (e₁, returns, k)) =
          fetch_at-Keeps e (BitMap64.find_first_one e.prio_bitmap) s (low some_set) in
        let same : e₁ ≡ e' =
          same_executor t₁ t e₁ e'
            (ap
                (λ (b : Bool).
                  if b then ret (none, e) else fetch_at e (BitMap64.find_first_one e.prio_bitmap))
                some_set
              ∙ returns)
            eq in
        subst (Keeps e) same k
  ]
    where
      lowest : IsLowestOne 64 e.prio_bitmap.word (BitMap64.find_first_one e.prio_bitmap)
      lowest = find_first_one_lem e.prio_bitmap

      low :
          ((BitMap64.find_first_one e.prio_bitmap) == 64) ≡ false
          → (BitMap64.find_first_one e.prio_bitmap) < max_prio_num
      low some_set = elim (dec_lt (BitMap64.find_first_one e.prio_bitmap) max_prio_num) [
        | yes lt ↦ lt
        | no ge ↦ absurd (
            ground (
              arith,
              some_set,
              lowest.within,
              lowest.hit,
              s.well_formed.high_bits (BitMap64.find_first_one e.prio_bitmap),
            ))
      ]

  -- Whatever `fetch` returns, it leaves the executor safe with the same tasks.
  pub fetch-Keeps :
      (e e' : Executor F) (t : Option (Coroutine F)) → IsSafe e → fetch e ≡ ret (t, e') → Keeps e e'
  unfolding fetch
  fetch-Keeps e e' t s eq = woken (actual_wake e) refl eq
    where
      woken :
          (o : Outcome (Executor F))
          → actual_wake e ≡ o
          → (o >>= λ a.
              if BitMap64.find_first_one a.prio_bitmap == 64
              then ret (none, a)
              else fetch_at a (BitMap64.find_first_one a.prio_bitmap))
            ≡ ret (t, e')
          → Keeps e e'
      woken panic h q = cc
      woken (ret a) h q =
          let k = actual_wake-Keeps e a s h in Keeps-trans e a e' k (fetch_found a k.safe t e' q)
