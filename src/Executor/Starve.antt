-- ===== src/Executor/Starve.antt =====
-- `fetch` of crates/example/async_runtime/src/executor.rs when the most urgent queue holds an
-- id that has no task any more.
use rust_root_task_demo.Common.{
  ret, ==_ne, ==_self, arith, [], none, Bool, inl, ap, sym, refl, ◌∙◌, if◌then◌else◌, ◌==◌, ◌∷◌,
  ◌≡◌, ◌<◌, ℕ,
}
use rust_root_task_demo.Utils.BitMap64
use rust_root_task_demo.Executor.{
  Executor, actual_wake, fetch, fetch_at, drain, max_prio_num, max_task_num,
}
use rust_root_task_demo.Executor.Invariant.{waiting, task_of, WellFormed}
use rust_root_task_demo.Executor.Fetch.{
  fetch_at_empty, fetch_at_stale, popped, popped-WellFormed, waiting-popped,
}

module _ {ℓ} {F : Type ℓ} where
  -- Without a delayed wake, `actual_wake` changes nothing.
  pub actual_wake-quiet : (e : Executor F) → e.delay_wake_cids ≡ 0 → actual_wake e ≡ ret e
  unfolding actual_wake drain
  actual_wake-quiet e quiet =
      ap (λ (d : ℕ). drain 64 0 d (record e { delay_wake_cids = 0 })) quiet
      ∙ ap (λ (d : ℕ). ret (record e { delay_wake_cids = d })) (sym quiet)

  -- `fetch` goes on at the priority that the bitmap names.
  fetch-at :
      (e : Executor F) (p : ℕ)
      → e.delay_wake_cids ≡ 0
      → BitMap64.find_first_one e.prio_bitmap ≡ p
      → p < max_prio_num
      → fetch e ≡ fetch_at e p
  unfolding fetch
  fetch-at e p quiet top low =
      rw (actual_wake-quiet e quiet, top, ==_ne p 64 (λ same. omega (arith, same, low))) refl

  -- Without a delayed wake, in a well-formed executor whose most urgent marked queue holds one id
  -- that has no task, `fetch` returns `None`, leaves the other queues as they are, and from then on
  -- returns `None` and changes nothing, whatever waits in those queues.
  pub stale-Starves :
      (e : Executor F) (p c : ℕ)
      → WellFormed e
      → e.delay_wake_cids ≡ 0
      → BitMap64.find_first_one e.prio_bitmap ≡ p
      → p < max_prio_num
      → waiting e p ≡ c ∷ []
      → c < max_task_num
      → task_of e c ≡ none
      → (e' : Executor F) × (fetch e ≡ ret (none, e'))
        × (fetch e' ≡ ret (none, e'))
        × ((q : ℕ) → waiting e' q ≡ (if p == q then [] else waiting e q))
  stale-Starves e p c v quiet top low front lt no_task = (
    popped e v p low c [] front,
    fetch-at e p quiet top low ∙ fetch_at_stale e v p low c [] front lt no_task,
    fetch-at (popped e v p low c [] front) p (unfold popped in quiet) (unfold popped in top) low
        ∙ fetch_at_empty (popped e v p low c [] front) left p low (
            waiting-popped e v p low c [] front p
            ∙ ap (λ (b : Bool). if b then [] else waiting e p) (==_self p)),
    waiting-popped e v p low c [] front,
  )
    where
      left : WellFormed (popped e v p low c [] front)
      left =
          unfold popped in
          popped-WellFormed e v p low c [] front e.prio_bitmap e.current v.bits λ q. inl refl
