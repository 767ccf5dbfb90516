-- ===== src/Executor/Returns.antt =====
-- `actual_wake` of crates/example/async_runtime/src/executor.rs comes to its end.
use rust_root_task_demo.Common.{
  Outcome, length-append, Bool-cases, inr, inl, suc, zero, ◌==◌, ◌%◌, ◌/◌, arith, ret, ap, refl,
  ◌∙◌, length, List, [], ◌∷◌, ◌≡◌, ◌<◌, ◌≤◌, ◌+◌, ℕ,
}
use rust_root_task_demo.Common.Words.{clear_bit}
use rust_root_task_demo.Executor.{Executor, max_task_num, wake, actual_wake}
use rust_root_task_demo.Executor.Invariant.{waiting, WellFormed, ring_size, ring_of}
use rust_root_task_demo.Executor.Schedule.{Scheduled, Wakes, wake-Wakes, no_task, queued, overflow}
use rust_root_task_demo.Executor.Drain.{drained, wake_all, actual_wake-eq-wake_all}
use rust_root_task_demo.Executor.Keeps.{quiet, quiet-WellFormed}
use rust_root_task_demo.Utils.RingBuffer.Laws.{length-contents}
use rust_root_task_demo.Executor.Dispatch.{All}

length-drained : (fuel index cids : ℕ) → length (drained fuel index cids) ≤ fuel
unfolding drained
length-drained zero index cids = omega arith
length-drained (suc fuel) index cids = ground (
  arith,
  length-drained fuel (index + 1) (cids / 2),
  length-drained fuel (index + 1) (clear_bit 64 cids index / 2),
)

drained_low :
    (fuel index cids : ℕ) → index + fuel ≤ 64 → All (λ c. c < 64) (drained fuel index cids)
unfolding drained
drained_low zero index cids fits = tt
drained_low (suc fuel) index cids fits = elim (Bool-cases (cids % 2 == 0)) [
  | inl even ↦ rw even (drained_low fuel (index + 1) (cids / 2) (omega (arith, fits)))
  | inr odd ↦ rw odd (
    omega (arith, fits),
    drained_low fuel (index + 1) (clear_bit 64 cids index / 2) (omega (arith, fits)),
  )
]

module _ {ℓ} {F : Type ℓ} where
  -- Room for `n` more ids at every priority
  abbrev pub HasRoomFor : ℕ → Executor F → Type 0
  HasRoomFor n e = (q : ℕ) → ring_size (ring_of e q) + n < max_task_num

  -- Without a panic, with the same tasks and no new delayed wakes
  record Woken (e e' : Executor F) : Type ℓ where
    well_formed : WellFormed e'
    same_tasks : e'.tasks ≡ e.tasks
    same_delays : e'.delay_wake_cids ≡ e.delay_wake_cids

  Scheduled-room :
      (n : ℕ) (e e' : Executor F) (p c : ℕ)
      → WellFormed e
      → Scheduled e p c e'
      → HasRoomFor (suc n) e
      → HasRoomFor n e'
  Scheduled-room n e e' p c v d room q = ground (
    arith,
    size_before,
    size_after,
    room q,
    ap length (d.queue q),
    length-append (waiting e q) (c ∷ []),
  )
    where
      size_before : length (waiting e q) ≡ ring_size (ring_of e q)
      size_before = length-contents 0 max_task_num (ring_of e q) (v.rings q)

      size_after : length (waiting e' q) ≡ ring_size (ring_of e' q)
      size_after = length-contents 0 max_task_num (ring_of e' q) (d.well_formed.rings q)

  wake_with_room :
      (n : ℕ) (e : Executor F) (c : ℕ)
      → WellFormed e
      → c < 64
      → HasRoomFor (suc n) e
      → (e' : Executor F) × (wake e c ≡ ret e') × Woken e e' × HasRoomFor n e'
  wake_with_room n e c v low room = cases (wake-Wakes e c v (omega (arith, low))) refl
    where
      cases :
          {o : Outcome (Executor F)}
          → Wakes e c o
          → wake e c ≡ o
          → (e' : Executor F) × (wake e c ≡ ret e') × Woken e e' × HasRoomFor n e'
      cases (no_task h) eq = (
        e,
        eq,
        record { well_formed = v; same_tasks = refl; same_delays = refl },
        λ q. omega (arith, room q),
      )
      cases (queued t e' h _ d) eq = (
        e',
        eq,
        record {
          well_formed = d.well_formed;
          same_tasks = d.same_tasks;
          same_delays = d.same_delays;
        },
        Scheduled-room n e e' t.prio c v d room,
      )
      cases (overflow t h full) eq = absurd (omega (arith, full, room t.prio))

  wake_all_returns :
      (ids : List ℕ) (n : ℕ) (e : Executor F)
      → WellFormed e
      → All (λ c. c < 64) ids
      → length ids ≤ n
      → HasRoomFor n e
      → (e' : Executor F) × (wake_all ids e ≡ ret e') × Woken e e'
  unfolding wake_all
  wake_all_returns [] n e v low few room =
      (e, refl, record { well_formed = v; same_tasks = refl; same_delays = refl })
  wake_all_returns (c ∷ cs) zero e v low few room = absurd (omega (arith, few))
  wake_all_returns (c ∷ cs) (suc n) e v (lt, low) few room =
      let (e₁, wakes, w, room₁) = wake_with_room n e c v lt room in
      let (e', others, w') =
        wake_all_returns cs n e₁ w.well_formed low (omega (arith, few)) room₁ in
      (
        e',
        rw wakes others,
        record {
          well_formed = w'.well_formed;
          same_tasks = w'.same_tasks ∙ w.same_tasks;
          same_delays = w'.same_delays ∙ w.same_delays;
        },
      )

  -- In a well-formed executor with room for 64 more ids at every priority, `actual_wake` returns,
  -- with no delayed wakes left and the same tasks, and the executor stays well formed.
  pub actual_wake_returns :
      (e : Executor F)
      → WellFormed e
      → HasRoomFor 64 e
      → (e' : Executor F) × (actual_wake e ≡ ret e')
        × WellFormed e'
        × (e'.delay_wake_cids ≡ 0)
        × (e'.tasks ≡ e.tasks)
  actual_wake_returns e v room =
      let (e', returns, w) =
        wake_all_returns (drained 64 0 e.delay_wake_cids) 64 (quiet e) (quiet-WellFormed e v)
          (drained_low 64 0 e.delay_wake_cids (omega arith)) (length-drained 64 0 e.delay_wake_cids)
          room in
      (e', actual_wake-eq-wake_all e v.delays ∙ returns, w.well_formed, w.same_delays, w.same_tasks)
