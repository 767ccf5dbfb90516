-- ===== src/Executor/Liveness.antt =====
-- A `spawn` of crates/example/async_runtime/src/executor.rs keeps every bit backed by a queue and
-- every waiting id by a task.
use rust_root_task_demo.Common.{
  ==_self, Bool-cases, Bool, arith, [], List, ap, inl, inr, subst, sym, refl, true, false, length,
  length-append, if◌then◌else◌, ◌==◌, ◌∙◌, ◌++◌, ◌∷◌, ◌≡◌, ◌<◌, ℕ,
}
use rust_root_task_demo.Utils.BitMap64.{member}
use rust_root_task_demo.Utils.RingBuffer.Laws.{length-contents}
use rust_root_task_demo.Executor.{Runtime, max_task_num}
use rust_root_task_demo.Executor.Invariant.{waiting, WellFormed, ring_size, ring_of}
use rust_root_task_demo.Executor.Spawn.{Spawned}
use rust_root_task_demo.Executor.Dispatch.{All_append, All, IsRegistered, IsLive}

module _ {ℓ} {F : Type ℓ} where
  module _ (r r' : Runtime F) (future : F) (prio c : ℕ) (v : WellFormed r.executor)
      (lt : c < max_task_num) (d : Spawned r future prio c r') where
    sizes : (q : ℕ) → length (waiting r'.executor q) ≡ ring_size (ring_of r'.executor q)
    sizes q = length-contents 0 max_task_num (ring_of r'.executor q) (d.well_formed.rings q)

    longer : (q : ℕ) → (prio == q) ≡ true → 0 < ring_size (ring_of r'.executor q)
    longer q same =
        let queue : waiting r'.executor q ≡ waiting r.executor q ++ (c ∷ []) =
          d.queue q
          ∙ ap (λ (b : Bool). if b then waiting r.executor q ++ (c ∷ []) else waiting r.executor q)
              same in
        omega (arith, sizes q, ap length queue, length-append (waiting r.executor q) (c ∷ []))

    as_long :
        (q : ℕ)
        → (prio == q) ≡ false
        → ring_size (ring_of r'.executor q) ≡ ring_size (ring_of r.executor q)
    as_long q apart =
        let queue : waiting r'.executor q ≡ waiting r.executor q =
          d.queue q
          ∙ ap (λ (b : Bool). if b then waiting r.executor q ++ (c ∷ []) else waiting r.executor q)
              apart in
        omega (
          arith,
          sizes q,
          ap length queue,
          length-contents 0 max_task_num (ring_of r.executor q) (v.rings q),
        )

    has_task : (i : ℕ) → IsRegistered r.executor i → IsRegistered r'.executor i
    has_task i (low, (t, found)) = elim (Bool-cases (c == i)) [
      | inl same ↦
          (low, (record { cid = c; prio = prio; future = future }, rw (d.task i, same) refl))
      | inr apart ↦ (low, (t, rw (d.task i, apart) found))
    ]

    have_tasks :
        (xs : List ℕ) → All (IsRegistered r.executor) xs → All (IsRegistered r'.executor) xs
    have_tasks [] h = tt
    have_tasks (x ∷ xs) (first, rest) = (has_task x first, have_tasks xs rest)

    new_task : IsRegistered r'.executor c
    new_task =
        (lt, (record { cid = c; prio = prio; future = future }, rw (d.task c, ==_self c) refl))

    pub Spawned-IsLive : IsLive r.executor → IsLive r'.executor
    Spawned-IsLive live = record {
      backed = λ q h. elim (Bool-cases (prio == q)) [
        | inl same ↦ longer q same
        | inr apart ↦
            let before : member r.executor.prio_bitmap q ≡ 1 =
              sym (
                d.bit_set q
                ∙ ap (λ (b : Bool). if b then 1 else member r.executor.prio_bitmap q) apart)
              ∙ h in
            omega (arith, as_long q apart, live.backed q before)
      ];
      registered = λ q.
          subst (All (IsRegistered r'.executor)) (sym (d.queue q)) (elim (Bool-cases (prio == q)) [
            | inl same ↦ rw same (
                All_append (IsRegistered r'.executor) (waiting r.executor q) c
                  (have_tasks (waiting r.executor q) (live.registered q)) new_task)
            | inr apart ↦ rw apart (have_tasks (waiting r.executor q) (live.registered q))
          ]);
    }
