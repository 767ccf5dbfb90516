-- ===== src/AsyncLib/Interrupt.antt =====
-- The vectors of user interrupts: handing them out to coroutines, and waking the coroutines when
-- interrupts arrive.
use native.Mathlib.Decide.{ℕ_discrete}
use native.Mathlib.Nat.{pow-suc}
use rust_root_task_demo.Common.{
  Bool-cases, ==_iff, arith, inr, inl, sym, ◌∙◌, ◌%◌, ◌/◌, panic, ret, Outcome, ok, ltb_of_lt,
  ==_eq, ==_ne, some, none, Option, refl, suc, zero, if◌then◌else◌, ◌==◌, ◌∷◌, ◌↔◌, ◌⊎◌, ◌≡◌, ◌<◌,
  ◌^◌, ◌+◌, ℕ,
}
use rust_root_task_demo.Common.Bits.{bit}
use rust_root_task_demo.Common.Words.{set_bit}
use rust_root_task_demo.Utils.IndexAllocator
use rust_root_task_demo.Utils.IndexAllocator.{IndexAllocator}
use rust_root_task_demo.Utils.IndexAllocator.Bitmap.{used, IsValid}
use rust_root_task_demo.Utils.IndexAllocator.Laws.{Allocates, allocate-Allocates, full, fresh}
use rust_root_task_demo.Executor.{delay_wake}
use rust_root_task_demo.AsyncLib.{
  World, max_uint_vec, lookup, register_recv_cid, register_vec, wake_recv_coroutine,
  wake_registered, handle_irqs, uintr_handler,
}
use rust_root_task_demo.AsyncLib.Woken.{
  Woken, AllMapped, zero-Woken, this_vec, mapped_above, wakes_odd, wakes_even,
}

module _ {ℓ} {F : Type ℓ} where
  -- Every vector handed out has a coroutine.
  pub record Mapped (w : World F) : Type 0 where
    pub valid : IsValid max_uint_vec w.uint_vec_allocator
    pub mapped :
        (vec : ℕ)
        → vec < max_uint_vec
        → used w.uint_vec_allocator vec ≡ 1
        → (cid : ℕ) × (lookup vec w.wake_map ≡ some cid)

  -- What `register_recv_cid` does: with every vector in use, nothing; otherwise the lowest free
  -- vector is handed out for the coroutine.
  pub data Registers (w : World F) (cid : ℕ) : Outcome (Option ℕ × World F) → Type ℓ where
    no_vec :
        ((vec : ℕ) → vec < max_uint_vec → used w.uint_vec_allocator vec ≡ 1)
        → Registers w cid (ret (none, w))
    registered :
        (vec : ℕ) (w' : World F)
        → vec < max_uint_vec
        → used w.uint_vec_allocator vec ≡ 0
        → ((v : ℕ) → v < vec → used w.uint_vec_allocator v ≡ 1)
        → ((v : ℕ) → lookup v w'.wake_map ≡ (if vec == v then some cid else lookup v w.wake_map))
        → Mapped w'
        → Registers w cid (ret (some vec, w'))

  module _ (w : World F) (m : Mapped w) (cid : ℕ) where
    with_vec : ℕ → IndexAllocator → World F
    with_vec vec ids = record w { uint_vec_allocator = ids; wake_map = (vec, cid) ∷ w.wake_map }

    with_vec-Mapped :
        (vec : ℕ) (ids : IndexAllocator)
        → ((j : ℕ) → used ids j ≡ (if vec == j then 1 else used w.uint_vec_allocator j))
        → IsValid max_uint_vec ids
        → Mapped (with_vec vec ids)
    unfolding with_vec lookup
    with_vec-Mapped vec ids marks ok_ids = record {
      valid = ok_ids;
      mapped = λ v lt u. elim (ℕ_discrete vec v) [
        | yes same ↦ rw (==_eq vec v same) (cid, refl)
        | no apart ↦
            rw (==_ne vec v apart) (m.mapped v lt (rw (← u, marks v, ==_ne vec v apart) refl))
      ];
    }

    register_found :
        (o : Outcome (Option ℕ × IndexAllocator))
        → Allocates max_uint_vec w.uint_vec_allocator o
        → IndexAllocator.allocate max_uint_vec w.uint_vec_allocator ≡ o
        → Registers w cid (register_recv_cid w cid)
    unfolding register_recv_cid register_vec with_vec lookup
    register_found (ret (none, _)) (full used_up) e = rw e (no_vec used_up)
    register_found (ret (some _, _)) (fresh vec ids lt free below marks valid) e = rw e (
        registered vec (with_vec vec ids) lt free below (λ v. refl)
          (with_vec-Mapped vec ids marks valid))
    register_found panic a e = elim a [ ]

    -- In a thread whose vectors in use all have a coroutine, `register_recv_cid` does not panic:
    -- with all 64 vectors in use it returns `None` and changes nothing; otherwise it returns the
    -- lowest free vector, maps it and no other to the coroutine, and every vector in use still has
    -- a coroutine.
    pub register_recv_cid-Registers : Registers w cid (register_recv_cid w cid)
    register_recv_cid-Registers =
        register_found (IndexAllocator.allocate max_uint_vec w.uint_vec_allocator)
          (allocate-Allocates max_uint_vec w.uint_vec_allocator m.valid) refl

  -- The thread with other delayed wakes
  abbrev pub with_delays : World F → ℕ → World F
  with_delays w d = record w { executor = record (w.executor) { delay_wake_cids = d } }

  wakes_one :
      (w : World F) (vec cid : ℕ)
      → cid < 64
      → lookup vec w.wake_map ≡ some cid
      → wake_recv_coroutine w vec
        ≡ ret (ok tt, with_delays w (set_bit w.executor.delay_wake_cids cid))
  unfolding wake_recv_coroutine wake_registered delay_wake
  wakes_one w vec cid lt found = rw (found, ltb_of_lt cid 64 lt) refl

  handle_irqs_lem :
      (fuel bit_index local : ℕ) (w : World F)
      → local < 2 ^ fuel
      → AllMapped w.wake_map bit_index local
      → (d : ℕ) × (handle_irqs fuel bit_index local w ≡ ret (with_delays w d))
        × ((j : ℕ)
            → (bit d j ≡ 1)
              ↔ ((bit w.executor.delay_wake_cids j ≡ 1) ⊎ Woken w.wake_map bit_index local j))
  unfolding handle_irqs
  handle_irqs_lem zero bit_index local w small all =
      let none_left : local ≡ 0 = omega (arith, small) in
      (
        w.executor.delay_wake_cids,
        rw (==_eq local 0 none_left) refl,
        λ j. ((λ h. inl h), elim [ inl h ↦ h | inr h ↦ absurd (zero-Woken none_left h) ]),
      )
  handle_irqs_lem (suc fuel) bit_index local w small all = elim (Bool-cases (local == 0)) [
    | inl none_left ↦ (
      w.executor.delay_wake_cids,
      rw none_left refl,
      λ j. (
        (λ h. inl h),
        elim [ inl h ↦ h | inr h ↦ absurd (zero-Woken ((==_iff local 0).0 none_left) h) ],
      ),
    )
    | inr some_left ↦ elim (Bool-cases (local % 2 == 1)) [
      | inl odd ↦
          let one : local % 2 ≡ 1 = (==_iff (local % 2) 1).0 odd in
          let (cid, lt, found) = all 0 (unfold bit in one) in
          let here : lookup bit_index w.wake_map ≡ some cid =
            sym (this_vec w.wake_map bit_index) ∙ found in
          let delays = set_bit w.executor.delay_wake_cids cid in
          let (d, returns, bits) =
            handle_irqs_lem fuel (bit_index + 1) (local / 2) (with_delays w delays)
              (omega (arith, small, pow-suc 2 fuel))
              (mapped_above w.wake_map bit_index local all) in
          (
            d,
            rw (some_left, odd, wakes_one w bit_index cid lt here) returns,
            λ j.
                wakes_odd w.wake_map bit_index local cid w.executor.delay_wake_cids d j one here
                  (bits j),
          )
      | inr even ↦
          let (d, returns, bits) =
            handle_irqs_lem fuel (bit_index + 1) (local / 2) w
              (omega (arith, small, pow-suc 2 fuel))
              (mapped_above w.wake_map bit_index local all) in
          (
            d,
            rw (some_left, even) returns,
            λ j.
                wakes_even w.wake_map bit_index local w.executor.delay_wake_cids d j
                  (λ one. ground (arith, even, one)) (bits j),
          )
    ]
  ]

  -- `uintr_handler` with a word of interrupts that all have a coroutine with an id below 64, and
  -- with its counter below the largest word: it returns 0, counts one, and adds to the delayed wakes
  -- exactly the ids of those coroutines. Nothing else changes; the 64 rounds of the loop are enough.
  pub uintr_handler_lem :
      (w : World F) (irqs : ℕ)
      → irqs < 2 ^ 64
      → w.uint_trigger + 1 < 2 ^ 64
      → AllMapped w.wake_map 0 irqs
      → (d : ℕ) × (uintr_handler w irqs
          ≡ ret (0, with_delays (record w { uint_trigger = w.uint_trigger + 1 }) d))
        × ((j : ℕ)
            → (bit d j ≡ 1) ↔ ((bit w.executor.delay_wake_cids j ≡ 1) ⊎ Woken w.wake_map 0 irqs j))
  unfolding uintr_handler
  uintr_handler_lem w irqs small counts all =
      let (d, returns, bits) =
        handle_irqs_lem 64 0 irqs (record w { uint_trigger = w.uint_trigger + 1 }) small all in
      (d, rw (ltb_of_lt (w.uint_trigger + 1) (2 ^ 64) counts, returns) refl, bits)
