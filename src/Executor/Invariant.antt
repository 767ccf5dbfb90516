-- ===== src/Executor/Invariant.antt =====
-- When an executor is well formed: every ready queue is a valid ring, every queue that is not
-- empty has its bit in the priority bitmap, and every task stands at its own id.
use rust_root_task_demo.Common.{
  ap, [], ◌∙◌, get_or-replicate, length-replicate, replicate, arith, get_or, length, List, some,
  none, Option, ◌≡◌, ◌<◌, ◌≤◌, ◌^◌, ℕ,
}
use rust_root_task_demo.Utils.Window.{window}
use rust_root_task_demo.Utils.BitMap64
use rust_root_task_demo.Utils.BitMap64.{BitMap64, member, IsWord, member-new}
use rust_root_task_demo.Utils.RingBuffer
use rust_root_task_demo.Utils.RingBuffer.{RingBuffer}
use rust_root_task_demo.Utils.RingBuffer.Laws.{IsValid, contents, new-IsValid, size-new}
use rust_root_task_demo.Coroutine.{Coroutine}
use rust_root_task_demo.Executor.{Executor, max_task_num, max_prio_num, new}

abbrev pub fresh_ring : RingBuffer ℕ
fresh_ring = RingBuffer.new 0 max_task_num

abbrev pub IsRing : RingBuffer ℕ → Type 0
IsRing = IsValid 0 max_task_num

abbrev pub ring_size : RingBuffer ℕ → ℕ
ring_size = RingBuffer.size max_task_num

-- The items of a ring of ids, oldest first.
abbrev pub ids_of : RingBuffer ℕ → List ℕ
ids_of = contents 0 max_task_num

module _ {ℓ} {F : Type ℓ} where
  -- The ready queue of a priority.
  abbrev pub ring_of : Executor F → ℕ → RingBuffer ℕ
  ring_of e p = get_or e.ready_queue p fresh_ring

  -- The ids that wait at a priority, oldest first.
  abbrev pub waiting : Executor F → ℕ → List ℕ
  waiting e p = ids_of (ring_of e p)

  -- The task registered under an id.
  abbrev pub task_of : Executor F → ℕ → Option (Coroutine F)
  task_of e c = get_or e.tasks c none

  pub record WellFormed (e : Executor F) : Type ℓ where
    pub queues : length e.ready_queue ≡ max_prio_num
    pub rings : (p : ℕ) → IsRing (ring_of e p)
    pub bits : IsWord e.prio_bitmap
    pub high_bits : (p : ℕ) → max_prio_num ≤ p → member e.prio_bitmap p ≡ 0
    pub slots : length e.tasks ≡ max_task_num
    pub task_prio : (c : ℕ) (t : Coroutine F) → task_of e c ≡ some t → t.prio < max_prio_num
    pub task_cid : (c : ℕ) (t : Coroutine F) → task_of e c ≡ some t → t.cid ≡ c
    pub marked : (p : ℕ) → 0 < ring_size (ring_of e p) → member e.prio_bitmap p ≡ 1
    pub delays : e.delay_wake_cids < 2 ^ 64

  -- A new executor is well formed.
  pub new-WellFormed : WellFormed (new {F = F})
  unfolding new BitMap64.new
  new-WellFormed = record {
    queues = length-replicate max_prio_num fresh_ring;
    rings = λ p.
        rw (get_or-replicate max_prio_num p fresh_ring) (new-IsValid 0 max_task_num (omega arith));
    bits = omega arith;
    high_bits = λ p h. member-new p;
    slots = length-replicate {A = Option (Coroutine F)} max_task_num none;
    task_prio = λ c t h. absurd (no_task c t h);
    task_cid = λ c t h. absurd (no_task c t h);
    marked = λ p h. absurd (no_item p h);
    delays = omega arith;
  }
    where
      no_task : (c : ℕ) (t : Coroutine F) → get_or (replicate max_task_num none) c none ≡ some t → ⊥
      no_task c t h =
          let e : get_or (replicate max_task_num none) c none ≡ none =
            get_or-replicate {A = Option (Coroutine F)} max_task_num c none in
          cc

      no_item :
          (p : ℕ) → 0 < ring_size (get_or (replicate max_prio_num fresh_ring) p fresh_ring) → ⊥
      no_item p h =
          let e : ring_size (get_or (replicate max_prio_num fresh_ring) p fresh_ring) ≡ 0 =
            ap ring_size (get_or-replicate max_prio_num p fresh_ring) ∙ size-new 0 max_task_num in
          omega (arith, h, e)

-- A new ring holds no id.
pub no_ids : ids_of fresh_ring ≡ []
no_ids =
    ap (λ (n : ℕ). window 0 max_task_num fresh_ring.items fresh_ring.start n)
      (size-new 0 max_task_num)

-- Nothing waits in a new executor.
pub new-waiting {ℓ} : (F : Type ℓ) (q : ℕ) → waiting (new {F = F}) q ≡ []
unfolding new
new-waiting F q = rw (get_or-replicate max_prio_num q fresh_ring) no_ids
