-- ===== src/Tests/Utils.antt =====
-- The containers of crates/example/async_runtime/src/utils.rs on concrete values.
use rust_root_task_demo.Common.{
  ret, replicate, length, arith, [], List, refl, if◌then◌else◌, ◌==◌, ◌++◌, ◌∷◌, ◌≡◌, ◌<◌, ◌≤◌, ℕ,
}
use rust_root_task_demo.Common.Words.{test_bit, set_bit}
use rust_root_task_demo.Utils.IndexAllocator
use rust_root_task_demo.Utils.IndexAllocator.{IndexAllocator}
use rust_root_task_demo.Utils.IndexAllocator.Bitmap
use rust_root_task_demo.Utils.IndexAllocator.Bitmap.{used}
use rust_root_task_demo.Utils.IndexAllocator.Laws.{Allocates, allocate-Allocates, release-allocate}
use rust_root_task_demo.Utils.RingBuffer
use rust_root_task_demo.Utils.RingBuffer.Laws
use rust_root_task_demo.Utils.RingBuffer.Refine.{run, run_queue, put, take_one, run_refines}
use rust_root_task_demo.Utils.Queue
use rust_root_task_demo.Utils.SafeRingBuffer
use rust_root_task_demo.Utils.SafeRingBuffer.{SafeRingBuffer}
use rust_root_task_demo.Utils.SafeRingBuffer.Laws.{push_safe_refines, pop_safe_refines}
use rust_root_task_demo.Utils.SafeRingBuffer.Concurrent.{System, Step, Reach, start, later, init}
use rust_root_task_demo.Utils.SafeRingBuffer.Concurrent.Delivery.{delivery}
use rust_root_task_demo.Utils.BitMap4096
use rust_root_task_demo.Utils.BitMap4096.{BitMap4096}
use rust_root_task_demo.Utils.BitMap4096.Laws.{contains, set_lem, clear_lem}
use rust_root_task_demo.Utils.BitMap4096.Find.{Fetches, fetch-Fetches}

abbrev ids : IndexAllocator
ids = IndexAllocator.new 16

allocate-Allocates_example : Allocates 16 ids (IndexAllocator.allocate 16 ids)
allocate-Allocates_example = allocate-Allocates 16 ids (Bitmap.new-IsValid 16)

abbrev one_id : IndexAllocator
one_id = record { bitmap = 1 ∷ 0 ∷ [] }

release-allocate_example :
    (b : IndexAllocator) × (IndexAllocator.release one_id 0 ≡ ret b)
    × ((j : ℕ) → used b j ≡ used ids j)
    × Bitmap.IsValid 16 b
release-allocate_example = release-allocate 16 ids one_id 0 (Bitmap.new-IsValid 16) (
    unfold IndexAllocator.allocate IndexAllocator.find_free IndexAllocator.take_index
      IndexAllocator.new replicate test_bit set_bit in
    refl)

run_refines_example :
    run {A = ℕ} 3 (RingBuffer.new 0 3) (put 7 ∷ put 8 ∷ put 9 ∷ take_one ∷ [])
    ≡ ret (
        run_queue 2
          (Laws.contents 0 3 (RingBuffer.new 0 3))
          (put 7 ∷ put 8 ∷ put 9 ∷ take_one ∷ []))
run_refines_example =
    run_refines 0 3 (put 7 ∷ put 8 ∷ put 9 ∷ take_one ∷ []) (RingBuffer.new 0 3)
      (Laws.new-IsValid 0 3 (omega arith))

abbrev safe_ring : SafeRingBuffer ℕ
safe_ring = SafeRingBuffer.new 0 2

push_safe_refines_example :
    (r' : SafeRingBuffer ℕ) × (SafeRingBuffer.push_safe 2 safe_ring 5
      ≡ ret ((Queue.push 2 (SafeRingBuffer.Laws.contents 0 2 safe_ring) 5).0, r'))
    × (SafeRingBuffer.Laws.contents 0 2 r'
        ≡ (Queue.push 2 (SafeRingBuffer.Laws.contents 0 2 safe_ring) 5).1)
    × SafeRingBuffer.Laws.IsValid 0 2 r'
push_safe_refines_example =
    push_safe_refines 0 2 safe_ring
      (SafeRingBuffer.Laws.new-IsValid 0 2 (omega arith) (omega arith)) 5

pop_safe_refines_example :
    (r' : SafeRingBuffer ℕ) × (SafeRingBuffer.pop_safe 2 safe_ring
      ≡ ret ((Queue.pop (SafeRingBuffer.Laws.contents 0 2 safe_ring)).0, r'))
    × (SafeRingBuffer.Laws.contents 0 2 r'
        ≡ (Queue.pop (SafeRingBuffer.Laws.contents 0 2 safe_ring)).1)
    × SafeRingBuffer.Laws.IsValid 0 2 r'
pop_safe_refines_example =
    pop_safe_refines 0 2 safe_ring (SafeRingBuffer.Laws.new-IsValid 0 2 (omega arith) (omega arith))

-- One item, pushed while the consumer waits
abbrev pushed : System ℕ
pushed = record (init 0 2) {
  ring = record { items = 5 ∷ 0 ∷ []; start = 0; end = 1; count = 1 };
  sent = 5 ∷ [];
}

pushed-Reach : Reach 0 2 pushed
unfolding SafeRingBuffer.new replicate
pushed-Reach =
    later
      (later
        (later (later start (Step.load_room 5 refl (λ e. omega (arith, e))))
          (Step.store 5 (5 ∷ 0 ∷ []) refl refl))
        (Step.move_end 5 refl))
      (Step.publish 5 refl)

delivery_example :
    (pending : List ℕ) × (pushed.sent ≡ pushed.received ++ pending)
    × (length pending ≡ pushed.ring.count)
    × (pushed.ring.count ≤ 2)
    × (pushed.ring.end < length pushed.ring.items)
    × (pushed.ring.start < length pushed.ring.items)
delivery_example = delivery 0 2 {s = pushed} (omega arith) (omega arith) pushed-Reach

set_lem_example :
    (b' : BitMap4096) × (BitMap4096.set BitMap4096.new 70 ≡ ret b')
    × ((j : ℕ) → contains b' j ≡ (if 70 == j then 1 else contains BitMap4096.new j))
    × BitMap4096.Laws.IsValid b'
set_lem_example = set_lem BitMap4096.new BitMap4096.Laws.new-IsValid 70 (omega arith)

-- The set of position 70 alone
abbrev one_pos : BitMap4096
one_pos = (set_lem BitMap4096.new BitMap4096.Laws.new-IsValid 70 (omega arith)).0

one_pos-IsValid : BitMap4096.Laws.IsValid one_pos
one_pos-IsValid = (set_lem BitMap4096.new BitMap4096.Laws.new-IsValid 70 (omega arith)).3

clear_lem_example :
    (b' : BitMap4096) × (BitMap4096.clear one_pos 70 ≡ ret b')
    × ((j : ℕ) → contains b' j ≡ (if 70 == j then 0 else contains one_pos j))
    × BitMap4096.Laws.IsValid b'
clear_lem_example = clear_lem one_pos one_pos-IsValid 70 (omega arith)

fetch-Fetches_example : Fetches one_pos (BitMap4096.fetch one_pos)
fetch-Fetches_example = fetch-Fetches one_pos one_pos-IsValid
