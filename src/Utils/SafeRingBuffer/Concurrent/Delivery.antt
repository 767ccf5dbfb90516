-- ===== src/Utils/SafeRingBuffer/Concurrent/Delivery.antt =====
-- The items that go through a `SafeRingBuffer` of crates/example/async_runtime/src/utils.rs,
-- over every interleaving of one producer and one consumer.
use rust_root_task_demo.Common.{length, ◌<◌, ◌≤◌, ◌^◌, arith, List, ◌++◌, ◌≡◌, ℕ}
use rust_root_task_demo.Utils.Window.{length-slice, window, cell}
use rust_root_task_demo.Utils.SafeRingBuffer.Concurrent.{
  Step, load_full, load_room, store, move_end, publish, load_empty, load_some, fetch, move_start,
  retire, Reach, start, later, seen, checked, got, System,
}
use rust_root_task_demo.Utils.SafeRingBuffer.Concurrent.Invariant.{init-Inv, end_in, start_in}
use rust_root_task_demo.Utils.SafeRingBuffer.Concurrent.Accesses.{
  Holds, with_producer, with_consumer, producer_at, consumer_at, stored_items, read_oldest,
  Holds-store, Holds-move_end, Holds-publish, Holds-move_start, Holds-retire,
}

module _ {ℓ} {A : Type ℓ} (d : A) (cap : ℕ) where
  -- Every access of either thread keeps the invariant.
  Step-Holds : {s t : System A} → Step cap s t → Holds d cap s → Holds d cap t
  Step-Holds (load_full e full) inv = inv
  Step-Holds {s} (load_room x e room) (h, inv) =
      let own = producer_at d cap h s inv e in
      with_producer d cap h s inv (checked x) (own.0, omega (arith, inv.count_in, room), tt)
  Step-Holds {s} (store x items e w) (h, inv) =
      rw (stored_items d cap h s inv x items e w) (Holds-store d cap h s inv x e)
  Step-Holds {s} (move_end x e) (h, inv) = Holds-move_end d cap h s inv x e
  Step-Holds {s} (publish x e) (h, inv) = Holds-publish d cap h s inv x e
  Step-Holds (load_empty e none_left) inv = inv
  Step-Holds {s} (load_some e some_left) (h, inv) =
      let own = consumer_at d cap h s inv e in
      with_consumer d cap h s inv seen (own.0, omega (arith, some_left), tt)
  Step-Holds {s} (fetch x e r) (h, inv) =
      let own = consumer_at d cap h s inv e in
      with_consumer d cap h s inv (got x) (own.0, own.1, read_oldest d cap h s inv x own.0 r)
  Step-Holds {s} (move_start x e) (h, inv) = Holds-move_start d cap h s inv x e
  Step-Holds {s} (retire x e) (h, inv) = Holds-retire d cap h s inv x e

  Reach-Holds : {s : System A} → 0 < cap → cap < 2 ^ 64 → Reach d cap s → Holds d cap s
  Reach-Holds pos lt start = (0, init-Inv d cap pos lt)
  Reach-Holds pos lt (later r st) = Step-Holds st (Reach-Holds pos lt r)

  -- Whatever the interleaving, the items received are those sent, in order and each once, followed
  -- by the `count` items that still wait; the counter stays within the capacity; and no thread
  -- ever uses an index out of range.
  pub delivery :
      {s : System A}
      → 0 < cap
      → cap < 2 ^ 64
      → Reach d cap s
      → (pending : List A) × (s.sent ≡ s.received ++ pending)
        × (length pending ≡ s.ring.count)
        × (s.ring.count ≤ cap)
        × (s.ring.end < length s.ring.items)
        × (s.ring.start < length s.ring.items)
  delivery {s} pos lt r =
      let (h, inv) = Reach-Holds pos lt r in
      (
        window d cap s.ring.items h s.ring.count,
        inv.history,
        length-slice (cell d cap s.ring.items) h s.ring.count,
        inv.count_in,
        omega (arith, inv.slots, end_in d cap h s.ring s.producer inv.head_in inv.producer_ok),
        omega (arith, inv.slots, start_in d cap h s.ring s.consumer inv.head_in inv.consumer_ok),
      )
