-- ===== src/Utils/SafeRingBuffer/Concurrent.antt =====
-- One producer and one consumer share a `SafeRingBuffer`: `push_safe` and `pop_safe` taken apart
-- into their accesses, interleaved in any order. Accesses are sequentially consistent; the first
-- load of the counter in `push_safe` has no effect and is left out.
pub mod Invariant
pub mod Accesses
pub mod Delivery
use rust_root_task_demo.Common.{write, read, ret, [], List, ◌++◌, ◌∷◌, ◌≢◌, ◌≡◌, ◌%◌, ◌+◌, ℕ}
use rust_root_task_demo.Utils.SafeRingBuffer.{SafeRingBuffer, new, fetch_add, fetch_sub}

-- Where `push_safe` stands: before the load of the counter, before the write of the item, before
-- the update of `end`, before `fetch_add`.
pub data Producer {ℓ} (A : Type ℓ) : Type ℓ where
  ready : Producer A
  checked : A → Producer A
  stored : A → Producer A
  moved_end : A → Producer A

-- Where `pop_safe` stands: before the load of the counter, before the read of the item, before
-- the update of `start`, before `fetch_sub`.
pub data Consumer {ℓ} (A : Type ℓ) : Type ℓ where
  waiting : Consumer A
  seen : Consumer A
  got : A → Consumer A
  moved_start : A → Consumer A

-- The buffer, the two threads, and what went through: the items whose `push_safe` returned `Ok`,
-- and those that `pop_safe` returned.
pub record System {ℓ} (A : Type ℓ) : Type ℓ where
  pub ring : SafeRingBuffer A
  pub producer : Producer A
  pub consumer : Consumer A
  pub sent : List A
  pub received : List A

abbrev pub init {ℓ} : {A : Type ℓ} → A → ℕ → System A
init d cap = record {
  ring = new d cap;
  producer = ready;
  consumer = waiting;
  sent = [];
  received = [];
}

pub data Step {ℓ} {A : Type ℓ} (cap : ℕ) (s : System A) : System A → Type ℓ where
  load_full : s.producer ≡ ready → s.ring.count ≡ cap → Step cap s s
  load_room :
      (x : A)
      → s.producer ≡ ready
      → s.ring.count ≢ cap
      → Step cap s (record s { producer = checked x })
  store :
      (x : A) (items : List A)
      → s.producer ≡ checked x
      → write s.ring.items s.ring.end x ≡ ret items
      → Step cap s (record s { ring = record (s.ring) { items = items }; producer = stored x })
  move_end :
      (x : A)
      → s.producer ≡ stored x
      → Step cap s (record s {
        ring = record (s.ring) { end = (s.ring.end + 1) % cap };
        producer = moved_end x;
      })
  publish :
      (x : A)
      → s.producer ≡ moved_end x
      → Step cap s (record s {
        ring = record (s.ring) { count = fetch_add s.ring.count };
        producer = ready;
        sent = s.sent ++ (x ∷ []);
      })
  load_empty : s.consumer ≡ waiting → s.ring.count ≡ 0 → Step cap s s
  load_some : s.consumer ≡ waiting → s.ring.count ≢ 0 → Step cap s (record s { consumer = seen })
  fetch :
      (x : A)
      → s.consumer ≡ seen
      → read s.ring.items s.ring.start ≡ ret x
      → Step cap s (record s { consumer = got x })
  move_start :
      (x : A)
      → s.consumer ≡ got x
      → Step cap s (record s {
        ring = record (s.ring) { start = (s.ring.start + 1) % cap };
        consumer = moved_start x;
      })
  retire :
      (x : A)
      → s.consumer ≡ moved_start x
      → Step cap s (record s {
        ring = record (s.ring) { count = fetch_sub s.ring.count };
        consumer = waiting;
        received = s.received ++ (x ∷ []);
      })

pub data Reach {ℓ} {A : Type ℓ} (d : A) (cap : ℕ) : System A → Type ℓ where
  start : Reach d cap (init d cap)
  later : {s t : System A} → Reach d cap s → Step cap s t → Reach d cap t
