-- ===== src/Utils/SafeRingBuffer/Concurrent/Invariant.antt =====
-- What holds at every access of the two threads: which slots each of them owns.
use native.Mathlib.Nat.{mod-eq_of_lt, mod-add-mod}
use rust_root_task_demo.Common.{
  ap, sym, suc, length-replicate, get_or-set_ne, set, get_or, length, arith, refl, ◌∙◌, ◌++◌, ◌≡◌,
  ◌<◌, ◌≤◌, ◌^◌, ◌%◌, ◌+◌, ℕ,
}
use rust_root_task_demo.Utils.Window.{window, cells_apart}
use rust_root_task_demo.Utils.SafeRingBuffer.{SafeRingBuffer, new}
use rust_root_task_demo.Utils.SafeRingBuffer.Concurrent.{
  Producer, ready, checked, stored, moved_end, Consumer, waiting, seen, got, moved_start, System,
  init,
}

module _ {ℓ} {A : Type ℓ} (d : A) (cap : ℕ) where
  -- The slot that the next item goes to, when the oldest item that counts is at `h`.
  abbrev pub slot : ℕ → ℕ → ℕ
  slot h count = (h + count) % cap

  abbrev pub ProducerOk : ℕ → SafeRingBuffer A → Producer A → Type ℓ
  ProducerOk h r ready = (r.end ≡ slot h r.count) × Unit {ℓ}
  ProducerOk h r (checked x) = (r.end ≡ slot h r.count) × (r.count < cap) × Unit {ℓ}
  ProducerOk h r (stored x) =
      (r.end ≡ slot h r.count) × (r.count < cap) × (get_or r.items (slot h r.count) d ≡ x)
  ProducerOk h r (moved_end x) =
      (r.end ≡ (slot h r.count + 1) % cap)
      × (r.count < cap)
      × (get_or r.items (slot h r.count) d ≡ x)

  abbrev pub ConsumerOk : ℕ → SafeRingBuffer A → Consumer A → Type ℓ
  ConsumerOk h r waiting = (r.start ≡ h) × Unit {ℓ}
  ConsumerOk h r seen = (r.start ≡ h) × (0 < r.count) × Unit {ℓ}
  ConsumerOk h r (got x) = (r.start ≡ h) × (0 < r.count) × (get_or r.items h d ≡ x)
  ConsumerOk h r (moved_start x) =
      (r.start ≡ (h + 1) % cap) × (0 < r.count) × (get_or r.items h d ≡ x)

  -- `h` is the slot of the oldest item that has not been retired.
  pub record Inv (h : ℕ) (s : System A) : Type ℓ where
    pub slots : length s.ring.items ≡ cap
    pub cap_lt : cap < 2 ^ 64
    pub head_in : h < cap
    pub count_in : s.ring.count ≤ cap
    pub producer_ok : ProducerOk h s.ring s.producer
    pub consumer_ok : ConsumerOk h s.ring s.consumer
    pub history : s.sent ≡ s.received ++ window d cap s.ring.items h s.ring.count

  pub init-Inv : 0 < cap → cap < 2 ^ 64 → Inv 0 (init d cap)
  unfolding new
  init-Inv pos lt = record {
    slots = length-replicate cap d;
    cap_lt = lt;
    head_in = pos;
    count_in = omega arith;
    producer_ok = (omega arith, tt);
    consumer_ok = (refl, tt);
    history = refl;
  }

  -- What the state of one thread says about the index that it uses.
  pub end_in :
      (h : ℕ) (r : SafeRingBuffer A) (p : Producer A) → h < cap → ProducerOk h r p → r.end < cap
  end_in h r ready lt own = omega arith
  end_in h r (checked x) lt own = omega arith
  end_in h r (stored x) lt own = omega arith
  end_in h r (moved_end x) lt own = omega arith

  pub start_in :
      (h : ℕ) (r : SafeRingBuffer A) (c : Consumer A) → h < cap → ConsumerOk h r c → r.start < cap
  start_in h r waiting lt own = omega arith
  start_in h r seen lt own = omega arith
  start_in h r (got x) lt own = omega arith
  start_in h r (moved_start x) lt own = omega arith

  -- The producer writes past the oldest item.
  head_kept :
      (h : ℕ) (r : SafeRingBuffer A) (x : A)
      → h < cap
      → r.count < cap
      → 0 < r.count
      → get_or (set r.items (slot h r.count) x) h d ≡ get_or r.items h d
  head_kept h r x lt room pos = get_or-set_ne r.items (slot h r.count) h x d λ e.
      cells_apart d cap h 0 r.count lt pos room
        (e ∙ sym (ap (λ (k : ℕ). k % cap) (omega arith) ∙ mod-eq_of_lt lt))

  -- A step of the producer leaves what the consumer relies on.
  pub ConsumerOk-store :
      (h : ℕ) (r : SafeRingBuffer A) (x : A) (c : Consumer A)
      → h < cap
      → r.count < cap
      → ConsumerOk h r c
      → ConsumerOk h (record r { items = set r.items (slot h r.count) x }) c
  ConsumerOk-store h r x waiting lt room own = own
  ConsumerOk-store h r x seen lt room own = own
  ConsumerOk-store h r x (got y) lt room own = (own.0, own.1, head_kept h r x lt room own.1 ∙ own.2)
  ConsumerOk-store h r x (moved_start y) lt room own =
      (own.0, own.1, head_kept h r x lt room own.1 ∙ own.2)

  -- `end`, and the counter while it stays positive, are nothing to the consumer.
  pub ConsumerOk-counted :
      (h : ℕ) (r : SafeRingBuffer A) (n : ℕ) (c : Consumer A)
      → r.count ≤ n
      → ConsumerOk h r c
      → ConsumerOk h (record r { count = n }) c
  ConsumerOk-counted h r n waiting le own = own
  ConsumerOk-counted h r n seen le own = (own.0, omega (arith, own.1), tt)
  ConsumerOk-counted h r n (got x) le own = (own.0, omega (arith, own.1), own.2)
  ConsumerOk-counted h r n (moved_start x) le own = (own.0, omega (arith, own.1), own.2)

  pub ConsumerOk-end :
      (h : ℕ) (r : SafeRingBuffer A) (n : ℕ) (c : Consumer A)
      → ConsumerOk h r c
      → ConsumerOk h (record r { end = n }) c
  ConsumerOk-end h r n waiting own = own
  ConsumerOk-end h r n seen own = own
  ConsumerOk-end h r n (got x) own = own
  ConsumerOk-end h r n (moved_start x) own = own

  -- `start` is nothing to the producer.
  pub ProducerOk-start :
      (h : ℕ) (r : SafeRingBuffer A) (n : ℕ) (p : Producer A)
      → ProducerOk h r p
      → ProducerOk h (record r { start = n }) p
  ProducerOk-start h r n ready own = own
  ProducerOk-start h r n (checked x) own = own
  ProducerOk-start h r n (stored x) own = own
  ProducerOk-start h r n (moved_end x) own = own

  -- Retiring the oldest item moves the base by one and leaves the producer's slot where it was.
  slot_retired : (h count n : ℕ) → count ≡ suc n → slot ((h + 1) % cap) n ≡ slot h count
  slot_retired h count n e = mod-add-mod (h + 1) cap n ∙ ap (λ (k : ℕ). k % cap) (omega arith)

  pub ProducerOk-retired :
      (h : ℕ) (r : SafeRingBuffer A) (n : ℕ) (p : Producer A)
      → r.count ≡ suc n
      → ProducerOk h r p
      → ProducerOk ((h + 1) % cap) (record r { count = n }) p
  ProducerOk-retired h r n ready e own = (own.0 ∙ sym (slot_retired h r.count n e), tt)
  ProducerOk-retired h r n (checked x) e own =
      (own.0 ∙ sym (slot_retired h r.count n e), omega (arith, own.1), tt)
  ProducerOk-retired h r n (stored x) e own = (
    own.0 ∙ sym (slot_retired h r.count n e),
    omega (arith, own.1),
    ap (λ (i : ℕ). get_or r.items i d) (slot_retired h r.count n e) ∙ own.2,
  )
  ProducerOk-retired h r n (moved_end x) e own = (
    own.0 ∙ ap (λ (i : ℕ). (i + 1) % cap) (sym (slot_retired h r.count n e)),
    omega (arith, own.1),
    ap (λ (i : ℕ). get_or r.items i d) (slot_retired h r.count n e) ∙ own.2,
  )
