-- ===== src/Utils/RingBuffer/Refine.antt =====
-- `RingBuffer` against the bounded queue, one operation at a time and over any sequence of them.
use native.Mathlib.Decide.{dec_lt}
use rust_root_task_demo.Common.{
  Outcome, Result, List, Option, ap, ◌>>=◌, ◌∷◌, write_in_range, read_in_range, ret, err, ok,
  get_or, length, ltb_of_le, ltb_of_lt, ==_eq, ==_ne, ltb, arith, [], some, none, false, true, refl,
  ◌≡◌, ◌<◌, ◌-◌, ◌+◌, ℕ,
}
use rust_root_task_demo.Utils.Queue
use rust_root_task_demo.Utils.Window.{window}
use rust_root_task_demo.Utils.RingBuffer.{RingBuffer, size, full, push, pop}
use rust_root_task_demo.Utils.RingBuffer.Laws.{
  IsValid, contents, size_lt, empty_iff, full_iff, length-contents, written, advanced,
  written-IsValid, advanced-IsValid, contents-written, contents-advanced,
}

module _ {ℓ} {A : Type ℓ} (d : A) (cap : ℕ) where
  pub push_room :
      (r : RingBuffer A) (v : IsValid d cap r) (x : A)
      → size cap r + 1 < cap
      → push cap r x ≡ ret (ok tt, written d cap r v x)
  unfolding push
  push_room r v x room =
      rw
        (
          full_iff d cap r v,
          ==_ne (size cap r + 1) cap (omega (arith, room)),
          write_in_range r.items r.end x (omega (arith, v.slots, v.end_in)),
        )
        refl

  pub push_full :
      (r : RingBuffer A) (v : IsValid d cap r) (x : A)
      → size cap r + 1 ≡ cap
      → push cap r x ≡ ret (err, r)
  unfolding push
  push_full r v x at_end = rw (full_iff d cap r v, ==_eq (size cap r + 1) cap at_end) refl

  pub pop-some :
      (r : RingBuffer A) (v : IsValid d cap r)
      → 0 < size cap r
      → pop cap r ≡ ret (some (get_or r.items r.start d), advanced d cap r v)
  unfolding pop
  pop-some r v some_item =
      rw
        (
          empty_iff d cap r v,
          ==_ne (size cap r) 0 (omega (arith, some_item)),
          read_in_range r.items r.start d (omega (arith, v.slots, v.start_in)),
        )
        refl

  pub pop-none :
      (r : RingBuffer A) (v : IsValid d cap r) → size cap r ≡ 0 → pop cap r ≡ ret (none, r)
  unfolding pop
  pop-none r v no_item = rw (empty_iff d cap r v, ==_eq (size cap r) 0 no_item) refl

  -- `push` on a valid ring does not panic: it answers as the queue of at most `SIZE - 1` items
  -- does, leaves the ring holding that queue's items, and keeps it valid.
  pub push_refines :
      (r : RingBuffer A) (x : A)
      → IsValid d cap r
      → (r' : RingBuffer A) × (push cap r x
          ≡ ret ((Queue.push (cap - 1) (contents d cap r) x).0, r'))
        × (contents d cap r' ≡ (Queue.push (cap - 1) (contents d cap r) x).1)
        × IsValid d cap r'
  unfolding Queue.push
  push_refines r x v = elim (dec_lt (size cap r + 1) cap) [
    | yes room ↦
        let test : ltb (length (contents d cap r)) (cap - 1) ≡ true =
          rw (length-contents d cap r v) (ltb_of_lt (size cap r) (cap - 1) (omega (arith, room))) in
        (
          written d cap r v x,
          rw test (push_room r v x room),
          rw test (contents-written d cap r v x room),
          written-IsValid d cap r v x,
        )
    | no full ↦
        let test : ltb (length (contents d cap r)) (cap - 1) ≡ false =
          rw (length-contents d cap r v) (ltb_of_le (size cap r) (cap - 1) (omega (arith, full))) in
        (r, rw test (push_full r v x (omega (arith, full, size_lt d cap r v))), rw test refl, v)
  ]

  -- `pop` on a valid ring does not panic: it returns the oldest item and leaves the others in
  -- order, or it returns `None` and changes nothing if the ring is empty.
  pub pop_refines :
      (r : RingBuffer A)
      → IsValid d cap r
      → (r' : RingBuffer A) × (pop cap r ≡ ret ((Queue.pop (contents d cap r)).0, r'))
        × (contents d cap r' ≡ (Queue.pop (contents d cap r)).1)
        × IsValid d cap r'
  unfolding Queue.pop
  pop_refines r v = elim (dec_lt 0 (size cap r)) [
    | yes some_item ↦ (
      advanced d cap r v,
      rw (contents-advanced d cap r v some_item) (pop-some r v some_item),
      rw (contents-advanced d cap r v some_item) refl,
      advanced-IsValid d cap r v,
    )
    | no none_left ↦
        let e : size cap r ≡ 0 = omega (arith, none_left) in
        let nothing : contents d cap r ≡ [] = ap (window d cap r.items r.start) e in
        (r, rw nothing (pop-none r v e), rw nothing refl, v)
  ]

-- A client's calls, and what it sees of each.
pub data Op {ℓ} (A : Type ℓ) : Type ℓ where
  put : A → Op A
  take_one : Op A

pub data Reply {ℓ} (A : Type ℓ) : Type ℓ where
  put_reply : Result (Unit {0}) → Reply A
  take_reply : Option A → Reply A

module _ {ℓ} {A : Type ℓ} where
  pub run : ℕ → RingBuffer A → List (Op A) → Outcome (List (Reply A))
  run cap r [] = ret []
  run cap r (put x ∷ ops) =
      push cap r x >>= λ o. run cap o.1 ops >>= λ rest. ret (put_reply o.0 ∷ rest)
  run cap r (take_one ∷ ops) =
      pop cap r >>= λ o. run cap o.1 ops >>= λ rest. ret (take_reply o.0 ∷ rest)

  pub run_queue : ℕ → List A → List (Op A) → List (Reply A)
  run_queue bound q [] = []
  run_queue bound q (put x ∷ ops) =
      put_reply (Queue.push bound q x).0 ∷ run_queue bound (Queue.push bound q x).1 ops
  run_queue bound q (take_one ∷ ops) =
      take_reply (Queue.pop q).0 ∷ run_queue bound (Queue.pop q).1 ops

  -- No sequence of calls on a valid ring panics, and none tells it from the queue of at most
  -- `SIZE - 1` items that it holds.
  pub run_refines :
      (d : A) (cap : ℕ) (ops : List (Op A)) (r : RingBuffer A)
      → IsValid d cap r
      → run cap r ops ≡ ret (run_queue (cap - 1) (contents d cap r) ops)
  unfolding run run_queue
  run_refines d cap [] r v = refl
  run_refines d cap (put x ∷ ops) r v =
      let (r', pushes, holds, v') = push_refines d cap r x v in
      rw (pushes, run_refines d cap ops r' v', holds) refl
  run_refines d cap (take_one ∷ ops) r v =
      let (r', pops, holds, v') = pop_refines d cap r v in
      rw (pops, run_refines d cap ops r' v', holds) refl
