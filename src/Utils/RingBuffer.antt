-- ===== src/Utils/RingBuffer.antt =====
-- `RingBuffer<T, SIZE>` of crates/example/async_runtime/src/utils.rs. One slot stays free, so that
-- a full buffer differs from an empty one. `d` is `T::default()`; `SIZE` is positive in every use.
pub mod Laws
pub mod Refine
use rust_root_task_demo.Common.{
  write, read, ret, Outcome, err, ok, Result, replicate, List, some, none, Option, not, Bool,
  if◌then◌else◌, ◌>>=◌, ◌==◌, ◌%◌, ◌-◌, ◌+◌, ℕ,
}

pub record RingBuffer {ℓ} (A : Type ℓ) : Type ℓ where
  pub items : List A  -- `data: [T; SIZE]`
  pub start : ℕ
  pub end : ℕ

module _ {ℓ} {A : Type ℓ} where
  unfoldable pub new : A → ℕ → RingBuffer A
  new d cap = record { items = replicate cap d; start = 0; end = 0 }

  unfoldable pub size : ℕ → RingBuffer A → ℕ
  size cap r = (r.end + cap - r.start) % cap

  pub empty : RingBuffer A → Bool
  empty r = r.end == r.start

  pub full : ℕ → RingBuffer A → Bool
  full cap r = (r.end + 1) % cap == r.start

  pub push : ℕ → RingBuffer A → A → Outcome (Result (Unit {0}) × RingBuffer A)
  push cap r item =
      if not (full cap r)
      then (write r.items r.end item >>= λ items.
          ret (ok tt, record r { items = items; end = (r.end + 1) % cap }))
      else ret (err, r)

  pub pop : ℕ → RingBuffer A → Outcome (Option A × RingBuffer A)
  pop cap r =
      if not (empty r)
      then (read r.items r.start >>= λ ans.
          ret (some ans, record r { start = (r.start + 1) % cap }))
      else ret (none, r)
