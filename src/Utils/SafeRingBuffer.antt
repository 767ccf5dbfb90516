-- ===== src/Utils/SafeRingBuffer.antt =====
-- `SafeRingBuffer<T, SIZE>` of crates/example/async_runtime/src/utils.rs, each method run without
-- interruption. Its counter is atomic; `Concurrent` takes the methods apart into their accesses.
pub mod Laws
pub mod Concurrent
use rust_root_task_demo.Common.{
  write, read, ret, Outcome, err, ok, Result, replicate, List, some, none, Option, not,
  if◌then◌else◌, ◌>>=◌, ◌==◌, ◌^◌, ◌%◌, ◌-◌, ◌+◌, ℕ,
}

pub record SafeRingBuffer {ℓ} (A : Type ℓ) : Type ℓ where
  pub items : List A  -- `data: [T; SIZE]`
  pub start : ℕ
  pub end : ℕ
  pub count : ℕ  -- `AtomicUsize`

-- `fetch_add(1)` and `fetch_sub(1)` of an `AtomicUsize` wrap.
abbrev pub fetch_add : ℕ → ℕ
fetch_add n = (n + 1) % 2 ^ 64

abbrev pub fetch_sub : ℕ → ℕ
fetch_sub n = (n + 2 ^ 64 - 1) % 2 ^ 64

module _ {ℓ} {A : Type ℓ} where
  unfoldable pub new : A → ℕ → SafeRingBuffer A
  new d cap = record { items = replicate cap d; start = 0; end = 0; count = 0 }

  pub pop_safe : ℕ → SafeRingBuffer A → Outcome (Option A × SafeRingBuffer A)
  pop_safe cap r =
      if not (r.count == 0)
      then (read r.items r.start >>= λ item.
          ret (some item, record r { start = (r.start + 1) % cap; count = fetch_sub r.count }))
      else ret (none, r)

  pub push_safe : ℕ → SafeRingBuffer A → A → Outcome (Result (Unit {0}) × SafeRingBuffer A)
  push_safe cap r item =
      if not (r.count == cap)
      then (write r.items r.end item >>= λ items.
          ret
            (ok tt, record r { items = items; end = (r.end + 1) % cap; count = fetch_add r.count }))
      else ret (err, r)
