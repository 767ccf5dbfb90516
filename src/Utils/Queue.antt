-- ===== src/Utils/Queue.antt =====
-- A first-in first-out queue of at most `bound` items, oldest first: the specification of the
-- ring buffers.
use rust_root_task_demo.Common.{
  err, ok, Result, length, ltb, [], List, some, none, Option, if◌then◌else◌, ◌++◌, ◌∷◌, ℕ,
}

module _ {ℓ} {A : Type ℓ} where
  unfoldable pub push : ℕ → List A → A → Result (Unit {0}) × List A
  push bound q x = if ltb (length q) bound then (ok tt, q ++ (x ∷ [])) else (err, q)

  unfoldable pub pop : List A → Option A × List A
  pop [] = (none, [])
  pop (x ∷ q) = (some x, q)
