-- ===== src/Runtime/Turns.antt =====
-- The ids that wait in an executor of crates/example/async_runtime/src/executor.rs, in the order in
-- which `fetch` takes them.
use native.Mathlib.Decide.{ℕ_discrete}
use rust_root_task_demo.Common.{
  ◌≢◌, ◌≤◌, ==_eq, ==_ne, arith, [], List, Bool, false, ap, ap₂, sym, refl, suc, zero,
  if◌then◌else◌, ◌==◌, ◌||◌, ◌++◌, ◌∙◌, ◌∷◌, ◌≡◌, ◌<◌, ◌+◌, ℕ,
}
use rust_root_task_demo.Executor.{Executor, max_prio_num}
use rust_root_task_demo.Executor.Invariant.{waiting}
use rust_root_task_demo.Executor.Drain.{has}

-- No id twice
abbrev pub IsDistinct : List ℕ → Type 0
IsDistinct [] = Unit
IsDistinct (x ∷ xs) = (has x xs ≡ false) × IsDistinct xs

has-append : (k : ℕ) (xs ys : List ℕ) → has k (xs ++ ys) ≡ (has k xs || has k ys)
unfolding has
has-append k [] ys = refl
has-append k (x ∷ xs) ys = ground (arith, has-append k xs ys)

module _ {ℓ} {F : Type ℓ} where
  -- The ids at `left` priorities from `p` on
  pub turns_from : Executor F → ℕ → ℕ → List ℕ
  turns_from e zero p = []
  turns_from e (suc left) p = waiting e p ++ turns_from e left (p + 1)

  abbrev pub turns : Executor F → List ℕ
  turns e = turns_from e max_prio_num 0

  turns_above :
      (e e' : Executor F) (left p : ℕ)
      → ((q : ℕ) → p ≤ q → waiting e' q ≡ waiting e q)
      → turns_from e' left p ≡ turns_from e left p
  unfolding turns_from
  turns_above e e' zero p same = refl
  turns_above e e' (suc left) p same =
      ap₂ ◌++◌ (same p (omega arith))
        (turns_above e e' left (p + 1) λ q h. same q (omega (arith, h)))

  pub turns_same : (e e' : Executor F) → ((q : ℕ) → waiting e' q ≡ waiting e q) → turns e' ≡ turns e
  turns_same e e' same = turns_above e e' max_prio_num 0 λ q h. same q

  module _ (e e' : Executor F) (p c : ℕ) (rest : List ℕ)
      (below : (q : ℕ) → q < p → waiting e q ≡ []) (front : waiting e p ≡ c ∷ rest)
      (each : (q : ℕ) → waiting e' q ≡ (if p == q then rest else waiting e q)) where
    apart_same : (q : ℕ) → p ≢ q → waiting e' q ≡ waiting e q
    apart_same q apart =
        each q ∙ ap (λ (b : Bool). if b then rest else waiting e q) (==_ne p q apart)

    -- Taking the oldest id of the most urgent queue takes the first turn.
    turn_taken :
        (left i : ℕ) → i ≤ p → p < i + left → turns_from e left i ≡ c ∷ turns_from e' left i
    unfolding turns_from
    turn_taken zero i low high = absurd (omega (arith, low, high))
    turn_taken (suc left) i low high = elim (ℕ_discrete p i) [
      | yes same ↦
          let here : waiting e i ≡ c ∷ rest = ap (waiting e) (sym same) ∙ front in
          let left_here : waiting e' i ≡ rest =
            each i ∙ ap (λ (b : Bool). if b then rest else waiting e i) (==_eq p i same) in
          ap₂ ◌++◌ here (
            sym (
              turns_above e e' left (i + 1)
                λ q h. apart_same q (λ (at : p ≡ q). omega (arith, at, same, h))))
          ∙ ap (λ (xs : List ℕ). c ∷ (xs ++ turns_from e' left (i + 1))) (sym left_here)
      | no apart ↦
          let none_here : waiting e i ≡ [] = below i (omega (arith, low, apart)) in
          ap (λ (xs : List ℕ). xs ++ turns_from e left (i + 1)) none_here
          ∙ turn_taken left (i + 1) (omega (arith, low, apart)) (omega (arith, high))
          ∙ ap (λ (xs : List ℕ). c ∷ (xs ++ turns_from e' left (i + 1)))
              (sym (apart_same i apart ∙ none_here))
    ]

    pub turns_taken : p < max_prio_num → turns e ≡ c ∷ turns e'
    turns_taken low = turn_taken max_prio_num 0 (omega arith) (omega (arith, low))

  -- No turn is left when no id waits.
  no_turns : (e : Executor F) (left p : ℕ) → ((q : ℕ) → waiting e q ≡ []) → turns_from e left p ≡ []
  unfolding turns_from
  no_turns e zero p none_left = refl
  no_turns e (suc left) p none_left = ap₂ ◌++◌ (none_left p) (no_turns e left (p + 1) none_left)

  pub turns_idle : (e : Executor F) → ((q : ℕ) → waiting e q ≡ []) → turns e ≡ []
  turns_idle e none_left = no_turns e max_prio_num 0 none_left

  absent_from :
      (e : Executor F) (k p left i : ℕ)
      → has k (turns_from e left i) ≡ false
      → i ≤ p
      → p < i + left
      → has k (waiting e p) ≡ false
  unfolding turns_from
  absent_from e k p zero i absent low high = absurd (omega (arith, low, high))
  absent_from e k p (suc left) i absent low high = elim (ℕ_discrete p i) [
    | yes same ↦
        ap (λ (q : ℕ). has k (waiting e q)) same
        ∙ ground (arith, absent, has-append k (waiting e i) (turns_from e left (i + 1)))
    | no apart ↦
        absent_from e k p left (i + 1)
          (ground (arith, absent, has-append k (waiting e i) (turns_from e left (i + 1))))
          (omega (arith, low, apart)) (omega (arith, high))
  ]

  -- An id without a turn waits at no priority.
  pub absent_at :
      (e : Executor F) (k p : ℕ)
      → has k (turns e) ≡ false
      → p < max_prio_num
      → has k (waiting e p) ≡ false
  absent_at e k p absent low =
      absent_from e k p max_prio_num 0 absent (omega arith) (omega (arith, low))
