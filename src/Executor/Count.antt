-- ===== src/Executor/Count.antt =====
-- How many slots of the table of tasks in crates/example/async_runtime/src/executor.rs are taken.
use native.Mathlib.Decide.{ℕ_discrete}
use rust_root_task_demo.Common.{
  refl, ◌<◌, ==_eq, ==_ne, ltb, arith, some, none, Option, Bool, ap, sym, suc, zero, ◌∙◌,
  if◌then◌else◌, ◌==◌, ◌≡◌, ◌+◌, ℕ,
}

abbrev pub occupied {ℓ} : {A : Type ℓ} → Option A → ℕ
occupied none = 0
occupied (some a) = 1

-- How many of the first `n` slots hold something.
unfoldable pub count_below {ℓ} : {A : Type ℓ} → (ℕ → Option A) → ℕ → ℕ
count_below f zero = 0
count_below f (suc n) = occupied (f n) + count_below f n

-- Writing one slot changes the count by what that slot held and holds.
pub count_below_write {ℓ} :
    {A : Type ℓ} (f g : ℕ → Option A) (c : ℕ) (v : Option A)
    → ((i : ℕ) → g i ≡ (if c == i then v else f i))
    → (n : ℕ)
    → count_below g n + (if ltb c n then occupied (f c) else 0)
      ≡ count_below f n + (if ltb c n then occupied v else 0)
unfolding count_below
count_below_write f g c v each zero = ground arith
count_below_write {A = A} f g c v each (suc n) = elim (ℕ_discrete c n) [
  | yes same ↦
      let here : occupied (g n) ≡ occupied v =
        ap occupied (each n ∙ ap (λ (b : Bool). if b then v else f n) (==_eq c n same)) in
      let old : occupied (f c) ≡ occupied (f n) = ap (λ (i : ℕ). occupied (f i)) same in
      ground (arith, count_below_write f g c v each n, here, old)
  | no apart ↦
      let here : occupied (g n) ≡ occupied (f n) =
        ap occupied (each n ∙ ap (λ (b : Bool). if b then v else f n) (==_ne c n apart)) in
      ground (arith, count_below_write f g c v each n, here)
]

pub count_below-none {ℓ} :
    {A : Type ℓ} (f : ℕ → Option A) → ((i : ℕ) → f i ≡ none) → (n : ℕ) → count_below f n ≡ 0
unfolding count_below
count_below-none f each zero = refl
count_below-none f each (suc n) = omega (arith, count_below-none f each n, ap occupied (each n))

pub count_below_pos {ℓ} :
    {A : Type ℓ} (f : ℕ → Option A) (c : ℕ) (a : A)
    → f c ≡ some a
    → (n : ℕ) → c < n
    → 0 < count_below f n
unfolding count_below
count_below_pos f c a found zero lt = absurd (omega arith)
count_below_pos f c a found (suc n) lt = elim (ℕ_discrete c n) [
  | yes same ↦
      let one : occupied (f n) ≡ 1 =
        ap (λ (i : ℕ). occupied (f i)) (sym same) ∙ ap occupied found in
      omega (arith, one)
  | no apart ↦ omega (arith, count_below_pos f c a found n (omega (arith, lt, apart)))
]
