-- ===== src/Executor/Drain.antt =====
-- Which of the delayed wakes `actual_wake` carries out.
use native.Mathlib.Nat.{pow-suc, pow-le-pow_right}
use rust_root_task_demo.Common.{
  bind_ext, Bool-cases, ==_eq, ==_iff, arith, inr, inl, ap, sym, ◌∙◌, ret, Outcome, [], List, false,
  Bool, refl, suc, zero, if◌then◌else◌, ◌>>=◌, ◌==◌, ◌||◌, ◌∷◌, ◌≡◌, ◌<◌, ◌≤◌, ◌^◌, ◌%◌, ◌/◌, ◌+◌,
  ℕ,
}
use rust_root_task_demo.Common.Bits.{bit_of_lt, lt_of_bits}
use rust_root_task_demo.Common.Words.{clear_bit, bit-clear_bit}
use rust_root_task_demo.Executor.{Executor, wake, drain, actual_wake}

-- The ids that the loop of `actual_wake` wakes, in order.
unfoldable pub drained : ℕ → ℕ → ℕ → List ℕ
drained zero index cids = []
drained (suc fuel) index cids =
    let woken = index ∷ drained fuel (index + 1) (clear_bit 64 cids index / 2) in
    let skipped = drained fuel (index + 1) (cids / 2) in if cids % 2 == 0 then skipped else woken

unfoldable pub has : ℕ → List ℕ → Bool
has k [] = false
has k (x ∷ xs) = (x == k) || has k xs

-- Strictly increasing, from `lo` on
abbrev pub IsRising : ℕ → List ℕ → Type 0
IsRising lo [] = Unit
IsRising lo (x ∷ xs) = (lo ≤ x) × IsRising (x + 1) xs

IsRising-lower : (lo lo' : ℕ) (xs : List ℕ) → lo ≤ lo' → IsRising lo' xs → IsRising lo xs
IsRising-lower lo lo' [] le h = tt
IsRising-lower lo lo' (x ∷ xs) le (first, rest) = (omega (arith, le, first), rest)

pub drained-IsRising : (fuel index cids : ℕ) → IsRising index (drained fuel index cids)
unfolding drained
drained-IsRising zero index cids = tt
drained-IsRising (suc fuel) index cids = elim (Bool-cases (cids % 2 == 0)) [
  | inl even ↦ rw even (
      IsRising-lower index (index + 1) (drained fuel (index + 1) (cids / 2)) (omega arith)
        (drained-IsRising fuel (index + 1) (cids / 2)))
  | inr odd ↦ rw odd (omega arith, drained-IsRising fuel (index + 1) (clear_bit 64 cids index / 2))
]

module _ {ℓ} {F : Type ℓ} where
  -- `wake` of each id in turn
  unfoldable pub wake_all : List ℕ → Executor F → Outcome (Executor F)
  wake_all [] e = ret e
  wake_all (c ∷ cs) e = wake e c >>= wake_all cs

-- The word of the next round fits the rounds that are left.
pub rest_lt :
    (fuel index cids : ℕ)
    → index < 64
    → fuel < 64
    → cids < 2 ^ suc fuel
    → clear_bit 64 cids index / 2 < 2 ^ fuel
rest_lt fuel index cids lt small h =
    let word : cids < 2 ^ 64 =
      omega
        (arith, h, pow-le-pow_right {n = 2} (omega arith) {i = suc fuel} {j = 64} (omega arith)) in
    let kept : clear_bit 64 cids index < 2 ^ suc fuel =
      lt_of_bits (suc fuel) (clear_bit 64 cids index) λ i le.
        ground (arith, bit-clear_bit 64 cids index i lt word, bit_of_lt (suc fuel) cids i h le) in
    omega (arith, kept, pow-suc 2 fuel)

-- A word without a set bit wakes nothing.
drained_zero : (fuel index : ℕ) → drained fuel index 0 ≡ []
unfolding drained
drained_zero zero index = refl
drained_zero (suc fuel) index = drained_zero fuel (index + 1)

module _ {ℓ} {F : Type ℓ} where
  drain-eq-wake_all :
      (fuel index cids : ℕ) (e : Executor F)
      → index + fuel ≤ 64
      → cids < 2 ^ fuel
      → drain fuel index cids e ≡ wake_all (drained fuel index cids) e
  unfolding drain drained wake_all
  drain-eq-wake_all zero index cids e fits small = rw (==_eq cids 0 (omega arith)) refl
  drain-eq-wake_all (suc fuel) index cids e fits small = elim (Bool-cases (cids == 0)) [
    | inl none_left ↦
        let nothing : drained (suc fuel) index cids ≡ [] =
          ap (drained (suc fuel) index) ((==_iff cids 0).0 none_left)
          ∙ drained_zero (suc fuel) index in
        rw none_left (sym (ap (λ (xs : List ℕ). wake_all xs e) nothing))
    | inr some_left ↦ elim (Bool-cases (cids % 2 == 0)) [
      | inl even ↦
          rw (some_left, even)
            (drain-eq-wake_all fuel (index + 1) (cids / 2) e (omega arith)
              (omega (arith, pow-suc 2 fuel)))
      | inr odd ↦
          rw (some_left, odd, index_fits)
            (bind_ext (wake e index) (drain fuel (index + 1) (clear_bit 64 cids index / 2))
              (wake_all (drained fuel (index + 1) (clear_bit 64 cids index / 2)))
              λ e'.
                drain-eq-wake_all fuel (index + 1) (clear_bit 64 cids index / 2) e' (omega arith)
                  (rest_lt fuel index cids (omega arith) (omega arith) small))
    ]
  ]
    where
      index_fits : index % 2 ^ 32 ≡ index
      index_fits = omega arith

  -- `actual_wake` takes all delayed wakes off, and wakes the ids that its loop finds, each at most
  -- once, lowest first. The 64 rounds are enough.
  pub actual_wake-eq-wake_all :
      (e : Executor F)
      → e.delay_wake_cids < 2 ^ 64
      → actual_wake e ≡ wake_all (drained 64 0 e.delay_wake_cids) (record e { delay_wake_cids = 0 })
  unfolding actual_wake
  actual_wake-eq-wake_all e h =
      drain-eq-wake_all 64 0 e.delay_wake_cids (record e { delay_wake_cids = 0 }) (omega arith) h
