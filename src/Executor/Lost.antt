-- ===== src/Executor/Lost.antt =====
-- Delayed wakes in `actual_wake` of crates/example/async_runtime/src/executor.rs. A round of
-- its loop shifts the word down and yet clears the bit of the unshifted index.
use mathlib.Core.WellFounded
use mathlib.Core.Logic.{dite}
use native.Mathlib.Decide.{dec_lt, ℕ_discrete}
use native.Mathlib.Nat.{pow-suc, pow-le-pow_right}
use rust_root_task_demo.Common.{
  List, Bool-cases, leb, inr, inl, zero, ◌≤◌, ap, suc, ltb, arith, not, false, true, Bool, ◌∙◌,
  if◌then◌else◌, ◌==◌, ◌&&◌, ◌≡◌, ◌<◌, ◌^◌, ◌%◌, ◌/◌, ◌+◌, ℕ,
}
use rust_root_task_demo.Common.Bits.{bit_of_lt, bit, bit_le_one}
use rust_root_task_demo.Common.Words.{clear_bit, bit-clear_bit}
use rust_root_task_demo.Common.Order.{lt_wf}
use rust_root_task_demo.Executor.{Executor, actual_wake}
use rust_root_task_demo.Executor.Drain.{
  IsRising, drained-IsRising, wake_all, actual_wake-eq-wake_all, drained, has, rest_lt,
}

abbrev wakes_step : ℕ → (k : ℕ) → ((m : ℕ) → m < k → Bool) → Bool
wakes_step w k earlier =
    dite (dec_lt 0 k) (λ h. (bit w k == 1) && not ((k % 2 == 0) && earlier (k / 2) (omega arith)))
      (λ _. bit w k == 1)

-- Whether id `k` is woken, of the ids that the word `w` names.
wakes : ℕ → ℕ → Bool
wakes w = WellFounded.fix lt_wf (wakes_step w)

wakes_lem :
    (w k : ℕ) → wakes w k ≡ ((bit w k == 1) && not (ltb 0 k && ((k % 2 == 0) && wakes w (k / 2))))
unfolding wakes
wakes_lem w k = WellFounded.fix-eq lt_wf (wakes_step w) k ∙ step_eq
  where
    step_eq : wakes_step w k (λ m _. WellFounded.fix lt_wf (wakes_step w) m) ≡ (
        (bit w k == 1)
        && not (ltb 0 k && ((k % 2 == 0) && WellFounded.fix lt_wf (wakes_step w) (k / 2))))
    step_eq = ground arith

-- Whether the rounds before `i` have taken id `k` off the word.
abbrev cleared : ℕ → ℕ → ℕ → Bool
cleared w i k = ltb 0 k && ((k % 2 == 0) && (ltb (k / 2) i && wakes w (k / 2)))

-- The word `v` of round `i`.
abbrev IsRound : ℕ → ℕ → ℕ → Type 0
IsRound w i v = (j : ℕ) → bit v j ≡ (if cleared w i (i + j) then 0 else bit w (i + j))

cleared_asleep : (w i k : ℕ) → wakes w i ≡ false → cleared w (i + 1) k ≡ cleared w i k
cleared_asleep w i k asleep = elim (ℕ_discrete (k / 2) i) [
  | yes e ↦ ground (arith, ap (wakes w) e, asleep)
  | no ne ↦ ground arith
]

-- Waking `i` clears `2 * i`, unless that is `i` itself.
cleared_awake :
    (w i j : ℕ)
    → wakes w i ≡ true
    → cleared w (i + 1) (i + j) ≡ (if i == j then ltb 0 i else cleared w i (i + j))
cleared_awake w i j awake = elim (ℕ_discrete i j) [
  | yes e ↦
      let half : (i + j) / 2 ≡ i = omega (arith, e) in ground (arith, ap (wakes w) half, awake)
  | no ne ↦ ground arith
]

round_low : (w i v : ℕ) → IsRound w i v → (v % 2 == 0) ≡ not (wakes w i)
unfolding bit
round_low w i v r =
    let same : i + 0 ≡ i = omega arith in
    let here : bit v 0 ≡ (if cleared w i i then 0 else bit w i) =
      r 0 ∙ ap (λ (k : ℕ). if cleared w i k then 0 else bit w k) same in
    ground (arith, here, wakes_lem w i, bit_le_one w i)

next_skipped : (w i v : ℕ) → IsRound w i v → wakes w i ≡ false → IsRound w (i + 1) (v / 2)
unfolding bit
next_skipped w i v r asleep j =
    let shift : i + 1 + j ≡ i + suc j = omega arith in
    rw (shift, cleared_asleep w i (i + suc j) asleep) (r (suc j))

next_woken :
    (w i v : ℕ)
    → i < 64
    → v < 2 ^ 64
    → IsRound w i v
    → wakes w i ≡ true
    → IsRound w (i + 1) (clear_bit 64 v i / 2)
unfolding bit
next_woken w i v lt small r awake j =
    let shift : i + 1 + j ≡ i + suc j = omega arith in
    rw shift (
      ground
        (arith, bit-clear_bit 64 v i (suc j) lt small, r (suc j), cleared_awake w i (suc j) awake))

-- From round `i` on, the loop wakes the ids that are left to wake.
has-drained :
    (fuel w i v k : ℕ)
    → i + fuel ≤ 64
    → v < 2 ^ fuel
    → IsRound w i v
    → has k (drained fuel i v) ≡ (leb i k && (ltb k (i + fuel) && wakes w k))
unfolding drained has
has-drained zero w i v k fits small r = ground arith
has-drained (suc fuel) w i v k fits small r = elim (Bool-cases (wakes w i)) [
  | inl awake ↦
      let low : (v % 2 == 0) ≡ false = round_low w i v r ∙ ap not awake in
      let word : v < 2 ^ 64 = omega (
        arith,
        small,
        pow-le-pow_right {n = 2} (omega arith) {i = suc fuel} {j = 64} (omega arith),
      ) in
      let rest =
        has-drained fuel w (i + 1) (clear_bit 64 v i / 2) k (omega arith)
          (rest_lt fuel i v (omega arith) (omega arith) small)
          (next_woken w i v (omega arith) word r awake) in
      rw (low, rest)
        (elim (ℕ_discrete i k) [
          | yes e ↦ ground (arith, awake, ap (wakes w) e)
          | no ne ↦ ground arith
        ])
  | inr asleep ↦
      let low : (v % 2 == 0) ≡ true = round_low w i v r ∙ ap not asleep in
      let rest =
        has-drained fuel w (i + 1) (v / 2) k (omega arith) (omega (arith, small, pow-suc 2 fuel))
          (next_skipped w i v r asleep) in
      rw (low, rest)
        (elim (ℕ_discrete i k) [
          | yes e ↦ ground (arith, asleep, ap (wakes w) e)
          | no ne ↦ ground arith
        ])
]

first-IsRound : (w : ℕ) → IsRound w 0 w
first-IsRound w j = ground arith

-- Of the pending ids that a word names, `actual_wake` wakes id `k` unless `k` is the double of a
-- positive id that it wakes too: then the wake of `k` is lost.
drained_exactly :
    (w k : ℕ)
    → w < 2 ^ 64
    → has k (drained 64 0 w)
      ≡ ((bit w k == 1) && not (ltb 0 k && ((k % 2 == 0) && has (k / 2) (drained 64 0 w))))
drained_exactly w k small = elim (dec_lt k 64) [
  | yes lt ↦
      has-drained 64 w 0 w k (omega arith) small (first-IsRound w)
      ∙ ground
          (arith, wakes_lem w k, has-drained 64 w 0 w (k / 2) (omega arith) small (first-IsRound w))
  | no past ↦
      has-drained 64 w 0 w k (omega arith) small (first-IsRound w)
      ∙ ground (arith, past, bit_of_lt 64 w k small (omega (arith, past)))
]

-- `actual_wake` with a word of delayed wakes takes them all off and wakes each id of an increasing
-- list, once and in turn, as far as none of these wakes panics. Exactly those ids are on the list
-- whose bit is set, but for one that is the double of a positive id on the list: its wake is lost.
pub actual_wake_lem {ℓ} :
    {F : Type ℓ} (e : Executor F)
    → e.delay_wake_cids < 2 ^ 64
    → (ids : List ℕ) × IsRising 0 ids
      × (actual_wake e ≡ wake_all ids (record e { delay_wake_cids = 0 }))
      × ((k : ℕ)
          → has k ids ≡ (
              (bit e.delay_wake_cids k == 1) && not (ltb 0 k && ((k % 2 == 0) && has (k / 2) ids))))
actual_wake_lem e small = (
  drained 64 0 e.delay_wake_cids,
  drained-IsRising 64 0 e.delay_wake_cids,
  actual_wake-eq-wake_all e small,
  λ k. drained_exactly e.delay_wake_cids k small,
)
