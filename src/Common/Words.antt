-- ===== src/Common/Words.antt =====
-- Single bits of a word: the expressions of the source that set, clear, test and find one.
use Prim.Native.Nat.{ℕ, zero, suc, ◌/◌, ◌%◌, ◌^◌, ◌≤◌, ◌<◌, bit_and, bit_or}
use mathlib.Core.Path.{◌≡◌, sym}
use mathlib.Core.Logic.{◌≢◌, inl, inr}
use mathlib.Core.Bool.{Bool, not}
use native.Mathlib.Nat.{pow-le-pow_right, pow-suc, one-le-pow}
use native.Mathlib.Decide.{dec_lt, ℕ_discrete}
use native.Mathlib.Omega.{arith}
use rust_root_task_demo.Common.Tests.{◌==◌, if◌then◌else◌, ==_iff, ==_ne, Bool-cases}
use rust_root_task_demo.Common.Bits.{
  bit, mask, complement, bit_le_one, bit-bit_or, bit-bit_and, bit-mask_self, bit-mask_ne,
  bit-complement, bit_of_lt, zero_of_bits, lt_of_bits, bit_zero,
}

-- `x | 1 << p`
unfoldable pub set_bit : ℕ → ℕ → ℕ
set_bit x p = bit_or x (mask p)

-- `x & !(1 << p)` in a word of `w` bits
pub clear_bit : ℕ → ℕ → ℕ → ℕ
clear_bit w x p = bit_and x (complement w (mask p))

-- `x & (1 << p) != 0`
unfoldable pub test_bit : ℕ → ℕ → Bool
test_bit x p = not (bit_and x (mask p) == 0)

mask_lt : (w p : ℕ) → p < w → mask p < 2 ^ w
mask_lt w p h = omega (
  arith,
  pow-suc 2 p,
  one-le-pow p 2 (omega arith),
  pow-le-pow_right {n = 2} (omega arith) {i = suc p} {j = w} h,
)

pub bit-set_bit : (x p i : ℕ) → bit (set_bit x p) i ≡ (if p == i then 1 else bit x i)
unfolding set_bit
bit-set_bit x p i = elim (ℕ_discrete p i) [
  | yes e ↦ rw (← e) (ground (arith, bit-bit_or x (mask p) p, bit-mask_self p, bit_le_one x p))
  | no ne ↦ ground (arith, bit-bit_or x (mask p) i, bit-mask_ne p i ne)
]

pub bit-clear_bit :
    (w x p i : ℕ) → p < w → x < 2 ^ w → bit (clear_bit w x p) i ≡ (if p == i then 0 else bit x i)
unfolding clear_bit
bit-clear_bit w x p i hp hx = elim (dec_lt i w) [
  | yes h ↦ elim (ℕ_discrete p i) [
    | yes e ↦ ground (
      arith,
      bit-bit_and x (complement w (mask p)) i,
      bit-complement w (mask p) i (mask_lt w p hp) h,
      rw e at (bit-mask_self p),
    )
    | no ne ↦ ground (
      arith,
      bit-bit_and x (complement w (mask p)) i,
      bit-complement w (mask p) i (mask_lt w p hp) h,
      bit-mask_ne p i ne,
      bit_le_one x i,
    )
  ]
  | no h ↦ ground (arith, bit-bit_and x (complement w (mask p)) i, bit_of_lt w x i hx)
]

pub set_bit_lt : (w x p : ℕ) → p < w → x < 2 ^ w → set_bit x p < 2 ^ w
set_bit_lt w x p hp hx =
    lt_of_bits w (set_bit x p) λ i le. ground (arith, bit-set_bit x p i, bit_of_lt w x i hx le)

pub clear_bit_lt : (w x p : ℕ) → p < w → x < 2 ^ w → clear_bit w x p < 2 ^ w
clear_bit_lt w x p hp hx =
    lt_of_bits w (clear_bit w x p)
      λ i le. ground (arith, bit-clear_bit w x p i hp hx, bit_of_lt w x i hx le)

pub test_bit-eq-bit : (x p : ℕ) → test_bit x p ≡ (bit x p == 1)
unfolding test_bit
test_bit-eq-bit x p = elim (ℕ_discrete (bit x p) 1) [
  | yes e ↦ rw (==_ne (bit_and x (mask p)) 0 (hit e)) (sym (ground (arith, e)))
  | no ne ↦ rw (zero_of_bits (bit_and x (mask p)) (miss ne)) (sym (==_ne (bit x p) 1 ne))
]
  where
    hit : bit x p ≡ 1 → bit_and x (mask p) ≢ 0
    hit e h =
        let gone : bit (bit_and x (mask p)) p ≡ 0 = rw h (bit_zero p) in
        omega (arith, e, gone, bit-bit_and x (mask p) p, bit-mask_self p)

    miss : bit x p ≢ 1 → (i : ℕ) → bit (bit_and x (mask p)) i ≡ 0
    miss ne i = elim (ℕ_discrete p i) [
      | yes e ↦ rw (← e) (omega (arith, ne, bit_le_one x p, bit-bit_and x (mask p) p))
      | no apart ↦ omega (arith, bit-bit_and x (mask p) i, bit-mask_ne p i apart)
    ]

-- `x.trailing_zeros()` of a word of `w` bits: `w` where no bit is set
unfoldable pub trailing_zeros : ℕ → ℕ → ℕ
trailing_zeros zero x = 0
trailing_zeros (suc w) x = if x % 2 == 1 then 0 else suc (trailing_zeros w (x / 2))

-- `x.trailing_ones()`
pub trailing_ones : ℕ → ℕ → ℕ
trailing_ones zero x = 0
trailing_ones (suc w) x = if x % 2 == 0 then 0 else suc (trailing_ones w (x / 2))

-- The lowest set bit: everything below it is clear.
pub record IsLowestOne (w x k : ℕ) : Type 0 where
  pub within : k ≤ w
  pub hit : k < w → bit x k ≡ 1
  pub below : (i : ℕ) → i < k → bit x i ≡ 0

pub trailing_zeros-IsLowestOne : (w x : ℕ) → IsLowestOne w x (trailing_zeros w x)
unfolding trailing_zeros bit
trailing_zeros-IsLowestOne zero x = record {
  within = omega arith;
  hit = λ h. absurd (omega arith);
  below = λ i h. absurd (omega arith);
}
trailing_zeros-IsLowestOne (suc w) x = elim (Bool-cases (x % 2 == 1)) [
  | inl odd ↦ rw odd (record {
    within = omega arith;
    hit = λ h. (==_iff (x % 2) 1).0 odd;
    below = λ i h. absurd (omega arith);
  })
  | inr even ↦
      let rest = trailing_zeros-IsLowestOne w (x / 2) in
      rw even (record {
        within = omega (arith, rest.within);
        hit = λ h. rest.hit (omega arith);
        below = elim [ zero ↦ λ h. ground arith | suc i ↦ λ h. rest.below i (omega arith) ];
      })
]

pub record IsLowestZero (w x k : ℕ) : Type 0 where
  pub within : k ≤ w
  pub hit : k < w → bit x k ≡ 0
  pub below : (i : ℕ) → i < k → bit x i ≡ 1

pub trailing_ones-IsLowestZero : (w x : ℕ) → IsLowestZero w x (trailing_ones w x)
unfolding trailing_ones bit
trailing_ones-IsLowestZero zero x = record {
  within = omega arith;
  hit = λ h. absurd (omega arith);
  below = λ i h. absurd (omega arith);
}
trailing_ones-IsLowestZero (suc w) x = elim (Bool-cases (x % 2 == 0)) [
  | inl even ↦ rw even (record {
    within = omega arith;
    hit = λ h. (==_iff (x % 2) 0).0 even;
    below = λ i h. absurd (omega arith);
  })
  | inr odd ↦
      let rest = trailing_ones-IsLowestZero w (x / 2) in
      rw odd (record {
        within = omega (arith, rest.within);
        hit = λ h. rest.hit (omega arith);
        below = elim [ zero ↦ λ h. ground arith | suc i ↦ λ h. rest.below i (omega arith) ];
      })
]
