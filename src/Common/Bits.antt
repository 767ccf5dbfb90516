-- ===== src/Common/Bits.antt =====
-- The bits of a machine word, and what `|`, `&`, `!` and `<<` do to each of them.
use Prim.Native.Nat.{ℕ, zero, suc, ◌+◌, ◌-◌, ◌*◌, ◌/◌, ◌%◌, ◌^◌, ◌≤◌, ◌<◌}
use Prim.Native.Nat.{min, max, digits, bit_and, bit_or, bit_and-bitwise, bit_or-bitwise}
use mathlib.Core.Path.{◌≡◌, refl}
use mathlib.Core.Logic.{◌≢◌}
use native.Mathlib.Nat.{pow-suc, one-le-pow}
use native.Mathlib.Omega.{arith}

-- Bit `i` of `x`, as a number.
unfoldable pub bit : ℕ → ℕ → ℕ
bit x zero = x % 2
bit x (suc i) = bit (x / 2) i

-- `1 << i`
abbrev pub mask : ℕ → ℕ
mask i = 2 ^ i

-- `!x` in a word of `w` bits
abbrev pub complement : ℕ → ℕ → ℕ
complement w x = 2 ^ w - 1 - x

pub bit_le_one : (x i : ℕ) → bit x i ≤ 1
unfolding bit
bit_le_one x zero = omega arith
bit_le_one x (suc i) = bit_le_one (x / 2) i

pub bit_zero : (i : ℕ) → bit 0 i ≡ 0
unfolding bit
bit_zero zero = refl
bit_zero (suc i) = bit_zero i

-- A digitwise operation works on each bit alone.
module _ (z : ℕ → ℕ) (f : ℕ → ℕ → ℕ) (out : (b i : ℕ) → bit (z b) i ≡ f 0 (bit b i))
    (digit : (x y : ℕ) → x ≤ 1 → y ≤ 1 → f x y ≤ 1) where
  run_out : (b i : ℕ) → bit (z b) i ≡ f (bit 0 i) (bit b i)
  run_out b i = omega (arith, out b i, ap_zero)
    where
      ap_zero : f (bit 0 i) (bit b i) ≡ f 0 (bit b i)
      ap_zero = rw (bit_zero i) refl

  bit-digits : (n a b i : ℕ) → a ≤ n → bit (digits z f n a b) i ≡ f (bit a i) (bit b i)
  unfolding bit
  bit-digits zero zero b i h = run_out b i
  bit-digits zero (suc a) b i h = absurd (omega arith)
  bit-digits (suc n) zero b i h = run_out b i
  bit-digits (suc n) (suc a) b zero h =
      omega (arith, digit (suc a % 2) (b % 2) (omega arith) (omega arith))
  bit-digits (suc n) (suc a) b (suc i) h =
      rw halved (bit-digits n (suc a / 2) (b / 2) i (omega arith))
    where
      halved :
          (digits z f n (suc a / 2) (b / 2) * 2 + f (suc a % 2) (b % 2)) / 2
          ≡ digits z f n (suc a / 2) (b / 2)
      halved = omega (arith, digit (suc a % 2) (b % 2) (omega arith) (omega arith))

pub bit-bit_or : (a b i : ℕ) → bit (bit_or a b) i ≡ max (bit a i) (bit b i)
bit-bit_or a b i =
    rw bit_or-bitwise
      (bit-digits (λ y. y) max (λ y j. omega arith) (λ x y p q. omega arith) a a b i (omega arith))

pub bit-bit_and : (a b i : ℕ) → bit (bit_and a b) i ≡ min (bit a i) (bit b i)
bit-bit_and a b i = rw bit_and-bitwise (
    bit-digits (λ y. 0) min (λ y j. omega (arith, bit_zero j)) (λ x y p q. omega arith) a a b i
      (omega arith))

half_pow : (p : ℕ) → (2 ^ suc p % 2 ≡ 0) × (2 ^ suc p / 2 ≡ 2 ^ p)
half_pow p = omega (arith, pow-suc 2 p)

pub bit-mask_self : (p : ℕ) → bit (mask p) p ≡ 1
unfolding bit
bit-mask_self zero = refl
bit-mask_self (suc p) = rw ((half_pow p).1) (bit-mask_self p)

pub bit-mask_ne : (p i : ℕ) → p ≢ i → bit (mask p) i ≡ 0
unfolding bit
bit-mask_ne zero zero h = absurd (h refl)
bit-mask_ne zero (suc i) h = bit_zero i
bit-mask_ne (suc p) zero h = (half_pow p).0
bit-mask_ne (suc p) (suc i) h = rw ((half_pow p).1) (bit-mask_ne p i (omega arith))

pub bit-complement : (w x i : ℕ) → x < 2 ^ w → i < w → bit (complement w x) i ≡ 1 - bit x i
unfolding bit
bit-complement zero x i h lt = absurd (omega arith)
bit-complement (suc w) x zero h lt = omega (arith, pow-suc 2 w, one-le-pow w 2 (omega arith))
bit-complement (suc w) x (suc i) h lt =
    rw halved (bit-complement w (x / 2) i (omega (arith, pow-suc 2 w)) (omega arith))
  where
    halved : complement (suc w) x / 2 ≡ complement w (x / 2)
    halved = omega (arith, pow-suc 2 w, one-le-pow w 2 (omega arith))

-- A word of `w` bits has none from `w` on.
pub bit_of_lt : (w x i : ℕ) → x < 2 ^ w → w ≤ i → bit x i ≡ 0
unfolding bit
bit_of_lt zero x i h le = rw x_zero (bit_zero i)
  where
    x_zero : x ≡ 0
    x_zero = omega arith
bit_of_lt (suc w) x zero h le = absurd (omega arith)
bit_of_lt (suc w) x (suc i) h le = bit_of_lt w (x / 2) i (omega (arith, pow-suc 2 w)) (omega arith)

-- Without a set bit a number is 0.
zero_of_bits_below : (n x : ℕ) → x ≤ n → ((i : ℕ) → bit x i ≡ 0) → x ≡ 0
unfolding bit
zero_of_bits_below zero x le h = omega arith
zero_of_bits_below (suc n) zero le h = refl
zero_of_bits_below (suc n) (suc x) le h =
    omega (arith, zero_of_bits_below n (suc x / 2) (omega arith) (λ i. h (suc i)), h 0)

pub zero_of_bits : (x : ℕ) → ((i : ℕ) → bit x i ≡ 0) → x ≡ 0
zero_of_bits x h = zero_of_bits_below x x (omega arith) h

pub lt_of_bits : (w x : ℕ) → ((i : ℕ) → w ≤ i → bit x i ≡ 0) → x < 2 ^ w
unfolding bit
lt_of_bits zero x h = omega (arith, zero_of_bits x (λ i. h i (omega arith)))
lt_of_bits (suc w) x h =
    omega (arith, pow-suc 2 w, lt_of_bits w (x / 2) (λ i le. h (suc i) (omega arith)))
