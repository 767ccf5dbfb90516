-- ===== src/Utils/BitMap64.antt =====
-- `BitMap64` of crates/example/async_runtime/src/utils.rs: a set of positions below 64 in one word.
-- Overflow checks are on, as in the build of the Makefile, so a shift by 64 or more panics.
use native.Mathlib.Decide.{dec_lt}
use rust_root_task_demo.Common.{
  arith, ℕ, ◌^◌, ◌<◌, ◌≡◌, refl, Bool, Outcome, ret, ◌>>◌, assert, ltb, ltb_of_lt, ◌==◌,
  if◌then◌else◌,
}
use rust_root_task_demo.Common.Bits.{zero_of_bits, bit_of_lt, bit, bit_zero}
use rust_root_task_demo.Common.Words.{
  IsLowestOne, IsLowestZero, trailing_zeros-IsLowestOne, trailing_ones-IsLowestZero, set_bit,
  clear_bit, test_bit, trailing_zeros, trailing_ones, test_bit-eq-bit, bit-set_bit, bit-clear_bit,
  set_bit_lt, clear_bit_lt,
}

pub record BitMap64 : Type 0 where
  pub word : ℕ  -- `data: u64`

unfoldable pub new : BitMap64
new = record { word = 0 }

unfoldable pub empty : BitMap64 → Bool
empty b = b.word == 0

pub set : BitMap64 → ℕ → Outcome BitMap64
set b pos = do assert (ltb pos 64); ret (record b { word = set_bit b.word pos })

pub get : BitMap64 → ℕ → Outcome Bool
get b pos = do assert (ltb pos 64); ret (test_bit b.word pos)

pub clear : BitMap64 → ℕ → Outcome BitMap64
clear b pos = do assert (ltb pos 64); ret (record b { word = clear_bit 64 b.word pos })

unfoldable pub find_first_one : BitMap64 → ℕ
find_first_one b = trailing_zeros 64 b.word

pub find_first_zero : BitMap64 → ℕ
find_first_zero b = trailing_ones 64 b.word

-- 1 if the position is in the set
abbrev pub member : BitMap64 → ℕ → ℕ
member b pos = bit b.word pos

abbrev pub IsWord : BitMap64 → Type 0
IsWord b = b.word < 2 ^ 64

abbrev pub with_set : BitMap64 → ℕ → BitMap64
with_set b pos = record { word = set_bit b.word pos }

abbrev pub with_clear : BitMap64 → ℕ → BitMap64
with_clear b pos = record { word = clear_bit 64 b.word pos }

pub set_in_range : (b : BitMap64) (pos : ℕ) → pos < 64 → set b pos ≡ ret (with_set b pos)
unfolding set
set_in_range b pos h = rw (ltb_of_lt pos 64 h) refl

pub clear_in_range : (b : BitMap64) (pos : ℕ) → pos < 64 → clear b pos ≡ ret (with_clear b pos)
unfolding clear
clear_in_range b pos h = rw (ltb_of_lt pos 64 h) refl

pub get_in_range : (b : BitMap64) (pos : ℕ) → pos < 64 → get b pos ≡ ret (member b pos == 1)
unfolding get
get_in_range b pos h = rw (ltb_of_lt pos 64 h, test_bit-eq-bit) refl

pub member-new : (i : ℕ) → member new i ≡ 0
unfolding new
member-new i = bit_zero i

pub member-with_set :
    (b : BitMap64) (pos i : ℕ) → member (with_set b pos) i ≡ (if pos == i then 1 else member b i)
member-with_set b pos i = bit-set_bit b.word pos i

pub member-with_clear :
    (b : BitMap64) (pos i : ℕ)
    → pos < 64
    → IsWord b
    → member (with_clear b pos) i ≡ (if pos == i then 0 else member b i)
member-with_clear b pos i h w = bit-clear_bit 64 b.word pos i h w

pub with_set-IsWord : (b : BitMap64) (pos : ℕ) → pos < 64 → IsWord b → IsWord (with_set b pos)
with_set-IsWord b pos h w = set_bit_lt 64 b.word pos h w

pub with_clear-IsWord : (b : BitMap64) (pos : ℕ) → pos < 64 → IsWord b → IsWord (with_clear b pos)
with_clear-IsWord b pos h w = clear_bit_lt 64 b.word pos h w

pub find_first_one_lem : (b : BitMap64) → IsLowestOne 64 b.word (find_first_one b)
unfolding find_first_one
find_first_one_lem b = trailing_zeros-IsLowestOne 64 b.word

pub find_first_zero_lem : (b : BitMap64) → IsLowestZero 64 b.word (find_first_zero b)
unfolding find_first_zero
find_first_zero_lem b = trailing_ones-IsLowestZero 64 b.word

-- The word is 0 exactly when no position is in the set.
pub word_zero : (b : BitMap64) → IsWord b → ((i : ℕ) → i < 64 → member b i ≡ 0) → b.word ≡ 0
word_zero b w h =
    zero_of_bits b.word
      λ i. elim (dec_lt i 64) [ yes lt ↦ h i lt | no ge ↦ bit_of_lt 64 b.word i w (omega arith) ]

pub member_of_word_zero : (b : BitMap64) (i : ℕ) → b.word ≡ 0 → member b i ≡ 0
member_of_word_zero b i e = rw e (bit_zero i)
