-- ===== src/Utils/IndexAllocator/Bitmap.antt =====
-- The representation of an index allocator: which bit stands for which index, and what `find` sees.
use native.Mathlib.Decide.{ℕ_discrete}
use rust_root_task_demo.Common.{
  ℕ, zero, suc, ◌+◌, ◌/◌, ◌%◌, ◌<◌, ◌≤◌, ◌≡◌, refl, Option, none, some, arith, length, get_or, set,
  Outcome, ret, read_in_range, length-set, get_or-set_self, get_or-set_ne, length-replicate,
  get_or-replicate, if◌then◌else◌, ◌==◌, ==_self, ==_ne, ==_eq,
}
use rust_root_task_demo.Common.Bits.{bit, bit_le_one}
use rust_root_task_demo.Common.Words.{
  set_bit, clear_bit, test_bit-eq-bit, bit-set_bit, bit-clear_bit,
}
use rust_root_task_demo.Utils.IndexAllocator.{IndexAllocator, find_free, new}

-- 1 if the index is handed out
abbrev pub used : IndexAllocator → ℕ → ℕ
used a i = bit (get_or a.bitmap (i / 8) 0) (i % 8)

pub record IsValid (size : ℕ) (a : IndexAllocator) : Type 0 where
  pub bytes : length a.bitmap ≡ (size + 7) / 8
  pub byte_lt : (j : ℕ) → get_or a.bitmap j 0 < 256

pub new-IsValid : (size : ℕ) → IsValid size (new size)
unfolding new
new-IsValid size = record {
  bytes = length-replicate ((size + 7) / 8) 0;
  byte_lt = λ j. omega (arith, get_or-replicate {A = ℕ} ((size + 7) / 8) j 0);
}

-- What `find` returns: the first free index of a range.
pub data Found (a : IndexAllocator) (i left : ℕ) : Outcome (Option ℕ) → Type 0 where
  all_used : ((j : ℕ) → i ≤ j → j < i + left → used a j ≡ 1) → Found a i left (ret none)
  first_free :
      (k : ℕ)
      → i ≤ k
      → k < i + left
      → used a k ≡ 0
      → ((j : ℕ) → i ≤ j → j < k → used a j ≡ 1)
      → Found a i left (ret (some k))

module _ (size : ℕ) (a : IndexAllocator) (v : IsValid size a) where
  find_free_step :
      (left i : ℕ)
      → i + suc left ≤ size
      → find_free a.bitmap (suc left) i
        ≡ (if used a i == 1 then find_free a.bitmap left (i + 1) else ret (some i))
  unfolding find_free
  find_free_step left i h =
      rw
        (
          read_in_range a.bitmap (i / 8) 0 (omega (arith, v.bytes)),
          test_bit-eq-bit (get_or a.bitmap (i / 8) 0) (i % 8),
        )
        refl

  -- `used a j` at the index that was looked at, and at those after it
  extend :
      {i k : ℕ}
      → used a i ≡ 1
      → ((j : ℕ) → i + 1 ≤ j → j < k → used a j ≡ 1)
      → (j : ℕ) → i ≤ j
      → j < k
      → used a j ≡ 1
  extend {i} u h j p q = elim (ℕ_discrete i j) [ yes e ↦ rw (← e) u | no ne ↦ h j (omega arith) q ]

  Found-next :
      {left i : ℕ} {o : Outcome (Option ℕ)}
      → used a i ≡ 1
      → Found a (i + 1) left o
      → Found a i (suc left) o
  Found-next {left} {i} u (all_used h) = all_used (extend u λ j p q. h j p (omega arith))
  Found-next u (first_free k p q free h) =
      first_free k (omega arith) (omega arith) free (extend u h)

  pub find_free-Found : (left i : ℕ) → i + left ≤ size → Found a i left (find_free a.bitmap left i)
  find_free-Found zero i h = unfold find_free in all_used (λ j p q. absurd (omega arith))
  find_free-Found (suc left) i h = elim (ℕ_discrete (used a i) 1) [
    | yes e ↦
        rw (find_free_step left i h, ==_eq (used a i) 1 e)
          (Found-next e (find_free-Found left (i + 1) (omega arith)))
    | no ne ↦
        rw (find_free_step left i h, ==_ne (used a i) 1 ne)
          (first_free i (omega arith) (omega arith)
            (omega (arith, ne, bit_le_one (get_or a.bitmap (i / 8) 0) (i % 8)))
            (λ j p q. absurd (omega arith)))
  ]

  -- Replacing one byte changes the indices of that byte alone.
  used-set :
      (k j w : ℕ)
      → k < size
      → used (record a { bitmap = set a.bitmap (k / 8) w }) j
        ≡ (if k / 8 == j / 8 then bit w (j % 8) else used a j)
  used-set k j w h = elim (ℕ_discrete (k / 8) (j / 8)) [
    | yes e ↦
        rw (← e, ==_self (k / 8), get_or-set_self a.bitmap (k / 8) w 0 (omega (arith, v.bytes)))
    | no ne ↦ rw (==_ne (k / 8) (j / 8) ne, get_or-set_ne a.bitmap (k / 8) (j / 8) w 0 ne)
  ]

  pub set-IsValid :
      (k w : ℕ) → k < size → w < 256 → IsValid size (record a { bitmap = set a.bitmap (k / 8) w })
  set-IsValid k w h small = record {
    bytes = omega (arith, length-set a.bitmap (k / 8) w, v.bytes);
    byte_lt = λ j. elim (ℕ_discrete (k / 8) j) [
      | yes e ↦ rw (← e, get_or-set_self a.bitmap (k / 8) w 0 (omega (arith, v.bytes))) small
      | no ne ↦ rw (get_or-set_ne a.bitmap (k / 8) j w 0 ne) (v.byte_lt j)
    ];
  }

  abbrev pub byte_of : ℕ → ℕ
  byte_of k = get_or a.bitmap (k / 8) 0

  -- The allocator with index `k` marked, and with `k` given back.
  abbrev pub marked : ℕ → IndexAllocator
  marked k = record a { bitmap = set a.bitmap (k / 8) (set_bit (byte_of k) (k % 8)) }

  abbrev pub freed : ℕ → IndexAllocator
  freed k = record a { bitmap = set a.bitmap (k / 8) (clear_bit 8 (byte_of k) (k % 8)) }

  pub used-marked : (k j : ℕ) → k < size → used (marked k) j ≡ (if k == j then 1 else used a j)
  used-marked k j h =
      ground (
        arith,
        used-set k j (set_bit (byte_of k) (k % 8)) h,
        bit-set_bit (byte_of k) (k % 8) (j % 8),
      )

  pub used-freed : (k j : ℕ) → k < size → used (freed k) j ≡ (if k == j then 0 else used a j)
  used-freed k j h = ground (
    arith,
    used-set k j (clear_bit 8 (byte_of k) (k % 8)) h,
    bit-clear_bit 8 (byte_of k) (k % 8) (j % 8) (omega arith) (v.byte_lt (k / 8)),
  )
