-- ===== src/Utils/IndexAllocator/Laws.antt =====
-- `allocate` and `release` of an `IndexAllocator`, by which indices are in use.
use rust_root_task_demo.Common.{
  ℕ, ◌/◌, ◌%◌, ◌<◌, ◌≡◌, refl, subst, Option, none, some, arith, Outcome, ret, panic, ◌>>=◌,
  read_in_range, write_in_range, if◌then◌else◌, ◌==◌,
}
use rust_root_task_demo.Common.Words.{set_bit, clear_bit, set_bit_lt, clear_bit_lt}
use rust_root_task_demo.Utils.IndexAllocator.Bitmap.{
  used, IsValid, Found, all_used, first_free, find_free-Found, marked, freed, used-marked,
  used-freed, set-IsValid, byte_of,
}
use rust_root_task_demo.Utils.IndexAllocator.{
  IndexAllocator, find_free, take_index, allocate, release,
}

-- What `allocate` does: it finds every index in use and changes nothing, or it hands out the
-- lowest free one and marks that one alone.
pub data Allocates (size : ℕ) (a : IndexAllocator)
    : Outcome (Option ℕ × IndexAllocator) → Type 0 where
  full : ((j : ℕ) → j < size → used a j ≡ 1) → Allocates size a (ret (none, a))
  fresh :
      (k : ℕ) (a' : IndexAllocator)
      → k < size
      → used a k ≡ 0
      → ((j : ℕ) → j < k → used a j ≡ 1)
      → ((j : ℕ) → used a' j ≡ (if k == j then 1 else used a j))
      → IsValid size a'
      → Allocates size a (ret (some k, a'))

module _ (size : ℕ) (a : IndexAllocator) (v : IsValid size a) where
  marks_found : (k : ℕ) → k < size → take_index size a (some k) ≡ ret (some k, marked size a v k)
  unfolding take_index
  marks_found k h =
      rw
        (
          read_in_range a.bitmap (k / 8) 0 (omega (arith, v.bytes)),
          write_in_range a.bitmap (k / 8) (set_bit (byte_of size a v k) (k % 8))
              (omega (arith, v.bytes)),
        )
        refl

  take_index-Allocates :
      (o : Outcome (Option ℕ)) → Found a 0 size o → Allocates size a (o >>= take_index size a)
  take_index-Allocates (ret none) (all_used h) =
      unfold take_index in full λ j p. h j (omega arith) (omega arith)
  take_index-Allocates (ret (some _)) (first_free k p q free h) = rw (marks_found k (omega arith)) (
      fresh k (marked size a v k) (omega arith) free (λ j r. h j (omega arith) r)
        (λ j. used-marked size a v k j (omega arith))
        (set-IsValid size a v k (set_bit (byte_of size a v k) (k % 8)) (omega arith)
          (set_bit_lt 8 (byte_of size a v k) (k % 8) (omega arith) (v.byte_lt (k / 8)))))
  take_index-Allocates panic f = elim f [ ]

  -- `allocate` never panics: with every index in use it returns `None` and changes nothing, else
  -- it returns the lowest free index, marks it, and leaves every other index as it was.
  pub allocate-Allocates : Allocates size a (allocate size a)
  unfolding allocate
  allocate-Allocates =
      take_index-Allocates (find_free a.bitmap size 0)
        (find_free-Found size a v size 0 (omega arith))

  -- `release` of an index in range frees it and leaves every other index as it was.
  pub release_lem :
      (k : ℕ)
      → k < size
      → (a' : IndexAllocator) × (release a k ≡ ret a')
        × ((j : ℕ) → used a' j ≡ (if k == j then 0 else used a j))
        × IsValid size a'
  unfolding release
  release_lem k h = (
    freed size a v k,
    rw
        (
          read_in_range a.bitmap (k / 8) 0 (omega (arith, v.bytes)),
          write_in_range a.bitmap (k / 8) (clear_bit 8 (byte_of size a v k) (k % 8))
              (omega (arith, v.bytes)),
        )
        refl,
    λ j. used-freed size a v k j h,
    set-IsValid size a v k (clear_bit 8 (byte_of size a v k) (k % 8)) h
        (clear_bit_lt 8 (byte_of size a v k) (k % 8) (omega arith) (v.byte_lt (k / 8))),
  )

-- What an allocation that returned an index leaves behind.
Allocates-some :
    {size : ℕ} {a : IndexAllocator} {o : Outcome (Option ℕ × IndexAllocator)}
    → Allocates size a o
    → (k : ℕ) (a' : IndexAllocator) → o ≡ ret (some k, a')
    → (k < size)
      × (used a k ≡ 0)
      × ((j : ℕ) → used a' j ≡ (if k == j then 1 else used a j))
      × IsValid size a'
Allocates-some {a} (full h) k a' e = absurd (cc)
Allocates-some {size} {a} (fresh k₀ a₀ lt free low marks valid) k a' e =
    let same : k₀ ≡ k = cc in
    let after : a₀ ≡ a' = cc in
    (
      rw (← same) lt,
      rw (← same) free,
      λ j. rw (← after, ← same) (marks j),
      subst (IsValid size) after valid,
    )

-- Giving back the index that `allocate` handed out restores what was in use before.
pub release-allocate :
    (size : ℕ) (a a' : IndexAllocator) (k : ℕ)
    → IsValid size a
    → allocate size a ≡ ret (some k, a')
    → (b : IndexAllocator) × (release a' k ≡ ret b)
      × ((j : ℕ) → used b j ≡ used a j)
      × IsValid size b
release-allocate size a a' k v e =
    let (lt, free, marks, v') = Allocates-some (allocate-Allocates size a v) k a' e in
    let (b, returns, frees, valid) = release_lem size a' v' k lt in
    (b, returns, (λ j. ground (arith, frees j, marks j, same_index free j)), valid)
  where
    same_index : used a k ≡ 0 → (j : ℕ) → k ≡ j → used a j ≡ 0
    same_index free j h = rw (← h) free
