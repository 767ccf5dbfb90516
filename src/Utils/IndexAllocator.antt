-- ===== src/Utils/IndexAllocator.antt =====
-- `IndexAllocator<SIZE>` of crates/example/async_runtime/src/utils.rs: a bitmap of bytes in which
-- a set bit is an index that is handed out.
pub mod Bitmap
pub mod Laws
use rust_root_task_demo.Common.{
  ℕ, zero, suc, ◌+◌, ◌/◌, ◌%◌, List, Option, none, some, replicate, Outcome, ret, ◌>>=◌, read,
  write, if◌then◌else◌,
}
use rust_root_task_demo.Common.Words.{set_bit, clear_bit, test_bit}

pub record IndexAllocator : Type 0 where
  pub bitmap : List ℕ  -- `[u8; (SIZE + 7) / 8]`

-- The closure of `find`, for the indices from `i` on with `left` of them to go.
unfoldable pub find_free : List ℕ → ℕ → ℕ → Outcome (Option ℕ)
find_free bitmap zero i = ret none
find_free bitmap (suc left) i =
    let rest = find_free bitmap left (i + 1) in
    do byte ← read bitmap (i / 8); if test_bit byte (i % 8) then rest else ret (some i)

module _ (size : ℕ) where
  unfoldable pub new : IndexAllocator
  new = record { bitmap = replicate ((size + 7) / 8) 0 }

  -- The closure of `map`: marks the index that `find` found.
  unfoldable pub take_index : IndexAllocator → Option ℕ → Outcome (Option ℕ × IndexAllocator)
  take_index a none = ret (none, a)
  take_index a (some index) = do
    byte ← read a.bitmap (index / 8)
    bitmap ← write a.bitmap (index / 8) (set_bit byte (index % 8))
    ret (some index, record a { bitmap = bitmap })

  unfoldable pub allocate : IndexAllocator → Outcome (Option ℕ × IndexAllocator)
  unfolding take_index
  allocate a = do found ← find_free a.bitmap size 0; take_index a found

pub release : IndexAllocator → ℕ → Outcome IndexAllocator
release a index = do
  byte ← read a.bitmap (index / 8)
  bitmap ← write a.bitmap (index / 8) (clear_bit 8 byte (index % 8))
  ret (record a { bitmap = bitmap })
