-- ===== src/Coroutine.antt =====
-- crates/example/async_runtime/src/coroutine.rs: coroutine ids and coroutines.
-- A coroutine id is a `u32`. A future is code outside the runtime, so a coroutine holds a handle
-- of a type `F`, and polling it is a parameter of the code that executes coroutines. The waker
-- does nothing when it is called, and is left out.
use rust_root_task_demo.Common.{unwrap, ret, Outcome, ◌>>=◌, ◌^◌, ◌%◌, ℕ}
use rust_root_task_demo.Utils.IndexAllocator
use rust_root_task_demo.Utils.IndexAllocator.{IndexAllocator}

-- `CID_ALLOCATOR: IndexAllocator<4096>`
abbrev pub max_cid_num : ℕ
max_cid_num = 4096

pub record Coroutine {ℓ} (F : Type ℓ) : Type ℓ where
  pub cid : ℕ
  pub prio : ℕ
  pub future : F

-- `Poll<()>`
pub data Poll : Type 0 where
  ready pending : Poll

-- `CoroutineId::generate`
unfoldable pub generate : IndexAllocator → Outcome (ℕ × IndexAllocator)
generate ids = do
  (found, ids') ← IndexAllocator.allocate max_cid_num ids
  cid ← unwrap found
  ret (cid % 2 ^ 32, ids')

-- `CoroutineId::release`
unfoldable pub release : IndexAllocator → ℕ → Outcome IndexAllocator
release ids cid = IndexAllocator.release ids cid

-- `Coroutine::new`
unfoldable pub new {ℓ} :
    {F : Type ℓ} → IndexAllocator → F → ℕ → Outcome (Coroutine F × IndexAllocator)
new ids future prio = do
  (cid, ids') ← generate ids
  ret (record { cid = cid; prio = prio; future = future }, ids')
