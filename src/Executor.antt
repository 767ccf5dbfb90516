-- ===== src/Executor.antt =====
-- crates/example/async_runtime/src/executor.rs: the scheduler of one thread. A thread's executor
-- and its id allocator make up its `Runtime`.
pub mod Invariant
pub mod Schedule
pub mod Drain
pub mod Lost
pub mod Returns
pub mod Fetch
pub mod Dispatch
pub mod Starve
pub mod Spawn
pub mod Liveness
pub mod Remove
pub mod Keeps
pub mod Count
pub mod Soundness
pub mod Reach
use rust_root_task_demo.Common.{
  write, read, assert, unwrap_ok, unwrap, panic, ret, Outcome, replicate, ltb, [], List, some, none,
  Option, Bool, suc, zero, ◌>>◌, if◌then◌else◌, ◌>>=◌, ◌==◌, ◌++◌, ◌∷◌, ◌^◌, ◌%◌, ◌/◌, ◌-◌, ◌+◌, ℕ,
}
use rust_root_task_demo.Common.Words.{set_bit, clear_bit}
use rust_root_task_demo.Utils.IndexAllocator.{IndexAllocator}
use rust_root_task_demo.Utils.BitMap64
use rust_root_task_demo.Utils.BitMap64.{BitMap64}
use rust_root_task_demo.Utils.RingBuffer
use rust_root_task_demo.Utils.RingBuffer.{RingBuffer}
use rust_root_task_demo.Coroutine
use rust_root_task_demo.Coroutine.{Coroutine, Poll, max_cid_num}

abbrev pub max_task_num : ℕ
max_task_num = 2048

abbrev pub max_prio_num : ℕ
max_prio_num = 8

pub record Executor {ℓ} (F : Type ℓ) : Type ℓ where
  pub ready_queue : List (RingBuffer ℕ)
  pub prio_bitmap : BitMap64
  pub coroutine_num : ℕ
  pub current : Option ℕ
  pub tasks : List (Option (Coroutine F))
  pub delay_wake_cids : ℕ  -- `AtomicU64`
  pub tasks_bak : List (Coroutine F)

pub record Runtime {ℓ} (F : Type ℓ) : Type ℓ where
  pub executor : Executor F
  pub cids : IndexAllocator  -- `CID_ALLOCATOR`

module _ {ℓ} {F : Type ℓ} where
  unfoldable pub new : Executor F
  new = record {
    ready_queue = replicate max_prio_num (RingBuffer.new 0 max_task_num);
    prio_bitmap = BitMap64.new;
    coroutine_num = 0;
    current = none;
    tasks = replicate max_task_num none;
    delay_wake_cids = 0;
    tasks_bak = [];
  }

  pub get_ready_num : Executor F → Outcome ℕ
  get_ready_num e = do q ← read e.ready_queue 2; ret (RingBuffer.size max_task_num q)

  -- `self.ready_queue[prio].push(&cid).unwrap()`
  pub push_ready : Executor F → ℕ → ℕ → Outcome (Executor F)
  push_ready e prio cid = do
    q ← read e.ready_queue prio
    (pushed, q') ← RingBuffer.push max_task_num q cid
    unwrap_ok pushed
    queues ← write e.ready_queue prio q'
    ret (record e { ready_queue = queues })

  -- `self.prio_bitmap.set(prio); self.ready_queue[prio].push(&cid).unwrap();`
  pub schedule : Executor F → ℕ → ℕ → Outcome (Executor F)
  schedule e prio cid = do
    bits ← BitMap64.set e.prio_bitmap prio
    push_ready (record e { prio_bitmap = bits }) prio cid

  pub spawn : Runtime F → F → ℕ → Outcome (ℕ × Runtime F)
  spawn r future prio = do
    (task, cids) ← Coroutine.new r.cids future prio
    e ← schedule r.executor prio task.cid
    tasks ← write e.tasks task.cid (some task)
    ret (
      task.cid,
      record {
        executor = record e {
          tasks = tasks;
          coroutine_num = e.coroutine_num + 1;
          tasks_bak = e.tasks_bak ++ (task ∷ []);
        };
        cids = cids;
      },
    )

  pub is_empty : Executor F → Bool
  is_empty e = e.coroutine_num == 0

  -- The task found, if any, goes to the queue of its priority.
  unfoldable pub wake_task : Executor F → ℕ → Option (Coroutine F) → Outcome (Executor F)
  wake_task e cid none = ret e
  wake_task e cid (some task) = schedule e task.prio cid

  unfoldable pub wake : Executor F → ℕ → Outcome (Executor F)
  wake e cid = do op_task ← read e.tasks cid; wake_task e cid op_task

  -- The loop of `actual_wake` at `index`, with `fuel` rounds to go. A round clears bit `index` of
  -- the word, which has been shifted down `index` times by then. `panic` also stands for a loop
  -- that has used up its rounds.
  pub drain : ℕ → ℕ → ℕ → Executor F → Outcome (Executor F)
  drain zero index cids e = if cids == 0 then ret e else panic
  drain (suc fuel) index cids e =
      let woken = (do
        e' ← wake e (index % 2 ^ 32)
        drain fuel (index + 1) (clear_bit 64 cids index / 2) e') in
      let skipped = drain fuel (index + 1) (cids / 2) e in
      if cids == 0 then ret e else if cids % 2 == 0 then skipped else woken

  pub actual_wake : Executor F → Outcome (Executor F)
  actual_wake e = drain 64 0 e.delay_wake_cids (record e { delay_wake_cids = 0 })

  pub switch_possible : Executor F → Outcome (Bool × Executor F)
  switch_possible e = do
    e' ← actual_wake e
    cid ← unwrap e'.current
    op_task ← read e'.tasks cid
    task ← unwrap op_task
    ret (ltb (BitMap64.find_first_one e'.prio_bitmap) task.prio, e')

  -- `if self.ready_queue[prio].empty() { self.prio_bitmap.clear(prio) }`
  pub clear_if_empty : Executor F → ℕ → RingBuffer ℕ → Outcome (Executor F)
  clear_if_empty e prio q =
      if RingBuffer.empty q
      then (BitMap64.clear e.prio_bitmap prio >>= λ bits. ret (record e { prio_bitmap = bits }))
      else ret e

  -- The part of `fetch` after `pop` has returned a cid.
  pub fetch_task :
      Executor F
      → ℕ
      → ℕ
      → RingBuffer ℕ
      → Option (Coroutine F)
      → Outcome (Option (Coroutine F) × Executor F)
  fetch_task e prio cid q none = ret (none, e)
  fetch_task e prio cid q (some task) = do
    e' ← clear_if_empty (record e { current = some cid }) prio q
    ret (some task, e')

  pub fetch_popped :
      Executor F → ℕ → RingBuffer ℕ → Option ℕ → Outcome (Option (Coroutine F) × Executor F)
  fetch_popped e prio q none = ret (none, e)
  fetch_popped e prio q (some cid) = do op_task ← read e.tasks cid; fetch_task e prio cid q op_task

  -- `fetch` after the delayed wakes, at the priority that the bitmap names.
  pub fetch_at : Executor F → ℕ → Outcome (Option (Coroutine F) × Executor F)
  fetch_at e prio = do
    q ← read e.ready_queue prio
    (popped, q') ← RingBuffer.pop max_task_num q
    queues ← write e.ready_queue prio q'
    fetch_popped (record e { ready_queue = queues }) prio q' popped

  pub fetch : Executor F → Outcome (Option (Coroutine F) × Executor F)
  fetch e = do
    e' ← actual_wake e
    let prio = BitMap64.find_first_one e'.prio_bitmap
    if prio == 64 then ret (none, e') else fetch_at e' prio

  unfoldable pub delay_wake : Executor F → ℕ → Outcome (Executor F)
  delay_wake e cid = do
    assert (ltb cid 64)
    ret (record e { delay_wake_cids = set_bit e.delay_wake_cids cid })

  -- `coroutine_num -= 1` panics at 0, overflow checks being on.
  pub remove_task : Runtime F → ℕ → Outcome (Runtime F)
  remove_task r cid = do
    tasks ← write r.executor.tasks cid none
    assert (ltb 0 r.executor.coroutine_num)
    cids ← Coroutine.release r.cids cid
    ret (record {
      executor = record (r.executor) {
        tasks = tasks;
        coroutine_num = r.executor.coroutine_num - 1;
      };
      cids = cids;
    })
