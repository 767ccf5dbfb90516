-- ===== src/NewBuffer.antt =====
-- crates/example/async_runtime/src/new_buffer.rs: the buffer that two threads share, a queue of
-- requests and a queue of replies, and a flag for each that its receiver has been told to run.
use rust_root_task_demo.Common.{
  ret, Outcome, Result, replicate, List, Option, false, Bool, ◌>>=◌, ℕ,
}
use rust_root_task_demo.Utils.SafeRingBuffer
use rust_root_task_demo.Utils.SafeRingBuffer.{SafeRingBuffer}

abbrev pub max_item_num : ℕ
max_item_num = 4096

abbrev pub max_ipc_msg_len : ℕ
max_ipc_msg_len = 16

pub record IpcItem : Type 0 where
  pub cid : ℕ
  pub msg_info : ℕ  -- `u32`
  pub extend_msg : List ℕ  -- `[u16; MAX_IPC_MSG_LEN]`

-- `IPCItem::new`, and `IPCItem::default`
unfoldable pub new_item : IpcItem
new_item = record { cid = 0; msg_info = 0; extend_msg = replicate max_ipc_msg_len 0 }

-- `IPCItem::from`
unfoldable pub item_from : ℕ → ℕ → IpcItem
item_from cid msg = record { cid = cid; msg_info = msg; extend_msg = replicate max_ipc_msg_len 0 }

pub record ItemsQueue : Type 0 where
  pub buffer : SafeRingBuffer IpcItem

unfoldable pub new_queue : ItemsQueue
new_queue = record { buffer = SafeRingBuffer.new new_item max_item_num }

unfoldable pub write_free_item : ItemsQueue → IpcItem → Outcome (Result (Unit {0}) × ItemsQueue)
write_free_item q item = do
  (pushed, buffer) ← SafeRingBuffer.push_safe max_item_num q.buffer item
  ret (pushed, record { buffer = buffer })

unfoldable pub get_first_item : ItemsQueue → Outcome (Option IpcItem × ItemsQueue)
get_first_item q = do
  (item, buffer) ← SafeRingBuffer.pop_safe max_item_num q.buffer
  ret (item, record { buffer = buffer })

pub record NewBuffer : Type 0 where
  pub recv_req_status : Bool
  pub recv_reply_status : Bool
  pub req_items : ItemsQueue
  pub res_items : ItemsQueue

-- `NewBuffer::new`
unfoldable pub new : NewBuffer
new = record {
  recv_req_status = false;
  recv_reply_status = false;
  req_items = new_queue;
  res_items = new_queue;
}
