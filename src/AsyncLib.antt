-- ===== src/AsyncLib.antt =====
-- crates/example/src/async_lib.rs: waking coroutines by user interrupts, and calls that put an item
-- into a shared buffer and wait for the reply. An `async fn` is one function up to its `await`, and
-- one from there on. Overflow checks are on.
pub mod Syscalls
pub mod Woken
pub mod Interrupt
pub mod Calls
pub mod Items
pub mod Putstring
pub mod Replies
pub mod Delivery
use rust_root_task_demo.Common.{
  not, false, true, Bool, ◌*◌, write, read, assert, unwrap_ok, unwrap, panic, ret, Outcome, err, ok,
  Result, replicate, ltb, [], List, some, none, Option, suc, zero, ◌>>◌, ◌>>=◌, if◌then◌else◌, ◌==◌,
  ◌∷◌, ◌^◌, ◌%◌, ◌/◌, ◌+◌, ℕ,
}
use rust_root_task_demo.Utils.IndexAllocator
use rust_root_task_demo.Utils.IndexAllocator.{IndexAllocator}
use rust_root_task_demo.MessageInfo.{AsyncMessageLabel, label_from, riscv_page_get_address}
use rust_root_task_demo.NewBuffer
use rust_root_task_demo.NewBuffer.{IpcItem, NewBuffer}
use rust_root_task_demo.Executor
use rust_root_task_demo.Executor.{Executor, max_task_num}

abbrev pub max_uint_vec : ℕ
max_uint_vec = 64

-- The sender of the system calls, `63`
abbrev pub syscall_sender : ℕ
syscall_sender = 63

-- What a thread's code reaches: its executor, its thread-local statics, the shared buffers by
-- address, and what it has told the outside. `reply_count` is the `REPLY_COUNT` of
-- `recv_reply_coroutine`, which all threads share, and `syscall_reply_count` the thread-local one of
-- `recv_reply_coroutine_async_syscall`.
pub record World {ℓ} (F : Type ℓ) : Type ℓ where
  pub executor : Executor F
  pub uint_vec_allocator : IndexAllocator
  pub uint_trigger : ℕ
  pub sender_map : List ℕ  -- `[usize; 64]`
  pub immediate_value : List (Option IpcItem)
  pub wake_map : List (ℕ × ℕ)
  pub reply_count : ℕ
  pub syscall_reply_count : ℕ
  pub submit_syscall_cnt : ℕ
  pub buffers : List (ℕ × NewBuffer)
  pub uipis : List ℕ  -- the arguments of `uipi_send`, the last first
  pub syscall_wakes : ℕ  -- the calls of `wake_syscall_handler`

-- `AsyncArgs`, without its lock. A buffer is its address.
pub record AsyncArgs : Type 0 where
  pub req_ntfn : Option ℕ
  pub reply_ntfn : Option ℕ
  pub server_sender_id : Option ℕ
  pub client_sender_id : Option ℕ
  pub child_tcb : Option ℕ
  pub ipc_new_buffer : Option ℕ
  pub server_ready : Bool

-- `AsyncArgs::new`
unfoldable pub new_args : AsyncArgs
new_args = record {
  req_ntfn = none;
  reply_ntfn = none;
  server_sender_id = none;
  client_sender_id = none;
  child_tcb = none;
  ipc_new_buffer = none;
  server_ready = false;
}

-- A `BTreeMap` as a list of pairs: the first with a key counts.
unfoldable pub lookup {ℓ} : {A : Type ℓ} → ℕ → List (ℕ × A) → Option A
lookup k [] = none
lookup k ((k', a) ∷ rest) = if k' == k then some a else lookup k rest

reply_of : Option IpcItem → Result IpcItem
reply_of none = err
reply_of (some res) = ok res

call_reply : Result IpcItem → Result ℕ
call_reply err = err
call_reply (ok res) = ok res.msg_info

module _ {ℓ} {F : Type ℓ} where
  -- A thread before any registration, with the executor and the shared buffers given
  unfoldable pub start : Executor F → List (ℕ × NewBuffer) → World F
  start e buffers = record {
    executor = e;
    uint_vec_allocator = IndexAllocator.new max_uint_vec;
    uint_trigger = 0;
    sender_map = replicate 64 0;
    immediate_value = replicate max_task_num none;
    wake_map = [];
    reply_count = 0;
    syscall_reply_count = 0;
    submit_syscall_cnt = 0;
    buffers = buffers;
    uipis = [];
    syscall_wakes = 0;
  }

  register_vec : World F → ℕ → Option ℕ → Option ℕ × World F
  register_vec w cid none = (none, w)
  register_vec w cid (some vec) = (some vec, record w { wake_map = (vec, cid) ∷ w.wake_map })

  pub register_recv_cid : World F → ℕ → Outcome (Option ℕ × World F)
  unfolding register_vec
  register_recv_cid w cid = do
    (vec, vecs) ← IndexAllocator.allocate max_uint_vec w.uint_vec_allocator
    ret (register_vec (record w { uint_vec_allocator = vecs }) cid vec)

  register_sender_as : World F → ℕ → Result ℕ → Outcome (Result ℕ × World F)
  register_sender_as w ptr err = ret (err, w)
  register_sender_as w ptr (ok sender_id) = do
    senders ← write w.sender_map sender_id ptr
    ret (ok sender_id, record w { sender_map = senders })

  -- `register_sender` is what the `uintr` crate answers for the notification.
  pub register_sender_buffer :
      {N : Type 0} → (N → Result ℕ) → World F → N → ℕ → Outcome (Result ℕ × World F)
  unfolding register_sender_as
  register_sender_buffer register_sender w ntfn new_buffer =
      register_sender_as w new_buffer (register_sender ntfn)

  pub register_async_syscall_buffer : World F → ℕ → Outcome (World F)
  register_async_syscall_buffer w new_buffer_ptr = do
    senders ← write w.sender_map syscall_sender new_buffer_ptr
    ret (record w { sender_map = senders })

  wake_registered : World F → Option ℕ → Outcome (Result (Unit {0}) × World F)
  wake_registered w none = ret (err, w)
  wake_registered w (some cid) = do
    e ← Executor.delay_wake w.executor cid
    ret (ok tt, record w { executor = e })

  pub wake_recv_coroutine : World F → ℕ → Outcome (Result (Unit {0}) × World F)
  unfolding wake_registered
  wake_recv_coroutine w vec = wake_registered w (lookup vec w.wake_map)

  -- The loop of `uintr_handler` and `uintr_handler2`, with `fuel` rounds to go. `panic` also stands
  -- for a loop that has used up its rounds.
  pub handle_irqs : ℕ → ℕ → ℕ → World F → Outcome (World F)
  handle_irqs zero bit_index local w = if local == 0 then ret w else panic
  handle_irqs (suc fuel) bit_index local w =
      let skipped = handle_irqs fuel (bit_index + 1) (local / 2) w in
      let woken = (do
        (res, w') ← wake_recv_coroutine w bit_index
        unwrap_ok res
        handle_irqs fuel (bit_index + 1) (local / 2) w') in
      if local == 0 then ret w else if local % 2 == 1 then woken else skipped

  pub uintr_handler : World F → ℕ → Outcome (ℕ × World F)
  uintr_handler w irqs = do
    assert (ltb (w.uint_trigger + 1) (2 ^ 64))
    w' ← handle_irqs 64 0 irqs (record w { uint_trigger = w.uint_trigger + 1 })
    ret (0, w')

  -- It also prints a line.
  pub uintr_handler2 : World F → ℕ → Outcome (ℕ × World F)
  uintr_handler2 = uintr_handler

  unfoldable pub coroutine_get_current : World F → Outcome ℕ
  coroutine_get_current w = unwrap w.executor.current

  -- `yield_now` after it has been resumed
  unfoldable pub yield_resumed : World F → Outcome (Option IpcItem × World F)
  yield_resumed w = do
    cid ← coroutine_get_current w
    value ← read w.immediate_value cid
    values ← write w.immediate_value cid none
    ret (value, record w { immediate_value = values })

  unfoldable pub wake_with_value : World F → ℕ → IpcItem → Outcome (World F)
  wake_with_value w cid item = do
    values ← write w.immediate_value cid (some item)
    e ← Executor.wake w.executor cid
    ret (record w { immediate_value = values; executor = e })

  -- `convert_option_mut_ref`, for a buffer: the address 0 is `None`. An address without a buffer,
  -- which the source does not check, is a `panic` here.
  pub convert_option_mut_ref : World F → ℕ → Outcome (Option NewBuffer)
  convert_option_mut_ref w ptr =
      if ptr == 0 then ret none else (unwrap (lookup ptr w.buffers) >>= λ b. ret (some b))

  -- The shared buffer at an address, replaced
  unfoldable pub store : World F → ℕ → NewBuffer → World F
  store w ptr b = record w { buffers = (ptr, b) ∷ w.buffers }

  -- Telling the receiver to run: a user interrupt, or for the system calls the kernel's handler.
  -- `counted` is whether `SUBMIT_SYSCALL_CNT` counts it.
  pub notify : Bool → World F → ℕ → Outcome (World F)
  notify counted w sender_id =
      if not (sender_id == syscall_sender)
      then ret (record w { uipis = sender_id ∷ w.uipis })
      else if counted
      then (assert (ltb (w.submit_syscall_cnt + 1) (2 ^ 64))
          >> ret (record w {
            submit_syscall_cnt = w.submit_syscall_cnt + 1;
            syscall_wakes = w.syscall_wakes + 1;
          }))
      else ret (record w { syscall_wakes = w.syscall_wakes + 1 })

  -- The item goes into the requests; the receiver is told to run unless it has been told already.
  pub post_item : Bool → World F → ℕ → ℕ → IpcItem → NewBuffer → Outcome (World F)
  post_item counted w ptr sender_id item b = do
    (written, reqs) ← NewBuffer.write_free_item b.req_items item
    unwrap_ok written
    if not b.recv_req_status
        then notify counted (store w ptr (record b { req_items = reqs; recv_req_status = true }))
            sender_id
        else ret (store w ptr (record b { req_items = reqs }))

  post_to : Bool → World F → ℕ → ℕ → IpcItem → Option NewBuffer → Outcome (Bool × World F)
  post_to counted w ptr sender_id item none = ret (false, w)
  post_to counted w ptr sender_id item (some b) = do
    w' ← post_item counted w ptr sender_id item b
    ret (true, w')

  -- `seL4_Call_with_item` up to `yield_now().await`. The Boolean is whether it gets there; if not,
  -- the call has returned `Err`.
  pub call_begin : World F → ℕ → IpcItem → Outcome (Bool × World F)
  unfolding post_to
  call_begin w sender_id item = do
    ptr ← read w.sender_map sender_id
    b ← convert_option_mut_ref w ptr
    post_to true w ptr sender_id item b

  -- `seL4_Call_with_item` from there on
  pub call_resumed : World F → Outcome (Result IpcItem × World F)
  unfolding reply_of
  call_resumed w = do (value, w') ← yield_resumed w; ret (reply_of value, w')

  -- `seL4_Send_with_item`, which returns `Err` whether it has sent the item or not
  pub send_with_item : World F → ℕ → IpcItem → Outcome (Result IpcItem × World F)
  unfolding post_to
  send_with_item w sender_id item = do
    ptr ← read w.sender_map sender_id
    b ← convert_option_mut_ref w ptr
    (_, w') ← post_to false w ptr sender_id item b
    ret (err, w')

  -- `seL4_Call`: a call with the first word of a message info, whose low 32 bits are sent
  pub sel4_call_begin : World F → ℕ → ℕ → Outcome (Bool × World F)
  sel4_call_begin w sender_id message_info = do
    cid ← coroutine_get_current w
    call_begin w sender_id (NewBuffer.item_from cid (message_info % 2 ^ 32))

  -- `seL4_Call` after the reply: the first word of the message info that it returns
  pub sel4_call_resumed : World F → Outcome (Result ℕ × World F)
  unfolding call_reply
  sel4_call_resumed w = do (res, w') ← call_resumed w; ret (call_reply res, w')

  -- `possible_switch` up to its `await`: whether it yields
  pub possible_switch_begin : World F → Outcome (Bool × World F)
  possible_switch_begin w = do
    (possible, e) ← Executor.switch_possible w.executor
    let w' = record w { executor = e }
    if possible
        then (do
          cid ← coroutine_get_current w'
          e' ← Executor.wake w'.executor cid
          ret (true, record w' { executor = e' }))
        else ret (false, w')
