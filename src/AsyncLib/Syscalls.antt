-- ===== src/AsyncLib/Syscalls.antt =====
-- The asynchronous system calls of crates/example/src/async_lib.rs: each sends one item, or for
-- `seL4_Putstring` several, to the kernel, and returns `Err` after the reply. Every word of an item
-- is an argument cut to 16 bits. crates/example/src/async_syscall.rs passes its arguments on to them.
use rust_root_task_demo.Common.{
  write, read, ret, Outcome, err, Result, replicate, set, length, ltb, [], List, Bool, suc, zero,
  ◌>>=◌, if◌then◌else◌, ◌∷◌, ◌^◌, ◌%◌, ◌/◌, ◌*◌, ◌-◌, ◌+◌, ℕ,
}
use rust_root_task_demo.MessageInfo
use rust_root_task_demo.MessageInfo.{AsyncMessageLabel, label_into}
use rust_root_task_demo.NewBuffer.{IpcItem, max_ipc_msg_len}
use rust_root_task_demo.AsyncLib.{
  World, syscall_sender, call_begin, coroutine_get_current, yield_resumed,
}

-- The arguments from slot `i` of a message on, as `extend_msg[i] = … as u16` writes them
unfoldable pub fill : ℕ → List ℕ → List ℕ → List ℕ
fill i [] msg = msg
fill i (a ∷ args) msg = fill (i + 1) args (set msg i (a % 2 ^ 16))

unfoldable pub syscall_item : ℕ → AsyncMessageLabel → List ℕ → IpcItem
syscall_item cid label args = record {
  cid = cid;
  msg_info = label_into label;
  extend_msg = fill 0 args (replicate max_ipc_msg_len 0);
}

-- The items of the calls, by the id of the calling coroutine; an argument that is a capability,
-- an object type or a set of rights is the number that the source takes from it.
unfoldable pub untyped_retype : ℕ → ℕ → ℕ → ℕ → ℕ → ℕ → ℕ → ℕ → ℕ → IpcItem
untyped_retype cid service type size_bits root node_index node_depth node_offset num_objects =
    syscall_item cid MessageInfo.untyped_retype
      (service ∷ type ∷ size_bits ∷ root ∷ node_index ∷ node_depth ∷ node_offset ∷ num_objects ∷ [])

unfoldable pub putchar : ℕ → ℕ → IpcItem
putchar cid c = syscall_item cid MessageInfo.put_char (c ∷ [])

-- `frame_slot` is `UserImageUtils::get_user_image_frame_slot`, which may panic.
unfoldable pub page_get_address : (ℕ → Outcome ℕ) → ℕ → ℕ → Outcome IpcItem
page_get_address frame_slot cid vaddr = do
  slot ← frame_slot (vaddr - vaddr % 4096)
  ret (syscall_item cid MessageInfo.riscv_page_get_address (slot ∷ []))

unfoldable pub tcb_bind_notification : ℕ → ℕ → ℕ → IpcItem
tcb_bind_notification cid service notification =
    syscall_item cid MessageInfo.tcb_bind_notification (service ∷ notification ∷ [])

unfoldable pub tcb_unbind_notification : ℕ → ℕ → IpcItem
tcb_unbind_notification cid service =
    syscall_item cid MessageInfo.tcb_unbind_notification (service ∷ [])

unfoldable pub cnode_delete : ℕ → ℕ → ℕ → ℕ → IpcItem
cnode_delete cid service node_index node_depth =
    syscall_item cid MessageInfo.cnode_delete (service ∷ node_index ∷ node_depth ∷ [])

unfoldable pub cnode_copy : ℕ → ℕ → ℕ → ℕ → ℕ → ℕ → ℕ → ℕ → IpcItem
cnode_copy cid dest_root dest_index dest_depth src_root src_index src_depth cap_right =
    syscall_item cid MessageInfo.cnode_copy
      (dest_root ∷ dest_index ∷ dest_depth ∷ src_root ∷ src_index ∷ src_depth ∷ cap_right ∷ [])

-- The label is that of `seL4_CNode_Copy`, as in the source.
unfoldable pub cnode_mint : ℕ → ℕ → ℕ → ℕ → ℕ → ℕ → ℕ → ℕ → ℕ → IpcItem
cnode_mint cid dest_root dest_index dest_depth src_root src_index src_depth cap_right badge =
    syscall_item cid MessageInfo.cnode_copy (
      dest_root ∷ dest_index ∷ dest_depth ∷ src_root ∷ src_index ∷ src_depth ∷ cap_right ∷ badge
      ∷ [])

unfoldable pub page_table_map : ℕ → ℕ → ℕ → ℕ → ℕ → IpcItem
page_table_map cid service vspace vaddr attrs =
    syscall_item cid MessageInfo.riscv_page_table_map
      (service ∷ vspace ∷ (vaddr / 2 ^ 12) ∷ attrs ∷ [])

unfoldable pub page_table_unmap : ℕ → ℕ → IpcItem
page_table_unmap cid service = syscall_item cid MessageInfo.riscv_page_table_unmap (service ∷ [])

unfoldable pub page_map : ℕ → ℕ → ℕ → ℕ → ℕ → ℕ → IpcItem
page_map cid service page_table vaddr rights attrs =
    syscall_item cid MessageInfo.riscv_page_map
      (service ∷ page_table ∷ (vaddr / 2 ^ 12) ∷ rights ∷ attrs ∷ [])

unfoldable pub page_unmap : ℕ → ℕ → IpcItem
page_unmap cid service = syscall_item cid MessageInfo.riscv_page_unmap (service ∷ [])

-- The loop over `j` of `seL4_Putstring`, with `num` characters to go
unfoldable pub copy_chars : ℕ → ℕ → ℕ → List ℕ → List ℕ → Outcome (List ℕ)
copy_chars zero j offset chars msg = ret msg
copy_chars (suc num) j offset chars msg = do
  c ← read chars (offset + j)
  msg' ← write msg (j + 1) c
  copy_chars num (j + 1) offset chars msg'

-- The item of round `i` of `seL4_Putstring`
unfoldable pub putstring_item : ℕ → List ℕ → ℕ → Outcome IpcItem
putstring_item cid chars i = do
  let num = if ltb i (length chars / 7) then 7 else length chars - 7 * i
  msg ← write (replicate max_ipc_msg_len 0) 0 (num % 2 ^ 16)
  msg' ← copy_chars num 0 (i * 7) chars msg
  ret (record { cid = cid; msg_info = label_into MessageInfo.put_string; extend_msg = msg' })

-- The items of the rounds from `i` on, with `left` of them to go
unfoldable pub putstring_from : ℕ → ℕ → ℕ → List ℕ → Outcome (List IpcItem)
putstring_from zero i cid chars = ret []
putstring_from (suc left) i cid chars = do
  item ← putstring_item cid chars i
  rest ← putstring_from left (i + 1) cid chars
  ret (item ∷ rest)

-- The items of `seL4_Putstring`, in the order in which it sends them
unfoldable pub putstring : ℕ → List ℕ → Outcome (List IpcItem)
putstring cid chars = putstring_from (length chars / 7 + 1) 0 cid chars

module _ {ℓ} {F : Type ℓ} where
  -- A call up to its `await`
  unfoldable pub syscall_begin : (ℕ → Outcome IpcItem) → World F → Outcome (Bool × World F)
  syscall_begin item_of w = do
    cid ← coroutine_get_current w
    item ← item_of cid
    call_begin w syscall_sender item

  -- A call from there on: the reply is dropped, and the result is `Err`.
  unfoldable pub syscall_resumed : World F → Outcome (Result ℕ × World F)
  syscall_resumed w = do (_, w') ← yield_resumed w; ret (err, w')
