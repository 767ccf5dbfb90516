-- ===== src/MessageInfo.antt =====
-- crates/example/async_runtime/src/message_info.rs: the labels of asynchronous messages and errors,
-- and their numbers.
use rust_root_task_demo.Common.{arith, ◌==◌, ltb, inr, inl, refl, if◌then◌else◌, ◌⊎◌, ◌≢◌, ◌≡◌, ℕ}

pub data AsyncMessageLabel : Type 0 where
  untyped_retype put_char riscv_page_table_map riscv_page_table_unmap riscv_page_map :
      AsyncMessageLabel
  riscv_page_unmap riscv_page_get_address cnode_revoke cnode_delete : AsyncMessageLabel
  cnode_cancel_badged_sends cnode_copy cnode_mint cnode_move cnode_mutate : AsyncMessageLabel
  cnode_rotate tcb_bind_notification tcb_unbind_notification put_string : AsyncMessageLabel
  unknown_label : AsyncMessageLabel

-- `u32::from(AsyncMessageLabel)`
unfoldable pub label_into : AsyncMessageLabel → ℕ
label_into untyped_retype = 0
label_into put_char = 1
label_into riscv_page_table_map = 2
label_into riscv_page_table_unmap = 3
label_into riscv_page_map = 4
label_into riscv_page_unmap = 5
label_into riscv_page_get_address = 6
label_into cnode_revoke = 7
label_into cnode_delete = 8
label_into cnode_cancel_badged_sends = 9
label_into cnode_copy = 10
label_into cnode_mint = 11
label_into cnode_move = 12
label_into cnode_mutate = 13
label_into cnode_rotate = 14
label_into tcb_bind_notification = 15
label_into tcb_unbind_notification = 16
label_into put_string = 17
label_into unknown_label = 18

-- `AsyncMessageLabel::from(u32)`
unfoldable pub label_from : ℕ → AsyncMessageLabel
label_from n =
    if n == 0
    then untyped_retype
    else if n == 1
    then put_char
    else if n == 2
    then riscv_page_table_map
    else if n == 3
    then riscv_page_table_unmap
    else if n == 4
    then riscv_page_map
    else if n == 5
    then riscv_page_table_unmap
    else if n == 6
    then riscv_page_get_address
    else if n == 7
    then cnode_revoke
    else if n == 8
    then cnode_delete
    else if n == 9
    then cnode_cancel_badged_sends
    else if n == 10
    then cnode_copy
    else if n == 11
    then cnode_mint
    else if n == 12
    then cnode_move
    else if n == 13
    then cnode_mutate
    else if n == 14
    then cnode_rotate
    else if n == 15
    then tcb_bind_notification
    else if n == 16
    then tcb_unbind_notification
    else if n == 17
    then put_string
    else unknown_label

pub data AsyncErrorLabel : Type 0 where
  no_error syscall_error : AsyncErrorLabel

-- `u16::from(AsyncErrorLabel)`
unfoldable pub error_into : AsyncErrorLabel → ℕ
error_into no_error = 0
error_into syscall_error = 1

-- `AsyncErrorLabel::from(u16)`
unfoldable pub error_from : ℕ → AsyncErrorLabel
error_from n = if n == 0 then no_error else syscall_error

-- A label read back from its number is the label, except that `RISCVPageUnmap` is read back as
-- `RISCVPageTableUnmap`.
pub label_from-label_into :
    (l : AsyncMessageLabel)
    → ((l ≢ riscv_page_unmap) × (label_from (label_into l) ≡ l))
      ⊎ ((l ≡ riscv_page_unmap) × (label_from (label_into l) ≡ riscv_page_table_unmap))
unfolding label_from label_into
label_from-label_into riscv_page_unmap = inr (refl, refl)
label_from-label_into l = inl (cc, refl)

-- Every number from 18 on is read as `UnknownLabel`, and every number below it, 5 aside, as the
-- label that has that number.
pub label_into-label_from :
    (n : ℕ) → n ≢ 5 → label_into (label_from n) ≡ (if ltb n 18 then n else 18)
unfolding label_from label_into
label_into-label_from n h = ground arith
