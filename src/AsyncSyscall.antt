-- ===== src/AsyncSyscall.antt =====
-- crates/example/src/async_syscall.rs: each function makes one of the calls of async_lib.rs and drops
-- what it returns. Here each is given up to its first `await`: whether it gets there, and the thread.
-- The text of `syscall_putstring` may take more items, which `putstring` of AsyncLib gives.
use rust_root_task_demo.Common.{ret, Outcome, Bool, ℕ}
use rust_root_task_demo.AsyncLib.{World}
use rust_root_task_demo.AsyncLib.Syscalls
use rust_root_task_demo.AsyncLib.Syscalls.{syscall_begin}

module _ {ℓ} {F : Type ℓ} where
  unfoldable pub syscall_untyped_retype :
      ℕ → ℕ → ℕ → ℕ → ℕ → ℕ → ℕ → ℕ → World F → Outcome (Bool × World F)
  syscall_untyped_retype service type size_bits root node_index node_depth node_offset num_objects =
      syscall_begin λ cid. ret (
        Syscalls.untyped_retype cid service type size_bits root node_index node_depth node_offset
          num_objects)

  unfoldable pub syscall_riscv_page_get_address :
      (ℕ → Outcome ℕ) → ℕ → World F → Outcome (Bool × World F)
  syscall_riscv_page_get_address frame_slot vaddr =
      syscall_begin λ cid. Syscalls.page_get_address frame_slot cid vaddr

  unfoldable pub syscall_putchar : ℕ → World F → Outcome (Bool × World F)
  syscall_putchar c = syscall_begin λ cid. ret (Syscalls.putchar cid c)

  unfoldable pub syscall_tcb_bind_notification : ℕ → ℕ → World F → Outcome (Bool × World F)
  syscall_tcb_bind_notification tcb notification =
      syscall_begin λ cid. ret (Syscalls.tcb_bind_notification cid tcb notification)

  unfoldable pub syscall_tcb_unbind_notification : ℕ → World F → Outcome (Bool × World F)
  syscall_tcb_unbind_notification tcb =
      syscall_begin λ cid. ret (Syscalls.tcb_unbind_notification cid tcb)

  unfoldable pub syscall_cnode_copy : ℕ → ℕ → ℕ → ℕ → ℕ → ℕ → ℕ → World F → Outcome (Bool × World F)
  syscall_cnode_copy dest_root dest_index dest_depth src_root src_index src_depth cap_right =
      syscall_begin λ cid. ret (
        Syscalls.cnode_copy cid dest_root dest_index dest_depth src_root src_index src_depth
          cap_right)

  unfoldable pub syscall_cnode_delete : ℕ → ℕ → ℕ → World F → Outcome (Bool × World F)
  syscall_cnode_delete service node_index node_depth =
      syscall_begin λ cid. ret (Syscalls.cnode_delete cid service node_index node_depth)

  unfoldable pub syscall_cnode_mint :
      ℕ → ℕ → ℕ → ℕ → ℕ → ℕ → ℕ → ℕ → World F → Outcome (Bool × World F)
  syscall_cnode_mint dest_root dest_index dest_depth src_root src_index src_depth cap_right badge =
      syscall_begin λ cid. ret (
        Syscalls.cnode_mint cid dest_root dest_index dest_depth src_root src_index src_depth
          cap_right badge)

  unfoldable pub syscall_riscv_page_map : ℕ → ℕ → ℕ → ℕ → ℕ → World F → Outcome (Bool × World F)
  syscall_riscv_page_map service page_table vaddr rights attrs =
      syscall_begin λ cid. ret (Syscalls.page_map cid service page_table vaddr rights attrs)

  unfoldable pub syscall_riscv_page_unmap : ℕ → World F → Outcome (Bool × World F)
  syscall_riscv_page_unmap service = syscall_begin λ cid. ret (Syscalls.page_unmap cid service)

  unfoldable pub syscall_riscv_pagetable_map : ℕ → ℕ → ℕ → ℕ → World F → Outcome (Bool × World F)
  syscall_riscv_pagetable_map service vspace vaddr attrs =
      syscall_begin λ cid. ret (Syscalls.page_table_map cid service vspace vaddr attrs)

  unfoldable pub syscall_riscv_pagetable_unmap : ℕ → World F → Outcome (Bool × World F)
  syscall_riscv_pagetable_unmap service =
      syscall_begin λ cid. ret (Syscalls.page_table_unmap cid service)
