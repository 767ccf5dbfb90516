-- ===== src/Tests/AsyncLib.antt =====
-- crates/example/src/async_lib.rs and the messages it sends, on concrete values.
use rust_root_task_demo.Common.{
  ret, ok, get_or-replicate, replicate, set, length, ltb, arith, map, [], List, some, none, refl,
  suc, zero, if◌then◌else◌, ◌∷◌, ◌↔◌, ◌⊎◌, ◌≢◌, ◌≡◌, ◌^◌, ◌%◌, ◌/◌, ◌*◌, ◌+◌, ℕ,
}
use rust_root_task_demo.Common.Bits.{bit, bit_zero}
use rust_root_task_demo.Utils.SafeRingBuffer.Laws
use rust_root_task_demo.Utils.IndexAllocator
use rust_root_task_demo.Utils.IndexAllocator.Bitmap
use rust_root_task_demo.MessageInfo
use rust_root_task_demo.MessageInfo.{
  label_into, label_from, label_into-label_from, label_from-label_into,
}
use rust_root_task_demo.NewBuffer
use rust_root_task_demo.NewBuffer.{IpcItem, NewBuffer, new_item, max_item_num, max_ipc_msg_len}
use rust_root_task_demo.Executor
use rust_root_task_demo.Executor.{Executor}
use rust_root_task_demo.AsyncLib
use rust_root_task_demo.AsyncLib.{World, lookup, max_uint_vec}
use rust_root_task_demo.AsyncLib.Replies.{printed_paddr}
use rust_root_task_demo.AsyncLib.Woken.{AllMapped, Woken}
use rust_root_task_demo.AsyncLib.Interrupt.{
  Mapped, Registers, register_recv_cid-Registers, with_delays, uintr_handler_lem,
}
use rust_root_task_demo.AsyncLib.Calls.{Posts, call_begin-Posts, call_resumed-wake_with_value}
use rust_root_task_demo.AsyncLib.Syscalls.{cnode_mint, cnode_copy, putstring}
use rust_root_task_demo.AsyncLib.Items.{cnode_mint-eq-cnode_copy, printed_paddr_lem}
use rust_root_task_demo.AsyncLib.Putstring.{payload, concat, putstring_lem}

abbrev thread : World ℕ
thread = AsyncLib.start Executor.new []

thread-Mapped : Mapped thread
thread-Mapped =
    unfold AsyncLib.start in
    record {
      valid = Bitmap.new-IsValid 64;
      mapped = λ vec lt u. absurd (omega (arith, u, no_vec vec));
    }
  where
    no_vec : (vec : ℕ) → Bitmap.used (IndexAllocator.new 64) vec ≡ 0
    no_vec vec =
        unfold IndexAllocator.new in
        rw (get_or-replicate {A = ℕ} 8 (vec / 8) 0) (bit_zero (vec % 8))

register_recv_cid-Registers_example : Registers thread 7 (AsyncLib.register_recv_cid thread 7)
register_recv_cid-Registers_example = register_recv_cid-Registers thread thread-Mapped 7

-- Vector 3 wakes coroutine 7.
abbrev mapped_thread : World ℕ
mapped_thread = record thread { wake_map = (3, 7) ∷ [] }

interrupt_3 : AllMapped mapped_thread.wake_map 0 8
unfolding bit lookup
interrupt_3 zero one = absurd (omega (arith, one))
interrupt_3 (suc zero) one = absurd (omega (arith, one))
interrupt_3 (suc (suc zero)) one = absurd (omega (arith, one))
interrupt_3 (suc (suc (suc zero))) one = (7, omega arith, refl)
interrupt_3 (suc (suc (suc (suc i)))) one = absurd (omega (arith, one, bit_zero i))

uintr_handler_lem_example :
    (d : ℕ) × (AsyncLib.uintr_handler mapped_thread 8
      ≡ ret (
        0,
        with_delays (record mapped_thread { uint_trigger = mapped_thread.uint_trigger + 1 }) d,
      ))
    × ((j : ℕ)
        → (bit d j ≡ 1) ↔ (
            (bit mapped_thread.executor.delay_wake_cids j ≡ 1)
            ⊎ Woken mapped_thread.wake_map 0 8 j))
uintr_handler_lem_example =
    uintr_handler_lem mapped_thread 8 (omega arith) (unfold AsyncLib.start in omega arith)
      interrupt_3

-- Sender 5 has a new buffer at address 4096.
abbrev calling_thread : World ℕ
calling_thread = record thread {
  sender_map = set (replicate 64 0) 5 4096;
  buffers = (4096, NewBuffer.new) ∷ [];
}

call_begin-Posts_example :
    Posts calling_thread 4096 5 new_item NewBuffer.new
      (AsyncLib.call_begin calling_thread 5 new_item)
call_begin-Posts_example =
    call_begin-Posts calling_thread 4096 5 new_item NewBuffer.new
      (unfold NewBuffer.new NewBuffer.new_queue in
        Laws.new-IsValid new_item max_item_num (omega arith) (omega arith))
      (unfold AsyncLib.start in omega arith) (λ e. omega (arith, e))
      (unfold replicate in omega arith) (unfold replicate in refl) (unfold lookup in refl)

abbrev woken_thread : World ℕ
woken_thread = record thread { immediate_value = set thread.immediate_value 3 (some new_item) }

abbrev running_3 : Executor ℕ
running_3 = record Executor.new { current = some 3 }

call_resumed-wake_with_value_example :
    AsyncLib.call_resumed (record woken_thread { executor = running_3 })
    ≡ ret (
      ok new_item,
      record woken_thread {
        executor = running_3;
        immediate_value = set woken_thread.immediate_value 3 none;
      },
    )
call_resumed-wake_with_value_example =
    call_resumed-wake_with_value thread woken_thread 3 new_item running_3
      (unfold AsyncLib.start replicate in omega arith)
      (unfold AsyncLib.start AsyncLib.wake_with_value Executor.wake Executor.wake_task Executor.new
          replicate in
        refl)
      refl

putstring_lem_example :
    (items : List IpcItem) × (putstring 3 (1 ∷ 2 ∷ 3 ∷ 4 ∷ 5 ∷ 6 ∷ 7 ∷ 8 ∷ []) ≡ ret items)
    × (length items ≡ 8 / 7 + 1)
    × (concat (map payload items) ≡ 1 ∷ 2 ∷ 3 ∷ 4 ∷ 5 ∷ 6 ∷ 7 ∷ 8 ∷ [])
putstring_lem_example = putstring_lem 3 (1 ∷ 2 ∷ 3 ∷ 4 ∷ 5 ∷ 6 ∷ 7 ∷ 8 ∷ [])

cnode_mint-eq-cnode_copy_example :
    (cnode_mint 3 2 10 64 2 11 64 7 65536 ≡ cnode_copy 3 2 10 64 2 11 64 7) ↔ (65536 % 2 ^ 16 ≡ 0)
cnode_mint-eq-cnode_copy_example = cnode_mint-eq-cnode_copy 3 2 10 64 2 11 64 7 65536

abbrev reply : IpcItem
reply = record { cid = 3; msg_info = 6; extend_msg = 0 ∷ 0 ∷ 1 ∷ 2 ∷ 3 ∷ [] }

printed_paddr_lem_example : printed_paddr reply ≡ ret (1 * 2 ^ 48 + 2 * 2 ^ 16 + 3)
printed_paddr_lem_example =
    printed_paddr_lem reply (omega arith) (omega arith) (omega arith) (omega arith) (omega arith)

label_from-label_into_example :
    ((MessageInfo.cnode_mint ≢ MessageInfo.riscv_page_unmap)
      × (label_from (label_into MessageInfo.cnode_mint) ≡ MessageInfo.cnode_mint))
    ⊎ ((MessageInfo.cnode_mint ≡ MessageInfo.riscv_page_unmap)
        × (label_from (label_into MessageInfo.cnode_mint) ≡ MessageInfo.riscv_page_table_unmap))
label_from-label_into_example = label_from-label_into MessageInfo.cnode_mint

label_into-label_from_example : label_into (label_from 11) ≡ (if ltb 11 18 then 11 else 18)
label_into-label_from_example = label_into-label_from 11 (λ e. omega (arith, e))
