-- ===== src/AsyncLib/Replies.antt =====
-- The reply coroutines of crates/example/src/async_lib.rs, which hand the replies of a shared buffer
-- to the coroutines that wait for them.
use rust_root_task_demo.Common.{
  read, assert, unwrap, panic, ret, Outcome, ltb, some, none, false, true, Bool, suc, zero, ◌>>◌,
  if◌then◌else◌, ◌>>=◌, ◌==◌, ◌^◌, ◌%◌, ◌*◌, ◌+◌, ℕ,
}
use rust_root_task_demo.MessageInfo.{AsyncMessageLabel, label_from, riscv_page_get_address}
use rust_root_task_demo.NewBuffer
use rust_root_task_demo.NewBuffer.{IpcItem}
use rust_root_task_demo.AsyncLib.{World, lookup, store, wake_with_value, yield_resumed}

-- The address that the reply to `RISCVPageGetAddress` is printed with, in 64 bits. Each line of
-- the source adds before it shifts.
unfoldable pub printed_paddr : IpcItem → Outcome ℕ
printed_paddr item = do
  e1 ← read item.extend_msg 1
  e2 ← read item.extend_msg 2
  e3 ← read item.extend_msg 3
  e4 ← read item.extend_msg 4
  let p1 = (0 + e1) * 2 ^ 48 % 2 ^ 64
  assert (ltb (p1 + e2) (2 ^ 64))
  let p2 = (p1 + e2) * 2 ^ 32 % 2 ^ 64
  assert (ltb (p2 + e3) (2 ^ 64))
  let p3 = (p2 + e3) * 2 ^ 16 % 2 ^ 64
  assert (ltb (p3 + e4) (2 ^ 64))
  ret (p3 + e4)

-- What `recv_reply_coroutine_async_syscall` does with the label of a reply: it prints an address.
pub print_reply : IpcItem → AsyncMessageLabel → Outcome (Unit {0})
print_reply item riscv_page_get_address = printed_paddr item >>= λ _. ret tt
print_reply item _ = ret tt

module _ {ℓ} {F : Type ℓ} where
  -- Each of the two coroutines has a counter `REPLY_COUNT` of its own; the second one prints.
  abbrev pub count_of : Bool → World F → ℕ
  count_of false w = w.reply_count
  count_of true w = w.syscall_reply_count

  abbrev pub with_count : Bool → World F → ℕ → World F
  with_count false w n = record w { reply_count = n }
  with_count true w n = record w { syscall_reply_count = n }

  -- The loop of `recv_reply_coroutine`, and with `prints` of the other, from the start of a round,
  -- with `fuel` rounds to go: it returns `true` at the `break`, and `false` when it yields. `panic`
  -- also stands for a loop that has used up its rounds.
  unfoldable pub recv_reply : Bool → ℕ → ℕ → ℕ → World F → Outcome (Bool × World F)
  recv_reply prints zero ptr reply_num w = panic
  recv_reply prints (suc fuel) ptr reply_num w = do
    b ← unwrap (lookup ptr w.buffers)
    (first, items) ← NewBuffer.get_first_item b.res_items
    let b' = record b { res_items = items }
    elim first [
      | none ↦ ret (false, store w ptr (record b' { recv_reply_status = false }))
      | some item ↦ do
        if prints then print_reply item (label_from item.msg_info) else ret tt
        w' ← wake_with_value (store w ptr b') item.cid item
        assert (ltb (count_of prints w' + 1) (2 ^ 64))
        let counted = with_count prints w' (count_of prints w' + 1)
        let next = recv_reply prints fuel ptr reply_num counted
        if count_of prints counted == reply_num then ret (true, counted) else next
    ]

  -- The same after it has yielded: what `yield_now` returns is dropped.
  pub recv_reply_resumed : Bool → ℕ → ℕ → ℕ → World F → Outcome (Bool × World F)
  recv_reply_resumed prints fuel ptr reply_num w = do
    (_, w') ← yield_resumed w
    recv_reply prints fuel ptr reply_num w'

  -- The two reply coroutines from their start
  unfoldable pub recv_reply_coroutine : ℕ → ℕ → ℕ → World F → Outcome (Bool × World F)
  recv_reply_coroutine = recv_reply false

  pub recv_reply_coroutine_async_syscall : ℕ → ℕ → ℕ → World F → Outcome (Bool × World F)
  recv_reply_coroutine_async_syscall = recv_reply true
