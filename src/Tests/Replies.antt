-- ===== src/Tests/Replies.antt =====
-- The reply coroutine of crates/example/src/async_lib.rs on concrete values.
use rust_root_task_demo.Common.{
  length-append, length, arith, [], true, ap, refl, ◌++◌, ◌∷◌, ◌≡◌, ◌+◌, ℕ,
}
use rust_root_task_demo.NewBuffer
use rust_root_task_demo.NewBuffer.{NewBuffer, ItemsQueue, max_item_num, new_item}
use rust_root_task_demo.Executor
use rust_root_task_demo.AsyncLib
use rust_root_task_demo.AsyncLib.{World, lookup}
use rust_root_task_demo.AsyncLib.Calls.{IsQueue, items_of, write_room}
use rust_root_task_demo.AsyncLib.Replies.{recv_reply_coroutine}
use rust_root_task_demo.AsyncLib.Delivery.{Delivers, recv_reply_coroutine-Delivers}
use rust_root_task_demo.Tests.Net.{empty-IsQueue, no_items}

-- A queue with one reply, for coroutine 0.
abbrev one_reply : ItemsQueue
one_reply = (write_room NewBuffer.new.res_items new_item empty-IsQueue no_items).0

one_reply-IsQueue : IsQueue one_reply
one_reply-IsQueue = (write_room NewBuffer.new.res_items new_item empty-IsQueue no_items).3

held : items_of one_reply ≡ items_of NewBuffer.new.res_items ++ (new_item ∷ [])
held = (write_room NewBuffer.new.res_items new_item empty-IsQueue no_items).2

abbrev replied : NewBuffer
replied = record (NewBuffer.new) { res_items = one_reply; recv_reply_status = true }

abbrev waiting_thread : World ℕ
waiting_thread = AsyncLib.start Executor.new ((4096, replied) ∷ [])

recv_reply_coroutine-Delivers_example :
    Delivers waiting_thread 4096 3
      (items_of replied.res_items)
      (recv_reply_coroutine 5000 4096 (waiting_thread.reply_count + 3) waiting_thread)
recv_reply_coroutine-Delivers_example =
    recv_reply_coroutine-Delivers 5000 4096 2 waiting_thread replied
      (unfold AsyncLib.start lookup in refl) one_reply-IsQueue
      (omega (
        arith,
        ap length held,
        no_items,
        length-append (items_of NewBuffer.new.res_items) (new_item ∷ []),
      ))
      (unfold AsyncLib.start in omega arith)
