-- ===== src/Net/Requests/Posting.antt =====
-- How the network service of crates/example/src/net/mod.rs posts a reply.
use native.Mathlib.Decide.{dec_lt}
use rust_root_task_demo.Common.{
  panic, ret, Outcome, ok, length, ==_self, arith, [], List, some, false, true, Bool, refl,
  if◌then◌else◌, ◌++◌, ◌∷◌, ◌≡◌, ℕ,
}
use rust_root_task_demo.Utils.SafeRingBuffer.Laws.{length-contents}
use rust_root_task_demo.NewBuffer.{
  IpcItem, NewBuffer, ItemsQueue, max_item_num, write_free_item, new_item,
}
use rust_root_task_demo.AsyncLib.{World, AsyncArgs, lookup, store}
use rust_root_task_demo.AsyncLib.Calls.{IsQueue, items_of, write_room, write_full}
use rust_root_task_demo.Net.Requests.{post_reply}

module _ {ℓ} {F : Type ℓ} where
  -- What posting a reply does with the buffer of the client at `ptr`.
  pub data Replies (w : World F) (ptr sender : ℕ) (item : IpcItem) (b : NewBuffer)
      : Outcome (World F) → Type ℓ where
    full : length (items_of b.res_items) ≡ max_item_num → Replies w ptr sender item b panic
    replied :
        (b' : NewBuffer) (w' : World F)
        → lookup ptr w'.buffers ≡ some b'
        → items_of b'.res_items ≡ items_of b.res_items ++ (item ∷ [])
        → IsQueue b'.res_items
        → b'.recv_reply_status ≡ true
        → b'.req_items ≡ b.req_items
        → w'.uipis ≡ (if b.recv_reply_status then w.uipis else sender ∷ w.uipis)
        → w'.executor ≡ w.executor
        → Replies w ptr sender item b (ret w')

  module _ (w : World F) (args : AsyncArgs) (ptr sender : ℕ) (item : IpcItem) (b : NewBuffer)
      (v : IsQueue b.res_items) (at : args.ipc_new_buffer ≡ some ptr)
      (to : args.server_sender_id ≡ some sender) (found : lookup ptr w.buffers ≡ some b) where
    found_self :
        (b' : NewBuffer) (rest : List (ℕ × NewBuffer)) → lookup ptr ((ptr, b') ∷ rest) ≡ some b'
    unfolding lookup
    found_self b' rest = rw (==_self ptr) refl

    write-Replies :
        (status : Bool)
        → b.recv_reply_status ≡ status
        → (q : ItemsQueue) → write_free_item b.res_items item ≡ ret (ok tt, q)
        → items_of q ≡ items_of b.res_items ++ (item ∷ [])
        → IsQueue q
        → Replies w ptr sender item b (post_reply w args item)
    unfolding post_reply store
    write-Replies true told q writes held valid =
        rw (at, found, writes, told)
          (replied (record b { res_items = q; recv_reply_status = true })
            (store w ptr (record b { res_items = q; recv_reply_status = true }))
            (found_self (record b { res_items = q; recv_reply_status = true }) w.buffers) held valid
            refl refl refl refl)
    write-Replies false told q writes held valid =
        rw (at, found, writes, told, to)
          (replied (record b { res_items = q; recv_reply_status = true })
            (record (store w ptr (record b { res_items = q; recv_reply_status = true })) {
              uipis = sender ∷ w.uipis;
            })
            (found_self (record b { res_items = q; recv_reply_status = true }) w.buffers) held valid
            refl refl refl refl)

    -- Posting a reply into the buffer of a client whose queue of replies is valid: it panics if the
    -- queue is full; otherwise the item is the last reply, the client's flag is set, and the client
    -- is told by a user interrupt exactly if its flag was not set. The requests and the executor
    -- stay as they are.
    pub post_reply-Replies : Replies w ptr sender item b (post_reply w args item)
    unfolding post_reply
    post_reply-Replies = elim (dec_lt (length (items_of b.res_items)) max_item_num) [
      | yes room ↦
          let (q, writes, held, valid) = write_room b.res_items item v room in
          write-Replies b.recv_reply_status refl q writes held valid
      | no past ↦
          let held : length (items_of b.res_items) ≡ b.res_items.buffer.count =
            length-contents new_item max_item_num b.res_items.buffer v in
          let (q, fails) = write_full b.res_items item v (omega (arith, past)) in
          rw (at, found, fails) (full (omega (arith, past, held, v.count_in)))
    ]
