-- ===== src/AsyncLib/Calls.antt =====
-- Calls through a shared buffer: what posting an item does, and how the reply gets back to the
-- coroutine that waits for it.
use native.Mathlib.Decide.{dec_lt}
use rust_root_task_demo.Common.{
  write_in_range, get_or-set_self, length-set, arith, Option, ap, sym, ◌>>=◌, read_in_range, panic,
  ret, Outcome, err, ok, set, get_or, length, Bool-cases, ltb_of_le, ltb_of_lt, ==_ne, ==_self, [],
  List, some, none, false, true, Bool, inr, inl, refl, ◌∙◌, if◌then◌else◌, ◌==◌, ◌++◌, ◌∷◌, ◌≢◌,
  ◌≡◌, ◌<◌, ◌≤◌, ◌^◌, ◌+◌, ℕ,
}
use rust_root_task_demo.Utils.Queue
use rust_root_task_demo.Utils.SafeRingBuffer.Laws.{
  IsValid, contents, push_safe_refines, length-contents,
}
use rust_root_task_demo.NewBuffer.{
  IpcItem, NewBuffer, ItemsQueue, max_item_num, new_item, write_free_item,
}
use rust_root_task_demo.Executor.{Executor, wake}
use rust_root_task_demo.AsyncLib.{
  World, lookup, store, syscall_sender, notify, post_item, post_to, convert_option_mut_ref,
  call_begin, yield_resumed, call_resumed, reply_of, wake_with_value, coroutine_get_current,
}

abbrev pub IsQueue : ItemsQueue → Type 0
IsQueue q = IsValid new_item max_item_num q.buffer

-- The items of a queue, oldest first
abbrev pub items_of : ItemsQueue → List IpcItem
items_of q = contents new_item max_item_num q.buffer

-- `write_free_item` on a queue that is not full, and on one that is
pub write_room :
    (q : ItemsQueue) (item : IpcItem)
    → IsQueue q
    → length (items_of q) < max_item_num
    → (q' : ItemsQueue) × (write_free_item q item ≡ ret (ok tt, q'))
      × (items_of q' ≡ items_of q ++ (item ∷ []))
      × IsQueue q'
unfolding write_free_item Queue.push
write_room q item v room =
    let (r, pushes, held, valid) = push_safe_refines new_item max_item_num q.buffer v item in
    let test = ltb_of_lt (length (items_of q)) max_item_num room in
    (record { buffer = r }, rw pushes (rw test refl), held ∙ (rw test refl), valid)

pub write_full :
    (q : ItemsQueue) (item : IpcItem)
    → IsQueue q
    → max_item_num ≤ length (items_of q)
    → (q' : ItemsQueue) × (write_free_item q item ≡ ret (err, q'))
unfolding write_free_item Queue.push
write_full q item v full =
    let (r, pushes, _, _) = push_safe_refines new_item max_item_num q.buffer v item in
    (record { buffer = r }, rw pushes (rw (ltb_of_le (length (items_of q)) max_item_num full) refl))

module _ {ℓ} {F : Type ℓ} where
  -- Who has been told to run, by a call that found the receiver's flag `told`.
  pub record Notified (w w' : World F) (sender_id : ℕ) (told : Bool) : Type 0 where
    pub uipis : w'.uipis ≡ (
        if told
        then w.uipis
        else if sender_id == syscall_sender
        then w.uipis
        else sender_id ∷ w.uipis)
    pub syscall_wakes : w'.syscall_wakes ≡ (
        if told
        then w.syscall_wakes
        else if sender_id == syscall_sender
        then w.syscall_wakes + 1
        else w.syscall_wakes)

  -- What a call does with the buffer of its sender, up to its `await`.
  pub data Posts (w : World F) (ptr sender_id : ℕ) (item : IpcItem) (b : NewBuffer)
      : Outcome (Bool × World F) → Type ℓ where
    queue_full : length (items_of b.req_items) ≡ max_item_num → Posts w ptr sender_id item b panic
    posted :
        (b' : NewBuffer) (w' : World F)
        → lookup ptr w'.buffers ≡ some b'
        → items_of b'.req_items ≡ items_of b.req_items ++ (item ∷ [])
        → IsQueue b'.req_items
        → b'.recv_req_status ≡ true
        → b'.res_items ≡ b.res_items
        → Notified w w' sender_id b.recv_req_status
        → Posts w ptr sender_id item b (ret (true, w'))

  module _ (w : World F) (ptr sender_id : ℕ) (item : IpcItem) (b : NewBuffer)
      (v : IsQueue b.req_items) (counts : w.submit_syscall_cnt + 1 < 2 ^ 64) where
    found_self :
        (b' : NewBuffer) (rest : List (ℕ × NewBuffer)) → lookup ptr ((ptr, b') ∷ rest) ≡ some b'
    unfolding lookup
    found_self b' rest = rw (==_self ptr) refl

    write-Posts :
        (status : Bool)
        → b.recv_req_status ≡ status
        → (q : ItemsQueue) → write_free_item b.req_items item ≡ ret (ok tt, q)
        → items_of q ≡ items_of b.req_items ++ (item ∷ [])
        → IsQueue q
        → Posts w ptr sender_id item b (post_to true w ptr sender_id item (some b))
    unfolding post_to post_item notify store
    write-Posts true told q writes held valid =
        rw (writes, told)
          (posted (record b { req_items = q; recv_req_status = true })
            (store w ptr (record b { req_items = q; recv_req_status = true }))
            (found_self (record b { req_items = q; recv_req_status = true }) w.buffers) held valid
            refl refl (record { uipis = refl; syscall_wakes = refl }))
    write-Posts false told q writes held valid = elim (Bool-cases (sender_id == syscall_sender)) [
      | inl kernel ↦
          rw (writes, told, kernel, ltb_of_lt (w.submit_syscall_cnt + 1) (2 ^ 64) counts)
            (posted new_b
              (record (store w ptr new_b) {
                submit_syscall_cnt = w.submit_syscall_cnt + 1;
                syscall_wakes = w.syscall_wakes + 1;
              })
              (found_self new_b w.buffers) held valid refl refl
              (record { uipis = rw kernel refl; syscall_wakes = rw kernel refl }))
      | inr other ↦
          rw (writes, told, other)
            (posted new_b (record (store w ptr new_b) { uipis = sender_id ∷ w.uipis })
              (found_self new_b w.buffers) held valid refl refl
              (record { uipis = rw other refl; syscall_wakes = rw other refl }))
    ]
      where
        new_b : NewBuffer
        new_b = record b { req_items = q; recv_req_status = true }

    call-Posts : Posts w ptr sender_id item b (post_to true w ptr sender_id item (some b))
    call-Posts = elim (dec_lt (length (items_of b.req_items)) max_item_num) [
      | yes room ↦
          let (q, writes, held, valid) = write_room b.req_items item v room in
          write-Posts b.recv_req_status refl q writes held valid
      | no full ↦
          let held : length (items_of b.req_items) ≡ b.req_items.buffer.count =
            length-contents new_item max_item_num b.req_items.buffer v in
          let at_end : length (items_of b.req_items) ≡ max_item_num =
            omega (arith, full, held, v.count_in) in
          let (q, fails) = write_full b.req_items item v (omega (arith, full)) in
          unfold post_to post_item in rw fails (queue_full at_end)
    ]

    -- `seL4_Call_with_item` up to its `await`, through a sender with a buffer whose queue of requests
    -- is valid: it panics if the queue is full; otherwise the item is the last request, the
    -- receiver's flag is set, and the receiver is told to run if the flag was not set before: by the
    -- kernel's handler for sender 63, by a user interrupt for any other.
    pub call_begin-Posts :
        ptr ≢ 0
        → sender_id < length w.sender_map
        → get_or w.sender_map sender_id 0 ≡ ptr
        → lookup ptr w.buffers ≡ some b
        → Posts w ptr sender_id item b (call_begin w sender_id item)
    unfolding call_begin convert_option_mut_ref
    call_begin-Posts some_ptr lt registered found =
        rw (read_in_range w.sender_map sender_id 0 lt, registered, ==_ne ptr 0 some_ptr, found)
          call-Posts

  -- What `wake_with_value` leaves when it returns.
  given :
      (w w' : World F) (cid : ℕ) (item : IpcItem)
      → cid < length w.immediate_value
      → wake_with_value w cid item ≡ ret w'
      → w'.immediate_value ≡ set w.immediate_value cid (some item)
  unfolding wake_with_value
  given w w' cid item lt gives =
      from_wake (wake w.executor cid)
        (sym (rw (write_in_range w.immediate_value cid (some item) lt) refl) ∙ gives)
    where
      from_wake :
          (o : Outcome (Executor F))
          → (o >>= λ e₁.
              ret (record w {
                immediate_value = set w.immediate_value cid (some item);
                executor = e₁;
              }))
            ≡ ret w'
          → w'.immediate_value ≡ set w.immediate_value cid (some item)
      from_wake panic q = absurd (cc)
      from_wake (ret e₁) q =
          let same : record w {
            immediate_value = set w.immediate_value cid (some item);
            executor = e₁;
          }
              ≡ w' =
            cc in
          sym (ap (λ (u : World F). u.immediate_value) same)

  -- What `wake_with_value` gives a coroutine is what its call returns when the coroutine runs next,
  -- with the rest of the thread as it is then; the value is gone after that.
  pub call_resumed-wake_with_value :
      (w w' : World F) (cid : ℕ) (item : IpcItem) (e : Executor F)
      → cid < length w.immediate_value
      → wake_with_value w cid item ≡ ret w'
      → e.current ≡ some cid
      → call_resumed (record w' { executor = e })
        ≡ ret
            (ok item, record w' { executor = e; immediate_value = set w'.immediate_value cid none })
  unfolding call_resumed yield_resumed reply_of coroutine_get_current
  call_resumed-wake_with_value w w' cid item e lt gives runs =
      let there : w'.immediate_value ≡ set w.immediate_value cid (some item) =
        given w w' cid item lt gives in
      let in_range : cid < length w'.immediate_value =
        omega (arith, lt, ap length there, length-set w.immediate_value cid (some item)) in
      let value : get_or w'.immediate_value cid none ≡ some item =
        ap (λ (l : List (Option IpcItem)). get_or l cid none) there
        ∙ get_or-set_self w.immediate_value cid (some item) none lt in
      rw
        (
          runs,
          read_in_range w'.immediate_value cid none in_range,
          write_in_range w'.immediate_value cid none in_range,
          value,
        )
        refl
