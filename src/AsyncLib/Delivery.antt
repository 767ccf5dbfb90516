-- ===== src/AsyncLib/Delivery.antt =====
-- What `recv_reply_coroutine` of crates/example/src/async_lib.rs does with the replies that wait.
use rust_root_task_demo.Common.{
  ltb_of_lt, ==_eq, ==_ne, subst, sym, if◌then◌else◌, ◌==◌, Outcome-cases, inr, inl, write, panic,
  Outcome, take, length, ==_self, arith, Option, false, true, Bool, ap, refl, suc, zero, ◌>>=◌, ◌∙◌,
  ◌<◌, ◌≤◌, ◌^◌, ◌+◌, ret, [], List, some, none, ◌∷◌, ◌≡◌, ℕ,
}
use rust_root_task_demo.Utils.Queue
use rust_root_task_demo.Utils.SafeRingBuffer.Laws.{pop_safe_refines}
use rust_root_task_demo.NewBuffer.{
  IpcItem, NewBuffer, ItemsQueue, max_item_num, new_item, get_first_item,
}
use rust_root_task_demo.Executor.{Executor, wake}
use rust_root_task_demo.AsyncLib.{World, lookup, store, wake_with_value}
use rust_root_task_demo.AsyncLib.Calls.{IsQueue, items_of}
use rust_root_task_demo.AsyncLib.Replies.{recv_reply, recv_reply_coroutine}

-- `get_first_item` on a queue without an item, and on one with some
first_none :
    (q : ItemsQueue)
    → IsQueue q
    → items_of q ≡ []
    → (q' : ItemsQueue) × (get_first_item q ≡ ret (none, q')) × (items_of q' ≡ []) × IsQueue q'
unfolding get_first_item Queue.pop
first_none q v held =
    let (r, pops, left, valid) = pop_safe_refines new_item max_item_num q.buffer v in
    (
      record { buffer = r },
      rw pops (ap (λ (xs : List IpcItem). ret ((Queue.pop xs).0, record { buffer = r })) held),
      left ∙ ap (λ (xs : List IpcItem). (Queue.pop xs).1) held,
      valid,
    )

first_some :
    (q : ItemsQueue) (item : IpcItem) (rest : List IpcItem)
    → IsQueue q
    → items_of q ≡ item ∷ rest
    → (q' : ItemsQueue) × (get_first_item q ≡ ret (some item, q'))
      × (items_of q' ≡ rest)
      × IsQueue q'
unfolding get_first_item Queue.pop
first_some q item rest v held =
    let (r, pops, left, valid) = pop_safe_refines new_item max_item_num q.buffer v in
    (
      record { buffer = r },
      rw pops (ap (λ (xs : List IpcItem). ret ((Queue.pop xs).0, record { buffer = r })) held),
      left ∙ ap (λ (xs : List IpcItem). (Queue.pop xs).1) held,
      valid,
    )

-- Handing out items in turn, to the executor and the values that coroutines are woken with.
unfoldable pub deliver {ℓ} :
    {F : Type ℓ}
    → List IpcItem
    → Executor F
    → List (Option IpcItem)
    → Outcome (Executor F × List (Option IpcItem))
deliver [] e values = ret (e, values)
deliver (item ∷ rest) e values = do
  values' ← write values item.cid (some item)
  e' ← wake e item.cid
  deliver rest e' values'

module _ {ℓ} {F : Type ℓ} where
  -- What the coroutine does when `items` wait and `missing` of its replies are missing.
  pub data Delivers (w : World F) (ptr missing : ℕ) (items : List IpcItem)
      : Outcome (Bool × World F) → Type ℓ where
    stops :
        deliver (take missing items) w.executor w.immediate_value ≡ panic
        → Delivers w ptr missing items panic
    ends :
        (w' : World F)
        → missing ≤ length items
        → deliver (take missing items) w.executor w.immediate_value
          ≡ ret (w'.executor, w'.immediate_value)
        → w'.reply_count ≡ w.reply_count + missing
        → Delivers w ptr missing items (ret (true, w'))
    blocks :
        (w' : World F) (b' : NewBuffer)
        → length items < missing
        → deliver items w.executor w.immediate_value ≡ ret (w'.executor, w'.immediate_value)
        → w'.reply_count ≡ w.reply_count + length items
        → lookup ptr w'.buffers ≡ some b'
        → items_of b'.res_items ≡ []
        → b'.recv_reply_status ≡ false
        → Delivers w ptr missing items (ret (false, w'))

  -- The thread after one reply has been taken and handed out.
  abbrev handed : World F → ℕ → NewBuffer → Executor F → List (Option IpcItem) → World F
  handed w ptr b e values = record (store w ptr b) {
    executor = e;
    immediate_value = values;
    reply_count = w.reply_count + 1;
  }

  -- What is left to do after the first reply.
  later :
      (w : World F) (ptr m : ℕ) (b : NewBuffer) (item : IpcItem) (rest : List IpcItem)
      (e : Executor F) (values : List (Option IpcItem))
      → write w.immediate_value item.cid (some item) ≡ ret values
      → wake w.executor item.cid ≡ ret e
      → {o : Outcome (Bool × World F)} → Delivers (handed w ptr b e values) ptr (suc m) rest o
      → Delivers w ptr (suc (suc m)) (item ∷ rest) o
  unfolding deliver
  later w ptr m b item rest e values writes wakes (stops all) = stops (rw (writes, wakes) all)
  later w ptr m b item rest e values writes wakes (ends w' enough all count) =
      ends w' (omega (arith, enough)) (rw (writes, wakes) all) (omega (arith, count))
  later w ptr m b item rest e values writes wakes
        (blocks w' b' few all count there none_left flag) =
      blocks w' b' (omega (arith, few)) (rw (writes, wakes) all) (omega (arith, count)) there
        none_left flag

  next_round :
      (fuel ptr n : ℕ) (w : World F) (b : NewBuffer) (item : IpcItem) (q : ItemsQueue)
      (values : List (Option IpcItem)) (e : Executor F)
      → lookup ptr w.buffers ≡ some b
      → get_first_item b.res_items ≡ ret (some item, q)
      → write w.immediate_value item.cid (some item) ≡ ret values
      → wake w.executor item.cid ≡ ret e
      → w.reply_count + 1 < 2 ^ 64
      → recv_reply false (suc fuel) ptr n w ≡ (
          if w.reply_count + 1 == n
          then ret (true, handed w ptr (record b { res_items = q }) e values)
          else recv_reply false fuel ptr n (handed w ptr (record b { res_items = q }) e values))
  unfolding recv_reply wake_with_value store
  next_round fuel ptr n w b item q values e found gets writes wakes small =
      rw (found, gets, writes, wakes, ltb_of_lt (w.reply_count + 1) (2 ^ 64) small) refl

  recv_reply-Delivers :
      (items : List IpcItem) (fuel ptr missing : ℕ) (w : World F) (b : NewBuffer)
      → lookup ptr w.buffers ≡ some b
      → IsQueue b.res_items
      → items_of b.res_items ≡ items
      → length items < fuel
      → w.reply_count + suc missing < 2 ^ 64
      → Delivers w ptr
          (suc missing)
          items
          (recv_reply false fuel ptr (w.reply_count + suc missing) w)
  unfolding recv_reply wake_with_value deliver store lookup
  recv_reply-Delivers items zero ptr missing w b found v held enough small =
      absurd (omega (arith, enough))
  recv_reply-Delivers [] (suc fuel) ptr missing w b found v held enough small =
      let (q, gets, left, valid) = first_none b.res_items v held in
      rw (found, gets)
        (blocks (store w ptr (record b { res_items = q; recv_reply_status = false }))
          (record b { res_items = q; recv_reply_status = false }) (omega arith) refl (omega arith)
          (rw (==_self ptr) refl) left refl)
  recv_reply-Delivers (item ∷ rest) (suc fuel) ptr missing w b found v held enough small =
      let (q, gets, left, valid) = first_some b.res_items item rest v held in
      let b₁ = record b { res_items = q } in
      elim (Outcome-cases (write w.immediate_value item.cid (some item))) [
        | inl fails ↦ rw (found, gets, fails) (stops (rw fails refl))
        | inr (values, writes) ↦ elim (Outcome-cases (wake w.executor item.cid)) [
          | inl fails ↦ rw (found, gets, writes, fails) (stops (rw (writes, fails) refl))
          | inr (e, wakes) ↦
              subst (Delivers w ptr (suc missing) (item ∷ rest))
                (sym (
                  next_round fuel ptr (w.reply_count + suc missing) w b item q values e found gets
                    writes wakes (omega (arith, small))))
                (continues missing small q left valid values writes e wakes (λ m total.
                  recv_reply-Delivers rest fuel ptr m (handed w ptr b₁ e values) b₁
                    (rw (==_self ptr) refl) valid left (omega (arith, enough)) total))
        ]
      ]
    where
      continues :
          (m : ℕ)
          → w.reply_count + suc m < 2 ^ 64
          → (q : ItemsQueue) → items_of q ≡ rest
          → IsQueue q
          → (values : List (Option IpcItem))
          → write w.immediate_value item.cid (some item) ≡ ret values
          → (e : Executor F) → wake w.executor item.cid ≡ ret e
          → ((k : ℕ)
              → w.reply_count + 1 + suc k < 2 ^ 64
              → Delivers (handed w ptr (record b { res_items = q }) e values) ptr (suc k) rest (
                  recv_reply false fuel ptr
                    (w.reply_count + 1 + suc k)
                    (handed w ptr (record b { res_items = q }) e values)))
          → Delivers w ptr (suc m) (item ∷ rest) (
              if w.reply_count + 1 == w.reply_count + suc m
              then ret (true, handed w ptr (record b { res_items = q }) e values)
              else recv_reply false fuel ptr
                  (w.reply_count + suc m)
                  (handed w ptr (record b { res_items = q }) e values))
      continues zero total q left valid values writes e wakes others =
          rw (==_eq (w.reply_count + 1) (w.reply_count + 1) refl) (
            ends (handed w ptr (record b { res_items = q }) e values) (omega arith)
              (rw (writes, wakes) refl) refl)
      continues (suc m) total q left valid values writes e wakes others =
          let shift : w.reply_count + 1 + suc m ≡ w.reply_count + suc (suc m) = omega arith in
          rw (==_ne (w.reply_count + 1) (w.reply_count + suc (suc m)) (λ same. omega (arith, same)))
            (later w ptr m (record b { res_items = q }) item rest e values writes wakes
              (subst
                (λ (n : ℕ).
                  Delivers (handed w ptr (record b { res_items = q }) e values) ptr (suc m) rest (
                    recv_reply false fuel ptr n
                      (handed w ptr (record b { res_items = q }) e values)))
                shift (others m (omega (arith, total)))))

  -- `recv_reply_coroutine` with `missing + 1` replies still to come, a total below the largest word,
  -- a valid queue of replies, and more rounds than replies that wait: it hands the waiting replies in their
  -- order to the coroutines that they name, until the last missing one, at which it ends, or until
  -- none waits, when it clears its flag and waits. It panics exactly if handing one of these out does.
  pub recv_reply_coroutine-Delivers :
      (fuel ptr missing : ℕ) (w : World F) (b : NewBuffer)
      → lookup ptr w.buffers ≡ some b
      → IsQueue b.res_items
      → length (items_of b.res_items) < fuel
      → w.reply_count + suc missing < 2 ^ 64
      → Delivers w ptr
          (suc missing)
          (items_of b.res_items)
          (recv_reply_coroutine fuel ptr (w.reply_count + suc missing) w)
  unfolding recv_reply_coroutine
  recv_reply_coroutine-Delivers fuel ptr missing w b found v enough small =
      recv_reply-Delivers (items_of b.res_items) fuel ptr missing w b found v refl enough small
