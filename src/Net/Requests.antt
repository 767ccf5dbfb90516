-- ===== src/Net/Requests.antt =====
-- crates/example/src/net/mod.rs: the coroutine that takes the requests of one client, and the
-- polling of the network interface. Polling the interface, with the packets that this brings in,
-- and handling the interrupt of the device are parameters.
pub mod Polling
pub mod Posting
use rust_root_task_demo.Common.{
  assert, unwrap_ok, unwrap, panic, ret, Outcome, err, ok, Result, drop, take, length, leb, ltb,
  some, none, Option, not, false, true, Bool, min, suc, zero, ◌>>◌, if◌then◌else◌, ◌>>=◌, ◌||◌,
  ◌++◌, ◌∷◌, ◌^◌, ◌%◌, ◌+◌, ℕ,
}
use rust_root_task_demo.Executor
use rust_root_task_demo.NewBuffer
use rust_root_task_demo.NewBuffer.{IpcItem}
use rust_root_task_demo.AsyncLib.{
  World, AsyncArgs, lookup, store, wake_with_value, possible_switch_begin, yield_resumed,
}
use rust_root_task_demo.Net.{Smoltcp, Service}
use rust_root_task_demo.Net.Message.{
  MessageType, net_poll_req, listen_type, send_type, recv_type, get_cid, get_port, get_type,
  get_socket_handler, get_len, get_buffer, send_reply, recv_reply,
}

-- `THRESHOLD`
abbrev pub threshold : ℕ
threshold = 10

-- Where the coroutine of the requests waits: for a request, or after `possible_switch` for its turn
pub data Paused : Type 0 where
  blocked switched : Paused

module _ {ℓ} {F : Type ℓ} where
  -- A reply goes into the replies; the client is told unless it has been told already.
  unfoldable pub post_reply : World F → AsyncArgs → IpcItem → Outcome (World F)
  post_reply w args item = do
    ptr ← unwrap args.ipc_new_buffer
    b ← unwrap (lookup ptr w.buffers)
    (written, items) ← NewBuffer.write_free_item b.res_items item
    unwrap_ok written
    let told = store w ptr (record b { res_items = items; recv_reply_status = true }) in
        if not b.recv_reply_status
        then (unwrap args.server_sender_id >>= λ sender.
            ret (record told { uipis = sender ∷ w.uipis }))
        else ret (store w ptr (record b { res_items = items }))

module _ {ℓ} {F : Type ℓ} {S A : Type 0} where
  -- `coroutine_wake` in the service's thread
  unfoldable pub wake_in : Service F S A → ℕ → Outcome (Service F S A)
  wake_in s cid = do
    e ← Executor.wake s.world.executor cid
    ret (record s { world = record (s.world) { executor = e } })

  unfoldable pub wake_net_device_poller : Service F S A → Outcome (Service F S A)
  wake_net_device_poller s = wake_in s s.net_device_poller_cid

  unfoldable pub spawn_in : Service F S A → F → ℕ → Outcome (ℕ × Service F S A)
  spawn_in s future prio = do
    (cid, r) ← Executor.spawn (record { executor = s.world.executor; cids = s.cids }) future prio
    ret (cid, record s { world = record (s.world) { executor = r.executor }; cids = r.cids })

  module _ (poll : Service F S A → Outcome (Bool × Service F S A)) where
    pub polled : Service F S A → Outcome (Bool × Service F S A)
    polled s = do
      (ans, s') ← poll s
      assert (ltb (s'.net_poll_cnt + 1) (2 ^ 64))
      ret (ans, record s' { net_poll_cnt = s'.net_poll_cnt + 1; poll_cnt = 0 })

    unfoldable pub iface_poll : Service F S A → Bool → Outcome (Bool × Service F S A)
    unfolding polled
    iface_poll s urgent = do
      assert (ltb (s.poll_cnt + 1) (2 ^ 64))
      let counted = record s { poll_cnt = s.poll_cnt + 1 }
      if urgent || leb threshold (s.poll_cnt + 1) then polled counted else ret (false, counted)

    -- A round of `net_poll`, up to its `await`; `interrupt_handler` also acknowledges the interrupt.
    unfoldable pub net_poll :
        (Service F S A → Outcome (Service F S A)) → Service F S A → Outcome (Service F S A)
    net_poll interrupt_handler s = do (_, s') ← iface_poll s true; interrupt_handler s'

    -- A round of `poll_timer` at time `cur`, up to its `await`, with the next `timeout`
    unfoldable pub poll_timer : ℕ → ℕ → ℕ → Service F S A → Outcome (ℕ × Service F S A)
    poll_timer cid cur timeout s =
        let expired = (do
          (_, s') ← iface_poll s false
          assert (ltb (cur + 10000) (2 ^ 64))
          s'' ← wake_in s' cid
          ret (cur + 10000, s'')) in
        let early = (do s' ← wake_in s cid; ret (timeout, s')) in
        if ltb timeout cur then expired else early

    -- What `INTERFACE` and the sockets do is `net`; `accept_future cid port` is the coroutine
    -- `tcp_accept_coroutine`.
    module _ {K : Type 0} (net : Smoltcp S K A) (accept_future : ℕ → ℕ → F) where
      sent : Service F S A → ℕ → Result ℕ → Outcome (Option IpcItem × Service F S A)
      sent s cid err = ret (none, s)
      sent s cid (ok send_size) = do
        (_, s') ← iface_poll s true
        ret (some (send_reply cid send_size), s')

      -- The arm of `Send`
      unfoldable pub process_send :
          Service F S A → IpcItem → Outcome (Option IpcItem × Service F S A)
      unfolding sent
      process_send s item = do
        let cid = get_cid item
        handler ← get_socket_handler item
        buffer ← get_buffer item
        len ← get_len item
        can ← net.can_send s.sockets handler
        let sending = (do
          bytes ← unwrap (lookup buffer s.memory)
          assert (leb len (length bytes))
          (size, sockets) ← net.send_slice s.sockets handler (take len bytes)
          sent (record s { sockets = sockets }) cid size)
        if can then sending else ret (none, s)

      received : Service F S A → ℕ → Result ℕ → Option IpcItem × Service F S A
      received s cid err = (none, s)
      received s cid (ok read_size) = (some (recv_reply cid read_size), s)

      -- The arm of `Recv`
      unfoldable pub process_recv :
          Service F S A → IpcItem → Outcome (Option IpcItem × Service F S A)
      unfolding received
      process_recv s item = do
        let cid = get_cid item
        handler ← get_socket_handler item
        buffer ← get_buffer item
        len ← get_len item
        bytes ← unwrap (lookup buffer s.memory)
        let min_len = min (length bytes) len
        can ← net.can_recv s.sockets handler
        let reading = (do
          (size, filled, sockets) ← net.recv_slice s.sockets handler (take min_len bytes)
          ret (
              received
                (record s {
                  sockets = sockets;
                  memory = (buffer, filled ++ drop min_len bytes) ∷ s.memory;
                })
                cid size))
        let handing = (do
          waiter ← unwrap (lookup handler s.socket_2_cid)
          w ← wake_with_value s.world waiter item
          ret (none, record s { world = w }))
        if can then reading else handing

      process_type :
          Service F S A → IpcItem → MessageType → Outcome (Option IpcItem × Service F S A)
      process_type s item net_poll_req = do s' ← wake_net_device_poller s; ret (none, s')
      process_type s item listen_type = do
        port ← get_port item
        (_, s') ← spawn_in s (accept_future item.cid (port % 2 ^ 16)) 2
        ret (none, s')
      process_type s item send_type = process_send s item
      process_type s item recv_type = process_recv s item
      process_type s item _ = panic

      unfoldable pub process_req :
          Service F S A → IpcItem → Outcome (Option IpcItem × Service F S A)
      unfolding process_type
      process_req s item = do type ← get_type item; process_type s item type

      post_if : Service F S A → AsyncArgs → Option IpcItem → Outcome (Service F S A)
      post_if s args none = ret s
      post_if s args (some item) = do w ← post_reply s.world args item; ret (record s { world = w })

      -- The loop of `nw_recv_req_coroutine` from the start of a round, with `fuel` rounds to go.
      -- `panic` also stands for a loop that has used up its rounds.
      unfoldable pub nw_recv_req :
          ℕ → ℕ → AsyncArgs → Service F S A → Outcome (Paused × Service F S A)
      unfolding post_if
      nw_recv_req zero cnt args s = panic
      nw_recv_req (suc fuel) cnt args s = do
        ptr ← unwrap args.ipc_new_buffer
        b ← unwrap (lookup ptr s.world.buffers)
        (first, items) ← NewBuffer.get_first_item b.req_items
        elim first [
          | none ↦ ret (
            blocked,
            record s {
              world = store s.world ptr (record b { req_items = items; recv_req_status = false });
            },
          )
          | some item ↦ do
            (reply, s₁) ←
                process_req
                  (record s { world = store s.world ptr (record b { req_items = items }) }) item
            s₂ ← post_if s₁ args reply
            let go_on = nw_recv_req fuel (cnt + 1) args s₂
            let pause = (do
              (yields, w) ← possible_switch_begin s₂.world
              let s₃ = record s₂ { world = w }
              let again = nw_recv_req fuel 0 args s₃
              if yields then ret (switched, s₃) else again)
            if leb 20 (cnt + 1) then pause else go_on
        ]

      -- `nw_recv_req_coroutine` from its start, and after either `await`, with what it waited at
      unfoldable pub nw_recv_req_coroutine :
          ℕ → AsyncArgs → Service F S A → Outcome (Paused × Service F S A)
      nw_recv_req_coroutine fuel args s = nw_recv_req fuel 0 args s

      unfoldable pub nw_recv_req_resumed :
          ℕ → AsyncArgs → Service F S A → Outcome (Paused × Service F S A)
      nw_recv_req_resumed fuel args s = do
        (_, w) ← yield_resumed s.world
        nw_recv_req fuel 0 args (record s { world = w })
