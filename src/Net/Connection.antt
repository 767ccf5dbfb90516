-- ===== src/Net/Connection.antt =====
-- crates/example/src/net/mod.rs: the coroutine that accepts a connection for a client and then waits
-- for what arrives. Each is one function up to an `await`, and one from there on.
pub mod Accepted
use rust_root_task_demo.Common.{
  unwrap_ok, unwrap, panic, ret, Outcome, err, ok, Result, drop, take, length, some, none, Option,
  min, ◌>>◌, ◌>>=◌, if◌then◌else◌, ◌++◌, ◌∷◌, ℕ,
}
use rust_root_task_demo.NewBuffer.{IpcItem}
use rust_root_task_demo.AsyncLib.{AsyncArgs, lookup, yield_resumed, coroutine_get_current}
use rust_root_task_demo.Net.{IpEndpoint, Smoltcp, Service, tcp_buf_len}
use rust_root_task_demo.Net.Message.{
  get_cid, get_socket_handler, get_len, get_buffer, recv_reply, listen_reply,
}
use rust_root_task_demo.Net.ListenTable
use rust_root_task_demo.Net.Requests.{post_reply, wake_in}

-- What `tcp_recv_coroutine` waits for: an item, or data for the item that it has, by the fields that
-- it goes on with
pub data Waiting : Type 0 where
  for_item : Waiting
  for_data : (cid handler buffer min_len : ℕ) → Waiting

module _ {ℓ} {F : Type ℓ} {S K A : Type 0} (net : Smoltcp S K A) (args : AsyncArgs) where
  read_done : Service F S A → ℕ → Result ℕ → Outcome (Waiting × Service F S A)
  read_done s cid err = ret (for_item, s)
  read_done s cid (ok read_size) = do
    w ← post_reply s.world args (recv_reply cid read_size)
    ret (for_item, record s { world = w })

  -- A round of the inner loop of `tcp_recv_coroutine`
  unfoldable pub tcp_recv_data : ℕ → ℕ → ℕ → ℕ → Service F S A → Outcome (Waiting × Service F S A)
  unfolding read_done
  tcp_recv_data cid handler buffer min_len s = do
    can ← net.can_recv s.sockets handler
    let reading = (do
      bytes ← unwrap (lookup buffer s.memory)
      (size, filled, sockets) ← net.recv_slice s.sockets handler (take min_len bytes)
      read_done
          (record s {
            sockets = sockets;
            memory = (buffer, filled ++ drop min_len bytes) ∷ s.memory;
          })
          cid size)
    let yielding = (do
      current ← coroutine_get_current s.world
      s' ← wake_in s current
      ret (for_data cid handler buffer min_len, s'))
    if can then reading else yielding

  -- A round of the outer loop
  unfoldable pub tcp_recv_coroutine :
      Option IpcItem → Service F S A → Outcome (Waiting × Service F S A)
  tcp_recv_coroutine none s = ret (for_item, s)
  tcp_recv_coroutine (some item) s = do
    let cid = get_cid item
    handler ← get_socket_handler item
    buffer ← get_buffer item
    len ← get_len item
    bytes ← unwrap (lookup buffer s.memory)
    tcp_recv_data cid handler buffer (min (length bytes) len) s

  -- After either `await`: the inner one drops what `yield_now` returns.
  unfoldable pub tcp_recv_resumed : Waiting → Service F S A → Outcome (Waiting × Service F S A)
  tcp_recv_resumed for_item s = do
    (item, w) ← yield_resumed s.world
    tcp_recv_coroutine item (record s { world = w })
  tcp_recv_resumed (for_data cid handler buffer min_len) s = do
    (_, w) ← yield_resumed s.world
    tcp_recv_data cid handler buffer min_len (record s { world = w })

  -- `tcp_accept_coroutine` up to its `await`: the socket that it listens with
  unfoldable pub tcp_accept_coroutine : ℕ → Service F S A → Outcome (ℕ × Service F S A)
  tcp_accept_coroutine port s = do
    tcp_socket ← unwrap_ok (net.listening tcp_buf_len tcp_buf_len port)
    let (handler, sockets) = net.add s.sockets tcp_socket
    current ← coroutine_get_current s.world
    (listens, s') ←
        ListenTable.listen (record s { sockets = sockets }) (record { addr = none; port = port })
          handler current
    unwrap_ok listens
    ret (handler, s')

  accepted :
      Service F S A
      → ℕ
      → ℕ
      → Result (ℕ × IpEndpoint A × IpEndpoint A)
      → Outcome (Waiting × Service F S A)
  accepted s cid handler err = panic
  accepted s cid handler (ok (handle, _, _)) = do
    w ← post_reply s.world args (listen_reply cid handle)
    current ← coroutine_get_current w
    tcp_recv_coroutine none
        (record s { world = w; socket_2_cid = (handler, current) ∷ s.socket_2_cid })

  -- From there to the first `await` of `tcp_recv_coroutine`
  unfoldable pub tcp_accept_resumed : ℕ → ℕ → ℕ → Service F S A → Outcome (Waiting × Service F S A)
  unfolding accepted
  tcp_accept_resumed cid port handler s = do
    (_, w) ← yield_resumed s.world
    (res, s') ← ListenTable.accept net (record s { world = w }) port
    accepted s' cid handler res
