-- ===== src/Net/Client.antt =====
-- crates/example/src/net/tcp.rs and sync_tcp.rs: the client's calls of the network service, through
-- the shared buffer or through an endpoint. A call through the buffer is one function up to its
-- `await`, and one from there on.
use rust_root_task_demo.Common.{
  read, assert, unwrap, ret, Outcome, err, ok, Result, replicate, [], List, Bool, ◌>>◌, ◌>>=◌, ◌==◌,
  ◌∷◌, ℕ,
}
use rust_root_task_demo.NewBuffer.{IpcItem}
use rust_root_task_demo.AsyncLib.{World, lookup, call_begin, call_resumed, coroutine_get_current}
use rust_root_task_demo.Net.{tcp_buf_len}
use rust_root_task_demo.Net.Message
use rust_root_task_demo.Net.Message.{
  MessageType, type_number, listen_type, listen_reply_type, send_type, send_reply_type, recv_type,
  recv_reply_type, get_type, get_len, get_socket_handler,
}

-- `TcpBuffer::new`
unfoldable pub new_tcp_buffer : List ℕ
new_tcp_buffer = replicate tcp_buf_len 0

-- A client's thread, and where each of its sockets was opened: `NET_STACK_MAP`, and for the calls
-- through an endpoint `NET_STACK_MAP2`
pub record Client {ℓ} (F : Type ℓ) : Type ℓ where
  pub world : World F
  pub net_stack_map : List (ℕ × ℕ)
  pub net_stack_map2 : List (ℕ × ℕ)

module _ {ℓ} {F : Type ℓ} where
  called : Client F → Bool × World F → Bool × Client F
  called c (waits, w) = (waits, record c { world = w })

  -- The Boolean is whether the call gets to its `await`; if not, it has returned `Err`.
  unfoldable pub listen_begin : ℕ → ℕ → Client F → Outcome (Bool × Client F)
  unfolding called
  listen_begin port nw_sender_id c = do
    cid ← coroutine_get_current c.world
    res ← call_begin c.world nw_sender_id (Message.listen cid port)
    ret (called c res)

  listening : ℕ → Client F → Result IpcItem → Outcome (Result ℕ × Client F)
  listening nw_sender_id c err = ret (err, c)
  listening nw_sender_id c (ok reply) = do
    type ← get_type reply
    assert (type_number type == type_number listen_reply_type)
    handler ← get_socket_handler reply
    ret (ok handler, record c { net_stack_map = (handler, nw_sender_id) ∷ c.net_stack_map })

  unfoldable pub listen_resumed : ℕ → Client F → Outcome (Result ℕ × Client F)
  unfolding listening
  listen_resumed nw_sender_id c = do
    (res, w) ← call_resumed c.world
    listening nw_sender_id (record c { world = w }) res

  unfoldable pub send_begin : ℕ → ℕ → ℕ → Client F → Outcome (Bool × Client F)
  unfolding called
  send_begin handler buffer len c = do
    nw_sender_id ← unwrap (lookup handler c.net_stack_map)
    cid ← coroutine_get_current c.world
    res ← call_begin c.world nw_sender_id (Message.send cid handler buffer len)
    ret (called c res)

  unfoldable pub recv_begin : ℕ → ℕ → ℕ → Client F → Outcome (Bool × Client F)
  unfolding called
  recv_begin handler buffer len c = do
    nw_sender_id ← unwrap (lookup handler c.net_stack_map)
    cid ← coroutine_get_current c.world
    res ← call_begin c.world nw_sender_id (Message.recv cid handler buffer len)
    ret (called c res)

  sized : MessageType → Client F → Result IpcItem → Outcome (Result ℕ × Client F)
  sized expected c err = ret (err, c)
  sized expected c (ok reply) = do
    type ← get_type reply
    assert (type_number type == type_number expected)
    len ← get_len reply
    ret (ok len, c)

  unfoldable pub send_resumed : Client F → Outcome (Result ℕ × Client F)
  unfolding sized
  send_resumed c = do
    (res, w) ← call_resumed c.world
    sized send_reply_type (record c { world = w }) res

  unfoldable pub recv_resumed : Client F → Outcome (Result ℕ × Client F)
  unfolding sized
  recv_resumed c = do
    (res, w) ← call_resumed c.world
    sized recv_reply_type (record c { world = w }) res

  -- `exchange ep registers` is what `send` and then `recv` of an endpoint leave in the message
  -- registers of the thread.
  module _ (exchange : ℕ → List ℕ → List ℕ) where
    unfoldable pub sync_listen : ℕ → ℕ → Client F → Outcome (Result ℕ × Client F)
    sync_listen port ep c = do
      handler ← read (exchange ep (type_number listen_type ∷ port ∷ [])) 1
      ret (ok handler, record c { net_stack_map2 = (handler, ep) ∷ c.net_stack_map2 })

    unfoldable pub sync_send : ℕ → ℕ → ℕ → Client F → Outcome (Result ℕ)
    sync_send handler buffer len c = do
      ep ← unwrap (lookup handler c.net_stack_map2)
      size ← read (exchange ep (type_number send_type ∷ handler ∷ buffer ∷ len ∷ [])) 1
      ret (ok size)

    unfoldable pub sync_recv : ℕ → ℕ → ℕ → Client F → Outcome (Result ℕ)
    sync_recv handler buffer len c = do
      ep ← unwrap (lookup handler c.net_stack_map2)
      size ← read (exchange ep (type_number recv_type ∷ handler ∷ buffer ∷ len ∷ [])) 1
      ret (ok size)
