-- ===== src/Net/ListenTable.antt =====
-- crates/example/src/net/listen_table.rs: which sockets listen on a port, and who waits for them.
pub mod Packet
pub mod Aligned
pub mod Accept
use rust_root_task_demo.Common.{
  write, read, assert, unwrap, panic, ret, Outcome, err, ok, Result, replicate, length, leb, [],
  List, some, none, Option, not, true, Bool, ◌>>◌, ◌>>=◌, if◌then◌else◌, ◌==◌, ◌&&◌, ◌++◌, ◌∷◌, ℕ,
}
use rust_root_task_demo.Executor
use rust_root_task_demo.Net.{
  IpEndpoint, IpListenEndpoint, Smoltcp, ListenTableEntry, Notice, Service,
}
use rust_root_task_demo.Net.Message.{type_number, listen_reply_type}

abbrev pub listen_queue_size : ℕ
listen_queue_size = 4096

abbrev pub port_num : ℕ
port_num = 65536

-- `ListenTableEntry::new`
unfoldable pub new_entry : {A : Type 0} → IpListenEndpoint A → ListenTableEntry A
new_entry listen_endpoint = record {
  listen_endpoint = listen_endpoint;
  syn_queue = [];
  block_cids = [];
  block_ep = [];
}

-- `ListenTable::new`
unfoldable pub new : (A : Type 0) → List (Option (ListenTableEntry A))
new A = replicate port_num none

-- The entry after `if entry.is_none() { … }`
unfoldable pub entry_or_new :
    {A : Type 0} → IpListenEndpoint A → Option (ListenTableEntry A) → ListenTableEntry A
entry_or_new listen_endpoint none = new_entry listen_endpoint
entry_or_new listen_endpoint (some en) = en

module _ {S K A : Type 0} (net : Smoltcp S K A) where
  unfoldable pub can_accept : ListenTableEntry A → A → Bool
  can_accept en dst = accepts en.listen_endpoint.addr
    where
      accepts : Option A → Bool
      accepts none = true
      accepts (some addr) = net.same_addr addr dst

  -- The loop of `drop`
  unfoldable pub remove_all : List ℕ → S → Outcome S
  remove_all [] sockets = ret sockets
  remove_all (handle ∷ rest) sockets = do
    sockets' ← net.remove sockets handle
    remove_all rest sockets'

  -- `ListenTableEntry::drop`
  drop_entry : Option (ListenTableEntry A) → S → Outcome S
  drop_entry none sockets = ret sockets
  drop_entry (some en) sockets = remove_all en.syn_queue sockets

  unfoldable pub is_connected : S → ℕ → Outcome Bool
  is_connected = net.is_established

  unfoldable pub get_addr_tuple : S → ℕ → Outcome (IpEndpoint A × IpEndpoint A)
  get_addr_tuple sockets handle = do
    op_local ← net.local_endpoint sockets handle
    local ← unwrap op_local
    op_remote ← net.remote_endpoint sockets handle
    remote ← unwrap op_remote
    ret (local, remote)

module _ {ℓ} {F : Type ℓ} {S A : Type 0} where
  -- `listen`, and `listen_with_ep` with an endpoint instead of a coroutine id
  unfoldable pub listen :
      Service F S A → IpListenEndpoint A → ℕ → ℕ → Outcome (Result (Unit {0}) × Service F S A)
  listen s listen_endpoint handler cid = do
    assert (not (listen_endpoint.port == 0))
    entry ← read s.tcp listen_endpoint.port
    let en = entry_or_new listen_endpoint entry
    tcp ← write s.tcp listen_endpoint.port (
        some (record en {
          syn_queue = en.syn_queue ++ (handler ∷ []);
          block_cids = en.block_cids ++ (cid ∷ []);
        }))
    ret (ok tt, record s { tcp = tcp })

  unfoldable pub listen_with_ep :
      Service F S A → IpListenEndpoint A → ℕ → ℕ → Outcome (Service F S A)
  listen_with_ep s listen_endpoint handle ep = do
    assert (not (listen_endpoint.port == 0))
    entry ← read s.tcp listen_endpoint.port
    let en = entry_or_new listen_endpoint entry
    tcp ← write s.tcp listen_endpoint.port (
        some (record en {
          syn_queue = en.syn_queue ++ (handle ∷ []);
          block_ep = en.block_ep ++ (ep ∷ []);
        }))
    ret (record s { tcp = tcp })

  -- `if !entry.block_cids.is_empty() { … }`
  unfoldable pub wake_blocked :
      Service F S A → ListenTableEntry A → List ℕ → Outcome (ListenTableEntry A × Service F S A)
  wake_blocked s en [] = ret (en, s)
  wake_blocked s en (cid ∷ rest) = do
    e ← Executor.wake s.world.executor cid
    ret (record en { block_cids = rest }, record s { world = record (s.world) { executor = e } })

  -- `if !entry.block_ep.is_empty() { … }`: the handle goes to the endpoint in a message.
  unfoldable pub notify_blocked :
      Service F S A
      → ListenTableEntry A
      → List ℕ
      → List ℕ
      → Outcome (ListenTableEntry A × Service F S A)
  notify_blocked s en syn_queue [] = ret (en, s)
  notify_blocked s en [] (ep ∷ rest) = panic
  notify_blocked s en (handler ∷ others) (ep ∷ rest) = ret (
    record en { syn_queue = others; block_ep = rest },
    record s {
      notices =
          record { ep = ep; registers = type_number listen_reply_type ∷ handler ∷ [] } ∷ s.notices;
      poll_eps = s.poll_eps ++ (ep ∷ []);
    },
  )

module _ {ℓ} {F : Type ℓ} {S K A : Type 0} (net : Smoltcp S K A) where
  unfoldable pub unlisten : Service F S A → ℕ → Outcome (Service F S A)
  unfolding drop_entry
  unlisten s port = do
    entry ← read s.tcp port
    tcp ← write s.tcp port none
    sockets ← drop_entry net entry s.sockets
    ret (record s { tcp = tcp; sockets = sockets })

  -- The part of `accept` with an entry, whose queue is given
  unfoldable pub accept_from :
      Service F S A
      → ℕ
      → ListenTableEntry A
      → List ℕ
      → Outcome (Result (ℕ × IpEndpoint A × IpEndpoint A) × Service F S A)
  accept_from s port en [] = panic
  accept_from s port en (handle ∷ rest) = do
    tcp ← write s.tcp port (some (record en { syn_queue = rest }))
    connected ← is_connected net s.sockets handle
    assert connected
    (local, remote) ← get_addr_tuple net s.sockets handle
    ret (ok (handle, local, remote), record s { tcp = tcp })

  accept_entry :
      Service F S A
      → ℕ
      → Option (ListenTableEntry A)
      → Outcome (Result (ℕ × IpEndpoint A × IpEndpoint A) × Service F S A)
  accept_entry s port none = ret (err, s)
  accept_entry s port (some en) = accept_from s port en en.syn_queue

  unfoldable pub accept :
      Service F S A → ℕ → Outcome (Result (ℕ × IpEndpoint A × IpEndpoint A) × Service F S A)
  unfolding accept_entry
  accept s port = do entry ← read s.tcp port; accept_entry s port entry

  -- `incoming_tcp_packet` with an entry
  unfoldable pub packet_for :
      Service F S A → IpEndpoint A → ListenTableEntry A → Outcome (Service F S A)
  packet_for s dst en =
      let handled = (do
        (en₁, s₁) ← wake_blocked s en en.block_cids
        (en₂, s₂) ← notify_blocked s₁ en₁ en₁.syn_queue en₁.block_ep
        tcp ← write s₂.tcp dst.port (some en₂)
        ret (record s₂ { tcp = tcp })) in
      if not (can_accept net en dst.addr)
      then ret s
      else if leb listen_queue_size (length en.syn_queue)
      then ret s
      else handled

  packet_entry :
      Service F S A → IpEndpoint A → Option (ListenTableEntry A) → Outcome (Service F S A)
  packet_entry s dst none = ret s
  packet_entry s dst (some en) = packet_for s dst en

  unfoldable pub incoming_tcp_packet : Service F S A → IpEndpoint A → Outcome (Service F S A)
  unfolding packet_entry
  incoming_tcp_packet s dst = do entry ← read s.tcp dst.port; packet_entry s dst entry

-- What `snoop_tcp_packet` reads of a frame: the fields of a TCP packet, another IPv4 packet, or an
-- error. Reading a frame is a parameter.
pub data Frame (A : Type 0) : Type 0 where
  malformed not_tcp : Frame A
  tcp_packet : (dst : IpEndpoint A) (syn ack : Bool) → Frame A

module _ {ℓ} {F : Type ℓ} {S K A : Type 0} (net : Smoltcp S K A) (parse : List ℕ → Frame A) where
  snoop_frame : Service F S A → Frame A → Outcome (Result (Unit {0}) × Service F S A)
  snoop_frame s malformed = ret (err, s)
  snoop_frame s not_tcp = ret (ok tt, s)
  snoop_frame s (tcp_packet dst syn ack) =
      let arrived = (do s' ← incoming_tcp_packet net s dst; ret (ok tt, s')) in
      if syn && not ack then arrived else ret (ok tt, s)

  unfoldable pub snoop_tcp_packet :
      Service F S A → List ℕ → Outcome (Result (Unit {0}) × Service F S A)
  unfolding snoop_frame
  snoop_tcp_packet s buf = snoop_frame s (parse buf)
