-- ===== src/Net.antt =====
-- crates/example/src/net: the network service. The crate `smoltcp` with its sockets is a parameter.
pub mod Message
pub mod ListenTable
pub mod Requests
pub mod Connection
pub mod Client
use rust_root_task_demo.Common.{Outcome, Result, List, Option, Bool, ◌*◌, ℕ}
use rust_root_task_demo.Utils.IndexAllocator.{IndexAllocator}
use rust_root_task_demo.AsyncLib.{World}

-- `TCP_TX_BUF_LEN`, and `TCP_RX_BUF_LEN`
abbrev pub tcp_buf_len : ℕ
tcp_buf_len = 8 * 4096

-- `IpEndpoint`, for a type `A` of addresses
pub record IpEndpoint (A : Type 0) : Type 0 where
  pub addr : A
  pub port : ℕ

-- `IpListenEndpoint`
pub record IpListenEndpoint (A : Type 0) : Type 0 where
  pub addr : Option A
  pub port : ℕ

-- What the service calls of `smoltcp`, for sets `S` of sockets, single sockets `K` and addresses
-- `A`. A handle is a number. A call that names a handle which is not in the set may panic.
pub record Smoltcp (S K A : Type 0) : Type 0 where
  pub same_addr : A → A → Bool
  pub listening : ℕ → ℕ → ℕ → Result K  -- `Socket::new` with two buffers, and `listen` of it
  pub add : S → K → ℕ × S
  pub remove : S → ℕ → Outcome S
  pub is_established : S → ℕ → Outcome Bool  -- `state() == State::Established`
  pub local_endpoint : S → ℕ → Outcome (Option (IpEndpoint A))
  pub remote_endpoint : S → ℕ → Outcome (Option (IpEndpoint A))
  pub can_send : S → ℕ → Outcome Bool
  pub can_recv : S → ℕ → Outcome Bool
  pub send_slice : S → ℕ → List ℕ → Outcome (Result ℕ × S)
  pub recv_slice : S → ℕ → List ℕ → Outcome (Result ℕ × List ℕ × S)

-- `ListenTableEntry`, with endpoint capabilities as numbers
pub record ListenTableEntry (A : Type 0) : Type 0 where
  pub listen_endpoint : IpListenEndpoint A
  pub syn_queue : List ℕ
  pub block_cids : List ℕ
  pub block_ep : List ℕ

-- A message sent by `nb_send`: the endpoint and the message registers written before
pub record Notice : Type 0 where
  pub ep : ℕ
  pub registers : List ℕ

-- The state of the service: its thread, and the statics of the network modules
pub record Service {ℓ} (F : Type ℓ) (S A : Type 0) : Type ℓ where
  pub world : World F
  pub cids : IndexAllocator
  pub tcp : List (Option (ListenTableEntry A))  -- `LISTEN_TABLE`
  pub sockets : S  -- `SOCKET_SET`
  pub socket_2_cid : List (ℕ × ℕ)
  pub net_device_poller_cid : ℕ
  pub poll_cnt : ℕ
  pub net_poll_cnt : ℕ
  pub poll_eps : List ℕ
  pub notices : List Notice  -- the last first
  pub memory : List (ℕ × List ℕ)  -- the data of the `TcpBuffer`s, by address
