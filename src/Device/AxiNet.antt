-- ===== src/Device/AxiNet.antt =====
-- crates/example/src/device/net/axi_net/mod.rs: the pool of buffers for transfers, and what the
-- network stack calls of the device. The drivers of the Ethernet core and of its DMA engine are a
-- parameter.
pub mod Pool
use rust_root_task_demo.Common.{
  unwrap_ok, unwrap, panic, ret, Outcome, Result, ltb, some, none, Option, Bool, ◌>>◌, ◌>>=◌,
  if◌then◌else◌, ◌*◌, ◌+◌, ℕ,
}
use rust_root_task_demo.Utils.IndexAllocator
use rust_root_task_demo.Utils.IndexAllocator.{IndexAllocator}
use rust_root_task_demo.ImageUtils.{get_heap_paddr}

abbrev pub mtu : ℕ
mtu = 256

abbrev pub pool_size : ℕ
pool_size = 64

-- `DMA_BUFFER_ALLOCATOR`
unfoldable pub new_pool : IndexAllocator
new_pool = IndexAllocator.new pool_size

-- `DMABufferHandler::new`: the handler
unfoldable pub new_handler : IndexAllocator → Outcome (ℕ × IndexAllocator)
new_handler pool = do
  (found, pool') ← IndexAllocator.allocate pool_size pool
  handler ← unwrap found
  ret (handler, pool')

-- `len`
unfoldable pub buffer_len : ℕ
buffer_len = mtu

-- `get_mut_buffer` and `get_buffer`: the address of a buffer, that of `DMA_BUFFER_POOL` given
unfoldable pub get_buffer : ℕ → ℕ → Outcome ℕ
get_buffer pool_start handler =
    if ltb handler pool_size then ret (pool_start + handler * mtu) else panic

-- `DMABufferHandler::drop`
unfoldable pub drop_handler : IndexAllocator → ℕ → Outcome IndexAllocator
drop_handler pool handler = IndexAllocator.release pool handler

-- What is called of the two drivers, for a type `D` of their states. A transfer is submitted and
-- waited for in one step.
pub record Drivers (D : Type 0) : Type 0 where
  pub is_rx_cmplt : D → Bool
  pub is_tx_cmplt : D → Bool
  pub clear_rx_cmplt : D → D
  pub clear_tx_cmplt : D → D
  pub can_receive : D → Bool
  pub has_free_bd : D → Bool
  pub rx_submit_and_wait : D → ℕ → ℕ → Result D
  pub tx_submit_and_wait : D → ℕ → ℕ → Result D

-- The device: the drivers, the pool and its address, and `HEAP_P_V_OFFSET`
pub record AxiNet (D : Type 0) : Type 0 where
  pub drivers : D
  pub pool : IndexAllocator
  pub pool_start : ℕ
  pub heap_p_v_offset : ℕ

module _ {D : Type 0} (eth : Drivers D) where
  unfoldable pub interrupt_handler : AxiNet D → AxiNet D
  interrupt_handler net = clear_tx (clear_rx net)
    where
      clear_rx : AxiNet D → AxiNet D
      clear_rx n =
          if eth.is_rx_cmplt n.drivers
          then record n { drivers = eth.clear_rx_cmplt n.drivers }
          else n

      clear_tx : AxiNet D → AxiNet D
      clear_tx n =
          if eth.is_tx_cmplt n.drivers
          then record n { drivers = eth.clear_tx_cmplt n.drivers }
          else n

  -- `receive`: the handler of the buffer of the token, if a frame has arrived
  unfoldable pub receive : AxiNet D → Outcome (Option ℕ × AxiNet D)
  receive net =
      let arrived = (do
        (handler, pool) ← new_handler net.pool
        vaddr ← get_buffer net.pool_start handler
        paddr ← get_heap_paddr net.heap_p_v_offset vaddr
        drivers ← unwrap_ok (eth.rx_submit_and_wait net.drivers paddr buffer_len)
        ret (some handler, record net { drivers = drivers; pool = pool })) in
      if eth.can_receive net.drivers then arrived else ret (none, net)

  unfoldable pub transmit : AxiNet D → Bool
  transmit net = eth.has_free_bd net.drivers

  -- `consume` of the token that `receive` has handed out: the stack's function reads the buffer, and
  -- the token's handler is dropped after it.
  unfoldable pub consume_rx : {R : Type 0} → AxiNet D → ℕ → (ℕ → ℕ → R) → Outcome (R × AxiNet D)
  consume_rx net handler f = do
    buffer ← get_buffer net.pool_start handler
    pool ← drop_handler net.pool handler
    ret (f buffer buffer_len, record net { pool = pool })

  -- `consume` of a token to transmit `len` bytes
  unfoldable pub consume_tx : {R : Type 0} → AxiNet D → ℕ → (ℕ → ℕ → R) → Outcome (R × AxiNet D)
  consume_tx net len f = do
    (handler, pool) ← new_handler net.pool
    buffer ← get_buffer net.pool_start handler
    paddr ← get_heap_paddr net.heap_p_v_offset buffer
    drivers ← unwrap_ok (eth.tx_submit_and_wait net.drivers paddr len)
    pool' ← drop_handler pool handler
    ret (f buffer len, record net { drivers = drivers; pool = pool' })
