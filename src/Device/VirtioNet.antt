-- ===== src/Device/VirtioNet.antt =====
-- crates/example/src/device/net/virtio_net/mod.rs: what the network stack calls of the device. The
-- driver is a parameter.
use rust_root_task_demo.Common.{
  unwrap_ok, panic, ret, Outcome, Result, replicate, List, some, none, Option, Bool, if◌then◌else◌,
  ◌>>=◌, ◌==◌, ℕ,
}
use rust_root_task_demo.ImageUtils.{Image, get_user_image_frame_paddr}

-- What a `receive` of the driver answers, for a type `B` of its buffers
pub data Received (B : Type 0) : Type 0 where
  buffer : B → Received B
  not_ready failed : Received B

-- What is called of `VirtIONet`, for a type `D` of its states
pub record Driver (D B : Type 0) : Type 0 where
  pub can_recv : D → Bool
  pub can_send : D → Bool
  pub receive : D → Received B × D
  pub send : D → List ℕ → Result D
  pub recycle_rx_buffer : D → B → Result D
  pub packet : B → List ℕ

module _ {D B : Type 0} (driver : Driver D B) where
  -- `NetDevice::transmit` and `NetDevice::receive`
  unfoldable pub transmit_data : D → List ℕ → Outcome D
  transmit_data device bytes = unwrap_ok (driver.send device bytes)

  received : Received B × D → Outcome (Option B × D)
  received (buffer buf, device) = ret (some buf, device)
  received (not_ready, device) = ret (none, device)
  received (failed, device) = panic

  unfoldable pub receive_data : D → Outcome (Option B × D)
  unfolding received
  receive_data device = received (driver.receive device)

  taken : Received B × D → Outcome (Option B × D)
  taken (buffer buf, device) = ret (some buf, device)
  taken (not_ready, device) = panic
  taken (failed, device) = panic

  -- `receive` of `Device`: the buffer of the token, if a frame has arrived
  unfoldable pub receive : D → Outcome (Option B × D)
  unfolding taken
  receive device =
      if driver.can_recv device then taken (driver.receive device) else ret (none, device)

  unfoldable pub transmit : D → Bool
  transmit device = driver.can_send device

  -- `consume` of a token with a buffer: it is given back after the stack's function has read it.
  unfoldable pub consume_rx : {R : Type 0} → D → B → (List ℕ → R) → Outcome (R × D)
  consume_rx device buf f = do
    device' ← unwrap_ok (driver.recycle_rx_buffer device buf)
    ret (f (driver.packet buf), device')

  -- `consume` of a token to transmit `len` bytes: the stack's function fills a frame of zeros.
  unfoldable pub consume_tx : {R : Type 0} → D → ℕ → (List ℕ → R × List ℕ) → Outcome (R × D)
  consume_tx device len f = do
    let (res, tx_frame) = f (replicate len 0)
    device' ← unwrap_ok (driver.send device tx_frame)
    ret (res, device')

-- `dma_alloc`: the physical address of the pages at `vptr`, which the heap has given
unfoldable pub dma_alloc : Image → ℕ → Outcome (ℕ × ℕ)
dma_alloc image vptr =
    if vptr == 0
    then panic
    else (get_user_image_frame_paddr image vptr >>= λ paddr. ret (paddr, vptr))

-- `share`
unfoldable pub share : Image → ℕ → Outcome ℕ
share image vaddr = get_user_image_frame_paddr image vaddr
