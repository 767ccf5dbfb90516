-- ===== src/Device/Mmio.antt =====
-- `init_mmio` of crates/example/src/device/net/axi_net/mod.rs and of virtio_net/mod.rs: the untyped
-- memory that holds the registers of the device is split, and the frame with the registers is
-- mapped. The kernel's calls and sizes are parameters. Overflow checks are on, in 64 bits.
pub mod Slots
use rust_root_task_demo.Common.{
  assert, unwrap_ok, ret, Outcome, Result, leb, ltb, [], List, some, none, Option, false, true,
  Bool, suc, zero, ◌>>◌, ◌>>=◌, if◌then◌else◌, ◌∷◌, ◌^◌, ◌/◌, ◌+◌, ℕ,
}
use rust_root_task_demo.ImageUtils.{add_checked, sub_checked}
use rust_root_task_demo.ObjectAllocator.{
  ObjectBlueprint, untyped, mega_page, ObjectAllocator, get_empty_slot, skip_slots,
  alloc_page_table,
}

-- `ETH_ADDRESS`, `DMA_ADDRESS` and `NET_DEVICE_ADDR`
abbrev pub eth_address : ℕ
eth_address = 0x60140000

abbrev pub dma_address : ℕ
dma_address = 0x60100000

abbrev pub net_device_addr : ℕ
net_device_addr = 0x10008000

-- An `UntypedDesc` by what is read of it
pub record UntypedDesc : Type 0 where
  pub is_device : Bool
  pub paddr : ℕ
  pub size_bits : ℕ

-- `paddr <= from && paddr + (1 << bits) > to`
unfoldable pub covers : ℕ → ℕ → ℕ → ℕ → Outcome Bool
covers paddr bits from to =
    let further = (do assert (ltb bits 64); end ← add_checked paddr (2 ^ bits); ret (ltb to end)) in
    if leb paddr from then further else ret false

-- The loop over the untyped memory, at index `i`: the index and the size of the one that is found
unfoldable pub find_untyped : ℕ → ℕ → ℕ → List UntypedDesc → Outcome (Option (ℕ × ℕ))
find_untyped from to i [] = ret none
find_untyped from to i (desc ∷ rest) =
    let later = find_untyped from to (i + 1) rest in
    let tested = (do
      hit ← covers desc.paddr desc.size_bits from to
      if hit then ret (some (i, desc.size_bits)) else later) in
    if desc.is_device then tested else later

-- The slot and the size, without one the slot 0 and the size 0
unfoldable pub net_untyped : ℕ → Option (ℕ × ℕ) → ℕ × ℕ
net_untyped untyped_start none = (0, 0)
net_untyped untyped_start (some (i, bits)) = (untyped_start + i, bits)

-- The kernel's calls, with `FrameSize::MEGA_BITS`. `map_table` and `map_frame` take the slot and the
-- address.
pub record Kernel : Type 0 where
  pub mega_bits : ℕ
  pub size_of : ObjectBlueprint → ℕ
  pub retype : ℕ → ObjectBlueprint → ℕ → ℕ → Result (Unit {0})
  pub frame_get_address : ℕ → Result ℕ
  pub map_table : ℕ → ℕ → Result (Unit {0})
  pub map_frame : ℕ → ℕ → Result (Unit {0})

-- The slots that an initialisation fills, as pairs of the first and their number, in order
abbrev pub Filled : Type 0
Filled = List (ℕ × ℕ)

module _ (kernel : Kernel) where
  -- The frame with the registers is mapped, for the first device with a page table for it.
  unfoldable pub map_registers : Bool → ℕ → ℕ → ObjectAllocator → Outcome (Filled × ObjectAllocator)
  map_registers with_table frame vaddr a =
      let table = (do
        (res, a') ← alloc_page_table kernel.size_of kernel.retype a
        l2_page_table ← unwrap_ok res
        unwrap_ok (kernel.map_table l2_page_table vaddr)
        unwrap_ok (kernel.map_frame frame vaddr)
        ret ((l2_page_table, 1) ∷ [], a')) in
      let no_table = (do unwrap_ok (kernel.map_frame frame vaddr); ret ([], a)) in
      if with_table then table else no_table

  -- The loop over the parts, with `n` to go, at the untyped memory and the slot of the next frame
  unfoldable pub map_frames :
      Bool → ℕ → ℕ → ℕ → ℕ → ℕ → ObjectAllocator → Outcome (Filled × ObjectAllocator)
  map_frames with_table from to zero part frame a = ret ([], a)
  map_frames with_table from to (suc n) part frame a = do
    unwrap_ok (kernel.retype part mega_page frame 1)
    (_, a₁) ← get_empty_slot a
    paddr ← unwrap_ok (kernel.frame_get_address frame)
    hit ← covers paddr kernel.mega_bits from to
    let mapped = map_registers with_table frame paddr a₁
    let others = map_frames with_table from to n (part + 1) (frame + 1) a₁
    (filled, a₂) ← if hit then mapped else others
    ret ((frame, 1) ∷ filled, a₂)

  -- From the untyped memory that has been found, of which `retype_num` parts of `part_bits` are made
  unfoldable pub split_untyped :
      Bool → ℕ → ℕ → ℕ → ℕ → ℕ → ℕ → ObjectAllocator → Outcome (Filled × ObjectAllocator)
  split_untyped with_table from to part_bits slot retype_num memory a = do
    unwrap_ok (kernel.retype memory (untyped part_bits) slot retype_num)
    more ← sub_checked retype_num 1
    a₁ ← skip_slots more a
    (frame_slot, a₂) ← get_empty_slot a₁
    (filled, a₃) ← map_frames with_table from to retype_num slot frame_slot a₂
    ret ((slot, retype_num) ∷ filled, a₃)

  -- `init_mmio` of axi_net/mod.rs
  unfoldable pub axi_init_mmio :
      ℕ → List UntypedDesc → ObjectAllocator → Outcome (Filled × ObjectAllocator)
  axi_init_mmio untyped_start untyped_list a = do
    found ← find_untyped dma_address eth_address 0 untyped_list
    let (memory, bits) = net_untyped untyped_start found
    (slot, a₁) ← get_empty_slot a
    frame_bits ← sub_checked bits kernel.mega_bits
    retype_bits ← sub_checked frame_bits 7
    assert (ltb retype_bits 64)
    split_untyped true dma_address eth_address (kernel.mega_bits + 7) slot (2 ^ retype_bits) memory
        a₁

  -- `init_mmio` of virtio_net/mod.rs
  unfoldable pub virtio_init_mmio :
      ℕ → List UntypedDesc → ObjectAllocator → Outcome (Filled × ObjectAllocator)
  virtio_init_mmio untyped_start untyped_list a = do
    found ← find_untyped net_device_addr net_device_addr 0 untyped_list
    let (memory, bits) = net_untyped untyped_start found
    (slot, a₁) ← get_empty_slot a
    retype_bits ← sub_checked bits kernel.mega_bits
    assert (ltb retype_bits 64)
    split_untyped false net_device_addr net_device_addr kernel.mega_bits slot (2 ^ retype_bits / 4)
        memory a₁
