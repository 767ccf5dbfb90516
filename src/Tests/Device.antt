-- ===== src/Tests/Device.antt =====
-- The network devices of crates/example/src/device/net on concrete values.
use rust_root_task_demo.Common.{
  replicate, refl, ret, ok, arith, [], List, false, true, inl, ◌∷◌, ◌⊎◌, ◌≢◌, ◌≡◌, ◌≤◌, ◌*◌, ◌+◌, ℕ,
}
use rust_root_task_demo.Common.Words.{test_bit, set_bit}
use rust_root_task_demo.Utils.IndexAllocator
use rust_root_task_demo.Utils.IndexAllocator.{IndexAllocator}
use rust_root_task_demo.ObjectAllocator
use rust_root_task_demo.ObjectAllocator.{ObjectAllocator}
use rust_root_task_demo.Device.AxiNet
use rust_root_task_demo.Device.AxiNet.{pool_size, mtu, get_buffer, new_pool}
use rust_root_task_demo.Device.AxiNet.Pool.{Reachable, starts, takes, occurs, buffers_apart}
use rust_root_task_demo.Device.Mmio
use rust_root_task_demo.Device.Mmio.{Kernel, UntypedDesc, Filled}
use rust_root_task_demo.Device.Mmio.Slots.{HandsOut, init_mmio-HandsOut}

abbrev one_taken : IndexAllocator
one_taken = record { bitmap = 1 ∷ 0 ∷ 0 ∷ 0 ∷ 0 ∷ 0 ∷ 0 ∷ 0 ∷ [] }

abbrev two_taken : IndexAllocator
two_taken = record { bitmap = 3 ∷ 0 ∷ 0 ∷ 0 ∷ 0 ∷ 0 ∷ 0 ∷ 0 ∷ [] }

first : AxiNet.new_handler new_pool ≡ ret (0, one_taken)
unfolding AxiNet.new_handler AxiNet.new_pool IndexAllocator.new IndexAllocator.allocate replicate
    IndexAllocator.find_free test_bit set_bit
first = refl

second : AxiNet.new_handler one_taken ≡ ret (1, two_taken)
unfolding AxiNet.new_handler IndexAllocator.allocate IndexAllocator.find_free test_bit set_bit
second = refl

-- Two handlers are alive.
two_alive : Reachable two_taken (1 ∷ 0 ∷ [])
two_alive = takes one_taken two_taken 1 (0 ∷ []) (takes new_pool one_taken 0 [] starts first) second

buffers_apart_example :
    (occurs 1 (1 ∷ 0 ∷ []) ≡ 1)
    × ((p : ℕ) × (get_buffer 8192 1 ≡ ret p)
        × (8192 ≤ p)
        × (p + mtu ≤ 8192 + pool_size * mtu)
        × ((q : ℕ) → get_buffer 8192 0 ≡ ret q → ◌≢◌ {A = ℕ} 1 0 → (p + mtu ≤ q) ⊎ (q + mtu ≤ p)))
buffers_apart_example =
    buffers_apart two_taken (1 ∷ 0 ∷ []) 1 0 8192 two_alive (unfold occurs in omega arith)
      (unfold occurs in omega arith)

-- A device memory of 2 ^ 29 bytes, in two parts, of which the first frame holds the registers.
abbrev kernel : Kernel
kernel = record {
  mega_bits = 21;
  size_of = λ o. 12;
  retype = λ from o slot n. ok tt;
  frame_get_address = λ slot. ok 0x60000000;
  map_table = λ slot vaddr. ok tt;
  map_frame = λ slot vaddr. ok tt;
}

abbrev memories : List UntypedDesc
memories = record { is_device = true; paddr = 0x60000000; size_bits = 29 } ∷ []

abbrev objects : ObjectAllocator
objects = record {
  untyped_list = record { is_device = false; size_bits = 12; used = false } ∷ [];
  untyped_start = 40;
  empty_start = 100;
  empty_end = 200;
}

abbrev objects_after : ObjectAllocator
objects_after = record {
  untyped_list = record { is_device = false; size_bits = 12; used = true } ∷ [];
  untyped_start = 40;
  empty_start = 105;
  empty_end = 200;
}

abbrev filled : Filled
filled = (100, 2) ∷ (102, 1) ∷ (104, 1) ∷ []

maps : Mmio.axi_init_mmio kernel 40 memories objects ≡ ret (filled, objects_after)
unfolding Mmio.axi_init_mmio Mmio.find_untyped Mmio.covers Mmio.net_untyped Mmio.split_untyped
    Mmio.map_frames Mmio.map_registers ObjectAllocator.get_empty_slot ObjectAllocator.skip_slots
    ObjectAllocator.alloc_page_table ObjectAllocator.alloc_object ObjectAllocator.slot_result
    ObjectAllocator.get_the_first_untyped_slot ObjectAllocator.position ObjectAllocator.is_suitable
maps = refl

init_mmio-HandsOut_example : HandsOut objects 100 filled objects_after
init_mmio-HandsOut_example =
    init_mmio-HandsOut kernel 40 memories objects objects_after filled (inl maps)
