-- ===== src/Tests/Services.antt =====
-- The allocators and the network messages of crates/example/src on concrete values.
use rust_root_task_demo.Common.{
  ◌+◌, ret, ok, Result, arith, [], false, true, refl, ◌∷◌, ◌≡◌, ◌^◌, ◌%◌, ℕ,
}
use rust_root_task_demo.MemoryAllocator
use rust_root_task_demo.MemoryAllocator.{MemoryAllocator}
use rust_root_task_demo.MemoryAllocator.Laws.{
  Maps, new-IsValid, map_vaddr-Maps, mapped_at, fresh-IsValid,
}
use rust_root_task_demo.MemoryAllocator.Unmap.{Unmaps, unmap_vaddr-Unmaps}
use rust_root_task_demo.ObjectAllocator
use rust_root_task_demo.ObjectAllocator.{ObjectAllocator, ObjectBlueprint, endpoint, untyped}
use rust_root_task_demo.ObjectAllocator.Untyped.{
  TakesUntyped, get_the_first_untyped_slot-TakesUntyped,
}
use rust_root_task_demo.ObjectAllocator.Slots.{AllocatesMany, alloc_many-AllocatesMany}
use rust_root_task_demo.Net.Message
use rust_root_task_demo.Net.Message.{decode-request, decode-others}

map_vaddr-Maps_example :
    Maps MemoryAllocator.new 33554432 (MemoryAllocator.map_vaddr MemoryAllocator.new 33554432)
map_vaddr-Maps_example =
    map_vaddr-Maps MemoryAllocator.new 33554432 new-IsValid (omega arith, omega arith, refl)

-- Slot 0 maps the first page.
abbrev one_page : MemoryAllocator
one_page =
    mapped_at MemoryAllocator.new new-IsValid 33554432 (MemoryAllocator.new.current + 1)
      MemoryAllocator.new.current []

unmap_vaddr-Unmaps_example :
    Unmaps one_page 33554432 (MemoryAllocator.unmap_vaddr one_page 33554432)
unmap_vaddr-Unmaps_example =
    unmap_vaddr-Unmaps one_page 33554432
      (fresh-IsValid MemoryAllocator.new new-IsValid 33554432 (λ e. omega (arith, e))
        (unfold MemoryAllocator.new in refl) (unfold MemoryAllocator.new in omega arith))
      (λ e. omega (arith, e))

abbrev objects : ObjectAllocator
objects = record {
  untyped_list =
      record { is_device = true; size_bits = 20; used = false }
      ∷ record { is_device = false; size_bits = 20; used = false }
      ∷ [];
  untyped_start = 100;
  empty_start = 200;
  empty_end = 300;
}

get_the_first_untyped_slot-TakesUntyped_example :
    TakesUntyped objects 12 (ObjectAllocator.get_the_first_untyped_slot objects 12)
get_the_first_untyped_slot-TakesUntyped_example = get_the_first_untyped_slot-TakesUntyped objects 12

abbrev size_of : ObjectBlueprint → ℕ
size_of (untyped bits) = bits
size_of _ = 12

abbrev retype : ℕ → ObjectBlueprint → ℕ → ℕ → Result (Unit {0})
retype from blueprint slot cnt = ok tt

alloc_many-AllocatesMany_example :
    AllocatesMany size_of retype objects endpoint 6 4
      (ObjectAllocator.alloc_many size_of retype endpoint 4 2 objects)
alloc_many-AllocatesMany_example =
    alloc_many-AllocatesMany size_of retype endpoint 4 2 objects (omega arith) (omega arith)

decode-request_example :
    ((Message.get_type (Message.send 3 1 4096 100) ≡ ret Message.send_type)
      × (Message.get_cid (Message.send 3 1 4096 100) ≡ 3)
      × (Message.get_socket_handler (Message.send 3 1 4096 100) ≡ ret (1 % 2 ^ 16))
      × (Message.get_len (Message.send 3 1 4096 100) ≡ ret (100 % 2 ^ 16))
      × (Message.get_buffer (Message.send 3 1 4096 100) ≡ ret 4096))
    × ((Message.get_type (Message.recv 3 1 4096 100) ≡ ret Message.recv_type)
        × (Message.get_cid (Message.recv 3 1 4096 100) ≡ 3)
        × (Message.get_socket_handler (Message.recv 3 1 4096 100) ≡ ret (1 % 2 ^ 16))
        × (Message.get_len (Message.recv 3 1 4096 100) ≡ ret (100 % 2 ^ 16))
        × (Message.get_buffer (Message.recv 3 1 4096 100) ≡ ret 4096))
decode-request_example = decode-request 3 1 4096 100 (omega arith)

decode-others_example :
    ((Message.get_type (Message.listen 3 80) ≡ ret Message.listen_type)
      × (Message.get_cid (Message.listen 3 80) ≡ 3)
      × (Message.get_port (Message.listen 3 80) ≡ ret (80 % 2 ^ 16)))
    × ((Message.get_type (Message.listen_reply 3 80) ≡ ret Message.listen_reply_type)
        × (Message.get_cid (Message.listen_reply 3 80) ≡ 3)
        × (Message.get_socket_handler (Message.listen_reply 3 80) ≡ ret (80 % 2 ^ 16)))
    × ((Message.get_type (Message.send_reply 3 80) ≡ ret Message.send_reply_type)
        × (Message.get_cid (Message.send_reply 3 80) ≡ 3)
        × (Message.get_len (Message.send_reply 3 80) ≡ ret (80 % 2 ^ 16)))
    × ((Message.get_type (Message.recv_reply 3 80) ≡ ret Message.recv_reply_type)
        × (Message.get_cid (Message.recv_reply 3 80) ≡ 3)
        × (Message.get_len (Message.recv_reply 3 80) ≡ ret (80 % 2 ^ 16)))
decode-others_example = decode-others 3 80
