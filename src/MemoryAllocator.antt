-- ===== src/MemoryAllocator.antt =====
-- crates/example/src/memory_allocator.rs: `AsyncMemoryAllocator` and `SyncMemoryAllocator`, which
-- keep the same state in the same way. They differ in the call of the kernel that maps or unmaps
-- the page, whose result both ignore; that call's arguments are returned here.
pub mod Laws
pub mod Unmap
use rust_root_task_demo.Common.{
  write, read, ret, Outcome, replicate, leb, ltb, [], List, some, none, Option, ◌>>◌, ◌>>=◌,
  if◌then◌else◌, ◌==◌, ◌&&◌, ◌∷◌, ◌^◌, ◌%◌, ◌+◌, ℕ,
}

abbrev pub start_addr : ℕ
start_addr = 2 ^ 25

abbrev pub end_addr : ℕ
end_addr = 2 ^ 25 + 2 ^ 16

abbrev pub page_size : ℕ
page_size = 4096

-- `(END_ADDR - START_ADDR) / PAGE_SIZE`
abbrev pub max_page_num : ℕ
max_page_num = 16

pub record MemoryAllocator : Type 0 where
  pub current : ℕ
  pub recycled : List ℕ  -- a `Vec`, the last item first
  pub frames : List ℕ
  pub mapped_vaddrs : List ℕ

unfoldable pub new : MemoryAllocator
new = record {
  current = 0;
  recycled = [];
  frames = replicate max_page_num 0;
  mapped_vaddrs = replicate max_page_num 0;
}

fresh_slot : MemoryAllocator → Option ℕ × MemoryAllocator
fresh_slot a =
    if ltb a.current max_page_num
    then (some a.current, record a { current = a.current + 1 })
    else (none, a)

slot_from : MemoryAllocator → List ℕ → Option ℕ × MemoryAllocator
unfolding fresh_slot
slot_from a [] = fresh_slot a
slot_from a (slot ∷ rest) = (some slot, record a { recycled = rest })

pub alloc_slot : MemoryAllocator → Option ℕ × MemoryAllocator
unfolding slot_from
alloc_slot a = slot_from a a.recycled

map_slot : MemoryAllocator → ℕ → Option ℕ → Outcome (Option (ℕ × ℕ) × MemoryAllocator)
map_slot a vaddr none = ret (none, a)
map_slot a vaddr (some slot) = do
  frame ← read a.frames slot
  mapped ← write a.mapped_vaddrs slot vaddr
  ret (some (frame, vaddr), record a { mapped_vaddrs = mapped })

-- `map_vaddr`: the frame and the address that it asks the kernel to map, if any
pub map_vaddr : MemoryAllocator → ℕ → Outcome (Option (ℕ × ℕ) × MemoryAllocator)
unfolding map_slot
map_vaddr a vaddr =
    if leb start_addr vaddr && ltb vaddr end_addr && (vaddr % 4096 == 0)
    then map_slot (alloc_slot a).1 vaddr (alloc_slot a).0
    else ret (none, a)

-- The first slot with an address, from slot `i` on
pub find_slot : ℕ → ℕ → List ℕ → Option ℕ
find_slot vaddr i [] = none
find_slot vaddr i (va ∷ rest) =
    let later = find_slot vaddr (i + 1) rest in if vaddr == va then some i else later

unmap_slot : MemoryAllocator → Option ℕ → Outcome (Option ℕ × MemoryAllocator)
unmap_slot a none = ret (none, a)
unmap_slot a (some index) = do
  frame ← read a.frames index
  mapped ← write a.mapped_vaddrs index 0
  ret (some frame, record a { mapped_vaddrs = mapped; recycled = index ∷ a.recycled })

-- `unmap_vaddr`: the frame that it asks the kernel to unmap, if any
pub unmap_vaddr : MemoryAllocator → ℕ → Outcome (Option ℕ × MemoryAllocator)
unfolding unmap_slot
unmap_vaddr a vaddr = unmap_slot a (find_slot vaddr 0 a.mapped_vaddrs)

-- The operations of `SyncMemoryAllocator`
abbrev pub sync_new : MemoryAllocator
sync_new = new

abbrev pub sync_alloc_slot : MemoryAllocator → Option ℕ × MemoryAllocator
sync_alloc_slot = alloc_slot

abbrev pub sync_map_vaddr : MemoryAllocator → ℕ → Outcome (Option (ℕ × ℕ) × MemoryAllocator)
sync_map_vaddr = map_vaddr

abbrev pub sync_unmap_vaddr : MemoryAllocator → ℕ → Outcome (Option ℕ × MemoryAllocator)
sync_unmap_vaddr = unmap_vaddr
