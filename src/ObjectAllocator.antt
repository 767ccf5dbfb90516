-- ===== src/ObjectAllocator.antt =====
-- crates/example/src/object_allocator.rs: kernel objects are made from untyped memory, each in a
-- capability slot of its own. The sizes of objects and the kernel's retype call are parameters.
pub mod Untyped
pub mod Slots
pub mod Takes
pub mod Threads
use rust_root_task_demo.Common.{
  write, read, assert, unwrap_ok, unwrap, panic, ret, Outcome, err, ok, Result, leb, ltb, map, [],
  List, some, none, Option, not, false, true, Bool, suc, zero, ◌>>◌, ◌>>=◌, if◌then◌else◌, ◌&&◌,
  ◌∷◌, ◌^◌, ◌-◌, ◌+◌, ℕ,
}

-- `sel4::ObjectBlueprint`, as far as it is used
pub data ObjectBlueprint : Type 0 where
  untyped : ℕ → ObjectBlueprint
  endpoint notification tcb page_4k page_table mega_page : ObjectBlueprint

-- An `UntypedDesc` by what is read of it, and whether it has been used
pub record UsedUntypedDesc : Type 0 where
  pub is_device : Bool
  pub size_bits : ℕ
  pub used : Bool

pub record ObjectAllocator : Type 0 where
  pub untyped_list : List UsedUntypedDesc
  pub untyped_start : ℕ
  pub empty_start : ℕ  -- `empty: Range<InitCSpaceSlot>`
  pub empty_end : ℕ

-- What is read of the boot info, the untyped memory as pairs of `is_device` and `size_bits`
pub record BootInfo : Type 0 where
  pub untyped_list : List (Bool × ℕ)
  pub untyped_start : ℕ
  pub empty_start : ℕ
  pub empty_end : ℕ

unused : Bool × ℕ → UsedUntypedDesc
unused (device, bits) = record { is_device = device; size_bits = bits; used = false }

pub new : BootInfo → ObjectAllocator
unfolding unused
new bootinfo = record {
  untyped_list = map unused bootinfo.untyped_list;
  untyped_start = bootinfo.untyped_start;
  empty_start = bootinfo.empty_start;
  empty_end = bootinfo.empty_end;
}

-- Every field is overwritten.
pub init : ObjectAllocator → BootInfo → ObjectAllocator
init a bootinfo = new bootinfo

pub default : ObjectAllocator
default = record { untyped_list = []; untyped_start = 0; empty_start = 0; empty_end = 0 }

-- The closure of `position`
unfoldable pub is_suitable : ℕ → UsedUntypedDesc → Bool
is_suitable bits d = not d.is_device && leb bits d.size_bits && not d.used

-- `position`, counted from `i` on
unfoldable pub position : ℕ → ℕ → List UsedUntypedDesc → Option ℕ
position bits i [] = none
position bits i (d ∷ rest) =
    let later = position bits (i + 1) rest in if is_suitable bits d then some i else later

-- `get_the_first_untyped_slot`, by the size of the blueprint: the slot of the untyped memory
unfoldable pub get_the_first_untyped_slot : ObjectAllocator → ℕ → Outcome (ℕ × ObjectAllocator)
get_the_first_untyped_slot a bits = do
  idx ← unwrap (position bits 0 a.untyped_list)
  d ← read a.untyped_list idx
  descs ← write a.untyped_list idx (record d { used = true })
  ret (a.untyped_start + idx, record a { untyped_list = descs })

-- `self.empty.next().unwrap()`
unfoldable pub get_empty_slot : ObjectAllocator → Outcome (ℕ × ObjectAllocator)
get_empty_slot a =
    if ltb a.empty_start a.empty_end
    then ret (a.empty_start, record a { empty_start = a.empty_start + 1 })
    else panic

-- The loop `for _ in 1..cnt`, with `n` slots to go
unfoldable pub skip_slots : ℕ → ObjectAllocator → Outcome ObjectAllocator
skip_slots zero a = ret a
skip_slots (suc n) a = do (_, a') ← get_empty_slot a; skip_slots n a'

-- The loop `for i in 0..cnt`, with `n` slots to go
pub slots_from : ℕ → ℕ → List ℕ
slots_from zero slot = []
slots_from (suc n) slot = slot ∷ slots_from n (slot + 1)

unfoldable pub slot_result : ℕ → Result (Unit {0}) → Result ℕ
slot_result slot err = err
slot_result slot (ok _) = ok slot

-- `size_of` is `physical_size_bits`; `retype untyped blueprint slot cnt` is `untyped_retype` into
-- the thread's own cnode.
module _ (size_of : ObjectBlueprint → ℕ)
    (retype : ℕ → ObjectBlueprint → ℕ → ℕ → Result (Unit {0})) where
  -- What the five allocations of one object do, with their blueprint
  unfoldable pub alloc_object :
      ObjectBlueprint → ObjectAllocator → Outcome (Result ℕ × ObjectAllocator)
  unfolding slot_result
  alloc_object blueprint a = do
    (from, a₁) ← get_the_first_untyped_slot a (size_of blueprint)
    (slot, a₂) ← get_empty_slot a₁
    ret (slot_result slot (retype from blueprint slot 1), a₂)

  -- What the three allocations of many objects do, with the blueprint of one object and its size
  pub alloc_many : ObjectBlueprint → ℕ → ℕ → ObjectAllocator → Outcome (List ℕ × ObjectAllocator)
  alloc_many blueprint object_bits cnt_bits a = do
    assert (ltb cnt_bits 64)
    let cnt = 2 ^ cnt_bits
    (from, a₁) ← get_the_first_untyped_slot a (size_of (untyped (object_bits + cnt_bits)))
    (slot, a₂) ← get_empty_slot a₁
    a₃ ← skip_slots (cnt - 1) a₂
    unwrap_ok (retype from blueprint slot cnt)
    ret (slots_from cnt slot, a₃)

  pub alloc_ntfn : ObjectAllocator → Outcome (Result ℕ × ObjectAllocator)
  alloc_ntfn = alloc_object notification

  pub alloc_ep : ObjectAllocator → Outcome (Result ℕ × ObjectAllocator)
  alloc_ep = alloc_object endpoint

  pub alloc_frame : ObjectAllocator → Outcome (Result ℕ × ObjectAllocator)
  alloc_frame = alloc_object page_4k

  pub alloc_tcb : ObjectAllocator → Outcome (Result ℕ × ObjectAllocator)
  alloc_tcb = alloc_object tcb

  unfoldable pub alloc_page_table : ObjectAllocator → Outcome (Result ℕ × ObjectAllocator)
  alloc_page_table = alloc_object page_table

  -- The argument before the count is `seL4_EndpointBits`, `seL4_PageBits` or `seL4_TCBBits`.
  pub alloc_many_ep : ℕ → ℕ → ObjectAllocator → Outcome (List ℕ × ObjectAllocator)
  alloc_many_ep = alloc_many endpoint

  pub alloc_many_frame : ℕ → ℕ → ObjectAllocator → Outcome (List ℕ × ObjectAllocator)
  alloc_many_frame = alloc_many page_4k

  pub alloc_many_tcb : ℕ → ℕ → ObjectAllocator → Outcome (List ℕ × ObjectAllocator)
  alloc_many_tcb = alloc_many tcb
