-- ===== src/Device/Mmio/Slots.antt =====
-- The capability slots that `init_mmio` of the two network devices fills.
use native.Mathlib.Decide.{dec_lt}
use rust_root_task_demo.Common.{
  assert, ltb, List, inr, inl, ◌⊎◌, ◌^◌, ◌/◌, unwrap_ok, err, leb_of_lt, leb_of_le, subst, sym,
  if◌then◌else◌, ◌-◌, Outcome, ok, Result, false, true, Bool, returned, panic, ret, arith, [], refl,
  suc, zero, ◌∙◌, ◌∷◌, ◌≡◌, ◌<◌, ◌≤◌, ◌+◌, ℕ,
}
use rust_root_task_demo.ImageUtils.{sub_checked}
use rust_root_task_demo.ObjectAllocator.{
  untyped, mega_page, ObjectAllocator, get_empty_slot, skip_slots, alloc_page_table,
}
use rust_root_task_demo.Device.Mmio.{
  UntypedDesc, Kernel, Filled, covers, find_untyped, net_untyped, map_registers, map_frames,
  split_untyped, axi_init_mmio, virtio_init_mmio, dma_address, eth_address, net_device_addr,
}
use rust_root_task_demo.ObjectAllocator.Takes.{
  TakesSlot, get_empty_slot-TakesSlot, skip_slots-Skips, at_start, alloc_page_table-TakesSlot,
}

-- The slots filled, each range past the one before, from `lo` on and below `hi`.
pub data Fills : ℕ → Filled → ℕ → Type 0 where
  done : (lo hi : ℕ) → lo ≤ hi → Fills lo [] hi
  fills :
      (lo slot n hi : ℕ) (rest : Filled)
      → lo ≤ slot
      → Fills (slot + n) rest hi
      → Fills lo ((slot, n) ∷ rest) hi

-- An allocator that has handed out slots up to another one.
pub record HandsOut (a : ObjectAllocator) (lo : ℕ) (filled : Filled) (a' : ObjectAllocator)
    : Type 0 where
  pub in_order : Fills lo filled a'.empty_start
  pub within : a'.empty_start ≤ a.empty_end
  pub same_end : a'.empty_end ≡ a.empty_end

-- A result that hands out the slots that it fills.
abbrev ResultHandsOut : ObjectAllocator → ℕ → Outcome (Filled × ObjectAllocator) → Type 0
ResultHandsOut a lo (ret (filled, a')) = HandsOut a lo filled a'
ResultHandsOut a lo panic = Unit

none_filled :
    (a : ObjectAllocator) (lo : ℕ)
    → lo ≤ a.empty_start
    → a.empty_start ≤ a.empty_end
    → HandsOut a lo [] a
none_filled a lo low within = record {
  in_order = done lo a.empty_start low;
  within = within;
  same_end = refl;
}

-- One more range filled, before the others.
fills_first :
    (a₀ a a' : ObjectAllocator) (lo slot n : ℕ) (rest : Filled)
    → lo ≤ slot
    → a.empty_end ≡ a₀.empty_end
    → HandsOut a (slot + n) rest a'
    → HandsOut a₀ lo ((slot, n) ∷ rest) a'
fills_first a₀ a a' lo slot n rest low same h = record {
  in_order = fills lo slot n a'.empty_start rest low h.in_order;
  within = omega (arith, same, h.within);
  same_end = h.same_end ∙ same;
}

unwrapped {ℓ} : {A : Type ℓ} (r : Result A) (a : A) → unwrap_ok r ≡ ret a → r ≡ ok a
unwrapped (ok b) a eq = cc
unwrapped err a eq = cc

module _ (kernel : Kernel) where
  map_registers-HandsOut :
      (with_table : Bool) (frame vaddr lo : ℕ) (a a' : ObjectAllocator) (filled : Filled)
      → lo ≤ a.empty_start
      → a.empty_start ≤ a.empty_end
      → map_registers kernel with_table frame vaddr a ≡ ret (filled, a')
      → HandsOut a lo filled a'
  unfolding map_registers
  map_registers-HandsOut true frame vaddr lo a a' filled low within eq =
      let ((res, a₁), allocates, r₁) =
        returned (alloc_page_table kernel.size_of kernel.retype a) _ (filled, a') eq in
      let (table, is_ok, r₂) = returned (unwrap_ok res) _ (filled, a') r₁ in
      let (_, _, r₃) = returned (unwrap_ok (kernel.map_table table vaddr)) _ (filled, a') r₂ in
      let (_, _, r₄) = returned (unwrap_ok (kernel.map_frame frame vaddr)) _ (filled, a') r₃ in
      let t =
        alloc_page_table-TakesSlot kernel.size_of kernel.retype a a₁ res table allocates
          (unwrapped res table is_ok) in
      subst (ResultHandsOut a lo) r₄ (
        fills_first a a₁ a₁ lo table 1 [] (omega (arith, low, t.at)) t.same_end (
          none_filled a₁ (table + 1) (omega (arith, t.at, t.next))
            (omega (arith, t.next, t.some_left, t.same_end))))
  map_registers-HandsOut false frame vaddr lo a a' filled low within eq =
      let (_, _, r₁) = returned (unwrap_ok (kernel.map_frame frame vaddr)) _ (filled, a') eq in
      subst (ResultHandsOut a lo) r₁ (none_filled a lo low within)

  map_frames-HandsOut :
      (with_table : Bool) (from to n part frame : ℕ) (a a' : ObjectAllocator) (filled : Filled)
      → frame < a.empty_start
      → a.empty_start ≤ a.empty_end
      → map_frames kernel with_table from to n part frame a ≡ ret (filled, a')
      → HandsOut a frame filled a'
  unfolding map_frames
  map_frames-HandsOut with_table from to zero part frame a a' filled low within eq =
      subst (ResultHandsOut a frame) eq (none_filled a frame (omega (arith, low)) within)
  map_frames-HandsOut with_table from to (suc n) part frame a a' filled low within eq =
      let (_, _, r₁) =
        returned (unwrap_ok (kernel.retype part mega_page frame 1)) _ (filled, a') eq in
      let ((slot, a₁), gets, r₂) = returned (get_empty_slot a) _ (filled, a') r₁ in
      let (paddr, _, r₃) =
        returned (unwrap_ok (kernel.frame_get_address frame)) _ (filled, a') r₂ in
      let (hit, _, r₄) = returned (covers paddr kernel.mega_bits from to) _ (filled, a') r₃ in
      let t = get_empty_slot-TakesSlot a a₁ slot gets in
      let low₁ : frame + 1 < a₁.empty_start = omega (arith, low, t.next) in
      let within₁ : a₁.empty_start ≤ a₁.empty_end =
        omega (arith, t.next, t.some_left, t.same_end) in
      let ((rest, a₂), goes, r₅) =
        returned
          (if hit
            then map_registers kernel with_table frame paddr a₁
            else map_frames kernel with_table from to n (part + 1) (frame + 1) a₁)
          _ (filled, a') r₄ in
      subst (ResultHandsOut a frame) r₅ (
        fills_first a a₁ a₂ frame frame 1 rest (omega arith) t.same_end (
          either hit paddr a₁ a₂ rest goes
            (map_registers-HandsOut with_table frame paddr (frame + 1) a₁ a₂ rest
              (omega (arith, low₁)) within₁)
            (map_frames-HandsOut with_table from to n (part + 1) (frame + 1) a₁ a₂ rest low₁
              within₁)))
    where
      either :
          (hit : Bool) (paddr : ℕ) (a₁ a₂ : ObjectAllocator) (rest : Filled)
          → (if hit
              then map_registers kernel with_table frame paddr a₁
              else map_frames kernel with_table from to n (part + 1) (frame + 1) a₁)
            ≡ ret (rest, a₂)
          → (map_registers kernel with_table frame paddr a₁ ≡ ret (rest, a₂)
              → HandsOut a₁ (frame + 1) rest a₂)
          → (map_frames kernel with_table from to n (part + 1) (frame + 1) a₁ ≡ ret (rest, a₂)
              → HandsOut a₁ (frame + 1) rest a₂)
          → HandsOut a₁ (frame + 1) rest a₂
      either true paddr a₁ a₂ rest e at_hit at_miss = at_hit e
      either false paddr a₁ a₂ rest e at_hit at_miss = at_miss e

  split_untyped-HandsOut :
      (with_table : Bool) (from to part_bits n memory : ℕ) (a₀ a a' : ObjectAllocator)
      (filled : Filled)
      → TakesSlot a₀ a₀.empty_start a
      → split_untyped kernel with_table from to part_bits a₀.empty_start n memory a
        ≡ ret (filled, a')
      → HandsOut a₀ a₀.empty_start filled a'
  unfolding split_untyped
  split_untyped-HandsOut with_table from to part_bits n memory a₀ a a' filled t eq =
      let (_, _, r₁) =
        returned (unwrap_ok (kernel.retype memory (untyped part_bits) a₀.empty_start n)) _
          (filled, a') eq in
      let (more, less, r₂) = returned (sub_checked n 1) _ (filled, a') r₁ in
      let (a₁, skips, r₃) = returned (skip_slots more a) _ (filled, a') r₂ in
      let ((frame, a₂), gets, r₄) = returned (get_empty_slot a₁) _ (filled, a') r₃ in
      let ((rest, a₃), goes, r₅) =
        returned (map_frames kernel with_table from to n a₀.empty_start frame a₂) _ (filled, a')
          r₄ in
      let s = skip_slots-Skips more a a₁ skips in
      let u = get_empty_slot-TakesSlot a₁ a₂ frame gets in
      let some_part : more + 1 ≡ n = one_less n more less in
      let h =
        map_frames-HandsOut with_table from to n a₀.empty_start frame a₂ a₃ rest
          (omega (arith, u.at, u.next)) (omega (arith, u.next, u.some_left, u.same_end)) goes in
      let reaches : a₀.empty_start + n ≡ frame = omega (arith, t.next, s.next, u.at, some_part) in
      subst (ResultHandsOut a₀ a₀.empty_start) r₅ (
        fills_first a₀ a₂ a₃ a₀.empty_start a₀.empty_start n rest (omega arith)
          (u.same_end ∙ s.same_end ∙ t.same_end)
          (subst (λ (k : ℕ). HandsOut a₂ k rest a₃) (sym reaches) h))
    where
      one_less : (n more : ℕ) → sub_checked n 1 ≡ ret more → more + 1 ≡ n
      one_less n more e = elim (dec_lt 0 n) [
        | yes some_part ↦
            let returns : sub_checked n 1 ≡ ret (n - 1) =
              rw (leb_of_le 1 n (omega (arith, some_part))) refl in
            let same : n - 1 ≡ more = cc in omega (arith, same, some_part)
        | no none_there ↦
            let fails : sub_checked n 1 ≡ panic =
              rw (leb_of_lt 1 n (omega (arith, none_there))) refl in
            absurd (cc)
      ]

  -- If `init_mmio` of one of the two devices returns, every slot that it has filled was free before,
  -- no slot is filled twice, and the object allocator has handed out all of them.
  pub init_mmio-HandsOut :
      (untyped_start : ℕ) (untyped_list : List UntypedDesc) (a a' : ObjectAllocator)
      (filled : Filled)
      → (axi_init_mmio kernel untyped_start untyped_list a ≡ ret (filled, a'))
        ⊎ (virtio_init_mmio kernel untyped_start untyped_list a ≡ ret (filled, a'))
      → HandsOut a a.empty_start filled a'
  unfolding axi_init_mmio virtio_init_mmio
  init_mmio-HandsOut untyped_start untyped_list a a' filled (inl eq) =
      let (found, _, r₁) =
        returned (find_untyped dma_address eth_address 0 untyped_list) _ (filled, a') eq in
      let ((slot, a₁), gets, r₂) = returned (get_empty_slot a) _ (filled, a') r₁ in
      let (frame_bits, _, r₃) =
        returned (sub_checked (net_untyped untyped_start found).1 kernel.mega_bits) _ (filled, a')
          r₂ in
      let (retype_bits, _, r₄) = returned (sub_checked frame_bits 7) _ (filled, a') r₃ in
      let (_, _, r₅) = returned (assert (ltb retype_bits 64)) _ (filled, a') r₄ in
      let t = get_empty_slot-TakesSlot a a₁ slot gets in
      split_untyped-HandsOut true dma_address eth_address (kernel.mega_bits + 7) (2 ^ retype_bits)
        (net_untyped untyped_start found).0 a a₁ a' filled (at_start a a₁ slot t)
        (subst
          (λ (i : ℕ).
            split_untyped kernel true dma_address eth_address (kernel.mega_bits + 7) i
              (2 ^ retype_bits) (net_untyped untyped_start found).0 a₁
            ≡ ret (filled, a'))
          t.at r₅)
  init_mmio-HandsOut untyped_start untyped_list a a' filled (inr eq) =
      let (found, _, r₁) =
        returned (find_untyped net_device_addr net_device_addr 0 untyped_list) _ (filled, a') eq in
      let ((slot, a₁), gets, r₂) = returned (get_empty_slot a) _ (filled, a') r₁ in
      let (retype_bits, _, r₃) =
        returned (sub_checked (net_untyped untyped_start found).1 kernel.mega_bits) _ (filled, a')
          r₂ in
      let (_, _, r₄) = returned (assert (ltb retype_bits 64)) _ (filled, a') r₃ in
      let t = get_empty_slot-TakesSlot a a₁ slot gets in
      split_untyped-HandsOut false net_device_addr net_device_addr kernel.mega_bits
        (2 ^ retype_bits / 4) (net_untyped untyped_start found).0 a a₁ a' filled
        (at_start a a₁ slot t)
        (subst
          (λ (i : ℕ).
            split_untyped kernel false net_device_addr net_device_addr kernel.mega_bits i
              (2 ^ retype_bits / 4) (net_untyped untyped_start found).0 a₁
            ≡ ret (filled, a'))
          t.at r₄)
