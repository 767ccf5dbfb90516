-- ===== src/MemoryAllocator/Unmap.antt =====
-- `unmap_vaddr` of crates/example/src/memory_allocator.rs.
use native.Mathlib.Decide.{dec_lt, ℕ_discrete}
use rust_root_task_demo.Common.{
  write_in_range, read_in_range, ret, Outcome, get_or-set_ne, get_or-set_self, length-set, set,
  get_or, length, Bool-cases, ==_eq, ==_ne, ==_self, arith, [], List, some, none, Option, false,
  true, inr, inl, subst, sym, refl, suc, zero, ◌∙◌, if◌then◌else◌, ◌==◌, ◌∷◌, ◌≢◌, ◌≡◌, ◌<◌, ◌+◌, ℕ,
}
use rust_root_task_demo.Executor.Drain.{has}
use rust_root_task_demo.MemoryAllocator.{
  MemoryAllocator, max_page_num, find_slot, unmap_slot, unmap_vaddr,
}
use rust_root_task_demo.MemoryAllocator.Laws.{IsValid, vaddr_of}

-- The first place of an address in a list whose places are counted from `i` on.
data FindsFrom (vaddr i : ℕ) (xs : List ℕ) : Option ℕ → Type 0 where
  nowhere : ((j : ℕ) → j < length xs → get_or xs j 0 ≢ vaddr) → FindsFrom vaddr i xs none
  first :
      (k : ℕ)
      → k < length xs
      → get_or xs k 0 ≡ vaddr
      → ((j : ℕ) → j < k → get_or xs j 0 ≢ vaddr)
      → FindsFrom vaddr i xs (some (i + k))

find_later :
    {vaddr i x : ℕ} {xs : List ℕ} {o : Option ℕ}
    → x ≢ vaddr
    → FindsFrom vaddr (i + 1) xs o
    → FindsFrom vaddr i (x ∷ xs) o
find_later ne (nowhere h) =
    nowhere (elim [ zero ↦ λ lt. ne | suc j ↦ λ lt. h j (omega (arith, lt)) ])
find_later {vaddr} {i} {x} {xs} ne (first k lt there h) =
    subst (λ (n : ℕ). FindsFrom vaddr i (x ∷ xs) (some n)) (omega arith)
      (first (suc k) (omega (arith, lt)) there
        (elim [ zero ↦ λ below. ne | suc j ↦ λ below. h j (omega (arith, below)) ]))

find_slot-FindsFrom : (vaddr i : ℕ) (xs : List ℕ) → FindsFrom vaddr i xs (find_slot vaddr i xs)
unfolding find_slot
find_slot-FindsFrom vaddr i [] = nowhere λ j lt. absurd (omega (arith, lt))
find_slot-FindsFrom vaddr i (x ∷ xs) = elim (ℕ_discrete vaddr x) [
  | yes same ↦ rw (==_eq vaddr x same) (
      subst (λ (n : ℕ). FindsFrom vaddr i (x ∷ xs) (some n)) (omega arith)
        (first 0 (omega arith) (sym same) λ j below. absurd (omega (arith, below))))
  | no apart ↦
      rw (==_ne vaddr x apart)
        (find_later (λ e. apart (sym e)) (find_slot-FindsFrom vaddr (i + 1) xs))
]

-- What `unmap_vaddr` does: nothing if no slot maps the address; otherwise the first slot that does
-- maps nothing any more and is the next to be used again.
pub data Unmaps (a : MemoryAllocator) (vaddr : ℕ)
    : Outcome (Option ℕ × MemoryAllocator) → Type 0 where
  unmapped : ((i : ℕ) → i < max_page_num → vaddr_of a i ≢ vaddr) → Unmaps a vaddr (ret (none, a))
  given_back :
      (slot : ℕ) (a' : MemoryAllocator)
      → slot < max_page_num
      → vaddr_of a slot ≡ vaddr
      → ((i : ℕ) → i < slot → vaddr_of a i ≢ vaddr)
      → ((i : ℕ) → vaddr_of a' i ≡ (if slot == i then 0 else vaddr_of a i))
      → a'.recycled ≡ slot ∷ a.recycled
      → IsValid a'
      → Unmaps a vaddr (ret (some (get_or a.frames slot 0), a'))

module _ (a : MemoryAllocator) (v : IsValid a) (slot : ℕ) (lt : slot < max_page_num) where
  released : MemoryAllocator
  released = record a { mapped_vaddrs = set a.mapped_vaddrs slot 0; recycled = slot ∷ a.recycled }

  vaddr_of-released : (i : ℕ) → vaddr_of released i ≡ (if slot == i then 0 else vaddr_of a i)
  unfolding released
  vaddr_of-released i = elim (ℕ_discrete slot i) [
    | yes same ↦
        rw (← same, ==_self slot)
          (get_or-set_self a.mapped_vaddrs slot 0 0 (omega (arith, v.all_slots, lt)))
    | no apart ↦ rw (==_ne slot i apart) (get_or-set_ne a.mapped_vaddrs slot i 0 0 apart)
  ]

  away : (i : ℕ) → slot ≢ i → vaddr_of released i ≡ vaddr_of a i
  away i apart = rw (vaddr_of-released i, ==_ne slot i apart) refl

  at : (i : ℕ) → slot ≡ i → vaddr_of released i ≡ 0
  at i same = rw (vaddr_of-released i, ==_eq slot i same) refl

  has-released : (i : ℕ) → slot ≢ i → has i released.recycled ≡ has i a.recycled
  unfolding released has
  has-released i apart = rw (==_ne slot i apart) refl

  releases : unmap_slot a (some slot) ≡ ret (some (get_or a.frames slot 0), released)
  unfolding unmap_slot released
  releases =
      rw
        (
          read_in_range a.frames slot 0 (omega (arith, v.all_frames, lt)),
          write_in_range a.mapped_vaddrs slot 0 (omega (arith, v.all_slots, lt)),
        )
        refl

  module _ (some_vaddr : vaddr_of a slot ≢ 0) where
    in_use : slot < a.current
    in_use = elim (dec_lt slot a.current) [
      | yes below ↦ below
      | no above ↦ absurd (some_vaddr (v.free_above slot (omega (arith, above))))
    ]

    not_recycled : has slot a.recycled ≡ false
    not_recycled = elim (Bool-cases (has slot a.recycled)) [
      | inl there ↦ absurd (some_vaddr (v.recycled_in slot there).1)
      | inr gone ↦ gone
    ]

    released-IsValid : IsValid released
    released-IsValid = record {
      all_frames = unfold released in v.all_frames;
      all_slots = unfold released in (length-set a.mapped_vaddrs slot 0 ∙ v.all_slots);
      current_in = unfold released in v.current_in;
      distinct = unfold released in (not_recycled, v.distinct);
      recycled_in = λ i h. elim (ℕ_discrete slot i) [
        | yes same ↦ (unfold released in omega (arith, same, in_use), at i same)
        | no apart ↦
            let (below, z) = v.recycled_in i (sym (has-released i apart) ∙ h) in
            (unfold released in below, away i apart ∙ z)
      ];
      used_below = λ i below h. elim (ℕ_discrete slot i) [
        | yes same ↦
            let there : has i released.recycled ≡ true =
              unfold released has in rw (==_eq slot i same) refl in
            absurd (cc)
        | no apart ↦ λ z.
            v.used_below i (unfold released in below) (sym (has-released i apart) ∙ h)
              (sym (away i apart) ∙ z)
      ];
      free_above = λ i le.
          away i (λ same. unfold released in omega (arith, same, le, in_use))
          ∙ v.free_above i (unfold released in le);
    }

module _ (a : MemoryAllocator) (vaddr : ℕ) (v : IsValid a) (some_vaddr : vaddr ≢ 0) where
  Unmaps-found :
      (o : Option ℕ) → FindsFrom vaddr 0 a.mapped_vaddrs o → Unmaps a vaddr (unmap_slot a o)
  Unmaps-found none (nowhere h) =
      unfold unmap_slot in unmapped λ i lt. h i (omega (arith, v.all_slots, lt))
  Unmaps-found (some _) (first k lt there below) =
      let slot_in : k < max_page_num = omega (arith, v.all_slots, lt) in
      let from_zero : 0 + k ≡ k = omega arith in
      rw (from_zero, releases a v k slot_in)
        (given_back k (released a v k slot_in) slot_in there below (vaddr_of-released a v k slot_in)
          (unfold released in refl)
          (released-IsValid a v k slot_in λ z. some_vaddr (sym there ∙ z)))

  -- `unmap_vaddr` of an address other than 0, in a valid allocator, never panics: if no slot maps
  -- the address it changes nothing; otherwise it asks the kernel to unmap the frame of the first
  -- slot that does, that slot alone is free again, and the allocator stays valid.
  pub unmap_vaddr-Unmaps : Unmaps a vaddr (unmap_vaddr a vaddr)
  unfolding unmap_vaddr
  unmap_vaddr-Unmaps =
      Unmaps-found (find_slot vaddr 0 a.mapped_vaddrs) (find_slot-FindsFrom vaddr 0 a.mapped_vaddrs)
