-- ===== src/MemoryAllocator/Laws.antt =====
-- The slots of the allocators of crates/example/src/memory_allocator.rs, and `map_vaddr`.
use native.Mathlib.Decide.{dec_lt, ℕ_discrete}
use rust_root_task_demo.Common.{
  length-set, leb_of_le, ltb_of_le, ltb_of_lt, ==_eq, subst, ap, sym, ◌∙◌, write_in_range,
  read_in_range, ret, Outcome, get_or-replicate, length-replicate, get_or-set_ne, get_or-set_self,
  set, get_or, length, ==_ne, ==_self, arith, [], List, some, none, Option, false, true, refl,
  if◌then◌else◌, ◌==◌, ◌∷◌, ◌≢◌, ◌≡◌, ◌<◌, ◌≤◌, ◌%◌, ◌+◌, ℕ,
}
use rust_root_task_demo.Executor.Drain.{has}
use rust_root_task_demo.MemoryAllocator.{
  MemoryAllocator, max_page_num, start_addr, end_addr, new, alloc_slot, fresh_slot, slot_from,
  map_slot, map_vaddr,
}

abbrev pub Distinct : List ℕ → Type 0
Distinct [] = Unit
Distinct (x ∷ xs) = (has x xs ≡ false) × Distinct xs

-- The address that a slot maps, 0 for none
abbrev pub vaddr_of : MemoryAllocator → ℕ → ℕ
vaddr_of a i = get_or a.mapped_vaddrs i 0

-- The slots below `current` that map nothing are the recycled ones, each once; the slots from
-- `current` on map nothing.
pub record IsValid (a : MemoryAllocator) : Type 0 where
  pub all_frames : length a.frames ≡ max_page_num
  pub all_slots : length a.mapped_vaddrs ≡ max_page_num
  pub current_in : a.current ≤ max_page_num
  pub distinct : Distinct a.recycled
  pub recycled_in : (i : ℕ) → has i a.recycled ≡ true → (i < a.current) × (vaddr_of a i ≡ 0)
  pub used_below : (i : ℕ) → i < a.current → has i a.recycled ≡ false → vaddr_of a i ≢ 0
  pub free_above : (i : ℕ) → a.current ≤ i → vaddr_of a i ≡ 0

pub new-IsValid : IsValid new
unfolding new has
new-IsValid = record {
  all_frames = length-replicate max_page_num 0;
  all_slots = length-replicate max_page_num 0;
  current_in = omega arith;
  distinct = tt;
  recycled_in = λ i h. absurd (cc);
  used_below = λ i h. absurd (omega arith);
  free_above = λ i h. get_or-replicate max_page_num i 0;
}

abbrev pub CanMap : ℕ → Type 0
CanMap vaddr = (start_addr ≤ vaddr) × (vaddr < end_addr) × (vaddr % 4096 ≡ 0)

-- What `map_vaddr` does with an address that it accepts: nothing if every slot maps one; otherwise
-- it takes a slot that maps nothing.
pub data Maps (a : MemoryAllocator) (vaddr : ℕ)
    : Outcome (Option (ℕ × ℕ) × MemoryAllocator) → Type 0 where
  no_slot : ((i : ℕ) → i < max_page_num → vaddr_of a i ≢ 0) → Maps a vaddr (ret (none, a))
  mapped :
      (slot : ℕ) (a' : MemoryAllocator)
      → slot < max_page_num
      → vaddr_of a slot ≡ 0
      → ((i : ℕ) → vaddr_of a' i ≡ (if slot == i then vaddr else vaddr_of a i))
      → a'.frames ≡ a.frames
      → IsValid a'
      → Maps a vaddr (ret (some (get_or a.frames slot 0, vaddr), a'))

module _ (a : MemoryAllocator) (v : IsValid a) (vaddr : ℕ) where
  pub mapped_at : ℕ → ℕ → List ℕ → MemoryAllocator
  mapped_at n slot rest = record a {
    current = n;
    recycled = rest;
    mapped_vaddrs = set a.mapped_vaddrs slot vaddr;
  }

  vaddr_of-mapped_at :
      (n slot : ℕ) (rest : List ℕ)
      → slot < max_page_num
      → (i : ℕ) → vaddr_of (mapped_at n slot rest) i ≡ (if slot == i then vaddr else vaddr_of a i)
  unfolding mapped_at
  vaddr_of-mapped_at n slot rest lt i = elim (ℕ_discrete slot i) [
    | yes same ↦
        rw (← same, ==_self slot)
          (get_or-set_self a.mapped_vaddrs slot vaddr 0 (omega (arith, v.all_slots, lt)))
    | no apart ↦ rw (==_ne slot i apart) (get_or-set_ne a.mapped_vaddrs slot i vaddr 0 apart)
  ]

  maps_slot :
      (n slot : ℕ) (rest : List ℕ)
      → slot < max_page_num
      → map_slot (record a { current = n; recycled = rest }) vaddr (some slot)
        ≡ ret (some (get_or a.frames slot 0, vaddr), mapped_at n slot rest)
  unfolding map_slot mapped_at
  maps_slot n slot rest lt =
      rw
        (
          read_in_range a.frames slot 0 (omega (arith, v.all_frames, lt)),
          write_in_range a.mapped_vaddrs slot vaddr (omega (arith, v.all_slots, lt)),
        )
        refl

  module _ (some_vaddr : vaddr ≢ 0) where
    module _ (slot : ℕ) (rest : List ℕ) (e : a.recycled ≡ slot ∷ rest) where
      taken : (slot < a.current) × (vaddr_of a slot ≡ 0)
      taken = v.recycled_in slot (ap (has slot) e ∙ (unfold has in rw (==_self slot) refl))

      others : (i : ℕ) → slot ≢ i → has i a.recycled ≡ has i rest
      others i apart = ap (has i) e ∙ (unfold has in rw (==_ne slot i apart) refl)

      recycled-IsValid : IsValid (mapped_at a.current slot rest)
      recycled-IsValid =
          unfold mapped_at in
          record {
            all_frames = v.all_frames;
            all_slots = length-set a.mapped_vaddrs slot vaddr ∙ v.all_slots;
            current_in = v.current_in;
            distinct = (subst Distinct e v.distinct).1;
            recycled_in = λ i h. still_free i h;
            used_below = λ i lt h. elim (ℕ_discrete slot i) [
              | yes same ↦ λ z. some_vaddr (sym (at i same) ∙ z)
              | no apart ↦ λ z. v.used_below i lt (others i apart ∙ h) (sym (away i apart) ∙ z)
            ];
            free_above =
                λ i le. away i (λ same. omega (arith, same, le, taken.0)) ∙ v.free_above i le;
          }
        where
          slot_in : slot < max_page_num
          slot_in = omega (arith, taken.0, v.current_in)

          at : (i : ℕ) → slot ≡ i → vaddr_of (mapped_at a.current slot rest) i ≡ vaddr
          at i same = rw (vaddr_of-mapped_at a.current slot rest slot_in i, ==_eq slot i same) refl

          away : (i : ℕ) → slot ≢ i → vaddr_of (mapped_at a.current slot rest) i ≡ vaddr_of a i
          away i apart =
              rw (vaddr_of-mapped_at a.current slot rest slot_in i, ==_ne slot i apart) refl

          still_free :
              (i : ℕ)
              → has i rest ≡ true
              → (i < a.current) × (vaddr_of (mapped_at a.current slot rest) i ≡ 0)
          still_free i h = elim (ℕ_discrete slot i) [
            | yes same ↦
                let gone : has slot rest ≡ false = (subst Distinct e v.distinct).0 in
                let there : has slot rest ≡ true = ap (λ (k : ℕ). has k rest) same ∙ h in
                absurd (cc)
            | no apart ↦
                let (lt, z) = v.recycled_in i (others i apart ∙ h) in (lt, away i apart ∙ z)
          ]

    pub fresh-IsValid :
        a.recycled ≡ []
        → a.current < max_page_num
        → IsValid (mapped_at (a.current + 1) a.current [])
    fresh-IsValid e lt =
        unfold mapped_at in
        record {
          all_frames = v.all_frames;
          all_slots = length-set a.mapped_vaddrs a.current vaddr ∙ v.all_slots;
          current_in = omega (arith, lt);
          distinct = tt;
          recycled_in = λ i h. absurd (unfold has in cc);
          used_below = λ i below h. elim (ℕ_discrete a.current i) [
            | yes same ↦ λ z. some_vaddr (sym (at i same) ∙ z)
            | no apart ↦ λ z.
                v.used_below i (omega (arith, below, apart)) (ap (has i) e ∙ (unfold has in refl))
                  (sym (away i apart) ∙ z)
          ];
          free_above =
              λ i le. away i (λ same. omega (arith, same, le)) ∙ v.free_above i (omega (arith, le));
        }
      where
        at : (i : ℕ) → a.current ≡ i → vaddr_of (mapped_at (a.current + 1) a.current []) i ≡ vaddr
        at i same =
            rw (vaddr_of-mapped_at (a.current + 1) a.current [] lt i, ==_eq a.current i same) refl

        away :
            (i : ℕ)
            → a.current ≢ i
            → vaddr_of (mapped_at (a.current + 1) a.current []) i ≡ vaddr_of a i
        away i apart =
            rw (vaddr_of-mapped_at (a.current + 1) a.current [] lt i, ==_ne a.current i apart) refl

    Maps-from :
        (recycled : List ℕ)
        → a.recycled ≡ recycled
        → Maps a vaddr (map_slot (slot_from a recycled).1 vaddr (slot_from a recycled).0)
    unfolding slot_from fresh_slot mapped_at
    Maps-from [] e = elim (dec_lt a.current max_page_num) [
      | yes lt ↦
          rw
            (
              ltb_of_lt a.current max_page_num lt,
              ap
                  (λ (l : List ℕ).
                    map_slot (record a { current = a.current + 1; recycled = l }) vaddr
                      (some a.current))
                  e,
              maps_slot (a.current + 1) a.current [] lt,
            )
            (mapped a.current (mapped_at (a.current + 1) a.current []) lt
              (v.free_above a.current (omega arith))
              (vaddr_of-mapped_at (a.current + 1) a.current [] lt) refl (fresh-IsValid e lt))
      | no ge ↦ rw (ltb_of_le a.current max_page_num (omega (arith, ge))) (
          unfold map_slot in
          no_slot λ i below.
            v.used_below i (omega (arith, ge, below)) (ap (has i) e ∙ (unfold has in refl)))
    ]
    Maps-from (slot ∷ rest) e =
        let (below, free) = taken slot rest e in
        let lt : slot < max_page_num = omega (arith, below, v.current_in) in
        rw (maps_slot a.current slot rest lt) (
          mapped slot (mapped_at a.current slot rest) lt free
            (vaddr_of-mapped_at a.current slot rest lt) refl (recycled-IsValid slot rest e))

-- `map_vaddr` of a page in the range, in a valid allocator, never panics: if every slot maps an
-- address it asks for nothing and changes nothing; otherwise it asks the kernel to map a slot that
-- maps none, records the address there and nowhere else, and the allocator stays valid.
pub map_vaddr-Maps :
    (a : MemoryAllocator) (vaddr : ℕ) → IsValid a → CanMap vaddr → Maps a vaddr (map_vaddr a vaddr)
unfolding map_vaddr alloc_slot
map_vaddr-Maps a vaddr v (low, high, aligned) =
    rw
      (
        leb_of_le start_addr vaddr low,
        ltb_of_lt vaddr end_addr high,
        ==_eq (vaddr % 4096) 0 aligned,
      )
      (Maps-from a v vaddr (λ z. omega (arith, z, low)) a.recycled refl)
