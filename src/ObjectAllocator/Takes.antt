-- ===== src/ObjectAllocator/Takes.antt =====
-- The slots that the operations of crates/example/src/object_allocator.rs take.
use native.Mathlib.Decide.{dec_lt}
use rust_root_task_demo.Common.{
  err, Outcome, ok, Result, returned, panic, ret, ltb_of_le, ltb_of_lt, arith, ap, refl, suc, zero,
  ◌∙◌, ◌≡◌, ◌<◌, ◌≤◌, ◌+◌, ℕ,
}
use rust_root_task_demo.ObjectAllocator.{
  ObjectBlueprint, page_table, ObjectAllocator, get_empty_slot, skip_slots, slot_result,
  get_the_first_untyped_slot, alloc_object, alloc_page_table,
}
use rust_root_task_demo.ObjectAllocator.Untyped.{
  TakesUntyped, exhausted, taken, get_the_first_untyped_slot-TakesUntyped,
}

-- One slot taken.
pub record TakesSlot (a : ObjectAllocator) (slot : ℕ) (a' : ObjectAllocator) : Type 0 where
  pub at : slot ≡ a.empty_start
  pub next : a'.empty_start ≡ a.empty_start + 1
  pub some_left : a.empty_start < a.empty_end
  pub same_end : a'.empty_end ≡ a.empty_end

pub get_empty_slot-TakesSlot :
    (a a' : ObjectAllocator) (slot : ℕ) → get_empty_slot a ≡ ret (slot, a') → TakesSlot a slot a'
unfolding get_empty_slot
get_empty_slot-TakesSlot a a' slot eq = elim (dec_lt a.empty_start a.empty_end) [
  | yes left ↦
      let returns : get_empty_slot a
          ≡ ret (a.empty_start, record a { empty_start = a.empty_start + 1 }) =
        rw (ltb_of_lt a.empty_start a.empty_end left) refl in
      let same_slot : slot ≡ a.empty_start = cc in
      let same : a' ≡ record a { empty_start = a.empty_start + 1 } = cc in
      record {
        at = same_slot;
        next = ap (λ (z : ObjectAllocator). z.empty_start) same;
        some_left = left;
        same_end = ap (λ (z : ObjectAllocator). z.empty_end) same;
      }
  | no none_left ↦
      let fails : get_empty_slot a ≡ panic =
        rw (ltb_of_le a.empty_start a.empty_end (omega (arith, none_left))) refl in
      absurd (cc)
]

pub record Skips (a : ObjectAllocator) (n : ℕ) (a' : ObjectAllocator) : Type 0 where
  pub next : a'.empty_start ≡ a.empty_start + n
  pub within : a.empty_start ≤ a.empty_end → a'.empty_start ≤ a'.empty_end
  pub same_end : a'.empty_end ≡ a.empty_end

pub skip_slots-Skips : (n : ℕ) (a a' : ObjectAllocator) → skip_slots n a ≡ ret a' → Skips a n a'
unfolding skip_slots
skip_slots-Skips zero a a' eq =
    let same : a' ≡ a = cc in
    record {
      next = ap (λ (z : ObjectAllocator). z.empty_start) same ∙ (omega arith);
      within = λ h. omega (
        arith,
        h,
        ap (λ (z : ObjectAllocator). z.empty_start) same,
        ap (λ (z : ObjectAllocator). z.empty_end) same,
      );
      same_end = ap (λ (z : ObjectAllocator). z.empty_end) same;
    }
skip_slots-Skips (suc n) a a' eq =
    let ((slot, a₁), gets, others) = returned (get_empty_slot a) _ a' eq in
    let t = get_empty_slot-TakesSlot a a₁ slot gets in
    let s = skip_slots-Skips n a₁ a' others in
    record {
      next = omega (arith, s.next, t.next);
      within = λ h. s.within (omega (arith, t.next, t.some_left, t.same_end));
      same_end = s.same_end ∙ t.same_end;
    }

-- The untyped memory taken leaves the slots.
untyped_slots :
    (a a₁ : ObjectAllocator) (bits from : ℕ)
    → get_the_first_untyped_slot a bits ≡ ret (from, a₁)
    → (a₁.empty_start ≡ a.empty_start) × (a₁.empty_end ≡ a.empty_end)
untyped_slots a a₁ bits from eq = found (get_the_first_untyped_slot-TakesUntyped a bits) eq
  where
    found :
        {o : Outcome (ℕ × ObjectAllocator)}
        → TakesUntyped a bits o
        → o ≡ ret (from, a₁)
        → (a₁.empty_start ≡ a.empty_start) × (a₁.empty_end ≡ a.empty_end)
    found (exhausted h) e = cc
    found (taken k a₂ _ _ _ _ start end) e =
        let same : a₁ ≡ a₂ = cc in
        (
          ap (λ (z : ObjectAllocator). z.empty_start) same ∙ start,
          ap (λ (z : ObjectAllocator). z.empty_end) same ∙ end,
        )

pub at_start :
    (a a₁ : ObjectAllocator) (slot : ℕ) → TakesSlot a slot a₁ → TakesSlot a a.empty_start a₁
at_start a a₁ slot t = record {
  at = refl;
  next = t.next;
  some_left = t.some_left;
  same_end = t.same_end;
}

module _ (size_of : ObjectBlueprint → ℕ)
    (retype : ℕ → ObjectBlueprint → ℕ → ℕ → Result (Unit {0})) where
  pub alloc_page_table-TakesSlot :
      (a a' : ObjectAllocator) (res : Result ℕ) (slot : ℕ)
      → alloc_page_table size_of retype a ≡ ret (res, a')
      → res ≡ ok slot
      → TakesSlot a slot a'
  unfolding alloc_page_table alloc_object slot_result
  alloc_page_table-TakesSlot a a' res slot eq good =
      let ((from, a₁), takes, after) = returned (get_the_first_untyped_slot a _) _ (res, a') eq in
      let ((slot₁, a₂), gets, last) = returned (get_empty_slot a₁) _ (res, a') after in
      let (start, end) = untyped_slots a a₁ _ from takes in
      let t = get_empty_slot-TakesSlot a₁ a₂ slot₁ gets in
      let same : a' ≡ a₂ = same_allocator slot₁ (retype from page_table slot₁ 1) a₂ last in
      let same_slot : slot₁ ≡ slot = same_result slot₁ (retype from page_table slot₁ 1) a₂ last in
      record {
        at = omega (arith, same_slot, t.at, start);
        next = ap (λ (z : ObjectAllocator). z.empty_start) same ∙ omega (arith, t.next, start);
        some_left = omega (arith, t.some_left, start, end);
        same_end = ap (λ (z : ObjectAllocator). z.empty_end) same ∙ t.same_end ∙ end;
      }
    where
      same_allocator :
          (slot₁ : ℕ) (r : Result (Unit {0})) (a₂ : ObjectAllocator)
          → ◌≡◌ {A = Outcome (Result ℕ × ObjectAllocator)}
              (ret (slot_result slot₁ r, a₂))
              (ret (res, a'))
          → a' ≡ a₂
      same_allocator slot₁ r a₂ e = cc

      same_result :
          (slot₁ : ℕ) (r : Result (Unit {0})) (a₂ : ObjectAllocator)
          → ◌≡◌ {A = Outcome (Result ℕ × ObjectAllocator)}
              (ret (slot_result slot₁ r, a₂))
              (ret (res, a'))
          → slot₁ ≡ slot
      same_result slot₁ err a₂ e = cc
      same_result slot₁ (ok _) a₂ e = cc
