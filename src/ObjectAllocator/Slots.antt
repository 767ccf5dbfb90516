-- ===== src/ObjectAllocator/Slots.antt =====
-- The slots that an allocation of many objects takes.
use rust_root_task_demo.Common.{
  panic, Outcome, err, ==_self, ltb, true, inr, inl, ◌⊎◌, ◌-◌, ret, ok, Result, get_or, length,
  ltb_of_lt, arith, List, ap, refl, suc, zero, ◌∙◌, ◌≡◌, ◌<◌, ◌≤◌, ◌^◌, ◌+◌, ℕ,
}
use native.Mathlib.Nat.{one-le-pow}
use rust_root_task_demo.ObjectAllocator.Untyped.{
  desc_of, IsSuitable, TakesUntyped, exhausted, taken, get_the_first_untyped_slot-TakesUntyped,
}
use rust_root_task_demo.ObjectAllocator.{
  ObjectAllocator, ObjectBlueprint, untyped, get_the_first_untyped_slot, get_empty_slot, skip_slots,
  slots_from, alloc_many,
}

-- The slots left are enough, or the loop panics.
skip_slots_lem :
    (n : ℕ) (a : ObjectAllocator)
    → a.empty_start + n ≤ a.empty_end
    → skip_slots n a ≡ ret (record a { empty_start = a.empty_start + n })
unfolding skip_slots get_empty_slot
skip_slots_lem zero a h = ap (λ (k : ℕ). ret (record a { empty_start = k })) (omega arith)
skip_slots_lem (suc n) a h = rw (ltb_of_lt a.empty_start a.empty_end (omega (arith, h))) (
    skip_slots_lem n (record a { empty_start = a.empty_start + 1 }) (omega (arith, h))
    ∙ ap (λ (k : ℕ). ret (record a { empty_start = k })) (omega arith))

pub length-slots_from : (n slot : ℕ) → length (slots_from n slot) ≡ n
unfolding slots_from
length-slots_from zero slot = refl
length-slots_from (suc n) slot = ap suc (length-slots_from n (slot + 1))

pub get_or-slots_from : (n slot i : ℕ) → i < n → get_or (slots_from n slot) i 0 ≡ slot + i
unfolding slots_from
get_or-slots_from zero slot i h = absurd (omega (arith, h))
get_or-slots_from (suc n) slot zero h = omega arith
get_or-slots_from (suc n) slot (suc i) h =
    get_or-slots_from n (slot + 1) i (omega (arith, h)) ∙ omega arith

-- What an allocation of `cnt` objects returns and leaves.
pub record Takes (a : ObjectAllocator) (cnt : ℕ) (slots : List ℕ) (a' : ObjectAllocator)
    : Type 0 where
  pub cnt_slots : length slots ≡ cnt
  pub consecutive : (i : ℕ) → i < cnt → get_or slots i 0 ≡ a.empty_start + i
  pub rest_start : a'.empty_start ≡ a.empty_start + cnt
  pub rest_end : a'.empty_end ≡ a.empty_end

module _ (size_of : ObjectBlueprint → ℕ)
    (retype : ℕ → ObjectBlueprint → ℕ → ℕ → Result (Unit {0})) where
  -- What `alloc_many` does for `cnt` objects.
  pub data AllocatesMany (a : ObjectAllocator) (blueprint : ObjectBlueprint) (bits cnt : ℕ)
      : Outcome (List ℕ × ObjectAllocator) → Type 0 where
    no_untyped :
        ((i : ℕ) → ¬ IsSuitable bits (desc_of a i)) → AllocatesMany a blueprint bits cnt panic
    refused :
        (k : ℕ)
        → IsSuitable bits (desc_of a k)
        → retype (a.untyped_start + k) blueprint a.empty_start cnt ≡ err
        → AllocatesMany a blueprint bits cnt panic
    allocated :
        (k : ℕ) (slots : List ℕ) (a' : ObjectAllocator)
        → IsSuitable bits (desc_of a k)
        → (desc_of a' k).used ≡ true
        → retype (a.untyped_start + k) blueprint a.empty_start cnt ≡ ok tt
        → Takes a cnt slots a'
        → AllocatesMany a blueprint bits cnt (ret (slots, a'))

  module _ (blueprint : ObjectBlueprint) (object_bits cnt_bits : ℕ) (a : ObjectAllocator) where
    abbrev bits : ℕ
    bits = size_of (untyped (object_bits + cnt_bits))

    abbrev cnt : ℕ
    cnt = 2 ^ cnt_bits

    module _ (lt : cnt_bits < 64) (room : a.empty_start + 2 ^ cnt_bits ≤ a.empty_end) where
      allocates_from :
          (o : Outcome (ℕ × ObjectAllocator))
          → TakesUntyped a bits o
          → get_the_first_untyped_slot a bits ≡ o
          → AllocatesMany a blueprint bits cnt
              (alloc_many size_of retype blueprint object_bits cnt_bits a)
      unfolding alloc_many get_empty_slot
      allocates_from panic (exhausted h) e = rw (ltb_of_lt cnt_bits 64 lt, e) (no_untyped h)
      allocates_from (ret _) (taken k a₁ fits below descs untyped_same start_same end_same) e =
          elim (retype_cases (retype (a.untyped_start + k) blueprint a.empty_start cnt)) [
            | inl failed ↦
                rw (ltb_of_lt cnt_bits 64 lt, e, start_same, slot_left, skipped, failed)
                  (refused k fits failed)
            | inr done ↦
                rw (ltb_of_lt cnt_bits 64 lt, e, start_same, slot_left, skipped, done)
                  (allocated k (slots_from cnt a.empty_start) left fits
                    (rw (descs k, ==_self k) refl) done
                    (record {
                      cnt_slots = length-slots_from cnt a.empty_start;
                      consecutive = get_or-slots_from cnt a.empty_start;
                      rest_start = omega (arith, start_same, some_obj);
                      rest_end = end_same;
                    }))
          ]
        where
          some_obj : 0 < cnt
          some_obj = one-le-pow cnt_bits 2 (omega arith)

          slot_left : ltb a.empty_start a₁.empty_end ≡ true
          slot_left =
              ltb_of_lt a.empty_start a₁.empty_end
                (omega (arith, room, start_same, end_same, some_obj))

          left : ObjectAllocator
          left = record a₁ { empty_start = a.empty_start + 1 + (cnt - 1) }

          skipped : skip_slots (cnt - 1) (record a₁ { empty_start = a.empty_start + 1 }) ≡ ret left
          skipped =
              skip_slots_lem (cnt - 1) (record a₁ { empty_start = a.empty_start + 1 })
                (omega (arith, room, start_same, end_same, some_obj))

          retype_cases : (o : Result (Unit {0})) → (o ≡ err) ⊎ (o ≡ ok tt)
          retype_cases err = inl refl
          retype_cases (ok _) = inr refl

      -- An allocation of `2 ^ cnt_bits` objects, with that many slots left, panics if no untyped
      -- memory is suitable or if the kernel refuses; otherwise it returns that many consecutive
      -- slots from the first empty one on, the untyped memory is used, and the slots that are still
      -- empty start right after them.
      pub alloc_many-AllocatesMany :
          AllocatesMany a blueprint bits cnt
            (alloc_many size_of retype blueprint object_bits cnt_bits a)
      alloc_many-AllocatesMany =
          allocates_from (get_the_first_untyped_slot a bits)
            (get_the_first_untyped_slot-TakesUntyped a bits) refl
