-- ===== src/ObjectAllocator/Untyped.antt =====
-- The untyped memory that an allocation takes.
use native.Mathlib.Decide.{ℕ_discrete}
use rust_root_task_demo.Common.{
  ◌≤◌, write_in_range, read_in_range, panic, ret, Outcome, get_or-set_ne, get_or-set_self, set,
  get_or, length, Bool-cases, ==_ne, ==_self, arith, [], List, some, none, Option, false, true, inr,
  inl, subst, refl, suc, zero, if◌then◌else◌, ◌==◌, ◌∷◌, ◌≡◌, ◌<◌, ◌+◌, ℕ,
}
use rust_root_task_demo.ObjectAllocator.{
  ObjectAllocator, UsedUntypedDesc, is_suitable, position, get_the_first_untyped_slot,
}

-- A descriptor that no allocation takes
abbrev pub spent : UsedUntypedDesc
spent = record { is_device = false; size_bits = 0; used = true }

abbrev pub desc_of : ObjectAllocator → ℕ → UsedUntypedDesc
desc_of a i = get_or a.untyped_list i spent

-- Untyped memory that an allocation may take: unused, not a device's, and large enough.
abbrev pub IsSuitable : ℕ → UsedUntypedDesc → Type 0
IsSuitable bits d = (d.used ≡ false) × (d.is_device ≡ false) × (bits ≤ d.size_bits)

suitable : (bits : ℕ) (d : UsedUntypedDesc) → is_suitable bits d ≡ true → IsSuitable bits d
unfolding is_suitable
suitable bits d h = ground arith

unsuitable : (bits : ℕ) (d : UsedUntypedDesc) → is_suitable bits d ≡ false → ¬ IsSuitable bits d
unfolding is_suitable
unsuitable bits d h (unused, no_device, large) = ground arith

-- The first suitable descriptor of a list whose places are counted from `i` on.
data FirstFrom (bits i : ℕ) (xs : List UsedUntypedDesc) : Option ℕ → Type 0 where
  no_desc : ((j : ℕ) → ¬ IsSuitable bits (get_or xs j spent)) → FirstFrom bits i xs none
  desc_at :
      (k : ℕ)
      → k < length xs
      → IsSuitable bits (get_or xs k spent)
      → ((j : ℕ) → j < k → ¬ IsSuitable bits (get_or xs j spent))
      → FirstFrom bits i xs (some (i + k))

spent_unsuitable : (bits : ℕ) → ¬ IsSuitable bits spent
spent_unsuitable bits (unused, _, _) = cc

from_later :
    {bits i : ℕ} {d : UsedUntypedDesc} {xs : List UsedUntypedDesc} {o : Option ℕ}
    → ¬ IsSuitable bits d
    → FirstFrom bits (i + 1) xs o
    → FirstFrom bits i (d ∷ xs) o
from_later unfit (no_desc h) = no_desc (elim [ zero ↦ unfit | suc j ↦ h j ])
from_later {bits} {i} {d} {xs} unfit (desc_at k lt fits h) =
    subst (λ (n : ℕ). FirstFrom bits i (d ∷ xs) (some n)) (omega arith)
      (desc_at (suc k) (omega (arith, lt)) fits
        (elim [ zero ↦ λ below. unfit | suc j ↦ λ below. h j (omega (arith, below)) ]))

position-FirstFrom :
    (bits i : ℕ) (xs : List UsedUntypedDesc) → FirstFrom bits i xs (position bits i xs)
unfolding position
position-FirstFrom bits i [] = no_desc λ j. spent_unsuitable bits
position-FirstFrom bits i (d ∷ xs) = elim (Bool-cases (is_suitable bits d)) [
  | inl yes_fits ↦
      let fits = suitable bits d yes_fits in
      rw yes_fits (
        subst (λ (n : ℕ). FirstFrom bits i (d ∷ xs) (some n)) (omega arith)
          (desc_at 0 (omega arith) fits λ j below. absurd (omega (arith, below))))
  | inr no_fit ↦
      let unfit = unsuitable bits d no_fit in
      rw no_fit (from_later unfit (position-FirstFrom bits (i + 1) xs))
]

-- What `get_the_first_untyped_slot` does: it panics if no descriptor is suitable; otherwise it
-- takes the first that is.
pub data TakesUntyped (a : ObjectAllocator) (bits : ℕ)
    : Outcome (ℕ × ObjectAllocator) → Type 0 where
  exhausted : ((i : ℕ) → ¬ IsSuitable bits (desc_of a i)) → TakesUntyped a bits panic
  taken :
      (k : ℕ) (a' : ObjectAllocator)
      → IsSuitable bits (desc_of a k)
      → ((i : ℕ) → i < k → ¬ IsSuitable bits (desc_of a i))
      → ((i : ℕ)
          → desc_of a' i ≡ (if k == i then record (desc_of a k) { used = true } else desc_of a i))
      → a'.untyped_start ≡ a.untyped_start
      → a'.empty_start ≡ a.empty_start
      → a'.empty_end ≡ a.empty_end
      → TakesUntyped a bits (ret (a.untyped_start + k, a'))

module _ (a : ObjectAllocator) (bits : ℕ) where
  with_used : ℕ → ObjectAllocator
  with_used k = record a {
    untyped_list = set a.untyped_list k (record (desc_of a k) { used = true });
  }

  desc_of-with_used :
      (k : ℕ)
      → k < length a.untyped_list
      → (i : ℕ)
      → desc_of (with_used k) i
        ≡ (if k == i then record (desc_of a k) { used = true } else desc_of a i)
  unfolding with_used
  desc_of-with_used k lt i = elim (ℕ_discrete k i) [
    | yes same ↦
        rw (← same, ==_self k)
          (get_or-set_self a.untyped_list k (record (desc_of a k) { used = true }) spent lt)
    | no apart ↦
        rw (==_ne k i apart)
          (get_or-set_ne a.untyped_list k i (record (desc_of a k) { used = true }) spent apart)
  ]

  takes_found :
      (o : Option ℕ)
      → FirstFrom bits 0 a.untyped_list o
      → position bits 0 a.untyped_list ≡ o
      → TakesUntyped a bits (get_the_first_untyped_slot a bits)
  unfolding get_the_first_untyped_slot with_used
  takes_found none (no_desc h) e = rw e (exhausted h)
  takes_found (some _) (desc_at k lt fits below) e =
      let from_zero : 0 + k ≡ k = omega arith in
      rw
        (
          e,
          from_zero,
          read_in_range a.untyped_list k spent lt,
          write_in_range a.untyped_list k (record (get_or a.untyped_list k spent) { used = true })
              lt,
        )
        (taken k (with_used k) fits below (desc_of-with_used k lt) refl refl refl)

  -- `get_the_first_untyped_slot` panics if no untyped memory is unused, not a device's and large
  -- enough; otherwise it returns the slot of the first that is, marks that one as used, and changes
  -- nothing else.
  pub get_the_first_untyped_slot-TakesUntyped :
      TakesUntyped a bits (get_the_first_untyped_slot a bits)
  get_the_first_untyped_slot-TakesUntyped =
      takes_found (position bits 0 a.untyped_list) (position-FirstFrom bits 0 a.untyped_list) refl
