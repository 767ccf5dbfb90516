-- ===== src/AsyncLib/Woken.antt =====
-- Which coroutines of crates/example/src/async_lib.rs a word of user interrupts wakes.
use native.Mathlib.Decide.{ℕ_discrete}
use rust_root_task_demo.Common.{
  ◌≢◌, arith, inr, inl, ap, sym, ◌∙◌, ◌%◌, ◌/◌, ==_eq, ==_ne, List, some, refl, suc, zero, ◌↔◌, ◌⊎◌,
  ◌≡◌, ◌<◌, ◌+◌, ℕ,
}
use rust_root_task_demo.Common.Bits.{bit, bit_zero}
use rust_root_task_demo.Common.Words.{set_bit, bit-set_bit}
use rust_root_task_demo.AsyncLib.{lookup}

-- The coroutine with id `j` is delayed for a wake by interrupt `bit_index + i` of the bits `i` left.
pub data Woken (wake_map : List (ℕ × ℕ)) (bit_index local j : ℕ) : Type 0 where
  by_vec :
      (i : ℕ)
      → bit local i ≡ 1
      → lookup (bit_index + i) wake_map ≡ some j
      → Woken wake_map bit_index local j

-- Every interrupt left has a coroutine, whose id is below 64.
abbrev pub AllMapped : List (ℕ × ℕ) → ℕ → ℕ → Type 0
AllMapped wake_map bit_index local =
    (i : ℕ)
    → bit local i ≡ 1
    → (cid : ℕ) × (cid < 64) × (lookup (bit_index + i) wake_map ≡ some cid)

-- With no interrupt left no coroutine is woken.
pub zero-Woken : {m : List (ℕ × ℕ)} {b local j : ℕ} → local ≡ 0 → ¬ (Woken m b local j)
zero-Woken {local} e (by_vec i one _) =
    let zeros : bit local i ≡ 0 = ap (λ (n : ℕ). bit n i) e ∙ bit_zero i in
    omega (arith, zeros, one)

next_vec : (m : List (ℕ × ℕ)) (b i : ℕ) → lookup (b + suc i) m ≡ lookup (b + 1 + i) m
next_vec m b i = ap (λ (n : ℕ). lookup n m) (omega arith)

pub this_vec : (m : List (ℕ × ℕ)) (b : ℕ) → lookup (b + 0) m ≡ lookup b m
this_vec m b = ap (λ (n : ℕ). lookup n m) (omega arith)

-- The coroutines woken are that of the lowest bit, if it is set, and those of the bits above.
Woken-cases :
    {m : List (ℕ × ℕ)} {b local j : ℕ}
    → Woken m b local j
    → ((local % 2 ≡ 1) × (lookup b m ≡ some j)) ⊎ Woken m (b + 1) (local / 2) j
unfolding bit
Woken-cases {m} {b} (by_vec zero one found) = inl (one, sym (this_vec m b) ∙ found)
Woken-cases {m} {b} (by_vec (suc i) one found) = inr (by_vec i one (sym (next_vec m b i) ∙ found))

Woken-here :
    {m : List (ℕ × ℕ)} {b local j : ℕ} → local % 2 ≡ 1 → lookup b m ≡ some j → Woken m b local j
unfolding bit
Woken-here {m} {b} one found = by_vec 0 one (this_vec m b ∙ found)

Woken-above : {m : List (ℕ × ℕ)} {b local j : ℕ} → Woken m (b + 1) (local / 2) j → Woken m b local j
unfolding bit
Woken-above {m} {b} (by_vec i one found) = by_vec (suc i) one (next_vec m b i ∙ found)

pub mapped_above :
    (m : List (ℕ × ℕ)) (b local : ℕ) → AllMapped m b local → AllMapped m (b + 1) (local / 2)
unfolding bit
mapped_above m b local all i one =
    let (cid, lt, found) = all (suc i) one in (cid, lt, sym (next_vec m b i) ∙ found)

kept : (x p j : ℕ) → bit x j ≡ 1 → bit (set_bit x p) j ≡ 1
kept x p j old = ground (arith, bit-set_bit x p j, old)

-- The delayed wakes after an interrupt that is set, of the coroutine `cid`, and the ones above it.
pub wakes_odd :
    (m : List (ℕ × ℕ)) (b local cid delays d j : ℕ)
    → local % 2 ≡ 1
    → lookup b m ≡ some cid
    → (bit d j ≡ 1) ↔ ((bit (set_bit delays cid) j ≡ 1) ⊎ Woken m (b + 1) (local / 2) j)
    → (bit d j ≡ 1) ↔ ((bit delays j ≡ 1) ⊎ Woken m b local j)
wakes_odd m b local cid delays d j one here bits = (
  (λ h. elim (bits.0 h) [
    | inl old ↦ elim (ℕ_discrete cid j) [
      | yes same ↦ inr (Woken-here one (here ∙ ap some same))
      | no apart ↦ inl (rw (← old, bit-set_bit delays cid j, ==_ne cid j apart) refl)
    ]
    | inr above ↦ inr (Woken-above above)
  ]),
  elim [
    | inl old ↦ bits.1 (inl (kept delays cid j old))
    | inr woken ↦ elim (Woken-cases woken) [
      | inl (_, there) ↦
          let same : cid ≡ j = cc (here, there) in
          bits.1 (inl (rw (bit-set_bit delays cid j, ==_eq cid j same) refl))
      | inr above ↦ bits.1 (inr above)
    ]
  ],
)

-- The delayed wakes after an interrupt that is not set, and the ones above it.
pub wakes_even :
    (m : List (ℕ × ℕ)) (b local delays d j : ℕ)
    → local % 2 ≢ 1
    → (bit d j ≡ 1) ↔ ((bit delays j ≡ 1) ⊎ Woken m (b + 1) (local / 2) j)
    → (bit d j ≡ 1) ↔ ((bit delays j ≡ 1) ⊎ Woken m b local j)
wakes_even m b local delays d j even bits = (
  (λ h. elim (bits.0 h) [ inl old ↦ inl old | inr above ↦ inr (Woken-above above) ]),
  elim [
    | inl old ↦ bits.1 (inl old)
    | inr woken ↦ elim (Woken-cases woken) [
      | inl (one, _) ↦ absurd (even one)
      | inr above ↦ bits.1 (inr above)
    ]
  ],
)
