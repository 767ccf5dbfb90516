-- ===== src/Utils/RingBuffer/Laws.antt =====
-- The items that a `RingBuffer` holds, oldest first.
use native.Mathlib.Decide.{dec_lt}
use native.Mathlib.Nat.{mod-eq_of_lt, mod_self}
use rust_root_task_demo.Common.{
  length-set, set, get_or, [], inr, inl, ap₂, ap, sym, suc, ◌∙◌, ◌++◌, ◌∷◌, length-replicate,
  length, arith, List, ◌==◌, ◌⊎◌, ◌≡◌, ◌<◌, ◌≤◌, ◌%◌, ◌-◌, ◌+◌, ℕ,
}
use rust_root_task_demo.Utils.Window.{
  window, length-slice, cell, window-set, window-advance, mod_cases,
}
use rust_root_task_demo.Utils.RingBuffer.{RingBuffer, new, size, empty, full}

module _ {ℓ} {A : Type ℓ} (d : A) (cap : ℕ) where
  pub record IsValid (r : RingBuffer A) : Type 0 where
    pub slots : length r.items ≡ cap
    pub start_in : r.start < cap
    pub end_in : r.end < cap

  -- What the buffer holds, oldest first.
  abbrev pub contents : RingBuffer A → List A
  contents r = window d cap r.items r.start (size cap r)

  pub new-IsValid : 0 < cap → IsValid (new d cap)
  unfolding new
  new-IsValid h = record { slots = length-replicate cap d; start_in = h; end_in = h }

  pub size-new : size cap (new d cap) ≡ 0
  unfolding size new
  size-new = ap (λ (n : ℕ). n % cap) (omega arith) ∙ mod_self cap

  module _ (r : RingBuffer A) (v : IsValid r) where
    pub size_cases :
        ((r.start ≤ r.end) × (size cap r ≡ r.end - r.start))
        ⊎ ((r.end < r.start) × (size cap r ≡ r.end + cap - r.start))
    unfolding size
    size_cases =
        let m = mod_cases (r.end + cap - r.start) cap (omega (arith, v.start_in, v.end_in)) in
        elim (dec_lt r.end r.start) [
          | yes lt ↦ inr (lt, omega (arith, m, v.start_in))
          | no ge ↦ inl (omega (arith, ge), omega (arith, m, ge, v.end_in))
        ]

    pub size_lt : size cap r < cap
    size_lt = omega (arith, size_cases, v.start_in, v.end_in)

    pub end-eq : (r.start + size cap r) % cap ≡ r.end
    end-eq = omega (
      arith,
      size_cases,
      mod_cases (r.start + size cap r) cap (omega (arith, size_lt, v.start_in)),
      v.start_in,
      v.end_in,
    )

    pub empty_iff : empty r ≡ (size cap r == 0)
    unfolding empty
    empty_iff = ground (arith, size_cases, v.start_in, v.end_in)

    pub full_iff : full cap r ≡ (size cap r + 1 == cap)
    unfolding full
    full_iff = ground (
      arith,
      size_cases,
      v.start_in,
      v.end_in,
      mod_cases (r.end + 1) cap (omega (arith, v.end_in)),
    )

    pub length-contents : length (contents r) ≡ size cap r
    length-contents = length-slice (cell d cap r.items) r.start (size cap r)

    -- The ring after an item is written, and after one is read.
    abbrev pub written : A → RingBuffer A
    written x = record r { items = set r.items r.end x; end = (r.end + 1) % cap }

    abbrev pub advanced : RingBuffer A
    advanced = record r { start = (r.start + 1) % cap }

    pub written-IsValid : (x : A) → IsValid (written x)
    written-IsValid x = record {
      slots = length-set r.items r.end x ∙ v.slots;
      start_in = v.start_in;
      end_in = omega (arith, v.end_in);
    }

    pub advanced-IsValid : IsValid advanced
    advanced-IsValid = record {
      slots = v.slots;
      start_in = omega (arith, v.start_in);
      end_in = v.end_in;
    }

  pub size-written :
      (r : RingBuffer A) (v : IsValid r) (x : A)
      → size cap r + 1 < cap
      → size cap (written r v x) ≡ suc (size cap r)
  size-written r v x room = omega (
    arith,
    size_cases r v,
    size_cases (written r v x) (written-IsValid r v x),
    mod_cases (r.end + 1) cap (omega (arith, v.end_in)),
    v.start_in,
    v.end_in,
  )

  pub size-advanced :
      (r : RingBuffer A) (v : IsValid r)
      → 0 < size cap r
      → suc (size cap (advanced r v)) ≡ size cap r
  size-advanced r v some_item = omega (
    arith,
    size_cases r v,
    size_cases (advanced r v) (advanced-IsValid r v),
    mod_cases (r.start + 1) cap (omega (arith, v.start_in)),
    v.start_in,
    v.end_in,
  )

  pub contents-written :
      (r : RingBuffer A) (v : IsValid r) (x : A)
      → size cap r + 1 < cap
      → contents (written r v x) ≡ contents r ++ (x ∷ [])
  contents-written r v x room =
      ap (λ (n : ℕ). window d cap (set r.items r.end x) r.start n) (size-written r v x room)
      ∙ ap (λ (e : ℕ). window d cap (set r.items e x) r.start (suc (size cap r))) (sym (end-eq r v))
      ∙ window-set d cap r.items r.start (size cap r) x v.slots v.start_in (omega (arith, room))

  pub contents-advanced :
      (r : RingBuffer A) (v : IsValid r)
      → 0 < size cap r
      → contents r ≡ get_or r.items r.start d ∷ contents (advanced r v)
  contents-advanced r v some_item =
      ap (λ (n : ℕ). window d cap r.items r.start n) (sym (size-advanced r v some_item))
      ∙ ap₂ ◌∷◌ (ap (λ (i : ℕ). get_or r.items i d) (mod-eq_of_lt v.start_in))
          (window-advance d cap r.items r.start (size cap (advanced r v)))
