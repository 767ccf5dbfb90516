-- ===== src/Utils/Window.antt =====
-- The items of an array from an index on, going round at its end: what the two ring buffers hold.
use native.Mathlib.Nat.{mod-add-mod, mod-eq_of_lt, mod-eq-sub-mod}
use native.Mathlib.Decide.{dec_lt}
use rust_root_task_demo.Common.{
  get_or-set_ne, get_or-set_self, set, get_or, length, arith, [], List, inr, inl, ap₂, ap, sym,
  refl, suc, zero, ◌∙◌, ◌++◌, ◌∷◌, ◌⊎◌, ◌≢◌, ◌≡◌, ◌<◌, ◌≤◌, ◌%◌, ◌-◌, ◌+◌, ℕ,
}

-- Of two rounds, `%` takes off at most one.
pub mod_second_round : (x cap : ℕ) → cap ≤ x → x < cap + cap → x % cap ≡ x - cap
mod_second_round x cap le lt =
    mod-eq-sub-mod {n = x} {m = cap} le ∙ mod-eq_of_lt {n = x - cap} {m = cap} (omega arith)

-- The cases of `x % cap` in the first two rounds.
pub mod_cases :
    (x cap : ℕ) → x < cap + cap → ((x < cap) × (x % cap ≡ x)) ⊎ ((cap ≤ x) × (x % cap ≡ x - cap))
mod_cases x cap lt = elim (dec_lt x cap) [
  | yes h ↦ inl (h, mod-eq_of_lt h)
  | no h ↦ inr (omega arith, mod_second_round x cap (omega arith) lt)
]

module _ {ℓ} {A : Type ℓ} where
  -- `f k`, `f (k + 1)`, and so on, `n` of them
  abbrev pub slice : (ℕ → A) → ℕ → ℕ → List A
  slice f k zero = []
  slice f k (suc n) = f k ∷ slice f (suc k) n

  pub length-slice : (f : ℕ → A) (k n : ℕ) → length (slice f k n) ≡ n
  length-slice f k zero = refl
  length-slice f k (suc n) = ap suc (length-slice f (suc k) n)

  pub slice-suc : (f : ℕ → A) (k n : ℕ) → slice f k (suc n) ≡ slice f k n ++ (f (k + n) ∷ [])
  slice-suc f k zero = ap (λ (j : ℕ). f j ∷ []) (omega arith)
  slice-suc f k (suc n) =
      ap (λ (ys : List A). f k ∷ ys) (slice-suc f (suc k) n)
      ∙ ap (λ (j : ℕ). f k ∷ (slice f (suc k) n ++ (f j ∷ []))) (omega arith)

  pub slice_ext :
      (f g : ℕ → A) (n k k' : ℕ)
      → ((j : ℕ) → j < n → f (k + j) ≡ g (k' + j))
      → slice f k n ≡ slice g k' n
  slice_ext f g zero k k' h = refl
  slice_ext f g (suc n) k k' h =
      ap₂ ◌∷◌ (ap f (omega arith) ∙ h 0 (omega arith) ∙ ap g (omega arith)) (
        slice_ext f g n (suc k) (suc k')
          λ j lt. ap f (omega arith) ∙ h (suc j) (omega arith) ∙ ap g (omega arith))

module _ {ℓ} {A : Type ℓ} (d : A) (cap : ℕ) where
  -- The item at position `k`, counted round the array.
  abbrev pub cell : List A → ℕ → A
  cell items k = get_or items (k % cap) d

  abbrev pub window : List A → ℕ → ℕ → List A
  window items start n = slice (cell items) start n

  -- Fewer than `cap` positions on lies another cell.
  pub cells_apart :
      (start j n : ℕ) → start < cap → j < n → n < cap → (start + n) % cap ≢ (start + j) % cap
  cells_apart start j n hs hj hn =
      omega
        (arith, mod_cases (start + n) cap (omega arith), mod_cases (start + j) cap (omega arith))

  pub mod-window_lt : (k : ℕ) → 0 < cap → k % cap < cap
  mod-window_lt k h = omega arith

  -- A write just past the window leaves it as it is.
  pub window-set_past :
      (items : List A) (start n : ℕ) (x : A)
      → start < cap
      → n < cap
      → window (set items ((start + n) % cap) x) start n ≡ window items start n
  window-set_past items start n x hs hn =
      slice_ext (cell (set items ((start + n) % cap) x)) (cell items) n start start λ j lt.
        get_or-set_ne items ((start + n) % cap) ((start + j) % cap) x d
          (cells_apart start j n hs lt hn)

  -- A write just past the window extends it by that item.
  pub window-set :
      (items : List A) (start n : ℕ) (x : A)
      → length items ≡ cap
      → start < cap
      → n < cap
      → window (set items ((start + n) % cap) x) start (suc n) ≡ window items start n ++ (x ∷ [])
  window-set items start n x len hs hn =
      slice-suc (cell (set items ((start + n) % cap) x)) start n
      ∙ ap₂ (λ (xs : List A) (y : A). xs ++ (y ∷ [])) (window-set_past items start n x hs hn)
          (get_or-set_self items ((start + n) % cap) x d (omega (arith, mod-window_lt (start + n))))

  -- Dropping the first item moves the start by one, round the array.
  pub window-advance :
      (items : List A) (start n : ℕ)
      → window items (suc start) n ≡ window items ((start + 1) % cap) n
  window-advance items start n =
      slice_ext (cell items) (cell items) n (suc start) ((start + 1) % cap) λ j lt.
        ap (λ (i : ℕ). get_or items i d)
          (ap (λ (i : ℕ). i % cap) (omega arith) ∙ sym (mod-add-mod (start + 1) cap j))
