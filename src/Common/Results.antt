-- ===== src/Common/Results.antt =====
-- `Result<T, ()>`, and computations that may panic.
use mathlib.Core.Path.{◌≡◌, refl}
use mathlib.Core.Logic.{◌⊎◌, inl, inr}
use mathlib.Core.Bool.{Bool, true, false}
use mathlib.Core.Option.{Option, none, some}
use mathlib.Core.List.{List}
use Prim.Native.Nat.{ℕ, ◌<◌, ◌≤◌}
use native.Mathlib.Omega.{arith}
use rust_root_task_demo.Common.Lists.{
  length, get_elem?, get_or, set, get_elem?-eq-get_or, get_elem?-none,
}

-- `Result<T, ()>`: the error carries nothing.
pub data Result {ℓ} (A : Type ℓ) : Type ℓ where
  ok : A → Result A
  err : Result A

-- What a function that may panic does: return, or panic.
pub data Outcome {ℓ} (A : Type ℓ) : Type ℓ where
  ret : A → Outcome A
  panic : Outcome A

infixl 5 ◌>>=◌ ◌>>◌
abbrev pub ◌>>=◌ {ℓ κ} : {A : Type ℓ} {B : Type κ} → Outcome A → (A → Outcome B) → Outcome B
ret a >>= f = f a
panic >>= f = panic

abbrev pub ◌>>◌ {ℓ} : {B : Type ℓ} → Outcome (Unit {0}) → Outcome B → Outcome B
m >> k = m >>= λ _. k

-- `Option::unwrap`
abbrev pub unwrap {ℓ} : {A : Type ℓ} → Option A → Outcome A
unwrap none = panic
unwrap (some a) = ret a

-- `Result::unwrap`
abbrev pub unwrap_ok {ℓ} : {A : Type ℓ} → Result A → Outcome A
unwrap_ok err = panic
unwrap_ok (ok a) = ret a

-- `assert!`
abbrev pub assert : Bool → Outcome (Unit {0})
assert true = ret tt
assert false = panic

module _ {ℓ} {A : Type ℓ} where
  -- `xs[i]` as a value: a read out of range panics.
  abbrev pub read : List A → ℕ → Outcome A
  read xs i = unwrap (get_elem? xs i)

  -- `xs[i] = v`: a write out of range panics.
  abbrev pub write : List A → ℕ → A → Outcome (List A)
  write xs i v = elim (get_elem? xs i) [ none ↦ panic | some _ ↦ ret (set xs i v) ]

  pub read_in_range :
      (xs : List A) (i : ℕ) (d : A) → i < length xs → read xs i ≡ ret (get_or xs i d)
  read_in_range xs i d h = ground (arith, get_elem?-eq-get_or xs i d h)

  pub write_in_range :
      (xs : List A) (i : ℕ) (v : A) → i < length xs → write xs i v ≡ ret (set xs i v)
  write_in_range xs i v h = ground (arith, get_elem?-eq-get_or xs i v h)

  pub write_out_of_range : (xs : List A) (i : ℕ) (v : A) → length xs ≤ i → write xs i v ≡ panic
  write_out_of_range xs i v h = rw (get_elem?-none xs i h, write) refl

  pub read_out_of_range : (xs : List A) (i : ℕ) → length xs ≤ i → read xs i ≡ panic
  read_out_of_range xs i h = rw (get_elem?-none xs i h) refl

pub bind_ext {ℓ κ} :
    {A : Type ℓ} {B : Type κ} (m : Outcome A) (f g : A → Outcome B)
    → ((a : A) → f a ≡ g a)
    → (m >>= f) ≡ (m >>= g)
bind_ext (ret a) f g h = h a
bind_ext panic f g h = refl

pub Outcome-cases {ℓ} : {A : Type ℓ} (o : Outcome A) → (o ≡ panic) ⊎ ((a : A) × (o ≡ ret a))
Outcome-cases (ret a) = inr (a, refl)
Outcome-cases panic = inl refl

-- A chain that returns has returned at each step.
pub returned {ℓ κ} :
    {A : Type ℓ} {B : Type κ} (m : Outcome A) (f : A → Outcome B) (b : B)
    → (m >>= f) ≡ ret b
    → (a : A) × (m ≡ ret a) × (f a ≡ ret b)
returned (ret a) f b eq = (a, refl, eq)
returned panic f b eq = cc
