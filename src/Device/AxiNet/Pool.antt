-- ===== src/Device/AxiNet/Pool.antt =====
-- The buffers of crates/example/src/device/net/axi_net/mod.rs that are in use at the same time.
use native.Mathlib.Decide.{dec_lt, ℕ_discrete}
use rust_root_task_demo.Common.{
  get_or-replicate, get_or, inr, inl, ◌%◌, ◌/◌, panic, Outcome, ltb_of_lt, Option, subst, ap, sym,
  refl, ◌∙◌, ret, arith, [], List, if◌then◌else◌, ◌==◌, ◌++◌, ◌∷◌, ◌⊎◌, ◌≢◌, ◌≡◌, ◌<◌, ◌≤◌, ◌*◌,
  ◌+◌, ℕ,
}
use rust_root_task_demo.Common.Bits.{bit_zero, bit_le_one}
use rust_root_task_demo.Utils.IndexAllocator
use rust_root_task_demo.Utils.IndexAllocator.{IndexAllocator}
use rust_root_task_demo.Utils.IndexAllocator.Bitmap.{used, IsValid, new-IsValid}
use rust_root_task_demo.Utils.IndexAllocator.Laws.{
  Allocates, allocate-Allocates, full, fresh, release_lem,
}
use rust_root_task_demo.Device.AxiNet.{
  mtu, pool_size, new_pool, new_handler, get_buffer, drop_handler,
}

-- How often a handler is in a list.
unfoldable pub occurs : ℕ → List ℕ → ℕ
occurs h [] = 0
occurs h (x ∷ xs) = (if x == h then 1 else 0) + occurs h xs

-- The pool with the handlers that are alive, after any sequence of `new` and of `drop` of a handler
-- that is alive.
pub data Reachable : IndexAllocator → List ℕ → Type 0 where
  starts : Reachable new_pool []
  takes :
      (a a' : IndexAllocator) (h : ℕ) (alive : List ℕ)
      → Reachable a alive
      → new_handler a ≡ ret (h, a')
      → Reachable a' (h ∷ alive)
  drops :
      (a a' : IndexAllocator) (h : ℕ) (before after : List ℕ)
      → Reachable a (before ++ (h ∷ after))
      → drop_handler a h ≡ ret a'
      → Reachable a' (before ++ after)

-- The pool knows exactly the handlers that are alive, each of which is in range.
record IsTracked (a : IndexAllocator) (alive : List ℕ) : Type 0 where
  valid : IsValid pool_size a
  counts : (h : ℕ) → h < pool_size → occurs h alive ≡ used a h
  in_pool : (h : ℕ) → 0 < occurs h alive → h < pool_size

used_le_one : (a : IndexAllocator) (h : ℕ) → used a h ≤ 1
used_le_one a h = bit_le_one (get_or a.bitmap (h / 8) 0) (h % 8)

occurs-append : (h : ℕ) (xs ys : List ℕ) → occurs h (xs ++ ys) ≡ occurs h xs + occurs h ys
unfolding occurs
occurs-append h [] ys = omega arith
occurs-append h (x ∷ xs) ys = omega (arith, occurs-append h xs ys)

nothing_used : (h : ℕ) → used new_pool h ≡ 0
unfolding new_pool IndexAllocator.new
nothing_used h = rw (get_or-replicate {A = ℕ} 8 (h / 8) 0) (bit_zero (h % 8))

takes-IsTracked :
    (a a' : IndexAllocator) (h : ℕ) (alive : List ℕ)
    → IsTracked a alive
    → new_handler a ≡ ret (h, a')
    → IsTracked a' (h ∷ alive)
unfolding new_handler occurs
takes-IsTracked a a' h alive t eq = allocated (allocate-Allocates pool_size a t.valid) refl
  where
    allocated :
        {o : Outcome (Option ℕ × IndexAllocator)}
        → Allocates pool_size a o
        → IndexAllocator.allocate pool_size a ≡ o
        → IsTracked a' (h ∷ alive)
    allocated (full _) e = let fails : new_handler a ≡ panic = rw e refl in absurd (cc)
    allocated (fresh k a₁ lt free below marks valid) e =
        let returns : new_handler a ≡ ret (k, a₁) = rw e refl in
        let same_handler : k ≡ h = cc in
        let same_pool : a₁ ≡ a' = cc in
        subst (λ (b : IndexAllocator). IsTracked b (h ∷ alive)) same_pool
          (subst (λ (i : ℕ). IsTracked a₁ (i ∷ alive)) same_handler
            (record {
              valid = valid;
              counts = λ x in_range. elim (ℕ_discrete k x) [
                | yes same ↦
                    let none_before : occurs x alive ≡ 0 =
                      t.counts x in_range ∙ ap (used a) (sym same) ∙ free in
                    ground (arith, none_before, marks x)
                | no apart ↦ ground (arith, t.counts x in_range, marks x)
              ];
              in_pool = λ x some_x. elim (ℕ_discrete k x) [
                | yes same ↦ omega (arith, same, lt)
                | no apart ↦ ground (arith, some_x, t.in_pool x)
              ];
            }))

drops-IsTracked :
    (a a' : IndexAllocator) (h : ℕ) (xs ys : List ℕ)
    → IsTracked a (xs ++ (h ∷ ys))
    → drop_handler a h ≡ ret a'
    → IsTracked a' (xs ++ ys)
unfolding drop_handler occurs
drops-IsTracked a a' h xs ys t eq =
    let (a₁, returns, frees, valid) = release_lem pool_size a t.valid h lt in
    let same_pool : a₁ ≡ a' = cc in
    subst (λ (b : IndexAllocator). IsTracked b (xs ++ ys)) same_pool
      (record {
        valid = valid;
        counts = λ x in_range.
            ground (
              arith,
              frees x,
              split x,
              occurs-append x xs ys,
              t.counts x in_range,
              used_le_one a x,
            );
        in_pool = λ x some_x. t.in_pool x (ground (arith, split x, occurs-append x xs ys, some_x));
      })
  where
    split :
        (x : ℕ)
        → occurs x (xs ++ (h ∷ ys)) ≡ occurs x xs + ((if h == x then 1 else 0) + occurs x ys)
    split x = occurs-append x xs (h ∷ ys)

    lt : h < pool_size
    lt = t.in_pool h (ground (arith, split h))

Reachable-IsTracked : (a : IndexAllocator) (alive : List ℕ) → Reachable a alive → IsTracked a alive
unfolding new_pool occurs
Reachable-IsTracked a alive starts = record {
  valid = new-IsValid pool_size;
  counts = λ h lt. sym (nothing_used h);
  in_pool = λ h some_h. absurd (omega (arith, some_h));
}
Reachable-IsTracked a' _ (takes a _ h alive before eq) =
    takes-IsTracked a a' h alive (Reachable-IsTracked a alive before) eq
Reachable-IsTracked a' _ (drops a _ h xs ys before eq) =
    drops-IsTracked a a' h xs ys (Reachable-IsTracked a (xs ++ (h ∷ ys)) before) eq

-- After any sequence of handlers made and of live handlers dropped, the addresses of the buffers of
-- live handlers are in the pool, and no two live handlers share a byte: no handler is alive twice.
pub buffers_apart :
    (a : IndexAllocator) (alive : List ℕ) (h k start : ℕ)
    → Reachable a alive
    → 0 < occurs h alive
    → 0 < occurs k alive
    → (occurs h alive ≡ 1)
      × ((p : ℕ) × (get_buffer start h ≡ ret p)
          × (start ≤ p)
          × (p + mtu ≤ start + pool_size * mtu)
          × ((q : ℕ) → get_buffer start k ≡ ret q → h ≢ k → (p + mtu ≤ q) ⊎ (q + mtu ≤ p)))
unfolding get_buffer
buffers_apart a alive h k start before in_h in_k =
    let t = Reachable-IsTracked a alive before in
    let lt_h = t.in_pool h in_h in
    let lt_k = t.in_pool k in_k in
    (
      omega (arith, in_h, t.counts h lt_h, used_le_one a h),
      (
        start + h * mtu,
        rw (ltb_of_lt h pool_size lt_h) refl,
        omega arith,
        omega (arith, lt_h),
        λ q at ne.
            let returns : get_buffer start k ≡ ret (start + k * mtu) =
              rw (ltb_of_lt k pool_size lt_k) refl in
            let there : start + k * mtu ≡ q = cc in
            elim (dec_lt h k) [
              | yes lt ↦ inl (omega (arith, there, lt))
              | no ge ↦ inr (omega (arith, there, ge, ne))
            ],
      ),
    )
