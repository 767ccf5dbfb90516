-- ===== src/Utils/SafeRingBuffer/Laws.antt =====
-- The items that a `SafeRingBuffer` holds, oldest first.
use native.Mathlib.Decide.{dec_lt}
use native.Mathlib.Nat.{mod-eq_of_lt, mod-add-mod}
use rust_root_task_demo.Common.{
  ap₂, sym, write_in_range, read_in_range, ret, length-replicate, length-set, set, get_or, length,
  ltb_of_le, ltb_of_lt, ==_eq, ==_ne, ltb, arith, [], List, false, true, ap, refl, suc, ◌∙◌, ◌∷◌,
  ◌≡◌, ◌<◌, ◌≤◌, ◌^◌, ◌%◌, ◌-◌, ◌+◌, ℕ,
}
use rust_root_task_demo.Utils.Queue
use rust_root_task_demo.Utils.Window.{window, length-slice, cell, window-set, window-advance}
use rust_root_task_demo.Utils.SafeRingBuffer.{
  SafeRingBuffer, new, pop_safe, push_safe, fetch_add, fetch_sub,
}

module _ {ℓ} {A : Type ℓ} (d : A) (cap : ℕ) where
  pub record IsValid (r : SafeRingBuffer A) : Type 0 where
    pub slots : length r.items ≡ cap
    pub cap_lt : cap < 2 ^ 64
    pub start_in : r.start < cap
    pub count_in : r.count ≤ cap
    pub end_eq : r.end ≡ (r.start + r.count) % cap

  -- What the buffer holds, oldest first.
  abbrev pub contents : SafeRingBuffer A → List A
  contents r = window d cap r.items r.start r.count

  pub new-IsValid : 0 < cap → cap < 2 ^ 64 → IsValid (new d cap)
  unfolding new
  new-IsValid pos lt = record {
    slots = length-replicate cap d;
    cap_lt = lt;
    start_in = pos;
    count_in = omega arith;
    end_eq = omega arith;
  }

  pub contents-new : contents (new d cap) ≡ []
  unfolding new
  contents-new = refl

  module _ (r : SafeRingBuffer A) (v : IsValid r) where
    pub length-contents : length (contents r) ≡ r.count
    length-contents = length-slice (cell d cap r.items) r.start r.count

    end_in : r.end < cap
    end_in = omega (arith, v.end_eq, v.start_in)

    next_end : (n : ℕ) → ((r.start + n) % cap + 1) % cap ≡ (r.start + (n + 1)) % cap
    next_end n = mod-add-mod (r.start + n) cap 1 ∙ ap (λ (k : ℕ). k % cap) (omega arith)

    next_start : (n : ℕ) → 0 < n → ((r.start + 1) % cap + (n - 1)) % cap ≡ (r.start + n) % cap
    next_start n h = mod-add-mod (r.start + 1) cap (n - 1) ∙ ap (λ (k : ℕ). k % cap) (omega arith)

    split_first :
        0 < r.count
        → contents r
          ≡ get_or r.items r.start d
            ∷ window d cap r.items ((r.start + 1) % cap) (fetch_sub r.count)
    split_first h =
        let less : r.count ≡ suc (fetch_sub r.count) = omega (arith, h, v.count_in, v.cap_lt) in
        ap (λ (n : ℕ). window d cap r.items r.start n) less
        ∙ ap₂ ◌∷◌ (ap (λ (i : ℕ). get_or r.items i d) (mod-eq_of_lt v.start_in))
            (window-advance d cap r.items r.start (fetch_sub r.count))

    -- `push_safe` on a valid buffer does not panic: it answers as the queue of at most `SIZE`
    -- items does, leaves the buffer holding that queue's items, and keeps it valid.
    pub push_safe_refines :
        (x : A)
        → (r' : SafeRingBuffer A) × (push_safe cap r x
            ≡ ret ((Queue.push cap (contents r) x).0, r'))
          × (contents r' ≡ (Queue.push cap (contents r) x).1)
          × IsValid r'
    unfolding push_safe Queue.push
    push_safe_refines x = elim (dec_lt r.count cap) [
      | yes room ↦
          let test : ltb (length (contents r)) cap ≡ true =
            rw length-contents (ltb_of_lt r.count cap room) in
          let counted : fetch_add r.count ≡ suc r.count = omega (arith, room, v.cap_lt) in
          (
            record r {
              items = set r.items r.end x;
              end = (r.end + 1) % cap;
              count = fetch_add r.count;
            },
            rw
                (
                  test,
                  ==_ne r.count cap (omega (arith, room)),
                  write_in_range r.items r.end x (omega (arith, v.slots, end_in)),
                )
                refl,
            rw (test, counted)
                (ap (λ (e : ℕ). window d cap (set r.items e x) r.start (suc r.count)) v.end_eq
                  ∙ window-set d cap r.items r.start r.count x v.slots v.start_in room),
            record {
              slots = length-set r.items r.end x ∙ v.slots;
              cap_lt = v.cap_lt;
              start_in = v.start_in;
              count_in = omega (arith, counted, room);
              end_eq =
                  rw (counted, v.end_eq)
                    (next_end r.count ∙ ap (λ (k : ℕ). (r.start + k) % cap) (omega arith));
            },
          )
      | no full ↦
          let test : ltb (length (contents r)) cap ≡ false =
            rw length-contents (ltb_of_le r.count cap (omega (arith, full))) in
          (r, rw (test, ==_eq r.count cap (omega (arith, full, v.count_in))) refl, rw test refl, v)
    ]

    -- `pop_safe` on a valid buffer does not panic: it returns the oldest item and leaves the
    -- others in order, or it returns `None` and changes nothing if the buffer is empty.
    pub pop_safe_refines :
        (r' : SafeRingBuffer A) × (pop_safe cap r ≡ ret ((Queue.pop (contents r)).0, r'))
        × (contents r' ≡ (Queue.pop (contents r)).1)
        × IsValid r'
    unfolding pop_safe Queue.pop
    pop_safe_refines = elim (dec_lt 0 r.count) [
      | yes some_item ↦
          let split : contents r
              ≡ get_or r.items r.start d
                ∷ window d cap r.items ((r.start + 1) % cap) (fetch_sub r.count) =
            split_first some_item in
          (
            record r { start = (r.start + 1) % cap; count = fetch_sub r.count },
            rw
                (
                  split,
                  ==_ne r.count 0 (omega (arith, some_item)),
                  read_in_range r.items r.start d (omega (arith, v.slots, v.start_in)),
                )
                refl,
            rw split refl,
            record {
              slots = v.slots;
              cap_lt = v.cap_lt;
              start_in = omega (arith, v.start_in);
              count_in = omega (arith, v.count_in, v.cap_lt);
              end_eq =
                  v.end_eq
                  ∙ sym (next_start r.count some_item)
                  ∙ ap (λ (k : ℕ). ((r.start + 1) % cap + k) % cap)
                      (omega (arith, v.count_in, v.cap_lt));
            },
          )
      | no none_left ↦
          let e : r.count ≡ 0 = omega (arith, none_left) in
          let nothing : contents r ≡ [] = ap (window d cap r.items r.start) e in
          (r, rw (nothing, ==_eq r.count 0 e) refl, rw nothing refl, v)
    ]
