-- ===== src/Executor/Fetch.antt =====
-- `fetch`: the oldest id of the most urgent priority, a smaller number being more urgent.
use native.Mathlib.Decide.{ℕ_discrete}
use rust_root_task_demo.Common.{
  length-set, set-get_or_self, write_in_range, read_in_range, read, ret, get_or-set_ne,
  get_or-set_self, set, get_or, length, Bool-cases, ==_ne, ==_self, arith, [], List, some, none,
  Option, inr, inl, ap, sym, refl, ◌∙◌, if◌then◌else◌, ◌==◌, ◌∷◌, ◌⊎◌, ◌≡◌, ◌<◌, ℕ,
}
use rust_root_task_demo.Utils.BitMap64.{
  BitMap64, member, IsWord, with_clear, clear_in_range, member-with_clear, with_clear-IsWord,
}
use rust_root_task_demo.Utils.RingBuffer
use rust_root_task_demo.Utils.RingBuffer.{RingBuffer}
use rust_root_task_demo.Utils.RingBuffer.Laws.{
  advanced, advanced-IsValid, contents-advanced, length-contents, empty_iff,
}
use rust_root_task_demo.Utils.RingBuffer.Refine.{pop-some, pop-none}
use rust_root_task_demo.Coroutine.{Coroutine}
use rust_root_task_demo.Executor.{
  Executor, max_task_num, max_prio_num, fetch_at, fetch_popped, fetch_task, clear_if_empty,
}
use rust_root_task_demo.Executor.Invariant.{
  fresh_ring, IsRing, ring_size, ids_of, ring_of, waiting, task_of, WellFormed,
}

module _ {ℓ} {F : Type ℓ} where
  -- What `fetch_at` leaves when it returns the task of id `c` from the queue of `p`: that queue
  -- without its first id, its bit cleared if it is empty now, and nothing else changed.
  pub record Fetched (e : Executor F) (p c : ℕ) (rest : List ℕ) (e' : Executor F) : Type ℓ where
    pub queue : (q : ℕ) → waiting e' q ≡ (if p == q then rest else waiting e q)
    pub bit_left :
        (q : ℕ)
        → member e'.prio_bitmap q
          ≡ (if p == q then (if length rest == 0 then 0 else 1) else member e.prio_bitmap q)
    pub running : e'.current ≡ some c
    pub same_tasks : e'.tasks ≡ e.tasks
    pub same_num : e'.coroutine_num ≡ e.coroutine_num
    pub same_delays : e'.delay_wake_cids ≡ e.delay_wake_cids
    pub well_formed : WellFormed e'

  module _ (e : Executor F) (v : WellFormed e) (p : ℕ) (low : p < max_prio_num) where
    abbrev ring : RingBuffer ℕ
    ring = ring_of e p

    pub size_of_waiting : length (waiting e p) ≡ ring_size ring
    size_of_waiting = length-contents 0 max_task_num ring (v.rings p)

    read_ring : read e.ready_queue p ≡ ret ring
    read_ring = read_in_range e.ready_queue p fresh_ring (omega (arith, v.queues, low))

    -- An empty queue whose bit is set stops `fetch_at`, and nothing changes.
    pub fetch_at_empty : waiting e p ≡ [] → fetch_at e p ≡ ret (none, e)
    unfolding fetch_at fetch_popped
    fetch_at_empty none_left =
        let no_item : ring_size ring ≡ 0 = sym size_of_waiting ∙ ap length none_left in
        rw
          (
            read_ring,
            pop-none 0 max_task_num ring (v.rings p) no_item,
            write_in_range e.ready_queue p ring (omega (arith, v.queues, low)),
            set-get_or_self e.ready_queue p fresh_ring,
          )
          refl

    module _ (c : ℕ) (rest : List ℕ) (front : waiting e p ≡ c ∷ rest) where
      some_item : 0 < ring_size ring
      some_item = omega (arith, size_of_waiting, ap length front)

      same_mark : (q : ℕ) → p ≡ q → member e.prio_bitmap q ≡ 1
      same_mark q same = rw (← same) (v.marked p some_item)

      pub new_ring : RingBuffer ℕ
      new_ring = advanced 0 max_task_num ring (v.rings p)

      split : waiting e p ≡ get_or (ring_of e p).items (ring_of e p).start 0 ∷ ids_of new_ring
      unfolding new_ring
      split = contents-advanced 0 max_task_num ring (v.rings p) some_item

      pops : RingBuffer.pop max_task_num ring ≡ ret (some c, new_ring)
      unfolding new_ring
      pops =
          let head : get_or (ring_of e p).items (ring_of e p).start 0 ≡ c = cc (split, front) in
          rw (pop-some 0 max_task_num ring (v.rings p) some_item, head) refl

      rest-eq : ids_of new_ring ≡ rest
      rest-eq = cc (split, front)

      new_ring-IsRing : IsRing new_ring
      unfolding new_ring
      new_ring-IsRing = advanced-IsValid 0 max_task_num ring (v.rings p)

      size-new_ring : ring_size new_ring ≡ length rest
      size-new_ring =
          sym (length-contents 0 max_task_num new_ring new_ring-IsRing) ∙ ap length rest-eq

      -- The executor with the queue of `p` advanced.
      unfoldable pub popped : Executor F
      popped = record e { ready_queue = set e.ready_queue p new_ring }

      ring_of-popped : (q : ℕ) → ring_of popped q ≡ (if p == q then new_ring else ring_of e q)
      unfolding popped
      ring_of-popped q = elim (ℕ_discrete p q) [
        | yes same ↦
            rw (← same, ==_self p)
              (get_or-set_self e.ready_queue p new_ring fresh_ring (omega (arith, v.queues, low)))
        | no apart ↦
            rw (==_ne p q apart) (get_or-set_ne e.ready_queue p q new_ring fresh_ring apart)
      ]

      pub waiting-popped : (q : ℕ) → waiting popped q ≡ (if p == q then rest else waiting e q)
      waiting-popped q = elim (Bool-cases (p == q)) [
        | inl same ↦ rw (ring_of-popped q, same) rest-eq
        | inr apart ↦ rw (ring_of-popped q, apart) refl
      ]

      popped-rings : (q : ℕ) → IsRing (ring_of popped q)
      popped-rings q = elim (Bool-cases (p == q)) [
        | inl same ↦ rw (ring_of-popped q, same) new_ring-IsRing
        | inr apart ↦ rw (ring_of-popped q, apart) (v.rings q)
      ]

      size-popped :
          (q : ℕ)
          → ring_size (ring_of popped q) ≡ (if p == q then length rest else ring_size (ring_of e q))
      size-popped q = elim (Bool-cases (p == q)) [
        | inl same ↦ rw (ring_of-popped q, same) size-new_ring
        | inr apart ↦ rw (ring_of-popped q, apart) refl
      ]

      -- An id without a task is dropped, and `fetch_at` returns `None`. The bit stays as it is.
      pub fetch_at_stale : c < max_task_num → task_of e c ≡ none → fetch_at e p ≡ ret (none, popped)
      unfolding fetch_at fetch_popped fetch_task popped
      fetch_at_stale lt no_task =
          rw
            (
              read_ring,
              pops,
              write_in_range e.ready_queue p new_ring (omega (arith, v.queues, low)),
              read_in_range e.tasks c none (omega (arith, v.slots, lt)),
              no_task,
            )
            refl

      -- Popping leaves an executor well formed, with the bitmap as it is or without the bit of an
      -- emptied queue.
      pub popped-WellFormed :
          (bits : BitMap64) (cur : Option ℕ)
          → IsWord bits
          → ((q : ℕ)
              → member bits q ≡ member e.prio_bitmap q
                ⊎ ((member bits q ≡ 0) × (p ≡ q) × (length rest ≡ 0)))
          → WellFormed (record popped { prio_bitmap = bits; current = cur })
      unfolding popped
      popped-WellFormed bits cur word each = record {
        queues = length-set e.ready_queue p new_ring ∙ v.queues;
        rings = popped-rings;
        bits = word;
        high_bits = λ q h. omega (arith, each q, v.high_bits q h);
        slots = v.slots;
        task_prio = v.task_prio;
        task_cid = v.task_cid;
        marked = λ q h. elim (ℕ_discrete p q) [
          | yes same ↦ ground (arith, each q, size-popped q, h, same_mark q same)
          | no apart ↦ ground (arith, each q, size-popped q, h, v.marked q)
        ];
        delays = v.delays;
      }

      -- The bitmap after `fetch_at` has taken an id with a task.
      left_bits : BitMap64
      left_bits = if length rest == 0 then with_clear e.prio_bitmap p else e.prio_bitmap

      member-left_bits :
          (q : ℕ)
          → member left_bits q
            ≡ (if p == q then (if length rest == 0 then 0 else 1) else member e.prio_bitmap q)
      unfolding left_bits
      member-left_bits q = elim (ℕ_discrete p q) [
        | yes same ↦
            ground
              (arith, member-with_clear e.prio_bitmap p q (omega arith) v.bits, same_mark q same)
        | no apart ↦ ground (arith, member-with_clear e.prio_bitmap p q (omega arith) v.bits)
      ]

      left_bits-IsWord : IsWord left_bits
      unfolding left_bits
      left_bits-IsWord = elim (Bool-cases (length rest == 0)) [
        | inl none_left ↦ rw none_left (with_clear-IsWord e.prio_bitmap p (omega arith) v.bits)
        | inr some_left ↦ rw some_left v.bits
      ]

      abbrev after : Executor F
      after = record popped { prio_bitmap = left_bits; current = some c }

      clears : clear_if_empty (record popped { current = some c }) p new_ring ≡ ret after
      unfolding clear_if_empty left_bits popped
      clears =
          let test : RingBuffer.empty new_ring ≡ (length rest == 0) =
            empty_iff 0 max_task_num new_ring new_ring-IsRing
            ∙ ap (λ (n : ℕ). n == 0) size-new_ring in
          elim (Bool-cases (length rest == 0)) [
            | inl none_left ↦
                rw (test, none_left, clear_in_range e.prio_bitmap p (omega arith)) refl
            | inr some_left ↦ rw (test, some_left) refl
          ]

      -- An id with a task is taken off the queue, made current, and its task returned.
      pub fetch_at_runs :
          (t : Coroutine F)
          → c < max_task_num
          → task_of e c ≡ some t
          → (e' : Executor F) × (fetch_at e p ≡ ret (some t, e')) × Fetched e p c rest e'
      fetch_at_runs t lt found = (
        after,
        returns,
        record {
          queue = waiting-popped;
          bit_left = member-left_bits;
          running = refl;
          same_tasks = unfold popped in refl;
          same_num = unfold popped in refl;
          same_delays = unfold popped in refl;
          well_formed =
              popped-WellFormed left_bits (some c) left_bits-IsWord
                λ q. ground (arith, member-left_bits q, same_mark q);
        },
      )
        where
          returns : fetch_at e p ≡ ret (some t, after)
          returns =
              unfold fetch_at fetch_popped fetch_task popped in
              rw
                (
                  read_ring,
                  pops,
                  write_in_range e.ready_queue p new_ring (omega (arith, v.queues, low)),
                  read_in_range e.tasks c none (omega (arith, v.slots, lt)),
                  found,
                  clears,
                )
                refl
