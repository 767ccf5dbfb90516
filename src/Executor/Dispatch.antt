-- ===== src/Executor/Dispatch.antt =====
-- `fetch` of crates/example/async_runtime/src/executor.rs as a whole, in an executor whose
-- bits stand for queues that are not empty and whose waiting ids have tasks.
use native.Mathlib.Decide.{dec_lt, ℕ_discrete}
use rust_root_task_demo.Common.{
  length-append, false, true, ◌++◌, ◌+◌, refl, ◌≢◌, ==_ne, get_or, length, Bool-cases, arith, Bool,
  inr, inl, subst, ap, sym, ◌∙◌, if◌then◌else◌, ◌==◌, ret, Outcome, [], List, some, none, Option,
  ◌∷◌, ◌≡◌, ◌<◌, ℕ,
}
use rust_root_task_demo.Common.Words.{IsLowestOne}
use rust_root_task_demo.Utils.Window.{window}
use rust_root_task_demo.Utils.RingBuffer.Laws.{length-contents}
use rust_root_task_demo.Utils.BitMap64
use rust_root_task_demo.Utils.BitMap64.{member, member-new, find_first_one_lem}
use rust_root_task_demo.Coroutine.{Coroutine}
use rust_root_task_demo.Executor.{
  Executor, new, max_task_num, max_prio_num, actual_wake, fetch, fetch_at,
}
use rust_root_task_demo.Executor.Invariant.{
  new-waiting, ring_size, ring_of, waiting, task_of, WellFormed,
}
use rust_root_task_demo.Executor.Schedule.{Scheduled}
use rust_root_task_demo.Executor.Fetch.{Fetched, fetch_at_runs, size_of_waiting}

abbrev pub All {ℓ κ} : {A : Type ℓ} → (A → Type κ) → List A → Type κ
All P [] = Unit
All P (x ∷ xs) = P x × All P xs

pub All_append {ℓ} :
    (P : ℕ → Type ℓ) (xs : List ℕ) (c : ℕ) → All P xs → P c → All P (xs ++ (c ∷ []))
All_append P [] c h p = (p, tt)
All_append P (x ∷ xs) c (px, rest) p = (px, All_append P xs c rest p)

module _ {ℓ} {F : Type ℓ} where
  -- The id has a task.
  abbrev pub IsRegistered : Executor F → ℕ → Type ℓ
  IsRegistered e c = (c < max_task_num) × ((t : Coroutine F) × (task_of e c ≡ some t))

  -- Every bit stands for a queue that is not empty, and every waiting id has a task.
  pub record IsLive (e : Executor F) : Type ℓ where
    pub backed : (p : ℕ) → member e.prio_bitmap p ≡ 1 → 0 < ring_size (ring_of e p)
    pub registered : (p : ℕ) → All (IsRegistered e) (waiting e p)

  -- What `fetch` returns, given the executor after the delayed wakes.
  pub data Dispatches (e : Executor F) : Outcome (Option (Coroutine F) × Executor F) → Type ℓ where
    idle : ((p : ℕ) → waiting e p ≡ []) → Dispatches e (ret (none, e))
    runs :
        (p c : ℕ) (rest : List ℕ) (t : Coroutine F) (e' : Executor F)
        → p < max_prio_num
        → ((q : ℕ) → q < p → waiting e q ≡ [])
        → waiting e p ≡ c ∷ rest
        → task_of e c ≡ some t
        → Fetched e p c rest e'
        → IsLive e'
        → Dispatches e (ret (some t, e'))

  -- A new executor is live.
  pub new-IsLive : IsLive (new {F = F})
  unfolding new
  new-IsLive = record {
    backed = λ p h. absurd (omega (arith, h, member-new p));
    registered = λ p. subst (All (IsRegistered (new {F = F}))) (sym (new-waiting F p)) tt;
  }

  -- Queueing an id that has a task keeps an executor live.
  pub Scheduled-IsLive :
      (e e' : Executor F) (p c : ℕ)
      → IsLive e
      → IsRegistered e c
      → WellFormed e
      → Scheduled e p c e'
      → IsLive e'
  Scheduled-IsLive e e' p c live (lt, (t, found)) v s = record {
    backed = λ q h. elim (Bool-cases (p == q)) [
      | inl same ↦ ground (arith, sizes q same)
      | inr apart ↦
          subst (λ (n : ℕ). 0 < n) (sym (kept q apart))
            (live.backed q (
              sym (s.bit_set q ∙ ap (λ (b : Bool). if b then 1 else member e.prio_bitmap q) apart)
              ∙ h))
    ];
    registered = λ q. same_tasks (waiting e' q) (
        subst (All (IsRegistered e)) (sym (s.queue q)) (elim (Bool-cases (p == q)) [
          | inl same ↦
              rw same
                (All_append (IsRegistered e) (waiting e q) c (live.registered q) (lt, (t, found)))
          | inr apart ↦ rw apart (live.registered q)
        ]));
  }
    where
      sizes : (q : ℕ) → (p == q) ≡ true → ring_size (ring_of e' q) ≡ length (waiting e q) + 1
      sizes q same =
          sym (length-contents 0 max_task_num (ring_of e' q) (s.well_formed.rings q))
          ∙ ap length (s.queue q)
          ∙ ap (λ (b : Bool). length (if b then waiting e q ++ (c ∷ []) else waiting e q)) same
          ∙ length-append (waiting e q) (c ∷ [])

      kept : (q : ℕ) → (p == q) ≡ false → ring_size (ring_of e' q) ≡ ring_size (ring_of e q)
      kept q apart =
          sym (length-contents 0 max_task_num (ring_of e' q) (s.well_formed.rings q))
          ∙ ap length (s.queue q)
          ∙ ap (λ (b : Bool). length (if b then waiting e q ++ (c ∷ []) else waiting e q)) apart
          ∙ length-contents 0 max_task_num (ring_of e q) (v.rings q)

      same_tasks : (xs : List ℕ) → All (IsRegistered e) xs → All (IsRegistered e') xs
      same_tasks xs =
          subst
            (λ (ts : List (Option (Coroutine F))).
              All
                (λ (i : ℕ). (i < max_task_num) × ((t : Coroutine F) × (get_or ts i none ≡ some t)))
                xs)
            (sym s.same_tasks)

  module _ (e : Executor F) (v : WellFormed e) (live : IsLive e) where
    -- A queue without its bit is empty.
    unmarked_empty : (p : ℕ) → member e.prio_bitmap p ≡ 0 → waiting e p ≡ []
    unmarked_empty p clear =
        ap (λ (n : ℕ). window 0 max_task_num (ring_of e p).items (ring_of e p).start n) no_item
      where
        no_item : ring_size (ring_of e p) ≡ 0
        no_item = ground (arith, clear, v.marked p)

    module _ (p c : ℕ) (rest : List ℕ) (e' : Executor F) (front : waiting e p ≡ c ∷ rest)
        (f : Fetched e p c rest e') where
      sizes :
          (q : ℕ)
          → ring_size (ring_of e' q) ≡ (if p == q then length rest else ring_size (ring_of e q))
      sizes q = elim (Bool-cases (p == q)) [
        | inl same ↦ rw same (
            sym (length-contents 0 max_task_num (ring_of e' q) (f.well_formed.rings q))
            ∙ ap length (f.queue q)
            ∙ ap (λ (b : Bool). length (if b then rest else waiting e q)) same)
        | inr apart ↦ rw apart (
            sym (length-contents 0 max_task_num (ring_of e' q) (f.well_formed.rings q))
            ∙ ap length (f.queue q)
            ∙ ap (λ (b : Bool). length (if b then rest else waiting e q)) apart
            ∙ length-contents 0 max_task_num (ring_of e q) (v.rings q))
      ]

      same_registered : (xs : List ℕ) → All (IsRegistered e) xs → All (IsRegistered e') xs
      same_registered xs =
          subst
            (λ (ts : List (Option (Coroutine F))).
              All
                (λ (i : ℕ). (i < max_task_num) × ((t : Coroutine F) × (get_or ts i none ≡ some t)))
                xs)
            (sym f.same_tasks)

      rest_registered : All (IsRegistered e) rest
      rest_registered = (subst (All (IsRegistered e)) front (live.registered p)).1

      Fetched-IsLive : IsLive e'
      Fetched-IsLive = record {
        backed = λ q h. elim (Bool-cases (p == q)) [
          | inl same ↦ ground (arith, f.bit_left q, sizes q, h, same)
          | inr apart ↦ ground (arith, f.bit_left q, sizes q, h, apart, live.backed q)
        ];
        registered = λ q.
            subst (All (IsRegistered e')) (sym (f.queue q)) (elim (Bool-cases (p == q)) [
              | inl same ↦ rw same (same_registered rest rest_registered)
              | inr apart ↦ rw apart (same_registered (waiting e q) (live.registered q))
            ]);
      }

    -- At the priority the bitmap names.
    at_lowest :
        (p : ℕ)
        → p < max_prio_num
        → member e.prio_bitmap p ≡ 1
        → ((q : ℕ) → q < p → member e.prio_bitmap q ≡ 0)
        → (xs : List ℕ) → waiting e p ≡ xs
        → Dispatches e (fetch_at e p)
    at_lowest p low marked below [] front =
        absurd (omega (arith, live.backed p marked, size_of_waiting e v p low, ap length front))
    at_lowest p low marked below (c ∷ rest) front =
        let (lt, (t, found)) = (subst (All (IsRegistered e)) front (live.registered p)).0 in
        let (e', returns, f) = fetch_at_runs e v p low c rest front t lt found in
        subst (Dispatches e) (sym returns) (
          runs p c rest t e' low (λ q h. unmarked_empty q (below q h)) front found f
            (Fetched-IsLive p c rest e' front f))

  -- After the delayed wakes, in a well-formed executor whose bits all stand for queues that are not
  -- empty and whose waiting ids all have a task, `fetch` returns `None` exactly when no id waits,
  -- and otherwise the task of the oldest id of the smallest priority with a waiting id: the id is
  -- taken off its queue, made current, and the executor stays as described.
  pub fetch-Dispatches :
      (e₀ e : Executor F)
      → actual_wake e₀ ≡ ret e
      → WellFormed e
      → IsLive e
      → Dispatches e (fetch e₀)
  unfolding fetch
  fetch-Dispatches e₀ e woken v live =
      rw woken (elim (ℕ_discrete (BitMap64.find_first_one e.prio_bitmap) 64) [
        | yes none_set ↦ rw none_set (idle λ q. unmarked_empty e v live q (unmarked q none_set))
        | no some_set ↦
            let low = at_top some_set in
            rw (==_ne (BitMap64.find_first_one e.prio_bitmap) 64 some_set) (
              at_lowest e v live (BitMap64.find_first_one e.prio_bitmap) low
                (lowest.hit (omega (arith, low))) lowest.below
                (waiting e (BitMap64.find_first_one e.prio_bitmap)) refl)
      ])
    where
      lowest : IsLowestOne 64 e.prio_bitmap.word (BitMap64.find_first_one e.prio_bitmap)
      lowest = find_first_one_lem e.prio_bitmap

      unmarked : (q : ℕ) → (BitMap64.find_first_one e.prio_bitmap) ≡ 64 → member e.prio_bitmap q ≡ 0
      unmarked q none_set = elim (dec_lt q 64) [
        | yes lt ↦ lowest.below q (omega (arith, none_set))
        | no ge ↦ v.high_bits q (omega (arith, ge))
      ]

      at_top :
          (BitMap64.find_first_one e.prio_bitmap) ≢ 64
          → (BitMap64.find_first_one e.prio_bitmap) < max_prio_num
      at_top some_set =
          let in_word : (BitMap64.find_first_one e.prio_bitmap) < 64 =
            omega (arith, lowest.within, some_set) in
          elim (dec_lt (BitMap64.find_first_one e.prio_bitmap) max_prio_num) [
            | yes lt ↦ lt
            | no ge ↦ absurd (
                omega (
                  arith,
                  lowest.hit in_word,
                  v.high_bits (BitMap64.find_first_one e.prio_bitmap) (omega (arith, ge)),
                ))
          ]
