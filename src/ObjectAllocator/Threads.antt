-- ===== src/ObjectAllocator/Threads.antt =====
-- `create_thread` and `create_many_threads` of crates/example/src/object_allocator.rs. The kernel's
-- calls on threads, the heap and the slot of a frame of the user image are parameters.
use rust_root_task_demo.Common.{
  assert, unwrap_ok, panic, ret, Outcome, err, ok, Result, length, ltb, [], List, Bool, ◌>>◌, ◌>>=◌,
  if◌then◌else◌, ◌==◌, ◌∷◌, ◌^◌, ◌/◌, ◌*◌, ◌-◌, ◌+◌, ℕ,
}
use rust_root_task_demo.ImageUtils.{round_down}
use rust_root_task_demo.ObjectAllocator.{
  ObjectBlueprint, ObjectAllocator, alloc_tcb, alloc_ep, alloc_many_tcb, alloc_many_ep,
}

-- The registers of a `UserContext` that are written
pub record UserContext : Type 0 where
  pub tp : ℕ
  pub pc : ℕ
  pub sp : ℕ
  pub s0 : ℕ
  pub s1 : ℕ
  pub gp : ℕ
  pub a0 : ℕ
  pub a1 : ℕ

-- What is called of the kernel, for a type `C` of its states, and of the heap, for a type `H`. The
-- registers of a thread are a context; a thread is configured with an endpoint, the address of its
-- IPC buffer and the slot of the frame there. `alloc_zeroed` takes a size; its null is 0.
pub record Threads (C H : Type 0) : Type 0 where
  pub size_of : ObjectBlueprint → ℕ
  pub retype : ℕ → ObjectBlueprint → ℕ → ℕ → Result (Unit {0})
  pub endpoint_bits : ℕ
  pub tcb_bits : ℕ
  pub frame_slot : ℕ → Outcome ℕ
  pub alloc_zeroed : H → ℕ → ℕ × H
  pub tcb_configure : C → ℕ → ℕ → ℕ → ℕ → Result C
  pub tcb_set_sched_params : C → ℕ → ℕ → Result C
  pub tcb_read_registers : C → ℕ → Result UserContext
  pub tcb_write_all_registers : C → ℕ → UserContext → Result C
  pub tcb_set_affinity : C → ℕ → ℕ → Result C
  pub tcb_resume : C → ℕ → Result C

-- The state that a creation changes
pub record State (C H : Type 0) : Type 0 where
  pub allocator : ObjectAllocator
  pub kernel : C
  pub heap : H

-- What a thread is created with
pub record ThreadArgs : Type 0 where
  pub func : ℕ
  pub prio : ℕ
  pub affinity : ℕ
  pub resume : Bool
  pub gp : ℕ  -- the register of the creating thread

-- `tp`, for the top of the stack and half of its size
unfoldable pub thread_pointer : ℕ → ℕ → ℕ
thread_pointer raw_sp half = round_down (raw_sp - half) (2 ^ 12)

-- The context of the new thread
unfoldable pub new_context : ThreadArgs → UserContext → ℕ → ℕ → ℕ → UserContext
new_context t user_context tp arg ipc_buffer_addr = record user_context {
  tp = tp;
  pc = t.func;
  sp = round_down tp 16;
  s0 = 0;
  s1 = 0;
  gp = t.gp;
  a0 = arg;
  a1 = ipc_buffer_addr;
}

module _ {C H : Type 0} (calls : Threads C H) where
  -- `alloc_zeroed`, or a panic on null
  unfoldable pub alloc_pages : ℕ → State C H → Outcome (ℕ × State C H)
  alloc_pages size s =
      let (ptr, heap) = calls.alloc_zeroed s.heap size in
      if ptr == 0 then panic else ret (ptr, record s { heap = heap })

  -- A kernel call that changes its state; the rest is left out when it fails.
  attempt :
      State C H
      → Result C
      → (State C H → Outcome (Result ℕ × State C H))
      → Outcome (Result ℕ × State C H)
  attempt s err rest = ret (err, s)
  attempt s (ok kernel) rest = rest (record s { kernel = kernel })

  finish : ThreadArgs → ℕ → State C H → Outcome (Result ℕ × State C H)
  unfolding attempt
  finish t tcb s = attempt s (calls.tcb_set_affinity s.kernel tcb t.affinity) λ s'.
      if t.resume
      then attempt s' (calls.tcb_resume s'.kernel tcb) (λ s''. ret (ok tcb, s''))
      else ret (ok tcb, s')

  start_with :
      ThreadArgs → ℕ → ℕ → ℕ → ℕ → State C H → Result UserContext → Outcome (Result ℕ × State C H)
  unfolding attempt finish
  start_with t stack tcb arg ipc_buffer_addr s err = ret (err, s)
  start_with t stack tcb arg ipc_buffer_addr s (ok user_context) = do
    (ptr, s') ← alloc_pages stack s
    let tp = thread_pointer (ptr + stack) (stack / 2)
    attempt s'
        (calls.tcb_write_all_registers s'.kernel tcb
          (new_context t user_context tp arg ipc_buffer_addr))
        (finish t tcb)

  -- What both functions do with a thread and an endpoint, for a stack of `stack` bytes
  unfoldable pub start_thread :
      ThreadArgs → ℕ → ℕ → ℕ → ℕ → ℕ → ℕ → State C H → Outcome (Result ℕ × State C H)
  unfolding attempt start_with
  start_thread t stack arg ipc_buffer_addr ipc_buffer_cap tcb ep s =
      attempt s (calls.tcb_configure s.kernel tcb ep ipc_buffer_addr ipc_buffer_cap) λ s₁.
        attempt s₁ (calls.tcb_set_sched_params s₁.kernel tcb t.prio) λ s₂.
          start_with t stack tcb arg ipc_buffer_addr s₂ (calls.tcb_read_registers s₂.kernel tcb)

  with_endpoint : ThreadArgs → ℕ → ℕ → ℕ → ℕ → State C H → Result ℕ → Outcome (Result ℕ × State C H)
  with_endpoint t arg ipc_buffer_addr ipc_buffer_cap tcb s err = ret (err, s)
  with_endpoint t arg ipc_buffer_addr ipc_buffer_cap tcb s (ok ep) =
      start_thread t (4096 * 256) arg ipc_buffer_addr ipc_buffer_cap tcb ep s

  with_tcb : ThreadArgs → ℕ → ℕ → ℕ → State C H → Result ℕ → Outcome (Result ℕ × State C H)
  unfolding with_endpoint
  with_tcb t arg ipc_buffer_addr ipc_buffer_cap s err = ret (err, s)
  with_tcb t arg ipc_buffer_addr ipc_buffer_cap s (ok tcb) = do
    (ep, allocator) ← alloc_ep calls.size_of calls.retype s.allocator
    with_endpoint t arg ipc_buffer_addr ipc_buffer_cap tcb (record s { allocator = allocator }) ep

  unfoldable pub create_thread : ThreadArgs → ℕ → State C H → Outcome (Result ℕ × State C H)
  unfolding with_tcb
  create_thread t arg s = do
    (ipc_buffer_addr, s₁) ← alloc_pages 4096 s
    ipc_buffer_cap ← calls.frame_slot ipc_buffer_addr
    (tcb, allocator) ← alloc_tcb calls.size_of calls.retype s₁.allocator
    with_tcb t arg ipc_buffer_addr ipc_buffer_cap (record s₁ { allocator = allocator }) tcb

  -- The loop of `create_many_threads`, where every call is unwrapped
  unfoldable pub start_threads :
      ThreadArgs → List ℕ → List ℕ → List ℕ → State C H → Outcome (State C H)
  start_threads t [] tcbs eps s = ret s
  start_threads t (arg ∷ args) [] eps s = panic
  start_threads t (arg ∷ args) (tcb ∷ tcbs) [] s = panic
  start_threads t (arg ∷ args) (tcb ∷ tcbs) (ep ∷ eps) s = do
    (ipc_buffer_addr, s₁) ← alloc_pages 4096 s
    ipc_buffer_cap ← calls.frame_slot ipc_buffer_addr
    (res, s₂) ← start_thread t (4096 * 64) arg ipc_buffer_addr ipc_buffer_cap tcb ep s₁
    _ ← unwrap_ok res
    start_threads t args tcbs eps s₂

  unfoldable pub create_many_threads :
      ℕ → ThreadArgs → List ℕ → State C H → Outcome (List ℕ × State C H)
  create_many_threads cnt_bits t args s = do
    assert (ltb cnt_bits 64)
    assert (length args == 2 ^ cnt_bits)
    (eps, a₁) ← alloc_many_ep calls.size_of calls.retype calls.endpoint_bits cnt_bits s.allocator
    (tcbs, a₂) ← alloc_many_tcb calls.size_of calls.retype calls.tcb_bits cnt_bits a₁
    s' ← start_threads t args tcbs eps (record s { allocator = a₂ })
    ret (tcbs, s')
