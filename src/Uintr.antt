-- ===== src/Uintr.antt =====
-- crates/example/uintr/src/lib.rs: the registers of user interrupts, as numbers, and the entry of
-- their handler. The saved frame of the interrupted code is left out: only the assembly uses it.
use rust_root_task_demo.Common.{ret, Outcome, err, ok, Result, ◌>>=◌, ℕ}
use rust_root_task_demo.Common.Words.{clear_bit, set_bit}

abbrev pub irq_u_soft : ℕ
irq_u_soft = 0

-- The registers of a hart: the pending interrupts that `uipi_read` and `uipi_write` see, and the
-- bits of the registers `uip`, `uie` and `ustatus`, the vector `utvec` and the handler `uscratch`
pub record Hart : Type 0 where
  pub pending : ℕ
  pub uip : ℕ
  pub uie : ℕ
  pub ustatus : ℕ
  pub utvec : ℕ
  pub uscratch : ℕ

-- `clear_csr_uip(MIE_USIE)`
unfoldable pub clear_csr_uip : Hart → Hart
clear_csr_uip hart = record hart { uip = clear_bit 64 hart.uip irq_u_soft }

-- `__handler_entry`, for a handler that changes a state `W`
unfoldable pub handler_entry {ℓ} :
    {W : Type ℓ} → (W → ℕ → Outcome (ℕ × W)) → Hart → W → Outcome (Hart × W)
handler_entry handler_func hart w = do
  let irqs = hart.pending
  (left, w') ← handler_func w irqs
  ret (record (clear_csr_uip hart) { pending = left }, w')

-- `register_receiver`, with the kernel's answer, and the address of `uintrvec`
unfoldable pub register_receiver : Result (Unit {0}) → ℕ → ℕ → Hart → Result (Unit {0}) × Hart
register_receiver answer uintrvec handler hart = (
  answer,
  record hart {
    utvec = uintrvec;
    uscratch = handler;
    ustatus = set_bit hart.ustatus 0;
    uie = set_bit hart.uie irq_u_soft;
  },
)

-- `register_sender`, with the kernel's answer, and the flag that it leaves in the IPC buffer
unfoldable pub register_sender : Result (Unit {0}) → ℕ → Result ℕ
register_sender err uintr_flag = err
register_sender (ok _) uintr_flag = ok uintr_flag
