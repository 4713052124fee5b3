-- ===== src/Iss/Step/Privileged.antt =====
-- Privileged instructions of `ISS::exec_step` (vp/src/core/rv32/iss.cpp).
use riscv_vp.Base.{ℕ, Bool, ◌&&◌, ◌||◌, not, ◌==◌, bit_and}
use riscv_vp.Instr.Mapping.{Mapping, undef, ebreak, uret, sret, mret, wfi, sfence_vma}
use riscv_vp.Iss.State.{machine_mode, supervisor_mode, user_mode, has_extension, isa_s, isa_u}
use riscv_vp.Iss.Trap.{release_lr_sc_reservation, return_from_trap_handler}
use riscv_vp.Iss.Hart.{Hart, Environment, hit_breakpoint}
use riscv_vp.Iss.Exec.{Exec, gets, consult, or_fail, modify, when, ◌>>=◌, ◌>>◌}
use riscv_vp.Iss.Csr.Read.{illegal_instruction}

abbrev pub in_mode : ℕ → Hart → Bool
in_mode mode h = h.iss.prv == mode

module _ {M : Type 0} where
  -- `return_from_trap_handler` as an action.
  unfoldable pub return_from : ℕ → Exec M (Unit {0})
  return_from mode = do
    returned ← gets (λ h. return_from_trap_handler mode h.iss)
    iss ← or_fail returned
    modify (λ h. record h { iss = iss })

  unfoldable pub user_return : Exec M (Unit {0})
  user_return = do
    present ← gets (λ h. has_extension h.iss.misa isa_u)
    when (not present) illegal_instruction
    return_from user_mode

  unfoldable pub supervisor_return : Exec M (Unit {0})
  supervisor_return = do
    denied ←
        gets λ h.
          not (has_extension h.iss.misa isa_s) || in_mode supervisor_mode h && h.iss.mstatus.tsr
    when denied illegal_instruction
    return_from supervisor_mode

module _ {M : Type 0} (env : Environment M) where
  unfoldable pub wait_for_interrupt : Exec M (Unit {0})
  wait_for_interrupt = do
    modify (λ h. record h { iss = release_lr_sc_reservation h.iss })
    tw ← gets (λ h. in_mode supervisor_mode h && h.iss.mstatus.tw)
    when tw illegal_instruction
    user ← gets (λ h. in_mode user_mode h && has_extension h.iss.misa isa_s)
    when user illegal_instruction
    ready ← gets (λ h. h.ignore_wfi || not (bit_and h.iss.mie h.iss.mip == 0))
    when (not ready) do
      mip ← gets (λ h. h.iss.mip)
      mip' ← consult (env.wait_for_event mip)
      modify (λ h. record h { iss = record h.iss { mip = mip' } })

  unfoldable pub fence_translation : Exec M (Unit {0})
  fence_translation = do
    tvm ← gets (λ h. in_mode supervisor_mode h && h.iss.mstatus.tvm)
    when tvm illegal_instruction
    flushed ← consult (λ m. (env.flush_tlb m, m))
    m ← or_fail flushed
    consult (λ _. (tt, m))

  -- The privileged instructions, EBREAK, and UNDEF.
  unfoldable pub privileged : Mapping → ℕ → Exec M (Unit {0}) → Exec M (Unit {0})
  privileged undef i rest = illegal_instruction
  privileged ebreak i rest = modify (λ h. record h { status = hit_breakpoint })
  privileged wfi i rest = wait_for_interrupt
  privileged sfence_vma i rest = fence_translation
  privileged uret i rest = user_return
  privileged sret i rest = supervisor_return
  privileged mret i rest = return_from machine_mode
  privileged _ i rest = rest
