-- ===== src/Iss/Step/System.antt =====
-- System calls and CSR instructions of `ISS::exec_step` (vp/src/core/rv32/iss.cpp).
use riscv_vp.Base.{
  ℕ, Bool, true, ◌||◌, not, ◌==◌, if◌then◌else◌, Option, none, some, bit_and, bit_or,
}
use riscv_vp.Instr.Mapping.{Mapping, ecall, csrrw, csrrs, csrrc, csrrwi, csrrsi, csrrci}
use riscv_vp.Instr.Fields.{rd, rs1, csr, zimm}
use riscv_vp.Iss.State.{machine_mode, supervisor_mode, user_mode}
use riscv_vp.Iss.Alu.{not32}
use riscv_vp.Iss.Hart.{Environment}
use riscv_vp.Iss.Exec.{Exec, raise, fail, gets, consult, modify, when, ◌>>=◌, ◌>>◌}
use riscv_vp.Iss.Csr.Read.{illegal_instruction, is_invalid_csr_access, get_csr_value}
use riscv_vp.Iss.Csr.Write.{set_csr_value}
use riscv_vp.Iss.Step.Registers.{read_reg, write_rd}

module _ {M : Type 0} where
  unfoldable pub ecall_trap : ℕ → ℕ → Exec M (Unit {0})
  ecall_trap prv last_pc =
      if prv == machine_mode
      then raise 11 last_pc
      else if prv == supervisor_mode
      then raise 9 last_pc
      else if prv == user_mode
      then raise 8 last_pc
      else fail

  unfoldable pub raise_ecall : Exec M (Unit {0})
  raise_ecall = do
    prv ← gets (λ h. h.iss.prv)
    last_pc ← gets (λ h. h.iss.last_pc)
    ecall_trap prv last_pc

  unfoldable pub emulate : ((ℕ → ℕ) → M → ((ℕ → ℕ) × Bool) × M) → Exec M (Unit {0})
  emulate syscall = do
    regs ← gets (λ h. h.regs)
    r ← consult (syscall regs)
    modify (λ h. record h { regs = r.0; shall_exit = r.1 || h.shall_exit })

  -- Without an emulator of system calls a trap.
  unfoldable pub call_environment : Option ((ℕ → ℕ) → M → ((ℕ → ℕ) × Bool) × M) → Exec M (Unit {0})
  call_environment none = raise_ecall
  call_environment (some syscall) = emulate syscall

module _ {M : Type 0} (env : Environment M) where
  unfoldable pub environment_call : Exec M (Unit {0})
  environment_call = call_environment env.execute_syscall

  -- The case ECALL.
  unfoldable pub system_call : Mapping → ℕ → Exec M (Unit {0}) → Exec M (Unit {0})
  system_call ecall i rest = environment_call
  system_call _ i rest = rest

  -- CSRRW and CSRRWI with the value to write: a read only if there is a destination.
  unfoldable pub csr_write : ℕ → ℕ → Exec M (Unit {0})
  csr_write value i = do
    when (not (rd i == 0)) do v ← get_csr_value env (csr i); write_rd i v
    set_csr_value (csr i) value

  -- CSRRS, CSRRC and their immediate forms: a write only if `write`.
  unfoldable pub csr_modify : (ℕ → ℕ) → Bool → ℕ → Exec M (Unit {0})
  csr_modify f write i = do
    v ← get_csr_value env (csr i)
    when (not (rd i == 0)) (write_rd i v)
    when write (set_csr_value (csr i) (f v))

  unfoldable pub csr_write_register : ℕ → Exec M (Unit {0})
  csr_write_register i = do a ← read_reg (rs1 i); csr_write a i

  unfoldable pub csr_modify_register : (ℕ → ℕ → ℕ) → ℕ → Exec M (Unit {0})
  csr_modify_register f i = do a ← read_reg (rs1 i); csr_modify (λ v. f v a) (not (rs1 i == 0)) i

  -- The guard of the six instructions.
  unfoldable pub guarded : Bool → ℕ → Exec M (Unit {0}) → Exec M (Unit {0})
  guarded write i body = do
    invalid ← is_invalid_csr_access (csr i) write
    if invalid then illegal_instruction else body

  -- The cases of the Zicsr extension.
  unfoldable pub csr_instruction : Mapping → ℕ → Exec M (Unit {0}) → Exec M (Unit {0})
  csr_instruction csrrw i rest = guarded true i (csr_write_register i)
  csr_instruction csrrs i rest =
      guarded (not (rs1 i == 0)) i (csr_modify_register (λ v a. bit_or v a) i)
  csr_instruction csrrc i rest =
      guarded (not (rs1 i == 0)) i (csr_modify_register (λ v a. bit_and v (not32 a)) i)
  csr_instruction csrrwi i rest = guarded true i (csr_write (zimm i) i)
  csr_instruction csrrsi i rest =
      guarded (not (zimm i == 0)) i (csr_modify (λ v. bit_or v (zimm i)) (not (zimm i == 0)) i)
  csr_instruction csrrci i rest =
      guarded (not (zimm i == 0)) i
        (csr_modify (λ v. bit_and v (not32 (zimm i))) (not (zimm i == 0)) i)
  csr_instruction _ i rest = rest
