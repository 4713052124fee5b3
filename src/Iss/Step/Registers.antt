-- ===== src/Iss/Step/Registers.antt =====
-- The register file and the alignment checks (`RegFile` and `ISS` of vp/src/core/rv32/iss.h).
use riscv_vp.Base.{ℕ, ◌%◌, ◌||◌, ◌==◌, if◌then◌else◌}
use riscv_vp.Instr.Fields.{rd}
use riscv_vp.Iss.State.{has_extension, isa_c}
use riscv_vp.Iss.Exec.{Exec, pure, raise, gets, modify, require, ◌>>=◌, ◌>>◌}

module _ {M : Type 0} where
  unfoldable pub read_reg : ℕ → Exec M ℕ
  read_reg index = gets (λ h. h.regs index)

  -- `regs[instr.rd()] = value`.
  unfoldable pub write_rd : ℕ → ℕ → Exec M (Unit {0})
  write_rd i value =
      modify (λ h. record h { regs = λ index. if index == rd i then value else h.regs index })

  -- `trap_check_addr_alignment`, with the exception that is raised.
  unfoldable pub check_alignment : ℕ → ℕ → ℕ → Exec M (Unit {0})
  check_alignment alignment exception addr =
      if addr % alignment == 0 then pure tt else raise exception addr

  -- `trap_check_pc_alignment`.
  unfoldable pub check_pc_alignment : Exec M (Unit {0})
  check_pc_alignment = do
    pc ← gets (λ h. h.iss.pc)
    require (pc % 2 == 0)
    compressed ← gets (λ h. has_extension h.iss.misa isa_c)
    if (pc % 4 == 0) || compressed then pure tt else raise 0 pc
