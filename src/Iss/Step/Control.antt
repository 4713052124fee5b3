-- ===== src/Iss/Step/Control.antt =====
-- Jumps and branches of `ISS::exec_step` (vp/src/core/rv32/iss.cpp).
use riscv_vp.Base.{ℕ, ◌-◌, ◌^◌, Bool, not, ltb, ◌==◌, bit_and}
use riscv_vp.Instr.Mapping.{Mapping, jal, jalr, beq, bne, blt, bge, bltu, bgeu}
use riscv_vp.Instr.Fields.{rs1, rs2, i_imm, j_imm, b_imm}
use riscv_vp.Iss.Alu.{add32, less}
use riscv_vp.Iss.Exec.{Exec, gets, modify, when, ◌>>=◌, ◌>>◌}
use riscv_vp.Iss.Step.Registers.{read_reg, write_rd, check_pc_alignment}

module _ {M : Type 0} where
  -- `pc = …; trap_check_pc_alignment();`
  unfoldable pub jump : ℕ → Exec M (Unit {0})
  jump target = do modify (λ h. record h { iss = record h.iss { pc = target } }); check_pc_alignment

  unfoldable pub branch : (ℕ → ℕ → Bool) → ℕ → Exec M (Unit {0})
  branch test i = do
    a ← read_reg (rs1 i)
    b ← read_reg (rs2 i)
    last_pc ← gets (λ h. h.iss.last_pc)
    when (test a b) (jump (add32 last_pc (b_imm i)))

  unfoldable pub jump_and_link : ℕ → Exec M (Unit {0})
  jump_and_link i = do
    link ← gets (λ h. h.iss.pc)
    last_pc ← gets (λ h. h.iss.last_pc)
    jump (add32 last_pc (j_imm i))
    write_rd i link

  unfoldable pub jump_register : ℕ → Exec M (Unit {0})
  jump_register i = do
    link ← gets (λ h. h.iss.pc)
    a ← read_reg (rs1 i)
    jump (bit_and (add32 a (i_imm i)) (2 ^ 32 - 1 - 1))
    write_rd i link

  -- The cases JAL, JALR and the branches.
  unfoldable pub control : Mapping → ℕ → Exec M (Unit {0}) → Exec M (Unit {0})
  control jal i rest = jump_and_link i
  control jalr i rest = jump_register i
  control beq i rest = branch (λ a b. a == b) i
  control bne i rest = branch (λ a b. not (a == b)) i
  control blt i rest = branch (λ a b. less a b) i
  control bge i rest = branch (λ a b. not (less a b)) i
  control bltu i rest = branch (λ a b. ltb a b) i
  control bgeu i rest = branch (λ a b. not (ltb a b)) i
  control _ i rest = rest
