-- ===== src/Iss/Step/Multiplication.antt =====
-- The M extension in `ISS::exec_step` (vp/src/core/rv32/iss.cpp).
use riscv_vp.Base.{ℕ}
use riscv_vp.Instr.Mapping.{Mapping}
use riscv_vp.Instr.Fields.{rs1, rs2}
use riscv_vp.Iss.State.{isa_m}
use riscv_vp.Iss.Exec.{Exec, ◌>>=◌, ◌>>◌}
use riscv_vp.Iss.Csr.Read.{require_isa}
use riscv_vp.Iss.Step.Registers.{read_reg, write_rd}
use riscv_vp.Iss.Alu

module _ {M : Type 0} where
  -- `regs[rd] = f(regs[rs1], regs[rs2])`, if there is the M extension.
  unfoldable pub multiply_or_divide : (ℕ → ℕ → ℕ) → ℕ → Exec M (Unit {0})
  multiply_or_divide f i = do
    require_isa isa_m
    a ← read_reg (rs1 i)
    b ← read_reg (rs2 i)
    write_rd i (f a b)

  -- The cases of the M extension.
  unfoldable pub multiplication : Mapping → ℕ → Exec M (Unit {0}) → Exec M (Unit {0})
  multiplication Mapping.mul i rest = multiply_or_divide Alu.mul i
  multiplication Mapping.mulh i rest = multiply_or_divide Alu.mulh i
  multiplication Mapping.mulhu i rest = multiply_or_divide Alu.mulhu i
  multiplication Mapping.mulhsu i rest = multiply_or_divide Alu.mulhsu i
  multiplication Mapping.div i rest = multiply_or_divide Alu.div i
  multiplication Mapping.divu i rest = multiply_or_divide Alu.divu i
  multiplication Mapping.rem i rest = multiply_or_divide Alu.rem i
  multiplication Mapping.remu i rest = multiply_or_divide Alu.remu i
  multiplication _ i rest = rest
