-- ===== src/Iss/Step/Integer.antt =====
-- The integer instructions of `ISS::exec_step` (vp/src/core/rv32/iss.cpp).
use riscv_vp.Base.{ℕ, ltb, bit_and, bit_or, bit_xor, bit_range, shl32, shr, sar32}
use riscv_vp.Instr.Mapping.{
  Mapping, lui, auipc, addi, slti, sltiu, xori, ori, andi, slli, srli, srai, add, sub, sll, slt,
  sltu, xor, srl, sra, or, and,
}
use riscv_vp.Instr.Fields.{rs1, rs2, shamt, i_imm, u_imm}
use riscv_vp.Iss.Alu.{add32, sub32, flag, less}
use riscv_vp.Iss.Exec.{Exec, gets, ◌>>=◌}
use riscv_vp.Iss.Step.Registers.{read_reg, write_rd}

module _ {M : Type 0} where
  -- `regs[rd] = f(regs[rs1])`.
  unfoldable pub unary : (ℕ → ℕ) → ℕ → Exec M (Unit {0})
  unary f i = do a ← read_reg (rs1 i); write_rd i (f a)

  -- `regs[rd] = f(regs[rs1], regs[rs2])`.
  unfoldable pub binary : (ℕ → ℕ → ℕ) → ℕ → Exec M (Unit {0})
  binary f i = do a ← read_reg (rs1 i); b ← read_reg (rs2 i); write_rd i (f a b)

  unfoldable pub add_upper_to_pc : ℕ → Exec M (Unit {0})
  add_upper_to_pc i = do last_pc ← gets (λ h. h.iss.last_pc); write_rd i (add32 last_pc (u_imm i))

  -- The cases from ADDI to AUIPC; any other instruction goes on to the rest of the `switch`.
  unfoldable pub integer : Mapping → ℕ → Exec M (Unit {0}) → Exec M (Unit {0})
  integer addi i rest = unary (λ a. add32 a (i_imm i)) i
  integer slti i rest = unary (λ a. flag (less a (i_imm i))) i
  integer sltiu i rest = unary (λ a. flag (ltb a (i_imm i))) i
  integer xori i rest = unary (λ a. bit_xor a (i_imm i)) i
  integer ori i rest = unary (λ a. bit_or a (i_imm i)) i
  integer andi i rest = unary (λ a. bit_and a (i_imm i)) i
  integer add i rest = binary (λ a b. add32 a b) i
  integer sub i rest = binary (λ a b. sub32 a b) i
  integer sll i rest = binary (λ a b. shl32 a (bit_range b 4 0)) i
  integer slt i rest = binary (λ a b. flag (less a b)) i
  integer sltu i rest = binary (λ a b. flag (ltb a b)) i
  integer srl i rest = binary (λ a b. shr a (bit_range b 4 0)) i
  integer sra i rest = binary (λ a b. sar32 a (bit_range b 4 0)) i
  integer xor i rest = binary (λ a b. bit_xor a b) i
  integer or i rest = binary (λ a b. bit_or a b) i
  integer and i rest = binary (λ a b. bit_and a b) i
  integer slli i rest = unary (λ a. shl32 a (shamt i)) i
  integer srli i rest = unary (λ a. shr a (shamt i)) i
  integer srai i rest = unary (λ a. sar32 a (shamt i)) i
  integer lui i rest = write_rd i (u_imm i)
  integer auipc i rest = add_upper_to_pc i
  integer _ i rest = rest
