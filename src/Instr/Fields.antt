-- ===== src/Instr/Fields.antt =====
-- The fields of an instruction word (`struct Instruction` of vp/src/core/common/instr.h). The
-- member `instr` is an `int32_t`; a model of it is its bit pattern.
use riscv_vp.Base.{ℕ, bit_or, bit_range, bit_single, shr, sar32, shl32}

unfoldable pub opcode : ℕ → ℕ
opcode i = bit_range i 6 0

unfoldable pub rd : ℕ → ℕ
rd i = shr (bit_range i 11 7) 7

unfoldable pub funct3 : ℕ → ℕ
funct3 i = shr (bit_range i 14 12) 12

unfoldable pub rs1 : ℕ → ℕ
rs1 i = shr (bit_range i 19 15) 15

unfoldable pub rs2 : ℕ → ℕ
rs2 i = shr (bit_range i 24 20) 20

unfoldable pub shamt : ℕ → ℕ
shamt i = shr (bit_range i 25 20) 20

unfoldable pub funct2 : ℕ → ℕ
funct2 i = shr (bit_range i 26 25) 25

unfoldable pub funct5 : ℕ → ℕ
funct5 i = shr (bit_range i 31 27) 27

unfoldable pub funct6 : ℕ → ℕ
funct6 i = shr (bit_range i 31 26) 26

unfoldable pub funct7 : ℕ → ℕ
funct7 i = shr (bit_range i 31 25) 25

unfoldable pub funct12 : ℕ → ℕ
funct12 i = shr (bit_range i 31 20) 20

unfoldable pub i_imm : ℕ → ℕ
i_imm i = sar32 (bit_range i 31 20) 20

unfoldable pub s_imm : ℕ → ℕ
s_imm i = bit_or (sar32 (bit_range i 31 25) 20) (shr (bit_range i 11 7) 7)

unfoldable pub u_imm : ℕ → ℕ
u_imm i = bit_range i 31 12

unfoldable pub j_imm : ℕ → ℕ
j_imm i =
    bit_or
      (bit_or (bit_or (sar32 (bit_single i 31) 11) (bit_range i 19 12)) (shr (bit_single i 20) 9))
      (shr (bit_range i 30 21) 20)

unfoldable pub b_imm : ℕ → ℕ
b_imm i =
    bit_or
      (bit_or (bit_or (sar32 (bit_single i 31) 19) (shl32 (bit_single i 7) 4))
        (shr (bit_range i 30 25) 20))
      (shr (bit_range i 11 8) 7)

unfoldable pub csr : ℕ → ℕ
csr i = shr (bit_range i 31 20) 20

unfoldable pub zimm : ℕ → ℕ
zimm i = shr (bit_range i 19 15) 15

unfoldable pub rs3 : ℕ → ℕ
rs3 i = shr (bit_range i 31 27) 27

unfoldable pub frm : ℕ → ℕ
frm i = shr (bit_range i 14 12) 12
