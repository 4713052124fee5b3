-- ===== src/Instr/Factory.antt =====
-- `struct InstructionFactory` of vp/src/core/common/instr.cpp, which encodes instructions. No
-- shift to the left loses a bit here, since its operand is masked first.
pub mod Laws
pub mod Operands
use riscv_vp.Base.{ℕ, ◌*◌, ◌/◌, ◌^◌, bit_and, bit_or}

infixl 20 ◌|||◌
abbrev ◌|||◌ : ℕ → ℕ → ℕ
a ||| b = bit_or a b

infixl 40 ◌<<◌ ◌>>◌
abbrev ◌<<◌ : ℕ → ℕ → ℕ
a << k = a * 2 ^ k

abbrev ◌>>◌ : ℕ → ℕ → ℕ
a >> k = a / 2 ^ k

infixl 30 ◌&◌
abbrev ◌&◌ : ℕ → ℕ → ℕ
a & b = bit_and a b

-- The operands of the instructions with three registers.
abbrev pub registers : ℕ → ℕ → ℕ → ℕ
registers rd rs1 rs2 = (rd & 0x1f) << 7 ||| (rs1 & 0x1f) << 15 ||| (rs2 & 0x1f) << 20

-- The operands of the instructions with an immediate, at the opcode and `funct3`.
abbrev pub i_type : ℕ → ℕ → ℕ → ℕ → ℕ → ℕ
i_type rd rs1 imm op f3 =
    (imm & 4095) << 20 ||| (rd & 0x1f) << 7 ||| (rs1 & 0x1f) << 15 ||| op ||| f3 << 12

abbrev pub s_type : ℕ → ℕ → ℕ → ℕ → ℕ → ℕ
s_type rs1 rs2 imm op f3 =
    ((imm & 0b11111) << 7 ||| (imm & (0b1111111 << 5)) << 20)
    ||| (rs1 & 0x1f) << 15
    ||| (rs2 & 0x1f) << 20
    ||| op
    ||| f3 << 12

abbrev pub b_type : ℕ → ℕ → ℕ → ℕ → ℕ
b_type rs1 rs2 imm f3 =
    (((imm & 0b11110) << 7 ||| (imm & (1 << 11)) >> 4)
      ||| ((imm & (0b111111 << 5)) << 20 ||| (imm & (1 << 12)) << 19))
    ||| (rs1 & 0x1f) << 15
    ||| (rs2 & 0x1f) << 20
    ||| 99
    ||| f3 << 12

abbrev pub shift_type : ℕ → ℕ → ℕ → ℕ → ℕ → ℕ
shift_type rd rs1 shamt f3 f7 =
    (rd & 0x1f) << 7 ||| (rs1 & 0x1f) << 15 ||| (shamt & 63) << 20 ||| 19 ||| f3 << 12 ||| f7 << 25

unfoldable pub add : ℕ → ℕ → ℕ → ℕ
add rd rs1 rs2 = registers rd rs1 rs2 ||| 51 ||| 0 << 12 ||| 0 << 25

unfoldable pub and : ℕ → ℕ → ℕ → ℕ
and rd rs1 rs2 = registers rd rs1 rs2 ||| 51 ||| 7 << 12 ||| 0 << 25

unfoldable pub or : ℕ → ℕ → ℕ → ℕ
or rd rs1 rs2 = registers rd rs1 rs2 ||| 51 ||| 6 << 12 ||| 0 << 25

unfoldable pub xor : ℕ → ℕ → ℕ → ℕ
xor rd rs1 rs2 = registers rd rs1 rs2 ||| 51 ||| 4 << 12 ||| 0 << 25

unfoldable pub sub : ℕ → ℕ → ℕ → ℕ
sub rd rs1 rs2 = registers rd rs1 rs2 ||| 51 ||| 0 << 12 ||| 32 << 25

unfoldable pub lw : ℕ → ℕ → ℕ → ℕ
lw rd rs1 imm = i_type rd rs1 imm 3 2

unfoldable pub ld : ℕ → ℕ → ℕ → ℕ
ld rd rs1 imm = i_type rd rs1 imm 3 3

unfoldable pub flw : ℕ → ℕ → ℕ → ℕ
flw rd rs1 imm = i_type rd rs1 imm 7 2

unfoldable pub fld : ℕ → ℕ → ℕ → ℕ
fld rd rs1 imm = i_type rd rs1 imm 7 3

unfoldable pub sw : ℕ → ℕ → ℕ → ℕ
sw rs1 rs2 imm = s_type rs1 rs2 imm 35 2

unfoldable pub sd : ℕ → ℕ → ℕ → ℕ
sd rs1 rs2 imm = s_type rs1 rs2 imm 35 3

unfoldable pub fsw : ℕ → ℕ → ℕ → ℕ
fsw rs1 rs2 imm = s_type rs1 rs2 imm 39 2

unfoldable pub fsd : ℕ → ℕ → ℕ → ℕ
fsd rs1 rs2 imm = s_type rs1 rs2 imm 39 3

unfoldable pub lui : ℕ → ℕ → ℕ
lui rd imm = (imm & (1048575 << 12)) ||| (rd & 0x1f) << 7 ||| 55

unfoldable pub addi : ℕ → ℕ → ℕ → ℕ
addi rd rs1 imm = i_type rd rs1 imm 19 0

unfoldable pub andi : ℕ → ℕ → ℕ → ℕ
andi rd rs1 imm = i_type rd rs1 imm 19 7

unfoldable pub srli : ℕ → ℕ → ℕ → ℕ
srli rd rs1 shamt = shift_type rd rs1 shamt 5 0

unfoldable pub srai : ℕ → ℕ → ℕ → ℕ
srai rd rs1 shamt = shift_type rd rs1 shamt 5 32

unfoldable pub slli : ℕ → ℕ → ℕ → ℕ
slli rd rs1 shamt = shift_type rd rs1 shamt 1 0

unfoldable pub jal : ℕ → ℕ → ℕ
jal rd imm =
    111
    ||| (rd & 0x1f) << 7
    ||| ((imm & (0b11111111 << 12))
        ||| (imm & (1 << 11)) << 9
        ||| (imm & 0b11111111110) << 20
        ||| (imm & (1 << 20)) << 11)

unfoldable pub jalr : ℕ → ℕ → ℕ → ℕ
jalr rd rs1 imm = i_type rd rs1 imm 103 0

unfoldable pub beq : ℕ → ℕ → ℕ → ℕ
beq rs1 rs2 imm = b_type rs1 rs2 imm 0

unfoldable pub bne : ℕ → ℕ → ℕ → ℕ
bne rs1 rs2 imm = b_type rs1 rs2 imm 1

unfoldable pub ebreak : ℕ
ebreak = 1048691

unfoldable pub addw : ℕ → ℕ → ℕ → ℕ
addw rd rs1 rs2 = registers rd rs1 rs2 ||| 0x3b

unfoldable pub subw : ℕ → ℕ → ℕ → ℕ
subw rd rs1 rs2 = registers rd rs1 rs2 ||| 0x3b ||| 0x40000000
