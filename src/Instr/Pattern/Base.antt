-- ===== src/Instr/Pattern/Base.antt =====
-- The masks and encodings of RV32IMA, Zicsr and the privileged instructions (vp/src/core/common/instr.cpp).
use riscv_vp.Base.{Option, none, some}
use riscv_vp.Instr.Mapping.{
  Mapping, lui, auipc, jal, jalr, beq, bne, blt, bge, bltu, bgeu, lb, lh, lw, lbu, lhu, sb, sh, sw,
  addi, slti, sltiu, xori, ori, andi, slli, srli, srai, add, sub, sll, slt, sltu, xor, srl, sra, or,
  and, fence, ecall, ebreak, fence_i, csrrw, csrrs, csrrc, csrrwi, csrrsi, csrrci, mul, mulh,
  mulhsu, mulhu, div, divu, rem, remu, lr_w, sc_w, amoswap_w, amoadd_w, amoxor_w, amoand_w, amoor_w,
  amomin_w, amomax_w, amominu_w, amomaxu_w, uret, sret, mret, wfi, sfence_vma, Architecture, rv32,
}
use riscv_vp.Instr.Pattern.Record.{Pattern}

unfoldable pub base_pattern : Mapping → Architecture → Option Pattern
base_pattern lui _ = some (record {
  mask = 0b00000000000000000000000001111111;
  encoding = 0b00000000000000000000000000110111;
})
base_pattern auipc _ = some (record {
  mask = 0b00000000000000000000000001111111;
  encoding = 0b00000000000000000000000000010111;
})
base_pattern jal _ = some (record {
  mask = 0b00000000000000000000000001111111;
  encoding = 0b00000000000000000000000001101111;
})
base_pattern jalr _ = some (record {
  mask = 0b00000000000000000111000001111111;
  encoding = 0b00000000000000000000000001100111;
})
base_pattern beq _ = some (record {
  mask = 0b00000000000000000111000001111111;
  encoding = 0b00000000000000000000000001100011;
})
base_pattern bne _ = some (record {
  mask = 0b00000000000000000111000001111111;
  encoding = 0b00000000000000000001000001100011;
})
base_pattern blt _ = some (record {
  mask = 0b00000000000000000111000001111111;
  encoding = 0b00000000000000000100000001100011;
})
base_pattern bge _ = some (record {
  mask = 0b00000000000000000111000001111111;
  encoding = 0b00000000000000000101000001100011;
})
base_pattern bltu _ = some (record {
  mask = 0b00000000000000000111000001111111;
  encoding = 0b00000000000000000110000001100011;
})
base_pattern bgeu _ = some (record {
  mask = 0b00000000000000000111000001111111;
  encoding = 0b00000000000000000111000001100011;
})
base_pattern lb _ = some (record {
  mask = 0b00000000000000000111000001111111;
  encoding = 0b00000000000000000000000000000011;
})
base_pattern lh _ = some (record {
  mask = 0b00000000000000000111000001111111;
  encoding = 0b00000000000000000001000000000011;
})
base_pattern lw _ = some (record {
  mask = 0b00000000000000000111000001111111;
  encoding = 0b00000000000000000010000000000011;
})
base_pattern lbu _ = some (record {
  mask = 0b00000000000000000111000001111111;
  encoding = 0b00000000000000000100000000000011;
})
base_pattern lhu _ = some (record {
  mask = 0b00000000000000000111000001111111;
  encoding = 0b00000000000000000101000000000011;
})
base_pattern sb _ = some (record {
  mask = 0b00000000000000000111000001111111;
  encoding = 0b00000000000000000000000000100011;
})
base_pattern sh _ = some (record {
  mask = 0b00000000000000000111000001111111;
  encoding = 0b00000000000000000001000000100011;
})
base_pattern sw _ = some (record {
  mask = 0b00000000000000000111000001111111;
  encoding = 0b00000000000000000010000000100011;
})
base_pattern addi _ = some (record {
  mask = 0b00000000000000000111000001111111;
  encoding = 0b00000000000000000000000000010011;
})
base_pattern slti _ = some (record {
  mask = 0b00000000000000000111000001111111;
  encoding = 0b00000000000000000010000000010011;
})
base_pattern sltiu _ = some (record {
  mask = 0b00000000000000000111000001111111;
  encoding = 0b00000000000000000011000000010011;
})
base_pattern xori _ = some (record {
  mask = 0b00000000000000000111000001111111;
  encoding = 0b00000000000000000100000000010011;
})
base_pattern ori _ = some (record {
  mask = 0b00000000000000000111000001111111;
  encoding = 0b00000000000000000110000000010011;
})
base_pattern andi _ = some (record {
  mask = 0b00000000000000000111000001111111;
  encoding = 0b00000000000000000111000000010011;
})
base_pattern slli rv32 = some (record {
  mask = 0b11111110000000000111000001111111;
  encoding = 0b00000000000000000001000000010011;
})
base_pattern slli _ = some (record {
  mask = 0b11111100000000000111000001111111;
  encoding = 0b00000000000000000001000000010011;
})
base_pattern srli rv32 = some (record {
  mask = 0b11111110000000000111000001111111;
  encoding = 0b00000000000000000101000000010011;
})
base_pattern srli _ = some (record {
  mask = 0b11111100000000000111000001111111;
  encoding = 0b00000000000000000101000000010011;
})
base_pattern srai rv32 = some (record {
  mask = 0b11111110000000000111000001111111;
  encoding = 0b01000000000000000101000000010011;
})
base_pattern srai _ = some (record {
  mask = 0b11111100000000000111000001111111;
  encoding = 0b01000000000000000101000000010011;
})
base_pattern add _ = some (record {
  mask = 0b11111110000000000111000001111111;
  encoding = 0b00000000000000000000000000110011;
})
base_pattern sub _ = some (record {
  mask = 0b11111110000000000111000001111111;
  encoding = 0b01000000000000000000000000110011;
})
base_pattern sll _ = some (record {
  mask = 0b11111110000000000111000001111111;
  encoding = 0b00000000000000000001000000110011;
})
base_pattern slt _ = some (record {
  mask = 0b11111110000000000111000001111111;
  encoding = 0b00000000000000000010000000110011;
})
base_pattern sltu _ = some (record {
  mask = 0b11111110000000000111000001111111;
  encoding = 0b00000000000000000011000000110011;
})
base_pattern xor _ = some (record {
  mask = 0b11111110000000000111000001111111;
  encoding = 0b00000000000000000100000000110011;
})
base_pattern srl _ = some (record {
  mask = 0b11111110000000000111000001111111;
  encoding = 0b00000000000000000101000000110011;
})
base_pattern sra _ = some (record {
  mask = 0b11111110000000000111000001111111;
  encoding = 0b01000000000000000101000000110011;
})
base_pattern or _ = some (record {
  mask = 0b11111110000000000111000001111111;
  encoding = 0b00000000000000000110000000110011;
})
base_pattern and _ = some (record {
  mask = 0b11111110000000000111000001111111;
  encoding = 0b00000000000000000111000000110011;
})
base_pattern fence _ = some (record {
  mask = 0b00000000000000000111000001111111;
  encoding = 0b00000000000000000000000000001111;
})
base_pattern ecall _ = some (record {
  mask = 0b11111111111111111111111111111111;
  encoding = 0b00000000000000000000000001110011;
})
base_pattern ebreak _ = some (record {
  mask = 0b11111111111111111111111111111111;
  encoding = 0b00000000000100000000000001110011;
})
base_pattern fence_i _ = some (record {
  mask = 0b00000000000000000111000001111111;
  encoding = 0b00000000000000000001000000001111;
})
base_pattern csrrw _ = some (record {
  mask = 0b00000000000000000111000001111111;
  encoding = 0b00000000000000000001000001110011;
})
base_pattern csrrs _ = some (record {
  mask = 0b00000000000000000111000001111111;
  encoding = 0b00000000000000000010000001110011;
})
base_pattern csrrc _ = some (record {
  mask = 0b00000000000000000111000001111111;
  encoding = 0b00000000000000000011000001110011;
})
base_pattern csrrwi _ = some (record {
  mask = 0b00000000000000000111000001111111;
  encoding = 0b00000000000000000101000001110011;
})
base_pattern csrrsi _ = some (record {
  mask = 0b00000000000000000111000001111111;
  encoding = 0b00000000000000000110000001110011;
})
base_pattern csrrci _ = some (record {
  mask = 0b00000000000000000111000001111111;
  encoding = 0b00000000000000000111000001110011;
})
base_pattern mul _ = some (record {
  mask = 0b11111110000000000111000001111111;
  encoding = 0b00000010000000000000000000110011;
})
base_pattern mulh _ = some (record {
  mask = 0b11111110000000000111000001111111;
  encoding = 0b00000010000000000001000000110011;
})
base_pattern mulhsu _ = some (record {
  mask = 0b11111110000000000111000001111111;
  encoding = 0b00000010000000000010000000110011;
})
base_pattern mulhu _ = some (record {
  mask = 0b11111110000000000111000001111111;
  encoding = 0b00000010000000000011000000110011;
})
base_pattern div _ = some (record {
  mask = 0b11111110000000000111000001111111;
  encoding = 0b00000010000000000100000000110011;
})
base_pattern divu _ = some (record {
  mask = 0b11111110000000000111000001111111;
  encoding = 0b00000010000000000101000000110011;
})
base_pattern rem _ = some (record {
  mask = 0b11111110000000000111000001111111;
  encoding = 0b00000010000000000110000000110011;
})
base_pattern remu _ = some (record {
  mask = 0b11111110000000000111000001111111;
  encoding = 0b00000010000000000111000000110011;
})
base_pattern lr_w _ = some (record {
  mask = 0b11111001111100000111000001111111;
  encoding = 0b00010000000000000010000000101111;
})
base_pattern sc_w _ = some (record {
  mask = 0b11111000000000000111000001111111;
  encoding = 0b00011000000000000010000000101111;
})
base_pattern amoswap_w _ = some (record {
  mask = 0b11111000000000000111000001111111;
  encoding = 0b00001000000000000010000000101111;
})
base_pattern amoadd_w _ = some (record {
  mask = 0b11111000000000000111000001111111;
  encoding = 0b00000000000000000010000000101111;
})
base_pattern amoxor_w _ = some (record {
  mask = 0b11111000000000000111000001111111;
  encoding = 0b00100000000000000010000000101111;
})
base_pattern amoand_w _ = some (record {
  mask = 0b11111000000000000111000001111111;
  encoding = 0b01100000000000000010000000101111;
})
base_pattern amoor_w _ = some (record {
  mask = 0b11111000000000000111000001111111;
  encoding = 0b01000000000000000010000000101111;
})
base_pattern amomin_w _ = some (record {
  mask = 0b11111000000000000111000001111111;
  encoding = 0b10000000000000000010000000101111;
})
base_pattern amomax_w _ = some (record {
  mask = 0b11111000000000000111000001111111;
  encoding = 0b10100000000000000010000000101111;
})
base_pattern amominu_w _ = some (record {
  mask = 0b11111000000000000111000001111111;
  encoding = 0b11000000000000000010000000101111;
})
base_pattern amomaxu_w _ = some (record {
  mask = 0b11111000000000000111000001111111;
  encoding = 0b11100000000000000010000000101111;
})
base_pattern uret _ = some (record {
  mask = 0b11111111111111111111111111111111;
  encoding = 0b00000000001000000000000001110011;
})
base_pattern sret _ = some (record {
  mask = 0b11111111111111111111111111111111;
  encoding = 0b00010000001000000000000001110011;
})
base_pattern mret _ = some (record {
  mask = 0b11111111111111111111111111111111;
  encoding = 0b00110000001000000000000001110011;
})
base_pattern wfi _ = some (record {
  mask = 0b11111111111111111111111111111111;
  encoding = 0b00010000010100000000000001110011;
})
base_pattern sfence_vma _ = some (record {
  mask = 0b11111110000000000111111111111111;
  encoding = 0b00010010000000000000000001110011;
})
base_pattern _ _ = none
