-- ===== src/Instr/Compressed/Opcode.antt =====
-- The compressed instructions (`Compressed::Opcode` of vp/src/core/common/instr.cpp).

pub data CompressedOpcode : Type 0 where
  c_illegal c_reserved c_addi4spn c_fld c_lq c_lw c_flw c_ld c_fsd c_sq : CompressedOpcode
  c_sw c_fsw c_sd c_nop c_addi c_jal c_addiw c_li c_addi16sp c_lui c_srli : CompressedOpcode
  c_srai c_andi c_sub c_xor c_or c_and c_subw c_addw c_j c_beqz c_bnez : CompressedOpcode
  c_slli c_fldsp c_lqsp c_lwsp c_flwsp c_ldsp c_jr c_mv c_ebreak c_jalr : CompressedOpcode
  c_add c_fsdsp c_sqsp c_swsp c_fswsp c_sdsp : CompressedOpcode
