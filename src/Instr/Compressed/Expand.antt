-- ===== src/Instr/Compressed/Expand.antt =====
-- `expand_compressed` of vp/src/core/common/instr.cpp: the word of the expanded instruction, and
-- what it is. `(i, undef)` leaves the word as it was.
use riscv_vp.Base.{ℕ, ◌&&◌, Bool, true, false, ltb, ◌==◌, if◌then◌else◌}
use riscv_vp.Instr.Mapping.{
  Mapping, Architecture, rv32, rv64, rv128, add, addi, addiw, addw, and, andi, beq, bne, ebreak,
  fld, flw, fsd, fsw, jal, jalr, ld, lui, lw, or, sd, slli, srai, srli, sub, subw, sw, undef, xor,
}
use riscv_vp.Instr.Factory
use riscv_vp.Instr.Compressed.Opcode.{
  CompressedOpcode, c_illegal, c_lq, c_lqsp, c_sq, c_sqsp, c_reserved, c_nop, c_add, c_mv, c_and,
  c_or, c_xor, c_sub, c_addw, c_subw, c_lw, c_ld, c_flw, c_fld, c_sw, c_sd, c_fsw, c_fsd,
  c_addi4spn, c_addi, c_jal, c_addiw, c_li, c_addi16sp, c_lui, c_slli, c_srli, c_srai, c_andi, c_j,
  c_beqz, c_bnez, c_lwsp, c_ldsp, c_flwsp, c_fldsp, c_swsp, c_sdsp, c_fswsp, c_fsdsp, c_ebreak,
  c_jr, c_jalr,
}
use riscv_vp.Instr.Compressed.Fields.{
  c_addi16sp_nzimm, c_addi4spn_nzuimm, c_branch_imm, c_imm, c_j_imm, c_jal_imm, c_ld_uimm,
  c_ldsp_uimm, c_lui_nzimm, c_lw_uimm, c_lwsp_uimm, c_rd, c_rd_small, c_rs2, c_rs2_small, c_sd_uimm,
  c_sdsp_uimm, c_sw_uimm, c_swsp_uimm, c_uimm,
}

abbrev pub is_rv32 : Architecture → Bool
is_rv32 rv32 = true
is_rv32 rv64 = false
is_rv32 rv128 = false

unfoldable pub expand_compressed : Architecture → CompressedOpcode → ℕ → ℕ × Mapping
expand_compressed a c_illegal i = (i, undef)
expand_compressed a c_lq i = (i, undef)
expand_compressed a c_lqsp i = (i, undef)
expand_compressed a c_sq i = (i, undef)
expand_compressed a c_sqsp i = (i, undef)
expand_compressed a c_reserved i = (i, undef)
expand_compressed a c_nop i = (Factory.add 0 0 0, add)
expand_compressed a c_add i = (Factory.add (c_rd i) (c_rd i) (c_rs2 i), add)
expand_compressed a c_mv i = (Factory.add (c_rd i) 0 (c_rs2 i), add)
expand_compressed a c_and i = (Factory.and (c_rd_small i) (c_rd_small i) (c_rs2_small i), and)
expand_compressed a c_or i = (Factory.or (c_rd_small i) (c_rd_small i) (c_rs2_small i), or)
expand_compressed a c_xor i = (Factory.xor (c_rd_small i) (c_rd_small i) (c_rs2_small i), xor)
expand_compressed a c_sub i = (Factory.sub (c_rd_small i) (c_rd_small i) (c_rs2_small i), sub)
expand_compressed a c_addw i = (Factory.addw (c_rd_small i) (c_rd_small i) (c_rs2_small i), addw)
expand_compressed a c_subw i = (Factory.subw (c_rd_small i) (c_rd_small i) (c_rs2_small i), subw)
expand_compressed a c_lw i = (Factory.lw (c_rs2_small i) (c_rd_small i) (c_lw_uimm i), lw)
expand_compressed a c_ld i = (Factory.ld (c_rs2_small i) (c_rd_small i) (c_ld_uimm i), ld)
expand_compressed a c_flw i = (Factory.flw (c_rs2_small i) (c_rd_small i) (c_lw_uimm i), flw)
expand_compressed a c_fld i = (Factory.fld (c_rs2_small i) (c_rd_small i) (c_ld_uimm i), fld)
expand_compressed a c_sw i = (Factory.sw (c_rd_small i) (c_rs2_small i) (c_sw_uimm i), sw)
expand_compressed a c_sd i = (Factory.sd (c_rd_small i) (c_rs2_small i) (c_sd_uimm i), sd)
expand_compressed a c_fsw i = (Factory.fsw (c_rd_small i) (c_rs2_small i) (c_sw_uimm i), fsw)
expand_compressed a c_fsd i = (Factory.fsd (c_rd_small i) (c_rs2_small i) (c_sd_uimm i), fsd)
expand_compressed a c_addi4spn i =
    let n = c_addi4spn_nzuimm i in
    if n == 0 then (i, undef) else (Factory.addi (c_rs2_small i) 2 n, addi)
expand_compressed a c_addi i = (Factory.addi (c_rd i) (c_rd i) (c_imm i), addi)
expand_compressed a c_jal i = (Factory.jal 1 (c_jal_imm i), jal)
expand_compressed a c_addiw i =
    if c_rd i == 0 then (i, undef) else (Factory.addi (c_rd i) (c_rd i) (c_imm i), addiw)
expand_compressed a c_li i = (Factory.addi (c_rd i) 0 (c_imm i), addi)
expand_compressed a c_addi16sp i =
    let n = c_addi16sp_nzimm i in if n == 0 then (i, undef) else (Factory.addi 2 2 n, addi)
expand_compressed a c_lui i =
    let n = c_lui_nzimm i in if n == 0 then (i, undef) else (Factory.lui (c_rd i) n, lui)
expand_compressed a c_slli i =
    let n = c_uimm i in
    if is_rv32 a && ltb 31 n then (i, undef) else (Factory.slli (c_rd i) (c_rd i) n, slli)
expand_compressed a c_srli i =
    let n = c_uimm i in
    if is_rv32 a && ltb 31 n
    then (i, undef)
    else (Factory.srli (c_rd_small i) (c_rd_small i) n, srli)
expand_compressed a c_srai i =
    let n = c_uimm i in
    if is_rv32 a && ltb 31 n
    then (i, undef)
    else (Factory.srai (c_rd_small i) (c_rd_small i) n, srai)
expand_compressed a c_andi i = (Factory.andi (c_rd_small i) (c_rd_small i) (c_imm i), andi)
expand_compressed a c_j i = (Factory.jal 0 (c_j_imm i), jal)
expand_compressed a c_beqz i = (Factory.beq (c_rd_small i) 0 (c_branch_imm i), beq)
expand_compressed a c_bnez i = (Factory.bne (c_rd_small i) 0 (c_branch_imm i), bne)
expand_compressed a c_lwsp i =
    if c_rd i == 0 then (i, undef) else (Factory.lw (c_rd i) 2 (c_lwsp_uimm i), lw)
expand_compressed a c_ldsp i =
    if c_rd i == 0 then (i, undef) else (Factory.ld (c_rd i) 2 (c_ldsp_uimm i), ld)
expand_compressed a c_flwsp i = (Factory.flw (c_rd i) 2 (c_lwsp_uimm i), flw)
expand_compressed a c_fldsp i = (Factory.fld (c_rd i) 2 (c_ldsp_uimm i), fld)
expand_compressed a c_swsp i = (Factory.sw 2 (c_rs2 i) (c_swsp_uimm i), sw)
expand_compressed a c_sdsp i = (Factory.sd 2 (c_rs2 i) (c_sdsp_uimm i), sd)
expand_compressed a c_fswsp i = (Factory.fsw 2 (c_rs2 i) (c_swsp_uimm i), fsw)
expand_compressed a c_fsdsp i = (Factory.fsd 2 (c_rs2 i) (c_sdsp_uimm i), fsd)
expand_compressed a c_ebreak i = (Factory.ebreak, ebreak)
expand_compressed a c_jr i = if c_rd i == 0 then (i, undef) else (Factory.jalr 0 (c_rd i) 0, jalr)
expand_compressed a c_jalr i = (Factory.jalr 1 (c_rd i) 0, jalr)
