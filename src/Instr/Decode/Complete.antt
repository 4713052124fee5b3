-- ===== src/Instr/Decode/Complete.antt =====
-- A word that fits the pattern of an instruction is decoded as that instruction.
use riscv_vp.Base.{ℕ, ◌≡◌, refl, arith, switch}
use riscv_vp.Instr.Mapping.{
  Mapping, Architecture, rv32, rv64, rv128, undef, lui, auipc, jal, jalr, beq, bne, blt, bge, bltu,
  bgeu, lb, lh, lw, lbu, lhu, sb, sh, sw, addi, slti, sltiu, xori, ori, andi, slli, srli, srai, add,
  sub, sll, slt, sltu, xor, srl, sra, or, and, fence, ecall, ebreak, fence_i, csrrw, csrrs, csrrc,
  csrrwi, csrrsi, csrrci, mul, mulh, mulhsu, mulhu, div, divu, rem, remu, lr_w, sc_w, amoswap_w,
  amoadd_w, amoxor_w, amoand_w, amoor_w, amomin_w, amomax_w, amominu_w, amomaxu_w, lwu, ld, sd,
  addiw, slliw, srliw, sraiw, addw, subw, sllw, srlw, sraw, mulw, divw, divuw, remw, remuw, lr_d,
  sc_d, amoswap_d, amoadd_d, amoxor_d, amoand_d, amoor_d, amomin_d, amomax_d, amominu_d, amomaxu_d,
  flw, fsw, fmadd_s, fmsub_s, fnmadd_s, fnmsub_s, fadd_s, fsub_s, fmul_s, fdiv_s, fsqrt_s, fsgnj_s,
  fsgnjn_s, fsgnjx_s, fmin_s, fmax_s, fcvt_w_s, fcvt_wu_s, fmv_x_w, feq_s, flt_s, fle_s, fclass_s,
  fcvt_s_w, fcvt_s_wu, fmv_w_x, fcvt_l_s, fcvt_lu_s, fcvt_s_l, fcvt_s_lu, fld, fsd, fmadd_d,
  fmsub_d, fnmsub_d, fnmadd_d, fadd_d, fsub_d, fmul_d, fdiv_d, fsqrt_d, fsgnj_d, fsgnjn_d, fsgnjx_d,
  fmin_d, fmax_d, fcvt_s_d, fcvt_d_s, feq_d, flt_d, fle_d, fclass_d, fcvt_w_d, fcvt_wu_d, fcvt_d_w,
  fcvt_d_wu, fcvt_l_d, fcvt_lu_d, fmv_x_d, fcvt_d_l, fcvt_d_lu, fmv_d_x, uret, sret, mret, wfi,
  sfence_vma,
}
use riscv_vp.Instr.Pattern.{pattern_of, Fits}
use riscv_vp.Instr.Decode.{decode_normal}
use riscv_vp.Instr.Decode.Integer.{
  decode_branch, decode_load, decode_store, decode_op_imm, decode_op_imm_w, decode_op, decode_op_w,
}
use riscv_vp.Instr.Decode.System.{decode_fence, decode_system, decode_amo}
use riscv_vp.Instr.Decode.Float.{
  decode_fmadd, decode_op_fp, decode_load_fp, decode_store_fp, decode_fmsub, decode_fnmsub,
  decode_fnmadd,
}
use riscv_vp.Instr.Decode.Facts.{
  funct12_fact as f12, funct2_fact as f2, funct3_fact as f3, funct5_fact as f5, funct6_fact as f6,
  funct7_fact as f7, opcode_fact as op, rs2_fact as r2, check_found as found, funct12-of_funct7,
}

pub decode-of_Fits :
    (m : Mapping) (a : Architecture) (i : ℕ) → Fits (pattern_of m a) i → decode_normal a i ≡ m
unfolding switch decode_normal decode_branch decode_load decode_store decode_op_imm decode_op_imm_w
    decode_op decode_op_w decode_fence decode_system decode_amo decode_fmadd decode_op_fp
    decode_load_fp decode_store_fp decode_fmsub decode_fnmsub decode_fnmadd pattern_of
decode-of_Fits undef a i h = absurd h
decode-of_Fits lui a i h = rw (op i _ _ h refl, decode_normal) (found lui a i h)
decode-of_Fits auipc a i h = rw (op i _ _ h refl, decode_normal) (found auipc a i h)
decode-of_Fits jal a i h = rw (op i _ _ h refl, decode_normal) (found jal a i h)
decode-of_Fits jalr a i h = rw (op i _ _ h refl, decode_normal) (found jalr a i h)
decode-of_Fits beq a i h =
    rw (op i _ _ h refl, f3 i _ _ h refl, decode_normal, decode_branch) (found beq a i h)
decode-of_Fits bne a i h =
    rw (op i _ _ h refl, f3 i _ _ h refl, decode_normal, decode_branch) (found bne a i h)
decode-of_Fits blt a i h =
    rw (op i _ _ h refl, f3 i _ _ h refl, decode_normal, decode_branch) (found blt a i h)
decode-of_Fits bge a i h =
    rw (op i _ _ h refl, f3 i _ _ h refl, decode_normal, decode_branch) (found bge a i h)
decode-of_Fits bltu a i h =
    rw (op i _ _ h refl, f3 i _ _ h refl, decode_normal, decode_branch) (found bltu a i h)
decode-of_Fits bgeu a i h =
    rw (op i _ _ h refl, f3 i _ _ h refl, decode_normal, decode_branch) (found bgeu a i h)
decode-of_Fits lb a i h =
    rw (op i _ _ h refl, f3 i _ _ h refl, decode_normal, decode_load) (found lb a i h)
decode-of_Fits lh a i h =
    rw (op i _ _ h refl, f3 i _ _ h refl, decode_normal, decode_load) (found lh a i h)
decode-of_Fits lw a i h =
    rw (op i _ _ h refl, f3 i _ _ h refl, decode_normal, decode_load) (found lw a i h)
decode-of_Fits lbu a i h =
    rw (op i _ _ h refl, f3 i _ _ h refl, decode_normal, decode_load) (found lbu a i h)
decode-of_Fits lhu a i h =
    rw (op i _ _ h refl, f3 i _ _ h refl, decode_normal, decode_load) (found lhu a i h)
decode-of_Fits sb a i h =
    rw (op i _ _ h refl, f3 i _ _ h refl, decode_normal, decode_store) (found sb a i h)
decode-of_Fits sh a i h =
    rw (op i _ _ h refl, f3 i _ _ h refl, decode_normal, decode_store) (found sh a i h)
decode-of_Fits sw a i h =
    rw (op i _ _ h refl, f3 i _ _ h refl, decode_normal, decode_store) (found sw a i h)
decode-of_Fits addi a i h =
    rw (op i _ _ h refl, f3 i _ _ h refl, decode_normal, decode_op_imm) (found addi a i h)
decode-of_Fits slti a i h =
    rw (op i _ _ h refl, f3 i _ _ h refl, decode_normal, decode_op_imm) (found slti a i h)
decode-of_Fits sltiu a i h =
    rw (op i _ _ h refl, f3 i _ _ h refl, decode_normal, decode_op_imm) (found sltiu a i h)
decode-of_Fits xori a i h =
    rw (op i _ _ h refl, f3 i _ _ h refl, decode_normal, decode_op_imm) (found xori a i h)
decode-of_Fits ori a i h =
    rw (op i _ _ h refl, f3 i _ _ h refl, decode_normal, decode_op_imm) (found ori a i h)
decode-of_Fits andi a i h =
    rw (op i _ _ h refl, f3 i _ _ h refl, decode_normal, decode_op_imm) (found andi a i h)
decode-of_Fits slli rv32 i h =
    rw (op i _ _ h refl, f3 i _ _ h refl, decode_normal, decode_op_imm) (found slli rv32 i h)
decode-of_Fits slli rv64 i h =
    rw (op i _ _ h refl, f3 i _ _ h refl, decode_normal, decode_op_imm) (found slli rv64 i h)
decode-of_Fits slli rv128 i h =
    rw (op i _ _ h refl, f3 i _ _ h refl, decode_normal, decode_op_imm) (found slli rv128 i h)
decode-of_Fits srli rv32 i h =
    rw (op i _ _ h refl, f3 i _ _ h refl, f6 i _ _ h refl, decode_normal, decode_op_imm)
      (found srli rv32 i h)
decode-of_Fits srli rv64 i h =
    rw (op i _ _ h refl, f3 i _ _ h refl, f6 i _ _ h refl, decode_normal, decode_op_imm)
      (found srli rv64 i h)
decode-of_Fits srli rv128 i h =
    rw (op i _ _ h refl, f3 i _ _ h refl, f6 i _ _ h refl, decode_normal, decode_op_imm)
      (found srli rv128 i h)
decode-of_Fits srai rv32 i h =
    rw (op i _ _ h refl, f3 i _ _ h refl, f6 i _ _ h refl, decode_normal, decode_op_imm)
      (found srai rv32 i h)
decode-of_Fits srai rv64 i h =
    rw (op i _ _ h refl, f3 i _ _ h refl, f6 i _ _ h refl, decode_normal, decode_op_imm)
      (found srai rv64 i h)
decode-of_Fits srai rv128 i h =
    rw (op i _ _ h refl, f3 i _ _ h refl, f6 i _ _ h refl, decode_normal, decode_op_imm)
      (found srai rv128 i h)
decode-of_Fits add a i h =
    rw (op i _ _ h refl, f7 i _ _ h refl, f3 i _ _ h refl, decode_normal, decode_op)
      (found add a i h)
decode-of_Fits sub a i h =
    rw (op i _ _ h refl, f7 i _ _ h refl, f3 i _ _ h refl, decode_normal, decode_op)
      (found sub a i h)
decode-of_Fits sll a i h =
    rw (op i _ _ h refl, f7 i _ _ h refl, f3 i _ _ h refl, decode_normal, decode_op)
      (found sll a i h)
decode-of_Fits slt a i h =
    rw (op i _ _ h refl, f7 i _ _ h refl, f3 i _ _ h refl, decode_normal, decode_op)
      (found slt a i h)
decode-of_Fits sltu a i h =
    rw (op i _ _ h refl, f7 i _ _ h refl, f3 i _ _ h refl, decode_normal, decode_op)
      (found sltu a i h)
decode-of_Fits xor a i h =
    rw (op i _ _ h refl, f7 i _ _ h refl, f3 i _ _ h refl, decode_normal, decode_op)
      (found xor a i h)
decode-of_Fits srl a i h =
    rw (op i _ _ h refl, f7 i _ _ h refl, f3 i _ _ h refl, decode_normal, decode_op)
      (found srl a i h)
decode-of_Fits sra a i h =
    rw (op i _ _ h refl, f7 i _ _ h refl, f3 i _ _ h refl, decode_normal, decode_op)
      (found sra a i h)
decode-of_Fits or a i h =
    rw (op i _ _ h refl, f7 i _ _ h refl, f3 i _ _ h refl, decode_normal, decode_op)
      (found or a i h)
decode-of_Fits and a i h =
    rw (op i _ _ h refl, f7 i _ _ h refl, f3 i _ _ h refl, decode_normal, decode_op)
      (found and a i h)
decode-of_Fits fence a i h =
    rw (op i _ _ h refl, f3 i _ _ h refl, decode_normal, decode_fence) (found fence a i h)
decode-of_Fits ecall a i h =
    rw (op i _ _ h refl, f3 i _ _ h refl, f12 i _ _ h refl, decode_normal, decode_system)
      (found ecall a i h)
decode-of_Fits ebreak a i h =
    rw (op i _ _ h refl, f3 i _ _ h refl, f12 i _ _ h refl, decode_normal, decode_system)
      (found ebreak a i h)
decode-of_Fits fence_i a i h =
    rw (op i _ _ h refl, f3 i _ _ h refl, decode_normal, decode_fence) (found fence_i a i h)
decode-of_Fits csrrw a i h =
    rw (op i _ _ h refl, f3 i _ _ h refl, decode_normal, decode_system) (found csrrw a i h)
decode-of_Fits csrrs a i h =
    rw (op i _ _ h refl, f3 i _ _ h refl, decode_normal, decode_system) (found csrrs a i h)
decode-of_Fits csrrc a i h =
    rw (op i _ _ h refl, f3 i _ _ h refl, decode_normal, decode_system) (found csrrc a i h)
decode-of_Fits csrrwi a i h =
    rw (op i _ _ h refl, f3 i _ _ h refl, decode_normal, decode_system) (found csrrwi a i h)
decode-of_Fits csrrsi a i h =
    rw (op i _ _ h refl, f3 i _ _ h refl, decode_normal, decode_system) (found csrrsi a i h)
decode-of_Fits csrrci a i h =
    rw (op i _ _ h refl, f3 i _ _ h refl, decode_normal, decode_system) (found csrrci a i h)
decode-of_Fits mul a i h =
    rw (op i _ _ h refl, f7 i _ _ h refl, f3 i _ _ h refl, decode_normal, decode_op)
      (found mul a i h)
decode-of_Fits mulh a i h =
    rw (op i _ _ h refl, f7 i _ _ h refl, f3 i _ _ h refl, decode_normal, decode_op)
      (found mulh a i h)
decode-of_Fits mulhsu a i h =
    rw (op i _ _ h refl, f7 i _ _ h refl, f3 i _ _ h refl, decode_normal, decode_op)
      (found mulhsu a i h)
decode-of_Fits mulhu a i h =
    rw (op i _ _ h refl, f7 i _ _ h refl, f3 i _ _ h refl, decode_normal, decode_op)
      (found mulhu a i h)
decode-of_Fits div a i h =
    rw (op i _ _ h refl, f7 i _ _ h refl, f3 i _ _ h refl, decode_normal, decode_op)
      (found div a i h)
decode-of_Fits divu a i h =
    rw (op i _ _ h refl, f7 i _ _ h refl, f3 i _ _ h refl, decode_normal, decode_op)
      (found divu a i h)
decode-of_Fits rem a i h =
    rw (op i _ _ h refl, f7 i _ _ h refl, f3 i _ _ h refl, decode_normal, decode_op)
      (found rem a i h)
decode-of_Fits remu a i h =
    rw (op i _ _ h refl, f7 i _ _ h refl, f3 i _ _ h refl, decode_normal, decode_op)
      (found remu a i h)
decode-of_Fits lr_w a i h =
    rw (op i _ _ h refl, f5 i _ _ h refl, f3 i _ _ h refl, decode_normal, decode_amo)
      (found lr_w a i h)
decode-of_Fits sc_w a i h =
    rw (op i _ _ h refl, f5 i _ _ h refl, f3 i _ _ h refl, decode_normal, decode_amo)
      (found sc_w a i h)
decode-of_Fits amoswap_w a i h =
    rw (op i _ _ h refl, f5 i _ _ h refl, f3 i _ _ h refl, decode_normal, decode_amo)
      (found amoswap_w a i h)
decode-of_Fits amoadd_w a i h =
    rw (op i _ _ h refl, f5 i _ _ h refl, f3 i _ _ h refl, decode_normal, decode_amo)
      (found amoadd_w a i h)
decode-of_Fits amoxor_w a i h =
    rw (op i _ _ h refl, f5 i _ _ h refl, f3 i _ _ h refl, decode_normal, decode_amo)
      (found amoxor_w a i h)
decode-of_Fits amoand_w a i h =
    rw (op i _ _ h refl, f5 i _ _ h refl, f3 i _ _ h refl, decode_normal, decode_amo)
      (found amoand_w a i h)
decode-of_Fits amoor_w a i h =
    rw (op i _ _ h refl, f5 i _ _ h refl, f3 i _ _ h refl, decode_normal, decode_amo)
      (found amoor_w a i h)
decode-of_Fits amomin_w a i h =
    rw (op i _ _ h refl, f5 i _ _ h refl, f3 i _ _ h refl, decode_normal, decode_amo)
      (found amomin_w a i h)
decode-of_Fits amomax_w a i h =
    rw (op i _ _ h refl, f5 i _ _ h refl, f3 i _ _ h refl, decode_normal, decode_amo)
      (found amomax_w a i h)
decode-of_Fits amominu_w a i h =
    rw (op i _ _ h refl, f5 i _ _ h refl, f3 i _ _ h refl, decode_normal, decode_amo)
      (found amominu_w a i h)
decode-of_Fits amomaxu_w a i h =
    rw (op i _ _ h refl, f5 i _ _ h refl, f3 i _ _ h refl, decode_normal, decode_amo)
      (found amomaxu_w a i h)
decode-of_Fits lwu a i h =
    rw (op i _ _ h refl, f3 i _ _ h refl, decode_normal, decode_load) (found lwu a i h)
decode-of_Fits ld a i h =
    rw (op i _ _ h refl, f3 i _ _ h refl, decode_normal, decode_load) (found ld a i h)
decode-of_Fits sd a i h =
    rw (op i _ _ h refl, f3 i _ _ h refl, decode_normal, decode_store) (found sd a i h)
decode-of_Fits addiw a i h =
    rw (op i _ _ h refl, f3 i _ _ h refl, decode_normal, decode_op_imm_w) (found addiw a i h)
decode-of_Fits slliw a i h =
    rw (op i _ _ h refl, f3 i _ _ h refl, decode_normal, decode_op_imm_w) (found slliw a i h)
decode-of_Fits srliw a i h =
    rw (op i _ _ h refl, f3 i _ _ h refl, f7 i _ _ h refl, decode_normal, decode_op_imm_w)
      (found srliw a i h)
decode-of_Fits sraiw a i h =
    rw (op i _ _ h refl, f3 i _ _ h refl, f7 i _ _ h refl, decode_normal, decode_op_imm_w)
      (found sraiw a i h)
decode-of_Fits addw a i h =
    rw (op i _ _ h refl, f7 i _ _ h refl, f3 i _ _ h refl, decode_normal, decode_op_w)
      (found addw a i h)
decode-of_Fits subw a i h =
    rw (op i _ _ h refl, f7 i _ _ h refl, f3 i _ _ h refl, decode_normal, decode_op_w)
      (found subw a i h)
decode-of_Fits sllw a i h =
    rw (op i _ _ h refl, f7 i _ _ h refl, f3 i _ _ h refl, decode_normal, decode_op_w)
      (found sllw a i h)
decode-of_Fits srlw a i h =
    rw (op i _ _ h refl, f7 i _ _ h refl, f3 i _ _ h refl, decode_normal, decode_op_w)
      (found srlw a i h)
decode-of_Fits sraw a i h =
    rw (op i _ _ h refl, f7 i _ _ h refl, f3 i _ _ h refl, decode_normal, decode_op_w)
      (found sraw a i h)
decode-of_Fits mulw a i h =
    rw (op i _ _ h refl, f7 i _ _ h refl, f3 i _ _ h refl, decode_normal, decode_op_w)
      (found mulw a i h)
decode-of_Fits divw a i h =
    rw (op i _ _ h refl, f7 i _ _ h refl, f3 i _ _ h refl, decode_normal, decode_op_w)
      (found divw a i h)
decode-of_Fits divuw a i h =
    rw (op i _ _ h refl, f7 i _ _ h refl, f3 i _ _ h refl, decode_normal, decode_op_w)
      (found divuw a i h)
decode-of_Fits remw a i h =
    rw (op i _ _ h refl, f7 i _ _ h refl, f3 i _ _ h refl, decode_normal, decode_op_w)
      (found remw a i h)
decode-of_Fits remuw a i h =
    rw (op i _ _ h refl, f7 i _ _ h refl, f3 i _ _ h refl, decode_normal, decode_op_w)
      (found remuw a i h)
decode-of_Fits lr_d a i h =
    rw (op i _ _ h refl, f5 i _ _ h refl, f3 i _ _ h refl, decode_normal, decode_amo)
      (found lr_d a i h)
decode-of_Fits sc_d a i h =
    rw (op i _ _ h refl, f5 i _ _ h refl, f3 i _ _ h refl, decode_normal, decode_amo)
      (found sc_d a i h)
decode-of_Fits amoswap_d a i h =
    rw (op i _ _ h refl, f5 i _ _ h refl, f3 i _ _ h refl, decode_normal, decode_amo)
      (found amoswap_d a i h)
decode-of_Fits amoadd_d a i h =
    rw (op i _ _ h refl, f5 i _ _ h refl, f3 i _ _ h refl, decode_normal, decode_amo)
      (found amoadd_d a i h)
decode-of_Fits amoxor_d a i h =
    rw (op i _ _ h refl, f5 i _ _ h refl, f3 i _ _ h refl, decode_normal, decode_amo)
      (found amoxor_d a i h)
decode-of_Fits amoand_d a i h =
    rw (op i _ _ h refl, f5 i _ _ h refl, f3 i _ _ h refl, decode_normal, decode_amo)
      (found amoand_d a i h)
decode-of_Fits amoor_d a i h =
    rw (op i _ _ h refl, f5 i _ _ h refl, f3 i _ _ h refl, decode_normal, decode_amo)
      (found amoor_d a i h)
decode-of_Fits amomin_d a i h =
    rw (op i _ _ h refl, f5 i _ _ h refl, f3 i _ _ h refl, decode_normal, decode_amo)
      (found amomin_d a i h)
decode-of_Fits amomax_d a i h =
    rw (op i _ _ h refl, f5 i _ _ h refl, f3 i _ _ h refl, decode_normal, decode_amo)
      (found amomax_d a i h)
decode-of_Fits amominu_d a i h =
    rw (op i _ _ h refl, f5 i _ _ h refl, f3 i _ _ h refl, decode_normal, decode_amo)
      (found amominu_d a i h)
decode-of_Fits amomaxu_d a i h =
    rw (op i _ _ h refl, f5 i _ _ h refl, f3 i _ _ h refl, decode_normal, decode_amo)
      (found amomaxu_d a i h)
decode-of_Fits flw a i h =
    rw (op i _ _ h refl, f3 i _ _ h refl, decode_normal, decode_load_fp) (found flw a i h)
decode-of_Fits fsw a i h =
    rw (op i _ _ h refl, f3 i _ _ h refl, decode_normal, decode_store_fp) (found fsw a i h)
decode-of_Fits fmadd_s a i h =
    rw (op i _ _ h refl, f2 i _ _ h refl, decode_normal, decode_fmadd) (found fmadd_s a i h)
decode-of_Fits fmsub_s a i h =
    rw (op i _ _ h refl, f2 i _ _ h refl, decode_normal, decode_fmsub) (found fmsub_s a i h)
decode-of_Fits fnmadd_s a i h =
    rw (op i _ _ h refl, f2 i _ _ h refl, decode_normal, decode_fnmadd) (found fnmadd_s a i h)
decode-of_Fits fnmsub_s a i h =
    rw (op i _ _ h refl, f2 i _ _ h refl, decode_normal, decode_fnmsub) (found fnmsub_s a i h)
decode-of_Fits fadd_s a i h =
    rw (op i _ _ h refl, f7 i _ _ h refl, decode_normal, decode_op_fp) (found fadd_s a i h)
decode-of_Fits fsub_s a i h =
    rw (op i _ _ h refl, f7 i _ _ h refl, decode_normal, decode_op_fp) (found fsub_s a i h)
decode-of_Fits fmul_s a i h =
    rw (op i _ _ h refl, f7 i _ _ h refl, decode_normal, decode_op_fp) (found fmul_s a i h)
decode-of_Fits fdiv_s a i h =
    rw (op i _ _ h refl, f7 i _ _ h refl, decode_normal, decode_op_fp) (found fdiv_s a i h)
decode-of_Fits fsqrt_s a i h =
    rw (op i _ _ h refl, f7 i _ _ h refl, decode_normal, decode_op_fp) (found fsqrt_s a i h)
decode-of_Fits fsgnj_s a i h =
    rw (op i _ _ h refl, f7 i _ _ h refl, f3 i _ _ h refl, decode_normal, decode_op_fp)
      (found fsgnj_s a i h)
decode-of_Fits fsgnjn_s a i h =
    rw (op i _ _ h refl, f7 i _ _ h refl, f3 i _ _ h refl, decode_normal, decode_op_fp)
      (found fsgnjn_s a i h)
decode-of_Fits fsgnjx_s a i h =
    rw (op i _ _ h refl, f7 i _ _ h refl, f3 i _ _ h refl, decode_normal, decode_op_fp)
      (found fsgnjx_s a i h)
decode-of_Fits fmin_s a i h =
    rw (op i _ _ h refl, f7 i _ _ h refl, f3 i _ _ h refl, decode_normal, decode_op_fp)
      (found fmin_s a i h)
decode-of_Fits fmax_s a i h =
    rw (op i _ _ h refl, f7 i _ _ h refl, f3 i _ _ h refl, decode_normal, decode_op_fp)
      (found fmax_s a i h)
decode-of_Fits fcvt_w_s a i h =
    rw (op i _ _ h refl, f7 i _ _ h refl, r2 i _ _ h refl, decode_normal, decode_op_fp)
      (found fcvt_w_s a i h)
decode-of_Fits fcvt_wu_s a i h =
    rw (op i _ _ h refl, f7 i _ _ h refl, r2 i _ _ h refl, decode_normal, decode_op_fp)
      (found fcvt_wu_s a i h)
decode-of_Fits fmv_x_w a i h =
    rw (op i _ _ h refl, f7 i _ _ h refl, f3 i _ _ h refl, decode_normal, decode_op_fp)
      (found fmv_x_w a i h)
decode-of_Fits feq_s a i h =
    rw (op i _ _ h refl, f7 i _ _ h refl, f3 i _ _ h refl, decode_normal, decode_op_fp)
      (found feq_s a i h)
decode-of_Fits flt_s a i h =
    rw (op i _ _ h refl, f7 i _ _ h refl, f3 i _ _ h refl, decode_normal, decode_op_fp)
      (found flt_s a i h)
decode-of_Fits fle_s a i h =
    rw (op i _ _ h refl, f7 i _ _ h refl, f3 i _ _ h refl, decode_normal, decode_op_fp)
      (found fle_s a i h)
decode-of_Fits fclass_s a i h =
    rw (op i _ _ h refl, f7 i _ _ h refl, f3 i _ _ h refl, decode_normal, decode_op_fp)
      (found fclass_s a i h)
decode-of_Fits fcvt_s_w a i h =
    rw (op i _ _ h refl, f7 i _ _ h refl, r2 i _ _ h refl, decode_normal, decode_op_fp)
      (found fcvt_s_w a i h)
decode-of_Fits fcvt_s_wu a i h =
    rw (op i _ _ h refl, f7 i _ _ h refl, r2 i _ _ h refl, decode_normal, decode_op_fp)
      (found fcvt_s_wu a i h)
decode-of_Fits fmv_w_x a i h =
    rw (op i _ _ h refl, f7 i _ _ h refl, decode_normal, decode_op_fp) (found fmv_w_x a i h)
decode-of_Fits fcvt_l_s a i h =
    rw (op i _ _ h refl, f7 i _ _ h refl, r2 i _ _ h refl, decode_normal, decode_op_fp)
      (found fcvt_l_s a i h)
decode-of_Fits fcvt_lu_s a i h =
    rw (op i _ _ h refl, f7 i _ _ h refl, r2 i _ _ h refl, decode_normal, decode_op_fp)
      (found fcvt_lu_s a i h)
decode-of_Fits fcvt_s_l a i h =
    rw (op i _ _ h refl, f7 i _ _ h refl, r2 i _ _ h refl, decode_normal, decode_op_fp)
      (found fcvt_s_l a i h)
decode-of_Fits fcvt_s_lu a i h =
    rw (op i _ _ h refl, f7 i _ _ h refl, r2 i _ _ h refl, decode_normal, decode_op_fp)
      (found fcvt_s_lu a i h)
decode-of_Fits fld a i h =
    rw (op i _ _ h refl, f3 i _ _ h refl, decode_normal, decode_load_fp) (found fld a i h)
decode-of_Fits fsd a i h =
    rw (op i _ _ h refl, f3 i _ _ h refl, decode_normal, decode_store_fp) (found fsd a i h)
decode-of_Fits fmadd_d a i h =
    rw (op i _ _ h refl, f2 i _ _ h refl, decode_normal, decode_fmadd) (found fmadd_d a i h)
decode-of_Fits fmsub_d a i h =
    rw (op i _ _ h refl, f2 i _ _ h refl, decode_normal, decode_fmsub) (found fmsub_d a i h)
decode-of_Fits fnmsub_d a i h =
    rw (op i _ _ h refl, f2 i _ _ h refl, decode_normal, decode_fnmsub) (found fnmsub_d a i h)
decode-of_Fits fnmadd_d a i h =
    rw (op i _ _ h refl, f2 i _ _ h refl, decode_normal, decode_fnmadd) (found fnmadd_d a i h)
decode-of_Fits fadd_d a i h =
    rw (op i _ _ h refl, f7 i _ _ h refl, decode_normal, decode_op_fp) (found fadd_d a i h)
decode-of_Fits fsub_d a i h =
    rw (op i _ _ h refl, f7 i _ _ h refl, decode_normal, decode_op_fp) (found fsub_d a i h)
decode-of_Fits fmul_d a i h =
    rw (op i _ _ h refl, f7 i _ _ h refl, decode_normal, decode_op_fp) (found fmul_d a i h)
decode-of_Fits fdiv_d a i h =
    rw (op i _ _ h refl, f7 i _ _ h refl, decode_normal, decode_op_fp) (found fdiv_d a i h)
decode-of_Fits fsqrt_d a i h =
    rw (op i _ _ h refl, f7 i _ _ h refl, decode_normal, decode_op_fp) (found fsqrt_d a i h)
decode-of_Fits fsgnj_d a i h =
    rw (op i _ _ h refl, f7 i _ _ h refl, f3 i _ _ h refl, decode_normal, decode_op_fp)
      (found fsgnj_d a i h)
decode-of_Fits fsgnjn_d a i h =
    rw (op i _ _ h refl, f7 i _ _ h refl, f3 i _ _ h refl, decode_normal, decode_op_fp)
      (found fsgnjn_d a i h)
decode-of_Fits fsgnjx_d a i h =
    rw (op i _ _ h refl, f7 i _ _ h refl, f3 i _ _ h refl, decode_normal, decode_op_fp)
      (found fsgnjx_d a i h)
decode-of_Fits fmin_d a i h =
    rw (op i _ _ h refl, f7 i _ _ h refl, f3 i _ _ h refl, decode_normal, decode_op_fp)
      (found fmin_d a i h)
decode-of_Fits fmax_d a i h =
    rw (op i _ _ h refl, f7 i _ _ h refl, f3 i _ _ h refl, decode_normal, decode_op_fp)
      (found fmax_d a i h)
decode-of_Fits fcvt_s_d a i h =
    rw (op i _ _ h refl, f7 i _ _ h refl, decode_normal, decode_op_fp) (found fcvt_s_d a i h)
decode-of_Fits fcvt_d_s a i h =
    rw (op i _ _ h refl, f7 i _ _ h refl, decode_normal, decode_op_fp) (found fcvt_d_s a i h)
decode-of_Fits feq_d a i h =
    rw (op i _ _ h refl, f7 i _ _ h refl, f3 i _ _ h refl, decode_normal, decode_op_fp)
      (found feq_d a i h)
decode-of_Fits flt_d a i h =
    rw (op i _ _ h refl, f7 i _ _ h refl, f3 i _ _ h refl, decode_normal, decode_op_fp)
      (found flt_d a i h)
decode-of_Fits fle_d a i h =
    rw (op i _ _ h refl, f7 i _ _ h refl, f3 i _ _ h refl, decode_normal, decode_op_fp)
      (found fle_d a i h)
decode-of_Fits fclass_d a i h =
    rw (op i _ _ h refl, f7 i _ _ h refl, f3 i _ _ h refl, decode_normal, decode_op_fp)
      (found fclass_d a i h)
decode-of_Fits fcvt_w_d a i h =
    rw (op i _ _ h refl, f7 i _ _ h refl, r2 i _ _ h refl, decode_normal, decode_op_fp)
      (found fcvt_w_d a i h)
decode-of_Fits fcvt_wu_d a i h =
    rw (op i _ _ h refl, f7 i _ _ h refl, r2 i _ _ h refl, decode_normal, decode_op_fp)
      (found fcvt_wu_d a i h)
decode-of_Fits fcvt_d_w a i h =
    rw (op i _ _ h refl, f7 i _ _ h refl, r2 i _ _ h refl, decode_normal, decode_op_fp)
      (found fcvt_d_w a i h)
decode-of_Fits fcvt_d_wu a i h =
    rw (op i _ _ h refl, f7 i _ _ h refl, r2 i _ _ h refl, decode_normal, decode_op_fp)
      (found fcvt_d_wu a i h)
decode-of_Fits fcvt_l_d a i h =
    rw (op i _ _ h refl, f7 i _ _ h refl, r2 i _ _ h refl, decode_normal, decode_op_fp)
      (found fcvt_l_d a i h)
decode-of_Fits fcvt_lu_d a i h =
    rw (op i _ _ h refl, f7 i _ _ h refl, r2 i _ _ h refl, decode_normal, decode_op_fp)
      (found fcvt_lu_d a i h)
decode-of_Fits fmv_x_d a i h =
    rw (op i _ _ h refl, f7 i _ _ h refl, f3 i _ _ h refl, decode_normal, decode_op_fp)
      (found fmv_x_d a i h)
decode-of_Fits fcvt_d_l a i h =
    rw (op i _ _ h refl, f7 i _ _ h refl, r2 i _ _ h refl, decode_normal, decode_op_fp)
      (found fcvt_d_l a i h)
decode-of_Fits fcvt_d_lu a i h =
    rw (op i _ _ h refl, f7 i _ _ h refl, r2 i _ _ h refl, decode_normal, decode_op_fp)
      (found fcvt_d_lu a i h)
decode-of_Fits fmv_d_x a i h =
    rw (op i _ _ h refl, f7 i _ _ h refl, decode_normal, decode_op_fp) (found fmv_d_x a i h)
decode-of_Fits uret a i h =
    rw (op i _ _ h refl, f3 i _ _ h refl, f12 i _ _ h refl, decode_normal, decode_system)
      (found uret a i h)
decode-of_Fits sret a i h =
    rw (op i _ _ h refl, f3 i _ _ h refl, f12 i _ _ h refl, decode_normal, decode_system)
      (found sret a i h)
decode-of_Fits mret a i h =
    rw (op i _ _ h refl, f3 i _ _ h refl, f12 i _ _ h refl, decode_normal, decode_system)
      (found mret a i h)
decode-of_Fits wfi a i h =
    rw (op i _ _ h refl, f3 i _ _ h refl, f12 i _ _ h refl, decode_normal, decode_system)
      (found wfi a i h)
decode-of_Fits sfence_vma a i h =
    rw (op i _ _ h refl, f3 i _ _ h refl, decode_normal, decode_system)
      (ground (arith, funct12-of_funct7 i, f7 i _ _ h refl, found sfence_vma a i h))
