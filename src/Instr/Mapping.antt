-- ===== src/Instr/Mapping.antt =====
-- The instructions (`Opcode::Mapping`), their formats (`Opcode::Type`) and the architectures of
-- vp/src/core/common/instr.h and core_defs.h.

pub data Mapping : Type 0 where
  undef lui auipc jal jalr beq bne blt bge bltu bgeu lb lh lw lbu lhu sb sh sw : Mapping
  addi slti sltiu xori ori andi slli srli srai add sub sll slt sltu xor srl sra : Mapping
  or and fence ecall ebreak fence_i csrrw csrrs csrrc csrrwi csrrsi csrrci mul : Mapping
  mulh mulhsu mulhu div divu rem remu lr_w sc_w amoswap_w amoadd_w amoxor_w : Mapping
  amoand_w amoor_w amomin_w amomax_w amominu_w amomaxu_w lwu ld sd addiw slliw : Mapping
  srliw sraiw addw subw sllw srlw sraw mulw divw divuw remw remuw lr_d sc_d : Mapping
  amoswap_d amoadd_d amoxor_d amoand_d amoor_d amomin_d amomax_d amominu_d : Mapping
  amomaxu_d flw fsw fmadd_s fmsub_s fnmadd_s fnmsub_s fadd_s fsub_s fmul_s : Mapping
  fdiv_s fsqrt_s fsgnj_s fsgnjn_s fsgnjx_s fmin_s fmax_s fcvt_w_s fcvt_wu_s : Mapping
  fmv_x_w feq_s flt_s fle_s fclass_s fcvt_s_w fcvt_s_wu fmv_w_x fcvt_l_s : Mapping
  fcvt_lu_s fcvt_s_l fcvt_s_lu fld fsd fmadd_d fmsub_d fnmsub_d fnmadd_d fadd_d : Mapping
  fsub_d fmul_d fdiv_d fsqrt_d fsgnj_d fsgnjn_d fsgnjx_d fmin_d fmax_d fcvt_s_d : Mapping
  fcvt_d_s feq_d flt_d fle_d fclass_d fcvt_w_d fcvt_wu_d fcvt_d_w fcvt_d_wu : Mapping
  fcvt_l_d fcvt_lu_d fmv_x_d fcvt_d_l fcvt_d_lu fmv_d_x uret sret mret wfi : Mapping
  sfence_vma : Mapping

pub data Format : Type 0 where
  unknown r i s b u j r4 : Format

pub data Architecture : Type 0 where
  rv32 rv64 rv128 : Architecture

pub format : Mapping → Format
format lui = Format.u
format auipc = Format.u
format jal = Format.j
format jalr = Format.i
format beq = Format.b
format bne = Format.b
format blt = Format.b
format bge = Format.b
format bltu = Format.b
format bgeu = Format.b
format lb = Format.i
format lh = Format.i
format lw = Format.i
format lbu = Format.i
format lhu = Format.i
format sb = Format.s
format sh = Format.s
format sw = Format.s
format addi = Format.i
format slti = Format.i
format sltiu = Format.i
format xori = Format.i
format ori = Format.i
format andi = Format.i
format slli = Format.r
format srli = Format.r
format srai = Format.r
format add = Format.r
format sub = Format.r
format sll = Format.r
format slt = Format.r
format sltu = Format.r
format xor = Format.r
format srl = Format.r
format sra = Format.r
format or = Format.r
format and = Format.r
format mul = Format.r
format mulh = Format.r
format mulhsu = Format.r
format mulhu = Format.r
format div = Format.r
format divu = Format.r
format rem = Format.r
format remu = Format.r
format lr_w = Format.r
format sc_w = Format.r
format amoswap_w = Format.r
format amoadd_w = Format.r
format amoxor_w = Format.r
format amoand_w = Format.r
format amoor_w = Format.r
format amomin_w = Format.r
format amomax_w = Format.r
format amominu_w = Format.r
format amomaxu_w = Format.r
format lwu = Format.i
format ld = Format.i
format sd = Format.s
format addiw = Format.i
format slliw = Format.i
format srliw = Format.i
format sraiw = Format.i
format addw = Format.r
format subw = Format.r
format sllw = Format.r
format srlw = Format.r
format sraw = Format.r
format mulw = Format.r
format divw = Format.r
format divuw = Format.r
format remw = Format.r
format remuw = Format.r
format lr_d = Format.r
format sc_d = Format.r
format amoswap_d = Format.r
format amoadd_d = Format.r
format amoxor_d = Format.r
format amoand_d = Format.r
format amoor_d = Format.r
format amomin_d = Format.r
format amomax_d = Format.r
format amominu_d = Format.r
format amomaxu_d = Format.r
format flw = Format.i
format fsw = Format.s
format fmadd_s = Format.r4
format fmsub_s = Format.r4
format fnmadd_s = Format.r4
format fnmsub_s = Format.r4
format fadd_s = Format.r
format fsub_s = Format.r
format fmul_s = Format.r
format fdiv_s = Format.r
format fsqrt_s = Format.r
format fsgnj_s = Format.r
format fsgnjn_s = Format.r
format fsgnjx_s = Format.r
format fmin_s = Format.r
format fmax_s = Format.r
format fcvt_w_s = Format.r
format fcvt_wu_s = Format.r
format fmv_x_w = Format.r
format feq_s = Format.r
format flt_s = Format.r
format fle_s = Format.r
format fclass_s = Format.r
format fcvt_s_w = Format.r
format fcvt_s_wu = Format.r
format fmv_w_x = Format.r
format fcvt_l_s = Format.r
format fcvt_lu_s = Format.r
format fcvt_s_l = Format.r
format fcvt_s_lu = Format.r
format fld = Format.i
format fsd = Format.s
format fmadd_d = Format.r4
format fmsub_d = Format.r4
format fnmsub_d = Format.r4
format fnmadd_d = Format.r4
format fadd_d = Format.r
format fsub_d = Format.r
format fmul_d = Format.r
format fdiv_d = Format.r
format fsqrt_d = Format.r
format fsgnj_d = Format.r
format fsgnjn_d = Format.r
format fsgnjx_d = Format.r
format fmin_d = Format.r
format fmax_d = Format.r
format fcvt_s_d = Format.r
format fcvt_d_s = Format.r
format feq_d = Format.r
format flt_d = Format.r
format fle_d = Format.r
format fclass_d = Format.r
format fcvt_w_d = Format.r
format fcvt_wu_d = Format.r
format fcvt_d_w = Format.r
format fcvt_d_wu = Format.r
format fcvt_l_d = Format.r
format fcvt_lu_d = Format.r
format fmv_x_d = Format.r
format fcvt_d_l = Format.r
format fcvt_d_lu = Format.r
format fmv_d_x = Format.r
format _ = unknown
