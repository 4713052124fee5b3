-- ===== src/Instr/Parts/System.antt =====
-- The opcode fields of the system, atomic and 64-bit instructions (`Opcode::Parts` of
-- vp/src/core/common/instr.h).
use riscv_vp.Base.{ℕ}

abbrev pub op_fence : ℕ
op_fence = 0b0001111

abbrev pub f3_fence : ℕ
f3_fence = 0b000

abbrev pub f3_fence_i : ℕ
f3_fence_i = 0b001

abbrev pub op_ecall : ℕ
op_ecall = 0b1110011

abbrev pub f3_sys : ℕ
f3_sys = 0b000

abbrev pub f12_ecall : ℕ
f12_ecall = 0b000000000000

abbrev pub f12_ebreak : ℕ
f12_ebreak = 0b000000000001

abbrev pub f12_uret : ℕ
f12_uret = 0b000000000010

abbrev pub f12_sret : ℕ
f12_sret = 0b000100000010

abbrev pub f12_mret : ℕ
f12_mret = 0b001100000010

abbrev pub f12_wfi : ℕ
f12_wfi = 0b000100000101

abbrev pub f3_csrrw : ℕ
f3_csrrw = 0b001

abbrev pub f3_csrrs : ℕ
f3_csrrs = 0b010

abbrev pub f3_csrrc : ℕ
f3_csrrc = 0b011

abbrev pub f3_csrrwi : ℕ
f3_csrrwi = 0b101

abbrev pub f3_csrrsi : ℕ
f3_csrrsi = 0b110

abbrev pub f3_csrrci : ℕ
f3_csrrci = 0b111

abbrev pub op_amo : ℕ
op_amo = 0b0101111

abbrev pub f5_lr_w : ℕ
f5_lr_w = 0b00010

abbrev pub f5_sc_w : ℕ
f5_sc_w = 0b00011

abbrev pub f5_amoswap_w : ℕ
f5_amoswap_w = 0b00001

abbrev pub f5_amoadd_w : ℕ
f5_amoadd_w = 0b00000

abbrev pub f5_amoxor_w : ℕ
f5_amoxor_w = 0b00100

abbrev pub f5_amoand_w : ℕ
f5_amoand_w = 0b01100

abbrev pub f5_amoor_w : ℕ
f5_amoor_w = 0b01000

abbrev pub f5_amomin_w : ℕ
f5_amomin_w = 0b10000

abbrev pub f5_amomax_w : ℕ
f5_amomax_w = 0b10100

abbrev pub f5_amominu_w : ℕ
f5_amominu_w = 0b11000

abbrev pub f5_amomaxu_w : ℕ
f5_amomaxu_w = 0b11100

abbrev pub f3_amo_d : ℕ
f3_amo_d = 0b011

abbrev pub op_addiw : ℕ
op_addiw = 0b0011011

abbrev pub f3_addiw : ℕ
f3_addiw = 0b000

abbrev pub f3_slliw : ℕ
f3_slliw = 0b001

abbrev pub f3_srliw : ℕ
f3_srliw = 0b101

abbrev pub f7_srliw : ℕ
f7_srliw = 0b0000000

abbrev pub f7_sraiw : ℕ
f7_sraiw = 0b0100000

abbrev pub op_addw : ℕ
op_addw = 0b0111011

abbrev pub f3_addw : ℕ
f3_addw = 0b000

abbrev pub f7_addw : ℕ
f7_addw = 0b0000000

abbrev pub f3_subw : ℕ
f3_subw = 0b000

abbrev pub f7_subw : ℕ
f7_subw = 0b0100000

abbrev pub f3_sllw : ℕ
f3_sllw = 0b001

abbrev pub f3_srlw : ℕ
f3_srlw = 0b101

abbrev pub f3_sraw : ℕ
f3_sraw = 0b101

abbrev pub f7_mulw : ℕ
f7_mulw = 0b0000001

abbrev pub f3_mulw : ℕ
f3_mulw = 0b000

abbrev pub f3_divw : ℕ
f3_divw = 0b100

abbrev pub f3_divuw : ℕ
f3_divuw = 0b101

abbrev pub f3_remw : ℕ
f3_remw = 0b110

abbrev pub f3_remuw : ℕ
f3_remuw = 0b111
