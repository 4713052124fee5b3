-- ===== src/Instr/Pattern/Float.antt =====
-- The masks and encodings of the extensions F and D (vp/src/core/common/instr.cpp).
use riscv_vp.Base.{Option, none, some}
use riscv_vp.Instr.Mapping.{
  Mapping, flw, fsw, fmadd_s, fmsub_s, fnmadd_s, fnmsub_s, fadd_s, fsub_s, fmul_s, fdiv_s, fsqrt_s,
  fsgnj_s, fsgnjn_s, fsgnjx_s, fmin_s, fmax_s, fcvt_w_s, fcvt_wu_s, fmv_x_w, feq_s, flt_s, fle_s,
  fclass_s, fcvt_s_w, fcvt_s_wu, fmv_w_x, fcvt_l_s, fcvt_lu_s, fcvt_s_l, fcvt_s_lu, fld, fsd,
  fmadd_d, fmsub_d, fnmsub_d, fnmadd_d, fadd_d, fsub_d, fmul_d, fdiv_d, fsqrt_d, fsgnj_d, fsgnjn_d,
  fsgnjx_d, fmin_d, fmax_d, fcvt_s_d, fcvt_d_s, feq_d, flt_d, fle_d, fclass_d, fcvt_w_d, fcvt_wu_d,
  fcvt_d_w, fcvt_d_wu, fcvt_l_d, fcvt_lu_d, fmv_x_d, fcvt_d_l, fcvt_d_lu, fmv_d_x,
}
use riscv_vp.Instr.Pattern.Record.{Pattern}

unfoldable pub float_pattern : Mapping → Option Pattern
float_pattern flw = some (record {
  mask = 0b00000000000000000111000001111111;
  encoding = 0b00000000000000000010000000000111;
})
float_pattern fsw = some (record {
  mask = 0b00000000000000000111000001111111;
  encoding = 0b00000000000000000010000000100111;
})
float_pattern fmadd_s = some (record {
  mask = 0b00000110000000000000000001111111;
  encoding = 0b00000000000000000000000001000011;
})
float_pattern fmsub_s = some (record {
  mask = 0b00000110000000000000000001111111;
  encoding = 0b00000000000000000000000001000111;
})
float_pattern fnmadd_s = some (record {
  mask = 0b00000110000000000000000001111111;
  encoding = 0b00000000000000000000000001001111;
})
float_pattern fnmsub_s = some (record {
  mask = 0b00000110000000000000000001111111;
  encoding = 0b00000000000000000000000001001011;
})
float_pattern fadd_s = some (record {
  mask = 0b11111110000000000000000001111111;
  encoding = 0b00000000000000000000000001010011;
})
float_pattern fsub_s = some (record {
  mask = 0b11111110000000000000000001111111;
  encoding = 0b00001000000000000000000001010011;
})
float_pattern fmul_s = some (record {
  mask = 0b11111110000000000000000001111111;
  encoding = 0b00010000000000000000000001010011;
})
float_pattern fdiv_s = some (record {
  mask = 0b11111110000000000000000001111111;
  encoding = 0b00011000000000000000000001010011;
})
float_pattern fsqrt_s = some (record {
  mask = 0b11111111111100000000000001111111;
  encoding = 0b01011000000000000000000001010011;
})
float_pattern fsgnj_s = some (record {
  mask = 0b11111110000000000111000001111111;
  encoding = 0b00100000000000000000000001010011;
})
float_pattern fsgnjn_s = some (record {
  mask = 0b11111110000000000111000001111111;
  encoding = 0b00100000000000000001000001010011;
})
float_pattern fsgnjx_s = some (record {
  mask = 0b11111110000000000111000001111111;
  encoding = 0b00100000000000000010000001010011;
})
float_pattern fmin_s = some (record {
  mask = 0b11111110000000000111000001111111;
  encoding = 0b00101000000000000000000001010011;
})
float_pattern fmax_s = some (record {
  mask = 0b11111110000000000111000001111111;
  encoding = 0b00101000000000000001000001010011;
})
float_pattern fcvt_w_s = some (record {
  mask = 0b11111111111100000000000001111111;
  encoding = 0b11000000000000000000000001010011;
})
float_pattern fcvt_wu_s = some (record {
  mask = 0b11111111111100000000000001111111;
  encoding = 0b11000000000100000000000001010011;
})
float_pattern fmv_x_w = some (record {
  mask = 0b11111111111100000111000001111111;
  encoding = 0b11100000000000000000000001010011;
})
float_pattern feq_s = some (record {
  mask = 0b11111110000000000111000001111111;
  encoding = 0b10100000000000000010000001010011;
})
float_pattern flt_s = some (record {
  mask = 0b11111110000000000111000001111111;
  encoding = 0b10100000000000000001000001010011;
})
float_pattern fle_s = some (record {
  mask = 0b11111110000000000111000001111111;
  encoding = 0b10100000000000000000000001010011;
})
float_pattern fclass_s = some (record {
  mask = 0b11111111111100000111000001111111;
  encoding = 0b11100000000000000001000001010011;
})
float_pattern fcvt_s_w = some (record {
  mask = 0b11111111111100000000000001111111;
  encoding = 0b11010000000000000000000001010011;
})
float_pattern fcvt_s_wu = some (record {
  mask = 0b11111111111100000000000001111111;
  encoding = 0b11010000000100000000000001010011;
})
float_pattern fmv_w_x = some (record {
  mask = 0b11111111111100000111000001111111;
  encoding = 0b11110000000000000000000001010011;
})
float_pattern fcvt_l_s = some (record {
  mask = 0b11111111111100000000000001111111;
  encoding = 0b11000000001000000000000001010011;
})
float_pattern fcvt_lu_s = some (record {
  mask = 0b11111111111100000000000001111111;
  encoding = 0b11000000001100000000000001010011;
})
float_pattern fcvt_s_l = some (record {
  mask = 0b11111111111100000000000001111111;
  encoding = 0b11010000001000000000000001010011;
})
float_pattern fcvt_s_lu = some (record {
  mask = 0b11111111111100000000000001111111;
  encoding = 0b11010000001100000000000001010011;
})
float_pattern fld = some (record {
  mask = 0b00000000000000000111000001111111;
  encoding = 0b00000000000000000011000000000111;
})
float_pattern fsd = some (record {
  mask = 0b00000000000000000111000001111111;
  encoding = 0b00000000000000000011000000100111;
})
float_pattern fmadd_d = some (record {
  mask = 0b00000110000000000000000001111111;
  encoding = 0b00000010000000000000000001000011;
})
float_pattern fmsub_d = some (record {
  mask = 0b00000110000000000000000001111111;
  encoding = 0b00000010000000000000000001000111;
})
float_pattern fnmsub_d = some (record {
  mask = 0b00000110000000000000000001111111;
  encoding = 0b00000010000000000000000001001011;
})
float_pattern fnmadd_d = some (record {
  mask = 0b00000110000000000000000001111111;
  encoding = 0b00000010000000000000000001001111;
})
float_pattern fadd_d = some (record {
  mask = 0b11111110000000000000000001111111;
  encoding = 0b00000010000000000000000001010011;
})
float_pattern fsub_d = some (record {
  mask = 0b11111110000000000000000001111111;
  encoding = 0b00001010000000000000000001010011;
})
float_pattern fmul_d = some (record {
  mask = 0b11111110000000000000000001111111;
  encoding = 0b00010010000000000000000001010011;
})
float_pattern fdiv_d = some (record {
  mask = 0b11111110000000000000000001111111;
  encoding = 0b00011010000000000000000001010011;
})
float_pattern fsqrt_d = some (record {
  mask = 0b11111111111100000000000001111111;
  encoding = 0b01011010000000000000000001010011;
})
float_pattern fsgnj_d = some (record {
  mask = 0b11111110000000000111000001111111;
  encoding = 0b00100010000000000000000001010011;
})
float_pattern fsgnjn_d = some (record {
  mask = 0b11111110000000000111000001111111;
  encoding = 0b00100010000000000001000001010011;
})
float_pattern fsgnjx_d = some (record {
  mask = 0b11111110000000000111000001111111;
  encoding = 0b00100010000000000010000001010011;
})
float_pattern fmin_d = some (record {
  mask = 0b11111110000000000111000001111111;
  encoding = 0b00101010000000000000000001010011;
})
float_pattern fmax_d = some (record {
  mask = 0b11111110000000000111000001111111;
  encoding = 0b00101010000000000001000001010011;
})
float_pattern fcvt_s_d = some (record {
  mask = 0b11111111111100000000000001111111;
  encoding = 0b01000000000100000000000001010011;
})
float_pattern fcvt_d_s = some (record {
  mask = 0b11111111111100000000000001111111;
  encoding = 0b01000010000000000000000001010011;
})
float_pattern feq_d = some (record {
  mask = 0b11111110000000000111000001111111;
  encoding = 0b10100010000000000010000001010011;
})
float_pattern flt_d = some (record {
  mask = 0b11111110000000000111000001111111;
  encoding = 0b10100010000000000001000001010011;
})
float_pattern fle_d = some (record {
  mask = 0b11111110000000000111000001111111;
  encoding = 0b10100010000000000000000001010011;
})
float_pattern fclass_d = some (record {
  mask = 0b11111111111100000111000001111111;
  encoding = 0b11100010000000000001000001010011;
})
float_pattern fcvt_w_d = some (record {
  mask = 0b11111111111100000000000001111111;
  encoding = 0b11000010000000000000000001010011;
})
float_pattern fcvt_wu_d = some (record {
  mask = 0b11111111111100000000000001111111;
  encoding = 0b11000010000100000000000001010011;
})
float_pattern fcvt_d_w = some (record {
  mask = 0b11111111111100000000000001111111;
  encoding = 0b11010010000000000000000001010011;
})
float_pattern fcvt_d_wu = some (record {
  mask = 0b11111111111100000000000001111111;
  encoding = 0b11010010000100000000000001010011;
})
float_pattern fcvt_l_d = some (record {
  mask = 0b11111111111100000000000001111111;
  encoding = 0b11000010001000000000000001010011;
})
float_pattern fcvt_lu_d = some (record {
  mask = 0b11111111111100000000000001111111;
  encoding = 0b11000010001100000000000001010011;
})
float_pattern fmv_x_d = some (record {
  mask = 0b11111111111100000111000001111111;
  encoding = 0b11100010000000000000000001010011;
})
float_pattern fcvt_d_l = some (record {
  mask = 0b11111111111100000000000001111111;
  encoding = 0b11010010001000000000000001010011;
})
float_pattern fcvt_d_lu = some (record {
  mask = 0b11111111111100000000000001111111;
  encoding = 0b11010010001100000000000001010011;
})
float_pattern fmv_d_x = some (record {
  mask = 0b11111111111100000111000001111111;
  encoding = 0b11110010000000000000000001010011;
})
float_pattern _ = none
