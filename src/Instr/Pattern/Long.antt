-- ===== src/Instr/Pattern/Long.antt =====
-- The masks and encodings of what RV64IMA adds (vp/src/core/common/instr.cpp).
use riscv_vp.Base.{Option, none, some}
use riscv_vp.Instr.Mapping.{
  Mapping, lwu, ld, sd, addiw, slliw, srliw, sraiw, addw, subw, sllw, srlw, sraw, mulw, divw, divuw,
  remw, remuw, lr_d, sc_d, amoswap_d, amoadd_d, amoxor_d, amoand_d, amoor_d, amomin_d, amomax_d,
  amominu_d, amomaxu_d,
}
use riscv_vp.Instr.Pattern.Record.{Pattern}

unfoldable pub long_pattern : Mapping → Option Pattern
long_pattern lwu = some (record {
  mask = 0b00000000000000000111000001111111;
  encoding = 0b00000000000000000110000000000011;
})
long_pattern ld = some (record {
  mask = 0b00000000000000000111000001111111;
  encoding = 0b00000000000000000011000000000011;
})
long_pattern sd = some (record {
  mask = 0b00000000000000000111000001111111;
  encoding = 0b00000000000000000011000000100011;
})
long_pattern addiw = some (record {
  mask = 0b00000000000000000111000001111111;
  encoding = 0b00000000000000000000000000011011;
})
long_pattern slliw = some (record {
  mask = 0b11111110000000000111000001111111;
  encoding = 0b00000000000000000001000000011011;
})
long_pattern srliw = some (record {
  mask = 0b11111110000000000111000001111111;
  encoding = 0b00000000000000000101000000011011;
})
long_pattern sraiw = some (record {
  mask = 0b11111110000000000111000001111111;
  encoding = 0b01000000000000000101000000011011;
})
long_pattern addw = some (record {
  mask = 0b11111110000000000111000001111111;
  encoding = 0b00000000000000000000000000111011;
})
long_pattern subw = some (record {
  mask = 0b11111110000000000111000001111111;
  encoding = 0b01000000000000000000000000111011;
})
long_pattern sllw = some (record {
  mask = 0b11111110000000000111000001111111;
  encoding = 0b00000000000000000001000000111011;
})
long_pattern srlw = some (record {
  mask = 0b11111110000000000111000001111111;
  encoding = 0b00000000000000000101000000111011;
})
long_pattern sraw = some (record {
  mask = 0b11111110000000000111000001111111;
  encoding = 0b01000000000000000101000000111011;
})
long_pattern mulw = some (record {
  mask = 0b11111110000000000111000001111111;
  encoding = 0b00000010000000000000000000111011;
})
long_pattern divw = some (record {
  mask = 0b11111110000000000111000001111111;
  encoding = 0b00000010000000000100000000111011;
})
long_pattern divuw = some (record {
  mask = 0b11111110000000000111000001111111;
  encoding = 0b00000010000000000101000000111011;
})
long_pattern remw = some (record {
  mask = 0b11111110000000000111000001111111;
  encoding = 0b00000010000000000110000000111011;
})
long_pattern remuw = some (record {
  mask = 0b11111110000000000111000001111111;
  encoding = 0b00000010000000000111000000111011;
})
long_pattern lr_d = some (record {
  mask = 0b11111001111100000111000001111111;
  encoding = 0b00010000000000000011000000101111;
})
long_pattern sc_d = some (record {
  mask = 0b11111000000000000111000001111111;
  encoding = 0b00011000000000000011000000101111;
})
long_pattern amoswap_d = some (record {
  mask = 0b11111000000000000111000001111111;
  encoding = 0b00001000000000000011000000101111;
})
long_pattern amoadd_d = some (record {
  mask = 0b11111000000000000111000001111111;
  encoding = 0b00000000000000000011000000101111;
})
long_pattern amoxor_d = some (record {
  mask = 0b11111000000000000111000001111111;
  encoding = 0b00100000000000000011000000101111;
})
long_pattern amoand_d = some (record {
  mask = 0b11111000000000000111000001111111;
  encoding = 0b01100000000000000011000000101111;
})
long_pattern amoor_d = some (record {
  mask = 0b11111000000000000111000001111111;
  encoding = 0b01000000000000000011000000101111;
})
long_pattern amomin_d = some (record {
  mask = 0b11111000000000000111000001111111;
  encoding = 0b10000000000000000011000000101111;
})
long_pattern amomax_d = some (record {
  mask = 0b11111000000000000111000001111111;
  encoding = 0b10100000000000000011000000101111;
})
long_pattern amominu_d = some (record {
  mask = 0b11111000000000000111000001111111;
  encoding = 0b11000000000000000011000000101111;
})
long_pattern amomaxu_d = some (record {
  mask = 0b11111000000000000111000001111111;
  encoding = 0b11100000000000000011000000101111;
})
long_pattern _ = none
