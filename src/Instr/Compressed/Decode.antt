-- ===== src/Instr/Compressed/Decode.antt =====
-- `decode_compressed` of vp/src/core/common/instr.cpp. `none` is the `runtime_error` that it throws
-- on a word of quadrant 3, which is not compressed.
use riscv_vp.Base.{ℕ, [], ◌∷◌, Option, none, some, switch, ◌==◌, if◌then◌else◌}
use riscv_vp.Instr.Mapping.{Architecture}
use riscv_vp.Instr.Compressed.Opcode.{
  CompressedOpcode, c_add, c_addi, c_addi16sp, c_addi4spn, c_addiw, c_addw, c_and, c_andi, c_beqz,
  c_bnez, c_ebreak, c_fld, c_fldsp, c_flw, c_flwsp, c_fsd, c_fsdsp, c_fsw, c_fswsp, c_illegal, c_j,
  c_jal, c_jalr, c_jr, c_ld, c_ldsp, c_li, c_lui, c_lw, c_lwsp, c_mv, c_nop, c_or, c_reserved, c_sd,
  c_sdsp, c_slli, c_srai, c_srli, c_sub, c_subw, c_sw, c_swsp, c_xor,
}
use riscv_vp.Instr.Compressed.Expand.{is_rv32}
use riscv_vp.Instr.Compressed.Fields.{
  quadrant, c_format, c_opcode, c_b12, c_rd, c_rs2, c_f2_high, c_f2_low,
}

unfoldable pub decode_quadrant0 : Architecture → ℕ → CompressedOpcode
decode_quadrant0 a i =
    switch (c_opcode i)
      ((0b000, if c_format i == 0 then c_illegal else c_addi4spn)
        ∷ (0b001, c_fld)
        ∷ (0b010, c_lw)
        ∷ (0b011, if is_rv32 a then c_flw else c_ld)
        ∷ (0b100, c_reserved)
        ∷ (0b101, c_fsd)
        ∷ (0b110, c_sw)
        ∷ (0b111, if is_rv32 a then c_fsw else c_sd)
        ∷ [])
      c_illegal

unfoldable pub decode_arithmetic : ℕ → CompressedOpcode
decode_arithmetic i =
    switch (c_f2_high i)
      ((0b00, c_srli)
        ∷ (0b01, c_srai)
        ∷ (0b10, c_andi)
        ∷ (
          0b11,
          if c_b12 i == 0
              then switch (c_f2_low i)
                  ((0b00, c_sub) ∷ (0b01, c_xor) ∷ (0b10, c_or) ∷ (0b11, c_and) ∷ []) c_illegal
              else switch (c_f2_low i) ((0b00, c_subw) ∷ (0b01, c_addw) ∷ []) c_reserved,
        )
        ∷ [])
      c_illegal

unfoldable pub decode_quadrant1 : Architecture → ℕ → CompressedOpcode
unfolding decode_arithmetic
decode_quadrant1 a i =
    switch (c_opcode i)
      ((0b000, if c_format i == 1 then c_nop else c_addi)
        ∷ (0b001, if is_rv32 a then c_jal else c_addiw)
        ∷ (0b010, c_li)
        ∷ (0b011, if c_rd i == 2 then c_addi16sp else c_lui)
        ∷ (0b100, decode_arithmetic i)
        ∷ (0b101, c_j)
        ∷ (0b110, c_beqz)
        ∷ (0b111, c_bnez)
        ∷ [])
      c_illegal

unfoldable pub decode_quadrant2 : Architecture → ℕ → CompressedOpcode
decode_quadrant2 a i =
    switch (c_opcode i)
      ((0b000, c_slli)
        ∷ (0b001, c_fldsp)
        ∷ (0b010, c_lwsp)
        ∷ (0b011, if is_rv32 a then c_flwsp else c_ldsp)
        ∷ (
          0b100,
          if c_b12 i == 0
              then if c_rs2 i == 0 then c_jr else c_mv
              else if c_rd i == 0
              then c_ebreak
              else if c_rs2 i == 0
              then c_jalr
              else c_add,
        )
        ∷ (0b101, c_fsdsp)
        ∷ (0b110, c_swsp)
        ∷ (0b111, if is_rv32 a then c_fswsp else c_sdsp)
        ∷ [])
      c_illegal

unfoldable pub decode_compressed : Architecture → ℕ → Option CompressedOpcode
unfolding decode_quadrant0 decode_quadrant1 decode_quadrant2
decode_compressed a i =
    switch (quadrant i)
      ((0, some (decode_quadrant0 a i))
        ∷ (1, some (decode_quadrant1 a i))
        ∷ (2, some (decode_quadrant2 a i))
        ∷ (3, none)
        ∷ [])
      (some c_illegal)
