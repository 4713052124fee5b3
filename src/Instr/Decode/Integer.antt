-- ===== src/Instr/Decode/Integer.antt =====
-- The cases of `Instruction::decode_normal` for the integer instructions
-- (vp/src/core/common/instr.cpp).
use riscv_vp.Base.{ℕ, [], ◌∷◌, switch}
use riscv_vp.Instr.Mapping.{
  Architecture, Mapping, undef, add, addi, addiw, addw, and, andi, beq, bge, bgeu, blt, bltu, bne,
  div, divu, divuw, divw, lb, lbu, ld, lh, lhu, lw, lwu, mul, mulh, mulhsu, mulhu, mulw, or, ori,
  rem, remu, remuw, remw, sb, sd, sh, sll, slli, slliw, sllw, slt, slti, sltiu, sltu, sra, srai,
  sraiw, sraw, srl, srli, srliw, srlw, sub, subw, sw, xor, xori,
}
use riscv_vp.Instr.Parts.{
  f3_add, f3_addi, f3_addiw, f3_addw, f3_and, f3_andi, f3_beq, f3_bge, f3_bgeu, f3_blt, f3_bltu,
  f3_bne, f3_div, f3_divu, f3_divuw, f3_divw, f3_lb, f3_lbu, f3_ld, f3_lh, f3_lhu, f3_lw, f3_lwu,
  f3_mul, f3_mulh, f3_mulhsu, f3_mulhu, f3_mulw, f3_or, f3_ori, f3_rem, f3_remu, f3_remuw, f3_remw,
  f3_sb, f3_sd, f3_sh, f3_sll, f3_slli, f3_slliw, f3_sllw, f3_slt, f3_slti, f3_sltiu, f3_sltu,
  f3_sra, f3_sraw, f3_srl, f3_srli, f3_srliw, f3_srlw, f3_sub, f3_subw, f3_sw, f3_xor, f3_xori,
  f6_srai, f6_srli, f7_add, f7_addw, f7_mul, f7_mulw, f7_sraiw, f7_srliw, f7_sub, f7_subw,
}
use riscv_vp.Instr.Fields.{funct3, funct6, funct7}
use riscv_vp.Instr.Pattern.{match_instr}

unfoldable pub decode_branch : Architecture → ℕ → Mapping
decode_branch a i =
    switch (funct3 i)
      ((f3_beq, match_instr beq a i)
        ∷ (f3_bne, match_instr bne a i)
        ∷ (f3_blt, match_instr blt a i)
        ∷ (f3_bge, match_instr bge a i)
        ∷ (f3_bltu, match_instr bltu a i)
        ∷ (f3_bgeu, match_instr bgeu a i)
        ∷ [])
      undef

unfoldable pub decode_load : Architecture → ℕ → Mapping
decode_load a i =
    switch (funct3 i)
      ((f3_lb, match_instr lb a i)
        ∷ (f3_lh, match_instr lh a i)
        ∷ (f3_lw, match_instr lw a i)
        ∷ (f3_lbu, match_instr lbu a i)
        ∷ (f3_lhu, match_instr lhu a i)
        ∷ (f3_lwu, match_instr lwu a i)
        ∷ (f3_ld, match_instr ld a i)
        ∷ [])
      undef

unfoldable pub decode_store : Architecture → ℕ → Mapping
decode_store a i =
    switch (funct3 i)
      ((f3_sb, match_instr sb a i)
        ∷ (f3_sh, match_instr sh a i)
        ∷ (f3_sw, match_instr sw a i)
        ∷ (f3_sd, match_instr sd a i)
        ∷ [])
      undef

unfoldable pub decode_op_imm : Architecture → ℕ → Mapping
decode_op_imm a i =
    switch (funct3 i)
      ((f3_addi, match_instr addi a i)
        ∷ (f3_slti, match_instr slti a i)
        ∷ (f3_sltiu, match_instr sltiu a i)
        ∷ (f3_xori, match_instr xori a i)
        ∷ (f3_ori, match_instr ori a i)
        ∷ (f3_andi, match_instr andi a i)
        ∷ (f3_slli, match_instr slli a i)
        ∷ (
          f3_srli,
          switch (funct6 i) ((f6_srli, match_instr srli a i) ∷ (f6_srai, match_instr srai a i) ∷ [])
              undef,
        )
        ∷ [])
      undef

unfoldable pub decode_op_imm_w : Architecture → ℕ → Mapping
decode_op_imm_w a i =
    switch (funct3 i)
      ((f3_addiw, match_instr addiw a i)
        ∷ (f3_slliw, match_instr slliw a i)
        ∷ (
          f3_srliw,
          switch (funct7 i)
              ((f7_srliw, match_instr srliw a i) ∷ (f7_sraiw, match_instr sraiw a i) ∷ []) undef,
        )
        ∷ [])
      undef

unfoldable pub decode_op : Architecture → ℕ → Mapping
decode_op a i =
    switch (funct7 i)
      ((
        f7_add,
        switch (funct3 i)
            ((f3_add, match_instr add a i)
              ∷ (f3_sll, match_instr sll a i)
              ∷ (f3_slt, match_instr slt a i)
              ∷ (f3_sltu, match_instr sltu a i)
              ∷ (f3_xor, match_instr xor a i)
              ∷ (f3_srl, match_instr srl a i)
              ∷ (f3_or, match_instr or a i)
              ∷ (f3_and, match_instr and a i)
              ∷ [])
            undef,
      )
        ∷ (
          f7_sub,
          switch (funct3 i) ((f3_sub, match_instr sub a i) ∷ (f3_sra, match_instr sra a i) ∷ [])
              undef,
        )
        ∷ (
          f7_mul,
          switch (funct3 i)
              ((f3_mul, match_instr mul a i)
                ∷ (f3_mulh, match_instr mulh a i)
                ∷ (f3_mulhsu, match_instr mulhsu a i)
                ∷ (f3_mulhu, match_instr mulhu a i)
                ∷ (f3_div, match_instr div a i)
                ∷ (f3_divu, match_instr divu a i)
                ∷ (f3_rem, match_instr rem a i)
                ∷ (f3_remu, match_instr remu a i)
                ∷ [])
              undef,
        )
        ∷ [])
      undef

unfoldable pub decode_op_w : Architecture → ℕ → Mapping
decode_op_w a i =
    switch (funct7 i)
      ((
        f7_addw,
        switch (funct3 i)
            ((f3_addw, match_instr addw a i)
              ∷ (f3_sllw, match_instr sllw a i)
              ∷ (f3_srlw, match_instr srlw a i)
              ∷ [])
            undef,
      )
        ∷ (
          f7_subw,
          switch (funct3 i) ((f3_subw, match_instr subw a i) ∷ (f3_sraw, match_instr sraw a i) ∷ [])
              undef,
        )
        ∷ (
          f7_mulw,
          switch (funct3 i)
              ((f3_mulw, match_instr mulw a i)
                ∷ (f3_divw, match_instr divw a i)
                ∷ (f3_divuw, match_instr divuw a i)
                ∷ (f3_remw, match_instr remw a i)
                ∷ (f3_remuw, match_instr remuw a i)
                ∷ [])
              undef,
        )
        ∷ [])
      undef
