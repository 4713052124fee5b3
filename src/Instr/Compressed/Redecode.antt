-- ===== src/Instr/Compressed/Redecode.antt =====
-- Decoding the word that a compressed instruction expands to gives the same instruction.
use riscv_vp.Base.{
  ℕ, ◌≡◌, ◌≢◌, refl, Bool, true, false, ltb, ◌==◌, if◌then◌else◌, Bool-cases, inl, inr, ◌<◌, arith,
}
use riscv_vp.Instr.Mapping.{
  Mapping, Architecture, rv32, rv64, rv128, undef, add, addi, addiw, addw, and, andi, beq, bne,
  ebreak, fld, flw, fsd, fsw, jal, jalr, ld, lui, lw, or, sd, slli, srai, srli, sub, subw, sw, xor,
}
use riscv_vp.Instr.Pattern.{pattern_of, Fits}
use riscv_vp.Instr.Decode.{decode_normal}
use riscv_vp.Instr.Decode.Spec.{decode_normal_iff}
use riscv_vp.Instr.Factory
use riscv_vp.Instr.Factory.Laws.{
  register_word-fits, addw-fits, subw-fits, i_type-fits, s_type-fits, b_type-fits, shift_type-fits,
  shift_type-fits32, lui-fits, jal-fits,
}
use riscv_vp.Instr.Compressed.Opcode.{
  CompressedOpcode, c_illegal, c_lq, c_lqsp, c_sq, c_sqsp, c_reserved, c_nop, c_add, c_mv, c_and,
  c_or, c_xor, c_sub, c_addw, c_subw, c_lw, c_ld, c_flw, c_fld, c_sw, c_sd, c_fsw, c_fsd,
  c_addi4spn, c_addi, c_jal, c_addiw, c_li, c_addi16sp, c_lui, c_slli, c_srli, c_srai, c_andi, c_j,
  c_beqz, c_bnez, c_lwsp, c_ldsp, c_flwsp, c_fldsp, c_swsp, c_sdsp, c_fswsp, c_fsdsp, c_ebreak,
  c_jr, c_jalr,
}
use riscv_vp.Instr.Compressed.Fields.{
  c_addi16sp_nzimm, c_addi4spn_nzuimm, c_branch_imm, c_imm, c_j_imm, c_jal_imm, c_ld_uimm,
  c_ldsp_uimm, c_lui_nzimm, c_lw_uimm, c_lwsp_uimm, c_rd, c_rd_small, c_rs2, c_rs2_small, c_sd_uimm,
  c_sdsp_uimm, c_sw_uimm, c_swsp_uimm, c_uimm,
}
use riscv_vp.Instr.Compressed.Expand.{expand_compressed}

-- `C.ADDIW` is left out: the source makes the word of an `ADDI` for it.
record Redecodes (a : Architecture) (r : ℕ × Mapping) : Type 0 where
  decodes : r.1 ≢ undef → r.1 ≢ addiw → decode_normal a r.0 ≡ r.1

unknown : {a : Architecture} {i : ℕ} → Redecodes a (i, undef)
unknown = record { decodes = λ n w. absurd (n refl) }

is_addiw : {a : Architecture} {i : ℕ} → Redecodes a (i, addiw)
is_addiw = record { decodes = λ n w. absurd (w refl) }

either :
    {a : Architecture} (b : Bool) (r s : ℕ × Mapping)
    → Redecodes a r
    → Redecodes a s
    → Redecodes a (if b then r else s)
either true r s p q = p
either false r s p q = q

fitting : {a : Architecture} {i : ℕ} (m : Mapping) → Fits (pattern_of m a) i → Redecodes a (i, m)
fitting {a} {i} m f = record { decodes = λ n w. (decode_normal_iff m a i n).1 f }

module _ (w i shamt : ℕ) (m : Mapping) where
  -- On RV32 a shift by more than 31 has been refused before it is encoded.
  guarded :
      (shamt < 32 → Fits (pattern_of m rv32) w)
      → Redecodes rv32 (if ltb 31 shamt then (i, undef) else (w, m))
  guarded f = elim (Bool-cases (ltb 31 shamt)) [
    | inl t ↦ rw t unknown
    | inr t ↦ rw t (fitting m (f (ground arith)))
  ]

expand_compressed-Redecodes :
    (a : Architecture) (op : CompressedOpcode) (i : ℕ) → Redecodes a (expand_compressed a op i)
unfolding expand_compressed pattern_of Factory.add Factory.and Factory.or Factory.xor Factory.sub
    Factory.lw Factory.ld Factory.flw Factory.fld Factory.sw Factory.sd Factory.fsw Factory.fsd
    Factory.lui Factory.addi Factory.andi Factory.srli Factory.srai Factory.slli Factory.jal
    Factory.jalr Factory.beq Factory.bne Factory.ebreak
expand_compressed-Redecodes a c_illegal i = unknown
expand_compressed-Redecodes a c_lq i = unknown
expand_compressed-Redecodes a c_lqsp i = unknown
expand_compressed-Redecodes a c_sq i = unknown
expand_compressed-Redecodes a c_sqsp i = unknown
expand_compressed-Redecodes a c_reserved i = unknown
expand_compressed-Redecodes a c_nop i = fitting add (register_word-fits 0 0 0 0 0)
expand_compressed-Redecodes a c_add i =
    fitting add (register_word-fits (c_rd i) (c_rd i) (c_rs2 i) 0 0)
expand_compressed-Redecodes a c_mv i = fitting add (register_word-fits (c_rd i) 0 (c_rs2 i) 0 0)
expand_compressed-Redecodes a c_and i =
    fitting and (register_word-fits (c_rd_small i) (c_rd_small i) (c_rs2_small i) 0x7000 0)
expand_compressed-Redecodes a c_or i =
    fitting or (register_word-fits (c_rd_small i) (c_rd_small i) (c_rs2_small i) 0x6000 0)
expand_compressed-Redecodes a c_xor i =
    fitting xor (register_word-fits (c_rd_small i) (c_rd_small i) (c_rs2_small i) 0x4000 0)
expand_compressed-Redecodes a c_sub i =
    fitting sub (register_word-fits (c_rd_small i) (c_rd_small i) (c_rs2_small i) 0 0x40000000)
expand_compressed-Redecodes a c_addw i =
    fitting addw (addw-fits (c_rd_small i) (c_rd_small i) (c_rs2_small i))
expand_compressed-Redecodes a c_subw i =
    fitting subw (subw-fits (c_rd_small i) (c_rd_small i) (c_rs2_small i))
expand_compressed-Redecodes a c_lw i =
    fitting lw (i_type-fits (c_rs2_small i) (c_rd_small i) (c_lw_uimm i) 3 2)
expand_compressed-Redecodes a c_ld i =
    fitting ld (i_type-fits (c_rs2_small i) (c_rd_small i) (c_ld_uimm i) 3 3)
expand_compressed-Redecodes a c_flw i =
    fitting flw (i_type-fits (c_rs2_small i) (c_rd_small i) (c_lw_uimm i) 7 2)
expand_compressed-Redecodes a c_fld i =
    fitting fld (i_type-fits (c_rs2_small i) (c_rd_small i) (c_ld_uimm i) 7 3)
expand_compressed-Redecodes a c_sw i =
    fitting sw (s_type-fits (c_rd_small i) (c_rs2_small i) (c_sw_uimm i) 35 2)
expand_compressed-Redecodes a c_sd i =
    fitting sd (s_type-fits (c_rd_small i) (c_rs2_small i) (c_sd_uimm i) 35 3)
expand_compressed-Redecodes a c_fsw i =
    fitting fsw (s_type-fits (c_rd_small i) (c_rs2_small i) (c_sw_uimm i) 39 2)
expand_compressed-Redecodes a c_fsd i =
    fitting fsd (s_type-fits (c_rd_small i) (c_rs2_small i) (c_sd_uimm i) 39 3)
expand_compressed-Redecodes a c_addi4spn i =
    either (c_addi4spn_nzuimm i == 0) _ _ unknown
      (fitting addi (i_type-fits (c_rs2_small i) 2 (c_addi4spn_nzuimm i) 19 0))
expand_compressed-Redecodes a c_addi i = fitting addi (i_type-fits (c_rd i) (c_rd i) (c_imm i) 19 0)
expand_compressed-Redecodes a c_jal i = fitting jal (jal-fits 1 (c_jal_imm i))
expand_compressed-Redecodes a c_addiw i = either (c_rd i == 0) _ _ unknown (is_addiw)
expand_compressed-Redecodes a c_li i = fitting addi (i_type-fits (c_rd i) 0 (c_imm i) 19 0)
expand_compressed-Redecodes a c_addi16sp i =
    either (c_addi16sp_nzimm i == 0) _ _ unknown
      (fitting addi (i_type-fits 2 2 (c_addi16sp_nzimm i) 19 0))
expand_compressed-Redecodes a c_lui i =
    either (c_lui_nzimm i == 0) _ _ unknown (fitting lui (lui-fits (c_rd i) (c_lui_nzimm i)))
expand_compressed-Redecodes rv32 c_slli i =
    guarded (Factory.slli (c_rd i) (c_rd i) (c_uimm i)) i (c_uimm i) slli
      (shift_type-fits32 (c_rd i) (c_rd i) (c_uimm i) 1 0)
expand_compressed-Redecodes rv64 c_slli i =
    fitting slli (shift_type-fits (c_rd i) (c_rd i) (c_uimm i) 1 0)
expand_compressed-Redecodes rv128 c_slli i =
    fitting slli (shift_type-fits (c_rd i) (c_rd i) (c_uimm i) 1 0)
expand_compressed-Redecodes rv32 c_srli i =
    guarded (Factory.srli (c_rd_small i) (c_rd_small i) (c_uimm i)) i (c_uimm i) srli
      (shift_type-fits32 (c_rd_small i) (c_rd_small i) (c_uimm i) 5 0)
expand_compressed-Redecodes rv64 c_srli i =
    fitting srli (shift_type-fits (c_rd_small i) (c_rd_small i) (c_uimm i) 5 0)
expand_compressed-Redecodes rv128 c_srli i =
    fitting srli (shift_type-fits (c_rd_small i) (c_rd_small i) (c_uimm i) 5 0)
expand_compressed-Redecodes rv32 c_srai i =
    guarded (Factory.srai (c_rd_small i) (c_rd_small i) (c_uimm i)) i (c_uimm i) srai
      (shift_type-fits32 (c_rd_small i) (c_rd_small i) (c_uimm i) 5 32)
expand_compressed-Redecodes rv64 c_srai i =
    fitting srai (shift_type-fits (c_rd_small i) (c_rd_small i) (c_uimm i) 5 32)
expand_compressed-Redecodes rv128 c_srai i =
    fitting srai (shift_type-fits (c_rd_small i) (c_rd_small i) (c_uimm i) 5 32)
expand_compressed-Redecodes a c_andi i =
    fitting andi (i_type-fits (c_rd_small i) (c_rd_small i) (c_imm i) 19 7)
expand_compressed-Redecodes a c_j i = fitting jal (jal-fits 0 (c_j_imm i))
expand_compressed-Redecodes a c_beqz i =
    fitting beq (b_type-fits (c_rd_small i) 0 (c_branch_imm i) 0)
expand_compressed-Redecodes a c_bnez i =
    fitting bne (b_type-fits (c_rd_small i) 0 (c_branch_imm i) 1)
expand_compressed-Redecodes a c_lwsp i =
    either (c_rd i == 0) _ _ unknown (fitting lw (i_type-fits (c_rd i) 2 (c_lwsp_uimm i) 3 2))
expand_compressed-Redecodes a c_ldsp i =
    either (c_rd i == 0) _ _ unknown (fitting ld (i_type-fits (c_rd i) 2 (c_ldsp_uimm i) 3 3))
expand_compressed-Redecodes a c_flwsp i = fitting flw (i_type-fits (c_rd i) 2 (c_lwsp_uimm i) 7 2)
expand_compressed-Redecodes a c_fldsp i = fitting fld (i_type-fits (c_rd i) 2 (c_ldsp_uimm i) 7 3)
expand_compressed-Redecodes a c_swsp i = fitting sw (s_type-fits 2 (c_rs2 i) (c_swsp_uimm i) 35 2)
expand_compressed-Redecodes a c_sdsp i = fitting sd (s_type-fits 2 (c_rs2 i) (c_sdsp_uimm i) 35 3)
expand_compressed-Redecodes a c_fswsp i = fitting fsw (s_type-fits 2 (c_rs2 i) (c_swsp_uimm i) 39 2)
expand_compressed-Redecodes a c_fsdsp i = fitting fsd (s_type-fits 2 (c_rs2 i) (c_sdsp_uimm i) 39 3)
expand_compressed-Redecodes a c_ebreak i = fitting ebreak refl
expand_compressed-Redecodes a c_jr i =
    either (c_rd i == 0) _ _ unknown (fitting jalr (i_type-fits 0 (c_rd i) 0 103 0))
expand_compressed-Redecodes a c_jalr i = fitting jalr (i_type-fits 1 (c_rd i) 0 103 0)

-- For every architecture, compressed instruction and word: if the expansion answers an instruction
-- other than `undef` and `addiw`, then `decode_normal` decodes the word that it makes as that
-- instruction.
pub decode_normal-expand :
    (a : Architecture) (op : CompressedOpcode) (i : ℕ)
    → (expand_compressed a op i).1 ≢ undef
    → (expand_compressed a op i).1 ≢ addiw
    → decode_normal a (expand_compressed a op i).0 ≡ (expand_compressed a op i).1
decode_normal-expand a op i n w = (expand_compressed-Redecodes a op i).decodes n w
