-- ===== src/Instr/Decode/Float.antt =====
-- The cases of `Instruction::decode_normal` for the floating-point instructions
-- (vp/src/core/common/instr.cpp).
use riscv_vp.Base.{ℕ, [], ◌∷◌, switch}
use riscv_vp.Instr.Mapping.{
  Architecture, Mapping, undef, fadd_d, fadd_s, fclass_d, fclass_s, fcvt_d_l, fcvt_d_lu, fcvt_d_s,
  fcvt_d_w, fcvt_d_wu, fcvt_l_d, fcvt_l_s, fcvt_lu_d, fcvt_lu_s, fcvt_s_d, fcvt_s_l, fcvt_s_lu,
  fcvt_s_w, fcvt_s_wu, fcvt_w_d, fcvt_w_s, fcvt_wu_d, fcvt_wu_s, fdiv_d, fdiv_s, feq_d, feq_s, fld,
  fle_d, fle_s, flt_d, flt_s, flw, fmadd_d, fmadd_s, fmax_d, fmax_s, fmin_d, fmin_s, fmsub_d,
  fmsub_s, fmul_d, fmul_s, fmv_d_x, fmv_w_x, fmv_x_d, fmv_x_w, fnmadd_d, fnmadd_s, fnmsub_d,
  fnmsub_s, fsd, fsgnj_d, fsgnj_s, fsgnjn_d, fsgnjn_s, fsgnjx_d, fsgnjx_s, fsqrt_d, fsqrt_s, fsub_d,
  fsub_s, fsw,
}
use riscv_vp.Instr.Parts.{
  f2_fmadd_d, f2_fmadd_s, f2_fmsub_d, f2_fmsub_s, f2_fnmadd_d, f2_fnmadd_s, f2_fnmsub_d,
  f2_fnmsub_s, f3_fclass_d, f3_fclass_s, f3_feq_d, f3_feq_s, f3_fld, f3_fle_d, f3_fle_s, f3_flt_d,
  f3_flt_s, f3_flw, f3_fmax_d, f3_fmax_s, f3_fmin_d, f3_fmin_s, f3_fmv_x_d, f3_fmv_x_w, f3_fsd,
  f3_fsgnj_d, f3_fsgnj_s, f3_fsgnjn_d, f3_fsgnjn_s, f3_fsgnjx_d, f3_fsgnjx_s, f3_fsw, f7_fadd_d,
  f7_fadd_s, f7_fcvt_d_s, f7_fcvt_d_w, f7_fcvt_s_d, f7_fcvt_s_w, f7_fcvt_w_d, f7_fcvt_w_s,
  f7_fdiv_d, f7_fdiv_s, f7_fle_d, f7_fle_s, f7_fmin_d, f7_fmin_s, f7_fmul_d, f7_fmul_s, f7_fmv_d_x,
  f7_fmv_w_x, f7_fmv_x_d, f7_fmv_x_w, f7_fsgnj_d, f7_fsgnj_s, f7_fsqrt_d, f7_fsqrt_s, f7_fsub_d,
  f7_fsub_s, rs2_fcvt_d_l, rs2_fcvt_d_lu, rs2_fcvt_d_w, rs2_fcvt_d_wu, rs2_fcvt_l_d, rs2_fcvt_l_s,
  rs2_fcvt_lu_d, rs2_fcvt_lu_s, rs2_fcvt_s_l, rs2_fcvt_s_lu, rs2_fcvt_s_w, rs2_fcvt_s_wu,
  rs2_fcvt_w_d, rs2_fcvt_w_s, rs2_fcvt_wu_d, rs2_fcvt_wu_s,
}
use riscv_vp.Instr.Fields.{funct2, funct3, funct7, rs2}
use riscv_vp.Instr.Pattern.{match_instr}

unfoldable pub decode_fmadd : Architecture → ℕ → Mapping
decode_fmadd a i =
    switch (funct2 i)
      ((f2_fmadd_s, match_instr fmadd_s a i) ∷ (f2_fmadd_d, match_instr fmadd_d a i) ∷ []) undef

unfoldable pub decode_op_fp : Architecture → ℕ → Mapping
decode_op_fp a i =
    switch (funct7 i)
      ((f7_fadd_s, match_instr fadd_s a i)
        ∷ (f7_fadd_d, match_instr fadd_d a i)
        ∷ (f7_fsub_s, match_instr fsub_s a i)
        ∷ (f7_fsub_d, match_instr fsub_d a i)
        ∷ (f7_fcvt_d_s, match_instr fcvt_d_s a i)
        ∷ (f7_fmul_s, match_instr fmul_s a i)
        ∷ (f7_fmul_d, match_instr fmul_d a i)
        ∷ (f7_fdiv_s, match_instr fdiv_s a i)
        ∷ (f7_fdiv_d, match_instr fdiv_d a i)
        ∷ (
          f7_fle_s,
          switch (funct3 i)
              ((f3_fle_s, match_instr fle_s a i)
                ∷ (f3_flt_s, match_instr flt_s a i)
                ∷ (f3_feq_s, match_instr feq_s a i)
                ∷ [])
              undef,
        )
        ∷ (
          f7_fsgnj_d,
          switch (funct3 i)
              ((f3_fsgnj_d, match_instr fsgnj_d a i)
                ∷ (f3_fsgnjn_d, match_instr fsgnjn_d a i)
                ∷ (f3_fsgnjx_d, match_instr fsgnjx_d a i)
                ∷ [])
              undef,
        )
        ∷ (
          f7_fmin_s,
          switch (funct3 i)
              ((f3_fmin_s, match_instr fmin_s a i) ∷ (f3_fmax_s, match_instr fmax_s a i) ∷ [])
              undef,
        )
        ∷ (
          f7_fmin_d,
          switch (funct3 i)
              ((f3_fmin_d, match_instr fmin_d a i) ∷ (f3_fmax_d, match_instr fmax_d a i) ∷ [])
              undef,
        )
        ∷ (f7_fcvt_s_d, match_instr fcvt_s_d a i)
        ∷ (
          f7_fsgnj_s,
          switch (funct3 i)
              ((f3_fsgnj_s, match_instr fsgnj_s a i)
                ∷ (f3_fsgnjn_s, match_instr fsgnjn_s a i)
                ∷ (f3_fsgnjx_s, match_instr fsgnjx_s a i)
                ∷ [])
              undef,
        )
        ∷ (
          f7_fle_d,
          switch (funct3 i)
              ((f3_fle_d, match_instr fle_d a i)
                ∷ (f3_flt_d, match_instr flt_d a i)
                ∷ (f3_feq_d, match_instr feq_d a i)
                ∷ [])
              undef,
        )
        ∷ (
          f7_fcvt_s_w,
          switch (rs2 i)
              ((rs2_fcvt_s_w, match_instr fcvt_s_w a i)
                ∷ (rs2_fcvt_s_wu, match_instr fcvt_s_wu a i)
                ∷ (rs2_fcvt_s_l, match_instr fcvt_s_l a i)
                ∷ (rs2_fcvt_s_lu, match_instr fcvt_s_lu a i)
                ∷ [])
              undef,
        )
        ∷ (
          f7_fcvt_d_w,
          switch (rs2 i)
              ((rs2_fcvt_d_w, match_instr fcvt_d_w a i)
                ∷ (rs2_fcvt_d_wu, match_instr fcvt_d_wu a i)
                ∷ (rs2_fcvt_d_l, match_instr fcvt_d_l a i)
                ∷ (rs2_fcvt_d_lu, match_instr fcvt_d_lu a i)
                ∷ [])
              undef,
        )
        ∷ (
          f7_fcvt_w_d,
          switch (rs2 i)
              ((rs2_fcvt_w_d, match_instr fcvt_w_d a i)
                ∷ (rs2_fcvt_wu_d, match_instr fcvt_wu_d a i)
                ∷ (rs2_fcvt_l_d, match_instr fcvt_l_d a i)
                ∷ (rs2_fcvt_lu_d, match_instr fcvt_lu_d a i)
                ∷ [])
              undef,
        )
        ∷ (f7_fsqrt_s, match_instr fsqrt_s a i)
        ∷ (f7_fsqrt_d, match_instr fsqrt_d a i)
        ∷ (
          f7_fcvt_w_s,
          switch (rs2 i)
              ((rs2_fcvt_w_s, match_instr fcvt_w_s a i)
                ∷ (rs2_fcvt_wu_s, match_instr fcvt_wu_s a i)
                ∷ (rs2_fcvt_l_s, match_instr fcvt_l_s a i)
                ∷ (rs2_fcvt_lu_s, match_instr fcvt_lu_s a i)
                ∷ [])
              undef,
        )
        ∷ (
          f7_fmv_x_w,
          switch (funct3 i)
              ((f3_fmv_x_w, match_instr fmv_x_w a i) ∷ (f3_fclass_s, match_instr fclass_s a i) ∷ [])
              undef,
        )
        ∷ (
          f7_fmv_x_d,
          switch (funct3 i)
              ((f3_fmv_x_d, match_instr fmv_x_d a i) ∷ (f3_fclass_d, match_instr fclass_d a i) ∷ [])
              undef,
        )
        ∷ (f7_fmv_w_x, match_instr fmv_w_x a i)
        ∷ (f7_fmv_d_x, match_instr fmv_d_x a i)
        ∷ [])
      undef

unfoldable pub decode_load_fp : Architecture → ℕ → Mapping
decode_load_fp a i =
    switch (funct3 i) ((f3_flw, match_instr flw a i) ∷ (f3_fld, match_instr fld a i) ∷ []) undef

unfoldable pub decode_store_fp : Architecture → ℕ → Mapping
decode_store_fp a i =
    switch (funct3 i) ((f3_fsw, match_instr fsw a i) ∷ (f3_fsd, match_instr fsd a i) ∷ []) undef

unfoldable pub decode_fmsub : Architecture → ℕ → Mapping
decode_fmsub a i =
    switch (funct2 i)
      ((f2_fmsub_s, match_instr fmsub_s a i) ∷ (f2_fmsub_d, match_instr fmsub_d a i) ∷ []) undef

unfoldable pub decode_fnmsub : Architecture → ℕ → Mapping
decode_fnmsub a i =
    switch (funct2 i)
      ((f2_fnmsub_s, match_instr fnmsub_s a i) ∷ (f2_fnmsub_d, match_instr fnmsub_d a i) ∷ []) undef

unfoldable pub decode_fnmadd : Architecture → ℕ → Mapping
decode_fnmadd a i =
    switch (funct2 i)
      ((f2_fnmadd_s, match_instr fnmadd_s a i) ∷ (f2_fnmadd_d, match_instr fnmadd_d a i) ∷ []) undef
