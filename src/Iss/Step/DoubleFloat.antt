-- ===== src/Iss/Step/DoubleFloat.antt =====
-- The D extension in `ISS::exec_step` (vp/src/core/rv32/iss.cpp).
use riscv_vp.Base.{ℕ, ◌-◌, ◌^◌, bit_and, bit_or, bit_xor}
use riscv_vp.Instr.Mapping.{
  Mapping, fld, fsd, fmadd_d, fmsub_d, fnmsub_d, fnmadd_d, fadd_d, fsub_d, fmul_d, fdiv_d, fsqrt_d,
  fsgnj_d, fsgnjn_d, fsgnjx_d, fmin_d, fmax_d, fcvt_s_d, fcvt_d_s, feq_d, flt_d, fle_d, fclass_d,
  fcvt_w_d, fcvt_wu_d, fcvt_d_w, fcvt_d_wu,
}
use riscv_vp.Instr.Fields.{rs1, rs2, i_imm, s_imm}
use riscv_vp.Iss.State.{isa_d}
use riscv_vp.Iss.Alu.{add32}
use riscv_vp.Iss.Hart.{Environment, Floats}
use riscv_vp.Iss.Exec.{Exec, access, ◌>>=◌, ◌>>◌}
use riscv_vp.Iss.Csr.Read.{require_isa}
use riscv_vp.Iss.Step.Registers.{read_reg, check_alignment}
use riscv_vp.Iss.Step.Memory.{load_misaligned, store_misaligned}
use riscv_vp.Iss.Step.Float.{single, double, negate, read_fp, write_fp}
use riscv_vp.Iss.Step.FloatForms.{
  fp_arithmetic, fp_sqrt, fp_fused, fp_min, fp_max, fp_sign, fp_compare, fp_classify, fp_to_integer,
  fp_of_integer, fp_convert,
}

module _ {M : Type 0} (env : Environment M) (floats : Floats) where
  unfoldable pub load_wide : ℕ → Exec M (Unit {0})
  load_wide i = do
    require_isa isa_d
    a ← read_reg (rs1 i)
    check_alignment 8 load_misaligned (add32 a (i_imm i))
    v ← access (env.load_double (add32 a (i_imm i)))
    write_fp double i v

  unfoldable pub store_wide : ℕ → Exec M (Unit {0})
  store_wide i = do
    require_isa isa_d
    a ← read_reg (rs1 i)
    check_alignment 8 store_misaligned (add32 a (s_imm i))
    v ← read_fp double (rs2 i)
    access (env.store_double (add32 a (s_imm i)) v)

  -- The cases of the D extension.
  unfoldable pub double_float : Mapping → ℕ → Exec M (Unit {0}) → Exec M (Unit {0})
  double_float fld i rest = load_wide i
  double_float fsd i rest = store_wide i
  double_float fadd_d i rest = fp_arithmetic double floats.f64.add i
  double_float fsub_d i rest = fp_arithmetic double floats.f64.sub i
  double_float fmul_d i rest = fp_arithmetic double floats.f64.mul i
  double_float fdiv_d i rest = fp_arithmetic double floats.f64.div i
  double_float fsqrt_d i rest = fp_sqrt double floats.f64.sqrt i
  double_float fmin_d i rest = fp_min double floats.f64 i
  double_float fmax_d i rest = fp_max double floats.f64 i
  double_float fmadd_d i rest = fp_fused double floats.f64.mul_add (λ x. x) (λ x. x) i
  double_float fmsub_d i rest = fp_fused double floats.f64.mul_add (λ x. x) (negate double) i
  double_float fnmadd_d i rest =
      fp_fused double floats.f64.mul_add (negate double) (negate double) i
  double_float fnmsub_d i rest = fp_fused double floats.f64.mul_add (negate double) (λ x. x) i
  double_float fcvt_w_d i rest = fp_to_integer double floats.f64.to_i32 i
  double_float fcvt_wu_d i rest = fp_to_integer double floats.f64.to_ui32 i
  double_float fcvt_d_w i rest = fp_of_integer double floats.f64.of_i32 i
  double_float fcvt_d_wu i rest = fp_of_integer double floats.f64.of_ui32 i
  double_float fsgnj_d i rest =
      fp_sign double (λ a b. bit_or (bit_and a (2 ^ 63 - 1)) (bit_and b (2 ^ 63))) i
  double_float fsgnjn_d i rest =
      fp_sign double
        (λ a b. bit_or (bit_and a (2 ^ 63 - 1)) (bit_and (bit_xor b (2 ^ 63)) (2 ^ 63))) i
  double_float fsgnjx_d i rest = fp_sign double (λ a b. bit_xor a (bit_and b (2 ^ 63))) i
  double_float feq_d i rest = fp_compare double floats.f64.eq i
  double_float flt_d i rest = fp_compare double floats.f64.lt i
  double_float fle_d i rest = fp_compare double floats.f64.le i
  double_float fclass_d i rest = fp_classify double floats.f64.classify i
  double_float fcvt_s_d i rest = fp_convert double single floats.f64.convert i
  double_float fcvt_d_s i rest = fp_convert single double floats.f32.convert i
  double_float _ i rest = rest
