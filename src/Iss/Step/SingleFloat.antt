-- ===== src/Iss/Step/SingleFloat.antt =====
-- The F extension in `ISS::exec_step` (vp/src/core/rv32/iss.cpp).
use riscv_vp.Base.{ℕ, ◌-◌, ◌%◌, ◌^◌, bit_and, bit_or, bit_xor}
use riscv_vp.Instr.Mapping.{
  Mapping, flw, fsw, fmadd_s, fmsub_s, fnmadd_s, fnmsub_s, fadd_s, fsub_s, fmul_s, fdiv_s, fsqrt_s,
  fsgnj_s, fsgnjn_s, fsgnjx_s, fmin_s, fmax_s, fcvt_w_s, fcvt_wu_s, fmv_x_w, feq_s, flt_s, fle_s,
  fclass_s, fcvt_s_w, fcvt_s_wu, fmv_w_x,
}
use riscv_vp.Instr.Fields.{rs1, rs2, i_imm, s_imm}
use riscv_vp.Iss.State.{isa_f}
use riscv_vp.Iss.Alu.{add32}
use riscv_vp.Iss.Hart.{Environment, Softfloat}
use riscv_vp.Iss.Exec.{Exec, gets, access, ◌>>=◌, ◌>>◌}
use riscv_vp.Iss.Csr.Read.{require_isa}
use riscv_vp.Iss.Step.Registers.{read_reg, write_rd, check_alignment}
use riscv_vp.Iss.Step.Memory.{load_misaligned, store_misaligned}
use riscv_vp.Iss.Step.Float.{single, negate, fp_set_dirty, fp_prepare_instr, write_fp}
use riscv_vp.Iss.Step.FloatForms.{
  fp_arithmetic, fp_sqrt, fp_fused, fp_min, fp_max, fp_sign, fp_compare, fp_classify, fp_to_integer,
  fp_of_integer,
}

module _ {M : Type 0} (env : Environment M) (lib : Softfloat) where
  unfoldable pub load_single : ℕ → Exec M (Unit {0})
  load_single i = do
    require_isa isa_f
    a ← read_reg (rs1 i)
    check_alignment 4 load_misaligned (add32 a (i_imm i))
    v ← access (env.load_word (add32 a (i_imm i)))
    write_fp single i v

  -- The low half of the register is stored, boxed or not.
  unfoldable pub store_single : ℕ → Exec M (Unit {0})
  store_single i = do
    require_isa isa_f
    a ← read_reg (rs1 i)
    check_alignment 4 store_misaligned (add32 a (s_imm i))
    v ← gets (λ h. h.fp_regs (rs2 i) % 2 ^ 32)
    access (env.store_word (add32 a (s_imm i)) v)

  unfoldable pub move_to_single : ℕ → Exec M (Unit {0})
  move_to_single i = do
    require_isa isa_f
    fp_prepare_instr
    a ← read_reg (rs1 i)
    write_fp single i a
    fp_set_dirty

  unfoldable pub move_from_single : ℕ → Exec M (Unit {0})
  move_from_single i = do
    require_isa isa_f
    fp_prepare_instr
    v ← gets (λ h. h.fp_regs (rs1 i) % 2 ^ 32)
    write_rd i v

  -- The cases of the F extension.
  unfoldable pub single_float : Mapping → ℕ → Exec M (Unit {0}) → Exec M (Unit {0})
  single_float flw i rest = load_single i
  single_float fsw i rest = store_single i
  single_float fadd_s i rest = fp_arithmetic single lib.add i
  single_float fsub_s i rest = fp_arithmetic single lib.sub i
  single_float fmul_s i rest = fp_arithmetic single lib.mul i
  single_float fdiv_s i rest = fp_arithmetic single lib.div i
  single_float fsqrt_s i rest = fp_sqrt single lib.sqrt i
  single_float fmin_s i rest = fp_min single lib i
  single_float fmax_s i rest = fp_max single lib i
  single_float fmadd_s i rest = fp_fused single lib.mul_add (λ x. x) (λ x. x) i
  single_float fmsub_s i rest = fp_fused single lib.mul_add (λ x. x) (negate single) i
  single_float fnmadd_s i rest = fp_fused single lib.mul_add (negate single) (negate single) i
  single_float fnmsub_s i rest = fp_fused single lib.mul_add (negate single) (λ x. x) i
  single_float fcvt_w_s i rest = fp_to_integer single lib.to_i32 i
  single_float fcvt_wu_s i rest = fp_to_integer single lib.to_ui32 i
  single_float fcvt_s_w i rest = fp_of_integer single lib.of_i32 i
  single_float fcvt_s_wu i rest = fp_of_integer single lib.of_ui32 i
  single_float fsgnj_s i rest =
      fp_sign single (λ a b. bit_or (bit_and a (2 ^ 31 - 1)) (bit_and b (2 ^ 31))) i
  single_float fsgnjn_s i rest =
      fp_sign single
        (λ a b. bit_or (bit_and a (2 ^ 31 - 1)) (bit_and (bit_xor b (2 ^ 31)) (2 ^ 31))) i
  single_float fsgnjx_s i rest = fp_sign single (λ a b. bit_xor a (bit_and b (2 ^ 31))) i
  single_float feq_s i rest = fp_compare single lib.eq i
  single_float flt_s i rest = fp_compare single lib.lt i
  single_float fle_s i rest = fp_compare single lib.le i
  single_float fclass_s i rest = fp_classify single lib.classify i
  single_float fmv_w_x i rest = move_to_single i
  single_float fmv_x_w i rest = move_from_single i
  single_float _ i rest = rest
