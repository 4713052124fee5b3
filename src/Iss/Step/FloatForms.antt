-- ===== src/Iss/Step/FloatForms.antt =====
-- The forms of the floating-point instructions of `ISS::exec_step` (vp/src/core/rv32/iss.cpp),
-- for both formats.
use riscv_vp.Base.{ℕ, Bool, true, ◌&&◌, if◌then◌else◌}
use riscv_vp.Instr.Fields.{rs1, rs2, rs3}
use riscv_vp.Iss.State.{isa_d}
use riscv_vp.Iss.Alu.{flag}
use riscv_vp.Iss.Hart.{Softfloat}
use riscv_vp.Iss.Exec.{Exec, pure, ◌>>=◌, ◌>>◌}
use riscv_vp.Iss.Csr.Read.{require_isa}
use riscv_vp.Iss.Step.Registers.{read_reg, write_rd}
use riscv_vp.Iss.Step.Float.{
  FloatFormat, is_negative, is_nan, fp_set_dirty, fp_update_exception_flags, fp_finish_instr,
  fp_prepare_instr, fp_setup_rm, soft, read_fp, write_fp,
}

module _ {M : Type 0} (f : FloatFormat) where
  begin : Exec M (Unit {0})
  begin = do require_isa f.extension; fp_prepare_instr

  -- `fp_regs.write(RD, f(RS1, RS2))` with a rounding mode.
  unfoldable pub fp_arithmetic : (ℕ → ℕ → ℕ → ℕ × ℕ) → ℕ → Exec M (Unit {0})
  unfolding begin
  fp_arithmetic op i = do
    begin
    rm ← fp_setup_rm i
    a ← read_fp f (rs1 i)
    b ← read_fp f (rs2 i)
    v ← soft (op rm a b)
    write_fp f i v
    fp_finish_instr

  unfoldable pub fp_sqrt : (ℕ → ℕ → ℕ × ℕ) → ℕ → Exec M (Unit {0})
  unfolding begin
  fp_sqrt op i = do
    begin
    rm ← fp_setup_rm i
    a ← read_fp f (rs1 i)
    v ← soft (op rm a)
    write_fp f i v
    fp_finish_instr

  -- The fused operations; `first` and `third` negate an operand or leave it.
  unfoldable pub fp_fused : (ℕ → ℕ → ℕ → ℕ → ℕ × ℕ) → (ℕ → ℕ) → (ℕ → ℕ) → ℕ → Exec M (Unit {0})
  unfolding begin
  fp_fused op first third i = do
    begin
    rm ← fp_setup_rm i
    a ← read_fp f (rs1 i)
    b ← read_fp f (rs2 i)
    c ← read_fp f (rs3 i)
    v ← soft (op rm (first a) b (third c))
    write_fp f i v
    fp_finish_instr

  equal_negative : Softfloat → ℕ → ℕ → Exec M Bool
  equal_negative lib x y = do same ← soft (lib.eq x y); pure (same && is_negative f x)

  -- The order of FMIN and FMAX: `x < y`, or they are equal and `x` is negative.
  precedes : Softfloat → ℕ → ℕ → Exec M Bool
  precedes lib x y = do
    smaller ← soft (lib.lt_quiet x y)
    if smaller then pure true else equal_negative lib x y

  write_extremum : Bool → ℕ → ℕ → ℕ → Exec M (Unit {0})
  write_extremum take_first a b i =
      write_fp f i (if is_nan f a && is_nan f b then f.default_nan else if take_first then a else b)

  unfoldable pub fp_min : Softfloat → ℕ → Exec M (Unit {0})
  unfolding begin precedes equal_negative write_extremum
  fp_min lib i = do
    begin
    a ← read_fp f (rs1 i)
    b ← read_fp f (rs2 i)
    rs1_smaller ← precedes lib a b
    write_extremum rs1_smaller a b i
    fp_finish_instr

  unfoldable pub fp_max : Softfloat → ℕ → Exec M (Unit {0})
  unfolding begin precedes equal_negative write_extremum
  fp_max lib i = do
    begin
    a ← read_fp f (rs1 i)
    b ← read_fp f (rs2 i)
    rs1_greater ← precedes lib b a
    write_extremum rs1_greater a b i
    fp_finish_instr

  -- The sign injections.
  unfoldable pub fp_sign : (ℕ → ℕ → ℕ) → ℕ → Exec M (Unit {0})
  unfolding begin
  fp_sign inject i = do
    begin
    a ← read_fp f (rs1 i)
    b ← read_fp f (rs2 i)
    write_fp f i (inject a b)
    fp_set_dirty

  unfoldable pub fp_compare : (ℕ → ℕ → Bool × ℕ) → ℕ → Exec M (Unit {0})
  unfolding begin
  fp_compare op i = do
    begin
    a ← read_fp f (rs1 i)
    b ← read_fp f (rs2 i)
    v ← soft (op a b)
    write_rd i (flag v)
    fp_update_exception_flags

  unfoldable pub fp_classify : (ℕ → ℕ) → ℕ → Exec M (Unit {0})
  unfolding begin
  fp_classify op i = do begin; a ← read_fp f (rs1 i); write_rd i (op a)

  -- Conversions to and from an integer register, and to the format `g`.
  unfoldable pub fp_to_integer : (ℕ → ℕ → ℕ × ℕ) → ℕ → Exec M (Unit {0})
  unfolding begin
  fp_to_integer op i = do
    begin
    rm ← fp_setup_rm i
    a ← read_fp f (rs1 i)
    v ← soft (op rm a)
    write_rd i v
    fp_finish_instr

  unfoldable pub fp_of_integer : (ℕ → ℕ → ℕ × ℕ) → ℕ → Exec M (Unit {0})
  unfolding begin
  fp_of_integer op i = do
    begin
    rm ← fp_setup_rm i
    a ← read_reg (rs1 i)
    v ← soft (op rm a)
    write_fp f i v
    fp_finish_instr

  -- FCVT between the formats needs the D extension.
  unfoldable pub fp_convert : FloatFormat → (ℕ → ℕ → ℕ × ℕ) → ℕ → Exec M (Unit {0})
  fp_convert g op i = do
    require_isa isa_d
    fp_prepare_instr
    rm ← fp_setup_rm i
    a ← read_fp f (rs1 i)
    v ← soft (op rm a)
    write_fp g i v
    fp_finish_instr
