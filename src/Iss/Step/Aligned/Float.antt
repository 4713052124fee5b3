-- ===== src/Iss/Step/Aligned/Float.antt =====
-- Floating-point instructions keep the program counter aligned.
use riscv_vp.Base.{ℕ, Bool}
use riscv_vp.Instr.Mapping.{Mapping}
use riscv_vp.Iss.Hart.{Environment, Softfloat, Floats}
use riscv_vp.Iss.Exec.{Exec}
use riscv_vp.Iss.Exec.Keeps.{Keeps}
use riscv_vp.Iss.Step.Float.{
  FloatFormat, fp_set_dirty, fp_update_exception_flags, fp_finish_instr, fp_require_not_off,
  fp_prepare_instr, fp_setup_rm, soft, read_fp, write_fp,
}
use riscv_vp.Iss.Step.FloatForms.{
  fp_arithmetic, fp_sqrt, fp_min, fp_max, fp_sign, fp_compare, fp_classify, fp_to_integer,
  fp_of_integer, fp_fused, fp_convert,
}
use riscv_vp.Iss.Step.SingleFloat.{
  load_single, store_single, move_to_single, move_from_single, single_float,
}
use riscv_vp.Iss.Step.DoubleFloat.{load_wide, store_wide, double_float}
use riscv_vp.Iss.Step.Aligned.{aligned}
use riscv_vp.Iss.Step.Aligned.Groups.{register_rules}

module _ {M : Type 0} where
  fp_set_dirty-Keeps : Keeps {M = M} aligned (fp_set_dirty)
  unfolding fp_set_dirty
  fp_set_dirty-Keeps = search register_rules depth 40

  fp_update_exception_flags-Keeps : Keeps {M = M} aligned (fp_update_exception_flags)
  unfolding fp_update_exception_flags
  fp_update_exception_flags-Keeps = search (register_rules, fp_set_dirty-Keeps) depth 40

  fp_finish_instr-Keeps : Keeps {M = M} aligned (fp_finish_instr)
  unfolding fp_finish_instr
  fp_finish_instr-Keeps =
      search (register_rules, fp_set_dirty-Keeps, fp_update_exception_flags-Keeps) depth 40

  fp_require_not_off-Keeps : Keeps {M = M} aligned (fp_require_not_off)
  unfolding fp_require_not_off
  fp_require_not_off-Keeps = search register_rules depth 40

  fp_prepare_instr-Keeps : Keeps {M = M} aligned (fp_prepare_instr)
  unfolding fp_prepare_instr
  fp_prepare_instr-Keeps = search (register_rules, fp_require_not_off-Keeps) depth 40

  fp_setup_rm-Keeps : (i : ℕ) → Keeps {M = M} aligned (fp_setup_rm i)
  unfolding fp_setup_rm
  fp_setup_rm-Keeps i = search register_rules depth 40

  soft-Keeps : {A : Type 0} (r : A × ℕ) → Keeps {M = M} aligned (soft r)
  unfolding soft
  soft-Keeps (a, flags) = search register_rules

  read_fp-Keeps : (f : FloatFormat) (k : ℕ) → Keeps {M = M} aligned (read_fp f k)
  unfolding read_fp
  read_fp-Keeps f k = search register_rules depth 40

  write_fp-Keeps : (f : FloatFormat) (i v : ℕ) → Keeps {M = M} aligned (write_fp f i v)
  unfolding write_fp
  write_fp-Keeps f i v = search register_rules depth 40

ruleset float_rules = (
  register_rules, fp_set_dirty-Keeps, fp_update_exception_flags-Keeps, fp_finish_instr-Keeps,
  fp_require_not_off-Keeps, fp_prepare_instr-Keeps, fp_setup_rm-Keeps, soft-Keeps, read_fp-Keeps,
  write_fp-Keeps,
)

module _ {M : Type 0} (f : FloatFormat) where
  fp_arithmetic-Keeps :
      (op : ℕ → ℕ → ℕ → ℕ × ℕ) (i : ℕ) → Keeps {M = M} aligned (fp_arithmetic f op i)
  unfolding fp_arithmetic
  fp_arithmetic-Keeps op i = search float_rules depth 40

  fp_sqrt-Keeps : (op : ℕ → ℕ → ℕ × ℕ) (i : ℕ) → Keeps {M = M} aligned (fp_sqrt f op i)
  unfolding fp_sqrt
  fp_sqrt-Keeps op i = search float_rules depth 40

  fp_min-Keeps : (lib : Softfloat) (i : ℕ) → Keeps {M = M} aligned (fp_min f lib i)
  unfolding fp_min
  fp_min-Keeps lib i = search float_rules depth 40

  fp_max-Keeps : (lib : Softfloat) (i : ℕ) → Keeps {M = M} aligned (fp_max f lib i)
  unfolding fp_max
  fp_max-Keeps lib i = search float_rules depth 40

  fp_sign-Keeps : (op : ℕ → ℕ → ℕ) (i : ℕ) → Keeps {M = M} aligned (fp_sign f op i)
  unfolding fp_sign
  fp_sign-Keeps op i = search float_rules depth 40

  fp_compare-Keeps : (op : ℕ → ℕ → Bool × ℕ) (i : ℕ) → Keeps {M = M} aligned (fp_compare f op i)
  unfolding fp_compare
  fp_compare-Keeps op i = search float_rules depth 40

  fp_classify-Keeps : (op : ℕ → ℕ) (i : ℕ) → Keeps {M = M} aligned (fp_classify f op i)
  unfolding fp_classify
  fp_classify-Keeps op i = search float_rules depth 40

  fp_to_integer-Keeps : (op : ℕ → ℕ → ℕ × ℕ) (i : ℕ) → Keeps {M = M} aligned (fp_to_integer f op i)
  unfolding fp_to_integer
  fp_to_integer-Keeps op i = search float_rules depth 40

  fp_of_integer-Keeps : (op : ℕ → ℕ → ℕ × ℕ) (i : ℕ) → Keeps {M = M} aligned (fp_of_integer f op i)
  unfolding fp_of_integer
  fp_of_integer-Keeps op i = search float_rules depth 40

  fp_fused-Keeps :
      (op : ℕ → ℕ → ℕ → ℕ → ℕ × ℕ) (g h : ℕ → ℕ) (i : ℕ)
      → Keeps {M = M} aligned (fp_fused f op g h i)
  unfolding fp_fused
  fp_fused-Keeps op g h i = search float_rules depth 40

  fp_convert-Keeps :
      (g : FloatFormat) (op : ℕ → ℕ → ℕ × ℕ) (i : ℕ) → Keeps {M = M} aligned (fp_convert f g op i)
  unfolding fp_convert
  fp_convert-Keeps g op i = search float_rules depth 40

module _ {M : Type 0} (env : Environment M) (lib : Softfloat) where
  load_single-Keeps : (i : ℕ) → Keeps aligned (load_single env lib i)
  unfolding load_single
  load_single-Keeps i = search float_rules depth 40

  store_single-Keeps : (i : ℕ) → Keeps aligned (store_single env lib i)
  unfolding store_single
  store_single-Keeps i = search float_rules depth 40

  move_to_single-Keeps : (i : ℕ) → Keeps aligned (move_to_single env lib i)
  unfolding move_to_single
  move_to_single-Keeps i = search float_rules depth 40

  move_from_single-Keeps : (i : ℕ) → Keeps aligned (move_from_single env lib i)
  unfolding move_from_single
  move_from_single-Keeps i = search float_rules depth 40

  pub single_float-Keeps :
      (op : Mapping) (i : ℕ) (rest : Exec M (Unit {0}))
      → Keeps aligned rest
      → Keeps aligned (single_float env lib op i rest)
  unfolding single_float
  single_float-Keeps Mapping.flw i rest k = load_single-Keeps i
  single_float-Keeps _ i rest k = search (
    load_single-Keeps, store_single-Keeps, move_to_single-Keeps, move_from_single-Keeps,
    fp_arithmetic-Keeps, fp_sqrt-Keeps, fp_min-Keeps, fp_max-Keeps, fp_sign-Keeps, fp_compare-Keeps,
    fp_classify-Keeps, fp_to_integer-Keeps, fp_of_integer-Keeps, fp_fused-Keeps, k,
  )

module _ {M : Type 0} (env : Environment M) (floats : Floats) where
  load_wide-Keeps : (i : ℕ) → Keeps aligned (load_wide env floats i)
  unfolding load_wide
  load_wide-Keeps i = search float_rules depth 40

  store_wide-Keeps : (i : ℕ) → Keeps aligned (store_wide env floats i)
  unfolding store_wide
  store_wide-Keeps i = search float_rules depth 40

  pub double_float-Keeps :
      (op : Mapping) (i : ℕ) (rest : Exec M (Unit {0}))
      → Keeps aligned rest
      → Keeps aligned (double_float env floats op i rest)
  unfolding double_float
  double_float-Keeps Mapping.fld i rest k = load_wide-Keeps i
  double_float-Keeps _ i rest k = search (
    load_wide-Keeps, store_wide-Keeps, fp_convert-Keeps, fp_arithmetic-Keeps, fp_sqrt-Keeps,
    fp_min-Keeps, fp_max-Keeps, fp_sign-Keeps, fp_compare-Keeps, fp_classify-Keeps,
    fp_to_integer-Keeps, fp_of_integer-Keeps, fp_fused-Keeps, k,
  )
