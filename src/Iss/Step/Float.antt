-- ===== src/Iss/Step/Float.antt =====
-- The floating-point registers and the checks around an instruction on them
-- (vp/src/core/common/fp.h, `fp_prepare_instr` and the like of vp/src/core/rv32/iss.cpp).
use riscv_vp.Base.{
  ℕ, ◌+◌, ◌-◌, ◌*◌, ◌/◌, ◌%◌, ◌^◌, Bool, true, ◌&&◌, not, leb, ◌==◌, if◌then◌else◌, bit_and, bit_or,
  bit_xor,
}
use riscv_vp.Instr.Fields.{rd, frm}
use riscv_vp.Iss.State.{isa_d, isa_f}
use riscv_vp.Iss.Exec.{Exec, pure, gets, modify, when, require, ◌>>=◌, ◌>>◌}
use riscv_vp.Iss.Csr.Read.{illegal_instruction}

-- `FpRegs` (vp/src/core/common/fp.h): a register of 64 bits holds a `float32_t` in a box of ones.
unfoldable pub box_f32 : ℕ → ℕ
box_f32 x = x + (2 ^ 32 - 1) * 2 ^ 32

abbrev pub default_nan_f32 : ℕ
default_nan_f32 = 0x7fc00000

abbrev pub default_nan_f64 : ℕ
default_nan_f64 = 0x7ff8000000000000

unfoldable pub unbox_f32 : ℕ → ℕ
unbox_f32 x = if x / 2 ^ 32 == 2 ^ 32 - 1 then x % 2 ^ 32 else default_nan_f32

-- The sign bit, negation and the test for NaN of a format.
pub record FloatFormat : Type 0 where
  pub sign_bit : ℕ
  pub exponent_mask : ℕ
  pub fraction_mask : ℕ
  pub default_nan : ℕ
  -- the extension that the format needs
  pub extension : ℕ
  -- a register's value in the format, and back
  pub of_register : ℕ → ℕ
  pub to_register : ℕ → ℕ

abbrev pub single : FloatFormat
single = record {
  sign_bit = 2 ^ 31;
  exponent_mask = 0x7f800000;
  fraction_mask = 0x007fffff;
  default_nan = default_nan_f32;
  extension = isa_f;
  of_register = unbox_f32;
  to_register = box_f32;
}

abbrev pub double : FloatFormat
double = record {
  sign_bit = 2 ^ 63;
  exponent_mask = 0x7ff0000000000000;
  fraction_mask = 0x000fffffffffffff;
  default_nan = default_nan_f64;
  extension = isa_d;
  of_register = λ x. x;
  to_register = λ x. x;
}

unfoldable pub is_negative : FloatFormat → ℕ → Bool
is_negative f x = not (bit_and x f.sign_bit == 0)

unfoldable pub negate : FloatFormat → ℕ → ℕ
negate f x = bit_xor x f.sign_bit

-- All bits of the exponent are set, and one of the fraction.
unfoldable pub is_nan : FloatFormat → ℕ → Bool
is_nan f x = (bit_and x f.exponent_mask == f.exponent_mask) && not (bit_and x f.fraction_mask == 0)

-- `f1.v & ~SIGN_BIT`.
abbrev magnitude : FloatFormat → ℕ → ℕ
magnitude f x = bit_and x (f.sign_bit - 1)

module _ {M : Type 0} where
  unfoldable pub fp_set_dirty : Exec M (Unit {0})
  fp_set_dirty =
      modify λ h. record h {
        iss = record h.iss { mstatus = record h.iss.mstatus { sd = true; fs = 3 } };
      }

  clear_flags : Exec M (Unit {0})
  clear_flags = modify λ h. record h {
    csrs = record h.csrs { fcsr = bit_or h.csrs.fcsr h.exception_flags };
    exception_flags = 0;
  }

  unfoldable pub fp_update_exception_flags : Exec M (Unit {0})
  unfolding clear_flags
  fp_update_exception_flags = do
    raised ← gets (λ h. not (h.exception_flags == 0))
    when raised (fp_set_dirty >> clear_flags)

  unfoldable pub fp_finish_instr : Exec M (Unit {0})
  fp_finish_instr = do fp_set_dirty; fp_update_exception_flags

  unfoldable pub fp_require_not_off : Exec M (Unit {0})
  fp_require_not_off = do off ← gets (λ h. h.iss.mstatus.fs == 0); when off illegal_instruction

  unfoldable pub fp_prepare_instr : Exec M (Unit {0})
  fp_prepare_instr = do
    clear ← gets (λ h. h.exception_flags == 0)
    require clear
    fp_require_not_off

  -- The rounding mode: 7 takes it from `fcsr`, and 4 and more are illegal.
  unfoldable pub fp_setup_rm : ℕ → Exec M ℕ
  fp_setup_rm i = do
    dynamic ← gets (λ h. h.csrs.fcsr / 2 ^ 5 % 2 ^ 3)
    let rm = if frm i == 7 then dynamic else frm i
    if leb 4 rm then illegal_instruction else pure rm

  -- A call of softfloat: the flags that it raises stay in `softfloat_exceptionFlags`.
  unfoldable pub soft : {A : Type 0} → A × ℕ → Exec M A
  soft (a, flags) = do
    modify (λ h. record h { exception_flags = bit_or h.exception_flags flags })
    pure a

  unfoldable pub read_fp : FloatFormat → ℕ → Exec M ℕ
  read_fp f index = gets (λ h. f.of_register (h.fp_regs index))

  unfoldable pub write_fp : FloatFormat → ℕ → ℕ → Exec M (Unit {0})
  write_fp f i v = modify λ h. record h {
    fp_regs = λ index. if index == rd i then f.to_register v else h.fp_regs index;
  }
