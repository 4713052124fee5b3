-- ===== src/Iss/Step/Boxing.antt =====
-- The floating-point registers (`FpRegs` of vp/src/core/common/fp.h): boxes around `float32_t`.
use riscv_vp.Base.{ℕ, ◌<◌, ◌^◌, ◌*◌, ◌-◌, ◌≡◌, ◌/◌, refl, true, ◌==◌, Bool-cases, inl, inr, arith}
use riscv_vp.Iss.Step.Float.{box_f32, unbox_f32, is_nan, single}

-- Writing a `float32_t` to a register and reading it as one gives it back; a register that holds
-- no box reads as a NaN.
pub unbox-box :
    (x y : ℕ)
    → x < 2 ^ 32
    → y < (2 ^ 32 - 1) * 2 ^ 32
    → (unbox_f32 (box_f32 x) ≡ x) × (is_nan single (unbox_f32 y) ≡ true)
unfolding unbox_f32 box_f32 is_nan
unbox-box x y h k = (
  ground arith,
  elim (Bool-cases (y / 2 ^ 32 == 2 ^ 32 - 1)) [ inl e ↦ ground arith | inr e ↦ rw e refl ],
)
