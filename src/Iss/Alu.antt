-- ===== src/Iss/Alu.antt =====
-- What the cases of `ISS::exec_step` (vp/src/core/rv32/iss.cpp) compute from the registers. A
-- register is the bit pattern of its `int32_t`.
pub mod Product
pub mod Division
use riscv_vp.Base.{ℕ, ◌+◌, ◌-◌, ◌*◌, ◌/◌, ◌%◌, ◌^◌, Bool, ◌&&◌, ltb, ◌==◌, if◌then◌else◌, bit_and}
use riscv_vp.Base.Int.{ℤ, pos, ◌*ℤ◌, ltb_ℤ, quot, remainder, int32, wrap}

unfoldable pub add32 : ℕ → ℕ → ℕ
add32 a b = (a + b) % 2 ^ 32

unfoldable pub sub32 : ℕ → ℕ → ℕ
sub32 a b = (a + 2 ^ 32 - b) % 2 ^ 32

abbrev pub not32 : ℕ → ℕ
not32 a = 2 ^ 32 - 1 - a

-- A `bool` that is stored in a register.
abbrev pub flag : Bool → ℕ
flag b = if b then 1 else 0

-- `<` of two `int32_t`.
unfoldable pub less : ℕ → ℕ → Bool
less a b = ltb_ℤ (int32 a) (int32 b)

unfoldable pub min_signed : ℕ → ℕ → ℕ
min_signed a b = if less b a then b else a

unfoldable pub max_signed : ℕ → ℕ → ℕ
max_signed a b = if less a b then b else a

unfoldable pub min_unsigned : ℕ → ℕ → ℕ
min_unsigned a b = if ltb b a then b else a

unfoldable pub max_unsigned : ℕ → ℕ → ℕ
max_unsigned a b = if ltb a b then b else a

-- `(ans & 0xFFFFFFFF00000000) >> 32` of a 64-bit product.
abbrev high_half : ℤ → ℕ
high_half ans = wrap 64 ans / 2 ^ 32

unfoldable pub mul : ℕ → ℕ → ℕ
mul a b = wrap 64 (int32 a *ℤ int32 b) % 2 ^ 32

unfoldable pub mulh : ℕ → ℕ → ℕ
mulh a b = high_half (int32 a *ℤ int32 b)

unfoldable pub mulhu : ℕ → ℕ → ℕ
mulhu a b = high_half (pos (a * b))

-- The `int64_t` factor is converted to `uint64_t`, and the product wraps.
unfoldable pub mulhsu : ℕ → ℕ → ℕ
mulhsu a b = high_half (pos (wrap 64 (int32 a) * b))

abbrev reg_min : ℕ
reg_min = 2 ^ 31

unfoldable pub div : ℕ → ℕ → ℕ
div a b =
    if b == 0
    then not32 0
    else if (a == reg_min) && (b == not32 0)
    then a
    else wrap 32 (quot (int32 a) (int32 b))

unfoldable pub divu : ℕ → ℕ → ℕ
divu a b = if b == 0 then not32 0 else a / b

unfoldable pub rem : ℕ → ℕ → ℕ
rem a b =
    if b == 0
    then a
    else if (a == reg_min) && (b == not32 0)
    then 0
    else wrap 32 (remainder (int32 a) (int32 b))

unfoldable pub remu : ℕ → ℕ → ℕ
remu a b = if b == 0 then a else a % b
