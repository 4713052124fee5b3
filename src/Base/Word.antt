-- ===== src/Base/Word.antt =====
-- `uint32_t` and `int32_t` as bit patterns below 2 ^ 32, the shifts of C++, and the bit ranges of
-- vp/src/core/common/instr.h. For `BIT_RANGE` a signed operand has the same pattern.
use Prim.Native.Nat.{ℕ, ◌+◌, ◌-◌, ◌*◌, ◌/◌, ◌%◌, ◌^◌, bit_and}
use riscv_vp.Base.Tests.{ltb, if◌then◌else◌}

-- `x << k`, cut to 32 bits.
abbrev pub shl32 : ℕ → ℕ → ℕ
shl32 x k = x * 2 ^ k % 2 ^ 32

-- `x >> k` of a `uint32_t`.
abbrev pub shr : ℕ → ℕ → ℕ
shr x k = x / 2 ^ k

-- `x >> k` of an `int32_t`, which fills with the sign.
abbrev pub sar32 : ℕ → ℕ → ℕ
sar32 x k = if ltb x (2 ^ 31) then x / 2 ^ k else 2 ^ 32 - 1 - (2 ^ 32 - 1 - x) / 2 ^ k

abbrev pub bit_range : ℕ → ℕ → ℕ → ℕ
bit_range x upper lower = bit_and x ((2 ^ (upper - lower + 1) - 1) * 2 ^ lower)

abbrev pub bit_single : ℕ → ℕ → ℕ
bit_single x pos = bit_and x (2 ^ pos)
