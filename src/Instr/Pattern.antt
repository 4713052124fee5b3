-- ===== src/Instr/Pattern.antt =====
-- The pattern of each instruction, and the macros `MATCH_AND_RETURN_INSTR` and
-- `MATCH_AND_RETURN_INSTR2` of vp/src/core/common/instr.cpp.
mod Record
mod Base
mod Long
mod Float
use riscv_vp.Base.{ℕ, Option, none, some, ◌≡◌, ◌==◌, if◌then◌else◌, bit_and}
use riscv_vp.Instr.Mapping.{Mapping, Architecture, undef}
pub use Record.{Pattern}
use riscv_vp.Instr.Pattern.Base.{base_pattern}
use Long.{long_pattern}
use Float.{float_pattern}

abbrev or_else {ℓ} : {A : Type ℓ} → Option A → Option A → Option A
or_else none o = o
or_else (some x) o = some x

-- `undef` has no pattern. On RV32 the shifts by an immediate have the stricter pattern `X_32`.
unfoldable pub pattern_of : Mapping → Architecture → Option Pattern
unfolding base_pattern long_pattern float_pattern
pattern_of m a = or_else (base_pattern m a) (or_else (long_pattern m) (float_pattern m))

abbrev pub check : Mapping → Option Pattern → ℕ → Mapping
check m none i = undef
check m (some p) i = if bit_and i p.mask == p.encoding then m else undef

unfoldable pub match_instr : Mapping → Architecture → ℕ → Mapping
match_instr m a i = check m (pattern_of m a) i

-- The word `i` has the pattern `p`.
abbrev pub Fits : Option Pattern → ℕ → Type 0
Fits none i = ⊥
Fits (some p) i = bit_and i p.mask ≡ p.encoding
