-- ===== src/Instr/Compressed.antt =====
-- Compressed instructions (vp/src/core/common/instr.cpp): decoding and expansion.
pub mod Opcode
pub mod Fields
pub mod Expand
pub mod Decode
pub mod Redecode
pub mod Total
use riscv_vp.Base.{ℕ, Option}
use mathlib.Core.Option
use riscv_vp.Instr.Mapping.{Mapping, Architecture}
use Expand.{expand_compressed}
use Decode.{decode_compressed}

-- The expanded word and its instruction; `none` is a thrown `runtime_error`.
unfoldable pub decode_and_expand_compressed : Architecture → ℕ → Option (ℕ × Mapping)
decode_and_expand_compressed a i =
    Option.map (λ op. expand_compressed a op i) (decode_compressed a i)
