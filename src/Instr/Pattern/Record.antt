-- ===== src/Instr/Pattern/Record.antt =====
-- A mask and the value that a word has under it, as `X_MASK` and `X_ENCODING` of
-- vp/src/core/common/instr.cpp.
use riscv_vp.Base.{ℕ}

pub record Pattern : Type 0 where
  pub mask : ℕ
  pub encoding : ℕ
