-- ===== src/Instr/Parts.antt =====
-- The opcode fields that the decoder compares with.
mod Integer
mod System
mod Float
pub use Integer.*
pub use System.*
pub use Float.*
