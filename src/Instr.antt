-- ===== src/Instr.antt =====
-- Instruction words: fields, patterns and the decoder.
pub mod Parts
pub mod Mapping
pub mod Fields
pub mod Pattern
pub mod Decode
pub mod Factory
pub mod Compressed
mod Tests
