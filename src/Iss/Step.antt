-- ===== src/Iss/Step.antt =====
-- One step of a hart: `exec_step`, `run_step` and `run` of vp/src/core/rv32/iss.cpp. Its children are
-- the groups of instructions of the `switch`.
pub mod Registers
pub mod Integer
pub mod Control
pub mod Memory
pub mod Multiplication
pub mod System
pub mod Privileged
pub mod Atomic
pub mod Float
pub mod FloatForms
pub mod SingleFloat
pub mod DoubleFloat
pub mod Run
pub mod Aligned
pub mod Boxing
pub mod Words
pub mod Rights
mod Tests
