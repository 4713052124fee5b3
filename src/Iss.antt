-- ===== src/Iss.antt =====
-- The RV32 instruction set simulator (vp/src/core/rv32/iss.cpp, iss.h, csr.h): traps and interrupts.
pub mod State
pub mod Alu
pub mod Trap
pub mod Interrupt
pub mod Hart
pub mod Exec
pub mod Csr
pub mod Step
mod Tests
