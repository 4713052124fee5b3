-- ===== src/Mem.antt =====
-- The memory of a hart: virtual memory, the bus lock and the interface to RAM and the bus
-- (vp/src/core/common/mmu.h, vp/src/core/rv32/mem.h).
pub mod State
pub mod Mmu
pub mod Dmi
pub mod Interface
mod Tests
