-- ===== src/Mem/State.antt =====
-- The state behind the memory interface of a hart.
use riscv_vp.Base.{ℕ, Bool}

-- `MemoryAccessType` (vp/src/core/common/mmu_mem_if.h).
pub data AccessType : Type 0 where
  fetch load store : AccessType

-- `GenericMMU::tlb_entry_t` (vp/src/core/common/mmu.h).
pub record TlbEntry : Type 0 where
  pub ppn : ℕ
  pub vpn : ℕ

-- By mode, access type and index.
abbrev pub Tlb : Type 0
Tlb = ℕ → AccessType → ℕ → TlbEntry

-- What the harts share: the host's memory, byte by byte, whether another hart holds the bus lock,
-- and what stands on the bus, `P`. The hart's own hold on the lock is in `Iss`.
pub record Shared (P : Type 0) : Type 0 where
  pub ram : ℕ → ℕ
  pub locked_by_other : Bool
  pub platform : P

-- `lr_addr` is a field of `CombinedMemoryInterface` (vp/src/core/rv32/mem.h).
pub record Memory (P : Type 0) : Type 0 where
  pub tlb : Tlb
  pub lr_addr : ℕ
  pub shared : Shared P
