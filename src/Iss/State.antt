-- ===== src/Iss/State.antt =====
-- The part of `struct ISS` (vp/src/core/rv32/iss.h) and of its CSRs (csr.h) that traps and
-- interrupts read and write. A CSR with bit fields is a record of the fields.
use riscv_vp.Base.{ℕ, ◌^◌, Bool, not, ◌==◌, bit_and}

-- `PrivilegeLevel` is a number (vp/src/core/common/irq_if.h).
abbrev pub machine_mode : ℕ
machine_mode = 0b11

abbrev pub supervisor_mode : ℕ
supervisor_mode = 0b01

abbrev pub user_mode : ℕ
user_mode = 0b00

abbrev pub none_mode : ℕ
none_mode = 0xffffffff

-- `csr_mstatus` without its reserved fields, which no code reads and no mask lets through.
pub record Mstatus : Type 0 where
  pub uie : Bool
  pub sie : Bool
  pub mie : Bool
  pub upie : Bool
  pub spie : Bool
  pub mpie : Bool
  pub spp : ℕ
  pub mpp : ℕ
  pub fs : ℕ
  pub xs : ℕ
  pub mprv : Bool
  pub sum : Bool
  pub mxr : Bool
  pub tvm : Bool
  pub tw : Bool
  pub tsr : Bool
  pub sd : Bool

-- `csr_mcause`, also for `scause` and `ucause`.
pub record Cause : Type 0 where
  pub interrupt : Bool
  pub exception_code : ℕ

-- `csr_mtvec`, also for `stvec` and `utvec`.
pub record TrapVector : Type 0 where
  pub mode : ℕ
  pub base : ℕ

-- The CSRs that one privilege mode has for its handler.
pub record Handler : Type 0 where
  pub epc : ℕ
  pub cause : Cause
  pub tval : ℕ
  pub tvec : TrapVector

pub record Iss : Type 0 where
  pub pc : ℕ
  pub last_pc : ℕ
  pub prv : ℕ
  pub mstatus : Mstatus
  pub machine : Handler
  pub supervisor : Handler
  pub user : Handler
  pub medeleg : ℕ
  pub sedeleg : ℕ
  pub mideleg : ℕ
  pub sideleg : ℕ
  pub mie : ℕ
  pub mip : ℕ
  pub misa : ℕ
  pub lr_sc_counter : ℕ
  -- Whether this hart holds the bus lock, which `mem->atomic_unlock` gives back.
  pub bus_locked : Bool

-- The bits of `csr_misa`, by their place.
abbrev pub isa_a : ℕ
isa_a = 0

abbrev pub isa_c : ℕ
isa_c = 2

abbrev pub isa_d : ℕ
isa_d = 3

abbrev pub isa_e : ℕ
isa_e = 4

abbrev pub isa_f : ℕ
isa_f = 5

abbrev pub isa_m : ℕ
isa_m = 12

abbrev pub isa_s : ℕ
isa_s = 18

abbrev pub isa_u : ℕ
isa_u = 20

unfoldable pub has_extension : ℕ → ℕ → Bool
has_extension misa place = not (bit_and misa (2 ^ place) == 0)
