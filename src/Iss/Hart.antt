-- ===== src/Iss/Hart.antt =====
-- The state of `struct ISS` (vp/src/core/rv32/iss.h), beyond the part in State, and what it is
-- connected to: memory (mem_if.h), timer, system calls, the SystemC kernel and softfloat.
use riscv_vp.Base.{ℕ, Bool, Option}
use riscv_vp.Instr.Mapping.{Mapping}
use riscv_vp.Iss.State.{Iss}
use riscv_vp.Iss.Trap.{SimulationTrap}

-- The CSRs of `csr_table` that are not in `Iss`. Those of 64 bits and those whose fields no code
-- reads by name are numbers.
pub record Csrs : Type 0 where
  pub cycle : ℕ
  pub time : ℕ
  pub instret : ℕ
  pub mvendorid : ℕ
  pub marchid : ℕ
  pub mimpid : ℕ
  pub mhartid : ℕ
  pub mcounteren : ℕ
  pub scounteren : ℕ
  pub mcountinhibit : ℕ
  pub mscratch : ℕ
  pub sscratch : ℕ
  pub uscratch : ℕ
  pub satp : ℕ
  pub fcsr : ℕ
  pub pmpaddr : ℕ → ℕ
  pub pmpcfg : ℕ → ℕ

-- `CoreExecStatus` (vp/src/core/common/core_defs.h).
pub data Status : Type 0 where
  runnable hit_breakpoint terminated : Status

-- Times are counted in `cycle_time`.
pub record Hart : Type 0 where
  pub iss : Iss
  pub csrs : Csrs
  pub regs : ℕ → ℕ
  pub fp_regs : ℕ → ℕ
  pub instr : ℕ
  pub op : Mapping
  pub status : Status
  pub shall_exit : Bool
  pub ignore_wfi : Bool
  pub debug_mode : Bool
  pub breakpoints : ℕ → Bool
  pub total_num_instr : ℕ
  pub cycle_counter : ℕ
  -- `softfloat_exceptionFlags`, which is global in softfloat.
  pub exception_flags : ℕ

-- How C++ code ends: it returns, it throws a `SimulationTrap`, or it throws anything else or fails
-- an assertion.
pub data Result (A : Type 0) : Type 0 where
  ok : A → Result A
  trap : SimulationTrap → Result A
  failed : Result A

-- A call of the memory interface. Apart from the memory, it can only change the hart's hold on the
-- bus lock and, where it reaches a device, the pending interrupts: there is no `SyscallHandler`
-- (vp/src/core/rv32/syscall.h) on the bus, whose store writes registers and ends the simulation.
pub record Access (A M : Type 0) : Type 0 where
  pub result : Result A
  pub bus_locked : Bool
  pub mip : ℕ
  pub memory : M

abbrev pub Load : Type 0 → Type 0
Load M = ℕ → Hart → M → Access ℕ M

abbrev pub Store : Type 0 → Type 0
Store M = ℕ → ℕ → Hart → M → Access (Unit {0}) M

-- What a hart calls. `M` is the state behind the interfaces: memory, bus, devices and time.
pub record Environment (M : Type 0) : Type 0 where
  -- `instr_memory_if` and `data_memory_if`
  pub load_instr : Load M
  pub load_double : Load M
  pub load_word : Load M
  pub load_half : Load M
  pub load_byte : Load M
  pub load_uhalf : Load M
  pub load_ubyte : Load M
  pub store_double : Store M
  pub store_word : Store M
  pub store_half : Store M
  pub store_byte : Store M
  pub atomic_load_word : Load M
  pub atomic_store_word : Store M
  pub atomic_load_reserved_word : Load M
  pub atomic_store_conditional_word : ℕ → ℕ → Hart → M → Access Bool M
  pub flush_tlb : M → Option M
  -- `clint_if`
  pub update_and_get_mtime : M → ℕ × M
  -- `sc_core::wait(wfi_event)`: the devices run, and set `mip`
  pub wait_for_event : ℕ → M → ℕ × M
  -- the quantum keeper: `inc`, `need_sync` and `sync`
  pub inc : ℕ → M → M
  pub need_sync : M → Bool
  pub sync : ℕ → M → ℕ × M
  -- `sys`, if there is one: it writes registers and may ask for the end of the simulation
  pub execute_syscall : Option ((ℕ → ℕ) → M → ((ℕ → ℕ) × Bool) × M)

-- The operations of softfloat, from the rounding mode and bit patterns to the result and the
-- exception flags that they raise.
pub record Softfloat : Type 0 where
  pub add : ℕ → ℕ → ℕ → ℕ × ℕ
  pub sub : ℕ → ℕ → ℕ → ℕ × ℕ
  pub mul : ℕ → ℕ → ℕ → ℕ × ℕ
  pub div : ℕ → ℕ → ℕ → ℕ × ℕ
  pub sqrt : ℕ → ℕ → ℕ × ℕ
  pub mul_add : ℕ → ℕ → ℕ → ℕ → ℕ × ℕ
  pub eq : ℕ → ℕ → Bool × ℕ
  pub lt : ℕ → ℕ → Bool × ℕ
  pub le : ℕ → ℕ → Bool × ℕ
  pub lt_quiet : ℕ → ℕ → Bool × ℕ
  pub to_i32 : ℕ → ℕ → ℕ × ℕ
  pub to_ui32 : ℕ → ℕ → ℕ × ℕ
  pub of_i32 : ℕ → ℕ → ℕ × ℕ
  pub of_ui32 : ℕ → ℕ → ℕ × ℕ
  pub classify : ℕ → ℕ
  -- from this format to the other one
  pub convert : ℕ → ℕ → ℕ × ℕ

-- The functions of softfloat on `float32_t` and on `float64_t`.
pub record Floats : Type 0 where
  pub f32 : Softfloat
  pub f64 : Softfloat
