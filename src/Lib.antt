-- ===== src/Lib.antt =====
-- Verification library of riscv-vp, a RISC-V virtual prototype in C++ and SystemC.
--
-- The program simulates RISC-V machines: an instruction set simulator for each of RV32 and RV64
-- (vp/src/core/rv32, vp/src/core/rv64) fetches a word, has it decoded by the code that both share
-- (vp/src/core/common/instr.h, instr.cpp), executes it over its registers and CSRs, and takes traps
-- and interrupts; memory accesses go through the MMU (vp/src/core/common/mmu.h) and a TLM bus to
-- memories and devices (vp/src/platform, vp/src/util); CLINT and PLIC send interrupts back.
--
-- What is modelled, and where:
-- - Base: Boolean tests, `switch`, the laws of `&` and `|` at variables (Digits has those of binary
--   digits), 32-bit words. A `uint32_t`
--   or `int32_t` is its bit pattern, a native number below 2 ^ 32; `sar32` is the arithmetic shift.
-- - Instr.Parts, Instr.Mapping: the enumerations `Opcode::Parts`, `Opcode::Mapping`, `Opcode::Type`.
-- - Instr.Fields: `struct Instruction`, its fields and immediates.
-- - Instr.Pattern: the constants `X_MASK` and `X_ENCODING` and the macros that test them. That RV32
--   tests the immediate shifts with `X_32_MASK` is an argument of `pattern_of`.
-- - Instr.Decode: `Instruction::decode_normal`, one definition for each case of its outer switch.
--   Facts, Complete and Sound prove it correct against the patterns, and Spec states that.
-- - Instr.Factory: `InstructionFactory`. Laws: the word of each instruction fits its pattern.
-- - Instr.Compressed: `decode_compressed` (Decode), `expand_compressed` (Expand) and their
--   composition; a thrown `runtime_error` is `none`.
-- - Instr.Tests: runs, and the theorems at concrete words.
-- - Iss.State, Iss.Hart: the RV32 `struct ISS` and its CSRs. `csr_mstatus`, `csr_mcause` and
--   `csr_mtvec` are records of their bit fields; a hart's hold on the bus lock, which
--   `atomic_unlock` gives back, is a field. Times are counted in `cycle_time`. `Environment` has what
--   a hart calls: `instr_memory_if`, `data_memory_if`, the timer, the quantum keeper, the wait for
--   an event and the emulation of system calls; `Softfloat` has the functions of softfloat.
-- - Iss.Exec: methods of `ISS` as actions that return, throw a `SimulationTrap`, or fail, and that
--   keep what they wrote before they throw. Keeps has the rules for invariants of actions.
-- - Iss.Alu: the arithmetic of `exec_step`. Product and Division relate it to integers (Base.Int).
-- - Iss.Csr: addresses, masks, `csr_table`, `get_csr_value`, `set_csr_value`, the rights to a CSR.
--   Status relates the fields of `mstatus` to its word; Views is about `sstatus` and `ustatus`.
-- - Iss.Trap: `prepare_trap`, `switch_to_trap_handler`, `return_from_trap_handler`.
-- - Iss.Interrupt: `compute_pending_interrupts`, `prepare_interrupt`, and in Enable the writes to
--   the CSR `mie`, in Take what `run_step` does with an interrupt, in Trigger what devices call. An
--   exception of C++ is `none`.
-- - Iss.Step: the `switch` of `exec_step`, one definition for each group of instructions (Integer,
--   Control, Memory, Multiplication, System, Privileged, Atomic, SingleFloat, DoubleFloat; Float and
--   FloatForms have what the last two share), and in Run the rest of `exec_step`, `run_step` and
--   `run`. Aligned proves an invariant of all of them, one module for each group; Words, Rights
--   and Boxing are about single parts.
-- - Iss.Tests, Iss.Step.Tests: concrete states and environments.
-- - Mem: what stands behind the memory functions of `Environment`. State has the translation cache
--   and what harts share; Mmu is `GenericMMU` of vp/src/core/common/mmu.h (Rules, Walk and
--   Cache are about it), with the memory interface of the page tables as `MmuPorts`; Dmi is
--   `MemoryDMI` of vp/src/core/common/dmi.h over the host's bytes (Bytes is about them); Interface is
--   `CombinedMemoryInterface` of vp/src/core/rv32/mem.h with the bus lock, and `with_memory` fills
--   an `Environment` with it. Ram is about its bytes, Tables about page tables
--   that lie there. The bus is a parameter, and the bus lock is known by who holds it.
-- - Plic: `FE310_PLIC` of vp/src/platform/common/fe310_plic.h, with the harts that it signals to.
--   Best and Choice are about the choice of the next interrupt, Bits about the bits of its arrays,
--   Claim about arrivals and claims, Signal about what the harts are told.
-- - Fu540: `FU540_PLIC` of vp/src/platform/common/fu540_plic.cpp; Choice is about the next interrupt.
-- - Bus: `SimpleBus` of vp/src/platform/common/bus.h, `RegisterRange` and `route` of
--   vp/src/util/memory_map.h, `SimpleMemory` of vp/src/platform/common/memory.h. Routes is about where
--   an access goes.
-- - Clint: `CLINT` of vp/src/core/common/clint.h, which keeps the harts that it triggers; `wake` is
--   what `run` does at a wake-up, and the calls of `irq_event.notify` are a list. Timer proves which
--   harts are interrupted and that no interrupt is lost.
--
-- The loops over the interrupts and the harts of the PLICs and over the harts of the CLINT recur on the rounds that
-- are left. The loop of `run` ends when the guest program ends, if it does; the model takes the number of rounds as an argument, and
-- its theorems hold for all of them.
--
-- Not modelled: `mappingStr` and tracing (output only), SystemC and TLM (other projects' libraries),
-- softfloat (a git submodule), the other devices and the platforms, RV64, the
-- methods of `ISS` that the debugger and the devices call, and the `SyscallHandler` of
-- vp/src/core/rv32/syscall.h as a device on the bus: a store to it would write registers and end the
-- simulation, and a memory access of the model does neither (ECALL to it is modelled). The counter of
-- cycles has no bound; the source's is a time of 64 bits in picoseconds.
pub mod Base
pub mod Instr
pub mod Iss
pub mod Plic
pub mod Fu540
pub mod Bus
pub mod Clint
pub mod Mem
