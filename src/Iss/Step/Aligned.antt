-- ===== src/Iss/Step/Aligned.antt =====
-- The alignment of the program counter, as an invariant of a hart (`exec_step` of
-- vp/src/core/rv32/iss.cpp begins with an assertion of it).
pub mod Groups
pub mod Csr
pub mod System
pub mod Float
pub mod Trap
pub mod Run
use riscv_vp.Base.{ℕ, ◌≡◌, ◌⊎◌, ◌%◌, true}
use riscv_vp.Iss.State.{Iss, has_extension, isa_c}
use riscv_vp.Iss.Hart.{Hart, Access}
use riscv_vp.Iss.Exec.{Exec, raise, access}
use riscv_vp.Iss.Exec.Keeps.{Invariant, Keeps, Keeps-raise, Keeps-access, keeps_rules}

-- A multiple of 4, or with the C extension of 2.
abbrev pub IsAligned : ℕ → ℕ → Type 0
IsAligned misa x = (x % 4 ≡ 0) ⊎ ((x % 2 ≡ 0) × (has_extension misa isa_c ≡ true))

-- The addresses to which traps and returns from them go.
abbrev pub IsStable : Hart → Type 0
IsStable h =
    IsAligned h.iss.misa h.iss.last_pc
    × IsAligned h.iss.misa h.iss.machine.epc
    × IsAligned h.iss.misa h.iss.supervisor.epc
    × IsAligned h.iss.misa h.iss.user.epc

abbrev pub IsReady : Hart → Type 0
IsReady h = IsAligned h.iss.misa h.iss.pc × IsStable h

abbrev pub aligned : Invariant
aligned = record { Ready = IsReady; Stable = IsStable }

module _ {M A : Type 0} where
  pub raise-Keeps : (reason mtval : ℕ) → Keeps {M = M} {A = A} aligned (raise reason mtval)
  raise-Keeps reason mtval = Keeps-raise reason mtval (λ h r. r.1)

  pub access-Keeps : (call : Hart → M → Access A M) → Keeps aligned (access call)
  access-Keeps call = Keeps-access call (λ h r. r.1) (λ h b mip r. r)

pub ruleset aligned_rules = (keeps_rules, raise-Keeps, access-Keeps)
