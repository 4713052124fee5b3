-- ===== src/Iss/Interrupt.antt =====
-- `compute_pending_interrupts` and `prepare_interrupt` of vp/src/core/rv32/iss.cpp.
pub mod Laws
pub mod Enable
pub mod Trigger
pub mod Take
use riscv_vp.Base.{
  ℕ, ◌-◌, ◌^◌, Bool, true, false, ◌&&◌, ◌||◌, not, ltb, ◌==◌, if◌then◌else◌, Option, none, some,
  bit_and,
}
use riscv_vp.Iss.State.{
  Iss, Mstatus, Handler, Cause, machine_mode, supervisor_mode, user_mode, none_mode,
}

pub record PendingInterrupts : Type 0 where
  pub target_mode : ℕ
  pub pending : ℕ

-- `a & ~b` on `uint32_t`.
abbrev pub and_not : ℕ → ℕ → ℕ
and_not a b = bit_and a (2 ^ 32 - 1 - b)

abbrev pub m_pending : Iss → ℕ
m_pending s = and_not (bit_and s.mie s.mip) s.mideleg

abbrev pub s_pending : Iss → ℕ
s_pending s = and_not (bit_and (bit_and s.mie s.mip) s.mideleg) s.sideleg

abbrev pub u_pending : Iss → ℕ
u_pending s = bit_and (bit_and (bit_and s.mie s.mip) s.mideleg) s.sideleg

abbrev nonzero : ℕ → Bool
nonzero n = not (n == 0)

unfoldable pub compute_pending_interrupts : Iss → PendingInterrupts
compute_pending_interrupts s =
    let m = s.mstatus in
    if bit_and s.mie s.mip == 0
    then record { target_mode = none_mode; pending = 0 }
    else if nonzero (m_pending s) && (ltb s.prv machine_mode || (s.prv == machine_mode) && m.mie)
    then record { target_mode = machine_mode; pending = m_pending s }
    else if nonzero (s_pending s)
        && (ltb s.prv supervisor_mode || (s.prv == supervisor_mode) && m.sie)
    then record { target_mode = supervisor_mode; pending = s_pending s }
    else if nonzero (u_pending s) && ((s.prv == user_mode) && m.uie)
    then record { target_mode = user_mode; pending = u_pending s }
    else record { target_mode = none_mode; pending = 0 }

-- The bits of `csr_mip` in the order of their priority; a bit's place is its exception code.
abbrev is_set : ℕ → ℕ → Bool
is_set x pos = nonzero (bit_and x (2 ^ pos))

unfoldable pub interrupt_code : ℕ → Option ℕ
interrupt_code x =
    if is_set x 11
    then some 11
    else if is_set x 3
    then some 3
    else if is_set x 7
    then some 7
    else if is_set x 9
    then some 9
    else if is_set x 1
    then some 1
    else if is_set x 5
    then some 5
    else if is_set x 8
    then some 8
    else if is_set x 0
    then some 0
    else if is_set x 4
    then some 4
    else none

set_interrupt : Handler → ℕ → Handler
set_interrupt h code = record h { cause = record { interrupt = true; exception_code = code } }

unfoldable pub store_code : ℕ → ℕ → Iss → Option Iss
unfolding set_interrupt
store_code target code s =
    if target == machine_mode
    then some (record s { machine = set_interrupt s.machine code })
    else if target == supervisor_mode
    then some (record s { supervisor = set_interrupt s.supervisor code })
    else if target == user_mode
    then some (record s { user = set_interrupt s.user code })
    else none

unfoldable pub prepare_interrupt : PendingInterrupts → Iss → Option Iss
unfolding store_code
prepare_interrupt e s = elim (interrupt_code e.pending) [
  | none ↦ none
  | some code ↦ store_code e.target_mode code s
]
