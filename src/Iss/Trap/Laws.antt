-- ===== src/Iss/Trap/Laws.antt =====
-- Where a trap goes, and that its handler returns to where it came from.
use riscv_vp.Base.{
  ℕ, ◌≡◌, ◌≢◌, ◌⊎◌, ◌<◌, ◌≤◌, ◌^◌, refl, false, Option, none, some, bit_and, shl32, arith,
}
use riscv_vp.Iss.State.{Iss, machine_mode, supervisor_mode, user_mode}
use riscv_vp.Iss.Trap.{
  SimulationTrap, prepare_trap, release_lr_sc_reservation, switch_to_trap_handler,
  return_from_trap_handler,
}

-- A level of `is_valid_privilege_level`.
abbrev pub IsLevel : ℕ → Type 0
IsLevel p = (p ≡ machine_mode) ⊎ (p ≡ supervisor_mode) ⊎ (p ≡ user_mode)

-- From every level, entering the handler of machine mode and leaving it with no change of the CSRs
-- between succeeds, and execution goes on at the old `pc`, at the old level and with the old
-- `mie`; the reservation of LR/SC is gone.
pub mret-trap :
    (s : Iss)
    → IsLevel s.prv
    → (t : Iss) × (u : Iss) × (switch_to_trap_handler machine_mode s ≡ some t)
      × (return_from_trap_handler machine_mode t ≡ some u)
      × (u.pc ≡ s.pc)
      × (u.prv ≡ s.prv)
      × (u.mstatus.mie ≡ s.mstatus.mie)
      × (u.lr_sc_counter ≡ 0)
      × (u.bus_locked ≡ false)
unfolding switch_to_trap_handler return_from_trap_handler release_lr_sc_reservation
mret-trap s l = (_, _, refl, refl, refl, omega arith, refl, refl, refl)

-- The same for the handler of supervisor mode, entered from supervisor or user mode, and `sie`.
pub sret-trap :
    (s : Iss)
    → s.prv ≤ supervisor_mode
    → (t : Iss) × (u : Iss) × (switch_to_trap_handler supervisor_mode s ≡ some t)
      × (return_from_trap_handler supervisor_mode t ≡ some u)
      × (u.pc ≡ s.pc)
      × (u.prv ≡ s.prv)
      × (u.mstatus.sie ≡ s.mstatus.sie)
      × (u.lr_sc_counter ≡ 0)
      × (u.bus_locked ≡ false)
unfolding switch_to_trap_handler return_from_trap_handler release_lr_sc_reservation
sret-trap s l = (_, _, refl, refl, refl, omega arith, refl, refl, refl)

-- What `prepare_trap` answers: no exception, a level that is at least the current one, and lower
-- than machine mode only if `medeleg` delegates the reason; `pc` is back at the instruction that
-- trapped.
abbrev pub Prepared : SimulationTrap → Iss → Option (ℕ × Iss) → Type 0
Prepared e s none = ⊥
Prepared e s (some (m, t)) =
    IsLevel m
    × (s.prv ≤ m)
    × (t.pc ≡ s.last_pc)
    × ((m ≡ machine_mode) ⊎ (bit_and (shl32 1 e.reason) s.medeleg ≢ 0))
    × ((m ≢ user_mode) ⊎ (bit_and (shl32 1 e.reason) s.sedeleg ≢ 0))

-- If the hart is in machine, supervisor or user mode, a trap whose value has 32 bits is never thrown
-- on and meets no failed assertion. It goes to a level that is at least the
-- current one, below machine mode only if `medeleg` delegates its reason and to user mode only if
-- `sedeleg` does so too; `pc` is back at the instruction that trapped.
pub prepare_trap-Prepared :
    (e : SimulationTrap) (s : Iss)
    → e.mtval < 2 ^ 32
    → IsLevel s.prv
    → Prepared e s (prepare_trap e s)
unfolding prepare_trap
prepare_trap-Prepared e s h l = ground arith
