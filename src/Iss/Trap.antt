-- ===== src/Iss/Trap.antt =====
-- `prepare_trap`, `switch_to_trap_handler` and `return_from_trap_handler` of
-- vp/src/core/rv32/iss.cpp. `none` is an exception of C++ that is thrown to the caller.
pub mod Laws
use riscv_vp.Base.{
  ℕ, ◌+◌, ◌*◌, ◌%◌, ◌^◌, Bool, true, false, ◌&&◌, ◌||◌, not, ltb, ◌==◌, if◌then◌else◌, Option, none,
  some, bit_and, shl32,
}
use riscv_vp.Iss.State.{
  Iss, Mstatus, Handler, Cause, TrapVector, machine_mode, supervisor_mode, user_mode, has_extension,
  isa_u,
}

-- `struct SimulationTrap` (vp/src/core/common/trap.h).
pub record SimulationTrap : Type 0 where
  pub reason : ℕ
  pub mtval : ℕ

abbrev delegated : ℕ → ℕ → Bool
delegated exc_bit deleg = not (bit_and exc_bit deleg == 0)

set_cause : Handler → SimulationTrap → Handler
set_cause h e = record h {
  cause = record { interrupt = false; exception_code = e.reason };
  tval = e.mtval;
}

-- The cast of `mtval` to 32 bits is checked, and throws. The mode of the last case is asserted.
unfoldable pub prepare_trap : SimulationTrap → Iss → Option (ℕ × Iss)
unfolding set_cause
prepare_trap e s =
    let t = record s { pc = s.last_pc } in
    let exc_bit = shl32 1 e.reason in
    if not (ltb e.mtval (2 ^ 32))
    then none
    else if s.prv == machine_mode || not (delegated exc_bit s.medeleg)
    then some (machine_mode, record t { machine = set_cause s.machine e })
    else if s.prv == supervisor_mode || not (delegated exc_bit s.sedeleg)
    then some (supervisor_mode, record t { supervisor = set_cause s.supervisor e })
    else if not (s.prv == user_mode)
    then none
    else some (user_mode, record t { user = set_cause s.user e })

unfoldable pub release_lr_sc_reservation : Iss → Iss
release_lr_sc_reservation s = record s { lr_sc_counter = 0; bus_locked = false }

-- The address at which a handler starts; mode 1 is `Vectored`.
unfoldable pub handler_address : Handler → ℕ
handler_address h =
    let base = shl32 h.tvec.base 2 in
    if h.cause.interrupt && (h.tvec.mode == 1)
    then (base + 4 * h.cause.exception_code) % 2 ^ 32
    else base

unfoldable pub switch_to_trap_handler : ℕ → Iss → Option Iss
unfolding release_lr_sc_reservation
switch_to_trap_handler target s =
    let t = record (release_lr_sc_reservation s) { prv = target } in
    let m = s.mstatus in
    if target == machine_mode
    then some (record t {
      machine = record s.machine { epc = s.pc };
      mstatus = record m { mpie = m.mie; mie = false; mpp = s.prv % 4 };
      pc = handler_address s.machine;
    })
    else if target == supervisor_mode
    then some (record t {
      supervisor = record s.supervisor { epc = s.pc };
      mstatus = record m { spie = m.sie; sie = false; spp = s.prv % 2 };
      pc = handler_address s.supervisor;
    })
    else if target == user_mode
    then some (record t {
      user = record s.user { epc = s.pc };
      mstatus = record m { upie = m.uie; uie = false };
      pc = handler_address s.user;
    })
    else none

unfoldable pub return_from_trap_handler : ℕ → Iss → Option Iss
unfolding has_extension
return_from_trap_handler return_mode s =
    let m = s.mstatus in
    if return_mode == machine_mode
    then some (record s {
      prv = m.mpp;
      mstatus = record m {
        mie = m.mpie;
        mpie = true;
        mpp = if has_extension s.misa isa_u then user_mode else machine_mode;
      };
      pc = s.machine.epc;
    })
    else if return_mode == supervisor_mode
    then some (record s {
      prv = m.spp;
      mstatus = record m {
        sie = m.spie;
        spie = true;
        spp = if has_extension s.misa isa_u then user_mode else supervisor_mode;
      };
      pc = s.supervisor.epc;
    })
    else if return_mode == user_mode
    then some (record s {
      prv = user_mode;
      mstatus = record m { uie = m.upie; upie = true };
      pc = s.user.epc;
    })
    else none
