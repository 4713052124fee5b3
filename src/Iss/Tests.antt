-- ===== src/Iss/Tests.antt =====
-- The theorems on traps and interrupts at a concrete state, and runs.
use riscv_vp.Base.{◌≡◌, ◌≢◌, ◌⊎◌, ◌↔◌, refl, true, false, some, inl, inr, arith}
use riscv_vp.Iss.State.{Iss, Handler, machine_mode, supervisor_mode, user_mode, none_mode}
use riscv_vp.Iss.Trap.{
  SimulationTrap, prepare_trap, switch_to_trap_handler, return_from_trap_handler,
}
use riscv_vp.Iss.Trap.Laws.{mret-trap, sret-trap, Prepared, prepare_trap-Prepared}
use riscv_vp.Iss.Interrupt.{compute_pending_interrupts, interrupt_code}
use riscv_vp.Iss.Interrupt.Laws.{Takes, MachinePends, SupervisorPends, UserPends, target_mode_iff}
use riscv_vp.Iss.Interrupt.Enable.{
  IsMasked, write_mie, write_sie, write_uie, writes-IsMasked, Coded, pending-Coded,
}
use riscv_vp.Iss.Interrupt.Take.{take_interrupt, take_interrupt_total}

abbrev handler : Handler
handler = record {
  epc = 0;
  cause = record { interrupt = false; exception_code = 0 };
  tval = 0;
  tvec = record { mode = 1; base = 0x100 };
}

-- Supervisor mode, with the machine timer interrupt enabled and pending.
abbrev busy : Iss
busy = record {
  pc = 0x1004;
  last_pc = 0x1000;
  prv = supervisor_mode;
  mstatus = record {
    uie = false;
    sie = true;
    mie = true;
    upie = false;
    spie = false;
    mpie = false;
    spp = 0;
    mpp = 0;
    fs = 0;
    xs = 0;
    mprv = false;
    sum = false;
    mxr = false;
    tvm = false;
    tw = false;
    tsr = false;
    sd = false;
  };
  machine = handler;
  supervisor = handler;
  user = handler;
  medeleg = 0x100;
  sedeleg = 0;
  mideleg = 0;
  sideleg = 0;
  mie = 0b10000000;
  mip = 0b10000000;
  misa = 0x40143125;
  lr_sc_counter = 5;
  bus_locked = true;
}

abbrev ecall : SimulationTrap
ecall = record { reason = 9; mtval = 0x1000 }

timer_pending : (compute_pending_interrupts busy).target_mode ≡ machine_mode
unfolding compute_pending_interrupts
timer_pending = refl

timer_code : interrupt_code 0b10000000 ≡ some 7
unfolding interrupt_code
timer_code = refl

mret-trap_example :
    (t : Iss) × (u : Iss) × (switch_to_trap_handler machine_mode busy ≡ some t)
    × (return_from_trap_handler machine_mode t ≡ some u)
    × (u.pc ≡ 0x1004)
    × (u.prv ≡ supervisor_mode)
    × (u.mstatus.mie ≡ true)
    × (u.lr_sc_counter ≡ 0)
    × (u.bus_locked ≡ false)
mret-trap_example = mret-trap busy (inr (inl refl))

sret-trap_example :
    (t : Iss) × (u : Iss) × (switch_to_trap_handler supervisor_mode busy ≡ some t)
    × (return_from_trap_handler supervisor_mode t ≡ some u)
    × (u.pc ≡ 0x1004)
    × (u.prv ≡ supervisor_mode)
    × (u.mstatus.sie ≡ true)
    × (u.lr_sc_counter ≡ 0)
    × (u.bus_locked ≡ false)
sret-trap_example = sret-trap busy (omega arith)

prepare_trap-Prepared_example : Prepared ecall busy (prepare_trap ecall busy)
prepare_trap-Prepared_example = prepare_trap-Prepared ecall busy (omega arith) (inr (inl refl))

target_mode_iff_example :
    let target = (compute_pending_interrupts busy).target_mode in
    let machine = Takes busy (MachinePends busy) machine_mode busy.mstatus.mie in
    let supervisor = Takes busy (SupervisorPends busy) supervisor_mode busy.mstatus.sie in
    let user = Takes busy (UserPends busy) user_mode busy.mstatus.uie in
    ((target ≡ machine_mode) ↔ machine)
    × ((target ≡ supervisor_mode) ↔ ((¬ machine) × supervisor))
    × ((target ≡ user_mode) ↔ ((¬ machine) × (¬ supervisor) × user))
target_mode_iff_example = target_mode_iff busy (omega arith) (omega arith)

writes-IsMasked_example :
    IsMasked (write_mie 0xffffffff busy)
    × IsMasked (write_sie 0xffffffff busy)
    × IsMasked (write_uie 0xffffffff busy)
writes-IsMasked_example = writes-IsMasked 0xffffffff busy refl

pending-Coded_example :
    Coded
      (compute_pending_interrupts busy).pending
      (interrupt_code (compute_pending_interrupts busy).pending)
unfolding compute_pending_interrupts
pending-Coded_example =
    pending-Coded busy refl (λ (e : machine_mode ≡ none_mode). absurd (omega arith))

take_interrupt_total_example :
    (t : Iss) × (take_interrupt busy ≡ some t)
    × (((compute_pending_interrupts busy).target_mode ≡ none_mode) × (t ≡ busy)
        ⊎ ((compute_pending_interrupts busy).target_mode ≢ none_mode)
          × (t.prv ≡ (compute_pending_interrupts busy).target_mode))
take_interrupt_total_example = take_interrupt_total busy refl
