-- ===== src/Clint/Tests.antt =====
-- The theorems on the timer at a controller of two harts.
use riscv_vp.Base.{
  ◌<◌, ◌≤◌, ◌⊎◌, ◌+◌, ◌*◌, ◌/◌, ◌%◌, ◌^◌, ◌≡◌, true, false, ◌==◌, if◌then◌else◌, [], arith,
}
use mathlib.Core.List.{Memᴰ}
use riscv_vp.Iss.State.{Iss, Handler, Mstatus, machine_mode}
use riscv_vp.Iss.Interrupt.Trigger.{
  trigger_timer_interrupt, trigger_software_interrupt, triggers-mip,
}
use riscv_vp.Clint.{Clint, scaler, update_and_get_mtime, is_due, wake}
use riscv_vp.Clint.Timer.{Timed, Expired, wake-Timed, wake-again}

abbrev vector : Handler
vector = record {
  epc = 0;
  cause = record { interrupt = false; exception_code = 0 };
  tval = 0;
  tvec = record { mode = 1; base = 0x100 };
}

abbrev status : Mstatus
status = record {
  uie = false;
  sie = true;
  mie = true;
  upie = false;
  spie = false;
  mpie = true;
  spp = 1;
  mpp = 3;
  fs = 1;
  xs = 0;
  mprv = false;
  sum = true;
  mxr = false;
  tvm = true;
  tw = false;
  tsr = true;
  sd = false;
}

abbrev pub idle : Iss
idle = record {
  pc = 0x1000;
  last_pc = 0x1000;
  prv = machine_mode;
  mstatus = status;
  machine = vector;
  supervisor = vector;
  user = vector;
  medeleg = 0;
  sedeleg = 0;
  mideleg = 0;
  sideleg = 0;
  mie = 0b10000000;
  mip = 0b1000;
  misa = 0x40141105;
  lr_sc_counter = 0;
  bus_locked = false;
}

-- The comparator of hart 0 is 100, that of any other hart is 0.
abbrev controller : Clint
controller = record {
  mtime = 10;
  mtimecmp = λ i. if i == 0 then 100 else 0;
  msip = λ i. 0;
  target_harts = λ i. idle;
  notified = [];
}

wake-Timed_example :
    let t = (wake 2 (200 * scaler) controller).target_harts 0 in
    ((0 < 2) × Timed idle t (Expired (200 * scaler) controller 0)) ⊎ ((2 ≤ 0) × (t ≡ idle))
wake-Timed_example = wake-Timed 2 (200 * scaler) controller 0

wake-again_example :
    let t = wake 2 (20 * scaler) controller in
    Memᴰ (80 * scaler) t.notified
    × (is_due (update_and_get_mtime (20 * scaler + 80 * scaler) t) 0 ≡ true)
wake-again_example =
    wake-again 2 (20 * scaler) controller 0 (omega arith) (omega arith) (omega arith) (omega arith)

triggers-mip_example :
    let t = (trigger_software_interrupt false (trigger_timer_interrupt true idle)).mip in
    (t / 2 ^ 3 % 2 ≡ 0)
    × (t / 2 ^ 7 % 2 ≡ 1)
    × (t % 2 ^ 3 ≡ 0)
    × (t / 2 ^ 4 % 2 ^ 3 ≡ 0)
    × (t / 2 ^ 8 ≡ 0)
triggers-mip_example = triggers-mip true false idle
