-- ===== src/Iss/Step/Tests.antt =====
-- The theorems on a step at a concrete machine, and a run.
use riscv_vp.Base.{
  switch, if◌then◌else◌, ◌==◌, ℕ, ◌+◌, ◌-◌, ◌*◌, ◌^◌, ◌<◌, ◌≤◌, ◌≡◌, refl, false, true, none, some,
  inl, inr, arith,
}
use riscv_vp.Base.Int.{pos, ◌+ℤ◌, ◌*ℤ◌, abs, int32, pos_part, neg_part}
use riscv_vp.Instr.Mapping.{undef, addi, add, csrrw}
use riscv_vp.Instr.Pattern.{pattern_of, match_instr}
use riscv_vp.Instr.Decode.Integer.{decode_op_imm}
use riscv_vp.Instr.Fields.{csr, opcode, funct3, rd, rs1, i_imm}
use riscv_vp.Instr.Factory
use riscv_vp.Iss.State.{has_extension, Handler, Mstatus, supervisor_mode}
use riscv_vp.Iss.Alu.{mul, mulh, mulhu, mulhsu, div, rem, add32}
use riscv_vp.Iss.Alu.Product.{products}
use riscv_vp.Iss.Alu.Division.{div-rem}
use riscv_vp.Iss.Hart.{Csrs, runnable, ok, trap, Load, Store, Environment, Softfloat, Floats}
use riscv_vp.Iss.Interrupt.{compute_pending_interrupts}
use riscv_vp.Iss.Interrupt.Take.{take_interrupt}
use riscv_vp.Instr.Decode.{decode_normal}
use riscv_vp.Instr.Compressed.Fields.{is_compressed, quadrant}
use riscv_vp.Iss.Step.Integer.{integer, unary}
use riscv_vp.Iss.Step.Registers.{read_reg, write_rd}
use riscv_vp.Iss.Exec.{◌>>=◌, Machine, pure}
use riscv_vp.Iss.Exec.Keeps.{Ends}
use riscv_vp.Iss.Csr.Fields.{sstatus_mask, ustatus_mask}
use riscv_vp.Iss.Csr.Write.{pc_alignment_mask, write_status}
use riscv_vp.Iss.Csr.Status.{IsStatus}
use riscv_vp.Iss.Csr.Views.{AgreeForMachine, AgreeForSupervisor, write_status-views}
use riscv_vp.Iss.Step.Float.{box_f32, unbox_f32, is_nan, single}
use riscv_vp.Iss.Step.Boxing.{unbox-box}
use riscv_vp.Iss.Step.System.{csr_instruction}
use riscv_vp.Iss.Step.Rights.{csr_instruction-denied}
use riscv_vp.Iss.Step.Run.{
  tick_reservation, catch, proceed, set_instr, decode, interrupts, count_instruction, count_cycles,
  execute, fetch, execute_decoded, synchronise, performance_and_sync_update, finish_step, step_body,
  run_step, is_aligned, exec_step, run,
}
use riscv_vp.Iss.Step.Words.{fetched, set_reg, exec_step-addi, exec_step-add}
use riscv_vp.Iss.Step.Aligned.{IsReady}
use riscv_vp.Iss.Step.Aligned.Run.{settled, is_aligned-IsReady, run-Aligned}

-- A memory that answers every load with `v`, and takes any store.
abbrev answer : ℕ → Load ℕ
answer v addr h m = record {
  result = ok v;
  bus_locked = h.iss.bus_locked;
  mip = h.iss.mip;
  memory = m;
}

abbrev accept : Store ℕ
accept addr value h m = record {
  result = ok tt;
  bus_locked = h.iss.bus_locked;
  mip = h.iss.mip;
  memory = m;
}

-- Every instruction is `word`; the memory is the time.
abbrev constant : ℕ → Environment ℕ
constant word = record {
  load_instr = answer word;
  load_double = answer 0;
  load_word = answer 0;
  load_half = answer 0;
  load_byte = answer 0;
  load_uhalf = answer 0;
  load_ubyte = answer 0;
  store_double = accept;
  store_word = accept;
  store_half = accept;
  store_byte = accept;
  atomic_load_word = answer 0;
  atomic_store_word = accept;
  atomic_load_reserved_word = answer 0;
  atomic_store_conditional_word = λ addr value h m. record {
    result = ok true;
    bus_locked = false;
    mip = h.iss.mip;
    memory = m;
  };
  flush_tlb = λ m. some m;
  update_and_get_mtime = λ m. (m, m);
  wait_for_event = λ mip m. (mip, m);
  inc = λ n m. m + n;
  need_sync = λ m. false;
  sync = λ mip m. (mip, m);
  execute_syscall = none;
}

abbrev no_softfloat : Softfloat
no_softfloat = record {
  add = λ rm a b. (0, 0);
  sub = λ rm a b. (0, 0);
  mul = λ rm a b. (0, 0);
  div = λ rm a b. (0, 0);
  sqrt = λ rm a. (0, 0);
  mul_add = λ rm a b c. (0, 0);
  eq = λ a b. (false, 0);
  lt = λ a b. (false, 0);
  le = λ a b. (false, 0);
  lt_quiet = λ a b. (false, 0);
  to_i32 = λ rm a. (0, 0);
  to_ui32 = λ rm a. (0, 0);
  of_i32 = λ rm a. (0, 0);
  of_ui32 = λ rm a. (0, 0);
  classify = λ a. 0;
  convert = λ rm a. (0, 0);
}

abbrev no_floats : Floats
no_floats = record { f32 = no_softfloat; f64 = no_softfloat }

abbrev vector : Handler
vector = record {
  epc = 0;
  cause = record { interrupt = false; exception_code = 0 };
  tval = 0;
  tvec = record { mode = 1; base = 0x100 };
}

abbrev status : Mstatus
status = record {
  uie = false;
  sie = true;
  mie = true;
  upie = false;
  spie = false;
  mpie = true;
  spp = 1;
  mpp = 3;
  fs = 1;
  xs = 0;
  mprv = false;
  sum = true;
  mxr = false;
  tvm = true;
  tw = false;
  tsr = true;
  sd = false;
}

abbrev no_csrs : Csrs
no_csrs = record {
  cycle = 0;
  time = 0;
  instret = 0;
  mvendorid = 0;
  marchid = 0;
  mimpid = 0;
  mhartid = 0;
  mcounteren = 0;
  scounteren = 0;
  mcountinhibit = 0;
  mscratch = 0;
  sscratch = 0;
  uscratch = 0;
  satp = 0;
  fcsr = 0;
  pmpaddr = λ _. 0;
  pmpcfg = λ _. 0;
}

-- In supervisor mode, with a reservation for 5 more instructions.
abbrev start : Machine ℕ
start = record {
  hart = record {
    iss = record {
      pc = 0x1000;
      last_pc = 0x1000;
      prv = supervisor_mode;
      mstatus = status;
      machine = vector;
      supervisor = vector;
      user = vector;
      medeleg = 0;
      sedeleg = 0;
      mideleg = 0;
      sideleg = 0;
      mie = 0;
      mip = 0;
      misa = 0x40141105;
      lr_sc_counter = 5;
      bus_locked = true;
    };
    csrs = no_csrs;
    regs = λ index. if index == 0 then 0 else 7;
    fp_regs = λ _. 0;
    instr = 0;
    op = undef;
    status = runnable;
    shall_exit = false;
    ignore_wfi = false;
    debug_mode = false;
    breakpoints = λ _. false;
    total_num_instr = 0;
    cycle_counter = 0;
    exception_flags = 0;
  };
  memory = 0;
}

start-IsReady : IsReady start.hart
start-IsReady = (inl refl, (inl refl, inl refl, inl refl, inl refl))

run-Aligned_example : Ends settled (run (constant 0x00500093) no_floats 2 start)
run-Aligned_example = run-Aligned (constant 0x00500093) no_floats 2 start start-IsReady refl

is_aligned-IsReady_example : is_aligned start.hart ≡ true
is_aligned-IsReady_example = is_aligned-IsReady start.hart start-IsReady

-- `addi x1, x2, -1`.
exec_step-addi_example : exec_step (constant (Factory.addi 1 2 (2 ^ 32 - 1))) no_floats start ≡ (
  ok tt,
  record {
    hart =
        set_reg 1
          (add32 7 (2 ^ 32 - 1))
          (fetched (Factory.addi 1 2 (2 ^ 32 - 1)) addi true 0 start.hart);
    memory = 0;
  },
)
exec_step-addi_example =
    exec_step-addi (constant (Factory.addi 1 2 (2 ^ 32 - 1))) no_floats 1 2 (2 ^ 32 - 1) start true
      0 0 (omega arith) (omega arith) (inr (omega arith, omega arith)) is_aligned-IsReady_example
      refl

-- `add x1, x2, x3`.
exec_step-add_example : exec_step (constant (Factory.add 1 2 3)) no_floats start ≡ (
  ok tt,
  record {
    hart = set_reg 1 (add32 7 7) (fetched (Factory.add 1 2 3) add true 0 start.hart);
    memory = 0;
  },
)
exec_step-add_example =
    exec_step-add (constant (Factory.add 1 2 3)) no_floats 1 2 3 start true 0 0 (omega arith)
      (omega arith) (omega arith) is_aligned-IsReady_example refl

-- `csrrw x1, mscratch, x2` in supervisor mode.
csr_instruction-denied_example :
    csr_instruction (constant 0) csrrw 0x340110f3 (pure tt) start
    ≡ (trap (record { reason = 2; mtval = 0 }), start)
unfolding csr
csr_instruction-denied_example =
    csr_instruction-denied (constant 0) csrrw 0x340110f3 (pure tt) start tt (omega arith)

unbox-box_example :
    (unbox_f32 (box_f32 0x3f800000) ≡ 0x3f800000) × (is_nan single (unbox_f32 0x3f800000) ≡ true)
unbox-box_example = unbox-box 0x3f800000 0x3f800000 (omega arith) (omega arith)

status-IsStatus : IsStatus status
status-IsStatus = record {
  spp_bound = omega arith;
  mpp_bound = omega arith;
  fs_bound = omega arith;
  xs_bound = omega arith;
}

div-rem_example :
    (int32 7 *ℤ int32 (div (2 ^ 32 - 5) 7) +ℤ int32 (rem (2 ^ 32 - 5) 7) ≡ int32 (2 ^ 32 - 5))
    × (abs (int32 (rem (2 ^ 32 - 5) 7)) < abs (int32 7))
    × (pos_part (int32 (rem (2 ^ 32 - 5) 7)) ≤ pos_part (int32 (2 ^ 32 - 5)))
    × (neg_part (int32 (rem (2 ^ 32 - 5) 7)) ≤ neg_part (int32 (2 ^ 32 - 5)))
div-rem_example =
    div-rem (2 ^ 32 - 5) 7 (omega arith) (omega arith) (λ e. absurd (omega arith))
      (inl (λ e. absurd (omega arith)))

-- Two rounds of `addi x1, x0, 5` end without a trap or a failure.
run_two :
    let r = run (constant 0x00500093) no_floats 2 start in
    (r.0 ≡ ok tt) × (r.1.hart.regs 1 ≡ 5) × (r.1.hart.iss.pc ≡ 0x1008)
unfolding run exec_step tick_reservation catch proceed set_instr decode interrupts count_instruction
    count_cycles execute fetch execute_decoded synchronise performance_and_sync_update finish_step
    step_body run_step is_aligned integer unary read_reg write_rd decode_normal is_compressed
    quadrant take_interrupt compute_pending_interrupts ◌>>=◌ add32 pc_alignment_mask has_extension
    switch opcode decode_op_imm funct3 match_instr pattern_of rd rs1 i_imm
run_two = (refl, refl, refl)

products_example :
    (int32 (mulh (2 ^ 32 - 5) 7) *ℤ pos (2 ^ 32) +ℤ pos (mul (2 ^ 32 - 5) 7)
      ≡ int32 (2 ^ 32 - 5) *ℤ int32 7)
    × (mulhu (2 ^ 32 - 5) 7 * 2 ^ 32 + mul (2 ^ 32 - 5) 7 ≡ (2 ^ 32 - 5) * 7)
    × (int32 (mulhsu (2 ^ 32 - 5) 7) *ℤ pos (2 ^ 32) +ℤ pos (mul (2 ^ 32 - 5) 7)
        ≡ int32 (2 ^ 32 - 5) *ℤ pos 7)
products_example = products (2 ^ 32 - 5) 7 (omega arith) (omega arith)

write_status-views_example :
    let m = status in
    let s = (write_status sstatus_mask 0 start.hart).iss.mstatus in
    let u = (write_status ustatus_mask 0x7fffff start.hart).iss.mstatus in
    AgreeForMachine s m × AgreeForSupervisor u m
write_status-views_example = write_status-views 0 0x7fffff start.hart status-IsStatus
