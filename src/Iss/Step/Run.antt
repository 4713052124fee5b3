-- ===== src/Iss/Step/Run.antt =====
-- `exec_step`, `run_step`, `performance_and_sync_update` and `run` (vp/src/core/rv32/iss.cpp).
use riscv_vp.Base.{ℕ, zero, suc, ◌+◌, ◌-◌, ◌%◌, ◌^◌, Bool, ◌&&◌, not, ◌==◌, if◌then◌else◌, bit_and}
use riscv_vp.Instr.Mapping.{
  Mapping, undef, lb, lbu, lh, lhu, lw, sb, sh, sw, mul, mulh, mulhu, mulhsu, div, divu, rem, remu,
  rv32,
}
use riscv_vp.Instr.Decode.{decode_normal}
use riscv_vp.Instr.Compressed.{decode_and_expand_compressed}
use riscv_vp.Instr.Compressed.Fields.{is_compressed}
use riscv_vp.Iss.State.{Iss, isa_c}
use riscv_vp.Iss.Trap.{
  SimulationTrap, prepare_trap, switch_to_trap_handler, release_lr_sc_reservation,
}
use riscv_vp.Iss.Interrupt.Take.{take_interrupt}
use riscv_vp.Iss.Alu.{add32}
use riscv_vp.Iss.Hart.{
  Hart, Environment, Floats, ok, trap, failed, Status, runnable, hit_breakpoint, terminated,
}
use riscv_vp.Iss.Exec.{
  Exec, pure, gets, access, consult, or_fail, modify, when, require, ◌>>=◌, ◌>>◌,
}
use riscv_vp.Iss.Csr.Read.{illegal_instruction, require_isa}
use riscv_vp.Iss.Csr.Write.{pc_alignment_mask}
use riscv_vp.Iss.Step.Integer.{integer}
use riscv_vp.Iss.Step.Control.{control}
use riscv_vp.Iss.Step.Memory.{memory}
use riscv_vp.Iss.Step.Multiplication.{multiplication}
use riscv_vp.Iss.Step.System.{csr_instruction, system_call}
use riscv_vp.Iss.Step.Privileged.{privileged}
use riscv_vp.Iss.Step.Atomic.{atomic}
use riscv_vp.Iss.Step.SingleFloat.{single_float}
use riscv_vp.Iss.Step.DoubleFloat.{double_float}

-- The entries of `instr_cycles`, in `cycle_time` (the constructor of `ISS`).
unfoldable pub instr_cycles : Mapping → ℕ
instr_cycles lb = 4
instr_cycles lbu = 4
instr_cycles lh = 4
instr_cycles lhu = 4
instr_cycles lw = 4
instr_cycles sb = 4
instr_cycles sh = 4
instr_cycles sw = 4
instr_cycles mul = 8
instr_cycles mulh = 8
instr_cycles mulhu = 8
instr_cycles mulhsu = 8
instr_cycles div = 8
instr_cycles divu = 8
instr_cycles rem = 8
instr_cycles remu = 8
instr_cycles _ = 1

-- The counter of LR/SC.
unfoldable pub tick_reservation : Iss → Iss
tick_reservation s =
    if s.lr_sc_counter == 0
    then s
    else if s.lr_sc_counter == 1
    then release_lr_sc_reservation s
    else record s { lr_sc_counter = s.lr_sc_counter - 1 }

module _ {M : Type 0} where
  -- `try { … } catch (SimulationTrap &e) { … }`.
  unfoldable pub catch : {A : Type 0} → Exec M A → (SimulationTrap → Exec M A) → Exec M A
  catch m handle s =
      let (r, s') = m s in
      elim r [ ok a ↦ (ok a, s') | trap e ↦ handle e s' | failed ↦ (failed, s') ]

  -- The condition of the loop of `run`.
  unfoldable pub proceed : Status → Exec M (Unit {0}) → Exec M (Unit {0})
  proceed runnable rest = rest
  proceed _ rest = pure tt

  unfoldable pub rethrow : {A : Type 0} → SimulationTrap → Exec M A
  rethrow e s = (trap e, s)

  unfoldable pub set_instr : ℕ → Mapping → ℕ → Exec M (Unit {0})
  set_instr word op size =
      modify
        λ h. record h { instr = word; op = op; iss = record h.iss { pc = add32 h.iss.pc size } }

  -- An undefined compressed instruction needs no extension.
  unfoldable pub require_compressed : Mapping → Exec M (Unit {0})
  require_compressed undef = pure tt
  require_compressed _ = require_isa isa_c

  unfoldable pub decode_half : ℕ → Exec M (Unit {0})
  decode_half word = do
    d ← or_fail (decode_and_expand_compressed rv32 word)
    set_instr d.0 d.1 2
    require_compressed d.1

  unfoldable pub decode : ℕ → Exec M (Unit {0})
  decode word =
      if is_compressed word then decode_half word else set_instr word (decode_normal rv32 word) 4

  -- The rest of `run_step`'s `try` block.
  unfoldable pub interrupts : Exec M (Unit {0})
  interrupts = do
    taken ← gets (λ h. take_interrupt h.iss)
    iss ← or_fail taken
    modify (λ h. record h { iss = iss })

  unfoldable pub handle_trap : SimulationTrap → Exec M (Unit {0})
  handle_trap e = do
    prepared ← gets (λ h. prepare_trap e h.iss)
    p ← or_fail prepared
    iss ← or_fail (switch_to_trap_handler p.0 p.1)
    modify (λ h. record h { iss = iss })

  unfoldable pub count_instruction : Exec M (Unit {0})
  count_instruction = modify λ h.
      let inhibited = not (bit_and h.csrs.mcountinhibit 4 == 0) in
      record h {
        total_num_instr = (h.total_num_instr + 1) % 2 ^ 64;
        csrs = record h.csrs {
          instret = if inhibited then h.csrs.instret else (h.csrs.instret + 1) % 2 ^ 64;
        };
      }

  unfoldable pub count_cycles : ℕ → Exec M (Unit {0})
  count_cycles n = modify λ h.
      let inhibited = not (bit_and h.csrs.mcountinhibit 1 == 0) in
      record h { cycle_counter = if inhibited then h.cycle_counter else h.cycle_counter + n }

-- The assertion of `exec_step`.
unfoldable pub is_aligned : Hart → Bool
is_aligned h = bit_and h.iss.pc (2 ^ 32 - 1 - pc_alignment_mask h.iss.misa) == 0

module _ {M : Type 0} (env : Environment M) (floats : Floats) where
  -- The `switch` of `exec_step`; what no case takes is an instruction of RV64, which is illegal.
  unfoldable pub execute : Mapping → ℕ → Exec M (Unit {0})
  execute op i = integer op i (
      control op i (
        memory env op i (
          multiplication op i (
            csr_instruction env op i (
              atomic env op i (
                single_float env floats.f32 op i (
                  double_float env floats op i
                    (privileged env op i (system_call env op i illegal_instruction)))))))))

  unfoldable pub fetch : Exec M ℕ
  fetch = do
    pc ← gets (λ h. h.iss.pc)
    aligned ← gets is_aligned
    require aligned
    catch (access (env.load_instr pc))
        λ e. do modify (λ h. record h { op = undef; instr = 0 }); rethrow e

  unfoldable pub execute_decoded : Exec M (Unit {0})
  execute_decoded = do op ← gets (λ h. h.op); i ← gets (λ h. h.instr); execute op i

  unfoldable pub exec_step : Exec M (Unit {0})
  exec_step = do word ← fetch; decode word; execute_decoded

  -- The quantum is over: other parts of the platform run, unless a reservation is held.
  unfoldable pub synchronise : Exec M (Unit {0})
  synchronise = do
    over ← consult (λ m. (env.need_sync m, m))
    held ← gets (λ h. not (h.iss.lr_sc_counter == 0))
    when (over && not held) do
      mip ← gets (λ h. h.iss.mip)
      mip' ← consult (env.sync mip)
      modify (λ h. record h { iss = record h.iss { mip = mip' } })

  unfoldable pub performance_and_sync_update : Exec M (Unit {0})
  performance_and_sync_update = do
    count_instruction
    modify (λ h. record h { iss = tick_reservation h.iss })
    new_cycles ← gets (λ h. instr_cycles h.op)
    count_cycles new_cycles
    consult (λ m. (tt, env.inc new_cycles m))
    synchronise

  -- What follows the `try` block: `x0` is reset.
  unfoldable pub finish_step : Exec M (Unit {0})
  finish_step = do
    modify (λ h. record h { regs = λ index. if index == 0 then 0 else h.regs index })
    modify (λ h. record h { status = if h.shall_exit then terminated else h.status })
    performance_and_sync_update

  unfoldable pub step_body : Exec M (Unit {0})
  step_body = do
    modify (λ h. record h { iss = record h.iss { last_pc = h.iss.pc } })
    catch (exec_step >> interrupts) handle_trap
    finish_step

  unfoldable pub run_step : Exec M (Unit {0})
  run_step = do
    zero_reg ← gets (λ h. h.regs 0)
    require (zero_reg == 0)
    at_breakpoint ← gets (λ h. h.debug_mode && h.breakpoints h.iss.pc)
    if at_breakpoint then modify (λ h. record h { status = hit_breakpoint }) else step_body

  -- At most `n` rounds of the loop of `run`; the guest decides whether it ever ends.
  unfoldable pub run : ℕ → Exec M (Unit {0})
  run zero = pure tt
  run (suc n) = do run_step; status ← gets (λ h. h.status); proceed status (run n)
