-- ===== src/Iss/Step/Aligned/Run.antt =====
-- Every step of a hart leaves the program counter aligned and `x0` at 0 (`run_step` and `run` of
-- vp/src/core/rv32/iss.cpp).
use riscv_vp.Base.{
  ℕ, zero, suc, ◌≡◌, ◌⊎◌, inl, inr, refl, true, Option, none, some, ◌%◌, ◌==◌, Bool-cases, subst,
  sym, and-ones, arith,
}
use riscv_vp.Instr.Mapping.{Mapping, undef, rv32}
use riscv_vp.Instr.Compressed.{decode_and_expand_compressed}
use riscv_vp.Instr.Compressed.Fields.{is_compressed}
use riscv_vp.Iss.State.{has_extension, isa_c}
use riscv_vp.Iss.Trap.{SimulationTrap, release_lr_sc_reservation}
use riscv_vp.Iss.Alu.{add32}
use riscv_vp.Iss.Hart.{Hart, Environment, Floats, Result, ok, trap, failed, Status, runnable}
use riscv_vp.Iss.Exec.{Exec, Machine, pure, fail, modify, gets, raise, or_fail, access, ◌>>=◌}
use riscv_vp.Iss.Exec.Keeps.{
  Ends, Invariant, Keeps, Keeps-pure, Keeps-modify, Keeps-bind, Keeps-gets, Ends-bind, keeps_rules,
}
use riscv_vp.Iss.Csr.Read.{illegal_instruction, require_isa}
use riscv_vp.Iss.Step.Run.{
  catch, rethrow, set_instr, is_aligned, require_compressed, decode_half, decode, interrupts,
  handle_trap, tick_reservation, proceed, execute, fetch, execute_decoded, exec_step,
  count_instruction, count_cycles, synchronise, performance_and_sync_update, finish_step, step_body,
  run_step, run,
}
use riscv_vp.Iss.Step.Aligned.{aligned, IsAligned, IsReady, IsStable, access-Keeps}
use riscv_vp.Iss.Step.Aligned.Groups.{
  illegal-Keeps, integer-Keeps, multiplication-Keeps, control-Keeps, memory-Keeps, atomic-Keeps,
}
use riscv_vp.Iss.Step.Aligned.System.{csr_instruction-Keeps, privileged-Keeps, system_call-Keeps}
use riscv_vp.Iss.Step.Integer.{integer}
use riscv_vp.Iss.Step.Control.{control}
use riscv_vp.Iss.Step.Memory.{memory}
use riscv_vp.Iss.Step.Multiplication.{multiplication}
use riscv_vp.Iss.Step.System.{csr_instruction}
use riscv_vp.Iss.Step.Privileged.{privileged}
use riscv_vp.Iss.Step.Atomic.{atomic}
use riscv_vp.Iss.Step.SingleFloat.{single_float}
use riscv_vp.Iss.Step.DoubleFloat.{double_float}
use riscv_vp.Iss.Step.Aligned.Csr.{half, whole}
use riscv_vp.Iss.Step.Aligned.Trap.{quiet, interrupts-Keeps, handle_trap-Ends}
use riscv_vp.Iss.Csr.Write.{pc_alignment_mask}
use riscv_vp.Iss.Step.Aligned.Float.{single_float-Keeps, double_float-Keeps}

module _ {M A : Type 0} (v w : Invariant) where
  caught :
      (r : Result A × Machine M) (handle : SimulationTrap → Exec M A)
      → Ends v r
      → ((h : Hart) → v.Ready h → w.Ready h)
      → ((e : SimulationTrap) (s : Machine M) → v.Stable s.hart → Ends w (handle e s))
      → Ends w (catch (λ _. r) handle r.1)
  unfolding catch
  caught (ok a, s) handle e k n = k s.hart e
  caught (trap t, s) handle e k n = n t s e
  caught (failed, s) handle e k n = tt

  catch-Ends :
      (m : Exec M A) (handle : SimulationTrap → Exec M A) (s : Machine M)
      → Ends v (m s)
      → ((h : Hart) → v.Ready h → w.Ready h)
      → ((e : SimulationTrap) (s : Machine M) → v.Stable s.hart → Ends w (handle e s))
      → Ends w (catch m handle s)
  unfolding catch
  catch-Ends m handle s e k n = caught (m s) handle e k n

-- What `decode` leaves: if a compressed instruction is undefined, the program counter is not
-- aligned where there is no C extension, and the instruction is going to trap.
abbrev decoded : Invariant
decoded = record { Ready = λ h. IsReady h ⊎ (IsStable h × (h.op ≡ undef)); Stable = IsStable }

next_full : (misa pc : ℕ) → IsAligned misa pc → IsAligned misa (add32 pc 4)
unfolding add32
next_full misa pc (inl h) = inl (omega arith)
next_full misa pc (inr (h, c)) = inr (omega arith, c)

next_half : (misa pc : ℕ) → IsAligned misa pc → add32 pc 2 % 2 ≡ 0
unfolding add32
next_half misa pc (inl h) = omega arith
next_half misa pc (inr (h, c)) = omega arith

module _ {M : Type 0} where
  -- After `pc += 2`.
  require_isa-Ends :
      (s : Machine M) → IsStable s.hart → s.hart.iss.pc % 2 ≡ 0 → Ends decoded (require_isa isa_c s)
  unfolding require_isa illegal_instruction ◌>>=◌ gets raise
  require_isa-Ends s r e = elim (Bool-cases (has_extension s.hart.iss.misa isa_c)) [
    | inl c ↦ rw c (inl (inr (e, c), r))
    | inr c ↦ rw c r
  ]

  require_compressed-Ends :
      (op : Mapping) (s : Machine M)
      → IsStable s.hart
      → s.hart.iss.pc % 2 ≡ 0
      → s.hart.op ≡ op
      → Ends decoded (require_compressed op s)
  unfolding require_compressed pure
  require_compressed-Ends undef s r e o = inr (r, o)
  require_compressed-Ends _ s r e o = require_isa-Ends s r e

  half-Ends :
      (d : Option (ℕ × Mapping)) (s : Machine M)
      → IsReady s.hart
      → Ends decoded ((or_fail d >>= λ d. set_instr d.0 d.1 2 >>= λ _. require_compressed d.1) s)
  unfolding or_fail ◌>>=◌ set_instr modify
  half-Ends none s r = tt
  half-Ends (some (word, op)) s r =
      require_compressed-Ends op _ r.1 (next_half s.hart.iss.misa s.hart.iss.pc r.0) refl

  decode-Ends : (word : ℕ) (s : Machine M) → IsReady s.hart → Ends decoded (decode word s)
  unfolding decode decode_half set_instr modify
  decode-Ends word s r = elim (Bool-cases (is_compressed word)) [
    | inl c ↦ rw c (half-Ends (decode_and_expand_compressed rv32 word) s r)
    | inr c ↦ rw c (inl (next_full s.hart.iss.misa s.hart.iss.pc r.0, r.1))
  ]

module _ {M : Type 0} (env : Environment M) (floats : Floats) where
  execute-Keeps : (op : Mapping) (i : ℕ) → Keeps aligned (execute env floats op i)
  unfolding execute
  execute-Keeps op i = integer-Keeps op i _ (
      control-Keeps op i _ (
        memory-Keeps env op i _ (
          multiplication-Keeps op i _ (
            csr_instruction-Keeps env op i _ (
              atomic-Keeps env op i _ (
                single_float-Keeps env floats.f32 op i _ (
                  double_float-Keeps env floats op i _ (
                    privileged-Keeps env op i _ (system_call-Keeps env op i _ illegal-Keeps)))))))))

  undef-Ends :
      (i : ℕ) (s : Machine M) → IsStable s.hart → Ends aligned (execute env floats undef i s)
  unfolding execute integer control memory multiplication csr_instruction atomic single_float
      double_float privileged illegal_instruction ◌>>=◌ gets raise
  undef-Ends i s r = r

  fetch-Ends : (s : Machine M) → IsReady s.hart → Ends aligned (fetch env floats s)
  unfolding fetch ◌>>=◌ gets pure fail modify rethrow
  fetch-Ends s r = elim (Bool-cases (is_aligned s.hart)) [
    | inl e ↦ rw e (
        catch-Ends aligned aligned (access (env.load_instr s.hart.iss.pc)) _ s
          ((access-Keeps (env.load_instr s.hart.iss.pc)).at s r) (λ h k. k) (λ e s k. k))
    | inr e ↦ rw e tt
  ]

  started-Ends :
      (s : Machine M)
      → IsReady s.hart ⊎ (IsStable s.hart × (s.hart.op ≡ undef))
      → Ends aligned (execute env floats s.hart.op s.hart.instr s)
  started-Ends s (inl r) = (execute-Keeps s.hart.op s.hart.instr).at s r
  started-Ends s (inr (r, e)) =
      subst (λ op. Ends aligned (execute env floats op s.hart.instr s)) (sym e)
        (undef-Ends s.hart.instr s r)

  decoded-Ends :
      (s : Machine M)
      → IsReady s.hart ⊎ (IsStable s.hart × (s.hart.op ≡ undef))
      → Ends aligned (execute_decoded env floats s)
  unfolding execute_decoded ◌>>=◌ gets
  decoded-Ends s d = started-Ends s d

  exec_step-Ends : (s : Machine M) → IsReady s.hart → Ends aligned (exec_step env floats s)
  unfolding exec_step
  exec_step-Ends s r =
      Ends-bind aligned aligned _ _ s (fetch-Ends s r) (λ h k. k)
        λ word s r.
          Ends-bind decoded aligned _ _ s (decode-Ends word s r) (λ h k. k)
            λ _ s d. decoded-Ends s d

  -- The `try` block of `run_step`, with its handler.
  trapped-Ends :
      (s : Machine M)
      → IsReady s.hart
      → Ends quiet (catch (exec_step env floats >>= λ _. interrupts) handle_trap s)
  trapped-Ends s r =
      catch-Ends aligned quiet _ handle_trap s
        (Ends-bind aligned aligned _ _ s (exec_step-Ends s r) (λ h k. k)
          (λ _ s r. interrupts-Keeps.at s r))
        (λ h k. k) handle_trap-Ends

-- Between steps: the program counter is aligned and `x0` is 0. Nothing traps any more.
abbrev pub settled : Invariant
settled = record { Ready = λ h. IsReady h × (h.regs 0 ≡ 0); Stable = λ _. ⊥ }

tick_reservation-Ready :
    (h : Hart)
    → IsReady h × (h.regs 0 ≡ 0)
    → IsReady (record h { iss = tick_reservation h.iss }) × (h.regs 0 ≡ 0)
unfolding tick_reservation release_lr_sc_reservation
tick_reservation-Ready h r = elim (Bool-cases (h.iss.lr_sc_counter == 0)) [
  | inl e ↦ rw e r
  | inr e ↦ elim (Bool-cases (h.iss.lr_sc_counter == 1)) [
    | inl f ↦ rw (e, f) r
    | inr f ↦ rw (e, f) r
  ]
]

-- An aligned program counter passes the assertion at the start of `exec_step`, which masks it with
-- `pc_alignment_mask`.
pub is_aligned-IsReady : (h : Hart) → IsReady h → is_aligned h ≡ true
unfolding is_aligned pc_alignment_mask
is_aligned-IsReady h r = elim (Bool-cases (has_extension h.iss.misa isa_c)) [
  | inl c ↦ rw c (ground (arith, and-ones 1 h.iss.pc, half h.iss.misa h.iss.pc r.0))
  | inr c ↦ rw c (ground (arith, and-ones 2 h.iss.pc, whole h.iss.misa h.iss.pc r.0 c))
]

module _ {M : Type 0} where
  count_instruction-Keeps : Keeps {M = M} settled count_instruction
  unfolding count_instruction
  count_instruction-Keeps = Keeps-modify _ (λ h r. r)

  count_cycles-Keeps : (n : ℕ) → Keeps {M = M} settled (count_cycles n)
  unfolding count_cycles
  count_cycles-Keeps n = Keeps-modify _ (λ h r. r)

module _ {M : Type 0} (env : Environment M) (floats : Floats) where
  synchronise-Keeps : Keeps settled (synchronise env floats)
  unfolding synchronise
  synchronise-Keeps = search keeps_rules depth 40

  performance-Keeps : Keeps settled (performance_and_sync_update env floats)
  unfolding performance_and_sync_update
  performance-Keeps =
      search
        (
          keeps_rules, count_instruction-Keeps, count_cycles-Keeps, synchronise-Keeps,
          tick_reservation-Ready,
        )
        depth 40

  finish_step-Ends : (s : Machine M) → IsReady s.hart → Ends settled (finish_step env floats s)
  unfolding finish_step ◌>>=◌ modify
  finish_step-Ends s r = performance-Keeps.at _ (r, refl)

  begin-Ends :
      (s : Machine M)
      → IsReady s.hart
      → Ends quiet (modify (λ h. record h { iss = record h.iss { last_pc = h.iss.pc } }) s)
  unfolding modify
  begin-Ends s r = (r.0, (r.0, r.1.1, r.1.2, r.1.3))

  step_body-Ends : (s : Machine M) → IsReady s.hart → Ends settled (step_body env floats s)
  unfolding step_body
  step_body-Ends s r =
      Ends-bind quiet settled _ _ s (begin-Ends s r) (λ h k. k)
        λ _ s r.
          Ends-bind quiet settled _ _ s (trapped-Ends env floats s r) (λ h k. k)
            λ _ s r. finish_step-Ends s r

  step_body-Keeps : Keeps settled (step_body env floats)
  step_body-Keeps = record { at = λ s r. step_body-Ends s r.0 }

  -- From an aligned program counter and with 0 in `x0`, a step ends so again or fails; no trap
  -- leaves it.
  pub run_step-Settled : Keeps settled (run_step env floats)
  unfolding run_step
  run_step-Settled = search (keeps_rules, step_body-Keeps)

  proceed-Keeps :
      (status : Status) (rest : Exec M (Unit {0}))
      → Keeps settled rest
      → Keeps settled (proceed status rest)
  unfolding proceed
  proceed-Keeps runnable rest k = k
  proceed-Keeps _ rest k = Keeps-pure tt

  -- So it stays over any number of steps.
  pub run-Settled : (n : ℕ) → Keeps settled (run env floats n)
  unfolding run
  run-Settled zero = Keeps-pure tt
  run-Settled (suc n) = Keeps-bind _ _ run_step-Settled λ _.
      Keeps-bind _ _ (Keeps-gets _)
        λ status. proceed-Keeps status (run env floats n) (run-Settled n)

  -- If the program counter, the one before it and the return addresses of the three modes are
  -- aligned and `x0` is 0, then after any number of rounds of `run` all of that holds again, unless
  -- the simulator failed; no trap leaves `run`.
  pub run-Aligned :
      (n : ℕ) (s : Machine M)
      → IsReady s.hart
      → s.hart.regs 0 ≡ 0
      → Ends settled (run env floats n s)
  run-Aligned n s r z = (run-Settled n).at s (r, z)
