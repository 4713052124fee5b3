-- ===== src/Iss/Step/Aligned/Trap.antt =====
-- Traps and interrupts enter their handlers at aligned addresses, and remember aligned ones.
use riscv_vp.Base.{
  ℕ, ◌≡◌, inl, inr, Bool, true, false, Option, none, some, ◌%◌, ◌==◌, Bool-cases, Option-cases,
  if◌then◌else◌, arith,
}
use mathlib.Core.Option
use riscv_vp.Iss.State.{Iss, Handler, machine_mode, supervisor_mode, user_mode, none_mode}
use riscv_vp.Iss.Trap.{
  SimulationTrap, prepare_trap, handler_address, switch_to_trap_handler, release_lr_sc_reservation,
}
use riscv_vp.Iss.Interrupt.{
  PendingInterrupts, compute_pending_interrupts, prepare_interrupt, interrupt_code, store_code,
}
use riscv_vp.Iss.Interrupt.Take.{take_interrupt}
use riscv_vp.Iss.Hart.{Hart}
use riscv_vp.Iss.Exec.{Machine, modify, gets, or_fail, ◌>>=◌}
use riscv_vp.Iss.Exec.Keeps.{Ends, Invariant, Keeps}
use riscv_vp.Iss.Step.Run.{interrupts, handle_trap}
use riscv_vp.Iss.Step.Aligned.{aligned, IsReady, IsStable}
use riscv_vp.Iss.Step.Aligned.System.{Returned, or_fail-Ends}

handler_address-aligned : (h : Handler) → handler_address h % 4 ≡ 0
unfolding handler_address
handler_address-aligned h = ground arith

switch-Returned : (mode : ℕ) (h : Hart) → IsReady h → Returned h (switch_to_trap_handler mode h.iss)
unfolding switch_to_trap_handler release_lr_sc_reservation
switch-Returned mode h r = elim (Bool-cases (mode == machine_mode)) [
  | inl m ↦ rw m (inl (handler_address-aligned _), (r.1.0, r.0, r.1.2, r.1.3))
  | inr m ↦ elim (Bool-cases (mode == supervisor_mode)) [
    | inl v ↦ rw (m, v) (inl (handler_address-aligned _), (r.1.0, r.1.1, r.0, r.1.3))
    | inr v ↦ elim (Bool-cases (mode == user_mode)) [
      | inl u ↦ rw (m, v, u) (inl (handler_address-aligned _), (r.1.0, r.1.1, r.1.2, r.0))
      | inr u ↦ rw (m, v, u) tt
    ]
  ]
]

store_code-Returned :
    (mode code : ℕ) (h : Hart) → IsReady h → Returned h (store_code mode code h.iss)
unfolding store_code
store_code-Returned mode code h r = elim (Bool-cases (mode == machine_mode)) [
  | inl m ↦ rw m r
  | inr m ↦ elim (Bool-cases (mode == supervisor_mode)) [
    | inl v ↦ rw (m, v) r
    | inr v ↦ elim (Bool-cases (mode == user_mode)) [
      | inl u ↦ rw (m, v, u) r
      | inr u ↦ rw (m, v, u) tt
    ]
  ]
]

bind-Returned :
    (o : Option Iss) (f : Iss → Option Iss) (h : Hart)
    → Returned h o
    → ((t : Iss) → IsReady (record h { iss = t }) → Returned h (f t))
    → Returned h (Option.bind o f)
unfolding Option.bind
bind-Returned none f h r k = tt
bind-Returned (some t) f h r k = k t r

prepare_interrupt-Returned :
    (p : PendingInterrupts) (h : Hart) → IsReady h → Returned h (prepare_interrupt p h.iss)
unfolding prepare_interrupt
prepare_interrupt-Returned p h r = elim (Option-cases (interrupt_code p.pending)) [
  | inl e ↦ rw (e, prepare_interrupt) tt
  | inr (c, e) ↦ rw (e, prepare_interrupt) (store_code-Returned p.target_mode c h r)
]

take_interrupt-Returned : (h : Hart) → IsReady h → Returned h (take_interrupt h.iss)
unfolding take_interrupt
take_interrupt-Returned h r =
    let x = compute_pending_interrupts h.iss in
    elim (Bool-cases (x.target_mode == none_mode)) [
      | inl e ↦ rw e r
      | inr e ↦ rw e (
          bind-Returned _ _ h (prepare_interrupt-Returned x h r)
            (λ t k. switch-Returned x.target_mode (record h { iss = t }) k))
    ]

abbrev Prepared : Hart → Option (ℕ × Iss) → Type 0
Prepared h none = Unit
Prepared h (some (mode, t)) = IsReady (record h { iss = t })

record IsPrepared (h : Hart) (o : Option (ℕ × Iss)) : Type 0 where
  holds : Prepared h o

if-Prepared :
    (h : Hart) (b : Bool) (x y : Option (ℕ × Iss))
    → IsPrepared h x
    → IsPrepared h y
    → IsPrepared h (if b then x else y)
if-Prepared h true x y p q = p
if-Prepared h false x y p q = q

none-Prepared : (h : Hart) → IsPrepared h none
none-Prepared h = record { holds = tt }

some-Prepared :
    (h : Hart) (mode : ℕ) (t : Iss) → IsReady (record h { iss = t }) → IsPrepared h (some (mode, t))
some-Prepared h mode t r = record { holds = r }

-- The program counter is back at the instruction that raised the trap.
prepare_trap-Ready :
    (e : SimulationTrap) (h : Hart) → IsStable h → Prepared h (prepare_trap e h.iss)
unfolding prepare_trap
prepare_trap-Ready e h r =
    let t : IsReady (record h { iss = record h.iss { pc = h.iss.last_pc } }) = (r.0, r) in
    let p : IsPrepared h (prepare_trap e h.iss) =
      search (if-Prepared, none-Prepared, some-Prepared, t) in
    p.holds

module _ {M : Type 0} where
  pub interrupts-Keeps : Keeps {M = M} aligned interrupts
  unfolding interrupts ◌>>=◌ gets
  interrupts-Keeps = record {
    at = λ s h. or_fail-Ends (take_interrupt s.hart.iss) s (take_interrupt-Returned s.hart h);
  }

-- An action that ends without a trap.
abbrev pub quiet : Invariant
quiet = record { Ready = IsReady; Stable = λ _. ⊥ }

module _ {M : Type 0} where
  entered :
      (o : Option Iss) (s : Machine M)
      → Returned s.hart o
      → Ends quiet ((or_fail o >>= λ iss. modify (λ h. record h { iss = iss })) s)
  unfolding or_fail ◌>>=◌ modify
  entered none s r = tt
  entered (some t) s r = r

  handled :
      (o : Option (ℕ × Iss)) (s : Machine M)
      → Prepared s.hart o
      → Ends quiet (
          (or_fail o >>= λ p.
          or_fail (switch_to_trap_handler p.0 p.1) >>= λ iss. modify (λ h. record h { iss = iss }))
            s)
  unfolding or_fail ◌>>=◌
  handled none s r = tt
  handled (some (mode, t)) s r =
      entered (switch_to_trap_handler mode t) s (switch-Returned mode (record s.hart { iss = t }) r)

  pub handle_trap-Ends :
      (e : SimulationTrap) (s : Machine M) → IsStable s.hart → Ends quiet (handle_trap e s)
  unfolding handle_trap ◌>>=◌ gets
  handle_trap-Ends e s r = handled (prepare_trap e s.hart.iss) s (prepare_trap-Ready e s.hart r)
