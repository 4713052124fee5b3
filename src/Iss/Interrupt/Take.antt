-- ===== src/Iss/Interrupt/Take.antt =====
-- Taking an interrupt after an instruction (`ISS::run_step` of vp/src/core/rv32/iss.cpp).
use riscv_vp.Base.{
  ℕ, ◌≡◌, ◌≢◌, ◌⊎◌, inl, inr, refl, subst, Option, some, Option-cases, ◌==◌, if◌then◌else◌,
  Bool-cases, arith,
}
use mathlib.Core.Option
use riscv_vp.Iss.State.{Iss, none_mode}
use riscv_vp.Iss.Trap.{switch_to_trap_handler}
use riscv_vp.Iss.Trap.Laws.{IsLevel}
use riscv_vp.Iss.Interrupt.{
  compute_pending_interrupts, prepare_interrupt, interrupt_code, store_code,
}
use riscv_vp.Iss.Interrupt.Enable.{IsMasked, Coded, pending-Coded}

-- What `run_step` does between `exec_step` and the handler of `SimulationTrap`.
unfoldable pub take_interrupt : Iss → Option Iss
take_interrupt s =
    let x = compute_pending_interrupts s in
    if x.target_mode == none_mode
    then some s
    else Option.bind (prepare_interrupt x s) (switch_to_trap_handler x.target_mode)

target-IsLevel :
    (s : Iss)
    → (compute_pending_interrupts s).target_mode ≢ none_mode
    → IsLevel (compute_pending_interrupts s).target_mode
unfolding compute_pending_interrupts
target-IsLevel s n = ground arith

store_code_total : (m c : ℕ) (s : Iss) → IsLevel m → (t : Iss) × (store_code m c s ≡ some t)
unfolding store_code
store_code_total m c s (inl e) = rw e (_, refl)
store_code_total m c s (inr (inl e)) = rw e (_, refl)
store_code_total m c s (inr (inr e)) = rw e (_, refl)

-- Entering a handler of one of the three levels succeeds.
switch_total :
    (m : ℕ) (s : Iss) → IsLevel m → (t : Iss) × (switch_to_trap_handler m s ≡ some t) × (t.prv ≡ m)
unfolding switch_to_trap_handler
switch_total m s (inl e) = rw e (_, refl, refl)
switch_total m s (inr (inl e)) = rw e (_, refl, refl)
switch_total m s (inr (inr e)) = rw e (_, refl, refl)

prepare_interrupt_total :
    (s : Iss)
    → IsMasked s
    → (compute_pending_interrupts s).target_mode ≢ none_mode
    → (t : Iss) × (prepare_interrupt (compute_pending_interrupts s) s ≡ some t)
unfolding prepare_interrupt
prepare_interrupt_total s h n =
    elim (Option-cases (interrupt_code (compute_pending_interrupts s).pending)) [
      | inl e ↦
          absurd (subst (Coded (compute_pending_interrupts s).pending) e (pending-Coded s h n))
      | inr (c, e) ↦ rw (e, prepare_interrupt) (store_code_total _ c s (target-IsLevel s n))
    ]

-- If `mie` holds only bits of `MIE_MASK`, then taking an interrupt after an instruction throws no
-- exception: the hart goes on unchanged, if no mode takes an interrupt, or else at the level of the
-- mode that does.
pub take_interrupt_total :
    (s : Iss)
    → IsMasked s
    → (t : Iss) × (take_interrupt s ≡ some t)
      × (((compute_pending_interrupts s).target_mode ≡ none_mode) × (t ≡ s)
          ⊎ ((compute_pending_interrupts s).target_mode ≢ none_mode)
            × (t.prv ≡ (compute_pending_interrupts s).target_mode))
unfolding take_interrupt Option.bind
take_interrupt_total s h =
    elim (Bool-cases ((compute_pending_interrupts s).target_mode == none_mode)) [
      | inl e ↦ (s, rw e refl, inl (ground arith, refl))
      | inr e ↦
          let n : (compute_pending_interrupts s).target_mode ≢ none_mode = ground arith in
          let prepared = prepare_interrupt_total s h n in
          let switched = switch_total _ prepared.0 (target-IsLevel s n) in
          (switched.0, rw (e, prepared.1) switched.1, inr (n, switched.2))
    ]
