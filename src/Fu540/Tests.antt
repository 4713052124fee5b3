-- ===== src/Fu540/Tests.antt =====
-- The FU540 interrupt controller at concrete states.
use riscv_vp.Base.{◌^◌, ◌≡◌, refl, false, true, ◌==◌, if◌then◌else◌, none, some}
use riscv_vp.Iss.State.{machine_mode, supervisor_mode}
use riscv_vp.Clint.Tests.{idle}
use riscv_vp.Fu540.{
  Fu540, is_enabled, is_pending, passes, get_threshold, compare_best, unless_skipped, consider,
  and_then, select, next_pending_irq,
}

-- Hart 1 has interrupts 3 to 7 enabled in both modes; 3, 5, 6 and 7 pend.
abbrev board : Fu540
board = record {
  number_harts = 2;
  interrupt_priorities = λ i. if i == 5 then 1 else 3;
  pending_interrupts = λ w. if w == 0 then 0b11101000 else 0;
  enabled_irqs = λ h l w. 0b11110000;
  hart_context = λ h l w. 3;
  target_harts = λ h. idle;
  e_run = false;
}

-- The threshold lets an equal priority pass.
lowest_wins : next_pending_irq board 1 supervisor_mode false ≡ some 6
unfolding next_pending_irq select and_then consider is_enabled is_pending passes get_threshold
    compare_best unless_skipped
lowest_wins = refl

-- With interrupt 53 enabled and pending, the index of its priority is out of range.
abbrev last : Fu540
last = record board { pending_interrupts = λ w. 2 ^ 21; enabled_irqs = λ h l w. 2 ^ 21 }

last-fails : next_pending_irq last 0 machine_mode true ≡ none
unfolding next_pending_irq select and_then consider is_enabled is_pending passes get_threshold
    compare_best unless_skipped
last-fails = refl
