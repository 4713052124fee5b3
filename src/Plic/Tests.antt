-- ===== src/Plic/Tests.antt =====
-- The interrupt controller at concrete states.
use riscv_vp.Base.{
  ℕ, ◌+◌, ◌≡◌, refl, false, true, ◌==◌, if◌then◌else◌, Bool, List, [], ◌∷◌, Option, none, some,
  arith,
}
use riscv_vp.Iss.State.{Iss, machine_mode}
use riscv_vp.Clint.Tests.{idle}
use riscv_vp.Plic.{
  Plic, gateway_trigger_interrupt, pre_read_hart_config, claim, clear_pending_interrupt, run,
  signal_from, signal, write_hart_config, post_write_hart_config, complete, read_hart_config,
  hart_get_next_pending_interrupt, hart_has_pending_enabled_interrupts, is_candidate, choose,
}
use riscv_vp.Iss.Interrupt.Trigger.{
  trigger_external_interrupt, clear_external_interrupt, external_interrupt, set_bit,
}
use riscv_vp.Plic.Claim.{Claimed, read-Claimed, Open}
use riscv_vp.Plic.Signal.{
  meip, Told, AllLeaveMeip, enables_write, hart_runs, after_read, arrival, Event, config_read,
  config_write, wake_up, step, steps, AllTold, steps-AllTold, arrival-wake,
}
use riscv_vp.Plic.Best.{IsTop}
use riscv_vp.Plic.Choice.{Eligible, next_pending-IsTop}

abbrev board : Plic
board = record {
  number_cores = 1;
  max_priority = 7;
  claim_response = λ h. 0;
  irq_level = machine_mode;
  hart_eip = λ h. false;
  target_harts = λ h. idle;
  e_run = false;
  number_interrupts = 8;
  interrupt_priorities = λ i. if i == 5 then 1 else 3;
  pending_interrupts = λ w. 0b11101000;
  hart_enabled_interrupts = λ w. 0b11110000;
  priority_threshold = λ h. 2;
}

lowest_wins : hart_get_next_pending_interrupt board 0 true ≡ 6
unfolding hart_get_next_pending_interrupt choose is_candidate
lowest_wins = refl

next_pending-IsTop_example :
    (top : ℕ) × IsTop
      (Eligible board 0 true)
      board.interrupt_priorities
      8
      (hart_get_next_pending_interrupt board 0 true)
      top
next_pending-IsTop_example = next_pending-IsTop board 0 true (omega arith)

board-Told : Told board
board-Told = record { level = refl; told = λ hart. refl }

read-Claimed_example :
    (irq : ℕ) × (q : Plic) × (read_hart_config 4 board ≡ some (irq, q)) × Claimed board irq q
read-Claimed_example = read-Claimed board (omega arith) (omega arith)

-- The hart goes on with its handler.
abbrev handling : Iss → Iss
handling s = record s { pc = s.pc + 4 }

-- A round with two arrivals, of which one is claimed and completed.
abbrev round : List Event
round =
    arrival 4
    ∷ wake_up
    ∷ config_read 4
    ∷ enables_write (λ w. 0b11111000)
    ∷ hart_runs 0 handling
    ∷ arrival 5
    ∷ config_write 4 4
    ∷ wake_up
    ∷ config_write 0 1
    ∷ []

-- Another interrupt pends at the completion, so `meip` stays set.
abbrev meip_of : Option Plic → Bool
meip_of none = false
meip_of (some q) = meip (q.target_harts 0)

round-meip : meip_of (steps round board) ≡ true
unfolding steps step after_read read_hart_config gateway_trigger_interrupt pre_read_hart_config
    claim clear_pending_interrupt run signal_from signal hart_has_pending_enabled_interrupts
    hart_get_next_pending_interrupt choose is_candidate write_hart_config post_write_hart_config
    complete trigger_external_interrupt clear_external_interrupt external_interrupt set_bit
round-meip = refl

round-leaves : AllLeaveMeip round
round-leaves = (tt, (tt, (tt, (tt, (λ s. refl, (tt, (tt, (tt, (tt, tt)))))))))

steps-AllTold_example : AllTold (steps round board)
steps-AllTold_example = steps-AllTold round board round-leaves board-Told

four-Open : Open board 0 4
four-Open = (refl, omega arith, omega arith)

arrival-wake_example :
    (q : Plic) × (steps (arrival 4 ∷ wake_up ∷ []) board ≡ some q)
    × (meip (q.target_harts 0) ≡ true)
arrival-wake_example =
    arrival-wake board 4 0 board-Told (omega arith) (omega arith) (omega arith) four-Open
