-- ===== src/Fu540/Choice.antt =====
-- Which interrupt the FU540 interrupt controller chooses, and when it fails
-- (`next_pending_irq` of vp/src/platform/common/fu540_plic.cpp).
use riscv_vp.Base.{
  ◌/◌, ◌%◌, ◌^◌, ◌<◌, ◌≢◌, ◌⊎◌, ℕ, ◌+◌, ◌≤◌, ◌≡◌, Bool, true, false, ◌&&◌, ◌||◌, not, ltb,
  if◌then◌else◌, Option, none, some,
}
use riscv_vp.Iss.State.{machine_mode, supervisor_mode}
use riscv_vp.Plic.{bit_at}
use riscv_vp.Plic.Best.{IsBest, IsTop}
use riscv_vp.Fu540.{Fu540, is_pending, Selected, numirq, compare_best}

-- The controller has registers for the hart at the level.
abbrev pub Served : Fu540 → ℕ → ℕ → Type 0
Served p hart level =
    (hart < p.number_harts) × ((level ≡ machine_mode) ⊎ ((level ≡ supervisor_mode) × (hart ≢ 0)))

module _ (p : Fu540) (hart level : ℕ) (ignth : Bool) where
  abbrev enabled : ℕ → Bool
  enabled irq = bit_at (p.enabled_irqs hart level) irq

  abbrev passing : ℕ → Bool
  passing irq = ignth || not (ltb (p.interrupt_priorities irq) (p.hart_context hart level 0))

  -- An interrupt that may be chosen.
  abbrev is_eligible : ℕ → Bool
  is_eligible irq =
      (enabled irq && is_pending p irq) && (passing irq && ltb 0 (p.interrupt_priorities irq))

  -- Interrupt 53 is enabled and pending.
  abbrev last_waits : Bool
  last_waits = enabled numirq && is_pending p numirq

  -- The interrupt is enabled, pending, of a positive priority and, if the threshold counts, of one
  -- that is not below it.
  abbrev pub Eligible : ℕ → Type 0
  Eligible irq =
      (p.enabled_irqs hart level (irq / 32) / 2 ^ (irq % 32) % 2 ≡ 1)
      × (p.pending_interrupts (irq / 32) / 2 ^ (irq % 32) % 2 ≡ 1)
      × (0 < p.interrupt_priorities irq)
      × ((ignth ≡ true) ⊎ (p.hart_context hart level 0 ≤ p.interrupt_priorities irq))

  abbrev pub LastWaits : Type 0
  LastWaits =
      (p.enabled_irqs hart level (53 / 32) / 2 ^ (53 % 32) % 2 ≡ 1)
      × (p.pending_interrupts (53 / 32) / 2 ^ (53 % 32) % 2 ≡ 1)

  -- The answer: the best interrupt, or a failure.
  abbrev pub Outcome : Option ℕ → Type 0
  Outcome none = (¬ Served p hart level) ⊎ LastWaits
  Outcome (some irq) =
      Served p hart level
      × (¬ LastWaits)
      × (top : ℕ) × IsTop Eligible p.interrupt_priorities 54 irq top

  -- The answer of the loop: the best candidate, or a failure over interrupt 53.
  abbrev Chosen : Option ℕ → Type 0
  Chosen none = last_waits ≡ true
  Chosen (some irq) =
      (last_waits ≡ false)
      × (top : ℕ) × IsBest is_eligible p.interrupt_priorities (numirq + 1) irq top

  abbrev Best : ℕ → Selected → Type 0
  Best i s = IsBest is_eligible p.interrupt_priorities i s.selirq s.maxpri

  -- A round succeeds below 53, and keeps the best.
  abbrev Round : ℕ → Option Selected → Type 0
  Round i none = (i ≡ numirq) × (last_waits ≡ true)
  Round i (some t) = Best (i + 1) t × ((i ≡ numirq) → last_waits ≡ false)

  -- A round for a hart and a level that are served.
  abbrev weigh : ℕ → Selected → Option Selected
  weigh i s =
      if not (enabled i) || not (is_pending p i)
      then some s
      else if ltb i numirq
      then compare_best p i s (some (passing i))
      else none
