-- ===== src/Iss/Interrupt/Trigger.antt =====
-- How devices set the pending interrupts of a hart (`trigger_external_interrupt`,
-- `clear_external_interrupt`, `trigger_timer_interrupt`, `trigger_software_interrupt` of
-- vp/src/core/rv32/iss.cpp). They also notify the event for which `WFI` waits.
use riscv_vp.Base.{
  ℕ, ◌+◌, ◌*◌, ◌/◌, ◌%◌, ◌^◌, ◌≡◌, refl, Bool, true, false, ◌==◌, if◌then◌else◌, arith,
}
use riscv_vp.Iss.State.{Iss, machine_mode, supervisor_mode, user_mode}
use riscv_vp.Iss.Alu.{flag}

-- A field of one bit of `csr_mip`.
unfoldable pub set_bit : ℕ → Bool → ℕ → ℕ
set_bit place b reg = reg / 2 ^ (place + 1) * 2 ^ (place + 1) + flag b * 2 ^ place + reg % 2 ^ place

-- The place of `ueip`, `seip` and `meip`.
unfoldable pub external_interrupt : ℕ → Bool → Iss → Iss
external_interrupt level b s =
    if level == user_mode
    then record s { mip = set_bit 8 b s.mip }
    else if level == supervisor_mode
    then record s { mip = set_bit 9 b s.mip }
    else if level == machine_mode
    then record s { mip = set_bit 11 b s.mip }
    else s

unfoldable pub trigger_external_interrupt : ℕ → Iss → Iss
trigger_external_interrupt level s = external_interrupt level true s

unfoldable pub clear_external_interrupt : ℕ → Iss → Iss
clear_external_interrupt level s = external_interrupt level false s

unfoldable pub trigger_timer_interrupt : Bool → Iss → Iss
trigger_timer_interrupt status s = record s { mip = set_bit 7 status s.mip }

unfoldable pub trigger_software_interrupt : Bool → Iss → Iss
trigger_software_interrupt status s = record s { mip = set_bit 3 status s.mip }

flag_bound : (b : Bool) → flag b ≡ flag b % 2
flag_bound true = refl
flag_bound false = refl

mip-triggered :
    (m a b : ℕ)
    → a ≡ a % 2
    → b ≡ b % 2
    → let t = m / 2 ^ 8 * 2 ^ 8 + a * 2 ^ 7 + m % 2 ^ 7 in
      let u = t / 2 ^ 4 * 2 ^ 4 + b * 2 ^ 3 + t % 2 ^ 3 in
      (u / 2 ^ 3 % 2 ≡ b)
      × (u / 2 ^ 7 % 2 ≡ a)
      × (u % 2 ^ 3 ≡ m % 2 ^ 3)
      × (u / 2 ^ 4 % 2 ^ 3 ≡ m / 2 ^ 4 % 2 ^ 3)
      × (u / 2 ^ 8 ≡ m / 2 ^ 8)
mip-triggered m a b h k = (omega arith, omega arith, omega arith, omega arith, omega arith)

-- The timer and the software interrupt of a hart have a bit of their own in `mip`, which says what
-- was written last, and the other bits stay.
pub triggers-mip :
    (timer software : Bool) (s : Iss)
    → let t = (trigger_software_interrupt software (trigger_timer_interrupt timer s)).mip in
      (t / 2 ^ 3 % 2 ≡ flag software)
      × (t / 2 ^ 7 % 2 ≡ flag timer)
      × (t % 2 ^ 3 ≡ s.mip % 2 ^ 3)
      × (t / 2 ^ 4 % 2 ^ 3 ≡ s.mip / 2 ^ 4 % 2 ^ 3)
      × (t / 2 ^ 8 ≡ s.mip / 2 ^ 8)
unfolding trigger_software_interrupt trigger_timer_interrupt set_bit
triggers-mip timer software s =
    mip-triggered s.mip (flag timer) (flag software) (flag_bound timer) (flag_bound software)
