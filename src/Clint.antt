-- ===== src/Clint.antt =====
-- The core local interrupt controller (`CLINT` of vp/src/core/common/clint.h).
pub mod Timer
pub mod Tests
use riscv_vp.Base.{
  ℕ, zero, suc, ◌+◌, ◌-◌, ◌*◌, ◌/◌, ◌%◌, ◌^◌, Bool, ◌&&◌, not, ltb, leb, ◌==◌, if◌then◌else◌,
  bit_and, List, ◌∷◌,
}
use riscv_vp.Iss.State.{Iss}
use riscv_vp.Iss.Interrupt.Trigger.{trigger_timer_interrupt, trigger_software_interrupt}

-- The registers, the harts that it targets, and the calls of `irq_event.notify`, by their delays,
-- the last one first.
pub record Clint : Type 0 where
  pub mtime : ℕ
  pub mtimecmp : ℕ → ℕ
  pub msip : ℕ → ℕ
  pub target_harts : ℕ → Iss
  pub notified : List ℕ

-- From the resolution of SystemC to microseconds.
abbrev pub scaler : ℕ
scaler = 1000000

-- `now` is `sc_time_stamp().value()`.
unfoldable pub update_and_get_mtime : ℕ → Clint → Clint
update_and_get_mtime now c =
    let t = now / scaler in record c { mtime = if ltb c.mtime t then t else c.mtime }

-- The timer interrupt of hart `i` is due.
unfoldable pub is_due : Clint → ℕ → Bool
is_due c i = ltb 0 (c.mtimecmp i) && leb (c.mtimecmp i) c.mtime

abbrev pub set_hart : (ℕ → Iss) → ℕ → Iss → ℕ → Iss
set_hart harts i s = λ j. if j == i then s else harts j

-- `sc_time::from_value`, of a product of two `uint64_t`.
abbrev pub from_value : ℕ → ℕ
from_value t = t * scaler % 2 ^ 64

-- `goal - time`, of times of 64 bits.
abbrev pub delay : Clint → ℕ → ℕ
delay c i = (from_value (c.mtimecmp i) + (2 ^ 64 - from_value c.mtime)) % 2 ^ 64

-- The body of the loop over the harts.
unfoldable pub poll : ℕ → Clint → Clint
poll i c =
    let due = is_due c i in
    let waits = not due && (ltb 0 (c.mtimecmp i) && ltb (c.mtimecmp i) (2 ^ 64 - 1)) in
    record c {
      target_harts = set_hart c.target_harts i (trigger_timer_interrupt due (c.target_harts i));
      notified = if waits then delay c i ∷ c.notified else c.notified;
    }

-- The loop from hart `i` on, with `left` rounds to go.
unfoldable pub poll_from : ℕ → ℕ → Clint → Clint
poll_from zero i c = c
poll_from (suc left) i c = poll_from left (suc i) (poll i c)

-- What `run` does when `irq_event` has woken it, at the time `now`.
unfoldable pub wake : ℕ → ℕ → Clint → Clint
wake number_of_cores now c = poll_from number_of_cores 0 (update_and_get_mtime now c)

-- `pre_read_mtime`, at a time that includes the delay of the access.
unfoldable pub pre_read_mtime : ℕ → Clint → Clint
pre_read_mtime now c = record c { mtime = now / scaler }

unfoldable pub post_write_mtimecmp : ℕ → Clint → Clint
post_write_mtimecmp access_delay c = record c { notified = access_delay ∷ c.notified }

-- The assertion on the address is the bus's alignment check.
unfoldable pub post_write_msip : ℕ → Clint → Clint
post_write_msip addr c =
    let idx = addr / 4 in
    let written = bit_and (c.msip idx) 1 in
    record c {
      msip = λ j. if j == idx then written else c.msip j;
      target_harts =
          set_hart c.target_harts idx
            (trigger_software_interrupt (not (written == 0)) (c.target_harts idx));
    }
