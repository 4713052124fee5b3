-- ===== src/Plic.antt =====
-- The FE310 interrupt controller (`FE310_PLIC` of vp/src/platform/common/fe310_plic.h). An index
-- that an assertion refuses, or that lies outside of an array, is `none`.
pub mod Best
pub mod Choice
pub mod Bits
pub mod Claim
pub mod Signal
mod Tests
use riscv_vp.Base.{
  ℕ, zero, suc, ◌+◌, ◌-◌, ◌*◌, ◌/◌, ◌%◌, ◌^◌, Bool, true, false, ◌&&◌, ◌||◌, not, ltb, leb, ◌==◌,
  if◌then◌else◌, bit_and, bit_or, Option, none, some,
}
use mathlib.Core.Option
use riscv_vp.Iss.State.{Iss}
use riscv_vp.Iss.Interrupt.Trigger.{trigger_external_interrupt, clear_external_interrupt}
use riscv_vp.Clint.{set_hart}

-- The template parameters, the registers, the harts that it targets, and whether `e_run` is
-- notified. An array is a function of the index; `hart_enabled_interrupts` is the flat array, whose
-- rows overlap, since `ArrayView` is used with its default row size of 1.
pub record Plic : Type 0 where
  pub number_cores : ℕ
  pub number_interrupts : ℕ
  pub max_priority : ℕ
  pub interrupt_priorities : ℕ → ℕ
  pub pending_interrupts : ℕ → ℕ
  pub hart_enabled_interrupts : ℕ → ℕ
  pub priority_threshold : ℕ → ℕ
  pub claim_response : ℕ → ℕ
  pub irq_level : ℕ
  pub hart_eip : ℕ → Bool
  pub target_harts : ℕ → Iss
  pub e_run : Bool

-- Bit `i` of an array of 32-bit words.
abbrev pub bit_at : (ℕ → ℕ) → ℕ → Bool
bit_at words i = not (bit_and (words (i / 32)) (2 ^ (i % 32)) == 0)

-- The conditions of the loop, but for the comparison with the best priority so far.
unfoldable pub is_candidate : Plic → ℕ → Bool → ℕ → Bool
is_candidate p hart consider_threshold i =
    let prio = p.interrupt_priorities i in
    bit_at (λ w. p.hart_enabled_interrupts (hart + w)) i
    && (bit_at p.pending_interrupts i
        && (ltb 0 prio && (not consider_threshold || ltb (p.priority_threshold hart) prio)))

module _ (p : Plic) (hart : ℕ) (consider_threshold : Bool) where
  -- The loop at `i`, with `left` rounds to go.
  unfoldable pub choose : ℕ → ℕ → ℕ → ℕ → ℕ
  choose zero i min_id max_priority = min_id
  choose (suc left) i min_id max_priority =
      let prio = p.interrupt_priorities i in
      let better = is_candidate p hart consider_threshold i && ltb max_priority prio in
      choose left (i + 1) (if better then i else min_id) (if better then prio else max_priority)

unfoldable pub hart_get_next_pending_interrupt : Plic → ℕ → Bool → ℕ
hart_get_next_pending_interrupt p hart consider_threshold =
    choose p hart consider_threshold (p.number_interrupts - 1) 1 0 0

unfoldable pub hart_has_pending_enabled_interrupts : Plic → ℕ → Bool
hart_has_pending_enabled_interrupts p hart = ltb 0 (hart_get_next_pending_interrupt p hart true)

abbrev pub set_at : {A : Type 0} → (ℕ → A) → ℕ → A → ℕ → A
set_at f i x = λ j. if j == i then x else f j

unfoldable pub gateway_trigger_interrupt : ℕ → Plic → Option Plic
gateway_trigger_interrupt irq_id p =
    let idx = irq_id / 32 in
    let word = bit_or (p.pending_interrupts idx) (2 ^ (irq_id % 32)) in
    let triggered : Plic = record p {
      pending_interrupts = set_at p.pending_interrupts idx word;
      e_run = true;
    } in
    if ltb 0 irq_id && ltb irq_id p.number_interrupts then some triggered else none

-- `~(1 << off)`
abbrev pub all_but : ℕ → ℕ
all_but off = 2 ^ 32 - 1 - 2 ^ off

unfoldable pub clear_pending_interrupt : ℕ → Plic → Option Plic
clear_pending_interrupt irq_id p =
    let idx = irq_id / 32 in
    let word = bit_and (p.pending_interrupts idx) (all_but (irq_id % 32)) in
    let cleared : Plic = record p { pending_interrupts = set_at p.pending_interrupts idx word } in
    if ltb irq_id p.number_interrupts then some cleared else none

-- The end of an `ArrayView` is the place of its last element, so the loop leaves that one out.
unfoldable pub post_write_interrupt_priorities : Plic → Plic
post_write_interrupt_priorities p =
    let capped : ℕ → ℕ = λ x. if ltb p.max_priority x then p.max_priority else x in
    record p {
      interrupt_priorities = λ i.
          let x = p.interrupt_priorities i in if ltb i p.number_interrupts then capped x else x;
    }

-- A claim through the registers of `hart_config[idx]`: whichever it is, hart 0 claims.
unfoldable pub claim : ℕ → Plic → Option Plic
claim idx p =
    let min_id = hart_get_next_pending_interrupt p 0 false in
    let answered : Plic = record p { claim_response = set_at p.claim_response idx min_id } in
    if ltb idx p.number_cores then clear_pending_interrupt min_id answered else none

-- The local address and the size of the access. For the registers of hart n, `idx` is 2 * n.
unfoldable pub pre_read_hart_config : ℕ → ℕ → Plic → Option Plic
pre_read_hart_config addr size p =
    if not (addr % 4 == 0)
    then none
    else if not (addr / 4 % 2 == 1)
    then some p
    else if size == 4
    then claim (addr / 4 - 1) p
    else none

-- The bound that a `RegisterRange` asserts, for a word of `regs_hart_config`.
abbrev pub in_hart_config : ℕ → Plic → Bool
in_hart_config addr p = leb (addr + 4) (8 * p.number_cores)

-- The word of `regs_hart_config` at an address.
abbrev pub hart_config_word : ℕ → Plic → ℕ
hart_config_word addr p =
    if addr / 4 % 2 == 1 then p.claim_response (addr / 8) else p.priority_threshold (addr / 8)

-- `RegisterRange::read` of a word of `regs_hart_config`.
unfoldable pub read_hart_config : ℕ → Plic → Option (ℕ × Plic)
read_hart_config addr p =
    let read : Option (ℕ × Plic) =
      Option.map (λ q. (hart_config_word addr q, q)) (pre_read_hart_config addr 4 p) in
    if in_hart_config addr p then read else none

unfoldable pub complete : ℕ → Plic → Option Plic
complete idx p =
    let h = p.target_harts idx in
    let again : Plic = record p {
      target_harts = set_hart p.target_harts idx (trigger_external_interrupt p.irq_level h);
    } in
    let done : Plic = record p {
      hart_eip = set_at p.hart_eip idx false;
      target_harts = set_hart p.target_harts idx (clear_external_interrupt p.irq_level h);
    } in
    if not (ltb idx p.number_cores)
    then none
    else if not (hart_has_pending_enabled_interrupts p idx)
    then some done
    else if p.hart_eip idx
    then some again
    else none

unfoldable pub post_write_hart_config : ℕ → ℕ → Plic → Option Plic
post_write_hart_config addr size p =
    if not (addr % 4 == 0)
    then none
    else if not (addr / 4 % 2 == 1)
    then some p
    else if size == 4
    then complete (addr / 4 - 1) p
    else none

-- `RegisterRange::write` of a word to `regs_hart_config`.
unfoldable pub write_hart_config : ℕ → ℕ → Plic → Option Plic
write_hart_config addr value p =
    let i = addr / 8 in
    let written : Plic =
      if addr / 4 % 2 == 1
      then record p { claim_response = set_at p.claim_response i value }
      else record p { priority_threshold = set_at p.priority_threshold i value } in
    if in_hart_config addr p then post_write_hart_config addr 4 written else none

-- The body of the loop over the harts.
unfoldable pub signal : ℕ → Plic → Plic
signal i p =
    let signalled : Plic = record p {
      hart_eip = set_at p.hart_eip i true;
      target_harts =
          set_hart p.target_harts i (trigger_external_interrupt p.irq_level (p.target_harts i));
    } in
    if not (p.hart_eip i) && hart_has_pending_enabled_interrupts p i then signalled else p

-- The loop from hart `i` on, with `left` rounds to go.
unfoldable pub signal_from : ℕ → ℕ → Plic → Plic
signal_from zero i p = p
signal_from (suc left) i p = signal_from left (suc i) (signal i p)

-- What `run` does when `e_run` has woken it.
unfoldable pub run : Plic → Plic
run p = signal_from p.number_cores 0 (record p { e_run = false })
