-- ===== src/Fu540.antt =====
-- The FU540 interrupt controller (`FU540_PLIC` of vp/src/platform/common/fu540_plic.cpp and
-- fu540_plic.h). A failed assertion and a thrown `invalid_argument` are `none`.
pub mod Choice
mod Tests
use riscv_vp.Base.{
  ℕ, zero, suc, ◌+◌, ◌-◌, ◌*◌, ◌/◌, ◌%◌, ◌^◌, Bool, true, false, ◌&&◌, ◌||◌, not, ltb, leb, ◌==◌,
  if◌then◌else◌, bit_or, bit_and, Option, none, some,
}
use mathlib.Core.Option
use riscv_vp.Iss.State.{Iss, machine_mode, supervisor_mode}
use riscv_vp.Iss.Interrupt.Trigger.{trigger_external_interrupt, clear_external_interrupt}
use riscv_vp.Clint.{set_hart}
use riscv_vp.Plic.{bit_at, set_at, all_but}

-- The registers, the harts that it targets, and whether `e_run` is notified. An array is a function
-- of the index. `enabled_irqs` and `hart_context` go by hart and level; of a context, word 0 is the
-- threshold and word 1 the claim.
pub record Fu540 : Type 0 where
  pub number_harts : ℕ
  pub interrupt_priorities : ℕ → ℕ
  pub pending_interrupts : ℕ → ℕ
  pub enabled_irqs : ℕ → ℕ → ℕ → ℕ
  pub hart_context : ℕ → ℕ → ℕ → ℕ
  pub target_harts : ℕ → Iss
  pub e_run : Bool

abbrev pub numirq : ℕ
numirq = 53

abbrev pub max_thr : ℕ
max_thr = 7

abbrev pub max_prio : ℕ
max_prio = 7

unfoldable pub gateway_trigger_interrupt : ℕ → Fu540 → Option Fu540
gateway_trigger_interrupt irq p =
    let idx = irq / 32 in
    let word = bit_or (p.pending_interrupts idx) (2 ^ (irq % 32)) in
    let triggered : Fu540 = record p {
      pending_interrupts = set_at p.pending_interrupts idx word;
      e_run = true;
    } in
    if (irq == 0) || ltb numirq irq then none else some triggered

-- The assertion on the interrupt holds wherever this is called, and so does that of `is_enabled`.
unfoldable pub is_pending : Fu540 → ℕ → Bool
is_pending p irq = bit_at p.pending_interrupts irq

-- The maps have an entry for the hart, and no `switch` over the level gets to its default.
abbrev pub serves : Fu540 → ℕ → ℕ → Bool
serves p hart level =
    ltb hart p.number_harts && ((level == machine_mode) || (level == supervisor_mode))

-- Hart 0 has one view for both levels.
abbrev pub view : ℕ → ℕ → ℕ
view hart level = if hart == 0 then machine_mode else level

unfoldable pub is_enabled : Fu540 → ℕ → ℕ → ℕ → Option Bool
is_enabled p hart level irq =
    if serves p hart level then some (bit_at (p.enabled_irqs hart (view hart level)) irq) else none

unfoldable pub clear_pending : ℕ → Fu540 → Option Fu540
clear_pending irq p =
    let idx = irq / 32 in
    let word = bit_and (p.pending_interrupts idx) (all_but (irq % 32)) in
    let cleared : Fu540 = record p { pending_interrupts = set_at p.pending_interrupts idx word } in
    if ltb 0 irq && leb irq numirq then some cleared else none

unfoldable pub get_threshold : Fu540 → ℕ → ℕ → Option ℕ
get_threshold p hart level =
    if (hart == 0) && (level == supervisor_mode)
    then none
    else if serves p hart level
    then some (p.hart_context hart level 0)
    else none

-- `selirq` and `maxpri`.
pub record Selected : Type 0 where
  pub selirq : ℕ
  pub maxpri : ℕ

-- The priority is not below the threshold, or that is ignored.
unfoldable pub passes : Fu540 → ℕ → ℕ → Bool → ℕ → Option Bool
passes p hart level ignth irq =
    let above : Option Bool =
      Option.map (λ t. not (ltb (p.interrupt_priorities irq) t)) (get_threshold p hart level) in
    if ignth then some true else above

unfoldable pub compare_best : Fu540 → ℕ → Selected → Option Bool → Option Selected
compare_best p irq s none = none
compare_best p irq s (some passing) =
    let prio = p.interrupt_priorities irq in
    let better = passing && ltb s.maxpri prio in
    some (record {
      selirq = if better then irq else s.selirq;
      maxpri = if better then prio else s.maxpri;
    })

unfoldable pub unless_skipped : Option Bool → Bool → Selected → Option Selected → Option Selected
unless_skipped none pending s next = none
unless_skipped (some enabled) pending s next = if not enabled || not pending then some s else next

-- The body of the loop, which asserts that the index of the array of 53 priorities is below 53.
unfoldable pub consider : Fu540 → ℕ → ℕ → Bool → ℕ → Selected → Option Selected
consider p hart level ignth irq s =
    let next = compare_best p irq s (passes p hart level ignth irq) in
    unless_skipped (is_enabled p hart level irq) (is_pending p irq) s
      (if ltb irq numirq then next else none)

unfoldable pub and_then : (Selected → Option ℕ) → Option Selected → Option ℕ
and_then f none = none
and_then f (some s) = f s

module _ (p : Fu540) (hart level : ℕ) (ignth : Bool) where
  -- The loop at `irq`, with `left` rounds to go.
  unfoldable pub select : ℕ → ℕ → Selected → Option ℕ
  select zero irq s = some s.selirq
  select (suc left) irq s = and_then (select left (irq + 1)) (consider p hart level ignth irq s)

unfoldable pub next_pending_irq : Fu540 → ℕ → ℕ → Bool → Option ℕ
next_pending_irq p hart level ignth =
    if (hart == 0) && (level == supervisor_mode)
    then none
    else select p hart level ignth numirq 1 (record { selirq = 0; maxpri = 0 })

-- The level of the interrupt, if there is one; the last two tests of `has_pending_irq`.
unfoldable pub machine_pending : Option ℕ → Option (Option ℕ)
machine_pending none = none
machine_pending (some irq) = some (if ltb 0 irq then some machine_mode else none)

unfoldable pub supervisor_pending : Option (Option ℕ) → Option ℕ → Option (Option ℕ)
supervisor_pending machine none = none
supervisor_pending machine (some irq) = if ltb 0 irq then some (some supervisor_mode) else machine

unfoldable pub has_pending_irq : Fu540 → ℕ → Option (Option ℕ)
has_pending_irq p hart =
    let machine = machine_pending (next_pending_irq p hart machine_mode false) in
    if hart == 0
    then machine
    else supervisor_pending machine (next_pending_irq p hart supervisor_mode false)

-- The body of the loop over the harts.
unfoldable pub notify_hart : ℕ → Fu540 → Option (Option ℕ) → Option Fu540
notify_hart i p none = none
notify_hart i p (some none) = some p
notify_hart i p (some (some level)) = some (record p {
  target_harts = set_hart p.target_harts i (trigger_external_interrupt level (p.target_harts i));
})

unfoldable pub then_notify : (Fu540 → Option Fu540) → Option Fu540 → Option Fu540
then_notify f none = none
then_notify f (some p) = f p

-- The loop from hart `i` on, with `left` rounds to go.
unfoldable pub notify_from : ℕ → ℕ → Fu540 → Option Fu540
notify_from zero i p = some p
notify_from (suc left) i p =
    then_notify (notify_from left (suc i)) (notify_hart i p (has_pending_irq p i))

-- What `run` does when `e_run` has woken it.
unfoldable pub run : Fu540 → Option Fu540
run p = notify_from p.number_harts 0 (record p { e_run = false })

unfoldable pub is_claim_access : ℕ → Bool
is_claim_access addr = addr / 4 % 2 == 1

abbrev pub set_context : ℕ → ℕ → ℕ → ℕ → Fu540 → Fu540
set_context hart level word value p = record p {
  hart_context =
      λ h l w. if (h == hart) && ((l == level) && (w == word)) then value else p.hart_context h l w;
}

unfoldable pub claim_irq : ℕ → ℕ → Fu540 → Option ℕ → Option Fu540
claim_irq hart level p none = none
claim_irq hart level p (some irq) =
    let claimed : Fu540 = set_context hart level 1 irq p in
    if irq == 0 then some claimed else clear_pending irq claimed

-- The address and the size of the access.
unfoldable pub read_hartctx : ℕ → ℕ → ℕ → ℕ → Fu540 → Option Fu540
read_hartctx addr size hart level p =
    if not ((addr % 4 == 0) && (size == 4))
    then none
    else if is_claim_access addr
    then claim_irq hart level p (next_pending_irq p hart level true)
    else some p

unfoldable pub write_hartctx : ℕ → ℕ → ℕ → ℕ → Fu540 → Option Fu540
write_hartctx addr size hart level p =
    let thr = p.hart_context hart (view hart level) 0 in
    let completed : Fu540 = record p {
      target_harts =
          set_hart p.target_harts hart (clear_external_interrupt level (p.target_harts hart));
    } in
    let capped : Fu540 = set_context hart level 0 (if ltb max_thr thr then max_thr else thr) p in
    if not ((addr % 4 == 0) && ((size == 4) && ltb hart p.number_harts))
    then none
    else if is_claim_access addr
    then some completed
    else if serves p hart level
    then some capped
    else none

unfoldable pub write_irq_prios : ℕ → Fu540 → Option Fu540
write_irq_prios addr p =
    let idx = addr / 4 in
    let elem = p.interrupt_priorities idx in
    let capped : Fu540 = record p {
      interrupt_priorities =
          set_at p.interrupt_priorities idx (if ltb max_prio elem then max_prio else elem);
    } in
    if ltb idx numirq then some capped else none
