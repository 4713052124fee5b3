-- ===== src/Plic/Claim.antt =====
-- Arrival, claim and completion at the FE310 interrupt controller
-- (vp/src/platform/common/fe310_plic.h).
use riscv_vp.Base.{
  ℕ, ◌↔◌, ◌*◌, leb, ◌+◌, ◌/◌, ◌%◌, ◌^◌, ◌≤◌, ◌<◌, ◌≡◌, refl, Bool, true, false, ◌&&◌, not, ltb,
  ◌==◌, bit_and, bit_or, ◌≢◌, some, arith,
}
use riscv_vp.Plic.{
  Plic, bit_at, is_candidate, hart_get_next_pending_interrupt, gateway_trigger_interrupt,
  clear_pending_interrupt, claim, pre_read_hart_config, read_hart_config, set_at, all_but,
}
use riscv_vp.Plic.Best.{IsTop}
use riscv_vp.Plic.Choice.{
  IsBestFor, next_pending-IsBest, Eligible, candidate_iff, next_pending-IsTop,
}
use riscv_vp.Plic.Bits.{bit_at-or, bit_at-all_but}

-- `irq` is claimed from `p`: it is the best of the interrupts that are enabled for hart 0 and pending, the
-- threshold aside, or 0 if there is none, and after that just all those but it may be taken.
pub record Claimed (p : Plic) (irq : ℕ) (q : Plic) : Type 0 where
  pub top : ℕ
  pub best : IsTop (Eligible p 0 false) p.interrupt_priorities p.number_interrupts irq top
  pub others : (hart j : ℕ) (ct : Bool) → Eligible q hart ct j ↔ (Eligible p hart ct j × (j ≢ irq))

best_below :
    (p : Plic) (m top : ℕ)
    → 1 ≤ p.number_interrupts
    → IsBestFor p 0 false p.number_interrupts m top
    → m < p.number_interrupts
best_below p m top h b = ground (arith, b.chosen)

cleared-others :
    (p : Plic) (r : ℕ → ℕ) (irq hart j : ℕ) (ct : Bool)
    → let w =
        set_at p.pending_interrupts
          (irq / 32)
          (bit_and (p.pending_interrupts (irq / 32)) (all_but (irq % 32))) in
      is_candidate (record p { claim_response = r; pending_interrupts = w }) hart ct j
      ≡ (is_candidate p hart ct j && not (j == irq))
unfolding is_candidate
cleared-others p r irq hart j ct = rw (bit_at-all_but p.pending_interrupts irq j) (ground arith)

others_iff :
    (p q : Plic) (irq hart j : ℕ) (ct : Bool)
    → is_candidate q hart ct j ≡ (is_candidate p hart ct j && not (j == irq))
    → Eligible q hart ct j ↔ (Eligible p hart ct j × (j ≢ irq))
others_iff p q irq hart j ct e =
    let a = candidate_iff p hart ct j in
    let b = candidate_iff q hart ct j in
    (
      λ h. let c = b.1 h in (a.0 (ground arith), ground arith),
      λ h. let c = a.1 h.0 in b.0 (ground (arith, h.1)),
    )

-- In a controller with a hart and an interrupt, a read of the claim register of hart 0 succeeds; it
-- gives the interrupt that is claimed, which is, of those enabled for hart 0, pending and of a positive priority, the one of
-- the highest priority, of equals the lowest number, or 0 if there is none; and for every hart just
-- that one may be taken no more.
pub read-Claimed :
    (p : Plic)
    → 1 ≤ p.number_cores
    → 1 ≤ p.number_interrupts
    → (irq : ℕ) × (q : Plic) × (read_hart_config 4 p ≡ some (irq, q)) × Claimed p irq q
unfolding read_hart_config pre_read_hart_config claim clear_pending_interrupt
read-Claimed p c n =
    let irq = hart_get_next_pending_interrupt p 0 false in
    let b = next_pending-IsBest p 0 false n in
    let l : ltb irq p.number_interrupts ≡ true = ground (arith, best_below p irq b.0 n b.1) in
    let k : ltb 0 p.number_cores ≡ true = ground arith in
    let i : leb 8 (8 * p.number_cores) ≡ true = ground arith in
    let q : Plic = record p {
      claim_response = set_at p.claim_response 0 irq;
      pending_interrupts =
          set_at p.pending_interrupts (irq / 32)
            (bit_and (p.pending_interrupts (irq / 32)) (all_but (irq % 32)));
    } in
    let rest : (hart j : ℕ) (ct : Bool)
        → is_candidate q hart ct j ≡ (is_candidate p hart ct j && not (j == irq)) =
      λ hart j ct. cleared-others p _ irq hart j ct in
    let claimed : Claimed p irq q = record {
      top = (next_pending-IsTop p 0 false n).0;
      best = (next_pending-IsTop p 0 false n).1;
      others = λ hart j ct. others_iff p q irq hart j ct (rest hart j ct);
    } in
    (irq, q, rw (i, k, l) refl, claimed)

-- The interrupt is enabled for the hart, and of a positive priority above its threshold.
abbrev pub Open : Plic → ℕ → ℕ → Type 0
Open p hart irq =
    (bit_at (λ w. p.hart_enabled_interrupts (hart + w)) irq ≡ true)
    × (0 < p.interrupt_priorities irq)
    × (p.priority_threshold hart < p.interrupt_priorities irq)

-- What an arrival leaves.
pub record Arrived (p : Plic) (irq : ℕ) (q : Plic) : Type 0 where
  pub waits : q.e_run ≡ true
  pub fits : (hart : ℕ) → Open p hart irq → is_candidate q hart true irq ≡ true
  pub others :
      (hart j : ℕ) (ct : Bool) → j ≢ irq → is_candidate q hart ct j ≡ is_candidate p hart ct j
  pub number_interrupts : q.number_interrupts ≡ p.number_interrupts
  pub number_cores : q.number_cores ≡ p.number_cores

pub gateway_trigger_interrupt-Arrived :
    (p : Plic) (irq : ℕ)
    → 0 < irq
    → irq < p.number_interrupts
    → (q : Plic) × (gateway_trigger_interrupt irq p ≡ some q) × Arrived p irq q
unfolding gateway_trigger_interrupt is_candidate
gateway_trigger_interrupt-Arrived p irq h l =
    let e : (ltb 0 irq && ltb irq p.number_interrupts) ≡ true = ground arith in
    let words =
      set_at p.pending_interrupts (irq / 32)
        (bit_or (p.pending_interrupts (irq / 32)) (2 ^ (irq % 32))) in
    let q : Plic = record p { pending_interrupts = words; e_run = true } in
    let arrived : Arrived p irq q = record {
      waits = refl;
      fits = λ hart o. rw (bit_at-or p.pending_interrupts irq irq) (ground (arith, o.0, o.1, o.2));
      others = λ hart j ct n. rw (bit_at-or p.pending_interrupts irq j) (ground arith);
      number_interrupts = refl;
      number_cores = refl;
    } in
    (q, rw e refl, arrived)
