-- ===== src/Plic/Choice.antt =====
-- The loop chooses the candidate of the highest priority, and among equals the lowest number.
use riscv_vp.Base.{
  ℕ, zero, suc, ◌+◌, ◌-◌, ◌/◌, ◌%◌, ◌^◌, ◌⊎◌, bit_iff, ◌≤◌, ◌<◌, ◌≡◌, ◌↔◌, inl, inr, refl, sym,
  subst, Bool, true, false, arith, Bool-cases,
}
use native.Mathlib.Nat.{add-zero}
use riscv_vp.Plic.Best.{IsBest, IsBest-step, IsTop, IsBest-IsTop}
use riscv_vp.Plic.{
  Plic, is_candidate, choose, hart_get_next_pending_interrupt, hart_has_pending_enabled_interrupts,
}

-- Interrupt `j` is enabled for the hart, pending, of a positive priority and, if the threshold is
-- considered, above it.
abbrev pub Eligible : Plic → ℕ → Bool → ℕ → Type 0
Eligible p hart ct j =
    (p.hart_enabled_interrupts (hart + j / 32) / 2 ^ (j % 32) % 2 ≡ 1)
    × (p.pending_interrupts (j / 32) / 2 ^ (j % 32) % 2 ≡ 1)
    × (0 < p.interrupt_priorities j)
    × ((ct ≡ false) ⊎ (p.priority_threshold hart < p.interrupt_priorities j))

pub candidate_iff :
    (p : Plic) (hart : ℕ) (ct : Bool) (j : ℕ)
    → (is_candidate p hart ct j ≡ true) ↔ Eligible p hart ct j
unfolding is_candidate
candidate_iff p hart ct j =
    let e = bit_iff (p.hart_enabled_interrupts (hart + j / 32)) (j % 32) in
    let w = bit_iff (p.pending_interrupts (j / 32)) (j % 32) in
    (
      λ h. (e.0 (ground arith), w.0 (ground arith), ground arith, ground arith),
      λ h. ground (arith, e.1 h.0, w.1 h.1, h.2, h.3),
    )

module _ (p : Plic) (hart : ℕ) (ct : Bool) where
  abbrev pub IsBestFor : ℕ → ℕ → ℕ → Type 0
  IsBestFor i m top = IsBest (is_candidate p hart ct) p.interrupt_priorities i m top

  choose-IsBest :
      (left i m top : ℕ)
      → 1 ≤ i
      → IsBestFor i m top
      → (t : ℕ) × IsBestFor (i + left) (choose p hart ct left i m top) t
  unfolding choose
  choose-IsBest zero i m top h b = (top, rw add-zero b)
  choose-IsBest (suc left) i m top h b =
      let e : i + suc left ≡ i + 1 + left = omega arith in
      rw e (
        choose-IsBest left (i + 1) _ _ (omega arith)
          (IsBest-step (is_candidate p hart ct) p.interrupt_priorities i m top h b))

pub next_pending-IsBest :
    (p : Plic) (hart : ℕ) (ct : Bool)
    → 1 ≤ p.number_interrupts
    → (top : ℕ) × IsBestFor p hart ct p.number_interrupts
        (hart_get_next_pending_interrupt p hart ct)
        top
unfolding hart_get_next_pending_interrupt
next_pending-IsBest p hart ct h =
    let e : p.number_interrupts ≡ 1 + (p.number_interrupts - 1) = omega arith in
    let nothing : IsBestFor p hart ct 1 0 0 = record {
      chosen = inl (refl, refl);
      highest = λ j l u c. absurd (omega arith);
      first = λ j l u c e. absurd (omega arith);
    } in
    let best = choose-IsBest p hart ct (p.number_interrupts - 1) 1 0 0 (omega arith) nothing in
    (
      best.0,
      subst (λ n. IsBestFor p hart ct n (choose p hart ct (p.number_interrupts - 1) 1 0 0) best.0)
          (sym e) best.1,
    )

candidate-pos :
    (p : Plic) (hart : ℕ) (ct : Bool) (i : ℕ)
    → is_candidate p hart ct i ≡ true
    → 0 < p.interrupt_priorities i
unfolding is_candidate
candidate-pos p hart ct i h = ground arith

best-zero_iff :
    (p : Plic) (hart : ℕ) (ct : Bool) (n m top : ℕ)
    → IsBestFor p hart ct n m top
    → (m ≡ 0) ↔ ((j : ℕ) → 1 ≤ j → j < n → is_candidate p hart ct j ≡ false)
best-zero_iff p hart ct n m top b = (
  λ e j l u. elim (Bool-cases (is_candidate p hart ct j)) [
    | inl t ↦ absurd (ground (arith, b.chosen, b.highest j l u t, candidate-pos p hart ct j t))
    | inr f ↦ f
  ],
  λ none_fits. ground (arith, b.chosen, none_fits m),
)

-- A hart has no pending enabled interrupt exactly when no interrupt is a candidate for it above its
-- threshold.
pub has_pending-false_iff :
    (p : Plic) (hart : ℕ)
    → 1 ≤ p.number_interrupts
    → (hart_has_pending_enabled_interrupts p hart ≡ false)
      ↔ ((j : ℕ) → 1 ≤ j → j < p.number_interrupts → is_candidate p hart true j ≡ false)
unfolding hart_has_pending_enabled_interrupts
has_pending-false_iff p hart h =
    let b = next_pending-IsBest p hart true h in
    let z = best-zero_iff p hart true p.number_interrupts _ b.0 b.1 in
    (λ e. z.0 (ground arith), λ f. ground (arith, z.1 f))

-- If `number_interrupts` is not 0, `hart_get_next_pending_interrupt` answers, of the interrupts from 1 to below `number_interrupts`
-- that are enabled for the hart, pending and of a positive priority (above the threshold, if that
-- is considered), the one of the highest priority, of equals the lowest number, and 0 if there is
-- none.
pub next_pending-IsTop :
    (p : Plic) (hart : ℕ) (ct : Bool)
    → 1 ≤ p.number_interrupts
    → (top : ℕ) × IsTop
        (Eligible p hart ct)
        p.interrupt_priorities
        p.number_interrupts
        (hart_get_next_pending_interrupt p hart ct)
        top
next_pending-IsTop p hart ct h =
    let b = next_pending-IsBest p hart ct h in
    (b.0, IsBest-IsTop _ _ _ _ _ _ (candidate_iff p hart ct) b.1)
