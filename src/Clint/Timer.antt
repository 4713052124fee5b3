-- ===== src/Clint/Timer.antt =====
-- Which harts have a timer interrupt after the controller was woken, and when it is woken again
-- (`CLINT::run` of vp/src/core/common/clint.h).
use riscv_vp.Base.{
  ℕ, zero, suc, ◌+◌, ◌-◌, ◌*◌, ◌/◌, ◌%◌, ◌^◌, ◌<◌, ◌≤◌, ◌↔◌, ◌⊎◌, ◌≡◌, refl, sym, ap, subst, ◌∙◌,
  Bool, true, false, ltb, leb, ◌==◌, Bool-cases, ==_iff, inl, inr, if◌then◌else◌, List, ◌∷◌, arith,
}
use mathlib.Core.List.{Memᴰ}
use riscv_vp.Iss.State.{Iss}
use riscv_vp.Iss.Interrupt.Trigger.{set_bit, trigger_timer_interrupt}
use riscv_vp.Clint.{Clint, scaler, update_and_get_mtime, is_due, delay, poll, poll_from, wake}

-- The loop leaves the registers, so whether a hart is due does not change.
poll_from-registers :
    (left i : ℕ) (c : Clint)
    → ((poll_from left i c).mtime ≡ c.mtime) × ((poll_from left i c).mtimecmp ≡ c.mtimecmp)
unfolding poll_from poll
poll_from-registers zero i c = (refl, refl)
poll_from-registers (suc left) i c = poll_from-registers left (suc i) (poll i c)

before : (left i j : ℕ) (c : Clint) → j < i → (poll_from left i c).target_harts j ≡ c.target_harts j
unfolding poll_from poll
before zero i j c h = refl
before (suc left) i j c h =
    before left (suc i) j (poll i c) (omega arith)
    ∙ let e : (j == i) ≡ false = ground arith in rw e refl

reached :
    (left i j : ℕ) (c : Clint)
    → i ≤ j
    → j < i + left
    → (poll_from left i c).target_harts j ≡ trigger_timer_interrupt (is_due c j) (c.target_harts j)
unfolding poll_from poll is_due
reached zero i j c h k = absurd (omega arith)
reached (suc left) i j c h k = elim (Bool-cases (j == i)) [
  | inl e ↦
      let p : j ≡ i = (==_iff j i).0 e in
      before left (suc i) j (poll i c) (omega arith) ∙ rw (e, p) refl
  | inr e ↦ reached left (suc i) j (poll i c) (ground arith) (omega arith) ∙ rw e refl
]

beyond :
    (left i j : ℕ) (c : Clint)
    → i + left ≤ j
    → (poll_from left i c).target_harts j ≡ c.target_harts j
unfolding poll_from poll
beyond zero i j c h = refl
beyond (suc left) i j c h =
    beyond left (suc i) j (poll i c) (omega arith)
    ∙ let e : (j == i) ≡ false = ground arith in rw e refl

wake-target_harts :
    (number_of_cores now : ℕ) (c : Clint) (j : ℕ)
    → (wake number_of_cores now c).target_harts j ≡ (
        if ltb j number_of_cores
        then trigger_timer_interrupt (is_due (update_and_get_mtime now c) j) (c.target_harts j)
        else c.target_harts j)
unfolding wake update_and_get_mtime
wake-target_harts n now c j = elim (Bool-cases (ltb j n)) [
  | inl e ↦ rw e (reached n 0 j _ (omega arith) (ground arith))
  | inr e ↦ rw e (beyond n 0 j _ (ground arith))
]

-- The comparator of hart `j` is not 0 and not above the timer, as updated to the time in
-- microseconds, which never sets it back.
abbrev pub Expired : ℕ → Clint → ℕ → Type 0
Expired now c j = (0 < c.mtimecmp j) × ((c.mtimecmp j ≤ c.mtime) ⊎ (c.mtimecmp j ≤ now / 1000000))

due_iff :
    (now : ℕ) (c : Clint) (j : ℕ) → (is_due (update_and_get_mtime now c) j ≡ true) ↔ Expired now c j
unfolding is_due update_and_get_mtime
due_iff now c j = elim (Bool-cases (ltb c.mtime (now / scaler))) [
  | inl e ↦ rw e (ground arith)
  | inr e ↦ rw e (ground arith)
]

-- The bit of the timer interrupt, and nothing else, is set or cleared.
abbrev pub Timed : Iss → Iss → Type 0 → Type 0
Timed s t expired =
    (t ≡ record s { mip = t.mip })
    × ((t.mip / 2 ^ 7 % 2 ≡ 1) ↔ expired)
    × (t.mip % 2 ^ 7 ≡ s.mip % 2 ^ 7)
    × (t.mip / 2 ^ 8 ≡ s.mip / 2 ^ 8)

false-true : false ≡ true → ⊥
false-true e = cc

trigger_timer_interrupt-Timed :
    (s : Iss) (b : Bool) (expired : Type 0)
    → (b ≡ true) ↔ expired
    → Timed s (trigger_timer_interrupt b s) expired
unfolding trigger_timer_interrupt set_bit
trigger_timer_interrupt-Timed s true expired e =
    (refl, (λ h. e.0 refl, λ h. omega arith), omega arith, omega arith)
trigger_timer_interrupt-Timed s false expired e =
    (refl, (λ h. absurd (omega arith), λ h. absurd (false-true (e.1 h))), omega arith, omega arith)

-- When the controller wakes, bit 7 of `mip` of every hart that it serves is set if the comparator of
-- the hart is not 0 and not above the timer, as updated to the time in microseconds, and is cleared
-- otherwise; nothing else of a hart changes, and other harts do not change.
pub wake-Timed :
    (number_of_cores now : ℕ) (c : Clint) (j : ℕ)
    → let t = (wake number_of_cores now c).target_harts j in
      ((j < number_of_cores) × Timed (c.target_harts j) t (Expired now c j))
      ⊎ ((number_of_cores ≤ j) × (t ≡ c.target_harts j))
wake-Timed n now c j = elim (Bool-cases (ltb j n)) [
  | inl e ↦
      let q : (wake n now c).target_harts j
          ≡ trigger_timer_interrupt (is_due (update_and_get_mtime now c) j) (c.target_harts j) =
        wake-target_harts n now c j ∙ rw e refl in
      inl (
        ground arith,
        subst (λ t. Timed (c.target_harts j) t (Expired now c j)) (sym q)
            (trigger_timer_interrupt-Timed (c.target_harts j) _ _ (due_iff now c j)),
      )
  | inr e ↦ inr (ground arith, wake-target_harts n now c j ∙ rw e refl)
]

either : (b : Bool) (x : ℕ) (l : List ℕ) (d : ℕ) → Memᴰ d l → Memᴰ d (if b then x ∷ l else l)
either true x l d m = Memᴰ.tail m
either false x l d m = m

poll-notified : (i d : ℕ) (c : Clint) → Memᴰ d c.notified → Memᴰ d (poll i c).notified
unfolding poll
poll-notified i d c m = either _ (delay c i) c.notified d m

kept : (left i d : ℕ) (c : Clint) → Memᴰ d c.notified → Memᴰ d (poll_from left i c).notified
unfolding poll_from
kept zero i d c m = m
kept (suc left) i d c m = kept left (suc i) d (poll i c) (poll-notified i d c m)

-- The timer of hart `j` is not due, and its comparator says when it will be.
abbrev pub Waits : Clint → ℕ → Type 0
Waits c j = (0 < c.mtimecmp j) × (c.mtime < c.mtimecmp j) × (c.mtimecmp j < 2 ^ 64 - 1)

poll-asks : (i : ℕ) (c : Clint) → Waits c i → Memᴰ (delay c i) (poll i c).notified
unfolding poll is_due
poll-asks i c (p, q, r) =
    let a : ltb 0 (c.mtimecmp i) ≡ true = ground arith in
    let b : leb (c.mtimecmp i) c.mtime ≡ false = ground arith in
    let d : ltb (c.mtimecmp i) (2 ^ 64 - 1) ≡ true = ground arith in rw (a, b, d) (Memᴰ.head refl)

asked :
    (left i j : ℕ) (c : Clint)
    → i ≤ j
    → j < i + left
    → Waits c j
    → Memᴰ (delay c j) (poll_from left i c).notified
unfolding poll_from poll
asked zero i j c h k w = absurd (omega arith)
asked (suc left) i j c h k w = elim (Bool-cases (j == i)) [
  | inl e ↦
      let p : j ≡ i = (==_iff j i).0 e in
      kept left (suc i) (delay c j) (poll i c) (
        subst (λ x. Memᴰ (delay c x) (poll i c).notified) (sym p)
          (poll-asks i c (subst (Waits c) p w)))
  | inr e ↦ asked left (suc i) j (poll i c) (ground arith) (omega arith) w
]

update-Waits :
    (now : ℕ) (c : Clint) (j : ℕ)
    → c.mtime ≤ now / scaler
    → now / scaler < c.mtimecmp j
    → c.mtimecmp j * scaler < 2 ^ 64
    → ((update_and_get_mtime now c).mtime ≡ now / scaler) × Waits (update_and_get_mtime now c) j
unfolding update_and_get_mtime
update-Waits now c j h k l = elim (Bool-cases (ltb c.mtime (now / scaler))) [
  | inl e ↦ rw e (refl, (omega arith, k, omega arith))
  | inr e ↦ rw e (ground arith, (omega arith, omega arith, omega arith))
]

wait_time :
    (x y : ℕ)
    → y < x
    → x * scaler < 2 ^ 64
    → (x * scaler % 2 ^ 64 + (2 ^ 64 - y * scaler % 2 ^ 64)) % 2 ^ 64 ≡ (x - y) * scaler
wait_time x y h k = ground arith

later :
    (now : ℕ) (t : Clint) (j : ℕ)
    → 0 < t.mtimecmp j
    → t.mtimecmp j * scaler ≤ now
    → is_due (update_and_get_mtime now t) j ≡ true
unfolding is_due update_and_get_mtime
later now t j h k = elim (Bool-cases (ltb t.mtime (now / scaler))) [
  | inl e ↦ rw e (ground arith)
  | inr e ↦ rw e (ground arith)
]

-- If hart `j` is served, the timer is not ahead of the time, and the comparator of `j` is above the
-- time and, in picoseconds, below 2 ^ 64, then at a wake-up the controller asks to be woken after
-- what is left, and when it is woken that much later, the timer interrupt of `j` is due.
pub wake-again :
    (number_of_cores now : ℕ) (c : Clint) (j : ℕ)
    → j < number_of_cores
    → c.mtime ≤ now / scaler
    → now / scaler < c.mtimecmp j
    → c.mtimecmp j * scaler < 2 ^ 64
    → let d = (c.mtimecmp j - now / scaler) * scaler in
      let t = wake number_of_cores now c in
      Memᴰ d t.notified × (is_due (update_and_get_mtime (now + d) t) j ≡ true)
unfolding wake update_and_get_mtime
wake-again n now c j i h k l =
    let u = update-Waits now c j h k l in
    let s = update_and_get_mtime now c in
    let q : (poll_from n 0 s).mtimecmp j ≡ c.mtimecmp j =
      ap (λ (f : ℕ → ℕ). f j) (poll_from-registers n 0 s).1 in
    (
      subst (λ d. Memᴰ d (poll_from n 0 s).notified)
          (rw u.0 (wait_time (c.mtimecmp j) (now / scaler) k l))
          (asked n 0 j s (omega arith) (omega arith) u.1),
      later _ (poll_from n 0 s) j (omega (arith, q)) (omega (arith, q)),
    )
