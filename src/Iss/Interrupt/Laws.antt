-- ===== src/Iss/Interrupt/Laws.antt =====
-- Which mode an interrupt is taken in (`compute_pending_interrupts` of vp/src/core/rv32/iss.cpp).
use riscv_vp.Base.{
  ℕ, ◌-◌, ◌/◌, ◌%◌, ◌^◌, ◌≡◌, ◌≢◌, ◌⊎◌, ◌↔◌, ◌<◌, subst, Bool, true, bit_and, zero-and, arith,
}
use riscv_vp.Base.Digits.{
  Digit, nonzero_place, zero-Digit, Digit-and, Digit-complement, Digit-below,
}
use riscv_vp.Iss.State.{Iss, machine_mode, supervisor_mode, user_mode}
use riscv_vp.Iss.Interrupt.{compute_pending_interrupts, m_pending, s_pending, u_pending}

-- Interrupt `i` is enabled in `mie` and pending in `mip`.
abbrev pub Arises : Iss → ℕ → Type 0
Arises s i = (i < 32) × Digit s.mie i × Digit s.mip i

-- One arises that `mideleg` leaves to machine mode.
abbrev pub MachinePends : Iss → Type 0
MachinePends s = (i : ℕ) × Arises s i × (s.mideleg / 2 ^ i % 2 ≡ 0)

-- One arises that `mideleg` delegates and `sideleg` leaves to supervisor mode.
abbrev pub SupervisorPends : Iss → Type 0
SupervisorPends s = (i : ℕ) × Arises s i × Digit s.mideleg i × (s.sideleg / 2 ^ i % 2 ≡ 0)

-- One arises that both delegate to user mode.
abbrev pub UserPends : Iss → Type 0
UserPends s = (i : ℕ) × Arises s i × Digit s.mideleg i × Digit s.sideleg i

-- What pends for mode `m` may be taken: the hart runs below it, or at it with the enable bit `ie` set.
abbrev pub Takes : Iss → Type 0 → ℕ → Bool → Type 0
Takes s pends m ie = pends × ((s.prv < m) ⊎ ((s.prv ≡ m) × (ie ≡ true)))

Digit-nonzero : (n i : ℕ) → Digit n i → n ≢ 0
Digit-nonzero n i d e = zero-Digit i (subst (λ x. Digit x i) e d)

m_pending_iff : (s : Iss) → s.mideleg < 2 ^ 32 → (m_pending s ≢ 0) ↔ MachinePends s
m_pending_iff s l = (
  λ z.
      let d = nonzero_place (m_pending s) z in
      let a = (Digit-and (bit_and s.mie s.mip) (2 ^ 32 - 1 - s.mideleg) d.0).0 d.1 in
      let b = (Digit-and s.mie s.mip d.0).0 a.0 in
      let h = Digit-below (2 ^ 32 - 1 - s.mideleg) d.0 (omega arith) a.1 in
      (d.0, (h, b.0, b.1), (Digit-complement d.0 s.mideleg h l).0 a.1),
  λ p.
      let i = p.0 in
      let c = (Digit-complement i s.mideleg p.1.0 l).1 p.2 in
      Digit-nonzero (m_pending s) i (
        (Digit-and (bit_and s.mie s.mip) (2 ^ 32 - 1 - s.mideleg) i).1
          ((Digit-and s.mie s.mip i).1 (p.1.1, p.1.2), c)),
)

delegated_digits :
    (s : Iss) (i : ℕ)
    → Digit (bit_and (bit_and s.mie s.mip) s.mideleg) i
      ↔ ((Digit s.mie i × Digit s.mip i) × Digit s.mideleg i)
delegated_digits s i = (
  λ d.
      let a = (Digit-and (bit_and s.mie s.mip) s.mideleg i).0 d in
      ((Digit-and s.mie s.mip i).0 a.0, a.1),
  λ d. (Digit-and (bit_and s.mie s.mip) s.mideleg i).1 ((Digit-and s.mie s.mip i).1 d.0, d.1),
)

s_pending_iff : (s : Iss) → s.sideleg < 2 ^ 32 → (s_pending s ≢ 0) ↔ SupervisorPends s
s_pending_iff s l =
    let m = bit_and (bit_and s.mie s.mip) s.mideleg in
    (
      λ z.
          let d = nonzero_place (s_pending s) z in
          let a = (Digit-and m (2 ^ 32 - 1 - s.sideleg) d.0).0 d.1 in
          let b = (delegated_digits s d.0).0 a.0 in
          let h = Digit-below (2 ^ 32 - 1 - s.sideleg) d.0 (omega arith) a.1 in
          (d.0, (h, b.0.0, b.0.1), b.1, (Digit-complement d.0 s.sideleg h l).0 a.1),
      λ p.
          let i = p.0 in
          let c = (Digit-complement i s.sideleg p.1.0 l).1 p.3 in
          Digit-nonzero (s_pending s) i (
            (Digit-and m (2 ^ 32 - 1 - s.sideleg) i).1
              ((delegated_digits s i).1 ((p.1.1, p.1.2), p.2), c)),
    )

u_pending_iff : (s : Iss) → s.sideleg < 2 ^ 32 → (u_pending s ≢ 0) ↔ UserPends s
u_pending_iff s l =
    let m = bit_and (bit_and s.mie s.mip) s.mideleg in
    (
      λ z.
          let d = nonzero_place (u_pending s) z in
          let a = (Digit-and m s.sideleg d.0).0 d.1 in
          let b = (delegated_digits s d.0).0 a.0 in
          (d.0, (Digit-below s.sideleg d.0 l a.1, b.0.0, b.0.1), b.1, a.1),
      λ p.
          let i = p.0 in
          Digit-nonzero (u_pending s) i
            ((Digit-and m s.sideleg i).1 ((delegated_digits s i).1 ((p.1.1, p.1.2), p.2), p.3)),
    )

m_pending-zero : (s : Iss) → bit_and s.mie s.mip ≡ 0 → m_pending s ≡ 0
m_pending-zero s h = rw h (zero-and _)

s_pending-zero : (s : Iss) → bit_and s.mie s.mip ≡ 0 → s_pending s ≡ 0
s_pending-zero s h = rw (h, zero-and s.mideleg) (zero-and _)

u_pending-zero : (s : Iss) → bit_and s.mie s.mip ≡ 0 → u_pending s ≡ 0
u_pending-zero s h = rw (h, zero-and s.mideleg) (zero-and _)

-- The same with the words of the code.
abbrev Taken : Iss → ℕ → ℕ → Bool → Type 0
Taken s p m ie = Takes s (p ≢ 0) m ie

machine_iff :
    (s : Iss)
    → ((compute_pending_interrupts s).target_mode ≡ machine_mode)
      ↔ Taken s (m_pending s) machine_mode s.mstatus.mie
unfolding compute_pending_interrupts
machine_iff s = ground (arith, m_pending-zero s)

supervisor_iff :
    (s : Iss)
    → ((compute_pending_interrupts s).target_mode ≡ supervisor_mode) ↔ (
        (¬ Taken s (m_pending s) machine_mode s.mstatus.mie)
        × Taken s (s_pending s) supervisor_mode s.mstatus.sie)
unfolding compute_pending_interrupts
supervisor_iff s = ground (arith, m_pending-zero s, s_pending-zero s)

user_iff :
    (s : Iss)
    → ((compute_pending_interrupts s).target_mode ≡ user_mode) ↔ (
        (¬ Taken s (m_pending s) machine_mode s.mstatus.mie)
        × (¬ Taken s (s_pending s) supervisor_mode s.mstatus.sie)
        × Taken s (u_pending s) user_mode s.mstatus.uie)
unfolding compute_pending_interrupts
user_iff s = ground (arith, m_pending-zero s, s_pending-zero s, u_pending-zero s)

-- The target mode is machine mode exactly when an interrupt that is enabled, pending and not in
-- `mideleg` may be taken there; supervisor mode exactly when that is not so and one in `mideleg` and
-- not in `sideleg` may be taken there; user mode exactly when neither is so and one in both may be
-- taken there, for words of 32 bits. An interrupt may be taken in a mode if the hart runs in a lower
-- one, or in that mode with its interrupts enabled in `mstatus`.
pub target_mode_iff :
    (s : Iss)
    → s.mideleg < 2 ^ 32
    → s.sideleg < 2 ^ 32
    → let target = (compute_pending_interrupts s).target_mode in
      let machine = Takes s (MachinePends s) machine_mode s.mstatus.mie in
      let supervisor = Takes s (SupervisorPends s) supervisor_mode s.mstatus.sie in
      let user = Takes s (UserPends s) user_mode s.mstatus.uie in
      ((target ≡ machine_mode) ↔ machine)
      × ((target ≡ supervisor_mode) ↔ ((¬ machine) × supervisor))
      × ((target ≡ user_mode) ↔ ((¬ machine) × (¬ supervisor) × user))
target_mode_iff s l k =
    let m = m_pending_iff s l in
    let p = s_pending_iff s k in
    let u = u_pending_iff s k in
    let a = machine_iff s in
    let b = supervisor_iff s in
    let c = user_iff s in
    (
      (λ e. let t = a.0 e in (m.0 t.0, t.1), λ t. a.1 (m.1 t.0, t.1)),
      (
        λ e. let t = b.0 e in (λ x. t.0 (m.1 x.0, x.1), (p.0 t.1.0, t.1.1)),
        λ t. b.1 (λ x. t.0 (m.0 x.0, x.1), (p.1 t.1.0, t.1.1)),
      ),
      (
        λ e.
            let t = c.0 e in (λ x. t.0 (m.1 x.0, x.1), λ x. t.1 (p.1 x.0, x.1), (u.0 t.2.0, t.2.1)),
        λ t. c.1 (λ x. t.0 (m.0 x.0, x.1), λ x. t.1 (p.0 x.0, x.1), (u.1 t.2.0, t.2.1)),
      ),
    )
