-- ===== src/Iss/Step/Aligned/Csr.antt =====
-- No CSR access misaligns the addresses to which traps return.
use riscv_vp.Base.{
  ℕ, ◌%◌, ◌≡◌, ◌≢◌, inl, inr, refl, subst, Bool, false, Option, none, some, leb, ◌&&◌, Bool-cases,
  Option-cases, ◌==◌, switch, switch-All, bit_or, and-ones, and-field, or_digit, zero-or, arith,
}
use riscv_vp.Iss.State.{has_extension, isa_c}
use riscv_vp.Iss.Hart.{Hart, Environment}
use riscv_vp.Iss.Exec.{Machine, raise, modify, gets, ◌>>=◌}
use riscv_vp.Iss.Exec.Keeps.{Ends, Keeps, Keeps-pure, Keeps-modify}
use riscv_vp.Iss.Interrupt.Enable.{masked_write, write_mie, write_sie, write_uie}
use riscv_vp.Iss.Csr.Address
use riscv_vp.Iss.Csr.Table.{write32}
use riscv_vp.Iss.Csr.Read.{
  illegal_instruction, validate_csr_counter_read_access_rights, pure_or_illegal, read_default,
  read_time, read_cycle, read_satp, read_csr, get_csr_value, is_invalid_csr_access,
}
use riscv_vp.Iss.Csr.Write.{
  pc_alignment_mask, write_epc, write_status, write_tvec, write_satp, write_or_illegal,
  write_default, masked_csr, is_ignored, set_csr_value,
}
use riscv_vp.Iss.Step.Aligned.{aligned, IsAligned, IsReady, aligned_rules}
use riscv_vp.Iss.Step.Aligned.Groups.{register_rules}

or-mod : (a b : ℕ) → a % 2 ≡ 0 → b % 2 ≡ 0 → bit_or a b % 2 ≡ 0
or-mod a b h e = omega (arith, or_digit a b)

or-aligned : (a b : ℕ) → a ≡ 0 → b % 4 ≡ 0 → bit_or a b % 4 ≡ 0
or-aligned a b h e = rw (h, zero-or) e

pub half : (misa x : ℕ) → IsAligned misa x → x % 2 ≡ 0
half misa x h = omega arith

pub whole : (misa x : ℕ) → IsAligned misa x → has_extension misa isa_c ≡ false → x % 4 ≡ 0
whole misa x (inl h) n = h
whole misa x (inr (h, c)) n = absurd (cc)

-- The lambda `write` with `pc_alignment_mask` leaves an aligned register aligned.
pub masked_write-IsAligned :
    (misa reg value : ℕ)
    → IsAligned misa reg
    → IsAligned misa (masked_write reg (pc_alignment_mask misa) value)
unfolding masked_write pc_alignment_mask
masked_write-IsAligned misa reg value h = elim (Bool-cases (has_extension misa isa_c)) [
  | inl c ↦ rw c (
      inr (
        or-mod _ _ (omega (arith, and-ones 1 reg, half misa reg h))
            (omega (arith, and-field 1 31 value)),
        refl,
      ))
  | inr n ↦ rw n (
      inl (
        or-aligned _ _ (omega (arith, and-ones 2 reg, whole misa reg h n))
          (omega (arith, and-field 2 30 value))))
]

module _ {M : Type 0} where
  validate-Keeps : (a : ℕ) → Keeps {M = M} aligned (validate_csr_counter_read_access_rights a)
  unfolding validate_csr_counter_read_access_rights
  validate-Keeps a = search register_rules

  pure_or_illegal-Keeps : (o : Option ℕ) → Keeps {M = M} aligned (pure_or_illegal o)
  unfolding pure_or_illegal
  pure_or_illegal-Keeps none = search register_rules
  pure_or_illegal-Keeps (some x) = search register_rules

  read_default-Keeps : (a : ℕ) → Keeps {M = M} aligned (read_default a)
  unfolding read_default
  read_default-Keeps a = search (aligned_rules, pure_or_illegal-Keeps)

  pub is_invalid-Keeps : (a : ℕ) (w : Bool) → Keeps {M = M} aligned (is_invalid_csr_access a w)
  unfolding is_invalid_csr_access
  is_invalid-Keeps a w = search register_rules

module _ {M : Type 0} (env : Environment M) where
  read_time-Keeps : (half : ℕ → ℕ) → Keeps aligned (read_time env half)
  unfolding read_time
  read_time-Keeps half = search aligned_rules

  read_cycle-Keeps : (half : ℕ → ℕ) → Keeps aligned (read_cycle env half)
  unfolding read_cycle
  read_cycle-Keeps half = search aligned_rules

  read_satp-Keeps : Keeps aligned (read_satp env)
  unfolding read_satp
  read_satp-Keeps = search (register_rules, read_default-Keeps)

  read_csr-Keeps : (a : ℕ) → Keeps aligned (read_csr env a)
  unfolding read_csr
  read_csr-Keeps a = elim (Bool-cases (Address.is_hpm_counter a)) [
    | inl e ↦ rw e (Keeps-pure 0)
    | inr e ↦ rw e (
        switch-All (Keeps aligned) a _ _
          (search (aligned_rules, read_time-Keeps, read_cycle-Keeps, read_satp-Keeps) depth 60)
          (read_default-Keeps a))
  ]

  pub get_csr_value-Keeps : (a : ℕ) → Keeps aligned (get_csr_value env a)
  unfolding get_csr_value
  get_csr_value-Keeps a = search (aligned_rules, validate-Keeps, read_csr-Keeps)

abbrev Written : Option Hart → Type 0
Written none = Unit
Written (some t) = IsReady t

-- Every register of the mapping but `misa` and the three that hold a return address.
write32-Written :
    (a v : ℕ) (h : Hart)
    → a ≢ Address.misa
    → a ≢ Address.mepc
    → a ≢ Address.sepc
    → a ≢ Address.uepc
    → IsReady h
    → Written (write32 a v h)
unfolding write32
write32-Written a v h n m s u r =
    let no_misa : a ≡ Address.misa → IsReady (record h { iss = record h.iss { misa = v } }) =
      λ e. absurd (n e) in
    let no_mepc : a ≡ Address.mepc
        → IsReady (record h { iss = record h.iss { machine = record h.iss.machine { epc = v } } }) =
      λ e. absurd (m e) in
    let no_sepc : a ≡ Address.sepc
        → IsReady
            (record h { iss = record h.iss { supervisor = record h.iss.supervisor { epc = v } } }) =
      λ e. absurd (s e) in
    let no_uepc : a ≡ Address.uepc
        → IsReady (record h { iss = record h.iss { user = record h.iss.user { epc = v } } }) =
      λ e. absurd (u e) in
    elim (Bool-cases (leb 0x3b0 a && leb a 0x3bf)) [
      | inl e ↦ rw e r
      | inr e ↦ elim (Bool-cases (leb 0x3a0 a && leb a 0x3a3)) [
        | inl f ↦ rw (e, f) r
        | inr f ↦
            rw (e, f)
              (switch-All Written a _ _ (search (no_misa, no_mepc, no_sepc, no_uepc, r) depth 200)
                tt)
      ]
    ]

module _ (v : ℕ) (h : Hart) (r : IsReady h) where
  mepc-IsReady : IsReady (record h {
    iss = record h.iss { machine = write_epc (pc_alignment_mask h.iss.misa) v h.iss.machine };
  })
  unfolding write_epc
  mepc-IsReady = (r.0, (r.1.0, masked_write-IsAligned _ _ v r.1.1, r.1.2, r.1.3))

  sepc-IsReady : IsReady (record h {
    iss = record h.iss { supervisor = write_epc (pc_alignment_mask h.iss.misa) v h.iss.supervisor };
  })
  unfolding write_epc
  sepc-IsReady = (r.0, (r.1.0, r.1.1, masked_write-IsAligned _ _ v r.1.2, r.1.3))

  uepc-IsReady : IsReady (record h {
    iss = record h.iss { user = write_epc (pc_alignment_mask h.iss.misa) v h.iss.user };
  })
  unfolding write_epc
  uepc-IsReady = (r.0, (r.1.0, r.1.1, r.1.2, masked_write-IsAligned _ _ v r.1.3))

abbrev Preserves : Option (Hart → Hart) → Type 0
Preserves none = Unit
Preserves (some f) = (h : Hart) → IsReady h → IsReady (f h)

masked_csr-Preserves : (a v : ℕ) → Preserves (masked_csr a v)
unfolding masked_csr write_status write_tvec write_mie write_sie write_uie
masked_csr-Preserves a v =
    switch-All Preserves a _ _ (search (mepc-IsReady, sepc-IsReady, uepc-IsReady) depth 60) tt

masked_csr-ne :
    (a v : ℕ) → masked_csr a v ≡ none → (a ≢ Address.mepc) × (a ≢ Address.sepc) × (a ≢ Address.uepc)
unfolding masked_csr switch
masked_csr-ne a v h = (
  λ e. cc (subst (λ x. masked_csr x v ≡ none) e h),
  λ e. cc (subst (λ x. masked_csr x v ≡ none) e h),
  λ e. cc (subst (λ x. masked_csr x v ≡ none) e h),
)

is_ignored-ne : (a : ℕ) → is_ignored a ≡ false → a ≢ Address.misa
is_ignored-ne a h e = cc (subst (λ x. is_ignored x ≡ false) e h)

module _ {M : Type 0} where
  write_default-Keeps :
      (a v : ℕ)
      → a ≢ Address.misa
      → (a ≢ Address.mepc) × (a ≢ Address.sepc) × (a ≢ Address.uepc)
      → Keeps {M = M} aligned (write_default a v)
  unfolding write_default ◌>>=◌ gets write_or_illegal illegal_instruction modify raise
  write_default-Keeps a v n e = record {
    at = λ s h.
        write_or_illegal-Ends (write32 a v s.hart) s h (write32-Written a v s.hart n e.0 e.1 e.2 h);
  }
    where
      write_or_illegal-Ends :
          (o : Option Hart) (s : Machine M)
          → IsReady s.hart
          → Written o
          → Ends aligned (write_or_illegal o s)
      write_or_illegal-Ends none s r w = r.1
      write_or_illegal-Ends (some t) s r w = w

  write_satp-Keeps : (v : ℕ) → Keeps {M = M} aligned (write_satp v)
  unfolding write_satp
  write_satp-Keeps v = search register_rules depth 20

  modify-Keeps : (f : Hart → Hart) → Preserves (some f) → Keeps {M = M} aligned (modify f)
  modify-Keeps f p = Keeps-modify f p

  pub set_csr_value-Keeps : (a v : ℕ) → Keeps {M = M} aligned (set_csr_value a v)
  unfolding set_csr_value
  set_csr_value-Keeps a v = elim (Bool-cases (is_ignored a)) [
    | inl e ↦ rw e (Keeps-pure tt)
    | inr e ↦ elim (Bool-cases (a == Address.satp)) [
      | inl t ↦ rw (e, t) (write_satp-Keeps v)
      | inr t ↦ elim (Option-cases (masked_csr a v)) [
        | inl m ↦ rw (e, t, m) (write_default-Keeps a v (is_ignored-ne a e) (masked_csr-ne a v m))
        | inr (f, m) ↦ rw (e, t, m) (Keeps-modify f (subst Preserves m (masked_csr-Preserves a v)))
      ]
    ]
  ]
