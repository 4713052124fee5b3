-- ===== src/Iss/Interrupt/Enable.antt =====
-- Writes to the interrupt-enable CSR `mie` through its three addresses (`set_csr_value` of
-- vp/src/core/rv32/iss.cpp), and why `prepare_interrupt` finds an interrupt.
use riscv_vp.Base.{
  ℕ, ◌≡◌, ◌≢◌, refl, ap, sym, ◌∙◌, ◌^◌, ◌-◌, Option, none, some, bit_and, bit_or, and_assoc,
  and_comm, or-and, and_within, arith,
}
use riscv_vp.Iss.State.{Iss, none_mode}
use riscv_vp.Iss.Interrupt.{compute_pending_interrupts, interrupt_code, and_not}

abbrev pub mie_mask : ℕ
mie_mask = 0b101110111011

abbrev pub sie_mask : ℕ
sie_mask = 0b001100110011

abbrev pub uie_mask : ℕ
uie_mask = 0b000100010001

-- The lambda `write` of `set_csr_value`.
unfoldable pub masked_write : ℕ → ℕ → ℕ → ℕ
masked_write reg mask value = bit_or (and_not reg mask) (bit_and value mask)

unfoldable pub write_mie : ℕ → Iss → Iss
write_mie value s = record s { mie = masked_write s.mie mie_mask value }

unfoldable pub write_sie : ℕ → Iss → Iss
write_sie value s = record s { mie = masked_write s.mie sie_mask value }

unfoldable pub write_uie : ℕ → Iss → Iss
write_uie value s = record s { mie = masked_write s.mie uie_mask value }

-- Only bits that name an interrupt are enabled.
abbrev pub IsMasked : Iss → Type 0
IsMasked s = bit_and s.mie mie_mask ≡ s.mie

within_left : (a b m : ℕ) → bit_and a m ≡ a → bit_and (bit_and a b) m ≡ bit_and a b
within_left a b m h =
    and_assoc a b m
    ∙ ap (bit_and a) (and_comm b m)
    ∙ sym (and_assoc a m b)
    ∙ ap (λ x. bit_and x b) h

masked_write-within :
    (reg mask value : ℕ)
    → bit_and reg mie_mask ≡ reg
    → bit_and mask mie_mask ≡ mask
    → bit_and (masked_write reg mask value) mie_mask ≡ masked_write reg mask value
unfolding masked_write
masked_write-within reg mask value h k = rw (
  or-and (and_not reg mask) (bit_and value mask) mie_mask,
  within_left reg (2 ^ 32 - 1 - mask) mie_mask h,
  and_within value mask mie_mask k,
)

-- No write through `mie`, `sie` or `uie` enables a bit that names no interrupt.
pub writes-IsMasked :
    (value : ℕ) (s : Iss)
    → IsMasked s
    → IsMasked (write_mie value s) × IsMasked (write_sie value s) × IsMasked (write_uie value s)
unfolding write_mie write_sie write_uie
writes-IsMasked value s h = (
  masked_write-within s.mie mie_mask value h refl,
  masked_write-within s.mie sie_mask value h refl,
  masked_write-within s.mie uie_mask value h refl,
)

both_clear : (p a b : ℕ) → bit_and p a ≡ 0 → bit_and p b ≡ 0 → bit_and p (bit_or a b) ≡ 0
both_clear p a b h k = and_comm p (bit_or a b) ∙ rw (or-and a b p, and_comm a p, and_comm b p, h, k)

-- An interrupt code that names a pending bit.
abbrev pub Coded : ℕ → Option ℕ → Type 0
Coded p none = ⊥
Coded p (some code) = bit_and p (2 ^ code) ≢ 0

all_clear :
    (p : ℕ)
    → bit_and p (2 ^ 11) ≡ 0
    → bit_and p (2 ^ 3) ≡ 0
    → bit_and p (2 ^ 7) ≡ 0
    → bit_and p (2 ^ 9) ≡ 0
    → bit_and p (2 ^ 1) ≡ 0
    → bit_and p (2 ^ 5) ≡ 0
    → bit_and p (2 ^ 8) ≡ 0
    → bit_and p (2 ^ 0) ≡ 0
    → bit_and p (2 ^ 4) ≡ 0
    → bit_and p mie_mask ≡ 0
all_clear p a b c d e f g h i = both_clear p 2048 955 a (
    both_clear p 8 947 b (
      both_clear p 128 819 c (
        both_clear p 512 307 d (
          both_clear p 2 305 e
            (both_clear p 32 273 f (both_clear p 256 17 g (both_clear p 1 16 h i)))))))

-- Of pending interrupts under the mask, some one is chosen, and it is pending.
interrupt_code-Coded : (p : ℕ) → bit_and p mie_mask ≡ p → p ≢ 0 → Coded p (interrupt_code p)
unfolding interrupt_code
interrupt_code-Coded p h n = ground (arith, all_clear p)

-- What is pending for the chosen mode, if one is chosen.
chosen :
    (s : Iss)
    → IsMasked s
    → (compute_pending_interrupts s).target_mode ≢ none_mode
    → let p = (compute_pending_interrupts s).pending in (p ≢ 0) × (bit_and p mie_mask ≡ p)
unfolding compute_pending_interrupts
chosen s h n =
    let w = within_left s.mie s.mip mie_mask h in
    let d = within_left (bit_and s.mie s.mip) s.mideleg mie_mask w in
    ground (
      arith,
      within_left (bit_and s.mie s.mip) (2 ^ 32 - 1 - s.mideleg) mie_mask w,
      within_left (bit_and (bit_and s.mie s.mip) s.mideleg) (2 ^ 32 - 1 - s.sideleg) mie_mask d,
      within_left (bit_and (bit_and s.mie s.mip) s.mideleg) s.sideleg mie_mask d,
    )

-- If only interrupts are enabled and a mode is chosen, then `interrupt_code`, which
-- `prepare_interrupt` stores as the cause, answers the number of a pending bit: the exception
-- "some pending interrupt must be available here" is never thrown.
pub pending-Coded :
    (s : Iss)
    → IsMasked s
    → (compute_pending_interrupts s).target_mode ≢ none_mode
    → Coded
        (compute_pending_interrupts s).pending
        (interrupt_code (compute_pending_interrupts s).pending)
pending-Coded s h n =
    let c = chosen s h n in interrupt_code-Coded (compute_pending_interrupts s).pending c.1 c.0
