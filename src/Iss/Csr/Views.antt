-- ===== src/Iss/Csr/Views.antt =====
-- The views `sstatus` and `ustatus` of `mstatus` (`csr_mstatus` of vp/src/core/rv32/csr.h and its
-- cases in `set_csr_value` of iss.cpp).
use riscv_vp.Base.{
  ℕ, ◌<◌, ◌/◌, ◌*◌, ◌-◌, ◌^◌, ◌≡◌, refl, ◌∙◌, sym, ap, bit_and, or-and, or-zero, and_apart,
  and_assoc, and-field, arith,
}
use native.Mathlib.Nat.{mul-div_cancel, one-le-pow}
use riscv_vp.Iss.State.{Mstatus}
use riscv_vp.Iss.Hart.{Hart}
use riscv_vp.Iss.Interrupt.Enable.{masked_write}
use riscv_vp.Iss.Csr.Fields.{field, mstatus_reg, mstatus_of, sstatus_mask, ustatus_mask}
use riscv_vp.Iss.Csr.Status.{IsStatus, bit-flag, mstatus_reg-HasFields}
use riscv_vp.Iss.Csr.Write.{write_status}

-- A field under zeros of the mask is kept.
masked_write-field :
    (k w reg mask value : ℕ)
    → bit_and (2 ^ 32 - 1 - mask) ((2 ^ w - 1) * 2 ^ k) ≡ (2 ^ w - 1) * 2 ^ k
    → bit_and mask ((2 ^ w - 1) * 2 ^ k) ≡ 0
    → field (masked_write reg mask value) k w * 2 ^ k ≡ field reg k w * 2 ^ k
unfolding masked_write
masked_write-field k w reg mask value h z =
    sym (and-field k w (masked_write reg mask value))
    ∙ or-and _ _ ((2 ^ w - 1) * 2 ^ k)
    ∙ rw (and_apart value mask ((2 ^ w - 1) * 2 ^ k) z, or-zero _)
        (and_assoc reg _ _ ∙ ap (bit_and reg) h)
    ∙ and-field k w reg

cancel : (k x y : ℕ) → x * 2 ^ k ≡ y * 2 ^ k → x ≡ y
cancel k x y e =
    let positive : 0 < 2 ^ k = omega (arith, one-le-pow k 2) in
    sym (mul-div_cancel x positive) ∙ ap (λ (t : ℕ). t / 2 ^ k) e ∙ mul-div_cancel y positive

module _ (mask value : ℕ) (h : Hart) where
  abbrev before : Mstatus
  before = h.iss.mstatus

  abbrev IsCovered : ℕ → ℕ → Type 0
  IsCovered k w =
      (bit_and (2 ^ 32 - 1 - mask) ((2 ^ w - 1) * 2 ^ k) ≡ (2 ^ w - 1) * 2 ^ k)
      × (bit_and mask ((2 ^ w - 1) * 2 ^ k) ≡ 0)

  field-kept :
      (k w : ℕ)
      → IsCovered k w
      → field (masked_write (mstatus_reg before) mask value) k w ≡ field (mstatus_reg before) k w
  field-kept k w c = cancel k _ _ (masked_write-field k w (mstatus_reg before) mask value c.0 c.1)

-- The fields that belong to machine mode are the same.
abbrev pub AgreeForMachine : Mstatus → Mstatus → Type 0
AgreeForMachine t m =
    (t.mie ≡ m.mie)
    × (t.mpie ≡ m.mpie)
    × (t.mpp ≡ m.mpp)
    × (t.mprv ≡ m.mprv)
    × (t.tvm ≡ m.tvm)
    × (t.tw ≡ m.tw)
    × (t.tsr ≡ m.tsr)

write_status-sstatus :
    (value : ℕ) (h : Hart)
    → IsStatus h.iss.mstatus
    → let m = h.iss.mstatus in
      let t = (write_status sstatus_mask value h).iss.mstatus in AgreeForMachine t m
unfolding write_status mstatus_of
write_status-sstatus value h s =
    let m = h.iss.mstatus in
    let d = mstatus_reg-HasFields m s in
    (
      bit-flag _ m.mie (field-kept sstatus_mask value h 3 1 (refl, refl) ∙ d.2),
      bit-flag _ m.mpie (field-kept sstatus_mask value h 7 1 (refl, refl) ∙ d.5),
      field-kept sstatus_mask value h 11 2 (refl, refl) ∙ d.7,
      bit-flag _ m.mprv (field-kept sstatus_mask value h 17 1 (refl, refl) ∙ d.10),
      bit-flag _ m.tvm (field-kept sstatus_mask value h 20 1 (refl, refl) ∙ d.13),
      bit-flag _ m.tw (field-kept sstatus_mask value h 21 1 (refl, refl) ∙ d.14),
      bit-flag _ m.tsr (field-kept sstatus_mask value h 22 1 (refl, refl) ∙ d.15),
    )

-- All fields but `uie` and `upie` are the same.
abbrev pub AgreeForSupervisor : Mstatus → Mstatus → Type 0
AgreeForSupervisor t m =
    (t.sie ≡ m.sie)
    × (t.mie ≡ m.mie)
    × (t.spie ≡ m.spie)
    × (t.mpie ≡ m.mpie)
    × (t.spp ≡ m.spp)
    × (t.mpp ≡ m.mpp)
    × (t.fs ≡ m.fs)
    × (t.xs ≡ m.xs)
    × (t.mprv ≡ m.mprv)
    × (t.sum ≡ m.sum)
    × (t.mxr ≡ m.mxr)
    × (t.tvm ≡ m.tvm)
    × (t.tw ≡ m.tw)
    × (t.tsr ≡ m.tsr)
    × (t.sd ≡ m.sd)

write_status-ustatus :
    (value : ℕ) (h : Hart)
    → IsStatus h.iss.mstatus
    → let m = h.iss.mstatus in
      let t = (write_status ustatus_mask value h).iss.mstatus in AgreeForSupervisor t m
unfolding write_status mstatus_of
write_status-ustatus value h s =
    let m = h.iss.mstatus in
    let d = mstatus_reg-HasFields m s in
    (
      bit-flag _ m.sie (field-kept ustatus_mask value h 1 1 (refl, refl) ∙ d.1),
      bit-flag _ m.mie (field-kept ustatus_mask value h 3 1 (refl, refl) ∙ d.2),
      bit-flag _ m.spie (field-kept ustatus_mask value h 5 1 (refl, refl) ∙ d.4),
      bit-flag _ m.mpie (field-kept ustatus_mask value h 7 1 (refl, refl) ∙ d.5),
      field-kept ustatus_mask value h 8 1 (refl, refl) ∙ d.6,
      field-kept ustatus_mask value h 11 2 (refl, refl) ∙ d.7,
      field-kept ustatus_mask value h 13 2 (refl, refl) ∙ d.8,
      field-kept ustatus_mask value h 15 2 (refl, refl) ∙ d.9,
      bit-flag _ m.mprv (field-kept ustatus_mask value h 17 1 (refl, refl) ∙ d.10),
      bit-flag _ m.sum (field-kept ustatus_mask value h 18 1 (refl, refl) ∙ d.11),
      bit-flag _ m.mxr (field-kept ustatus_mask value h 19 1 (refl, refl) ∙ d.12),
      bit-flag _ m.tvm (field-kept ustatus_mask value h 20 1 (refl, refl) ∙ d.13),
      bit-flag _ m.tw (field-kept ustatus_mask value h 21 1 (refl, refl) ∙ d.14),
      bit-flag _ m.tsr (field-kept ustatus_mask value h 22 1 (refl, refl) ∙ d.15),
      bit-flag _ m.sd (field-kept ustatus_mask value h 31 1 (refl, refl) ∙ d.16),
    )

-- A write to `sstatus` leaves the fields of `mstatus` that belong to machine mode, and a write to
-- `ustatus` all of its fields but `uie` and `upie`, where `spp` is below 2 and `mpp`, `fs` and `xs`
-- are below 4.
pub write_status-views :
    (v w : ℕ) (h : Hart)
    → IsStatus h.iss.mstatus
    → AgreeForMachine (write_status sstatus_mask v h).iss.mstatus h.iss.mstatus
      × AgreeForSupervisor (write_status ustatus_mask w h).iss.mstatus h.iss.mstatus
write_status-views v w h s = (write_status-sstatus v h s, write_status-ustatus w h s)
