-- ===== src/Iss/Csr/Write.antt =====
-- Writes to a CSR.
use riscv_vp.Base.{
  ℕ, ◌+◌, ◌-◌, ◌*◌, ◌/◌, ◌%◌, ◌^◌, Bool, ◌||◌, ◌==◌, if◌then◌else◌, switch, Option, none, some, [],
  ◌∷◌,
}
use riscv_vp.Iss.State.{Handler, has_extension, isa_c}
use riscv_vp.Iss.Hart.{Hart}
use riscv_vp.Iss.Exec.{Exec, pure, gets, modify, when, ◌>>=◌, ◌>>◌}
use riscv_vp.Iss.Interrupt.Enable.{masked_write, write_mie, write_sie, write_uie}
use riscv_vp.Iss.Csr.Address
use riscv_vp.Iss.Csr.Address.{is_hpm_counter}
use riscv_vp.Iss.Csr.Fields.{
  mstatus_reg, mstatus_of, tvec_reg, tvec_of, mstatus_mask, sstatus_mask, ustatus_mask,
  mip_write_mask, sip_mask, uip_mask, medeleg_mask, mideleg_mask, mtvec_mask, mcounteren_mask,
  mcountinhibit_mask, sedeleg_mask, sideleg_mask, satp_mask, fcsr_mask,
}
use riscv_vp.Iss.Csr.Table.{write32}
use riscv_vp.Iss.Csr.Read.{illegal_instruction}

-- `pc_alignment_mask`.
unfoldable pub pc_alignment_mask : ℕ → ℕ
pc_alignment_mask misa = if has_extension misa isa_c then 2 ^ 32 - 1 - 1 else 2 ^ 32 - 1 - 3

unfoldable pub write_tvec : ℕ → Handler → Handler
write_tvec value h = record h { tvec = tvec_of (masked_write (tvec_reg h.tvec) mtvec_mask value) }

unfoldable pub write_epc : ℕ → ℕ → Handler → Handler
write_epc mask value h = record h { epc = masked_write h.epc mask value }

unfoldable pub write_status : ℕ → ℕ → Hart → Hart
write_status mask value h = record h {
  iss = record h.iss { mstatus = mstatus_of (masked_write (mstatus_reg h.iss.mstatus) mask value) };
}

unfoldable pub write_satp : {M : Type 0} → ℕ → Exec M (Unit {0})
write_satp value = do
  tvm ← gets (λ h. h.iss.mstatus.tvm)
  when tvm illegal_instruction
  modify
      (λ h. record h { csrs = record h.csrs { satp = masked_write h.csrs.satp satp_mask value } })

unfoldable pub write_or_illegal : {M : Type 0} → Option Hart → Exec M (Unit {0})
write_or_illegal none = illegal_instruction
write_or_illegal (some t) = modify (λ _. t)

-- The `default` case of `set_csr_value`.
unfoldable pub write_default : {M : Type 0} → ℕ → ℕ → Exec M (Unit {0})
write_default addr value = do written ← gets (write32 addr value); write_or_illegal written

-- The writes of `set_csr_value` that go through a mask.
unfoldable pub masked_csr : ℕ → ℕ → Option (Hart → Hart)
masked_csr addr value =
    switch addr
      ((
        Address.mtvec,
        some (λ h. record h { iss = record h.iss { machine = write_tvec value h.iss.machine } }),
      )
        ∷ (
          Address.stvec,
          some (λ h. record h {
            iss = record h.iss { supervisor = write_tvec value h.iss.supervisor };
          }),
        )
        ∷ (
          Address.utvec,
          some (λ h. record h { iss = record h.iss { user = write_tvec value h.iss.user } }),
        )
        ∷ (
          Address.mepc,
          some (λ h. record h {
            iss = record h.iss {
              machine = write_epc (pc_alignment_mask h.iss.misa) value h.iss.machine;
            };
          }),
        )
        ∷ (
          Address.sepc,
          some (λ h. record h {
            iss = record h.iss {
              supervisor = write_epc (pc_alignment_mask h.iss.misa) value h.iss.supervisor;
            };
          }),
        )
        ∷ (
          Address.uepc,
          some (λ h. record h {
            iss = record h.iss { user = write_epc (pc_alignment_mask h.iss.misa) value h.iss.user };
          }),
        )
        ∷ (Address.mstatus, some (write_status mstatus_mask value))
        ∷ (Address.sstatus, some (write_status sstatus_mask value))
        ∷ (Address.ustatus, some (write_status ustatus_mask value))
        ∷ (
          Address.mip,
          some (λ h. record h {
            iss = record h.iss { mip = masked_write h.iss.mip mip_write_mask value };
          }),
        )
        ∷ (
          Address.sip,
          some (λ h. record h {
            iss = record h.iss { mip = masked_write h.iss.mip sip_mask value };
          }),
        )
        ∷ (
          Address.uip,
          some (λ h. record h {
            iss = record h.iss { mip = masked_write h.iss.mip uip_mask value };
          }),
        )
        ∷ (Address.mie, some (λ h. record h { iss = write_mie value h.iss }))
        ∷ (Address.sie, some (λ h. record h { iss = write_sie value h.iss }))
        ∷ (Address.uie, some (λ h. record h { iss = write_uie value h.iss }))
        ∷ (
          Address.mideleg,
          some (λ h. record h {
            iss = record h.iss { mideleg = masked_write h.iss.mideleg mideleg_mask value };
          }),
        )
        ∷ (
          Address.medeleg,
          some (λ h. record h {
            iss = record h.iss { medeleg = masked_write h.iss.medeleg medeleg_mask value };
          }),
        )
        ∷ (
          Address.sideleg,
          some (λ h. record h {
            iss = record h.iss { sideleg = masked_write h.iss.sideleg sideleg_mask value };
          }),
        )
        ∷ (
          Address.sedeleg,
          some (λ h. record h {
            iss = record h.iss { sedeleg = masked_write h.iss.sedeleg sedeleg_mask value };
          }),
        )
        ∷ (
          Address.mcounteren,
          some (λ h. record h {
            csrs = record h.csrs {
              mcounteren = masked_write h.csrs.mcounteren mcounteren_mask value;
            };
          }),
        )
        ∷ (
          Address.scounteren,
          some (λ h. record h {
            csrs = record h.csrs {
              scounteren = masked_write h.csrs.scounteren mcounteren_mask value;
            };
          }),
        )
        ∷ (
          Address.mcountinhibit,
          some (λ h. record h {
            csrs = record h.csrs {
              mcountinhibit = masked_write h.csrs.mcountinhibit mcountinhibit_mask value;
            };
          }),
        )
        ∷ (
          Address.fcsr,
          some (λ h. record h {
            csrs = record h.csrs { fcsr = masked_write h.csrs.fcsr fcsr_mask value };
          }),
        )
        ∷ (
          Address.fflags,
          some (λ h. record h {
            csrs = record h.csrs { fcsr = h.csrs.fcsr / 2 ^ 5 * 2 ^ 5 + value % 2 ^ 5 };
          }),
        )
        ∷ (
          Address.frm,
          some (λ h. record h {
            csrs = record h.csrs {
              fcsr = h.csrs.fcsr / 2 ^ 8 * 2 ^ 8 + value % 2 ^ 3 * 2 ^ 5 + h.csrs.fcsr % 2 ^ 5;
            };
          }),
        )
        ∷ [])
      none

abbrev pub is_ignored : ℕ → Bool
is_ignored addr =
    is_hpm_counter addr
    || ((addr == Address.misa)
        || (addr == Address.tselect)
        || ((addr == Address.tdata1)
            || ((addr == Address.tdata2)
                || ((addr == Address.tdata3)
                    || ((addr == Address.dcsr)
                        || ((addr == Address.dpc)
                            || ((addr == Address.dscratch0) || ((addr == Address.dscratch1)))))))))

unfoldable pub set_csr_value : {M : Type 0} → ℕ → ℕ → Exec M (Unit {0})
set_csr_value addr value =
    if is_ignored addr
    then pure tt
    else if addr == Address.satp
    then write_satp value
    else elim (masked_csr addr value) [ none ↦ write_default addr value | some f ↦ modify f ]
