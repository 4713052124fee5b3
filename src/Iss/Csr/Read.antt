-- ===== src/Iss/Csr/Read.antt =====
-- The rights to a CSR, and its value.
use riscv_vp.Base.{
  ℕ, ◌/◌, ◌^◌, Bool, ◌&&◌, ◌||◌, not, ltb, leb, ◌==◌, if◌then◌else◌, switch, Option, none, some, [],
  ◌∷◌, bit_and,
}
use riscv_vp.Iss.State.{supervisor_mode, user_mode, has_extension, isa_f, isa_s, isa_u}
use riscv_vp.Iss.Hart.{Hart, Environment}
use riscv_vp.Iss.Exec.{Exec, pure, raise, gets, consult, modify, when, ◌>>=◌, ◌>>◌}
use riscv_vp.Iss.Interrupt.Enable.{mie_mask, sie_mask, uie_mask}
use riscv_vp.Iss.Csr.Address
use riscv_vp.Iss.Csr.Address.{is_hpm_counter}
use riscv_vp.Iss.Csr.Fields.{
  mstatus_reg, mstatus_mask, sstatus_mask, ustatus_mask, mip_read_mask, sip_mask, uip_mask,
  fcsr_mask, field,
}
use riscv_vp.Iss.Csr.Table.{read32, low, high}

-- `RAISE_ILLEGAL_INSTRUCTION`: exception 2, with the instruction word as its value.
unfoldable pub illegal_instruction : {M A : Type 0} → Exec M A
illegal_instruction = do i ← gets (λ h. h.instr); raise 2 i

-- `REQUIRE_ISA`.
unfoldable pub require_isa : {M : Type 0} → ℕ → Exec M (Unit {0})
require_isa place = do
  present ← gets (λ h. has_extension h.iss.misa place)
  if present then pure tt else illegal_instruction

abbrev prv_is : ℕ → Hart → Bool
prv_is mode h = h.iss.prv == mode

-- The test of `is_invalid_csr_access`, after `REQUIRE_ISA`.
unfoldable pub lacks_access : ℕ → Bool → Hart → Bool
lacks_access csr_addr is_write h =
    let csr_prv = bit_and 0x300 csr_addr / 2 ^ 8 in
    let csr_readonly = bit_and 0xc00 csr_addr / 2 ^ 10 == 3 in
    let s_invalid = (csr_prv == supervisor_mode) && not (has_extension h.iss.misa isa_s) in
    let u_invalid = (csr_prv == user_mode) && not (has_extension h.iss.misa isa_u) in
    is_write && csr_readonly || (ltb h.iss.prv csr_prv || (s_invalid || u_invalid))

abbrev pub is_float_csr : ℕ → Bool
is_float_csr addr = (addr == Address.fflags) || ((addr == Address.frm) || (addr == Address.fcsr))

unfoldable pub is_invalid_csr_access : {M : Type 0} → ℕ → Bool → Exec M Bool
is_invalid_csr_access csr_addr is_write = do
  when (is_float_csr csr_addr) (require_isa isa_f)
  gets (lacks_access csr_addr is_write)

abbrev is_counter : ℕ → Bool
is_counter addr = leb 0xc00 addr && leb addr 0xc1f || leb 0xc80 addr && leb addr 0xc9f

-- The tests of `validate_csr_counter_read_access_rights`.
unfoldable pub counter_denied : ℕ → Hart → Bool
counter_denied addr h =
    let cnt = bit_and addr 0x1f in
    let mcounter = not (bit_and h.csrs.mcounteren (2 ^ cnt) == 0) in
    let scounter = not (bit_and h.csrs.scounteren (2 ^ cnt) == 0) in
    is_counter addr
    && ((h.iss.prv == supervisor_mode) && not mcounter
        || (h.iss.prv == user_mode) && (not mcounter || not scounter))

unfoldable pub validate_csr_counter_read_access_rights : {M : Type 0} → ℕ → Exec M (Unit {0})
validate_csr_counter_read_access_rights addr = do
  denied ← gets (counter_denied addr)
  when denied illegal_instruction

unfoldable pub pure_or_illegal : {M : Type 0} → Option ℕ → Exec M ℕ
pure_or_illegal none = illegal_instruction
pure_or_illegal (some x) = pure x

-- The end of `get_csr_value`.
unfoldable pub read_default : {M : Type 0} → ℕ → Exec M ℕ
read_default addr = do v ← gets (read32 addr); pure_or_illegal v

module _ {M : Type 0} (env : Environment M) where
  unfoldable pub read_time : (ℕ → ℕ) → Exec M ℕ
  read_time half = do
    mtime ← consult env.update_and_get_mtime
    modify (λ h. record h { csrs = record h.csrs { time = mtime } })
    pure (half mtime)

  -- The cycle counter is already counted in `cycle_time`.
  unfoldable pub read_cycle : (ℕ → ℕ) → Exec M ℕ
  read_cycle half = do
    n ← gets (λ h. h.cycle_counter)
    modify (λ h. record h { csrs = record h.csrs { cycle = n } })
    pure (half n)

  unfoldable pub read_satp : Exec M ℕ
  read_satp = do
    tvm ← gets (λ h. h.iss.mstatus.tvm)
    when tvm illegal_instruction
    read_default Address.satp

  -- The `switch` of `get_csr_value`.
  unfoldable pub read_csr : ℕ → Exec M ℕ
  read_csr addr =
      if is_hpm_counter addr
      then pure 0
      else switch addr
          ((Address.time, read_time low)
            ∷ (Address.mtime, read_time low)
            ∷ (Address.timeh, read_time high)
            ∷ (Address.mtimeh, read_time high)
            ∷ (Address.mcycle, read_cycle low)
            ∷ (Address.mcycleh, read_cycle high)
            ∷ (Address.minstret, gets (λ h. low h.csrs.instret))
            ∷ (Address.minstreth, gets (λ h. high h.csrs.instret))
            ∷ (Address.mstatus, gets (λ h. bit_and (mstatus_reg h.iss.mstatus) mstatus_mask))
            ∷ (Address.sstatus, gets (λ h. bit_and (mstatus_reg h.iss.mstatus) sstatus_mask))
            ∷ (Address.ustatus, gets (λ h. bit_and (mstatus_reg h.iss.mstatus) ustatus_mask))
            ∷ (Address.mip, gets (λ h. bit_and h.iss.mip mip_read_mask))
            ∷ (Address.sip, gets (λ h. bit_and h.iss.mip sip_mask))
            ∷ (Address.uip, gets (λ h. bit_and h.iss.mip uip_mask))
            ∷ (Address.mie, gets (λ h. bit_and h.iss.mie mie_mask))
            ∷ (Address.sie, gets (λ h. bit_and h.iss.mie sie_mask))
            ∷ (Address.uie, gets (λ h. bit_and h.iss.mie uie_mask))
            ∷ (Address.satp, read_satp)
            ∷ (Address.fcsr, gets (λ h. bit_and h.csrs.fcsr fcsr_mask))
            ∷ (Address.fflags, gets (λ h. field h.csrs.fcsr 0 5))
            ∷ (Address.frm, gets (λ h. field h.csrs.fcsr 5 3))
            ∷ (Address.tselect, pure 1)
            ∷ (Address.tdata1, pure 0)
            ∷ (Address.tdata2, pure 0)
            ∷ (Address.tdata3, pure 0)
            ∷ (Address.dcsr, pure 0)
            ∷ (Address.dpc, pure 0)
            ∷ (Address.dscratch0, pure 0)
            ∷ (Address.dscratch1, pure 0)
            ∷ [])
          (read_default addr)

  unfoldable pub get_csr_value : ℕ → Exec M ℕ
  get_csr_value addr = do validate_csr_counter_read_access_rights addr; read_csr addr
