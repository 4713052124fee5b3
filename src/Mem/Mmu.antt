-- ===== src/Mem/Mmu.antt =====
-- The memory management unit: page-table walk and translation cache (`GenericMMU` of
-- vp/src/core/common/mmu.h). Addresses are of 64 bits.
pub mod Rules
pub mod Walk
pub mod Cache
use riscv_vp.Base.{
  ℕ, zero, suc, ◌+◌, ◌-◌, ◌*◌, ◌/◌, ◌%◌, ◌^◌, Bool, true, false, ◌&&◌, ◌||◌, not, leb, ◌==◌,
  if◌then◌else◌, switch, Option, none, some, List, [], ◌∷◌, bit_and, bit_or,
}
use riscv_vp.Iss.State.{machine_mode, supervisor_mode}
use riscv_vp.Iss.Hart.{Hart}
use riscv_vp.Iss.Exec.{
  Machine, Exec, pure, raise, fail, gets, consult, or_fail, require, ◌>>=◌, ◌>>◌,
}
use riscv_vp.Mem.State.{AccessType, fetch, load, store, TlbEntry, Tlb, Shared, Memory}

-- A flag of `pte_t`, by its place.
abbrev pub pte_flag : ℕ → ℕ → Bool
pte_flag place pte = not (bit_and pte (2 ^ place) == 0)

abbrev pub pte_v : ℕ → Bool
pte_v pte = pte_flag 0 pte

abbrev pub pte_r : ℕ → Bool
pte_r pte = pte_flag 1 pte

abbrev pub pte_w : ℕ → Bool
pte_w pte = pte_flag 2 pte

abbrev pub pte_x : ℕ → Bool
pte_x pte = pte_flag 3 pte

abbrev pub pte_u : ℕ → Bool
pte_u pte = pte_flag 4 pte

abbrev pub pgshift : ℕ
pgshift = 12

pub record VmInfo : Type 0 where
  pub levels : ℕ
  pub idxbits : ℕ
  pub ptesize : ℕ
  pub ptbase : ℕ

-- By `satp.mode`; an unknown one throws.
unfoldable pub decode_vm_info : ℕ → ℕ → Option VmInfo
decode_vm_info mode ppn =
    let vm : ℕ → ℕ → ℕ → VmInfo =
      λ n b z. record { levels = n; idxbits = b; ptesize = z; ptbase = ppn * 2 ^ pgshift } in
    switch mode
      ((1, some (vm 2 10 4))
        ∷ (8, some (vm 3 9 8))
        ∷ (9, some (vm 4 9 8))
        ∷ (10, some (vm 5 9 8))
        ∷ (11, some (vm 6 9 8))
        ∷ [])
      none

-- `xlen` is above the highest bit for all modes but 11, which no hart offers.
unfoldable pub check_vaddr_extension : ℕ → ℕ → VmInfo → Bool
check_vaddr_extension xlen vaddr vm =
    let highbit = vm.idxbits * vm.levels + pgshift - 1 in
    let ext_bits = xlen - highbit in
    let bits = vaddr / 2 ^ highbit % 2 ^ ext_bits in (bits == 0) || (bits == 2 ^ ext_bits - 1)

-- What the loop of `walk` does about an entry: it follows it, ends with it, or leaves the loop.
pub data Verdict : Type 0 where
  pointer leaf refused : Verdict

unfoldable pub denies_access : AccessType → Bool → ℕ → Bool
denies_access fetch mxr pte = not (pte_x pte)
denies_access load mxr pte = not (pte_r pte) && not (mxr && pte_x pte)
denies_access store mxr pte = not (pte_r pte && pte_w pte)

abbrev pub is_fetch : AccessType → Bool
is_fetch fetch = true
is_fetch _ = false

unfoldable pub denies_mode : Bool → Bool → AccessType → ℕ → Bool
denies_mode s_mode sum type pte =
    if pte_u pte then s_mode && (is_fetch type || not sum) else not s_mode

-- What `walk` reads from the hart and the entry's level.
pub record Rights : Type 0 where
  pub s_mode : Bool
  pub sum : Bool
  pub mxr : Bool
  pub type : AccessType

unfoldable pub judge : Rights → ℕ → ℕ → Verdict
judge r ptshift pte =
    if not (pte_v pte) || not (pte_r pte) && pte_w pte
    then refused
    else if not (pte_r pte) && not (pte_x pte)
    then pointer
    else if denies_access r.type r.mxr pte
    then refused
    else if denies_mode r.s_mode r.sum r.type pte
    then refused
    else if not (pte / 2 ^ 10 % 2 ^ ptshift == 0)
    then refused
    else leaf

-- The flags A and, for a store, D.
unfoldable pub ad_flags : AccessType → ℕ
ad_flags store = 2 ^ 6 + 2 ^ 7
ad_flags _ = 2 ^ 6

-- The address of the entry for `vaddr` in the table at `base`.
unfoldable pub pte_paddr : VmInfo → ℕ → ℕ → ℕ → ℕ
pte_paddr vm vaddr i base =
    (base + vaddr / 2 ^ (pgshift + i * vm.idxbits) % 2 ^ vm.idxbits * vm.ptesize) % 2 ^ 64

-- The physical address under a leaf at a level.
unfoldable pub leaf_paddr : ℕ → ℕ → ℕ → ℕ
leaf_paddr vaddr ptshift pte =
    let ppn = pte / 2 ^ 10 in
    let vpn = vaddr / 2 ^ pgshift in
    (ppn / 2 ^ ptshift * 2 ^ ptshift + vpn % 2 ^ ptshift) * 2 ^ pgshift % 2 ^ 64
    + vaddr % 2 ^ pgshift

-- `EXC_INSTR_PAGE_FAULT`, `EXC_LOAD_PAGE_FAULT`, `EXC_STORE_AMO_PAGE_FAULT`.
unfoldable pub page_fault : AccessType → ℕ
page_fault fetch = 12
page_fault load = 13
page_fault store = 15

unfoldable pub flush_tlb : {P : Type 0} → Memory P → Memory P
flush_tlb m = record m { tlb = λ mode type idx. record { ppn = 2 ^ 64 - 1; vpn = 2 ^ 64 - 1 } }

abbrev pub tlb_index : ℕ → ℕ
tlb_index vpn = vpn % 256

-- `x.ppn | (vaddr & PGMASK)`
abbrev pub joined : ℕ → ℕ → ℕ
joined ppn vaddr = bit_or ppn (vaddr % 2 ^ pgshift)

-- `PGMASK` is an `unsigned`, so `~PGMASK` has no bit above bit 31.
abbrev pub page_of : ℕ → ℕ
page_of paddr = bit_and paddr (2 ^ 32 - 2 ^ pgshift)

unfoldable pub same_type : AccessType → AccessType → Bool
same_type fetch fetch = true
same_type load load = true
same_type store store = true
same_type _ _ = false

abbrev pub set_entry : ℕ → AccessType → ℕ → TlbEntry → Tlb → Tlb
set_entry mode type idx e tlb m t i =
    if (m == mode) && (same_type t type && (i == idx)) then e else tlb m t i

-- `mmu_memory_if`, the time, and the constants of a kind of hart.
pub record MmuPorts (P : Type 0) : Type 0 where
  pub mmu_load_pte32 : ℕ → Exec (Memory P) ℕ
  pub mmu_load_pte64 : ℕ → Exec (Memory P) ℕ
  pub mmu_store_pte32 : ℕ → ℕ → Exec (Memory P) (Unit {0})
  pub inc : ℕ → Shared P → Shared P
  pub page_fault_on_ad : Bool
  pub xlen : ℕ
  pub satp_mode : Hart → ℕ
  pub satp_ppn : Hart → ℕ

module _ {P : Type 0} (ports : MmuPorts P) where
  unfoldable pub load_pte : VmInfo → ℕ → Exec (Memory P) ℕ
  load_pte vm a = if vm.ptesize == 4 then ports.mmu_load_pte32 a else ports.mmu_load_pte64 a

  unfoldable pub no_translation : AccessType → ℕ → Exec (Memory P) ℕ
  no_translation type vaddr = raise (page_fault type) vaddr

  -- The end of the loop's body, at a leaf.
  unfoldable pub take_leaf : AccessType → ℕ → ℕ → ℕ → ℕ → Exec (Memory P) ℕ
  take_leaf type vaddr ptshift a pte =
      let ad = ad_flags type in
      if bit_and pte ad == ad
      then pure (leaf_paddr vaddr ptshift pte)
      else if ports.page_fault_on_ad
      then no_translation type vaddr
      else do ports.mmu_store_pte32 a (bit_or pte ad % 2 ^ 32); pure (leaf_paddr vaddr ptshift pte)

  unfoldable pub follow :
      Verdict → Exec (Memory P) ℕ → Exec (Memory P) ℕ → Exec (Memory P) ℕ → Exec (Memory P) ℕ
  follow pointer next here nowhere = next
  follow leaf next here nowhere = here
  follow refused next here nowhere = nowhere

  -- The loop, with `levels` rounds to go.
  unfoldable pub walk_from : Rights → VmInfo → ℕ → ℕ → ℕ → Exec (Memory P) ℕ
  walk_from r vm vaddr zero base = no_translation r.type vaddr
  walk_from r vm vaddr (suc i) base = do
    pte ← load_pte vm (pte_paddr vm vaddr i base)
    let ptshift = i * vm.idxbits
    let next = pte / 2 ^ 10 * 2 ^ pgshift % 2 ^ 64
    follow (judge r ptshift pte) (walk_from r vm vaddr i next)
        (take_leaf r.type vaddr ptshift (pte_paddr vm vaddr i base) pte)
        (no_translation r.type vaddr)

  -- A non-canonical address has no level to look at.
  abbrev start_level : ℕ → VmInfo → ℕ
  start_level vaddr vm = if check_vaddr_extension ports.xlen vaddr vm then vm.levels else 0

  unfoldable pub walk : ℕ → AccessType → ℕ → Exec (Memory P) ℕ
  walk vaddr type mode = do
    status ← gets (λ h. h.iss.mstatus)
    require (leb mode supervisor_mode)
    found ← gets (λ h. decode_vm_info (ports.satp_mode h) (ports.satp_ppn h))
    vm ← or_fail found
    let r : Rights = record {
      s_mode = mode == supervisor_mode;
      sum = status.sum;
      mxr = status.mxr;
      type = type;
    }
    walk_from r vm vaddr (start_level vaddr vm) vm.ptbase

  unfoldable pub remember : ℕ → ℕ → AccessType → ℕ → Exec (Memory P) ℕ
  remember mode vaddr type paddr = do
    let vpn = vaddr / 2 ^ pgshift
    let entry : TlbEntry = record { ppn = page_of paddr; vpn = vpn }
    consult (λ m. (tt, record m { tlb = set_entry mode type (tlb_index vpn) entry m.tlb }))
    pure paddr

  -- A walk whose result goes to the translation cache.
  unfoldable pub refill : ℕ → ℕ → AccessType → Exec (Memory P) ℕ
  refill mode vaddr type = do paddr ← walk vaddr type mode; remember mode vaddr type paddr

  -- A translation in user or supervisor mode.
  unfoldable pub translate_in : ℕ → ℕ → AccessType → Exec (Memory P) ℕ
  translate_in mode vaddr type = do
    consult (λ m. (tt, record m { shared = ports.inc 3 m.shared }))
    require (leb mode supervisor_mode)
    let vpn = vaddr / 2 ^ pgshift
    x ← consult (λ m. (m.tlb mode type (tlb_index vpn), m))
    if x.vpn == vpn then pure (joined x.ppn vaddr) else refill mode vaddr type

  -- The mode that counts for an access.
  unfoldable pub effective_mode : AccessType → Hart → ℕ
  effective_mode type h =
      if not (is_fetch type) && h.iss.mstatus.mprv then h.iss.mstatus.mpp else h.iss.prv

  unfoldable pub translate_virtual_to_physical_addr : ℕ → AccessType → Exec (Memory P) ℕ
  translate_virtual_to_physical_addr vaddr type = do
    satp_mode ← gets ports.satp_mode
    mode ← gets (effective_mode type)
    if (satp_mode == 0) || (mode == machine_mode) then pure vaddr else translate_in mode vaddr type
