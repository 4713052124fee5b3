-- ===== src/Mem/Interface.antt =====
-- The memory interface of a hart (`CombinedMemoryInterface` of vp/src/core/rv32/mem.h).
pub mod Ram
pub mod Tables
use riscv_vp.Base.{
  ℕ, ◌+◌, ◌-◌, ◌*◌, ◌/◌, ◌%◌, ◌^◌, Bool, true, false, ◌&&◌, ◌||◌, not, ltb, leb, ◌==◌,
  if◌then◌else◌, Option, none, some, List, [], ◌∷◌,
}
use riscv_vp.Iss.Hart.{Hart, Access, Environment}
use riscv_vp.Iss.Exec.{
  Machine, Exec, pure, raise, fail, gets, consult, modify, or_fail, when, require, ◌>>=◌, ◌>>◌,
}
use riscv_vp.Mem.State.{AccessType, fetch, load, store, Shared, Memory}
use riscv_vp.Mem.Mmu.{MmuPorts, translate_virtual_to_physical_addr, flush_tlb}
use riscv_vp.Mem.Dmi.{Dmi, contains, read_bytes, write_bytes, get_mem_ptr_to_global_addr}

-- What the interface is connected to, and how it is set up. A call that may let devices or other
-- harts run also gives the pending interrupts of the hart.
pub record Bus (P : Type 0) : Type 0 where
  pub dmi_ranges : List Dmi
  pub has_mmu : Bool
  pub page_fault_on_ad : Bool
  -- `quantum_keeper.inc`, in clock cycles
  pub inc : ℕ → Shared P → Shared P
  -- `isock->b_transport` of so many bytes: an error response is `none` and `false`
  pub read : ℕ → ℕ → ℕ → Shared P → Option ℕ × ℕ × Shared P
  pub write : ℕ → ℕ → ℕ → ℕ → Shared P → Bool × ℕ × Shared P
  -- the other harts run until the one that holds the lock gives it back
  pub wait : ℕ → Shared P → ℕ × Shared P

module _ {P : Type 0} where
  on_shared : {A : Type 0} → (ℕ → Shared P → A × ℕ × Shared P) → ℕ → Memory P → (A × ℕ) × Memory P
  on_shared call mip m = let r = call mip m.shared in ((r.0, r.1), record m { shared = r.2 })

  -- A call that goes to what the harts share.
  unfoldable pub share : {A : Type 0} → (ℕ → Shared P → A × ℕ × Shared P) → Exec (Memory P) A
  unfolding on_shared
  share call = do
    mip ← gets (λ h. h.iss.mip)
    r ← consult (on_shared call mip)
    modify (λ h. record h { iss = record h.iss { mip = r.1 } })
    pure r.0

  unfoldable pub set_locked : Bool → Exec (Memory P) (Unit {0})
  set_locked b = modify (λ h. record h { iss = record h.iss { bus_locked = b } })

  unfoldable pub atomic_unlock : Exec (Memory P) (Unit {0})
  atomic_unlock = set_locked false

module _ {P : Type 0} (bus : Bus P) where
  -- `BusLock::wait_until_unlocked` comes back when nobody holds the lock.
  unfoldable pub wait_until_unlocked : Exec (Memory P) (Unit {0})
  wait_until_unlocked =
      share λ mip s. let r = bus.wait mip s in (tt, r.0, record r.1 { locked_by_other = false })

  unfoldable pub wait_for_access_rights : Exec (Memory P) (Unit {0})
  wait_for_access_rights = do
    other ← consult (λ m. (m.shared.locked_by_other, m))
    when other (wait_until_unlocked)

  -- `BusLock::lock`
  unfoldable pub lock : Exec (Memory P) (Unit {0})
  lock = do wait_for_access_rights; set_locked true

  unfoldable pub spend : ℕ → Exec (Memory P) (Unit {0})
  spend n = consult (λ m. (tt, record m { shared = bus.inc n m.shared }))

  unfoldable pub read_response : ℕ → Option ℕ → Exec (Memory P) ℕ
  read_response addr none = raise 13 addr
  read_response addr (some v) = pure v

  -- `_do_transaction` of a read and of a write.
  unfoldable pub do_read : ℕ → ℕ → Exec (Memory P) ℕ
  do_read n addr = do r ← share (bus.read n addr); read_response addr r

  unfoldable pub do_write : ℕ → ℕ → ℕ → Exec (Memory P) (Unit {0})
  do_write n addr v = do good ← share (bus.write n addr v); if good then pure tt else raise 15 addr

  unfoldable pub load_dmi : ℕ → Dmi → ℕ → Exec (Memory P) ℕ
  load_dmi n d addr = do
    spend 4
    p ← or_fail (get_mem_ptr_to_global_addr n d addr)
    consult (λ m. (read_bytes n p m.shared.ram, m))

  unfoldable pub store_dmi : ℕ → Dmi → ℕ → ℕ → Exec (Memory P) (Unit {0})
  store_dmi n d addr v = do
    spend 4
    p ← or_fail (get_mem_ptr_to_global_addr n d addr)
    consult
        λ m. (tt, record m { shared = record m.shared { ram = write_bytes n p v m.shared.ram } })

  -- The first range that contains the address, or the bus.
  unfoldable pub load_from : List Dmi → ℕ → ℕ → Exec (Memory P) ℕ
  load_from [] n addr = do_read n addr
  load_from (d ∷ ds) n addr =
      let rest = load_from ds n addr in if contains d addr then load_dmi n d addr else rest

  -- All ranges that contain the address; `done` says that there was one.
  unfoldable pub store_to : List Dmi → Bool → ℕ → ℕ → ℕ → Exec (Memory P) (Unit {0})
  store_to [] done n addr v = when (not done) (do_write n addr v)
  store_to (d ∷ ds) done n addr v =
      let here = store_to ds true n addr v in
      let rest = store_to ds done n addr v in
      if contains d addr then store_dmi n d addr v >> here else rest

  unfoldable pub raw_load_data : ℕ → ℕ → Exec (Memory P) ℕ
  raw_load_data n addr = do wait_for_access_rights; load_from bus.dmi_ranges n addr

  unfoldable pub raw_store_data : ℕ → ℕ → ℕ → Exec (Memory P) (Unit {0})
  raw_store_data n addr v = do
    wait_for_access_rights
    store_to bus.dmi_ranges false n addr v
    atomic_unlock

  -- The ports of the MMU of an RV32 hart.
  abbrev pub mmu_ports : MmuPorts P
  mmu_ports = record {
    mmu_load_pte32 = raw_load_data 4;
    mmu_load_pte64 = raw_load_data 8;
    mmu_store_pte32 = raw_store_data 4;
    inc = bus.inc;
    page_fault_on_ad = bus.page_fault_on_ad;
    xlen = 32;
    satp_mode = λ h. h.csrs.satp / 2 ^ 31;
    satp_ppn = λ h. h.csrs.satp % 2 ^ 22;
  }

  unfoldable pub v2p : ℕ → AccessType → Exec (Memory P) ℕ
  v2p vaddr type =
      if bus.has_mmu then translate_virtual_to_physical_addr mmu_ports vaddr type else pure vaddr

  unfoldable pub load_data : ℕ → ℕ → Exec (Memory P) ℕ
  load_data n addr = do p ← v2p addr load; raw_load_data n p

  unfoldable pub store_data : ℕ → ℕ → ℕ → Exec (Memory P) (Unit {0})
  store_data n addr v = do p ← v2p addr store; raw_store_data n p v

  unfoldable pub load_instr : ℕ → Exec (Memory P) ℕ
  load_instr addr = do p ← v2p addr fetch; raw_load_data 4 p

  -- `int16_t` and `int8_t` become `int32_t`.
  unfoldable pub load_signed : ℕ → ℕ → Exec (Memory P) ℕ
  load_signed n addr = do
    v ← load_data n addr
    pure (if ltb v (2 ^ (8 * n - 1)) then v else v + (2 ^ 32 - 2 ^ (8 * n)))

  unfoldable pub atomic_load_word : ℕ → Exec (Memory P) ℕ
  atomic_load_word addr = do lock; load_data 4 addr

  unfoldable pub atomic_store_word : ℕ → ℕ → Exec (Memory P) (Unit {0})
  atomic_store_word addr v = do
    held ← gets (λ h. h.iss.bus_locked)
    require held
    store_data 4 addr v

  unfoldable pub atomic_load_reserved_word : ℕ → Exec (Memory P) ℕ
  atomic_load_reserved_word addr = do
    lock
    consult (λ m. (tt, record m { lr_addr = addr }))
    load_data 4 addr

  unfoldable pub atomic_store_conditional_word : ℕ → ℕ → Exec (Memory P) Bool
  atomic_store_conditional_word addr v = do
    held ← gets (λ h. h.iss.bus_locked)
    reserved ← consult (λ m. (addr == m.lr_addr, m))
    if held && reserved
        then (do store_data 4 addr v; pure true)
        else (do when held atomic_unlock; pure false)

  -- `InstrMemoryProxy::load_instr`, of an instruction memory that is one DMI range.
  unfoldable pub proxy_load_instr : Dmi → ℕ → Exec (Memory P) ℕ
  proxy_load_instr dmi pc = do
    spend 2
    p ← or_fail (get_mem_ptr_to_global_addr 4 dmi pc)
    consult (λ m. (read_bytes 4 p m.shared.ram, m))

  -- An action as a call of the interface.
  unfoldable pub as_access :
      {A : Type 0} → Exec (Memory P) A → Hart → Memory P → Access A (Memory P)
  as_access m h memory =
      let (r, s) = m (record { hart = h; memory = memory }) in
      record {
        result = r;
        bus_locked = s.hart.iss.bus_locked;
        mip = s.hart.iss.mip;
        memory = s.memory;
      }

  -- The environment of a hart with this memory; the timer, the system calls and the quantum come
  -- from `rest`. A hart without an MMU has no `mmu` to flush.
  unfoldable pub with_memory : Environment (Memory P) → Environment (Memory P)
  with_memory rest = record rest {
    load_instr = λ addr. as_access (load_instr addr);
    load_double = λ addr. as_access (load_data 8 addr);
    load_word = λ addr. as_access (load_data 4 addr);
    load_half = λ addr. as_access (load_signed 2 addr);
    load_byte = λ addr. as_access (load_signed 1 addr);
    load_uhalf = λ addr. as_access (load_data 2 addr);
    load_ubyte = λ addr. as_access (load_data 1 addr);
    store_double = λ addr v. as_access (store_data 8 addr v);
    store_word = λ addr v. as_access (store_data 4 addr v);
    store_half = λ addr v. as_access (store_data 2 addr v);
    store_byte = λ addr v. as_access (store_data 1 addr v);
    atomic_load_word = λ addr. as_access (atomic_load_word addr);
    atomic_store_word = λ addr v. as_access (atomic_store_word addr v);
    atomic_load_reserved_word = λ addr. as_access (atomic_load_reserved_word addr);
    atomic_store_conditional_word = λ addr v. as_access (atomic_store_conditional_word addr v);
    flush_tlb = λ m. if bus.has_mmu then some (flush_tlb m) else none;
  }
