-- ===== src/Mem/Interface/Tables.antt =====
-- Page tables in the memory behind a DMI range (`mmu_load_pte32` and `mmu_store_pte32` of
-- vp/src/core/rv32/mem.h).
use riscv_vp.Base.{
  ℕ, ◌+◌, ◌-◌, ◌*◌, ◌/◌, ◌%◌, ◌^◌, ◌<◌, ◌≡◌, sym, ap, subst, ◌∙◌, true, false, ◌==◌, some,
}
use riscv_vp.Iss.Hart.{ok}
use riscv_vp.Iss.Exec.{Machine}
use riscv_vp.Mem.State.{Memory}
use riscv_vp.Mem.Mmu.{pgshift, VmInfo, pte_paddr, load_pte}
use riscv_vp.Mem.Mmu.Rules.{IsPointer}
use riscv_vp.Mem.Mmu.Walk.{Tables}
use riscv_vp.Mem.Dmi.{Dmi, read_bytes, get_mem_ptr_to_global_addr}
use riscv_vp.Mem.Interface.{Bus, mmu_ports}
use riscv_vp.Mem.Interface.Ram.{Only, Timed, raw_load, raw_load-state, raw_store}

module _ {P : Type 0} (bus : Bus P) (d : Dmi) (vm : VmInfo) (vaddr : ℕ) (ram : ℕ → ℕ) where
  -- The memory has these bytes, and no other hart holds the bus lock.
  abbrev pub Space : Machine (Memory P) → Type 0
  Space s = (s.memory.shared.ram ≡ ram) × (s.memory.shared.locked_by_other ≡ false)

  abbrev pub entry : ℕ → ℕ
  entry a = read_bytes 4 (d.mem + (a - d.start)) ram

  -- The entries for the address lie in the range, and point to tables whose entries do so too.
  pub record InRange (Base : ℕ → Type 0) : Type 0 where
    pub only :
        (i base : ℕ) → i < vm.levels → Base base → Only d (pte_paddr vm vaddr i base) bus.dmi_ranges
    pub fits :
        (i base : ℕ)
        → i < vm.levels
        → Base base
        → let a = pte_paddr vm vaddr i base in
          get_mem_ptr_to_global_addr 4 d a ≡ some (d.mem + (a - d.start))
    pub next :
        (i base : ℕ)
        → i < vm.levels
        → Base base
        → IsPointer (entry (pte_paddr vm vaddr i base))
        → Base (entry (pte_paddr vm vaddr i base) / 2 ^ 10 * 2 ^ pgshift % 2 ^ 64)

  pub InRange-Tables :
      (Base : ℕ → Type 0)
      → (vm.ptesize == 4) ≡ true
      → Timed bus
      → InRange Base
      → Tables (mmu_ports bus) vm vaddr entry Space Base
  unfolding load_pte
  InRange-Tables Base e t r = record {
    load_entry = λ i base s l b z.
        let a = pte_paddr vm vaddr i base in
        rw e (
          raw_load bus d a 4 s t (r.only i base l b) (r.fits i base l b) z.1
          ∙ ap (λ m. ok (read_bytes 4 (d.mem + (a - d.start)) m)) z.0);
    stays = λ i base s l b z.
        let a = pte_paddr vm vaddr i base in
        rw e (
          subst Space (sym (raw_load-state bus d a 4 s (r.only i base l b) (r.fits i base l b) z.1))
            (t.ram 4 s.memory.shared ∙ z.0, t.locked 4 s.memory.shared ∙ z.1));
    next_base = r.next;
    store_entry = λ i base v s l b z.
        let a = pte_paddr vm vaddr i base in
        ap (λ w. w.0) (raw_store bus d a 4 v s (r.only i base l b) (r.fits i base l b) z.1);
  }
