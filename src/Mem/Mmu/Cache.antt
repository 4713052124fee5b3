-- ===== src/Mem/Mmu/Cache.antt =====
-- The translation cache answers as the page-table walks do (`GenericMMU` of
-- vp/src/core/common/mmu.h).
use riscv_vp.Base.{
  ℕ, ◌+◌, ◌-◌, ◌*◌, ◌/◌, ◌%◌, ◌^◌, ◌<◌, ◌≡◌, ◌⊎◌, inl, inr, refl, sym, subst, true, ◌&&◌, leb, ◌==◌,
  ==_iff, Bool-cases, Option, some, bit_or, or-disjoint, and-field, arith,
}
use riscv_vp.Iss.State.{supervisor_mode}
use riscv_vp.Iss.Hart.{Result, ok, trap, failed}
use riscv_vp.Iss.Exec.{Machine, ◌>>=◌}
use riscv_vp.Mem.State.{AccessType, fetch, load, store, Tlb, Memory}
use riscv_vp.Mem.Mmu.{
  pgshift, MmuPorts, walk, refill, remember, translate_in, flush_tlb, tlb_index, joined, page_of,
  same_type, set_entry,
}

-- The address of the page of each virtual page, for a mode and a kind of access.
abbrev pub Pages : Type 0
Pages = ℕ → AccessType → ℕ → Option ℕ

-- In the states of `Space`, which have the same page tables, every walk that ends with an address
-- answers by `pages`. Walks leave the cache alone, time leaves the page tables alone, and pages lie
-- below 2 ^ 32.
pub record Agrees {P : Type 0} (ports : MmuPorts P) (Space : Machine (Memory P) → Type 0)
    (pages : Pages) : Type 0 where
  pub answers :
      (vaddr mode paddr : ℕ) (type : AccessType) (s : Machine (Memory P))
      → Space s
      → (walk ports vaddr type mode s).0 ≡ ok paddr
      → (page : ℕ) × (pages mode type (vaddr / 2 ^ pgshift) ≡ some page)
        × (paddr ≡ page + vaddr % 2 ^ pgshift)
  pub keeps :
      (vaddr mode : ℕ) (type : AccessType) (s : Machine (Memory P))
      → Space s
      → (walk ports vaddr type mode s).1.memory.tlb ≡ s.memory.tlb
  pub timed :
      (n : ℕ) (s : Machine (Memory P))
      → Space s
      → Space (record s { memory = record s.memory { shared = ports.inc n s.memory.shared } })
  pub low :
      (mode vpn page : ℕ) (type : AccessType)
      → pages mode type vpn ≡ some page
      → (page % 2 ^ pgshift ≡ 0) × (page < 2 ^ 32)

-- An entry is empty, which no virtual page matches, or has the page.
abbrev pub Holds : Pages → Tlb → Type 0
Holds pages tlb =
    (mode idx : ℕ) (type : AccessType)
    → let e = tlb mode type idx in (e.vpn ≡ 2 ^ 64 - 1) ⊎ (pages mode type e.vpn ≡ some e.ppn)

pub flush_tlb-Holds : {P : Type 0} (pages : Pages) (m : Memory P) → Holds pages (flush_tlb m).tlb
unfolding flush_tlb
flush_tlb-Holds pages m mode idx type = inl refl

same_type-eq : (t u : AccessType) → same_type t u ≡ true → t ≡ u
unfolding same_type
same_type-eq fetch fetch e = refl
same_type-eq load load e = refl
same_type-eq store store e = refl
same_type-eq fetch load e = cc
same_type-eq fetch store e = cc
same_type-eq load fetch e = cc
same_type-eq load store e = cc
same_type-eq store fetch e = cc
same_type-eq store load e = cc

page_of-page :
    (page offset : ℕ)
    → page % 2 ^ 12 ≡ 0
    → page < 2 ^ 32
    → offset < 2 ^ 12
    → page_of (page + offset) ≡ page
page_of-page page offset h k l = omega (arith, and-field 12 20 (page + offset))

joined-page : (page vaddr : ℕ) → page % 2 ^ 12 ≡ 0 → joined page vaddr ≡ page + vaddr % 2 ^ 12
joined-page page vaddr h =
    let e : page / 2 ^ 12 * 2 ^ 12 ≡ page = omega arith in
    subst (λ x. bit_or x (vaddr % 2 ^ 12) ≡ x + vaddr % 2 ^ 12) e
      (or-disjoint 12 (page / 2 ^ 12) (vaddr % 2 ^ 12) (omega arith))

set_entry-Holds :
    (pages : Pages) (tlb : Tlb) (mode vpn page : ℕ) (type : AccessType)
    → pages mode type vpn ≡ some page
    → Holds pages tlb
    → Holds pages (set_entry mode type (tlb_index vpn) (record { ppn = page; vpn = vpn }) tlb)
set_entry-Holds pages tlb mode vpn page type e h m i t =
    elim (Bool-cases ((m == mode) && (same_type t type && (i == tlb_index vpn)))) [
      | inl c ↦
          let p : m ≡ mode = ground arith in
          let q : same_type t type ≡ true = ground arith in rw (c, p, same_type-eq t type q) (inr e)
      | inr c ↦ rw c (h m i t)
    ]

-- An address that came out is that of the page, with the offset.
abbrev pub Found : Pages → ℕ → AccessType → ℕ → Result ℕ → Type 0
Found pages mode type vaddr (ok paddr) =
    (page : ℕ) × (pages mode type (vaddr / 2 ^ pgshift) ≡ some page)
    × (paddr ≡ page + vaddr % 2 ^ pgshift)
Found pages mode type vaddr (trap e) = Unit
Found pages mode type vaddr failed = Unit

of_answers :
    (pages : Pages) (mode vaddr : ℕ) (type : AccessType) (r : Result ℕ)
    → ((paddr : ℕ) → r ≡ ok paddr → Found pages mode type vaddr (ok paddr))
    → Found pages mode type vaddr r
of_answers pages mode vaddr type (ok paddr) h = h paddr refl
of_answers pages mode vaddr type (trap e) h = tt
of_answers pages mode vaddr type failed h = tt

abbrev pub Good : {P : Type 0} → Pages → ℕ → AccessType → ℕ → Result ℕ × Machine (Memory P) → Type 0
Good pages mode type vaddr (r, s) = Holds pages s.memory.tlb × Found pages mode type vaddr r

module _ {P : Type 0} (ports : MmuPorts P) (Space : Machine (Memory P) → Type 0) (pages : Pages)
    (a : Agrees ports Space pages) (mode vaddr : ℕ) (type : AccessType) where
  remembered-Good :
      (w : Result ℕ × Machine (Memory P))
      → Good pages mode type vaddr w
      → Good pages mode type vaddr (((λ _. w) >>= remember ports mode vaddr type) w.1)
  unfolding ◌>>=◌ remember
  remembered-Good (ok paddr, s) (h, (page, e, q)) =
      let l = a.low mode (vaddr / 2 ^ pgshift) page type e in
      let o : page_of paddr ≡ page =
        rw q (page_of-page page (vaddr % 2 ^ pgshift) l.0 l.1 (omega arith)) in
      (
        subst
            (λ x. Holds pages (
              set_entry mode type (tlb_index (vaddr / 2 ^ pgshift))
                (record { ppn = x; vpn = vaddr / 2 ^ pgshift }) s.memory.tlb))
            (sym o) (set_entry-Holds pages s.memory.tlb mode (vaddr / 2 ^ pgshift) page type e h),
        (page, e, q),
      )
  remembered-Good (trap e, s) (h, k) = (h, k)
  remembered-Good (failed, s) (h, k) = (h, k)

  refill-Good :
      (s : Machine (Memory P))
      → Space s
      → Holds pages s.memory.tlb
      → Good pages mode type vaddr (refill ports mode vaddr type s)
  unfolding refill ◌>>=◌
  refill-Good s z h = remembered-Good (walk ports vaddr type mode s) (
    subst (Holds pages) (sym (a.keeps vaddr mode type s z)) h,
    of_answers pages mode vaddr type _ (λ p e. a.answers vaddr mode p type s z e),
  )

  -- In a state with the page tables by which the cache holds the pages, a translation in user or
  -- supervisor mode leaves it so, and an address that it gives is that of the page by which the
  -- walks answer, with the offset in the page, whether it comes from the cache or from a walk,
  -- provided that the address has 64 bits, that all pages lie below 2 ^ 32 (Sv32 has physical addresses of 34 bits), that walks leave
  -- the cache alone, and that the passing of time leaves the page tables alone.
  pub translate_in-Good :
      (s : Machine (Memory P))
      → vaddr < 2 ^ 64
      → Space s
      → Holds pages s.memory.tlb
      → Good pages mode type vaddr (translate_in ports mode vaddr type s)
  unfolding translate_in ◌>>=◌
  translate_in-Good s v z h =
      let vpn = vaddr / 2 ^ pgshift in
      let x = s.memory.tlb mode type (tlb_index vpn) in
      elim (Bool-cases (leb mode supervisor_mode)) [
        | inr l ↦ rw l (h, tt)
        | inl l ↦ elim (Bool-cases (x.vpn == vpn)) [
          | inr e ↦ rw (l, e) (refill-Good _ (a.timed 3 s z) h)
          | inl e ↦ elim (h mode (tlb_index vpn) type) [
            | inl f ↦ absurd (ground arith)
            | inr f ↦
                rw (l, e)
                  (
                    h,
                    (
                      x.ppn,
                      subst (λ y. pages mode type y ≡ some x.ppn) ((==_iff _ _).0 e) f,
                      joined-page x.ppn vaddr (a.low mode x.vpn x.ppn type f).0,
                    ),
                  )
          ]
        ]
      ]
