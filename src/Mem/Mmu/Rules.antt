-- ===== src/Mem/Mmu/Rules.antt =====
-- Which entries of page tables are pointers and which are leaves for an access, and that `walk`
-- (vp/src/core/common/mmu.h) tells them so.
use riscv_vp.Base.{ℕ, ◌/◌, ◌%◌, ◌^◌, ◌≡◌, ◌⊎◌, ◌↔◌, Bool, true, false, arith}
use riscv_vp.Mem.State.{AccessType, fetch, load, store}
use riscv_vp.Mem.Mmu.{
  pte_v, pte_r, pte_w, pte_x, pte_u, pointer, leaf, denies_access, denies_mode, Rights, judge,
}

-- An entry that points to the next table.
abbrev pub IsPointer : ℕ → Type 0
IsPointer pte = (pte_v pte ≡ true) × (pte_r pte ≡ false) × (pte_w pte ≡ false) × (pte_x pte ≡ false)

-- A page may be fetched from, read, or written.
abbrev pub Permits : AccessType → Bool → ℕ → Type 0
Permits fetch mxr pte = pte_x pte ≡ true
Permits load mxr pte = (pte_r pte ≡ true) ⊎ ((mxr ≡ true) × (pte_x pte ≡ true))
Permits store mxr pte = (pte_r pte ≡ true) × (pte_w pte ≡ true)

-- Supervisor mode may use a page of user mode only for data and with `sum`, user mode may use no
-- other page.
abbrev pub IsOpenTo : Bool → Bool → AccessType → ℕ → Type 0
IsOpenTo true sum fetch pte = pte_u pte ≡ false
IsOpenTo true sum type pte = (pte_u pte ≡ false) ⊎ (sum ≡ true)
IsOpenTo false sum type pte = pte_u pte ≡ true

-- A page of `2 ^ ptshift` small pages to which the access is allowed.
pub record IsLeaf (r : Rights) (ptshift pte : ℕ) : Type 0 where
  pub valid : pte_v pte ≡ true
  pub known : (pte_r pte ≡ true) ⊎ ((pte_w pte ≡ false) × (pte_x pte ≡ true))
  pub permits : Permits r.type r.mxr pte
  pub is_open : IsOpenTo r.s_mode r.sum r.type pte
  pub aligned : pte / 2 ^ 10 % 2 ^ ptshift ≡ 0

access-Permits :
    (type : AccessType) (mxr : Bool) (pte : ℕ)
    → denies_access type mxr pte ≡ false ↔ Permits type mxr pte
unfolding denies_access
access-Permits fetch mxr pte = ground arith
access-Permits load mxr pte = ground arith
access-Permits store mxr pte = ground arith

mode-IsOpenTo :
    (s_mode sum : Bool) (type : AccessType) (pte : ℕ)
    → denies_mode s_mode sum type pte ≡ false ↔ IsOpenTo s_mode sum type pte
unfolding denies_mode
mode-IsOpenTo true sum fetch pte = ground arith
mode-IsOpenTo true sum load pte = ground arith
mode-IsOpenTo true sum store pte = ground arith
mode-IsOpenTo false sum type pte = ground arith

pub judge-IsPointer : (r : Rights) (k pte : ℕ) → IsPointer pte → judge r k pte ≡ pointer
unfolding judge
judge-IsPointer r k pte h = ground arith

pub judge-IsLeaf : (r : Rights) (k pte : ℕ) → IsLeaf r k pte → judge r k pte ≡ leaf
unfolding judge
judge-IsLeaf r k pte h =
    let a : denies_access r.type r.mxr pte ≡ false =
      (access-Permits r.type r.mxr pte).1 h.permits in
    let b : denies_mode r.s_mode r.sum r.type pte ≡ false =
      (mode-IsOpenTo r.s_mode r.sum r.type pte).1 h.is_open in
    ground (arith, h.valid, h.known, h.aligned)

pub IsPointer-judge : (r : Rights) (k pte : ℕ) → judge r k pte ≡ pointer → IsPointer pte
unfolding judge
IsPointer-judge r k pte e = ground arith

leaf_tests :
    (r : Rights) (k pte : ℕ)
    → judge r k pte ≡ leaf
    → (pte_v pte ≡ true)
      × ((pte_r pte ≡ true) ⊎ ((pte_w pte ≡ false) × (pte_x pte ≡ true)))
      × (denies_access r.type r.mxr pte ≡ false)
      × (denies_mode r.s_mode r.sum r.type pte ≡ false)
      × (pte / 2 ^ 10 % 2 ^ k ≡ 0)
unfolding judge
leaf_tests r k pte e = ground arith

pub IsLeaf-judge : (r : Rights) (k pte : ℕ) → judge r k pte ≡ leaf → IsLeaf r k pte
IsLeaf-judge r k pte e =
    let t = leaf_tests r k pte e in
    record {
      valid = t.0;
      known = t.1;
      permits = (access-Permits r.type r.mxr pte).0 t.2;
      is_open = (mode-IsOpenTo r.s_mode r.sum r.type pte).0 t.3;
      aligned = t.4;
    }
