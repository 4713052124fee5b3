-- ===== src/Mem/Mmu/Walk.antt =====
-- What a page-table walk answers (`GenericMMU::walk` of vp/src/core/common/mmu.h), against the
-- rules for entries of page tables.
use riscv_vp.Base.{
  ℕ, zero, suc, ◌*◌, ◌/◌, ◌%◌, ◌^◌, ◌≤◌, ◌<◌, ap, subst, ◌≡◌, ◌≢◌, ◌⊎◌, inl, inr, refl, sym, ◌∙◌,
  Bool, true, false, leb, ◌==◌, ==_iff, Bool-cases, some, bit_and, arith,
}
use riscv_vp.Iss.State.{supervisor_mode}
use riscv_vp.Iss.Hart.{Hart, Result, ok, trap, failed}
use riscv_vp.Iss.Exec.{Machine, Exec, pure, raise, ◌>>=◌}
use riscv_vp.Mem.State.{AccessType, Memory}
use riscv_vp.Mem.Mmu.{
  pgshift, VmInfo, Verdict, pointer, leaf, refused, Rights, judge, ad_flags, pte_paddr, leaf_paddr,
  page_fault, MmuPorts, load_pte, no_translation, take_leaf, follow, walk_from, walk,
  decode_vm_info, check_vaddr_extension,
}
use riscv_vp.Mem.Mmu.Rules.{
  IsPointer, IsLeaf, judge-IsPointer, judge-IsLeaf, IsPointer-judge, IsLeaf-judge,
}

-- In the states of `Space`, the loads of the entries for `vaddr` in the tables at the bases of `Base`
-- find `entry` and stay in `Space`, and the stores of their flags succeed; the tables to which those
-- entries point are at such bases, too.
pub record Tables {P : Type 0} (ports : MmuPorts P) (vm : VmInfo) (vaddr : ℕ) (entry : ℕ → ℕ)
    (Space : Machine (Memory P) → Type 0) (Base : ℕ → Type 0) : Type 0 where
  pub load_entry :
      (i base : ℕ) (s : Machine (Memory P))
      → i < vm.levels
      → Base base
      → Space s
      → (load_pte ports vm (pte_paddr vm vaddr i base) s).0 ≡ ok (entry (pte_paddr vm vaddr i base))
  pub stays :
      (i base : ℕ) (s : Machine (Memory P))
      → i < vm.levels
      → Base base
      → Space s
      → Space (load_pte ports vm (pte_paddr vm vaddr i base) s).1
  pub next_base :
      (i base : ℕ)
      → i < vm.levels
      → Base base
      → IsPointer (entry (pte_paddr vm vaddr i base))
      → Base (entry (pte_paddr vm vaddr i base) / 2 ^ 10 * 2 ^ pgshift % 2 ^ 64)
  pub store_entry :
      (i base v : ℕ) (s : Machine (Memory P))
      → i < vm.levels
      → Base base
      → Space s
      → (ports.mmu_store_pte32 (pte_paddr vm vaddr i base) v s).0 ≡ ok tt

module _ (page_fault_on_ad : Bool) (r : Rights) (vm : VmInfo) (vaddr : ℕ) (entry : ℕ → ℕ) where
  -- The tables from `base` on, `levels` deep, map `vaddr` to `paddr` for the access. Where the
  -- software sets the flags A and D, they are set.
  abbrev pub Maps : ℕ → ℕ → ℕ → Type 0
  Maps zero base paddr = ⊥
  Maps (suc i) base paddr =
      let pte = entry (pte_paddr vm vaddr i base) in
      (IsPointer pte × Maps i (pte / 2 ^ 10 * 2 ^ pgshift % 2 ^ 64) paddr)
      ⊎ (IsLeaf r (i * vm.idxbits) pte
          × ((page_fault_on_ad ≡ false) ⊎ (bit_and pte (ad_flags r.type) ≡ ad_flags r.type))
          × (paddr ≡ leaf_paddr vaddr (i * vm.idxbits) pte))

-- The walk has the physical address that the tables give, or the page fault if they give none.
abbrev pub Answers : AccessType → ℕ → (ℕ → Type 0) → Result ℕ → Type 0
Answers type vaddr Mapped r =
    ((paddr : ℕ) × Mapped paddr × (r ≡ ok paddr))
    ⊎ (((paddr : ℕ) → ¬ Mapped paddr)
        × (r ≡ trap (record { reason = page_fault type; mtval = vaddr })))

apart : {v w x : Verdict} → v ≡ w → v ≡ x → w ≢ x → ⊥
apart p q n = n (sym p ∙ q)

Answers-map :
    (type : AccessType) (vaddr : ℕ) (m n : ℕ → Type 0) (r : Result ℕ)
    → ((paddr : ℕ) → m paddr → n paddr)
    → ((paddr : ℕ) → n paddr → m paddr)
    → Answers type vaddr m r
    → Answers type vaddr n r
Answers-map type vaddr m n r f g (inl (p, h, e)) = inl (p, f p h, e)
Answers-map type vaddr m n r f g (inr (h, e)) = inr (λ p k. h p (g p k), e)

-- What follows a load is done in the state that it leaves.
ok_inj : {A : Type 0} {x y : A} → ◌≡◌ {A = Result A} (ok x) (ok y) → x ≡ y
ok_inj e = cc

pure_result : {M A : Type 0} (a : A) (s : Machine M) → (pure a s).0 ≡ ok a
unfolding pure
pure_result a s = refl

after_load :
    {M A B : Type 0} (w : Result A × Machine M) (a : A) (f : A → Exec M B)
    → w.0 ≡ ok a
    → ((λ _. w) >>= f) w.1 ≡ f a w.1
unfolding ◌>>=◌
after_load (ok b, s) a f e = let q : b ≡ a = ok_inj e in ap (λ x. f x s) q
after_load (trap t, s) a f e = cc
after_load (failed, s) a f e = cc

ok_then :
    {M A B : Type 0} (w : Result A × Machine M) (a : A) (b : B)
    → w.0 ≡ ok a
    → (((λ _. w) >>= λ _. pure b) w.1).0 ≡ ok b
ok_then w a b e = ap (λ x. x.0) (after_load w a (λ _. pure b) e) ∙ pure_result b w.1

module _ {P : Type 0} (ports : MmuPorts P) (r : Rights) (vm : VmInfo) (vaddr : ℕ) (entry : ℕ → ℕ)
    (Space : Machine (Memory P) → Type 0) (Base : ℕ → Type 0)
    (t : Tables ports vm vaddr entry Space Base) where
  abbrev Mapped : ℕ → ℕ → ℕ → Type 0
  Mapped levels base = Maps ports.page_fault_on_ad r vm vaddr entry levels base

  -- What a leaf gives, apart from the rights to it.
  abbrev Landed : ℕ → ℕ → ℕ → Type 0
  Landed k pte paddr =
      ((ports.page_fault_on_ad ≡ false) ⊎ (bit_and pte (ad_flags r.type) ≡ ad_flags r.type))
      × (paddr ≡ leaf_paddr vaddr k pte)

  take_leaf-Answers :
      (k a pte : ℕ) (s : Machine (Memory P))
      → ((v : ℕ) → (ports.mmu_store_pte32 a v s).0 ≡ ok tt)
      → Answers r.type vaddr (Landed k pte) (take_leaf ports r.type vaddr k a pte s).0
  unfolding take_leaf no_translation ◌>>=◌
  take_leaf-Answers k a pte s m =
      elim (Bool-cases (bit_and pte (ad_flags r.type) == ad_flags r.type)) [
        | inl e ↦ rw e (inl (leaf_paddr vaddr k pte, (inr ((==_iff _ _).0 e), refl), refl))
        | inr e ↦ elim (Bool-cases ports.page_fault_on_ad) [
          | inl f ↦ rw (e, f) (inr (λ p h. ground arith, refl))
          | inr f ↦
              rw (e, f)
                (inl (
                  leaf_paddr vaddr k pte,
                  (inl refl, refl),
                  ok_then (ports.mmu_store_pte32 a _ s) tt _ (m _),
                ))
        ]
      ]

  followed-Answers :
      (i base : ℕ) (s : Machine (Memory P)) (v : Verdict)
      → i < vm.levels
      → Base base
      → Space s
      → let pte = entry (pte_paddr vm vaddr i base) in
        judge r (i * vm.idxbits) pte ≡ v
        → (Base (pte / 2 ^ 10 * 2 ^ pgshift % 2 ^ 64)
            → Answers r.type vaddr
                (Mapped i (pte / 2 ^ 10 * 2 ^ pgshift % 2 ^ 64))
                (walk_from ports r vm vaddr i (pte / 2 ^ 10 * 2 ^ pgshift % 2 ^ 64) s).0)
        → Answers r.type vaddr
            (Mapped (suc i) base)
            (follow ports v
              (walk_from ports r vm vaddr i (pte / 2 ^ 10 * 2 ^ pgshift % 2 ^ 64))
              (take_leaf ports r.type vaddr (i * vm.idxbits) (pte_paddr vm vaddr i base) pte)
              (no_translation ports r.type vaddr)
              s).0
  unfolding follow no_translation raise
  followed-Answers i base s pointer l b z e h =
      let pte = entry (pte_paddr vm vaddr i base) in
      let k = i * vm.idxbits in
      Answers-map r.type vaddr _ (Mapped (suc i) base) _ (λ p m. inl (IsPointer-judge r k pte e, m))
        (λ p z. elim z [
          | inl (q, m) ↦ m
          | inr (q, m, n) ↦ absurd (apart (judge-IsLeaf r k pte q) e (λ z. cc))
        ])
        (h (t.next_base i base l b (IsPointer-judge r k pte e)))
  followed-Answers i base s leaf l b z e h =
      let pte = entry (pte_paddr vm vaddr i base) in
      let k = i * vm.idxbits in
      Answers-map r.type vaddr _ (Mapped (suc i) base) _
        (λ p m. inr (IsLeaf-judge r k pte e, m.0, m.1))
        (λ p z. elim z [
          | inl (q, m) ↦ absurd (apart (judge-IsPointer r k pte q) e (λ z. cc))
          | inr (q, m, n) ↦ (m, n)
        ])
        (take_leaf-Answers k (pte_paddr vm vaddr i base) pte s
          (λ v. t.store_entry i base v s l b z))
  followed-Answers i base s refused l b z e h =
      let pte = entry (pte_paddr vm vaddr i base) in
      let k = i * vm.idxbits in
      inr (
        λ p z. elim z [
          | inl (q, m) ↦ absurd (apart (judge-IsPointer r k pte q) e (λ z. cc))
          | inr (q, m, n) ↦ absurd (apart (judge-IsLeaf r k pte q) e (λ z. cc))
        ],
        refl,
      )

  pub walk_from-Answers :
      (levels base : ℕ) (s : Machine (Memory P))
      → levels ≤ vm.levels
      → Base base
      → Space s
      → Answers r.type vaddr
          (Maps ports.page_fault_on_ad r vm vaddr entry levels base)
          (walk_from ports r vm vaddr levels base s).0
  unfolding walk_from no_translation ◌>>=◌
  walk_from-Answers zero base s l b z = inr (λ p m. m, refl)
  walk_from-Answers (suc i) base s l b z =
      let a = pte_paddr vm vaddr i base in
      let w = load_pte ports vm a s in
      let u = t.stays i base s (omega arith) b z in
      let h = followed-Answers i base w.1 _ (omega arith) b u refl (λ c.
        walk_from-Answers i (entry a / 2 ^ 10 * 2 ^ pgshift % 2 ^ 64) w.1 (omega arith) c u) in
      subst (λ x. Answers r.type vaddr (Mapped (suc i) base) x.0)
        (sym (after_load w (entry a) _ (t.load_entry i base s (omega arith) b z))) h

-- What `walk` reads of the hart.
abbrev pub rights_of : Hart → AccessType → ℕ → Rights
rights_of h type mode = record {
  s_mode = mode == supervisor_mode;
  sum = h.iss.mstatus.sum;
  mxr = h.iss.mstatus.mxr;
  type = type;
}

-- The page tables of a hart map `vaddr` to `paddr` for an access; a non-canonical address is not
-- mapped.
abbrev pub Translates :
    {P : Type 0} → MmuPorts P → Hart → VmInfo → (ℕ → ℕ) → AccessType → ℕ → ℕ → ℕ → Type 0
Translates ports h vm entry type mode vaddr paddr =
    (check_vaddr_extension ports.xlen vaddr vm ≡ true)
    × Maps ports.page_fault_on_ad (rights_of h type mode) vm vaddr entry vm.levels vm.ptbase paddr

module _ {P : Type 0} (ports : MmuPorts P) where
  pub walk-Answers :
      (vm : VmInfo) (entry : ℕ → ℕ) (Space : Machine (Memory P) → Type 0) (Base : ℕ → Type 0)
      (type : AccessType) (mode vaddr : ℕ) (t : Tables ports vm vaddr entry Space Base)
      (s : Machine (Memory P))
      → Space s
      → Base vm.ptbase
      → mode ≤ supervisor_mode
      → decode_vm_info (ports.satp_mode s.hart) (ports.satp_ppn s.hart) ≡ some vm
      → Answers type vaddr
          (Translates ports s.hart vm entry type mode vaddr)
          (walk ports vaddr type mode s).0
  unfolding walk ◌>>=◌
  walk-Answers vm entry Space Base type mode vaddr t s z b h d =
      let low : leb mode supervisor_mode ≡ true = ground arith in
      rw (low, d)
        (elim (Bool-cases (check_vaddr_extension ports.xlen vaddr vm)) [
          | inl c ↦ rw c (
              Answers-map type vaddr _ _ _ (λ p m. (refl, m)) (λ p m. m.1)
                (walk_from-Answers ports (rights_of s.hart type mode) vm vaddr entry Space Base t
                  vm.levels vm.ptbase s (omega arith) b z))
          | inr c ↦ rw c (
              Answers-map type vaddr _ _ _ (λ p m. absurd m) (λ p m. absurd (ground arith))
                (walk_from-Answers ports (rights_of s.hart type mode) vm vaddr entry Space Base t 0
                  vm.ptbase s (omega arith) b z))
        ])
