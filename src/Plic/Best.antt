-- ===== src/Plic/Best.antt =====
-- The best of the interrupts that may be taken, for both interrupt controllers
-- (vp/src/platform/common/fe310_plic.h, fu540_plic.cpp).
use riscv_vp.Base.{
  ◌↔◌, ℕ, ◌+◌, ◌≤◌, ◌<◌, ◌≡◌, ◌⊎◌, inl, inr, Bool, true, ◌&&◌, ltb, arith, if◌then◌else◌,
}

module _ (fits : ℕ → Bool) (priority : ℕ → ℕ) where
  -- `m` of priority `top` is the best of the interrupts from 1 to below `i`; 0 stands for none.
  pub record IsBest (i m top : ℕ) : Type 0 where
    pub chosen : ((m ≡ 0) × (top ≡ 0)) ⊎ ((1 ≤ m) × (m < i) × (fits m ≡ true) × (priority m ≡ top))
    pub highest : (j : ℕ) → 1 ≤ j → j < i → fits j ≡ true → priority j ≤ top
    pub first : (j : ℕ) → 1 ≤ j → j < i → fits j ≡ true → priority j ≡ top → m ≤ j

  pub IsBest-step :
      (i m top : ℕ)
      → 1 ≤ i
      → IsBest i m top
      → let better = fits i && ltb top (priority i) in
        IsBest (i + 1) (if better then i else m) (if better then priority i else top)
  IsBest-step i m top h b = record {
    chosen = ground (arith, b.chosen);
    highest = λ j l u c. ground (arith, b.highest j);
    first = λ j l u c e. ground (arith, b.highest j, b.first j, b.chosen);
  }

-- The same for a property of the interrupts.
pub record IsTop (Fits : ℕ → Type 0) (priority : ℕ → ℕ) (i m top : ℕ) : Type 0 where
  pub chosen : ((m ≡ 0) × (top ≡ 0)) ⊎ ((1 ≤ m) × (m < i) × Fits m × (priority m ≡ top))
  pub highest : (j : ℕ) → 1 ≤ j → j < i → Fits j → priority j ≤ top
  pub first : (j : ℕ) → 1 ≤ j → j < i → Fits j → priority j ≡ top → m ≤ j

pub IsBest-IsTop :
    (fits : ℕ → Bool) (Fits : ℕ → Type 0) (priority : ℕ → ℕ) (i m top : ℕ)
    → ((j : ℕ) → (fits j ≡ true) ↔ Fits j)
    → IsBest fits priority i m top
    → IsTop Fits priority i m top
IsBest-IsTop fits Fits priority i m top e b = record {
  chosen = elim b.chosen [ inl z ↦ inl z | inr (h, l, f, q) ↦ inr (h, l, (e m).0 f, q) ];
  highest = λ j h l f. b.highest j h l ((e j).1 f);
  first = λ j h l f q. b.first j h l ((e j).1 f) q;
}
