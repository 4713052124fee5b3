-- ===== src/Base/Tests.antt =====
-- Boolean tests on the native numbers, the conditional, and the `switch` statement.
use Prim.Native.Nat.{ℕ, compare, Ordering}
use mathlib.Core.Path.{◌≡◌, refl}
use mathlib.Core.Logic.{◌↔◌, ◌⊎◌, inl, inr}
use mathlib.Core.Bool.{Bool, true, false}
use mathlib.Core.Option.{Option, none, some}
use mathlib.Core.List.{List, [], ◌∷◌}
use native.Mathlib.Omega.{arith}

abbrev pub ltb : ℕ → ℕ → Bool
ltb a b = elim (compare a b) [ Ordering.lt ↦ true | _ ↦ false ]

abbrev pub leb : ℕ → ℕ → Bool
leb a b = elim (compare a b) [ Ordering.gt ↦ false | _ ↦ true ]

infix 50 ◌==◌
abbrev pub ◌==◌ : ℕ → ℕ → Bool
a == b = elim (compare a b) [ Ordering.eq ↦ true | _ ↦ false ]

infix 1 if◌then◌else◌
abbrev pub if◌then◌else◌ {ℓ} : {A : Type ℓ} → Bool → A → A → A
if true then x else y = x
if false then x else y = y

-- `switch (x) { case k: … default: … }`, where every case ends in `return` or `break`.
unfoldable pub switch {ℓ} : {A : Type ℓ} → ℕ → List (ℕ × A) → A → A
switch x [] d = d
switch x ((k, a) ∷ cases) d = if x == k then a else switch x cases d

-- Every case that the value can take satisfies `P`.
abbrev pub AllCases {ℓ κ} : {A : Type ℓ} → (A → Type κ) → ℕ → List (ℕ × A) → Type κ
AllCases P x [] = Unit
AllCases P x ((k, a) ∷ cases) = (x ≡ k → P a) × AllCases P x cases

pub ==_iff : (a b : ℕ) → ((a == b) ≡ true) ↔ (a ≡ b)
==_iff a b = ground arith

pub Bool-cases : (b : Bool) → (b ≡ true) ⊎ (b ≡ false)
Bool-cases true = inl refl
Bool-cases false = inr refl

pub Option-cases {ℓ} : {A : Type ℓ} (o : Option A) → (o ≡ none) ⊎ ((a : A) × (o ≡ some a))
Option-cases none = inl refl
Option-cases (some a) = inr (a, refl)

pub switch-All {ℓ κ} :
    {A : Type ℓ} (P : A → Type κ) (x : ℕ) (cases : List (ℕ × A)) (d : A)
    → AllCases P x cases
    → P d
    → P (switch x cases d)
unfolding switch
switch-All P x [] d h e = e
switch-All P x ((k, a) ∷ cases) d h e = elim (Bool-cases (x == k)) [
  | inl t ↦ rw t (h.0 ((==_iff x k).0 t))
  | inr f ↦ rw f (switch-All P x cases d h.1 e)
]
