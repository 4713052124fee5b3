-- ===== src/Plic/Bits.antt =====
-- The bits of the arrays of the interrupt controller, after a set and after a clear.
use riscv_vp.Base.{
  ℕ, zero, suc, ◌+◌, ◌-◌, ◌*◌, ◌/◌, ◌%◌, ◌^◌, ◌≤◌, ◌<◌, ◌≡◌, ◌≢◌, inl, inr, refl, sym, ap, subst,
  ==_iff, ◌∙◌, Bool, true, ◌&&◌, ◌||◌, not, ltb, ◌==◌, bit_and, bit_or, and_comm, and-shift,
  and-ones, or-and, and_assoc, or-zero, or_digit, and-zero, arith, Bool-cases,
}
use native.Mathlib.Nat.{one-le-pow, pow-suc}
use riscv_vp.Plic.{all_but, bit_at, set_at}

abbrev holds_below : ℕ → (ℕ → Bool) → Bool
holds_below zero f = true
holds_below (suc n) f = f n && holds_below n f

holds_below-at : (n i : ℕ) (f : ℕ → Bool) → i < n → holds_below n f ≡ true → f i ≡ true
holds_below-at zero i f h e = absurd (omega arith)
holds_below-at (suc n) i f h e = elim (Bool-cases (i == n)) [
  | inl c ↦ let q : i ≡ n = ground arith in rw q (ground arith)
  | inr c ↦ holds_below-at n i f (ground arith) (ground arith)
]

abbrev mask_fits : ℕ → Bool
mask_fits o = (bit_and (all_but o) (2 ^ o) == 0) && (bit_or (all_but o) (2 ^ o) == 2 ^ 32 - 1)

masks_fit : holds_below 32 mask_fits ≡ true
masks_fit = refl

-- The word of ones has each bit.
abbrev one_fits : ℕ → Bool
one_fits i = bit_and (2 ^ 32 - 1) (2 ^ i) == 2 ^ i

ones_fit : holds_below 32 one_fits ≡ true
ones_fit = refl

ones-place : (i : ℕ) → i < 32 → bit_and (2 ^ 32 - 1) (2 ^ i) ≡ 2 ^ i
ones-place i h = (==_iff _ _).0 (holds_below-at 32 i one_fits h ones_fit)

all_but-masked :
    (o : ℕ) → o < 32 → (bit_and (all_but o) (2 ^ o) ≡ 0) × (bit_or (all_but o) (2 ^ o) ≡ 2 ^ 32 - 1)
all_but-masked o h =
    let e = holds_below-at 32 o mask_fits h masks_fit in (ground arith, ground arith)

pow_add : (i k : ℕ) → 2 ^ (i + k) ≡ 2 ^ k * 2 ^ i
pow_add i zero = let e : i + 0 ≡ i = omega arith in rw e (omega arith)
pow_add i (suc k) =
    let e : i + suc k ≡ suc (i + k) = omega arith in
    rw e (omega (arith, pow-suc 2 (i + k), pow_add i k, ap (λ (t : ℕ). t * 2 ^ i) (pow-suc 2 k)))

above : (i k : ℕ) → bit_and (2 ^ (i + suc k)) (2 ^ i) ≡ 0
above i k =
    let e : 2 ^ (i + suc k) ≡ 2 ^ suc k * 2 ^ i = pow_add i (suc k) in
    let d : bit_and (2 ^ suc k * 2 ^ i) (1 * 2 ^ i) ≡ bit_and (2 ^ suc k) 1 * 2 ^ i =
      and-shift i (2 ^ suc k) 1 in
    let z : bit_and (2 ^ suc k) 1 ≡ 0 = and-ones 1 (2 ^ suc k) ∙ omega (arith, pow-suc 2 k) in
    let o : 1 * 2 ^ i ≡ 2 ^ i = omega arith in
    subst (λ x. bit_and x (2 ^ i) ≡ 0) (sym e)
      (subst (λ y. bit_and (2 ^ suc k * 2 ^ i) y ≡ 0) o (d ∙ ap (λ x. x * 2 ^ i) z ∙ omega arith))

places_apart : (o i : ℕ) → o ≢ i → bit_and (2 ^ o) (2 ^ i) ≡ 0
places_apart o i n = elim (Bool-cases (ltb o i)) [
  | inl c ↦
      let e : i ≡ o + suc (i - o - 1) = ground arith in
      and_comm (2 ^ o) (2 ^ i)
      ∙ subst (λ x. bit_and (2 ^ x) (2 ^ o) ≡ 0) (sym e) (above o (i - o - 1))
  | inr c ↦
      let e : o ≡ i + suc (o - i - 1) = ground arith in
      subst (λ x. bit_and (2 ^ x) (2 ^ i) ≡ 0) (sym e) (above i (o - i - 1))
]

le-or_fuel : (n a b : ℕ) → b ≤ n → b ≤ bit_or a b
le-or_fuel n a zero h = omega arith
le-or_fuel zero a (suc b) h = absurd (omega arith)
le-or_fuel (suc n) a (suc b) h =
    omega (arith, or_digit a (suc b), le-or_fuel n (a / 2) (suc b / 2) (omega arith))

le-or : (a b : ℕ) → b ≤ bit_or a b
le-or a b = le-or_fuel b a b (omega arith)

same_place : (i : ℕ) → bit_and (2 ^ i) (2 ^ i) ≡ 2 ^ i
same_place i =
    let o : 1 * 2 ^ i ≡ 2 ^ i = omega arith in
    subst (λ x. bit_and x x ≡ x) o (and-shift i 1 1 ∙ refl)

pos : (i : ℕ) → 0 < 2 ^ i
pos i = omega (arith, one-le-pow i 2)

-- The bit of a word at a place.
abbrev pub bit_of : ℕ → ℕ → Bool
bit_of w i = not (bit_and w (2 ^ i) == 0)

bit_of-or : (w o i : ℕ) → bit_of (bit_or w (2 ^ o)) i ≡ ((i == o) || bit_of w i)
bit_of-or w o i =
    let e = or-and w (2 ^ o) (2 ^ i) in
    elim (Bool-cases (i == o)) [
      | inr c ↦
          let a : bit_and (2 ^ o) (2 ^ i) ≡ 0 = places_apart o i (λ q. ground arith) in
          let d : bit_and (bit_or w (2 ^ o)) (2 ^ i) ≡ bit_and w (2 ^ i) =
            e ∙ ap (bit_or (bit_and w (2 ^ i))) a ∙ or-zero (bit_and w (2 ^ i)) in
          ground arith
      | inl c ↦
          let q : i ≡ o = ground arith in
          let d : bit_and (2 ^ o) (2 ^ i) ≡ 2 ^ i =
            subst (λ x. bit_and (2 ^ x) (2 ^ i) ≡ 2 ^ i) q (same_place i) in
          ground (arith, pos i, le-or (bit_and w (2 ^ i)) (bit_and (2 ^ o) (2 ^ i)))
    ]

bit_of-all_but :
    (w o i : ℕ) → o < 32 → i < 32 → bit_of (bit_and w (all_but o)) i ≡ (bit_of w i && not (i == o))
bit_of-all_but w o i h l =
    let m = all_but-masked o h in
    let e = and_assoc w (all_but o) (2 ^ i) in
    elim (Bool-cases (i == o)) [
      | inl c ↦
          let q : i ≡ o = ground arith in
          let a : bit_and (all_but o) (2 ^ i) ≡ 0 =
            subst (λ x. bit_and (all_but o) (2 ^ x) ≡ 0) (sym q) m.0 in
          let d : bit_and (bit_and w (all_but o)) (2 ^ i) ≡ 0 = e ∙ ap (bit_and w) a ∙ and-zero w in
          ground arith
      | inr c ↦
          let a : bit_and (2 ^ o) (2 ^ i) ≡ 0 = places_apart o i (λ q. ground arith) in
          let f : bit_and (2 ^ 32 - 1) (2 ^ i) ≡ bit_and (all_but o) (2 ^ i) =
            ap (λ x. bit_and x (2 ^ i)) (sym m.1)
            ∙ or-and (all_but o) (2 ^ o) (2 ^ i)
            ∙ ap (bit_or (bit_and (all_but o) (2 ^ i))) a
            ∙ or-zero (bit_and (all_but o) (2 ^ i)) in
          let g : bit_and (all_but o) (2 ^ i) ≡ 2 ^ i = sym f ∙ ones-place i l in
          let d : bit_and (bit_and w (all_but o)) (2 ^ i) ≡ bit_and w (2 ^ i) =
            e ∙ ap (bit_and w) g in
          ground arith
    ]

-- Of the bits of an array, `|= 1 << off` sets the one.
pub bit_at-or :
    (words : ℕ → ℕ) (irq j : ℕ)
    → bit_at (set_at words (irq / 32) (bit_or (words (irq / 32)) (2 ^ (irq % 32)))) j
      ≡ ((j == irq) || bit_at words j)
bit_at-or words irq j = elim (Bool-cases (j / 32 == irq / 32)) [
  | inr c ↦ rw c (ground arith)
  | inl c ↦
      let q : j / 32 ≡ irq / 32 = ground arith in
      let e = bit_of-or (words (irq / 32)) (irq % 32) (j % 32) in
      let d : (j % 32 == irq % 32) ≡ (j == irq) = ground arith in
      rw (c, q) (e ∙ ap (λ x. x || bit_of (words (irq / 32)) (j % 32)) d)
]

-- Of the bits of an array, `&= ~(1 << off)` clears the one.
pub bit_at-all_but :
    (words : ℕ → ℕ) (irq j : ℕ)
    → bit_at (set_at words (irq / 32) (bit_and (words (irq / 32)) (all_but (irq % 32)))) j
      ≡ (bit_at words j && not (j == irq))
bit_at-all_but words irq j = elim (Bool-cases (j / 32 == irq / 32)) [
  | inr c ↦ rw c (ground arith)
  | inl c ↦
      let q : j / 32 ≡ irq / 32 = ground arith in
      let e = bit_of-all_but (words (irq / 32)) (irq % 32) (j % 32) (omega arith) (omega arith) in
      let d : (j % 32 == irq % 32) ≡ (j == irq) = ground arith in
      rw (c, q) (e ∙ ap (λ x. bit_of (words (irq / 32)) (j % 32) && not x) d)
]
